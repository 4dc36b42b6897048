-- ===== src/TestClient/Typed.antt =====
-- What the loop of `main` of test_client.cpp sends of the text that is typed.
use tin_locus.Base.{
  ℕ, zero, suc, ◌≤◌, ◌<◌, ◌≡◌, refl, sym, ap, subst, ◌∙◌, inl, inr, Bool, true, false, List, [],
  ◌∷◌, ◌++◌, arith, ltb, ◌==◌, if◌then◌else◌, length, length-append, Bool-cases,
}
use tin_locus.TestClient.{
  Answer, Ended, Sent, Cin, newline, take_line, is_nil, get, skip_newlines, input_loop,
  send_message, nothing_sent, and_then,
}
use tin_locus.TestClient.Sending.{AllTake, send_message-Sends, send_message-Returns}
use mathlib.Core.List.{append-nil}
use tin_locus.TestClient.Lines.{
  skip_newlines-Skips, take_line-IsTaken, typed, without_newlines, without_newlines-append,
}

abbrev pub ready : List ℕ → Cin
ready text = record { text = text; eof = false; fail = false }

-- The loop returned, and the bytes went out.
abbrev pub Told : List ℕ → Sent → Type 0
Told bytes s = (s.ended ≡ Ended.returned) × (s.wire ≡ bytes)

-- After the end of the input.
loop_over :
    (rounds : ℕ) (text : List ℕ) (answers : List Answer)
    → input_loop (suc rounds) [] (record { text = text; eof = true; fail = false }) answers
      ≡ nothing_sent answers
unfolding input_loop get
loop_over rounds text answers = refl

-- A round, from what `take_line` gives.
abbrev round : ℕ → List ℕ × List ℕ × Bool → List Answer → Sent
round rounds (line, rest, end) answers =
    if is_nil line
    then nothing_sent answers
    else and_then (if ltb 0 (length line) then send_message line answers else nothing_sent answers)
        (λ left.
          if end
          then nothing_sent left
          else input_loop rounds []
              (record {
                text = (skip_newlines rest).0;
                eof = (skip_newlines rest).1;
                fail = is_nil line;
              })
              left)

input_loop-round :
    (rounds : ℕ) (text : List ℕ) (answers : List Answer)
    → input_loop (suc rounds) [] (ready text) answers ≡ round rounds (take_line 99 text) answers
unfolding input_loop get
input_loop-round rounds text answers = refl

-- A message that went out whole, before what follows.
told_after :
    (line bytes : List ℕ) (s : Sent) (more : List Answer → Sent)
    → s.ended ≡ Ended.returned
    → s.wire ≡ line
    → Told bytes (more s.answers)
    → Told (line ++ bytes) (and_then s more)
told_after line bytes s more e f (g, h) = rw e (g, λ i. f i ++ h i)

next_char :
    (n c : ℕ) (cs : List ℕ)
    → (c == newline) ≡ false
    → (take_line (suc n) (c ∷ cs)).0 ≡ c ∷ (take_line n cs).0
unfolding take_line
next_char n c cs e = rw e refl

-- The start of a text in which a line begins.
first_line :
    (c : ℕ) (cs : List ℕ)
    → (c == newline) ≡ false
    → (d : ℕ) × (ds : List ℕ) × ((take_line 99 (c ∷ cs)).0 ≡ d ∷ ds)
first_line c cs e = (c, (take_line 98 cs).0, next_char 98 c cs e)

over-Told :
    (rounds : ℕ) (text : List ℕ) (left : List Answer)
    → 0 < rounds
    → Told [] (input_loop rounds [] (record { text = text; eof = true; fail = false }) left)
over-Told zero text left some_left = absurd (omega (arith, some_left))
over-Told (suc rounds) text left some_left =
    let e = loop_over rounds text left in
    (ap (λ (s : Sent). s.ended) e, ap (λ (s : Sent). s.wire) e)

-- A round whose line is not empty, and the rounds after it.
module _ (rounds : ℕ) (text : List ℕ) (answers : List Answer) (enough : length text < suc rounds)
    (w : AllTake answers) (takes : length text ≤ length answers)
    (again : (c : ℕ) (cs : List ℕ) (left : List Answer)
      → (c == newline) ≡ false
      → length (c ∷ cs) < rounds
      → AllTake left
      → length (c ∷ cs) ≤ length left
      → Told (without_newlines (c ∷ cs)) (input_loop rounds [] (ready (c ∷ cs)) left)) where
  abbrev next : List ℕ → Bool → List Answer → Sent
  next rest end left =
      if end
      then nothing_sent left
      else input_loop rounds []
          (record { text = (skip_newlines rest).0; eof = (skip_newlines rest).1; fail = false })
          left

  after-Told :
      (rest : List ℕ) (end : Bool) (left : List Answer)
      → length rest < length text
      → (end ≡ true → rest ≡ [])
      → AllTake left
      → length rest ≤ length left
      → Told (without_newlines rest) (next rest end left)
  unfolding without_newlines
  after-Told rest end left fewer at_end wl tl = elim (Bool-cases end) [
    | inl e ↦ rw e (refl, sym (ap without_newlines (at_end e)))
    | inr e ↦ elim (skip_newlines-Skips rest) [
      | inl (s, n) ↦ rw (e, s, n) (over-Told rounds [] left (omega (arith, enough, fewer)))
      | inr (c, cs, s, f, n, l) ↦
          rw (e, s, n)
            (again c cs left f (omega (arith, l, fewer, enough)) wl (omega (arith, l, tl)))
    ]
  ]

  round-Told :
      (d : ℕ) (ds rest : List ℕ) (end : Bool)
      → (d ∷ ds) ++ rest ≡ text
      → without_newlines (d ∷ ds) ≡ d ∷ ds
      → (end ≡ true → rest ≡ [])
      → Told (without_newlines text) (round rounds (d ∷ ds, rest, end) answers)
  round-Told d ds rest end split plain at_end =
      let size = sym (length-append (d ∷ ds) rest) ∙ ap length split in
      let pos : ltb 0 (length (d ∷ ds)) ≡ true = ground arith in
      let s = send_message (d ∷ ds) answers in
      let r = send_message-Returns (d ∷ ds) answers (omega arith) w (omega (arith, takes, size)) in
      let q = send_message-Sends (d ∷ ds) answers in
      let wire = sym (append-nil s.wire) ∙ ap (◌++◌ s.wire) (sym (q.whole r.returned)) ∙ q.split in
      let whole : (d ∷ ds) ++ without_newlines rest ≡ without_newlines text =
        ap (λ (line : List ℕ). line ++ without_newlines rest) (sym plain)
        ∙ sym (without_newlines-append (d ∷ ds) rest)
        ∙ ap without_newlines split in
      subst (λ (bytes : List ℕ). Told bytes (round rounds (d ∷ ds, rest, end) answers)) whole
        (rw pos (
          told_after (d ∷ ds) (without_newlines rest) s (next rest end) r.returned wire (
            after-Told rest end s.answers (omega (arith, size)) at_end r.willing
              (omega (arith, size, takes, r.used)))))

-- A round without a line.
empty_line :
    (rounds : ℕ) (text : List ℕ) (answers : List Answer)
    → (take_line 99 text).0 ≡ []
    → Told [] (input_loop (suc rounds) [] (ready text) answers)
empty_line rounds text answers e =
    let (line, rest, end) = take_line 99 text in
    subst (Told []) (sym (input_loop-round rounds text answers)) (
      subst (λ (bytes : List ℕ). Told [] (round rounds (bytes, rest, end) answers)) (sym e)
        (refl, refl))

empty_text : (take_line 99 []).0 ≡ []
unfolding take_line
empty_text = refl

empty_first :
    (c : ℕ) (cs : List ℕ) → (c == newline) ≡ true → (n : ℕ) → (take_line (suc n) (c ∷ cs)).0 ≡ []
unfolding take_line
empty_first c cs e n = rw e refl

loop-Told :
    (rounds : ℕ) (c : ℕ) (cs : List ℕ) (answers : List Answer)
    → (c == newline) ≡ false
    → length (c ∷ cs) < rounds
    → AllTake answers
    → length (c ∷ cs) ≤ length answers
    → Told (without_newlines (c ∷ cs)) (input_loop rounds [] (ready (c ∷ cs)) answers)
loop-Told zero c cs answers e enough w takes = absurd (omega (arith, enough))
loop-Told (suc rounds) c cs answers e enough w takes =
    let text = c ∷ cs in
    let (d, ds, f) = first_line c cs e in
    let l = take_line-IsTaken 99 text in
    let (line, rest, end) = take_line 99 text in
    subst (λ s. Told (without_newlines text) s) (sym (input_loop-round rounds text answers))
      (subst
        (λ (bytes : List ℕ). Told (without_newlines text) (round rounds (bytes, rest, end) answers))
        (sym f)
        (round-Told rounds text answers enough w takes (loop-Told rounds) d ds rest end
          (ap (λ (bytes : List ℕ). bytes ++ rest) (sym f) ∙ l.split)
          (ap without_newlines (sym f) ∙ l.plain ∙ f) l.at_end))

-- With a kernel that takes a byte in each call and reports no error, and a server that does not close,
-- the loop ends within a round for each character that is typed and one more, and has sent the
-- characters of all lines, once and in order, without the ends of the lines: nothing if the first
-- line is empty.
pub input_loop-Told :
    (rounds : ℕ) (text : List ℕ) (answers : List Answer)
    → length text < rounds
    → AllTake answers
    → length text ≤ length answers
    → Told (typed text) (input_loop rounds [] (ready text) answers)
unfolding typed
input_loop-Told zero text answers enough w takes = absurd (omega (arith, enough))
input_loop-Told (suc rounds) [] answers enough w takes = empty_line rounds [] answers empty_text
input_loop-Told (suc rounds) (c ∷ cs) answers enough w takes = elim (Bool-cases (c == newline)) [
  | inl e ↦ rw e (empty_line rounds (c ∷ cs) answers (empty_first c cs e 98))
  | inr e ↦ rw e (loop-Told (suc rounds) c cs answers e enough w takes)
]
