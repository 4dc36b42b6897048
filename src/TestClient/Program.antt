-- ===== src/TestClient/Program.antt =====
-- The whole of test_client.cpp: `main`, and what the reading thread does to it.
use tin_locus.Base.{
  ℕ, suc, ◌≤◌, ◌<◌, ◌≡◌, refl, ap, ◌∙◌, ◌||◌, Bool, true, false, List, [], ◌∷◌, ◌++◌, map, length,
}
use tin_locus.TestClient.{
  Answer, Ended, Sent, Cin, Received, Call, Kernel, setup_fails, main, input_loop, nothing_sent,
  and_then, get, reading_thread_routine,
}
use tin_locus.TestClient.Sending.{AllTake}
use tin_locus.TestClient.Lines.{typed}
use tin_locus.TestClient.Typed.{Told, ready, input_loop-Told}
use mathlib.Core.List.{append-nil}

closes_after :
    (bytes : List ℕ) (s : Sent) (more : List Answer → Sent)
    → Told bytes s
    → Told [] (more s.answers)
    → Told bytes (and_then s more)
closes_after bytes s more (e, f) (g, h) =
    rw e (g, ap (λ (w : List ℕ). s.wire ++ w) h ∙ append-nil s.wire ∙ f)

-- How `main` ends.
abbrev pub Runs : Kernel → List ℕ → Sent → Type 0
Runs k text s =
    (setup_fails k ≡ true → (s.ended ≡ Ended.failure) × (s.wire ≡ []))
    × (setup_fails k ≡ false → Told (typed text) s)

-- Where a check before the loop fails, `main` ends with EXIT_FAILURE and has sent nothing. Where all
-- pass, the kernel takes a byte in each call and `close` succeeds, it has sent the characters of the
-- lines that are typed, none if the first is empty, and returns, within a round for each character and
-- one more, unless the server closes.
pub main-Runs :
    (k : Kernel) (rounds : ℕ) (text : List ℕ) (answers : List Answer)
    → k.refuses Call.close ≡ false
    → length text < rounds
    → AllTake answers
    → length text ≤ length answers
    → Runs k text (main k rounds [] text answers)
unfolding main
main-Runs k rounds text answers closes enough w takes = (
  λ fails. rw fails (refl, refl),
  λ passes.
      rw (passes, closes)
        (closes_after (typed text) (input_loop rounds [] (ready text) answers) nothing_sent
          (input_loop-Told rounds text answers enough w takes) (refl, refl)),
)

prints :
    (messages : List (List ℕ)) (rest : List Received)
    → reading_thread_routine (map Received.bytes messages ++ Received.shutdown ∷ rest)
      ≡ (messages, true)
unfolding reading_thread_routine
prints [] rest = refl
prints (m ∷ ms) rest = rw (prints ms rest)

or_true : (b : Bool) → (b || true) ≡ true
or_true true = refl
or_true false = refl

get_eof : (c : Cin) → c.eof ≡ true → get c ≡ ([], record c { fail = true })
unfolding get
get_eof c e = rw e refl

eof_ends :
    (rounds : ℕ) (closes : List Bool) (cin : Cin) (answers : List Answer)
    → input_loop (suc rounds) (true ∷ closes) cin answers ≡ nothing_sent answers
unfolding input_loop
eof_ends rounds closes cin answers =
    rw (get_eof (record cin { eof = cin.eof || true }) (or_true cin.eof)) refl

-- When the server closes the connection, the reading thread has printed all that came before and sets
-- `eofbit`, and the loop of `main` ends in the next round without sending anything, whatever is typed.
pub shutdown_ends :
    (messages : List (List ℕ)) (rest : List Received) (rounds : ℕ) (closes : List Bool) (cin : Cin)
    (answers : List Answer)
    → let (printed, ended) =
        reading_thread_routine (map Received.bytes messages ++ Received.shutdown ∷ rest) in
      (printed ≡ messages)
      × (input_loop (suc rounds) (ended ∷ closes) cin answers ≡ nothing_sent answers)
shutdown_ends messages rest rounds closes cin answers =
    rw (prints messages rest) (refl, eof_ends rounds closes cin answers)
