-- ===== src/ClientBuffer/Send/Conserve.antt =====
-- What `send()` owes whatever the kernel answers: no byte is lost, doubled or put out of order.
use tin_locus.Base.{
  ℕ, ◌+◌, ◌%◌, ◌^◌, ◌<◌, ◌≡◌, ◌≢◌, refl, sym, ap, subst, ◌∙◌, inl, inr, Bool, true, false, not,
  ◌&&◌, List, [], ◌∷◌, ◌++◌, arith, Result, ok, throws, undefined, length, take-append-drop,
  length-append, Bool-cases, if◌then◌else◌,
}
use tin_locus.Buffer
use tin_locus.Buffer.{Buffer, Stage}
use tin_locus.Buffer.Bytes.{join}
use tin_locus.Buffer.Invariant.{
  IsValid, contents, push_front-IsValid, is_empty-nil, is_empty-not_nil,
}
use tin_locus.Buffer.Drain.{pop_ok}
use tin_locus.Converter.{to_bytes, length-to_bytes}
use tin_locus.ClientBuffer.{ClientBuffer, is_nil, is_stage}
use tin_locus.ClientBuffer.Send.{
  Taken, took, would_block, failed, Sent, Handled, send_bytes, send_loop, send_size, send,
  sent_round,
}
use mathlib.Core.List.{append-nil, append_assoc}

-- What a chunk is split into.
pub send_bytes-split :
    (bs : List ℕ) (closed : Bool) (answers : List Taken)
    → let s = send_bytes bs closed answers in s.wire ++ s.remained ≡ bs
unfolding send_bytes is_nil
send_bytes-split [] true answers = refl
send_bytes-split [] false answers = refl
send_bytes-split (b ∷ bs) true answers = refl
send_bytes-split (b ∷ bs) false [] = refl
send_bytes-split (b ∷ bs) false (would_block ∷ rest) = refl
send_bytes-split (b ∷ bs) false (failed ∷ rest) = refl
send_bytes-split (b ∷ bs) false (took n ∷ rest) = take-append-drop n (b ∷ bs)

-- What went out between two states, and what is left.
pub record Conserved (h k : Handled) : Type 0 where
  pub sent : List ℕ
  pub wire : k.wire ≡ h.wire ++ sent
  pub kept : sent ++ contents k.state.buffer_out ≡ contents h.state.buffer_out
  pub valid : IsValid k.state.buffer_out

abbrev pub Conserves : Handled → Result Handled → Type 0
Conserves h (ok k) = Conserved h k
Conserves h throws = contents h.state.buffer_out ≡ []
Conserves h undefined = ⊥

pop_empty : (b : Buffer) → IsValid b → contents b ≡ [] → Buffer.pop b ≡ throws
unfolding Buffer.pop
pop_empty b v e = ground (arith, v.counted, ap length e)

is_nil-nil : (xs : List ℕ) → is_nil xs ≡ true → xs ≡ []
unfolding is_nil
is_nil-nil [] h = refl
is_nil-nil (x ∷ xs) h = cc

-- What the rounds owe after one that sent some bytes.
widen :
    (h next : Handled) (front : List ℕ) (r : Result Handled)
    → next.wire ≡ h.wire ++ front
    → front ++ contents next.state.buffer_out ≡ contents h.state.buffer_out
    → contents next.state.buffer_out ≢ []
    → Conserves next r
    → Conserves h r
widen h next front (ok k) w kept some_left c = record {
  sent = front ++ c.sent;
  wire = c.wire ∙ ap (λ (xs : List ℕ). xs ++ c.sent) w ∙ append_assoc h.wire front c.sent;
  kept = append_assoc front c.sent (contents k.state.buffer_out) ∙ ap (◌++◌ front) c.kept ∙ kept;
  valid = c.valid;
}
widen h next front throws w kept some_left c = absurd (some_left c)
widen h next front undefined w kept some_left c = c

-- A round behind the call of `send`, by what the rounds after it owe.
sent_round-Conserves :
    (h : Handled) (bs : List ℕ) (out : Buffer) (s : Sent) (more : Handled → Result Handled)
    → s.wire ++ s.remained ≡ bs
    → contents h.state.buffer_out ≡ bs ++ contents out
    → IsValid h.state.buffer_out
    → IsValid out
    → ((next : Handled) → next.state.buffer_out ≡ out → Conserves next (more next))
    → Conserves h (sent_round h out s more)
unfolding Buffer.set_stage
sent_round-Conserves h bs out s more split total v w rest = elim (Bool-cases (is_nil s.remained)) [
  | inr some_left ↦ rw some_left (record {
    sent = s.wire;
    wire = refl;
    kept = ap (◌++◌ s.wire) put_back.1 ∙ whole;
    valid = put_back.0;
  })
  | inl none_left ↦ elim (Bool-cases (Buffer.is_empty out)) [
    | inl last ↦
        rw (none_left, last)
          (record {
            sent = s.wire;
            wire = refl;
            kept = all_sent none_left;
            valid = record { counted = w.counted; bounded = w.bounded };
          })
    | inr goes_on ↦
        rw (none_left, goes_on)
          (widen h next s.wire (more next) refl (all_sent none_left)
            (is_empty-not_nil out w goes_on) (rest next refl))
  ]
]
  where
    next : Handled
    next = record {
      state = record h.state { close = s.closed; buffer_out = out };
      wire = h.wire ++ s.wire;
      pushed = h.pushed;
      answers = s.answers;
    }

    whole : s.wire ++ (s.remained ++ contents out) ≡ contents h.state.buffer_out
    whole =
        sym (append_assoc s.wire s.remained (contents out))
        ∙ ap (λ (xs : List ℕ). xs ++ contents out) split
        ∙ sym total

    put_back :
        IsValid (Buffer.push_front s.remained out)
        × (contents (Buffer.push_front s.remained out) ≡ s.remained ++ contents out)
    put_back = push_front-IsValid s.remained out w (
        omega (
          arith,
          v.bounded,
          ap length whole,
          length-append s.wire (s.remained ++ contents out),
          length-append s.remained (contents out),
        ))

    all_sent : is_nil s.remained ≡ true → s.wire ++ contents out ≡ contents h.state.buffer_out
    all_sent e = rw (is_nil-nil s.remained e) at whole

unchanged : (h : Handled) → IsValid h.state.buffer_out → Conserved h h
unchanged h v = record { sent = []; wire = sym (append-nil h.wire); kept = refl; valid = v }

abbrev runs : Handled → Bool
runs h = not h.state.close && is_stage h.state.buffer_out.stage Stage.sending

pub send_loop-Conserves :
    (cs : List (List ℕ)) (h : Handled)
    → h.state.buffer_out.buffer ≡ cs
    → IsValid h.state.buffer_out
    → Conserves h (send_loop cs h)
unfolding send_loop
send_loop-Conserves [] h chunks v = elim (Bool-cases (runs h)) [
  | inr stops ↦ rw stops (unchanged h v)
  | inl goes ↦ rw (goes, pop_empty h.state.buffer_out v (ap join chunks)) (ap join chunks)
]
send_loop-Conserves (c ∷ cs) h chunks v = elim (Bool-cases (runs h)) [
  | inr stops ↦ rw stops (unchanged h v)
  | inl goes ↦ elim (Bool-cases (Buffer.is_empty h.state.buffer_out)) [
    | inl nothing ↦
        let gone = is_empty-nil h.state.buffer_out v nothing in
        rw (goes, pop_empty h.state.buffer_out v gone) gone
    | inr something ↦
        let (bs, out, e, s) =
          pop_ok h.state.buffer_out v (is_empty-not_nil h.state.buffer_out v something) in
        let others : out.buffer ≡ cs = cc (s.chunks, chunks) in
        rw (goes, e)
          (sent_round-Conserves h bs out (send_bytes bs h.state.close h.answers) (send_loop cs)
            (send_bytes-split bs h.state.close h.answers) s.split v s.valid
            (λ next same.
              send_loop-Conserves cs next (ap (λ b. b.buffer) same ∙ others)
                (subst IsValid (sym same) s.valid)))
  ]
]

-- The bytes that `send()` has to put on the wire: a full buffer gets its size first.
abbrev pub due : ClientBuffer → List ℕ
due c =
    if not c.close && is_stage c.buffer_out.stage Stage.full
    then to_bytes 2 (c.buffer_out.buffer_size % 2 ^ 16) ++ contents c.buffer_out
    else contents c.buffer_out

-- What `send()` owes.
abbrev pub Sends : ClientBuffer → Result Handled → Type 0
Sends c (ok k) = (k.wire ++ contents k.state.buffer_out ≡ due c) × IsValid k.state.buffer_out
Sends c throws = due c ≡ []
Sends c undefined = ⊥

pub sized-due :
    (c : ClientBuffer)
    → IsValid c.buffer_out
    → length (contents c.buffer_out) + 2 < 2 ^ 64
    → (contents (send_size c).buffer_out ≡ due c) × IsValid (send_size c).buffer_out
unfolding send_size Buffer.set_stage Buffer.set_max_size Buffer.size
sized-due c v fits = elim (Bool-cases (not c.close && is_stage c.buffer_out.stage Stage.full)) [
  | inl full ↦
      let header = to_bytes 2 (c.buffer_out.buffer_size % 2 ^ 16) in
      let (w, e) =
        push_front-IsValid header c.buffer_out v
          (omega (arith, length-to_bytes 2 (c.buffer_out.buffer_size % 2 ^ 16))) in
      rw full (e, record { counted = w.counted; bounded = w.bounded })
  | inr other ↦ rw other (refl, v)
]

-- Whatever the kernel answers - parts of chunks, EAGAIN, an error - what `send()` put on the wire and
-- what it left in the buffer are together, in order, the bytes that were due; it throws only if
-- nothing was due.
pub send-Sends :
    (c : ClientBuffer) (answers : List Taken)
    → IsValid c.buffer_out
    → length (contents c.buffer_out) + 2 < 2 ^ 64
    → Sends c (send c answers)
unfolding send
send-Sends c answers v fits =
    let (e, w) = sized-due c v fits in
    outcome (send_loop (send_size c).buffer_out.buffer start) e
      (send_loop-Conserves (send_size c).buffer_out.buffer start refl w)
  where
    start : Handled
    start = record { state = send_size c; wire = []; pushed = []; answers = answers }

    outcome :
        (r : Result Handled)
        → contents (send_size c).buffer_out ≡ due c
        → Conserves start r
        → Sends c r
    outcome (ok k) e h =
        (ap (λ (w : List ℕ). w ++ contents k.state.buffer_out) h.wire ∙ h.kept ∙ e, h.valid)
    outcome throws e h = sym e ∙ h
    outcome undefined e h = h
