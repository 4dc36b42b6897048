-- ===== src/ClientBuffer/Send/Finish.antt =====
-- `ClientBuffer::send` called until nothing is left, as the sender does when epoll says that the
-- kernel has room.
use tin_locus.Base.{
  ℕ, ◌+◌, ◌%◌, ◌^◌, ◌≤◌, ◌<◌, ◌≡◌, refl, sym, ap, subst, ◌∙◌, inl, inr, false, true, not, List, [],
  ◌∷◌, ◌++◌, ◌&&◌, arith, Result, ok, ◌>>=◌, length, length-append,
}
use tin_locus.Buffer
use tin_locus.Buffer.{Stage}
use tin_locus.Buffer.Invariant.{IsValid, contents}
use tin_locus.Converter.{to_bytes, length-to_bytes}
use tin_locus.ClientBuffer.{ClientBuffer, is_stage}
use tin_locus.ClientBuffer.Send.{Taken, Handled, send_loop, send_size, send}
use tin_locus.ClientBuffer.Send.Conserve.{Sends, send-Sends, sized-due, due}
use tin_locus.ClientBuffer.Send.Willing.{
  Willing, NoFail-Willing, IsPending, IsDone, Ends, pos_of_not_nil,
}
use tin_locus.ClientBuffer.Send.Progress.{send_loop-Finishes}

-- The calls, each with what the kernel answers in it: what went out, and the connection after them.
unfoldable pub sends : List (List Taken) → ClientBuffer → Result (List ℕ × ClientBuffer)
sends [] c = ok ([], c)
sends (a ∷ rest) c = do k ← send c a; (wire, d) ← sends rest k.state; ok (k.wire ++ wire, d)

abbrev pub AllWilling : List (List Taken) → Type 0
AllWilling [] = Unit {0}
AllWilling (a ∷ rest) = Willing a × AllWilling rest

size_kept : (c : ClientBuffer) → is_stage c.buffer_out.stage Stage.full ≡ false → send_size c ≡ c
unfolding send_size
size_kept c e = ground (arith, e)

not_due :
    (c : ClientBuffer)
    → is_stage c.buffer_out.stage Stage.full ≡ false
    → due c ≡ contents c.buffer_out
not_due c e = ground (arith, e)

not_full :
    (c : ClientBuffer)
    → c.buffer_out.stage ≡ Stage.sending
    → is_stage c.buffer_out.stage Stage.full ≡ false
unfolding is_stage
not_full c e = rw e

idle :
    (c : ClientBuffer)
    → c.buffer_out.stage ≡ Stage.empty
    → is_stage c.buffer_out.stage Stage.full ≡ false
unfolding is_stage
idle c e = rw e

-- A connection that has nothing to send sends nothing.
loop_idle :
    (cs : List (List ℕ)) (h : Handled)
    → h.state.buffer_out.stage ≡ Stage.empty
    → send_loop cs h ≡ ok h
unfolding send_loop is_stage
loop_idle [] h e = ground (arith, e)
loop_idle (c ∷ cs) h e = ground (arith, e)

abbrev from : ClientBuffer → List Taken → Handled
from c a = record { state = c; wire = []; pushed = []; answers = a }

send_idle : (c : ClientBuffer) (a : List Taken) → IsDone c → send c a ≡ ok (from c a)
unfolding send
send_idle c a d =
    ap (λ (s : ClientBuffer). send_loop s.buffer_out.buffer (from s a))
      (size_kept c (idle c d.stage))
    ∙ loop_idle c.buffer_out.buffer (from c a) d.stage

sends_idle : (calls : List (List Taken)) (c : ClientBuffer) → IsDone c → sends calls c ≡ ok ([], c)
unfolding sends
sends_idle [] c d = refl
sends_idle (a ∷ rest) c d = rw (send_idle c a d, sends_idle rest c d)

-- One call: it sends something.
record Progress (c : ClientBuffer) (a : List Taken) : Type 0 where
  after : Handled
  returned : send c a ≡ ok after
  ends : Ends after.state
  split : after.wire ++ contents after.state.buffer_out ≡ contents c.buffer_out
  fewer : length (contents after.state.buffer_out) < length (contents c.buffer_out)

send-Progress :
    (c : ClientBuffer) (a : List Taken)
    → IsPending c
    → Willing a
    → length (contents c.buffer_out) + 2 < 2 ^ 64
    → Progress c a
unfolding send
send-Progress c a p willing fits =
    let kept = size_kept c (not_full c p.sending) in
    let (k, e, done, fewer, less) =
      send_loop-Finishes c.buffer_out.buffer (from c a) refl p (NoFail-Willing a willing) in
    let returned : send c a ≡ ok k =
      ap (λ (s : ClientBuffer). send_loop s.buffer_out.buffer (from s a)) kept ∙ e in
    record {
      after = k;
      returned = returned;
      ends = done;
      split =
          (subst (Sends c) returned (send-Sends c a p.valid fits)).0
          ∙ not_due c (not_full c p.sending);
      fewer = less willing;
    }

sends_pending :
    (calls : List (List Taken)) (c : ClientBuffer)
    → IsPending c
    → AllWilling calls
    → length (contents c.buffer_out) + 2 < 2 ^ 64
    → length (contents c.buffer_out) ≤ length calls
    → (d : ClientBuffer) × (sends calls c ≡ ok (contents c.buffer_out, d)) × IsDone d
unfolding sends
sends_pending [] c p w fits enough =
    absurd (p.some_left (ground (arith, pos_of_not_nil (contents c.buffer_out) p.some_left)))
sends_pending (a ∷ rest) c p w fits enough =
    let q = send-Progress c a p w.0 fits in
    elim q.ends [
      | inl done ↦ (
        q.after.state,
        rw (q.returned, sends_idle rest q.after.state done)
            (ap (λ (x : List ℕ). ok (x, q.after.state))
              (ap (◌++◌ q.after.wire) (sym done.none_left) ∙ q.split)),
        done,
      )
      | inr pending ↦
          let (d, e, done) =
            sends_pending rest q.after.state pending w.1 (omega (arith, q.fewer))
              (omega (arith, q.fewer)) in
          (d, rw (q.returned, e) (ap (λ (x : List ℕ). ok (x, d)) q.split), done)
    ]

-- A connection whose buffer holds a whole packet that waits for its size.
pub record IsFull (c : ClientBuffer) : Type 0 where
  pub open_now : c.close ≡ false
  pub stage : c.buffer_out.stage ≡ Stage.full
  pub valid : IsValid c.buffer_out
  pub fits : length (contents c.buffer_out) + 4 < 2 ^ 64

abbrev frame : ClientBuffer → List ℕ
frame c = to_bytes 2 (length (contents c.buffer_out) % 2 ^ 16) ++ contents c.buffer_out

module _ (c : ClientBuffer) (f : IsFull c) where
  is_full : not c.close && is_stage c.buffer_out.stage Stage.full ≡ true
  unfolding is_stage
  is_full = rw (f.open_now, f.stage)

  due-frame : due c ≡ frame c
  due-frame =
      rw is_full (ap (λ (n : ℕ). to_bytes 2 (n % 2 ^ 16) ++ contents c.buffer_out) f.valid.counted)

  sized_contents : (contents (send_size c).buffer_out ≡ frame c) × IsValid (send_size c).buffer_out
  sized_contents = let (e, v) = sized-due c f.valid (omega (arith, f.fits)) in (e ∙ due-frame, v)

  length-frame : length (frame c) ≡ length (contents c.buffer_out) + 2
  length-frame = omega (
    arith,
    length-append (to_bytes 2 (length (contents c.buffer_out) % 2 ^ 16)) (contents c.buffer_out),
    length-to_bytes 2 (length (contents c.buffer_out) % 2 ^ 16),
  )

  sized_stage : ((send_size c).buffer_out.stage ≡ Stage.sending) × ((send_size c).close ≡ false)
  unfolding send_size Buffer.set_stage
  sized_stage = rw is_full (refl, f.open_now)

  sized-IsPending : IsPending (send_size c)
  sized-IsPending = record {
    open_now = sized_stage.1;
    sending = sized_stage.0;
    valid = sized_contents.1;
    some_left =
        λ nothing. omega (arith, length-frame, ap length sized_contents.0, ap length nothing);
  }

  -- The size is written once.
  send_sized : (a : List Taken) → send c a ≡ send (send_size c) a
  unfolding send
  send_sized a =
      ap (λ (s : ClientBuffer). send_loop s.buffer_out.buffer (from s a))
        (sym (size_kept (send_size c) (not_full (send_size c) sized_stage.0)))

  sends_sized :
      (calls : List (List Taken)) → 0 < length calls → sends calls c ≡ sends calls (send_size c)
  unfolding sends
  sends_sized [] h = absurd (omega (arith, h))
  sends_sized (a ∷ rest) h = rw (send_sized a)

  -- Called as often as the frame has bytes, with a kernel that takes a byte in each call and reports
  -- no error, `send()` puts the size and the packet on the wire, once and in order, and leaves the
  -- connection open with an empty buffer.
  pub sends_full :
      (calls : List (List Taken))
      → AllWilling calls
      → length (contents c.buffer_out) + 2 ≤ length calls
      → (d : ClientBuffer) × (sends calls c
          ≡ ok (to_bytes 2 (length (contents c.buffer_out) % 2 ^ 16) ++ contents c.buffer_out, d))
        × IsDone d
  sends_full calls willing enough =
      let (d, e, done) =
        sends_pending calls (send_size c) sized-IsPending willing
          (omega (arith, f.fits, length-frame, ap length sized_contents.0))
          (omega (arith, enough, length-frame, ap length sized_contents.0)) in
      (
        d,
        sends_sized calls (omega (arith, enough))
            ∙ e
            ∙ ap (λ (x : List ℕ). ok (x, d)) sized_contents.0,
        done,
      )
