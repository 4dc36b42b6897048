-- ===== src/ClientBuffer/Send/Progress.antt =====
-- `ClientBuffer::send` again and again, as the sender calls it when epoll says that the kernel has
-- room: everything goes out.
use tin_locus.Base.{
  ℕ, ◌+◌, ◌≤◌, ◌<◌, ◌≡◌, refl, sym, ap, subst, ◌∙◌, inl, inr, false, true, not, List, [], ◌∷◌, ◌++◌,
  ◌&&◌, arith, Result, ok, length, length-append, Bool-cases,
}
use tin_locus.Buffer
use tin_locus.Buffer.{Buffer, Stage}
use tin_locus.Buffer.Bytes.{join}
use tin_locus.Buffer.Invariant.{
  IsValid, contents, push_front-IsValid, is_empty-nil, is_empty-not_nil,
}
use tin_locus.Buffer.Drain.{pop_ok}
use tin_locus.Message.{MessageType}
use tin_locus.ClientBuffer.{is_nil, is_stage, notify}
use tin_locus.ClientBuffer.Send.{Sent, Handled, send_bytes, send_loop, sent_round}
use tin_locus.ClientBuffer.Send.Conserve.{send_bytes-split}
use tin_locus.ClientBuffer.Send.Willing.{
  Ends, IsPending, NoFail, Willing, not_nil, pos_of_not_nil, send_bytes-NoFail, send_bytes-less,
  send_bytes-next,
}

-- What the rounds owe from a state on.
abbrev pub Finishes : Handled → Result Handled → Type 0
Finishes h r =
    (k : Handled) × (r ≡ ok k)
    × Ends k.state
    × (length (contents k.state.buffer_out) ≤ length (contents h.state.buffer_out))
    × (Willing h.answers
        → length (contents k.state.buffer_out) < length (contents h.state.buffer_out))

module _ (h : Handled) (bs : List ℕ) (out : Buffer) (more : Handled → Result Handled)
    (p : IsPending h.state) (steady : NoFail h.answers)
    (total : contents h.state.buffer_out ≡ bs ++ contents out) (v : IsValid out)
    (same : out.stage ≡ h.state.buffer_out.stage)
    (rest : (n : Handled)
      → n.state.buffer_out ≡ out
      → IsPending n.state
      → NoFail n.answers
      → Finishes n (more n)) where
  abbrev sent : Sent
  sent = send_bytes bs false h.answers

  sizes :
      (length (contents h.state.buffer_out) ≡ length bs + length (contents out))
      × (length sent.remained ≤ length bs)
  sizes = (
    ap length total ∙ length-append bs (contents out),
    omega (
      arith,
      ap length (send_bytes-split bs false h.answers),
      length-append sent.wire sent.remained,
    ),
  )

  stays : is_nil sent.remained ≡ false → Finishes h (sent_round h out sent more)
  unfolding Buffer.push_front
  stays some_left =
      let (w, e) =
        push_front-IsValid sent.remained out v (omega (arith, sizes.0, sizes.1, p.valid.bounded)) in
      let size = ap length e ∙ length-append sent.remained (contents out) in
      (
        record {
          state = record h.state {
            close = sent.closed;
            buffer_out = Buffer.push_front sent.remained out;
          };
          wire = h.wire ++ sent.wire;
          pushed = h.pushed;
          answers = sent.answers;
        },
        rw some_left,
        inr (record {
          open_now = (send_bytes-NoFail bs h.answers steady).0;
          sending = same ∙ p.sending;
          valid = w;
          some_left = λ q. not_nil sent.remained (contents out) some_left (sym e ∙ q);
        }),
        omega (arith, size, sizes.0, sizes.1),
        λ willing. omega (arith, size, sizes.0, send_bytes-less bs h.answers willing some_left),
      )

  ends :
      is_nil sent.remained ≡ true
      → Buffer.is_empty out ≡ true
      → Finishes h (sent_round h out sent more)
  unfolding Buffer.set_stage
  ends all last =
      let gone = is_empty-nil out v last in
      let before = pos_of_not_nil (contents h.state.buffer_out) p.some_left in
      (
        record {
          state = record h.state {
            close = sent.closed;
            buffer_out = Buffer.set_stage Stage.empty out;
          };
          wire = h.wire ++ sent.wire;
          pushed =
              h.pushed ++ notify (record h.state { close = sent.closed }) MessageType.packet_send;
          answers = sent.answers;
        },
        rw (all, last),
        inl (record {
          open_now = (send_bytes-NoFail bs h.answers steady).0;
          stage = refl;
          valid = record { counted = v.counted; bounded = v.bounded };
          none_left = gone;
        }),
        omega (arith, ap length gone),
        λ willing. omega (arith, ap length gone, before),
      )

  abbrev next : Handled
  next = record {
    state = record h.state { close = sent.closed; buffer_out = out };
    wire = h.wire ++ sent.wire;
    pushed = h.pushed;
    answers = sent.answers;
  }

  goes_on :
      is_nil sent.remained ≡ true
      → Buffer.is_empty out ≡ false
      → Finishes h (sent_round h out sent more)
  goes_on all others =
      let (k, e, done, fewer, less) =
        rest next refl
          (record {
            open_now = (send_bytes-NoFail bs h.answers steady).0;
            sending = same ∙ p.sending;
            valid = v;
            some_left = is_empty-not_nil out v others;
          })
          (send_bytes-NoFail bs h.answers steady).1 in
      (
        k,
        rw (all, others) e,
        done,
        omega (arith, fewer, sizes.0),
        λ willing. elim (send_bytes-next bs h.answers willing) [
          | inl still ↦ omega (arith, less still, sizes.0)
          | inr some_sent ↦ omega (arith, fewer, sizes.0)
        ],
      )

  sent_round-Finishes : Finishes h (sent_round h out sent more)
  sent_round-Finishes = elim (Bool-cases (is_nil sent.remained)) [
    | inr some_left ↦ stays some_left
    | inl all ↦ elim (Bool-cases (Buffer.is_empty out)) [
      | inl last ↦ ends all last
      | inr others ↦ goes_on all others
    ]
  ]

first_round :
    (c : List ℕ) (cs : List (List ℕ)) (h : Handled) (bs : List ℕ) (out : Buffer)
    → h.state.close ≡ false
    → h.state.buffer_out.stage ≡ Stage.sending
    → Buffer.pop h.state.buffer_out ≡ ok (bs, out)
    → send_loop (c ∷ cs) h ≡ sent_round h out (send_bytes bs false h.answers) (send_loop cs)
unfolding send_loop is_stage
first_round c cs h bs out open_now sending e =
    let runs : not h.state.close && is_stage h.state.buffer_out.stage Stage.sending ≡ true =
      ground (arith, open_now, sending) in
    rw (runs, e)
      (ap (λ x. sent_round h out (send_bytes bs x h.answers) (λ rest. send_loop cs rest)) open_now)

pub send_loop-Finishes :
    (cs : List (List ℕ)) (h : Handled)
    → h.state.buffer_out.buffer ≡ cs
    → IsPending h.state
    → NoFail h.answers
    → Finishes h (send_loop cs h)
unfolding send_loop is_stage
send_loop-Finishes [] h chunks p steady = absurd (p.some_left (ap join chunks))
send_loop-Finishes (c ∷ cs) h chunks p steady =
    let (bs, out, e, s) = pop_ok h.state.buffer_out p.valid p.some_left in
    let others : out.buffer ≡ cs = cc (s.chunks, chunks) in
    let round =
      sent_round-Finishes h bs out (send_loop cs) p steady s.split s.valid s.same_stage
        (λ n same q z. send_loop-Finishes cs n (ap (λ (b : Buffer). b.buffer) same ∙ others) q z) in
    subst (Finishes h) (sym (first_round c cs h bs out p.open_now p.sending e)) round
