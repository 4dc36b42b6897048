-- ===== src/ClientBuffer/Send/Loop.antt =====
-- The loop of `ClientBuffer::send` while the kernel takes every chunk whole.
use tin_locus.Base.{
  ℕ, suc, ◌≡◌, ◌≢◌, refl, sym, ap, ◌∙◌, inl, inr, false, List, [], ◌∷◌, ◌++◌, arith, ok, length,
  take_all, drop_all, Bool-cases,
}
use tin_locus.Buffer
use tin_locus.Buffer.{Buffer, Stage}
use tin_locus.Buffer.Bytes.{join}
use tin_locus.Buffer.Invariant.{IsValid, contents, is_empty-nil, is_empty-not_nil}
use tin_locus.Buffer.Drain.{pop_ok}
use tin_locus.Message.{MessageType}
use tin_locus.ClientBuffer.{ClientBuffer, notify}
use tin_locus.ClientBuffer.Send.{Taken, took, Handled, send_bytes, send_loop}
use mathlib.Core.List.{append-nil, append_assoc}

-- The kernel takes each chunk whole; an empty chunk is not handed to it.
abbrev pub all_taken : List (List ℕ) → List Taken → List Taken
all_taken [] rest = rest
all_taken ([] ∷ cs) rest = all_taken cs rest
all_taken ((b ∷ bs) ∷ cs) rest = took (suc (length bs)) ∷ all_taken cs rest

all_taken-nil : (cs : List (List ℕ)) (rest : List Taken) → join cs ≡ [] → all_taken cs rest ≡ rest
all_taken-nil [] rest h = refl
all_taken-nil ([] ∷ cs) rest h = all_taken-nil cs rest h
all_taken-nil ((b ∷ bs) ∷ cs) rest h = cc

pub all_taken-after :
    (cs ds : List (List ℕ)) (rest : List Taken)
    → join cs ≡ []
    → all_taken (cs ++ ds) rest ≡ all_taken ds rest
all_taken-after [] ds rest h = refl
all_taken-after ([] ∷ cs) ds rest h = all_taken-after cs ds rest h
all_taken-after ((b ∷ bs) ∷ cs) ds rest h = cc

send_bytes_whole :
    (c : List ℕ) (cs : List (List ℕ)) (rest : List Taken)
    → send_bytes c false (all_taken (c ∷ cs) rest)
      ≡ record { remained = []; wire = c; closed = false; answers = all_taken cs rest }
unfolding send_bytes
send_bytes_whole [] cs rest = refl
send_bytes_whole (b ∷ bs) cs rest =
    let all = take_all (suc (length bs)) (b ∷ bs) (omega arith) in
    let none_left = drop_all (suc (length bs)) (b ∷ bs) (omega arith) in
    ground (arith, all, none_left)

-- The loop has a drained buffer behind it.
pub record Drains (h k : Handled) (rest : List Taken) : Type 0 where
  pub wire : k.wire ≡ h.wire ++ contents h.state.buffer_out
  pub pushed : k.pushed ≡ h.pushed ++ notify h.state MessageType.packet_send
  pub answers : k.answers ≡ rest
  pub open_still : k.state.close ≡ false
  pub stage : k.state.buffer_out.stage ≡ Stage.empty
  pub drained : contents k.state.buffer_out ≡ []
  pub valid : IsValid k.state.buffer_out
  pub same_in : k.state.buffer_in ≡ h.state.buffer_in
  pub descriptor : k.state.file_descriptor ≡ h.state.file_descriptor

pub send_loop-Drains :
    (cs : List (List ℕ)) (h : Handled) (rest : List Taken)
    → h.state.close ≡ false
    → h.state.buffer_out.stage ≡ Stage.sending
    → h.state.buffer_out.buffer ≡ cs
    → IsValid h.state.buffer_out
    → contents h.state.buffer_out ≢ []
    → h.answers ≡ all_taken cs rest
    → (k : Handled) × (send_loop cs h ≡ ok k) × Drains h k rest
unfolding send_loop Buffer.set_stage
send_loop-Drains [] h rest open_now sending chunks v some_left a =
    absurd (some_left (ap join chunks))
send_loop-Drains (c ∷ cs) h rest open_now sending chunks v some_left a =
    let (bs, out, e, s) = pop_ok h.state.buffer_out v some_left in
    let first : bs ≡ c = cc (s.chunks, chunks) in
    let others : out.buffer ≡ cs = cc (s.chunks, chunks) in
    let whole = send_bytes_whole c cs rest in
    let after : ClientBuffer = record h.state { close = false; buffer_out = out } in
    let total : contents h.state.buffer_out ≡ c ++ contents out =
      s.split ∙ ap (λ (x : List ℕ). x ++ contents out) first in
    elim (Bool-cases (Buffer.is_empty out)) [
      | inl last ↦
          let gone = is_empty-nil out s.valid last in
          (
            record {
              state = record after { buffer_out = Buffer.set_stage Stage.empty out };
              wire = h.wire ++ c;
              pushed = h.pushed ++ notify after MessageType.packet_send;
              answers = all_taken cs rest;
            },
            ground (arith, open_now, sending, e, first, a, whole, last),
            record {
              wire = ap (◌++◌ h.wire) (sym (total ∙ ap (◌++◌ c) gone ∙ append-nil c));
              pushed = refl;
              answers = all_taken-nil cs rest (sym (ap join others) ∙ gone);
              open_still = refl;
              stage = refl;
              drained = gone;
              valid = record { counted = s.valid.counted; bounded = s.valid.bounded };
              same_in = refl;
              descriptor = refl;
            },
          )
      | inr more ↦
          let next : Handled = record {
            state = after;
            wire = h.wire ++ c;
            pushed = h.pushed;
            answers = all_taken cs rest;
          } in
          let (k, done, d) =
            send_loop-Drains cs next rest refl (s.same_stage ∙ sending) others s.valid
              (is_empty-not_nil out s.valid more) refl in
          (
            k,
            ground (arith, open_now, sending, e, first, a, whole, more, done),
            record {
              wire = d.wire ∙ append_assoc h.wire c (contents out) ∙ ap (◌++◌ h.wire) (sym total);
              pushed = d.pushed;
              answers = d.answers;
              open_still = d.open_still;
              stage = d.stage;
              drained = d.drained;
              valid = d.valid;
              same_in = d.same_in;
              descriptor = d.descriptor;
            },
          )
    ]
