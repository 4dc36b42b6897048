-- ===== src/ClientBuffer/Send/Frame.antt =====
-- What goes over the wire: a frame is two bytes of size and then the bytes of one `sendData`.
use tin_locus.Base.{
  ℕ, ◌+◌, ◌%◌, ◌^◌, ◌<◌, ◌≡◌, ◌≢◌, refl, ap, ◌∙◌, false, List, [], ◌∷◌, ◌++◌, arith, ok, length,
  length-append,
}
use tin_locus.Buffer
use tin_locus.Buffer.{Buffer, Stage}
use tin_locus.Buffer.Invariant.{IsValid, contents, push_front-IsValid, push_back-IsValid}
use tin_locus.Converter.{to_bytes, length-to_bytes}
use tin_locus.Message.{MessageType}
use tin_locus.ClientBuffer.{ClientBuffer, notify}
use tin_locus.ClientBuffer.Send.{Taken, took, Handled, send_size, send, send_data}
use tin_locus.ClientBuffer.Send.Loop.{all_taken, all_taken-after, send_loop-Drains}

-- The chunks that `sendData(bs)` leaves to the loop.
abbrev pub framed : List ℕ → Buffer → List (List ℕ)
framed bs out = to_bytes 2 ((out.buffer_size + length bs) % 2 ^ 64 % 2 ^ 16) ∷ out.buffer ++ bs ∷ []

-- "set size of sending packet", on a connection that is open.
abbrev sized : ClientBuffer → ClientBuffer
sized c =
    let out = Buffer.push_front (to_bytes 2 (Buffer.size c.buffer_out % 2 ^ 16)) c.buffer_out in
    record c {
      buffer_out = Buffer.set_stage Stage.sending (Buffer.set_max_size (Buffer.size out) out);
    }

send_size_full :
    (c : ClientBuffer) → c.close ≡ false → c.buffer_out.stage ≡ Stage.full → send_size c ≡ sized c
unfolding send_size
send_size_full c open_now full = ground (arith, open_now, full)

size_not_nil : (n : ℕ) (xs : List ℕ) → to_bytes 2 n ++ xs ≢ []
unfolding to_bytes
size_not_nil n xs e = cc

-- A connection after everything went out.
pub record Leaves (c : ClientBuffer) (k : Handled) : Type 0 where
  pub open_still : k.state.close ≡ false
  pub drained : contents k.state.buffer_out ≡ []
  pub valid : IsValid k.state.buffer_out
  pub same_in : k.state.buffer_in ≡ c.buffer_in
  pub descriptor : k.state.file_descriptor ≡ c.file_descriptor

send_data_all :
    (bs : List ℕ) (c : ClientBuffer) (rest : List Taken)
    → c.close ≡ false
    → IsValid c.buffer_out
    → length (contents c.buffer_out) + length bs < 2 ^ 16
    → (k : Handled) × (send_data bs c (all_taken (framed bs c.buffer_out) rest) ≡ ok k)
      × (k.wire
          ≡ to_bytes 2 (length (contents c.buffer_out) + length bs)
            ++ (contents c.buffer_out ++ bs))
      × (k.pushed ≡ notify c MessageType.packet_send)
      × (k.answers ≡ rest)
      × (k.state.buffer_out.stage ≡ Stage.empty)
      × (contents k.state.buffer_out ≡ [])
      × IsValid k.state.buffer_out
      × Leaves c k
unfolding send_data send Buffer.set_stage Buffer.set_max_size Buffer.push_back Buffer.push_front
    Buffer.size to_bytes
send_data_all bs c rest open_now v small =
    let (v1, e1) = push_back-IsValid bs c.buffer_out v (omega arith) in
    let joined : Buffer = Buffer.set_stage Stage.full (Buffer.push_back bs c.buffer_out) in
    let header = to_bytes 2 (joined.buffer_size % 2 ^ 16) in
    let size : length (contents joined) ≡ length (contents c.buffer_out) + length bs =
      ap length e1 ∙ length-append (contents c.buffer_out) bs in
    let counted : joined.buffer_size % 2 ^ 16 ≡ length (contents c.buffer_out) + length bs =
      omega (arith, v1.counted, size) in
    let (v2, e2) =
      push_front-IsValid header joined (record { counted = v1.counted; bounded = v1.bounded })
        (omega (arith, size, length-to_bytes 2 (joined.buffer_size % 2 ^ 16))) in
    let start : ClientBuffer = record c { buffer_out = joined } in
    let (k, done, d) =
      send_loop-Drains (framed bs c.buffer_out)
        (record {
          state = sized start;
          wire = [];
          pushed = [];
          answers = all_taken (framed bs c.buffer_out) rest;
        })
        rest open_now refl refl (record { counted = v2.counted; bounded = v2.bounded })
        (size_not_nil (joined.buffer_size % 2 ^ 16) (contents joined)) refl in
    (
      k,
      rw (send_size_full start open_now refl) done,
      d.wire
          ∙ ap (λ (n : ℕ). to_bytes 2 n ++ contents joined) counted
          ∙ ap (◌++◌ (to_bytes 2 (length (contents c.buffer_out) + length bs))) e1,
      d.pushed,
      d.answers,
      d.stage,
      d.drained,
      d.valid,
      record {
        open_still = d.open_still;
        drained = d.drained;
        valid = d.valid;
        same_in = d.same_in;
        descriptor = d.descriptor;
      },
    )

-- `sendData(bs)` on a connection with nothing left to send puts one frame on the wire.
pub send_data_frame :
    (bs : List ℕ) (c : ClientBuffer) (rest : List Taken)
    → c.close ≡ false
    → IsValid c.buffer_out
    → contents c.buffer_out ≡ []
    → length bs < 2 ^ 16
    → (k : Handled) × (send_data bs c (all_taken (framed bs c.buffer_out) rest) ≡ ok k)
      × (k.wire ≡ to_bytes 2 (length bs) ++ bs)
      × Leaves c k
send_data_frame bs c rest open_now v nothing small =
    let (k, sent, wire, told, left, stage, drained, valid, leaves) =
      send_data_all bs c rest open_now v (omega (arith, ap length nothing)) in
    let count : length (contents c.buffer_out) + length bs ≡ length bs =
      omega (arith, ap length nothing) in
    (
      k,
      sent,
      wire
          ∙ ap (λ (n : ℕ). to_bytes 2 n ++ (contents c.buffer_out ++ bs)) count
          ∙ ap (λ (xs : List ℕ). to_bytes 2 (length bs) ++ (xs ++ bs)) nothing,
      leaves,
    )

-- What the kernel has to answer does not depend on the chunks of an empty buffer.
pub all_taken-framed :
    (bs : List ℕ) (b : Buffer) (rest : List Taken)
    → contents b ≡ []
    → all_taken (framed bs b) rest ≡ all_taken (framed bs Buffer.new) rest
unfolding to_bytes Buffer.new
all_taken-framed bs b rest nothing =
    ap (λ (xs : List Taken). took 2 ∷ xs) (all_taken-after b.buffer (bs ∷ []) rest nothing)
