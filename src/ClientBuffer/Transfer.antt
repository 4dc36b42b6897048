-- ===== src/ClientBuffer/Transfer.antt =====
-- From one connection to another: what `sendData` puts on the wire is what `recvData` returns.
use tin_locus.Base.{
  ℕ, ◌^◌, ◌<◌, ◌≡◌, refl, ap, ◌∙◌, false, List, [], ◌∷◌, arith, ok, length, take, drop, take_all,
  drop_all, ◌≤◌,
}
use tin_locus.Buffer
use tin_locus.Buffer.{Buffer, Stage}
use tin_locus.Buffer.Invariant.{IsValid, contents}
use tin_locus.Buffer.Drain.{pop_n_ok}
use tin_locus.Converter.{to_bytes}
use tin_locus.ClientBuffer.{ClientBuffer, Handled, bytes, recv}
use tin_locus.ClientBuffer.Arrive.{recv_frame}
use tin_locus.ClientBuffer.Send
use tin_locus.ClientBuffer.Send.{send_data, recv_data}
use tin_locus.ClientBuffer.Send.Loop.{all_taken}
use tin_locus.ClientBuffer.Send.Frame.{framed, send_data_frame}

-- `recvData()` takes all that is in the buffer, and nothing else changes.
pub recv_data_all :
    (c : ClientBuffer)
    → IsValid c.buffer_in
    → (b : Buffer) × (recv_data c ≡ ok (contents c.buffer_in, record c { buffer_in = b }))
      × (b.stage ≡ Stage.empty)
      × IsValid b
      × (contents b ≡ [])
unfolding recv_data Buffer.size Buffer.set_stage
recv_data_all c v =
    let (rest, popped, d) =
      pop_n_ok c.buffer_in.buffer_size c.buffer_in v (omega (arith, v.counted)) in
    let whole : length (contents c.buffer_in) ≤ c.buffer_in.buffer_size =
      omega (arith, v.counted) in
    (
      Buffer.set_stage Stage.empty rest,
      rw (popped, take_all c.buffer_in.buffer_size (contents c.buffer_in) whole),
      refl,
      record { counted = d.valid.counted; bounded = d.valid.bounded },
      d.rest ∙ drop_all c.buffer_in.buffer_size (contents c.buffer_in) whole,
    )

-- Bytes that are handed to `sendData` on an idle open connection, fewer than 2 ^ 16 and at least one,
-- go over the wire as one frame; when another idle connection reads the size and then the rest of
-- the wire, `recvData` returns the bytes and the buffer is ready for the next frame.
pub recv_data-send_data :
    (bs : List ℕ) (c d : ClientBuffer)
    → c.close ≡ false
    → IsValid c.buffer_out
    → contents c.buffer_out ≡ []
    → d.close ≡ false
    → d.buffer_in.stage ≡ Stage.empty
    → IsValid d.buffer_in
    → contents d.buffer_in ≡ []
    → 0 < length bs
    → length bs < 2 ^ 16
    → (k : Send.Handled) × (h : Handled) × (e : ClientBuffer) × (send_data bs c
          (all_taken (framed bs c.buffer_out) [])
        ≡ ok k)
      × (recv d (bytes (take 2 k.wire) ∷ bytes (drop 2 k.wire) ∷ []) ≡ ok h)
      × (recv_data h.state ≡ ok (bs, e))
      × (e.buffer_in.stage ≡ Stage.empty)
unfolding to_bytes
recv_data-send_data bs c d open_c vc clear open_d ready vd nothing some_byte small =
    let (k, sent, wire, leaves) = send_data_frame bs c [] open_c vc clear small in
    let (h, received, come, full, vh, told, answers, same) =
      recv_frame bs d [] open_d ready vd nothing some_byte small in
    let (b, returned, again, valid, none_left) = recv_data_all h.state vh in
    (
      k,
      h,
      record h.state { buffer_in = b },
      sent,
      ap (λ (xs : List ℕ). recv d (bytes (take 2 xs) ∷ bytes (drop 2 xs) ∷ [])) wire ∙ received,
      returned ∙ ap (λ (xs : List ℕ). ok (xs, record h.state { buffer_in = b })) come,
      again,
    )
