-- ===== src/ClientBuffer/Arrive.antt =====
-- A frame that arrives.
use tin_locus.Base.{ℕ, ◌^◌, ◌<◌, ◌≡◌, refl, ap, ◌∙◌, false, List, [], ◌∷◌, ◌++◌, arith, ok, length}
use tin_locus.Buffer
use tin_locus.Buffer.{Buffer, Stage}
use tin_locus.Buffer.Invariant.{IsValid, contents, push_back-IsValid, remaining_size-sub}
use tin_locus.Converter.{to_bytes, length-to_bytes, from_bytes-to_bytes}
use tin_locus.Message.{MessageType}
use tin_locus.ClientBuffer.{
  ClientBuffer, Received, bytes, Handled, recv, recv_size, recv_data, recv_close, is_nil, notify,
}
use tin_locus.ClientBuffer.Receive.{recv_n_whole}

size_step :
    (n : ℕ) (h : Handled) (rest : List Received)
    → h.state.close ≡ false
    → h.state.buffer_in.stage ≡ Stage.empty
    → h.answers ≡ bytes (to_bytes 2 n) ∷ rest
    → n < 2 ^ 16
    → recv_size h
      ≡ ok (record h {
        state = record h.state {
          close = false;
          buffer_in = Buffer.set_stage Stage.receiving (Buffer.set_max_size n h.state.buffer_in);
        };
        answers = rest;
      })
unfolding recv_size to_bytes
size_step n h rest open_now ready a small = ground (
  arith,
  open_now,
  ready,
  a,
  recv_n_whole 2 (to_bytes 2 n) rest (length-to_bytes 2 n) (omega arith),
  from_bytes-to_bytes 2 n 0 small,
)

not_nil : (bs : List ℕ) → 0 < length bs → is_nil bs ≡ false
unfolding is_nil
not_nil [] p = absurd (omega arith)
not_nil (b ∷ bs) p = refl

data_step :
    (bs : List ℕ) (h : Handled) (rest : List Received)
    → h.state.close ≡ false
    → h.state.buffer_in.stage ≡ Stage.receiving
    → h.answers ≡ bytes bs ∷ rest
    → Buffer.remaining_size h.state.buffer_in ≡ length bs
    → 0 < length bs
    → Buffer.remaining_size (Buffer.push_back bs h.state.buffer_in) ≡ 0
    → recv_data h
      ≡ ok (record {
        state = record h.state {
          close = false;
          buffer_in = Buffer.set_stage Stage.full (Buffer.push_back bs h.state.buffer_in);
        };
        pushed = h.pushed ++ notify h.state MessageType.packet_receive;
        answers = rest;
      })
unfolding recv_data
data_step bs h rest open_now receiving a room p filled = ground (
  arith,
  open_now,
  receiving,
  a,
  room,
  filled,
  not_nil bs p,
  recv_n_whole (length bs) bs rest refl p,
)

-- The size of a frame and then its bytes, each in one read, fill the buffer, and the client is told.
pub recv_frame :
    (bs : List ℕ) (c : ClientBuffer) (rest : List Received)
    → c.close ≡ false
    → c.buffer_in.stage ≡ Stage.empty
    → IsValid c.buffer_in
    → contents c.buffer_in ≡ []
    → 0 < length bs
    → length bs < 2 ^ 16
    → (k : Handled) × (recv c (bytes (to_bytes 2 (length bs)) ∷ bytes bs ∷ rest) ≡ ok k)
      × (contents k.state.buffer_in ≡ bs)
      × (k.state.buffer_in.stage ≡ Stage.full)
      × IsValid k.state.buffer_in
      × (k.pushed ≡ notify c MessageType.packet_receive)
      × (k.answers ≡ rest)
      × (k.state ≡ record c { close = false; buffer_in = k.state.buffer_in })
unfolding recv recv_close Buffer.set_stage Buffer.set_max_size Buffer.push_back
recv_frame bs c rest open_now ready v nothing p small =
    let waiting : Buffer =
      Buffer.set_stage Stage.receiving (Buffer.set_max_size (length bs) c.buffer_in) in
    let waiting_v : IsValid waiting = record { counted = v.counted; bounded = v.bounded } in
    let (grown_v, e) = push_back-IsValid bs waiting waiting_v (omega (arith, ap length nothing)) in
    let all : contents (Buffer.push_back bs waiting) ≡ bs =
      e ∙ ap (λ (xs : List ℕ). xs ++ bs) nothing in
    let room =
      remaining_size-sub waiting waiting_v (omega (arith, ap length nothing)) (omega arith) in
    let filled =
      remaining_size-sub (Buffer.push_back bs waiting) grown_v (omega (arith, ap length all))
        (omega arith) in
    let sized =
      size_step (length bs)
        (record {
          state = c;
          pushed = [];
          answers = bytes (to_bytes 2 (length bs)) ∷ bytes bs ∷ rest;
        })
        (bytes bs ∷ rest) open_now ready refl small in
    let received =
      data_step bs
        (record {
          state = record c { close = false; buffer_in = waiting };
          pushed = [];
          answers = bytes bs ∷ rest;
        })
        rest refl refl refl (omega (arith, room, ap length nothing)) p
        (omega (arith, filled, ap length all)) in
    (
      record {
        state = record c {
          close = false;
          buffer_in = Buffer.set_stage Stage.full (Buffer.push_back bs waiting);
        };
        pushed = notify c MessageType.packet_receive;
        answers = rest;
      },
      rw (sized, received),
      all,
      refl,
      record { counted = grown_v.counted; bounded = grown_v.bounded },
      refl,
      refl,
      refl,
    )
