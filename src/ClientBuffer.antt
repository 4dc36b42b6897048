-- ===== src/ClientBuffer.antt =====
-- server/src/client/ClientBuffer.h and ClientBuffer.cpp: one connection's socket, and the two buffers
-- between it and the client. The kernel's answers to `::recv` and `::send` are a list that the calls
-- use up; when it is empty the kernel answers EAGAIN.
pub mod Receive
pub mod Arrive
pub mod Send
pub mod Transfer
pub mod Tests
use tin_locus.Base.{
  ℕ, zero, suc, ◌+◌, ◌-◌, ◌%◌, ◌^◌, Bool, true, false, not, ◌&&◌, ◌||◌, List, [], ◌∷◌, ◌++◌, Option,
  none, some, Result, ok, throws, undefined, ◌>>=◌, ltb, leb, ◌==◌, if◌then◌else◌, length, take,
  drop, replicate,
}
use tin_locus.Buffer
use tin_locus.Buffer.{Buffer, Stage}
use tin_locus.Converter.{to_bytes, from_bytes}
use tin_locus.Message.{MessageType}

pub record ClientBuffer : Type 0 where
  pub file_descriptor : ℕ
  pub close : Bool
  pub buffer_in : Buffer
  pub buffer_out : Buffer
  pub client_blocking_queue : Option ℕ

-- `ClientBuffer(port)`
pub new : ℕ → ClientBuffer
new port = record {
  file_descriptor = port;
  close = false;
  buffer_in = Buffer.new;
  buffer_out = Buffer.new;
  client_blocking_queue = none;
}

pub set_client_blocking_queue : ℕ → ClientBuffer → ClientBuffer
set_client_blocking_queue q c = record c { client_blocking_queue = some q }

-- What `::recv` answers: the bytes that it wrote (none at the end of the stream), EAGAIN or
-- EWOULDBLOCK, or another error.
pub data Received : Type 0 where
  bytes : List ℕ → Received
  would_block failed : Received

-- `vector::resize(n)`
unfoldable pub resize : ℕ → List ℕ → List ℕ
resize n xs = take n xs ++ replicate (n - length xs) 0

-- Bytes that the kernel writes at an offset into a vector; past its end that is undefined.
unfoldable pub write_at : ℕ → List ℕ → List ℕ → Result (List ℕ)
write_at offset bs xs =
    if leb (offset + length bs) (length xs)
    then ok (take offset xs ++ bs ++ drop (offset + length bs) xs)
    else undefined

-- The variables of the loop in `recv(n)`.
pub record Reading : Type 0 where
  pub buffer : List ℕ
  pub remaining : ℕ
  pub closed : Bool
  pub answers : List Received

-- `while (!isClose() && remaining)`: each round resizes the vector to what remains, and reads at the
-- offset of what has come.
unfoldable pub recv_loop : ℕ → List ℕ → ℕ → Bool → List Received → Result Reading
recv_loop n buffer remaining closed [] =
    let stop : Reading = record {
      buffer = buffer;
      remaining = remaining;
      closed = closed;
      answers = [];
    } in
    if closed || remaining == 0
    then ok stop
    else ok (record stop { buffer = resize remaining buffer })
recv_loop n buffer remaining closed (would_block ∷ rest) =
    let stop : Reading = record {
      buffer = buffer;
      remaining = remaining;
      closed = closed;
      answers = rest;
    } in
    if closed || remaining == 0
    then ok (record stop { answers = would_block ∷ rest })
    else ok (record stop { buffer = resize remaining buffer })
recv_loop n buffer remaining closed (failed ∷ rest) =
    let stop : Reading = record {
      buffer = buffer;
      remaining = remaining;
      closed = closed;
      answers = rest;
    } in
    if closed || remaining == 0
    then ok (record stop { answers = failed ∷ rest })
    else ok (record stop { buffer = resize remaining buffer; closed = true })
recv_loop n buffer remaining closed (bytes bs ∷ rest) =
    let stop : Reading = record {
      buffer = buffer;
      remaining = remaining;
      closed = closed;
      answers = rest;
    } in
    let more = λ (buffer' : List ℕ). recv_loop n buffer' (remaining - length bs) closed rest in
    if closed || remaining == 0
    then ok (record stop { answers = bytes bs ∷ rest })
    else if length bs == 0
    then ok (record stop { buffer = resize remaining buffer; closed = true })
    else (write_at (n - remaining) bs (resize remaining buffer) >>= more)

-- `recv(n)`: the bytes that came, and whether the connection is closed now.
unfoldable pub recv_n : ℕ → Bool → List Received → Result (List ℕ × Bool × List Received)
recv_n n closed answers = do
  r ← recv_loop n (replicate n 0) n closed answers
  ok (if r.closed then [] else resize (n - r.remaining) r.buffer, r.closed, r.answers)

pub is_nil {ℓ} : {A : Type ℓ} → List A → Bool
is_nil [] = true
is_nil (x ∷ xs) = false

unfoldable pub is_stage : Stage → Stage → Bool
is_stage Stage.empty Stage.empty = true
is_stage Stage.full Stage.full = true
is_stage Stage.receiving Stage.receiving = true
is_stage Stage.sending Stage.sending = true
is_stage _ _ = false

-- A message for the client's queue, if it has one.
abbrev pub notify : ClientBuffer → MessageType → List MessageType
notify c t = elim c.client_blocking_queue [ none ↦ [] | some q ↦ t ∷ [] ]

-- What a handler leaves: the buffer, the messages that it pushed, and the answers that are unused.
pub record Handled : Type 0 where
  pub state : ClientBuffer
  pub pushed : List MessageType
  pub answers : List Received

-- "get size of upcoming packet"
unfoldable pub recv_size : Handled → Result Handled
unfolding is_nil is_stage
recv_size h =
    let c = h.state in
    if not c.close && is_stage c.buffer_in.stage Stage.empty
    then (recv_n 2 c.close h.answers >>= λ (bs, closed, rest).
        if is_nil bs
        then ok (record h { state = record c { close = closed }; answers = rest })
        else (from_bytes 2 bs 0 >>= λ size. ok (record h {
          state = record c {
            close = closed;
            buffer_in = Buffer.set_stage Stage.receiving (Buffer.set_max_size size c.buffer_in);
          };
          answers = rest;
        })))
    else ok h

-- "Receiving data"
unfoldable pub recv_data : Handled → Result Handled
unfolding is_nil is_stage
recv_data h =
    let c = h.state in
    if not c.close && is_stage c.buffer_in.stage Stage.receiving
    then (recv_n (Buffer.remaining_size c.buffer_in) c.close h.answers >>= λ (bs, closed, rest).
        let grown = Buffer.push_back bs c.buffer_in in
        if is_nil bs
        then ok (record h { state = record c { close = closed }; answers = rest })
        else if Buffer.remaining_size grown == 0
        then (ok (record {
          state = record c { close = closed; buffer_in = Buffer.set_stage Stage.full grown };
          pushed = h.pushed ++ notify c MessageType.packet_receive;
          answers = rest;
        }))
        else (ok
            (record h { state = record c { close = closed; buffer_in = grown }; answers = rest })))
    else ok h

-- "notify client if connection is closed"
unfoldable pub recv_close : Handled → Handled
recv_close h =
    if h.state.close then record h { pushed = h.pushed ++ notify h.state MessageType.close } else h

-- `recv()`
unfoldable pub recv : ClientBuffer → List Received → Result Handled
recv c answers = do
  sized ← recv_size (record { state = c; pushed = []; answers = answers })
  received ← recv_data sized
  ok (recv_close received)
