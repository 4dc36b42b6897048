-- ===== src/ClientBuffer/Send.antt =====
-- The sending half of ClientBuffer.cpp, and what SimpleClient.cpp does with the two buffers.
pub mod Loop
pub mod Frame
pub mod Conserve
pub mod Willing
pub mod Progress
pub mod Finish
use tin_locus.Base.{
  ℕ, zero, suc, ◌+◌, ◌%◌, ◌^◌, Bool, true, false, not, ◌&&◌, List, [], ◌∷◌, ◌++◌, Result, ok,
  throws, undefined, ◌>>=◌, if◌then◌else◌, length, take, drop, ◌==◌,
}
use tin_locus.Buffer
use tin_locus.Buffer.{Buffer, Stage}
use tin_locus.Converter.{to_bytes}
use tin_locus.Message.{MessageType}
use tin_locus.ClientBuffer.{ClientBuffer, is_nil, is_stage, notify}

-- What `::send` answers: how many bytes it took, EAGAIN or EWOULDBLOCK, or another error.
pub data Taken : Type 0 where
  took : ℕ → Taken
  would_block failed : Taken

-- `send(buffer)`: the bytes that remain, those that went out, and whether the connection is closed.
pub record Sent : Type 0 where
  pub remained : List ℕ
  pub wire : List ℕ
  pub closed : Bool
  pub answers : List Taken

answered : List ℕ → List Taken → Sent
answered bs [] = record { remained = bs; wire = []; closed = false; answers = [] }
answered bs (would_block ∷ rest) = record {
  remained = bs;
  wire = [];
  closed = false;
  answers = rest;
}
answered bs (failed ∷ rest) = record { remained = bs; wire = []; closed = true; answers = rest }
answered bs (took n ∷ rest) = record {
  remained = drop n bs;
  wire = take n bs;
  closed = false;
  answers = rest;
}

unfoldable pub send_bytes : List ℕ → Bool → List Taken → Sent
unfolding answered is_nil
send_bytes bs closed answers =
    if not closed && not (is_nil bs)
    then answered bs answers
    else record { remained = bs; wire = []; closed = closed; answers = answers }

-- What `send()` leaves: the buffer, what went out, the messages that it pushed, and the answers
-- that are unused.
pub record Handled : Type 0 where
  pub state : ClientBuffer
  pub wire : List ℕ
  pub pushed : List MessageType
  pub answers : List Taken

-- "set size of sending packet": the size is cut to 16 bits.
unfoldable pub send_size : ClientBuffer → ClientBuffer
unfolding is_stage
send_size c =
    let framed = Buffer.push_front (to_bytes 2 (Buffer.size c.buffer_out % 2 ^ 16)) c.buffer_out in
    if not c.close && is_stage c.buffer_out.stage Stage.full
    then (record c {
      buffer_out = Buffer.set_stage Stage.sending (Buffer.set_max_size (Buffer.size framed) framed);
    })
    else c

-- The part of a round of "Sending data" behind the call of `send`: it puts back what remains and
-- ends, or ends because all is sent, or goes on. The notice is returned, so that the exception of its
-- push, which comes after all writes, is outside.
abbrev sent_round : Handled → Buffer → Sent → (Handled → Result Handled) → Result Handled
sent_round h out s more =
    let c : ClientBuffer = record h.state { close = s.closed } in
    let put_back : Handled = record {
      state = record c { buffer_out = Buffer.push_front s.remained out };
      wire = h.wire ++ s.wire;
      pushed = h.pushed;
      answers = s.answers;
    } in
    let rest : Handled = record put_back { state = record c { buffer_out = out } } in
    if not (is_nil s.remained)
    then ok put_back
    else if Buffer.is_empty out
    then (ok (record rest {
      state = record c { buffer_out = Buffer.set_stage Stage.empty out };
      pushed = h.pushed ++ notify c MessageType.packet_send;
    }))
    else more rest

-- "Sending data". A round takes a chunk of the buffer; the first argument is the list of chunks that
-- are there, and `pop` does not succeed when it is empty.
unfoldable pub send_loop : List (List ℕ) → Handled → Result Handled
unfolding is_stage is_nil send_bytes
send_loop [] h =
    if not h.state.close && is_stage h.state.buffer_out.stage Stage.sending
    then (Buffer.pop h.state.buffer_out >>= λ _. undefined)
    else ok h
send_loop (chunk ∷ chunks) h =
    let round = λ (bs : List ℕ) (out : Buffer).
      sent_round h out (send_bytes bs h.state.close h.answers) (λ rest. send_loop chunks rest) in
    if not h.state.close && is_stage h.state.buffer_out.stage Stage.sending
    then (Buffer.pop h.state.buffer_out >>= λ (bs, out). round bs out)
    else ok h

-- `send()`
unfoldable pub send : ClientBuffer → List Taken → Result Handled
send c answers =
    let sized = send_size c in
    send_loop sized.buffer_out.buffer
      (record { state = sized; wire = []; pushed = []; answers = answers })

-- `SimpleClient::sendData(bytes)`
unfoldable pub send_data : List ℕ → ClientBuffer → List Taken → Result Handled
send_data bs c answers =
    send (record c { buffer_out = Buffer.set_stage Stage.full (Buffer.push_back bs c.buffer_out) })
      answers

-- `SimpleClient::recvData()`
unfoldable pub recv_data : ClientBuffer → Result (List ℕ × ClientBuffer)
recv_data c = do
  (bs, rest) ← Buffer.pop_n (Buffer.size c.buffer_in) c.buffer_in
  ok (bs, record c { buffer_in = Buffer.set_stage Stage.empty rest })
