-- ===== src/ClientBuffer/Tests.antt =====
-- ClientBuffer.cpp on a connection that is open and idle.
use tin_locus.ClientBuffer.Send.Finish.{sends, sends_full}
use tin_locus.ClientBuffer.Send.Willing.{IsDone}
use tin_locus.ClientBuffer.Send.Conserve.{Sends, send-Sends}
use tin_locus.Base.{ℕ, ◌≡◌, refl, false, List, [], ◌∷◌, ok, undefined, arith, some, take, drop}
use tin_locus.Buffer.{Buffer, Stage}
use tin_locus.Buffer.Invariant.{IsValid}
use tin_locus.Converter.{to_bytes}
use tin_locus.ClientBuffer.{ClientBuffer, Handled, bytes, recv, recv_n}
use tin_locus.ClientBuffer.Receive.{recv_n_part, recv_n_split}
use tin_locus.ClientBuffer.Transfer.{recv_data-send_data}
use tin_locus.ClientBuffer.Send
use tin_locus.ClientBuffer.Send.{send_data}
use tin_locus.ClientBuffer.Send.Loop.{all_taken}
use tin_locus.ClientBuffer.Send.Frame.{framed}

abbrev three : List ℕ
three = 1 ∷ 2 ∷ 3 ∷ []

abbrev two : List ℕ
two = 8 ∷ 9 ∷ []

abbrev idle_buffer : Buffer
idle_buffer = record { buffer = []; buffer_max_size = 0; buffer_size = 0; stage = Stage.empty }

-- A byte that an earlier call left behind.
abbrev left_buffer : Buffer
left_buffer = record {
  buffer = (4 ∷ []) ∷ [];
  buffer_max_size = 3;
  buffer_size = 1;
  stage = Stage.sending;
}

abbrev idle : ClientBuffer
idle = record {
  file_descriptor = 5;
  close = false;
  buffer_in = idle_buffer;
  buffer_out = left_buffer;
  client_blocking_queue = some 100;
}

abbrev clear : ClientBuffer
clear = record idle { buffer_out = idle_buffer }

idle_buffer-IsValid : IsValid idle_buffer
idle_buffer-IsValid = record { counted = refl; bounded = omega arith }

-- Three of four bytes come, and one of them is kept.
recv_n_part_example : recv_n 4 false (bytes three ∷ []) ≡ ok (1 ∷ 0 ∷ 0 ∷ [], false, [])
recv_n_part_example = recv_n_part 4 three (omega arith) (omega arith)

recv_n_split_example : recv_n 5 false (bytes three ∷ bytes two ∷ []) ≡ undefined
recv_n_split_example = recv_n_split 5 three two [] (omega arith) (omega arith) refl

recv_data-send_data_example :
    (k : Send.Handled) × (h : Handled) × (e : ClientBuffer) × (send_data three clear
        (all_taken (framed three clear.buffer_out) [])
      ≡ ok k)
    × (recv idle (bytes (take 2 k.wire) ∷ bytes (drop 2 k.wire) ∷ []) ≡ ok h)
    × (Send.recv_data h.state ≡ ok (three, e))
    × (e.buffer_in.stage ≡ Stage.empty)
recv_data-send_data_example =
    recv_data-send_data three clear idle refl idle_buffer-IsValid refl refl refl idle_buffer-IsValid
      refl (omega arith) (omega arith)

-- Two chunks are left, of which the kernel takes one and a half.
abbrev half_sent : ClientBuffer
half_sent = record idle {
  buffer_out = record {
    buffer = (4 ∷ []) ∷ (5 ∷ 6 ∷ []) ∷ [];
    buffer_max_size = 3;
    buffer_size = 3;
    stage = Stage.sending;
  };
}

send-Sends_example :
    Sends half_sent (Send.send half_sent (Send.took 1 ∷ Send.took 1 ∷ Send.would_block ∷ []))
send-Sends_example =
    send-Sends half_sent (Send.took 1 ∷ Send.took 1 ∷ Send.would_block ∷ [])
      (record { counted = refl; bounded = omega arith }) (omega arith)

abbrev packet : ClientBuffer
packet = record idle {
  buffer_out = record {
    buffer = (8 ∷ 9 ∷ []) ∷ [];
    buffer_max_size = 2;
    buffer_size = 2;
    stage = Stage.full;
  };
}

-- The kernel takes one byte in a call, and then has no room.
abbrev one_byte : List Send.Taken
one_byte = Send.took 1 ∷ Send.would_block ∷ []

abbrev calls : List (List Send.Taken)
calls = one_byte ∷ one_byte ∷ one_byte ∷ one_byte ∷ []

sends_full_example :
    (d : ClientBuffer) × (sends calls packet ≡ ok (2 ∷ 0 ∷ 8 ∷ 9 ∷ [], d)) × IsDone d
unfolding to_bytes
sends_full_example =
    sends_full packet
      (record {
        open_now = refl;
        stage = refl;
        valid = record { counted = refl; bounded = omega arith };
        fits = omega arith;
      })
      calls (tt, (tt, (tt, (tt, tt)))) (omega arith)
