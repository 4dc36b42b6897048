-- ===== src/Epoll/Tests.antt =====
-- readEPoll on a connection as ClientBuffer.cpp serves it, with what the kernel is to answer.
use tin_locus.Base.{ℕ, ◌≡◌, refl, false, List, [], ◌∷◌, Result, ok, throws, undefined, some}
use tin_locus.Base.Step.{Step}
use tin_locus.Buffer.{Buffer, Stage}
use tin_locus.Buffer
use tin_locus.ClientBuffer
use tin_locus.ClientBuffer.{ClientBuffer, Received}
use tin_locus.ClientBuffer.Send
use tin_locus.ClientBuffer.Send.{Taken}
use tin_locus.Converter.{from_bytes}
use tin_locus.Epoll.{Event, read_epoll, is_in, is_out}
use tin_locus.Epoll.Dispatch.{methods, served, AllDefined, read_epoll_lem}

-- The connection, and what the kernel answers to its next calls.
pub record Connected : Type 0 where
  pub client : ClientBuffer
  pub received : List Received
  pub taken : List Taken

abbrev after_recv : Connected → Result ClientBuffer.Handled → Result (Unit {0}) × Connected
after_recv s (ok h) = (ok tt, record s { client = h.state; received = h.answers })
after_recv s throws = (throws, s)
after_recv s undefined = (undefined, s)

abbrev after_send : Connected → Result Send.Handled → Result (Unit {0}) × Connected
after_send s (ok h) = (ok tt, record s { client = h.state; taken = h.answers })
after_send s throws = (throws, s)
after_send s undefined = (undefined, s)

-- All events are of the one connection.
abbrev pub client_recv : ℕ → Step Connected (Unit {0})
client_recv object s = after_recv s (ClientBuffer.recv s.client s.received)

abbrev pub client_send : ℕ → Step Connected (Unit {0})
client_send object s = after_send s (Send.send s.client s.taken)

abbrev idle_buffer : Buffer
idle_buffer = record { buffer = []; buffer_max_size = 0; buffer_size = 0; stage = Stage.empty }

-- A frame of one byte comes, in two parts, and then nothing more.
abbrev pub connected : Connected
connected = record {
  client = record {
    file_descriptor = 5;
    close = false;
    buffer_in = idle_buffer;
    buffer_out = idle_buffer;
    client_blocking_queue = some 100;
  };
  received = ClientBuffer.bytes (1 ∷ 0 ∷ []) ∷ ClientBuffer.bytes (65 ∷ []) ∷ [];
  taken = [];
}

-- The connection can be read from, then it can be written to, and then there is an error.
abbrev pub three_events : List Event
three_events =
    record { events = 1; object = 7 }
    ∷ record { events = 4; object = 7 }
    ∷ record { events = 8; object = 7 }
    ∷ []

abbrev received_buffer : Buffer
received_buffer = record {
  buffer = (65 ∷ []) ∷ [];
  buffer_max_size = 1;
  buffer_size = 1;
  stage = Stage.full;
}

byte_arrived :
    (served client_recv client_send (methods three_events) connected).client.buffer_in
    ≡ received_buffer
unfolding is_in is_out ClientBuffer.recv ClientBuffer.recv_size ClientBuffer.recv_data
    ClientBuffer.recv_close ClientBuffer.recv_n ClientBuffer.recv_loop ClientBuffer.write_at
    ClientBuffer.resize ClientBuffer.is_stage Buffer.remaining_size Send.send Send.send_size
    Send.send_loop Send.send_bytes from_bytes Buffer.set_stage Buffer.set_max_size Buffer.push_back
byte_arrived = refl

pub three_events-AllDefined : AllDefined client_recv client_send (methods three_events) connected
unfolding is_in is_out ClientBuffer.recv ClientBuffer.recv_size ClientBuffer.recv_data
    ClientBuffer.recv_close ClientBuffer.recv_n ClientBuffer.recv_loop ClientBuffer.write_at
    ClientBuffer.resize ClientBuffer.is_stage Buffer.remaining_size Send.send Send.send_size
    Send.send_loop Send.send_bytes from_bytes Buffer.set_stage Buffer.set_max_size Buffer.push_back
three_events-AllDefined = (tt, (tt, tt))

read_epoll_lem_example :
    read_epoll client_recv client_send (some three_events) connected
    ≡ (ok tt, served client_recv client_send (methods three_events) connected)
read_epoll_lem_example =
    read_epoll_lem client_recv client_send three_events connected three_events-AllDefined
