-- ===== src/Packet.antt =====
-- server/src/packet/Packet.h and Packet.cpp, with `sendPacket` and `recvPacket` of
-- server/src/client/Client.cpp as far as they turn a packet into bytes and back.
pub mod PacketType
pub mod RoundTrip
pub mod Names
use tin_locus.Base.{ℕ, List, Result, ok, ◌>>=◌}
use tin_locus.Buffer
use tin_locus.Buffer.{Buffer}
use tin_locus.Converter.{to_bytes, from_bytes}
use PacketType.{Header, to_uint8, to_packet_type}

pub record Packet : Type 0 where
  pub type : Header
  pub buffer : Buffer

-- `Packet()` and `Packet(type)`
unfoldable pub new : Header → Packet
new h = record { type = h; buffer = Buffer.new }

-- `getBuffer().push_back(bytes)`
unfoldable pub push : List ℕ → Packet → Packet
push bytes p = record p { buffer = Buffer.push_back bytes p.buffer }

unfoldable pub add_type_to_buffer : Packet → Packet
add_type_to_buffer p = record p {
  buffer = Buffer.push_front (to_bytes 1 (to_uint8 p.type)) p.buffer;
}

-- `from_bytes` overwrites all of `headerId`, so its first value does not matter.
unfoldable pub parse : Packet → Result Packet
parse p = do
  (header_buffer, rest) ← Buffer.pop_n 1 p.buffer
  header_id ← from_bytes 1 header_buffer 0
  ok (record { type = to_packet_type header_id; buffer = rest })

-- The bytes that `sendPacket(packet)` hands to `sendData`; the packet itself is copied first.
unfoldable pub encode : Packet → Result (List ℕ)
unfolding add_type_to_buffer
encode p = do (bytes, rest) ← Buffer.pop_all (add_type_to_buffer p).buffer; ok bytes

-- The packet that `recvPacket()` makes of the bytes that `recvData` returns.
unfoldable pub decode : List ℕ → Result Packet
unfolding new push parse
decode bytes = parse (push bytes (new Header.undefined))
