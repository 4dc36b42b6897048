-- ===== src/Protocol/Updates.antt =====
-- The packets that `ProtocolClient::update()` makes of what a client is to be told.
use tin_locus.Base.{ℕ, ◌≡◌, refl, [], ◌++◌, arith, length, length-append}
use tin_locus.Base.Int.{pattern_64}
use tin_locus.Buffer
use tin_locus.Buffer.Invariant.{contents}
use tin_locus.Converter.{to_bytes, length-to_bytes}
use tin_locus.Crypto.{CryptoPp}
use tin_locus.Database.ClientData.{Position}
use tin_locus.Packet
use tin_locus.Packet.PacketType.{Header}
use tin_locus.Protocol.Session.{Machine, location_packet}

module _ (lib : CryptoPp) (machine : Machine) where
  -- A `LOCATION` packet has the identifier, the two coordinates and the time behind its type, 18
  -- bytes in all.
  pub location_packet_lem :
      (id : ℕ) (q : Position)
      → let p = location_packet lib machine (id, q) in
        (p.type ≡ Header.location)
        × (contents p.buffer
            ≡ to_bytes 2 id
              ++ (to_bytes 4 q.latitude
                  ++ (to_bytes 4 q.longitude ++ (to_bytes 8 (pattern_64 q.time) ++ []))))
        × (length (contents p.buffer) ≡ 18)
  unfolding location_packet Packet.push Packet.new Buffer.push_back Buffer.new
  location_packet_lem id q =
      let time = to_bytes 8 (pattern_64 q.time) in
      (
        refl,
        refl,
        omega (
          arith,
          length-append (to_bytes 2 id)
              (to_bytes 4 q.latitude ++ (to_bytes 4 q.longitude ++ (time ++ []))),
          length-append (to_bytes 4 q.latitude) (to_bytes 4 q.longitude ++ (time ++ [])),
          length-append (to_bytes 4 q.longitude) (time ++ []),
          length-append {A = ℕ} time [],
          length-to_bytes 2 id,
          length-to_bytes 4 q.latitude,
          length-to_bytes 4 q.longitude,
          length-to_bytes 8 (pattern_64 q.time),
        ),
      )
