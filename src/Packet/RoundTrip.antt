-- ===== src/Packet/RoundTrip.antt =====
-- A packet that is sent and received is the same packet.
use tin_locus.Base.{
  ℕ, ◌+◌, ◌^◌, ◌<◌, ◌≡◌, ap, List, [], ◌∷◌, ◌++◌, ◌∙◌, drop, arith, length, ok, throws, ◌>>=◌,
}
use tin_locus.Buffer
use tin_locus.Buffer.{Buffer}
use tin_locus.Buffer.Invariant.{
  IsValid, contents, push_front-IsValid, push_back-IsValid, new-IsValid, new-contents,
}
use tin_locus.Buffer.Drain.{pop_n_ok, pop_n_throws, pop_all-contents}
use tin_locus.Converter.{to_bytes, to_bytes_one, from_bytes_one}
use tin_locus.Packet.{Packet, encode, decode}
use tin_locus.Packet.PacketType.{to_uint8, to_packet_type, to_uint8-lt, to_packet_type-to_uint8}

-- `sendPacket` hands the code of the type to `sendData`, followed by the contents.
pub encode_lem :
    (p : Packet)
    → IsValid p.buffer
    → length (contents p.buffer) + 1 < 2 ^ 64
    → encode p ≡ ok (to_uint8 p.type ∷ contents p.buffer)
unfolding encode
encode_lem p v h =
    let one = to_bytes_one (to_uint8 p.type) (to_uint8-lt p.type) in
    let (w, e) =
      push_front-IsValid (to_bytes 1 (to_uint8 p.type)) p.buffer v (rw one (omega arith)) in
    let popped = pop_all-contents _ w in rw (popped.1, e, one)

-- `recvPacket` reads the first byte as the type, and keeps the others as the contents; it throws if
-- there is no byte.
pub decode_lem :
    (b : ℕ) (bs : List ℕ)
    → b < 256
    → length bs + 1 < 2 ^ 64
    → (c : Buffer) × (decode (b ∷ bs) ≡ ok (record { type = to_packet_type b; buffer = c }))
      × (contents c ≡ bs)
      × IsValid c
unfolding decode
decode_lem b bs h l =
    let (w, e) =
      push_back-IsValid (b ∷ bs) Buffer.new new-IsValid (omega (arith, ap length new-contents)) in
    let e' = e ∙ ap (λ (xs : List ℕ). xs ++ b ∷ bs) new-contents in
    let (c, popped, d) = pop_n_ok 1 _ w (rw e' (omega arith)) in
    (c, rw (popped, e', from_bytes_one b 0), d.rest ∙ ap (drop 1) e', d.valid)

-- Whoever receives what `sendPacket` sent has a packet of the same type with the same contents.
pub decode-encode :
    (p : Packet)
    → IsValid p.buffer
    → length (contents p.buffer) + 1 < 2 ^ 64
    → (c : Buffer) × ((encode p >>= decode) ≡ ok (record { type = p.type; buffer = c }))
      × (contents c ≡ contents p.buffer)
      × IsValid c
decode-encode p v h =
    let (c, e, same, w) = decode_lem (to_uint8 p.type) (contents p.buffer) (to_uint8-lt p.type) h in
    (c, rw (encode_lem p v h, e, to_packet_type-to_uint8 p.type), same, w)

-- An empty frame is no packet: `recvPacket` throws.
pub decode-nil : decode [] ≡ throws
unfolding decode
decode-nil =
    let (w, e) =
      push_back-IsValid [] Buffer.new new-IsValid (omega (arith, ap length new-contents)) in
    let short =
      pop_n_throws 1 _ w
        (omega (arith, ap length (e ∙ ap (λ (xs : List ℕ). xs ++ []) new-contents))) in
    rw short
