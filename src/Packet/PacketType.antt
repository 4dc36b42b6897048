-- ===== src/Packet/PacketType.antt =====
-- server/src/packet/PacketType.h and PacketType.cpp: the packet types and their codes.
use tin_locus.Base.{ℕ, ◌<◌, ◌≡◌, ◌≢◌, refl, Option, none, some, List, [], ◌∷◌, arith, nat_eq}
use tin_locus.Base.Dict.{Dict, lookup}

-- `PacketType::header`; `opening` is `OPEN`.
pub data Header : Type 0 where
  opening close ack_ok ack_err alive : Header
  open_encr public_key symmetric_key test_key : Header
  open_prot set_name add_follower new_followed remove_follower remove_followed : Header
  my_location location : Header
  undefined : Header

unfoldable pub to_uint8 : Header → ℕ
to_uint8 Header.opening = 0
to_uint8 Header.close = 1
to_uint8 Header.ack_ok = 2
to_uint8 Header.ack_err = 3
to_uint8 Header.alive = 4
to_uint8 Header.open_encr = 8
to_uint8 Header.public_key = 9
to_uint8 Header.symmetric_key = 10
to_uint8 Header.test_key = 11
to_uint8 Header.open_prot = 16
to_uint8 Header.set_name = 17
to_uint8 Header.add_follower = 18
to_uint8 Header.new_followed = 19
to_uint8 Header.remove_follower = 20
to_uint8 Header.remove_followed = 21
to_uint8 Header.my_location = 22
to_uint8 Header.location = 23
to_uint8 Header.undefined = 100

-- The types that stand in the tables of `toPacketType` and `toString`.
abbrev known : List Header
known =
    Header.opening ∷ Header.close ∷ Header.ack_ok ∷ Header.ack_err ∷ Header.alive ∷ Header.open_encr
    ∷ Header.public_key ∷ Header.symmetric_key ∷ Header.test_key ∷ Header.open_prot
    ∷ Header.set_name ∷ Header.add_follower ∷ Header.new_followed ∷ Header.remove_follower
    ∷ Header.remove_followed ∷ Header.my_location ∷ Header.location ∷ []

by_code : List Header → Dict ℕ Header
by_code [] = []
by_code (h ∷ hs) = (to_uint8 h, h) ∷ by_code hs

abbrev or_undefined : Option Header → Header
or_undefined (some h) = h
or_undefined none = Header.undefined

unfoldable pub to_packet_type : ℕ → Header
unfolding lookup by_code to_uint8
to_packet_type code = or_undefined (lookup code (by_code known))

-- Reading the code of a type gives the type back.
pub to_packet_type-to_uint8 : (h : Header) → to_packet_type (to_uint8 h) ≡ h
unfolding to_packet_type
to_packet_type-to_uint8 Header.opening = refl
to_packet_type-to_uint8 _ = refl

lookup-by_code :
    (code : ℕ) (h : Header) (hs : List Header)
    → lookup code (by_code hs) ≡ some h
    → to_uint8 h ≡ code
unfolding lookup by_code
lookup-by_code code h [] e = cc
lookup-by_code code h (x ∷ hs) e = ground (arith, lookup-by_code code h hs)

or_undefined-cases :
    (code : ℕ) (o : Option Header)
    → ((h : Header) → o ≡ some h → to_uint8 h ≡ code)
    → or_undefined o ≢ Header.undefined
    → to_uint8 (or_undefined o) ≡ code
or_undefined-cases code none known_code h = absurd (h refl)
or_undefined-cases code (some x) known_code h = known_code x refl

-- A code that is recognised is the code of the type that it is read as.
pub to_uint8-to_packet_type :
    (code : ℕ) → to_packet_type code ≢ Header.undefined → to_uint8 (to_packet_type code) ≡ code
unfolding to_packet_type
to_uint8-to_packet_type code h =
    or_undefined-cases code (lookup code (by_code known)) (λ x. lookup-by_code code x known) h

pub to_uint8-lt : (h : Header) → to_uint8 h < 256
unfolding to_uint8
to_uint8-lt Header.opening = omega arith
to_uint8-lt _ = omega arith
