-- ===== src/Packet/Names.antt =====
-- `PacketType::toString` of server/src/packet/PacketType.cpp, which the log calls.
use tin_locus.Base.{ℕ, ◌≡◌, refl, List, [], ◌∷◌, Option, some, bytes_eq}
use tin_locus.Base.Dict.{Dict, lookup}
use tin_locus.Packet.PacketType.{Header}

-- `toString(header)`
unfoldable pub to_string : Header → List ℕ
to_string Header.opening = b'O' ∷ b'P' ∷ b'E' ∷ b'N' ∷ []
to_string Header.close = b'C' ∷ b'L' ∷ b'O' ∷ b'S' ∷ b'E' ∷ []
to_string Header.ack_ok = b'A' ∷ b'C' ∷ b'K' ∷ b'_' ∷ b'O' ∷ b'K' ∷ []
to_string Header.ack_err = b'A' ∷ b'C' ∷ b'K' ∷ b'_' ∷ b'E' ∷ b'R' ∷ b'R' ∷ []
to_string Header.alive = b'A' ∷ b'L' ∷ b'I' ∷ b'V' ∷ b'E' ∷ []
to_string Header.open_encr = b'O' ∷ b'P' ∷ b'E' ∷ b'N' ∷ b'_' ∷ b'E' ∷ b'N' ∷ b'C' ∷ b'R' ∷ []
to_string Header.public_key =
    b'P' ∷ b'U' ∷ b'B' ∷ b'L' ∷ b'I' ∷ b'C' ∷ b'_' ∷ b'K' ∷ b'E' ∷ b'Y' ∷ []
to_string Header.symmetric_key =
    b'S' ∷ b'Y' ∷ b'M' ∷ b'M' ∷ b'E' ∷ b'T' ∷ b'R' ∷ b'I' ∷ b'C' ∷ b'_' ∷ b'K' ∷ b'E' ∷ b'Y' ∷ []
to_string Header.test_key = b'T' ∷ b'E' ∷ b'S' ∷ b'T' ∷ b'_' ∷ b'K' ∷ b'E' ∷ b'Y' ∷ []
to_string Header.open_prot = b'O' ∷ b'P' ∷ b'E' ∷ b'N' ∷ b'_' ∷ b'P' ∷ b'R' ∷ b'O' ∷ b'T' ∷ []
to_string Header.set_name = b'S' ∷ b'E' ∷ b'T' ∷ b'_' ∷ b'N' ∷ b'A' ∷ b'M' ∷ b'E' ∷ []
to_string Header.add_follower =
    b'A' ∷ b'D' ∷ b'D' ∷ b'_' ∷ b'F' ∷ b'O' ∷ b'L' ∷ b'L' ∷ b'O' ∷ b'W' ∷ b'E' ∷ b'R' ∷ []
to_string Header.new_followed =
    b'N' ∷ b'E' ∷ b'W' ∷ b'_' ∷ b'F' ∷ b'O' ∷ b'L' ∷ b'L' ∷ b'O' ∷ b'W' ∷ b'E' ∷ b'D' ∷ []
to_string Header.remove_follower =
    b'R' ∷ b'E' ∷ b'M' ∷ b'O' ∷ b'V' ∷ b'E' ∷ b'_' ∷ b'F' ∷ b'O' ∷ b'L' ∷ b'L' ∷ b'O' ∷ b'W' ∷ b'E'
    ∷ b'R' ∷ []
to_string Header.remove_followed =
    b'R' ∷ b'E' ∷ b'M' ∷ b'O' ∷ b'V' ∷ b'E' ∷ b'_' ∷ b'F' ∷ b'O' ∷ b'L' ∷ b'L' ∷ b'O' ∷ b'W' ∷ b'E'
    ∷ b'D' ∷ []
to_string Header.my_location =
    b'M' ∷ b'Y' ∷ b'_' ∷ b'L' ∷ b'O' ∷ b'C' ∷ b'A' ∷ b'T' ∷ b'I' ∷ b'O' ∷ b'N' ∷ []
to_string Header.location = b'L' ∷ b'O' ∷ b'C' ∷ b'A' ∷ b'T' ∷ b'I' ∷ b'O' ∷ b'N' ∷ []
to_string Header.undefined = b'U' ∷ b'N' ∷ b'D' ∷ b'E' ∷ b'F' ∷ b'I' ∷ b'N' ∷ b'E' ∷ b'D' ∷ []

abbrev names : List Header → Dict (List ℕ) Header
names [] = []
names (h ∷ hs) = (to_string h, h) ∷ names hs

abbrev types : List Header
types =
    Header.opening ∷ Header.close ∷ Header.ack_ok ∷ Header.ack_err ∷ Header.alive ∷ Header.open_encr
    ∷ Header.public_key ∷ Header.symmetric_key ∷ Header.test_key ∷ Header.open_prot
    ∷ Header.set_name ∷ Header.add_follower ∷ Header.new_followed ∷ Header.remove_follower
    ∷ Header.remove_followed ∷ Header.my_location ∷ Header.location ∷ Header.undefined ∷ []

-- What a reader of the log makes of a name.
pub of_string : List ℕ → Option Header
unfolding lookup to_string
of_string name = lookup name (names types)

-- The name in the log says which type the packet has.
pub of_string-to_string : (h : Header) → of_string (to_string h) ≡ some h
unfolding of_string
of_string-to_string Header.opening = refl
of_string-to_string _ = refl
