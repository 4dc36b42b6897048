-- ===== src/Protocol/Layers.antt =====
-- The three `recv` of the layers of a client.
use tin_locus.Base.{◌≡◌, refl, Bool, true, false}
use tin_locus.Message.{MessageType}
use tin_locus.Crypto.{CryptoPp}
use tin_locus.Protocol.{World, simple_client_recv, encrypt_client_recv}
use tin_locus.Protocol.Session.{Machine, recv}

-- What only a `ProtocolClient` knows.
abbrev is_own : MessageType → Bool
is_own MessageType.packet_send = true
is_own MessageType.packet_receive = true
is_own MessageType.update = true
is_own _ = false

own_refused : true ≡ false → ⊥
own_refused e = cc

-- A message that the protocol does not know has the same effect in every layer.
pub recv-agrees :
    (lib : CryptoPp) (machine : Machine) (t : MessageType) (w : World lib)
    → is_own t ≡ false
    → (recv lib machine t w ≡ simple_client_recv lib t w)
      × (simple_client_recv lib t w ≡ encrypt_client_recv lib t w)
unfolding recv simple_client_recv encrypt_client_recv
recv-agrees lib machine MessageType.packet_send w h = absurd (own_refused h)
recv-agrees lib machine MessageType.packet_receive w h = absurd (own_refused h)
recv-agrees lib machine MessageType.update w h = absurd (own_refused h)
recv-agrees lib machine _ w h = (refl, refl)
