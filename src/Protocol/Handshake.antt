-- ===== src/Protocol/Handshake.antt =====
-- server/src/client/ProtocolClient.cpp: the steps that agree on the keys, up to the registration of
-- the client. What the program logs is left out.
use tin_locus.Base.{ℕ, Bool, List, ◌==◌, not, if◌then◌else◌, bytes_beq, ok}
use tin_locus.Base.Step.{Step, catch, ◌>>=◌}
use tin_locus.Packet
use tin_locus.Packet.{Packet}
use tin_locus.Packet.PacketType.{Header, to_uint8}
use tin_locus.Crypto.{CryptoPp, Algorithm, get_outer_rsa_key, set_outer_rsa_key}
use tin_locus.Database.Manager.{Manager, register_client}
use tin_locus.Protocol.{
  World, Stage, using, on_crypto, close_connection, send_packet, recv_packet, contents_of,
}

-- `packet.getType() == type`
unfoldable pub is_header : Header → Header → Bool
is_header a b = to_uint8 a == to_uint8 b

module _ (lib : CryptoPp) where
  unfoldable pub set_stage : Stage → Step (World lib) (Unit {0})
  set_stage s w = (ok tt, record w { stage = s })

  -- `getSymmetricKey()`, which copies the key.
  unfoldable pub symmetric_key : Step (World lib) (List ℕ)
  symmetric_key w = (ok w.crypto_module.symmetric_key, w)

  unfoldable pub outer_key : Step (World lib) (List ℕ)
  outer_key w = (get_outer_rsa_key lib w.crypto_module, w)

  -- A packet with the symmetric key.
  unfoldable pub send_key : Header → Step (World lib) (Unit {0})
  send_key h = do key ← symmetric_key; send_packet lib (Packet.push key (Packet.new h))

  unfoldable pub accept_public_key : Packet → Step (World lib) (Unit {0})
  accept_public_key packet = do
    key ← contents_of lib packet
    set ← on_crypto lib (set_outer_rsa_key lib key)
    used ← using lib Algorithm.outer_rsa
    sent ← send_key Header.symmetric_key
    set_stage Stage.set_symmetric_key

  -- `setPublicKey()`
  unfoldable pub set_public_key : Step (World lib) (Unit {0})
  set_public_key =
      catch
        (do
          used ← using lib Algorithm.server_rsa
          packet ← recv_packet lib
          if is_header packet.type Header.public_key
              then accept_public_key packet
              else close_connection lib)
        (close_connection lib)

  unfoldable pub accept_symmetric_key : Packet → Step (World lib) (Unit {0})
  accept_symmetric_key packet = do
    mine ← symmetric_key
    returned ← contents_of lib packet
    if not (bytes_beq mine returned) then close_connection lib else do
      used ← using lib Algorithm.aes
      sent ← send_key Header.test_key
      set_stage Stage.test_key

  -- `setSymmetricKey()`
  unfoldable pub set_symmetric_key : Step (World lib) (Unit {0})
  set_symmetric_key =
      catch
        (do
          used ← using lib Algorithm.server_rsa
          packet ← recv_packet lib
          if is_header packet.type Header.symmetric_key
              then accept_symmetric_key packet
              else close_connection lib)
        (close_connection lib)

  abbrev pub registered : World lib → ℕ × Manager → World lib
  registered w (id, m) = record w { id = id; manager = m }

  unfoldable pub register : List ℕ → Step (World lib) (Unit {0})
  register key w = (ok tt, registered w (register_client key w.blocking_queue w.manager))

  -- `selfRegister()`
  unfoldable pub self_register : Step (World lib) (Unit {0})
  self_register = do key ← outer_key; register key

  unfoldable pub accept_test_key : Step (World lib) (Unit {0})
  accept_test_key = do
    sent ← send_packet lib (Packet.new Header.open_prot)
    set ← set_stage Stage.stable_communication
    self_register

  -- `testKey()`
  unfoldable pub test_key : Step (World lib) (Unit {0})
  test_key =
      catch
        (do
          used ← using lib Algorithm.aes
          packet ← recv_packet lib
          if is_header packet.type Header.test_key then accept_test_key else close_connection lib)
        (close_connection lib)
