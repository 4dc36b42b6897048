-- ===== src/Protocol.antt =====
-- server/src/client: SimpleClient, EncryptClient, DecoratorClient and Client.cpp, the layers below
-- ProtocolClient. A client is one `World`, the state of all its layers with what it shares: the
-- database, the answers of the kernel to `::send`, and what it has sent to others so far.
pub mod Handshake
pub mod Session
pub mod Frames
pub mod Stages
pub mod Onward
pub mod Recv
pub mod Tested
pub mod Updates
pub mod Delivery
pub mod Accepts
pub mod Exchange
pub mod Agreement
pub mod Rounds
pub mod Complete
pub mod Layers
pub mod Tests
use tin_locus.Base.{ℕ, List, [], ◌∷◌, ◌++◌, Result, ok}
use tin_locus.Base.Step.{Step, pure, lift, updated, ◌>>=◌}
use tin_locus.Buffer
use tin_locus.Packet
use tin_locus.Packet.{Packet, encode, decode}
use tin_locus.Message.{MessageType}
use tin_locus.Message.Names.{unexpected}
use tin_locus.Crypto.{CryptoPp, CryptoModule, Algorithm, encrypt, decrypt, use_algorithm}
use tin_locus.ClientBuffer.{ClientBuffer}
use tin_locus.ClientBuffer
use tin_locus.ClientBuffer.Send
use tin_locus.ClientBuffer.Send.{Taken}
use tin_locus.Database.Manager.{Manager}

-- `ProtocolClient::Stage`
pub data Stage : Type 0 where
  set_public_key set_symmetric_key test_key stable_communication exit : Stage

module _ (lib : CryptoPp) where
  pub record World : Type 0 where
    pub client_buffer : ClientBuffer
    pub crypto_module : CryptoModule lib
    pub stage : Stage
    pub remaining_packets : List Packet
    pub id : ℕ
    pub blocking_queue : ℕ
    pub manager : Manager
    pub kernel : List Taken
    pub wire : List ℕ
    pub own_messages : List MessageType
    pub erase_clients : List ℕ
    pub notices : List ℕ

  -- `SimpleClient::sendData(bytes)`. A valid buffer does not throw here.
  pub simple_send : List ℕ → Step World (Unit {0})
  simple_send bytes w =
      updated w
        (λ (h : Send.Handled). record w {
          client_buffer = h.state;
          wire = w.wire ++ h.wire;
          own_messages = w.own_messages ++ h.pushed;
          kernel = h.answers;
        })
        (λ _. tt) (Send.send_data bytes w.client_buffer w.kernel)

  -- `SimpleClient::recvData()`
  pub simple_recv : Step World (List ℕ)
  simple_recv w =
      updated w (λ ((bytes, c) : List ℕ × ClientBuffer). record w { client_buffer = c })
        (λ (bytes, c). bytes) (Send.recv_data w.client_buffer)

  -- `SimpleClient::closeConnection()`
  pub close_connection : Step World (Unit {0})
  close_connection w =
      (ok tt, record w { erase_clients = w.erase_clients ++ w.client_buffer.file_descriptor ∷ [] })

  -- `SimpleClient::recv()`, on the message that `pop_for` returned.
  unfoldable pub simple_client_recv : MessageType → Step World (Unit {0})
  unfolding close_connection unexpected
  simple_client_recv MessageType.empty = pure tt
  simple_client_recv MessageType.close = close_connection
  simple_client_recv m = lift (unexpected tt m)

  -- `EncryptClient::recv()`, which takes the message from the queue of the client below it.
  unfoldable pub encrypt_client_recv : MessageType → Step World (Unit {0})
  unfolding close_connection unexpected
  encrypt_client_recv MessageType.empty = pure tt
  encrypt_client_recv MessageType.close = close_connection
  encrypt_client_recv m = lift (unexpected tt m)

  -- A call of the client's `CryptoModule`.
  pub on_crypto : (CryptoModule lib → Result (CryptoModule lib)) → Step World (Unit {0})
  on_crypto f w = updated w (λ m. record w { crypto_module = m }) (λ _. tt) (f w.crypto_module)

  pub using : Algorithm → Step World (Unit {0})
  unfolding on_crypto
  using a = on_crypto (λ m. ok (use_algorithm lib a m))

  -- `EncryptClient::sendData(bytes)`
  pub encrypted : List ℕ → Step World (List ℕ)
  encrypted bytes w =
      updated w (λ ((cipher, m) : List ℕ × CryptoModule lib). record w { crypto_module = m })
        (λ (cipher, m). cipher) (encrypt lib bytes w.crypto_module)

  pub encrypt_send : List ℕ → Step World (Unit {0})
  encrypt_send bytes = do cipher ← encrypted bytes; simple_send cipher

  -- `EncryptClient::recvData()`
  pub decrypted : List ℕ → Step World (List ℕ)
  decrypted cipher w = (decrypt lib cipher w.crypto_module, w)

  pub encrypt_recv : Step World (List ℕ)
  encrypt_recv = do bytes ← simple_recv; decrypted bytes

  -- `Client::sendPacket(packet)`
  pub send_packet : Packet → Step World (Unit {0})
  send_packet p = do bytes ← lift (encode p); encrypt_send bytes

  -- `Client::recvPacket()`
  pub recv_packet : Step World Packet
  recv_packet = do bytes ← encrypt_recv; lift (decode bytes)

  -- `packet.getBuffer().popAll()`, on a packet that is not used again.
  pub contents_of : Packet → Step World (List ℕ)
  contents_of p = do (bytes, rest) ← lift (Buffer.pop_all p.buffer); pure bytes
