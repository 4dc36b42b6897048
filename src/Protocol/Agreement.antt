-- ===== src/Protocol/Agreement.antt =====
-- The handshake of server/src/client/ProtocolClient.cpp, from the frame that came to the frame that
-- goes out, when the other side keeps to it.
pub mod Tests
use tin_locus.Base.{
  ℕ, ◌+◌, ◌^◌, ◌<◌, ◌≡◌, ◌≢◌, refl, sym, ap, ◌∙◌, true, List, [], ◌∷◌, ◌++◌, ok, length, some,
}
use tin_locus.Packet.PacketType.{Header, to_uint8}
use tin_locus.Crypto.{
  CryptoPp, CryptoModule, RsaSimpleCrypto, Algorithm, encrypt, encrypt_rsa, decrypt_rsa, encrypt_by,
  use_algorithm, set_outer_rsa_key, get_outer_rsa_key, get_encryption_key,
}
use tin_locus.Crypto.Rsa.{IsSender, IsReceiver, decrypt_rsa-encrypt_rsa}
use tin_locus.Crypto.Keys.{with_key, set_outer_rsa_key_ok}
use tin_locus.Protocol.{World, Stage, close_connection}
use tin_locus.Protocol.Handshake.{test_key, registered}
use tin_locus.Database.Manager.{register_client}
use tin_locus.Protocol.Session.{Machine, receive_data, receive_on}
use tin_locus.Protocol.Delivery.{sent_world}
use tin_locus.Protocol.Accepts.{
  with_crypto, set_public_key_accepts, set_symmetric_key_accepts, set_symmetric_key_refuses,
  test_key_accepts,
}
use tin_locus.Protocol.Exchange.{
  HasPacket, Takes, with_in, Answered, with_in-Answered, received, sent, sent_empty, with_in-Takes,
}

module _ (lib : CryptoPp) (machine : Machine) (k : lib.PublicKey) (s : lib.PrivateKey)
    (fits : lib.Fits k s) where
  -- A frame with a public key comes in the first stage. Where the key loads and the kernel takes what
  -- goes out, `receiveData` puts one frame on the wire, from which whoever has the fitting private key
  -- reads the client's symmetric key; the next stage begins and the client is ready for the next frame.
  pub receive_public_key :
      (w : World lib) (key cipher : List ℕ) (c d : RsaSimpleCrypto lib)
      → w.stage ≡ Stage.set_public_key
      → HasPacket lib w Algorithm.server_rsa Header.public_key key
      → lib.load_public key ≡ some k
      → IsReceiver lib k s fits d
      → length w.crypto_module.symmetric_key + 1 < 2 ^ 64
      → encrypt_rsa lib
          (to_uint8 Header.symmetric_key ∷ w.crypto_module.symmetric_key)
          (with_key lib k w.crypto_module.rsa_simple_crypto)
        ≡ ok (cipher, c)
      → Takes lib w cipher
      → (w' : World lib) × (receive_data lib machine w ≡ (ok tt, w'))
        × (w'.stage ≡ Stage.set_symmetric_key)
        × Answered lib w w' cipher
        × (w'.manager ≡ w.manager)
        × (w'.crypto_module.symmetric_key ≡ w.crypto_module.symmetric_key)
        × (w'.crypto_module.rsa_server_crypto ≡ w.crypto_module.rsa_server_crypto)
        × (w'.crypto_module.rsa_simple_crypto.public_key ≡ some k)
        × (decrypt_rsa lib cipher d
            ≡ ok (to_uint8 Header.symmetric_key ∷ w.crypto_module.symmetric_key))
  unfolding receive_data receive_on use_algorithm encrypt encrypt_by
  receive_public_key w key cipher c d stage p loads r small done t =
      let (b, b', came, v, kept, drained) =
        received lib w Algorithm.server_rsa Header.public_key key p in
      let w1 : World lib =
        with_in lib (with_crypto lib w (use_algorithm lib Algorithm.server_rsa w.crypto_module))
          b' in
      let m : CryptoModule lib = record w1.crypto_module {
        rsa_simple_crypto = with_key lib k w.crypto_module.rsa_simple_crypto;
        outer_rsa_key = true;
      } in
      let outer = use_algorithm lib Algorithm.outer_rsa m in
      let w2 : World lib = with_crypto lib w1 outer in
      let (g, out, wire, leaves) =
        sent lib Header.symmetric_key w.crypto_module.symmetric_key w2 cipher
          (record outer { rsa_simple_crypto = c }) small (rw done)
          (with_in-Takes lib w b' outer cipher t) in
      let sender : IsSender lib k s fits (with_key lib k w.crypto_module.rsa_simple_crypto) =
        record { public_key = refl; max_plain_text_length = refl } in
      let (cipher', e, done', again, back) =
        decrypt_rsa-encrypt_rsa lib k s fits
          (to_uint8 Header.symmetric_key ∷ w.crypto_module.symmetric_key) _ d sender r in
      let same : cipher' ≡ cipher = cc (done, done') in
      let stays : e ≡ c = cc (done, done') in
      (
        record (sent_world lib w2 (record outer { rsa_simple_crypto = c }) g) {
          stage = Stage.set_symmetric_key;
        },
        ap (λ x. receive_on lib machine x w) stage
            ∙ set_public_key_accepts lib w w1
                (sent_world lib w2 (record outer { rsa_simple_crypto = c }) g) b m came v
                (ap (λ x. set_outer_rsa_key lib x w1.crypto_module) kept
                  ∙ set_outer_rsa_key_ok lib key k w1.crypto_module loads)
                out,
        refl,
        with_in-Answered lib w b' outer (record outer { rsa_simple_crypto = c }) g cipher
            Stage.set_symmetric_key (w.id, w.manager) drained wire leaves,
        refl,
        refl,
        refl,
        ap (λ (x : RsaSimpleCrypto lib). x.public_key) (sym stays) ∙ again.public_key,
        ap (λ x. decrypt_rsa lib x d) (sym same) ∙ back,
      )

module _ (lib : CryptoPp) (machine : Machine) where
  -- A frame with the client's own symmetric key comes in the second stage. Where the kernel takes what
  -- goes out, `receiveData` puts one frame on the wire, from which AES with that key reads the `TEST_KEY`
  -- packet with the key; the next stage begins and the client is ready for the next frame.
  pub receive_symmetric_key :
      (w : World lib) (cipher : List ℕ)
      → w.stage ≡ Stage.set_symmetric_key
      → HasPacket lib w Algorithm.server_rsa Header.symmetric_key w.crypto_module.symmetric_key
      → lib.aes_encrypt w.crypto_module.symmetric_key
          (to_uint8 Header.test_key ∷ w.crypto_module.symmetric_key)
        ≡ ok cipher
      → Takes lib w cipher
      → (w' : World lib) × (receive_data lib machine w ≡ (ok tt, w'))
        × (w'.stage ≡ Stage.test_key)
        × Answered lib w w' cipher
        × (w'.manager ≡ w.manager)
        × (w'.crypto_module ≡ use_algorithm lib Algorithm.aes w.crypto_module)
        × (lib.aes_decrypt w.crypto_module.symmetric_key cipher
            ≡ ok (to_uint8 Header.test_key ∷ w.crypto_module.symmetric_key))
  unfolding receive_data receive_on use_algorithm encrypt encrypt_by
  receive_symmetric_key w cipher stage p done t =
      let key = w.crypto_module.symmetric_key in
      let (b, b', came, v, kept, drained) =
        received lib w Algorithm.server_rsa Header.symmetric_key key p in
      let w1 : World lib =
        with_in lib (with_crypto lib w (use_algorithm lib Algorithm.server_rsa w.crypto_module))
          b' in
      let inner = use_algorithm lib Algorithm.aes w.crypto_module in
      let (g, out, wire, leaves) =
        sent lib Header.test_key key (with_crypto lib w1 inner) cipher inner p.small (rw done)
          (with_in-Takes lib w b' inner cipher t) in
      let w2 : World lib = sent_world lib (with_crypto lib w1 inner) inner g in
      (
        record w2 { stage = Stage.test_key },
        ap (λ x. receive_on lib machine x w) stage
            ∙ set_symmetric_key_accepts lib w w1 w2 b came v kept out,
        refl,
        with_in-Answered lib w b' inner inner g cipher Stage.test_key (w.id, w.manager) drained wire
            leaves,
        refl,
        refl,
        lib.aes_decrypt-aes_encrypt key (to_uint8 Header.test_key ∷ key) cipher done,
      )

  -- A frame with any other symmetric key comes in the second stage: the client is to be erased,
  -- nothing goes out, and the stage stays.
  pub receive_other_key :
      (w : World lib) (other : List ℕ)
      → w.stage ≡ Stage.set_symmetric_key
      → HasPacket lib w Algorithm.server_rsa Header.symmetric_key other
      → other ≢ w.crypto_module.symmetric_key
      → (w' : World lib) × (receive_data lib machine w ≡ (ok tt, w'))
        × (w'.erase_clients ≡ w.erase_clients ++ w.client_buffer.file_descriptor ∷ [])
        × (w'.stage ≡ Stage.set_symmetric_key)
        × (w'.wire ≡ w.wire)
  unfolding receive_data receive_on use_algorithm close_connection
  receive_other_key w other stage p differs =
      let (b, b', came, v, kept, drained) =
        received lib w Algorithm.server_rsa Header.symmetric_key other p in
      let w1 : World lib =
        with_in lib (with_crypto lib w (use_algorithm lib Algorithm.server_rsa w.crypto_module))
          b' in
      (
        (close_connection lib w1).1,
        ap (λ x. receive_on lib machine x w) stage
            ∙ set_symmetric_key_refuses lib w w1 b came v (λ e. differs (sym kept ∙ e)),
        refl,
        stage,
        refl,
      )

module _ (lib : CryptoPp) where
  -- A `TEST_KEY` packet that AES reads comes in the third stage. Where the client has set its public
  -- key and the kernel takes what goes out, `testKey` puts one frame on the wire, from which AES reads
  -- the `OPEN_PROT` packet, opens the last stage, and registers the client under its public key. The
  -- client is ready for the next frame.
  pub test_key_registers :
      (w : World lib) (body cipher : List ℕ) (k : lib.PublicKey)
      → HasPacket lib w Algorithm.aes Header.test_key body
      → w.crypto_module.rsa_simple_crypto.public_key ≡ some k
      → lib.aes_encrypt w.crypto_module.symmetric_key (to_uint8 Header.open_prot ∷ []) ≡ ok cipher
      → Takes lib w cipher
      → (w' : World lib) × (test_key lib w ≡ (ok tt, w'))
        × (w'.stage ≡ Stage.stable_communication)
        × Answered lib w w' cipher
        × ((w'.id, w'.manager) ≡ register_client (lib.save_public k) w.blocking_queue w.manager)
        × (w'.crypto_module ≡ use_algorithm lib Algorithm.aes w.crypto_module)
        × (lib.aes_decrypt w.crypto_module.symmetric_key cipher
            ≡ ok (to_uint8 Header.open_prot ∷ []))
  unfolding use_algorithm encrypt encrypt_by get_outer_rsa_key get_encryption_key
  test_key_registers w body cipher k p known done t =
      let (b, b', came, v, kept, drained) = received lib w Algorithm.aes Header.test_key body p in
      let inner = use_algorithm lib Algorithm.aes w.crypto_module in
      let w1 : World lib = with_in lib (with_crypto lib w inner) b' in
      let (g, out, wire, leaves) =
        sent_empty lib Header.open_prot w1 cipher inner (rw done)
          (with_in-Takes lib w b' inner cipher t) in
      let w2 : World lib = sent_world lib w1 inner g in
      (
        registered lib (record w2 { stage = Stage.stable_communication })
            (register_client (lib.save_public k) w.blocking_queue w.manager),
        test_key_accepts lib w w1 w2 b (lib.save_public k) came out (rw known),
        refl,
        with_in-Answered lib w b' inner inner g cipher Stage.stable_communication
            (register_client (lib.save_public k) w.blocking_queue w.manager) drained wire leaves,
        refl,
        refl,
        lib.aes_decrypt-aes_encrypt w.crypto_module.symmetric_key (to_uint8 Header.open_prot ∷ [])
            cipher done,
      )
