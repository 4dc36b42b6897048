-- ===== src/Protocol/Complete.antt =====
-- The whole handshake of server/src/client/ProtocolClient.cpp, with a partner that keeps to it.
pub mod Tests
use tin_locus.Base.{
  ℕ, ◌+◌, ◌^◌, ◌<◌, ◌≡◌, refl, sym, ap, ◌∙◌, List, [], ◌∷◌, ◌++◌, ok, throws, length, some,
}
use tin_locus.Packet.PacketType.{Header, to_uint8}
use tin_locus.Crypto.{
  CryptoPp, CryptoModule, RsaSimpleCrypto, Algorithm, decrypt, decrypt_by, encrypt_rsa, decrypt_rsa,
  use_algorithm,
}
use tin_locus.Crypto.Rsa.{IsReceiver}
use tin_locus.Crypto.Keys.{with_key}
use tin_locus.Protocol.{World, Stage}
use tin_locus.Protocol.Session.{Machine}
use tin_locus.Protocol.Delivery.{IsClear, IsReady}
use tin_locus.Protocol.Exchange.{Answered, frame_of}
use tin_locus.Protocol.Agreement.{receive_public_key}
use tin_locus.Database.Manager.{register_client}
use tin_locus.Protocol.Rounds.{
  IsFrame, taken, holds, exchange, arrives_ok, exchange_ok, exchange_key, exchange_test,
  holds-Takes, holds-HasPacket, holds-Answered,
}

module _ (lib : CryptoPp) (machine : Machine) (k : lib.PublicKey) (s : lib.PrivateKey)
    (fits : lib.Fits k s) where
  exchange_public_key :
      (w : World lib) (cipher out key : List ℕ) (c d : RsaSimpleCrypto lib)
      → w.stage ≡ Stage.set_public_key
      → IsReady w.client_buffer
      → IsClear w.client_buffer
      → IsFrame cipher
      → length out < 2 ^ 16
      → length key + 1 < 2 ^ 64
      → length w.crypto_module.symmetric_key + 1 < 2 ^ 64
      → decrypt_rsa lib cipher w.crypto_module.rsa_server_crypto
        ≡ ok (to_uint8 Header.public_key ∷ key)
      → lib.load_public key ≡ some k
      → IsReceiver lib k s fits d
      → encrypt_rsa lib
          (to_uint8 Header.symmetric_key ∷ w.crypto_module.symmetric_key)
          (with_key lib k w.crypto_module.rsa_simple_crypto)
        ≡ ok (out, c)
      → (w' : World lib) × (exchange lib machine cipher (taken out) w ≡ ok w')
        × (w'.stage ≡ Stage.set_symmetric_key)
        × Answered lib w w' out
        × (w'.manager ≡ w.manager)
        × (w'.crypto_module.symmetric_key ≡ w.crypto_module.symmetric_key)
        × (w'.crypto_module.rsa_server_crypto ≡ w.crypto_module.rsa_server_crypto)
        × (w'.crypto_module.rsa_simple_crypto.public_key ≡ some k)
        × (decrypt_rsa lib out d
            ≡ ok (to_uint8 Header.symmetric_key ∷ w.crypto_module.symmetric_key))
  unfolding decrypt decrypt_by use_algorithm
  exchange_public_key w cipher out key c d stage r clear f short small small' back loads into done =
      let (b, come, v, e) = arrives_ok lib cipher (taken out) w f r in
      let p =
        holds-HasPacket lib w b (taken out) Algorithm.server_rsa Header.public_key cipher key v e
          back small in
      let (w', acted, next, a, m, y, z, known, opened) =
        receive_public_key lib machine k s fits (holds lib w b (taken out)) key out c d stage p
          loads into small' done (holds-Takes lib w b out clear short) in
      (
        w',
        exchange_ok lib machine cipher (taken out) w (holds lib w b (taken out)) w' come acted,
        next,
        holds-Answered lib w w' b (taken out) out a,
        m,
        y,
        z,
        known,
        opened,
      )

  -- A client that is ready, in the first stage, gets three frames: a public key and then the client's
  -- symmetric key, both under the key of the server, and a `TEST_KEY` packet under AES. Where the public
  -- key loads, RSA and AES encrypt what is to be sent, AES rejects an empty text, the kernel takes what
  -- goes out, and the sizes are small enough, the client answers each frame with one; the first holds
  -- its symmetric key, which the fitting private key opens. Then the client is registered under its
  -- public key and in the last stage, and it also is to be erased.
  pub handshake :
      (w : World lib) (key body first second third : List ℕ) (out out' out'' : List ℕ)
      (c d : RsaSimpleCrypto lib)
      → w.stage ≡ Stage.set_public_key
      → IsReady w.client_buffer
      → IsClear w.client_buffer
      → IsFrame first
      → IsFrame second
      → IsFrame third
      → (length out < 2 ^ 16) × (length out' < 2 ^ 16) × (length out'' < 2 ^ 16)
      → (length key + 1 < 2 ^ 64)
        × (length w.crypto_module.symmetric_key + 1 < 2 ^ 64)
        × (length body + 1 < 2 ^ 64)
      → decrypt_rsa lib first w.crypto_module.rsa_server_crypto
        ≡ ok (to_uint8 Header.public_key ∷ key)
      → lib.load_public key ≡ some k
      → IsReceiver lib k s fits d
      → encrypt_rsa lib
          (to_uint8 Header.symmetric_key ∷ w.crypto_module.symmetric_key)
          (with_key lib k w.crypto_module.rsa_simple_crypto)
        ≡ ok (out, c)
      → decrypt_rsa lib second w.crypto_module.rsa_server_crypto
        ≡ ok (to_uint8 Header.symmetric_key ∷ w.crypto_module.symmetric_key)
      → lib.aes_encrypt w.crypto_module.symmetric_key
          (to_uint8 Header.test_key ∷ w.crypto_module.symmetric_key)
        ≡ ok out'
      → lib.aes_decrypt w.crypto_module.symmetric_key third ≡ ok (to_uint8 Header.test_key ∷ body)
      → lib.aes_encrypt w.crypto_module.symmetric_key (to_uint8 Header.open_prot ∷ []) ≡ ok out''
      → lib.aes_decrypt w.crypto_module.symmetric_key [] ≡ throws
      → (w1 : World lib) × (w2 : World lib) × (w3 : World lib) × (exchange lib machine first
            (taken out)
            w
          ≡ ok w1)
        × (exchange lib machine second (taken out') w1 ≡ ok w2)
        × (exchange lib machine third (taken out'') w2 ≡ ok w3)
        × (w3.stage ≡ Stage.stable_communication)
        × (w3.wire ≡ ((w.wire ++ frame_of lib out) ++ frame_of lib out') ++ frame_of lib out'')
        × (decrypt_rsa lib out d
            ≡ ok (to_uint8 Header.symmetric_key ∷ w.crypto_module.symmetric_key))
        × ((w3.id, w3.manager) ≡ register_client (lib.save_public k) w.blocking_queue w.manager)
        × (w3.erase_clients ≡ w.erase_clients ++ w.client_buffer.file_descriptor ∷ [])
  unfolding use_algorithm
  handshake w key body first second third out out' out'' c d stage r clear f f' f'' (s1, s2, s3)
        (n1, n2, n3) back loads into done back' done' back'' done'' bad =
      let (w1, e1, next1, a1, m1, y1, z1, known1, opened) =
        exchange_public_key w first out key c d stage r clear f s1 n1 n2 back loads into done in
      let (w2, e2, next2, a2, m2, crypto) =
        exchange_key lib machine w1 second out' next1 a1.ready a1.clear f' s2 (rw y1 n2)
          (ap (λ x. decrypt_rsa lib second x) z1
            ∙ back'
            ∙ ap (λ (xs : List ℕ). ok (to_uint8 Header.symmetric_key ∷ xs)) (sym y1))
          (ap (λ x. lib.aes_encrypt x (to_uint8 Header.test_key ∷ x)) y1 ∙ done') in
      let y2 : w2.crypto_module.symmetric_key ≡ w.crypto_module.symmetric_key =
        ap (λ (m : CryptoModule lib). m.symmetric_key) crypto ∙ y1 in
      let (w3, e3, next3, wire, registers, erased) =
        exchange_test lib machine w2 third out'' body k next2 a2.ready a2.clear f'' s3 n3
          (ap (λ (m : CryptoModule lib). m.rsa_simple_crypto.public_key) crypto ∙ known1)
          (ap (λ x. lib.aes_decrypt x third) y2 ∙ back'')
          (ap (λ x. lib.aes_encrypt x (to_uint8 Header.open_prot ∷ [])) y2 ∙ done'')
          (ap (λ x. lib.aes_decrypt x []) y2 ∙ bad) in
      (
        w1,
        w2,
        w3,
        e1,
        e2,
        e3,
        next3,
        wire
            ∙ ap (λ (xs : List ℕ). xs ++ frame_of lib out'')
                (a2.wire ∙ ap (λ (xs : List ℕ). xs ++ frame_of lib out') a1.wire),
        opened,
        registers
            ∙ ap (λ q. register_client (lib.save_public k) q w2.manager)
                (a2.blocking_queue ∙ a1.blocking_queue)
            ∙ ap (register_client (lib.save_public k) w.blocking_queue) (m2 ∙ m1),
        rw (erased, a2.erase_clients, a1.erase_clients, a2.descriptor, a1.descriptor) refl,
      )
