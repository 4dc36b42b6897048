-- ===== src/Protocol/Accepts.antt =====
-- The three steps of the handshake in server/src/client/ProtocolClient.cpp when the other side keeps
-- to it.
use tin_locus.Base.{
  ℕ, ◌≡◌, sym, List, ok, ◌≢◌, bytes_eq, bytes_beq, bytes_beq_iff, Bool-cases, inl, inr, false,
}
use tin_locus.Base.Step.{updated}
use tin_locus.Base.Dict.{beq_self}
use tin_locus.Buffer.{Buffer}
use tin_locus.Buffer.Invariant.{IsValid, contents}
use tin_locus.Buffer.Drain.{pop_all-contents}
use tin_locus.Packet
use tin_locus.Packet.{Packet}
use tin_locus.Packet.PacketType.{Header, to_uint8}
use tin_locus.Crypto.{
  CryptoPp, CryptoModule, Algorithm, set_outer_rsa_key, get_outer_rsa_key, use_algorithm,
}
use tin_locus.Database.Manager.{register_client}
use tin_locus.Protocol.{
  World, Stage, using, on_crypto, close_connection, send_packet, recv_packet, contents_of,
}
use tin_locus.Protocol.Handshake.{
  set_public_key, accept_public_key, set_symmetric_key, accept_symmetric_key, test_key,
  accept_test_key, send_key, symmetric_key, set_stage, is_header, self_register, outer_key,
  register, registered,
}

bytes_differ : (xs ys : List ℕ) → xs ≢ ys → bytes_beq xs ys ≡ false
bytes_differ xs ys h = elim (Bool-cases (bytes_beq xs ys)) [
  | inl same ↦ absurd (h ((bytes_beq_iff xs ys).0 same))
  | inr other ↦ other
]

module _ (lib : CryptoPp) where
  abbrev pub with_crypto : World lib → CryptoModule lib → World lib
  with_crypto w m = record w { crypto_module = m }

  pub set_public_key_accepts :
      (w w1 w2 : World lib) (b : Buffer) (m : CryptoModule lib)
      → recv_packet lib (with_crypto w (use_algorithm lib Algorithm.server_rsa w.crypto_module))
        ≡ (ok (record { type = Header.public_key; buffer = b }), w1)
      → IsValid b
      → set_outer_rsa_key lib (contents b) w1.crypto_module ≡ ok m
      → send_packet lib
          (Packet.push m.symmetric_key (Packet.new Header.symmetric_key))
          (with_crypto w1 (use_algorithm lib Algorithm.outer_rsa m))
        ≡ (ok tt, w2)
      → set_public_key lib w ≡ (ok tt, record w2 { stage = Stage.set_symmetric_key })
  unfolding set_public_key accept_public_key using on_crypto updated contents_of send_key
      symmetric_key set_stage is_header to_uint8 use_algorithm
  set_public_key_accepts w w1 w2 b m came v keyed sent =
      let popped = pop_all-contents b v in rw (came, popped.1, keyed, sent)

  pub set_symmetric_key_accepts :
      (w w1 w2 : World lib) (b : Buffer)
      → recv_packet lib (with_crypto w (use_algorithm lib Algorithm.server_rsa w.crypto_module))
        ≡ (ok (record { type = Header.symmetric_key; buffer = b }), w1)
      → IsValid b
      → contents b ≡ w1.crypto_module.symmetric_key
      → send_packet lib
          (Packet.push w1.crypto_module.symmetric_key (Packet.new Header.test_key))
          (with_crypto w1 (use_algorithm lib Algorithm.aes w1.crypto_module))
        ≡ (ok tt, w2)
      → set_symmetric_key lib w ≡ (ok tt, record w2 { stage = Stage.test_key })
  unfolding set_symmetric_key accept_symmetric_key using on_crypto updated contents_of send_key
      symmetric_key set_stage is_header to_uint8 use_algorithm
  set_symmetric_key_accepts w w1 w2 b came v same sent =
      let popped = pop_all-contents b v in
      rw (came, popped.1, same, beq_self {A = List ℕ} w1.crypto_module.symmetric_key, sent)

  -- Another key than the one that was sent: the client is to be erased, and no packet is sent.
  pub set_symmetric_key_refuses :
      (w w1 : World lib) (b : Buffer)
      → recv_packet lib (with_crypto w (use_algorithm lib Algorithm.server_rsa w.crypto_module))
        ≡ (ok (record { type = Header.symmetric_key; buffer = b }), w1)
      → IsValid b
      → contents b ≢ w1.crypto_module.symmetric_key
      → set_symmetric_key lib w ≡ close_connection lib w1
  unfolding set_symmetric_key accept_symmetric_key using on_crypto updated contents_of send_key
      symmetric_key set_stage is_header to_uint8 use_algorithm close_connection
  set_symmetric_key_refuses w w1 b came v other =
      let popped = pop_all-contents b v in
      rw (
        came,
        popped.1,
        bytes_differ w1.crypto_module.symmetric_key (contents b) (λ e. other (sym e)),
      )

  pub test_key_accepts :
      (w w1 w2 : World lib) (b : Buffer) (key : List ℕ)
      → recv_packet lib (with_crypto w (use_algorithm lib Algorithm.aes w.crypto_module))
        ≡ (ok (record { type = Header.test_key; buffer = b }), w1)
      → send_packet lib (Packet.new Header.open_prot) w1 ≡ (ok tt, w2)
      → get_outer_rsa_key lib w2.crypto_module ≡ ok key
      → test_key lib w ≡ (
        ok tt,
        registered lib
            (record w2 { stage = Stage.stable_communication })
            (register_client key w2.blocking_queue w2.manager),
      )
  unfolding test_key accept_test_key using on_crypto updated set_stage is_header to_uint8
      self_register outer_key register use_algorithm
  test_key_accepts w w1 w2 b key came sent got = rw (came, sent, got)
