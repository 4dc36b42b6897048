-- ===== src/Protocol/Complete/Tests.antt =====
-- The handshake of ProtocolClient.cpp on a client that starts with empty buffers.
use tin_locus.Base.{ℕ, List, ◌≡◌, refl, [], ◌∷◌, ◌++◌, ok, arith}
use tin_locus.Crypto.{Algorithm, slice, rsa_decrypt, decrypt_rsa, decrypt_loop}
use tin_locus.Crypto.Tests.{toy, pair, module_using}
use tin_locus.Packet.PacketType.{Header, to_uint8}
use tin_locus.Database.Manager.{register_client}
use tin_locus.Protocol.{World, Stage}
use tin_locus.Protocol.Exchange.{frame_of}
use tin_locus.Protocol.Rounds.{taken, exchange}
use tin_locus.Protocol.Complete.{handshake}
use tin_locus.Protocol.Tests.{machine, client, testing, emptied}
use tin_locus.Protocol.Agreement.Tests.{
  key_sent, key_came, test_sent, open_sent, client_clear, key_encrypted,
}

abbrev starting : World toy
starting = record testing {
  client_buffer = record client { buffer_in = emptied };
  crypto_module = module_using Algorithm.plain;
  stage = Stage.set_public_key;
}

abbrev test_came : List ℕ
test_came = 7 ∷ 11 ∷ 6 ∷ []

key_reads : decrypt_rsa toy key_came pair ≡ ok (to_uint8 Header.public_key ∷ 5 ∷ [])
unfolding decrypt_rsa decrypt_loop rsa_decrypt slice to_uint8
key_reads = refl

key_returns : decrypt_rsa toy key_sent pair ≡ ok (to_uint8 Header.symmetric_key ∷ 3 ∷ 4 ∷ [])
unfolding decrypt_rsa decrypt_loop rsa_decrypt slice to_uint8
key_returns = refl

test_reads :
    toy.aes_decrypt starting.crypto_module.symmetric_key test_came
    ≡ ok (to_uint8 Header.test_key ∷ 6 ∷ [])
unfolding to_uint8
test_reads = refl

handshake_example :
    (w1 : World toy) × (w2 : World toy) × (w3 : World toy) × (exchange toy machine key_came
        (taken key_sent)
        starting
      ≡ ok w1)
    × (exchange toy machine key_sent (taken test_sent) w1 ≡ ok w2)
    × (exchange toy machine test_came (taken open_sent) w2 ≡ ok w3)
    × (w3.stage ≡ Stage.stable_communication)
    × (w3.wire
        ≡ ((starting.wire ++ frame_of toy key_sent) ++ frame_of toy test_sent)
          ++ frame_of toy open_sent)
    × (decrypt_rsa toy key_sent pair
        ≡ ok (to_uint8 Header.symmetric_key ∷ starting.crypto_module.symmetric_key))
    × ((w3.id, w3.manager) ≡ register_client (1 ∷ []) starting.blocking_queue starting.manager)
    × (w3.erase_clients ≡ starting.erase_clients ++ starting.client_buffer.file_descriptor ∷ [])
handshake_example =
    handshake toy machine tt tt tt starting (5 ∷ []) (6 ∷ []) key_came key_sent test_came key_sent
      test_sent open_sent pair pair refl
      (record {
        open_now = refl;
        stage = refl;
        valid = record { counted = refl; bounded = omega arith };
        nothing = refl;
      })
      (client_clear emptied) (record { some_byte = omega arith; short = omega arith })
      (record { some_byte = omega arith; short = omega arith })
      (record { some_byte = omega arith; short = omega arith })
      (omega arith, omega arith, omega arith) (omega arith, omega arith, omega arith) key_reads refl
      (record { private_key = refl; fixed_cipher_text_length = refl }) key_encrypted key_returns
      refl test_reads refl refl
