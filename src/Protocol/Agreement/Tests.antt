-- ===== src/Protocol/Agreement/Tests.antt =====
-- The handshake of ProtocolClient.cpp on frames of a client that keeps to it, and of one that does not.
use tin_locus.Protocol.Tests.{machine, client, testing}
use tin_locus.Protocol.Exchange.{HasPacket}
use tin_locus.Protocol.Agreement.{receive_other_key}
use tin_locus.Crypto.Tests.{pair}
use tin_locus.Crypto.{
  slice, rsa_encrypt, rsa_decrypt, encrypt_rsa, decrypt_rsa, encrypt_loop, decrypt_loop,
}
use tin_locus.Crypto.Keys.{with_key}
use tin_locus.Protocol.Delivery.{IsClear}
use tin_locus.ClientBuffer.Send.Loop.{all_taken}
use tin_locus.ClientBuffer.Send.Frame.{framed}
use tin_locus.Base.{ℕ, length, List, ◌≡◌, ◌≢◌, refl, [], ◌∷◌, ◌++◌, ok, arith}
use tin_locus.Buffer
use tin_locus.Buffer.{Buffer}
use tin_locus.Packet.PacketType.{Header, to_uint8}
use tin_locus.Crypto.{Algorithm, decrypt, decrypt_by, use_algorithm}
use tin_locus.Crypto.Tests.{toy, module_using}
use tin_locus.Protocol.{World, Stage}
use tin_locus.Protocol.Session.{receive_data}

-- Clients whose frame is an RSA cipher of two or three blocks.
abbrev holding : List ℕ → Buffer
holding bytes = record {
  buffer = bytes ∷ [];
  buffer_max_size = length bytes;
  buffer_size = length bytes;
  stage = Buffer.Stage.full;
}

abbrev pub key_sent : List ℕ
key_sent = 1 ∷ 10 ∷ 1 ∷ 3 ∷ 1 ∷ 4 ∷ []

abbrev pub key_came : List ℕ
key_came = 1 ∷ 9 ∷ 1 ∷ 5 ∷ []

abbrev offering : World toy
offering = record testing {
  client_buffer = record client { buffer_in = holding key_came };
  crypto_module = module_using Algorithm.plain;
  stage = Stage.set_public_key;
  kernel = all_taken (framed key_sent client.buffer_out) [];
}

offering-HasPacket : HasPacket toy offering Algorithm.server_rsa Header.public_key (5 ∷ [])
unfolding decrypt decrypt_by decrypt_rsa decrypt_loop rsa_decrypt slice use_algorithm to_uint8
offering-HasPacket = record {
  valid = record { counted = refl; bounded = omega arith };
  decrypted = refl;
  small = omega arith;
}

pub key_encrypted :
    encrypt_rsa toy (to_uint8 Header.symmetric_key ∷ 3 ∷ 4 ∷ []) (with_key toy tt pair)
    ≡ ok (key_sent, pair)
unfolding encrypt_rsa encrypt_loop rsa_encrypt slice to_uint8
key_encrypted = refl

pub client_clear : (b : Buffer) → IsClear (record client { buffer_in = b })
client_clear b = record {
  open_now = refl;
  valid = record { counted = refl; bounded = omega arith };
  clear = refl;
}

-- The key comes back.
abbrev pub test_sent : List ℕ
test_sent = 7 ∷ to_uint8 Header.test_key ∷ 3 ∷ 4 ∷ []

abbrev returning : World toy
returning = record offering {
  client_buffer = record client { buffer_in = holding key_sent };
  stage = Stage.set_symmetric_key;
  kernel = all_taken (framed test_sent client.buffer_out) [];
}

returning-HasPacket : HasPacket toy returning Algorithm.server_rsa Header.symmetric_key (3 ∷ 4 ∷ [])
unfolding decrypt decrypt_by decrypt_rsa decrypt_loop rsa_decrypt slice use_algorithm to_uint8
returning-HasPacket = record {
  valid = record { counted = refl; bounded = omega arith };
  decrypted = refl;
  small = omega arith;
}

-- Another key comes back than the one that was sent.
abbrev cheated : World toy
cheated = record returning {
  crypto_module = record (module_using Algorithm.plain) { symmetric_key = 3 ∷ 8 ∷ [] };
}

cheated-HasPacket : HasPacket toy cheated Algorithm.server_rsa Header.symmetric_key (3 ∷ 4 ∷ [])
unfolding decrypt decrypt_by decrypt_rsa decrypt_loop rsa_decrypt slice use_algorithm to_uint8
cheated-HasPacket = record {
  valid = record { counted = refl; bounded = omega arith };
  decrypted = refl;
  small = omega arith;
}

abbrev wrong_key : List ℕ
wrong_key = 3 ∷ 4 ∷ []

keys_differ : wrong_key ≢ cheated.crypto_module.symmetric_key
keys_differ e = ground arith

receive_other_key_example :
    (w : World toy) × (receive_data toy machine cheated ≡ (ok tt, w))
    × (w.erase_clients ≡ cheated.erase_clients ++ cheated.client_buffer.file_descriptor ∷ [])
    × (w.stage ≡ Stage.set_symmetric_key)
    × (w.wire ≡ cheated.wire)
receive_other_key_example =
    receive_other_key toy machine cheated wrong_key refl cheated-HasPacket keys_differ

abbrev pub open_sent : List ℕ
open_sent = 7 ∷ to_uint8 Header.open_prot ∷ []

abbrev opening : World toy
opening = record testing { kernel = all_taken (framed open_sent client.buffer_out) [] }

opening-HasPacket : HasPacket toy opening Algorithm.aes Header.test_key (3 ∷ 4 ∷ [])
unfolding decrypt decrypt_by use_algorithm to_uint8
opening-HasPacket = record {
  valid = record { counted = refl; bounded = omega arith };
  decrypted = refl;
  small = omega arith;
}
