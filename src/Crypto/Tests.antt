-- ===== src/Crypto/Tests.antt =====
-- CryptoModule.cpp over a cipher that takes one byte at a time.
use tin_locus.Crypto.Returns.{Returns}
use tin_locus.Crypto.Index.{encrypt_rsa_int, encrypt_rsa_int-Returns}
use tin_locus.Base.{
  ℕ, zero, suc, ◌≡◌, ◌≤◌, refl, true, Option, List, [], ◌∷◌, Result, ok, throws, some, arith,
  length,
}
use tin_locus.Crypto.{
  CryptoPp, RsaSimpleCrypto, CryptoModule, Algorithm, encrypt, decrypt, encrypt_rsa,
}
use tin_locus.Crypto.Rsa.{IsSender, IsReceiver}
use tin_locus.Crypto.RoundTrip.{decrypt-encrypt}

-- A block is a mark and the byte, or no byte.
abbrev block_of : List ℕ → List ℕ
block_of [] = 0 ∷ 0 ∷ []
block_of (x ∷ xs) = 1 ∷ x ∷ []

abbrev byte_of : List ℕ → Result (List ℕ)
byte_of (suc n ∷ x ∷ xs) = ok (x ∷ [])
byte_of (zero ∷ xs) = ok []
byte_of _ = throws

pub length-block_of : (text : List ℕ) → length (block_of text) ≡ 2
length-block_of [] = refl
length-block_of (x ∷ xs) = refl

pub byte_of-block_of : (text : List ℕ) → length text ≤ 1 → byte_of (block_of text) ≡ ok text
byte_of-block_of [] h = refl
byte_of-block_of (x ∷ []) h = refl
byte_of-block_of (x ∷ y ∷ ys) h = absurd (omega arith)

-- The symmetric cipher marks the text.
abbrev pub unmark : List ℕ → Result (List ℕ)
unmark [] = throws
unmark (x ∷ xs) = ok xs

pub unmark_lem : (text cipher : List ℕ) → ok (7 ∷ text) ≡ ok cipher → unmark cipher ≡ ok text
unmark_lem text [] h = cc
unmark_lem text (x ∷ xs) h = cc

abbrev pub toy : CryptoPp
toy = record {
  PublicKey = Unit {0};
  PrivateKey = Unit {0};
  RandomPool = Unit {0};
  load_public = λ key. some tt;
  load_private = λ key. some tt;
  save_public = λ k. 1 ∷ [];
  save_private = λ s. 2 ∷ [];
  max_plaintext = λ k. 1;
  fixed_ciphertext = λ s. 2;
  rsa_encrypt = λ k text r. (block_of text, r);
  rsa_decrypt = λ s cipher. byte_of cipher;
  aes_encrypt = λ key text. ok (7 ∷ text);
  aes_decrypt = λ key cipher. unmark cipher;
  Fits = λ k s. Unit {0};
  some_plaintext = λ k s f. omega arith;
  some_ciphertext = λ k s f. omega arith;
  length-rsa_encrypt = λ k s text r f h. length-block_of text;
  rsa_decrypt-rsa_encrypt = λ k s text r f h. byte_of-block_of text h;
  aes_decrypt-aes_encrypt = λ key text cipher h. unmark_lem text cipher h;
}

abbrev pub pair : RsaSimpleCrypto toy
pair = record {
  public_key = some tt;
  private_key = some tt;
  max_plain_text_length = 1;
  fixed_cipher_text_length = 2;
  random_generator = tt;
}

pair-IsSender : IsSender toy tt tt tt pair
pair-IsSender = record { public_key = refl; max_plain_text_length = refl }

pair-IsReceiver : IsReceiver toy tt tt tt pair
pair-IsReceiver = record { private_key = refl; fixed_cipher_text_length = refl }

abbrev pub module_using : Algorithm → CryptoModule toy
module_using a = record {
  rsa_server_crypto = pair;
  rsa_simple_crypto = pair;
  symmetric_key = 3 ∷ 4 ∷ [];
  outer_rsa_key = true;
  algorithm = a;
}

abbrev three : List ℕ
three = 1 ∷ 2 ∷ 3 ∷ []

decrypt-encrypt_example :
    (cipher : List ℕ) × (m : CryptoModule toy) × (encrypt toy three
        (module_using Algorithm.outer_rsa)
      ≡ ok (cipher, m))
    × (decrypt toy cipher (module_using Algorithm.outer_rsa) ≡ ok three)
decrypt-encrypt_example =
    decrypt-encrypt toy tt tt tt Algorithm.outer_rsa three (module_using Algorithm.outer_rsa)
      (module_using Algorithm.outer_rsa) refl refl (pair-IsSender, pair-IsReceiver)

encrypt_rsa_int-Returns_example :
    Returns (encrypt_rsa_int toy three pair)
    × (encrypt_rsa_int toy three pair ≡ encrypt_rsa toy three pair)
encrypt_rsa_int-Returns_example =
    encrypt_rsa_int-Returns toy three pair (omega arith) (omega arith) (omega arith)

-- Every file has a key.
abbrev files : List ℕ → Option (List ℕ)
files name = some (1 ∷ [])
