-- ===== src/Crypto/Tools/Tried.antt =====
-- What testProgram.cpp prints.
use tin_locus.Base.{
  ℕ, ◌≤◌, ◌≡◌, refl, List, ◌++◌, Option, some, arith, ok, ltb, ◌==◌, length, true, false,
}
use tin_locus.Crypto.{CryptoPp, RsaSimpleCrypto, rsa_encrypt, rsa_decrypt}
use tin_locus.Crypto.Keys.{
  default_public_key_filename, default_private_key_filename, new_rsa_server-built,
}
use tin_locus.Crypto.Aes.{new_aes, encrypt, decrypt}
use tin_locus.Crypto.Tools.{tried, short_text, long_text, try_aes, test_program}

module _ (lib : CryptoPp) where
  try_aes-eq :
      (res cipher random : List ℕ)
      → lib.aes_encrypt random res ≡ ok cipher
      → try_aes lib res (new_aes random) ≡ ok (tried res cipher res)
  unfolding try_aes new_aes encrypt decrypt
  try_aes-eq res cipher random h = rw (h, lib.aes_decrypt-aes_encrypt random res cipher h)

  module _ (k : lib.PublicKey) (s : lib.PrivateKey) (fits : lib.Fits k s)
      (files : List ℕ → Option (List ℕ)) (public_bytes private_bytes : List ℕ)
      (has_public : files default_public_key_filename ≡ some public_bytes)
      (has_private : files default_private_key_filename ≡ some private_bytes)
      (loads_public : lib.load_public public_bytes ≡ some k)
      (loads_private : lib.load_private private_bytes ≡ some s) where
    abbrev rsa : lib.RandomPool → RsaSimpleCrypto lib
    rsa r = record {
      public_key = some k;
      private_key = some s;
      max_plain_text_length = lib.max_plaintext k;
      fixed_cipher_text_length = lib.fixed_ciphertext s;
      random_generator = r;
    }

    one_block :
        (text : List ℕ) (r : lib.RandomPool)
        → length text ≤ lib.max_plaintext k
        → rsa_encrypt lib text (rsa r)
          ≡ ok ((lib.rsa_encrypt k text r).0, rsa (lib.rsa_encrypt k text r).1)
    unfolding rsa_encrypt
    one_block text r fit =
        let small : ltb (lib.max_plaintext k) (length text) ≡ false = ground (arith, fit) in
        rw small refl

    back :
        (text : List ℕ) (r r2 : lib.RandomPool)
        → length text ≤ lib.max_plaintext k
        → rsa_decrypt lib (lib.rsa_encrypt k text r).0 (rsa r2) ≡ ok text
    unfolding rsa_decrypt
    back text r r2 fit =
        let size = lib.length-rsa_encrypt k s text r fits fit in
        let same : (length (lib.rsa_encrypt k text r).0 == lib.fixed_ciphertext s) ≡ true =
          ground (arith, size) in
        rw (same, lib.rsa_decrypt-rsa_encrypt k s text r fits fit) refl

    -- Where the two key files hold a pair that fits and its blocks take the short text, and AES takes
    -- both texts, testProgram runs to its end and prints each text again after it was decrypted.
    pub test_program_lem :
        (r : lib.RandomPool) (random short_cipher long_cipher : List ℕ)
        → length short_text ≤ lib.max_plaintext k
        → lib.aes_encrypt random short_text ≡ ok short_cipher
        → lib.aes_encrypt random long_text ≡ ok long_cipher
        → test_program lib files r random
          ≡ ok (
              tried short_text (lib.rsa_encrypt k short_text r).0 short_text
              ++ tried short_text short_cipher short_text
              ++ tried long_text long_cipher long_text)
    unfolding test_program
    test_program_lem r random short_cipher long_cipher fit h h2 = rw (
      new_rsa_server-built lib k s fits files public_bytes private_bytes has_public has_private
          loads_public loads_private r,
      one_block short_text r fit,
      back short_text r (lib.rsa_encrypt k short_text r).1 fit,
      try_aes-eq short_text short_cipher random h,
      try_aes-eq long_text long_cipher random h2,
    )
