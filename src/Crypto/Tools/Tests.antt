-- ===== src/Crypto/Tools/Tests.antt =====
-- The key tools over a cipher whose blocks have 16 bytes.
use tin_locus.Base.{
  ℕ, zero, suc, ◌-◌, ◌≤◌, ◌≡◌, refl, Bool, true, false, List, [], ◌∷◌, ◌++◌, none, some, arith,
  Result, ok, throws, length, take, take-append, length-append,
}
use tin_locus.Crypto.{CryptoPp}
use tin_locus.Crypto.Tests.{unmark, unmark_lem}
use tin_locus.Crypto.Keys.{
  new_rsa_server, default_public_key_filename, default_private_key_filename,
}
use tin_locus.Crypto.Aes.{AesCrypto}
use tin_locus.Crypto.Tools.{Files, KeyMaker, gen_server_keys}
use tin_locus.Crypto.Tools.Generated.{gen_server_keys-Keeps}

abbrev zeros : ℕ → List ℕ
zeros zero = []
zeros (suc n) = 0 ∷ zeros n

length-zeros : (n : ℕ) → length (zeros n) ≡ n
length-zeros zero = refl
length-zeros (suc n) = omega (arith, length-zeros n)

-- A block is the length of the text, the text and zeros.
abbrev block_of : List ℕ → List ℕ
block_of text = length text ∷ (text ++ zeros (16 - length text))

abbrev text_of : List ℕ → Result (List ℕ)
text_of [] = throws
text_of (n ∷ bytes) = ok (take n bytes)

length-block_of : (text : List ℕ) → length text ≤ 16 → length (block_of text) ≡ 17
length-block_of text h =
    omega (arith, length-append text (zeros (16 - length text)), length-zeros (16 - length text))

text_of-block_of : (text : List ℕ) → text_of (block_of text) ≡ ok text
text_of-block_of text = rw (take-append text (zeros (16 - length text)))

abbrev wide : CryptoPp
wide = record {
  PublicKey = Unit {0};
  PrivateKey = Unit {0};
  RandomPool = Unit {0};
  load_public = λ key. some tt;
  load_private = λ key. some tt;
  save_public = λ k. 1 ∷ [];
  save_private = λ s. 2 ∷ [];
  max_plaintext = λ k. 16;
  fixed_ciphertext = λ s. 17;
  rsa_encrypt = λ k text r. (block_of text, r);
  rsa_decrypt = λ s cipher. text_of cipher;
  aes_encrypt = λ key text. ok (7 ∷ text);
  aes_decrypt = λ key cipher. unmark cipher;
  Fits = λ k s. Unit {0};
  some_plaintext = λ k s f. omega arith;
  some_ciphertext = λ k s f. omega arith;
  length-rsa_encrypt = λ k s text r f h. length-block_of text h;
  rsa_decrypt-rsa_encrypt = λ k s text r f h. text_of-block_of text;
  aes_decrypt-aes_encrypt = λ key text cipher h. unmark_lem text cipher h;
}

abbrev maker : KeyMaker wide
maker = record {
  generate = λ bits r. ok (tt, tt);
  public_of = λ s. tt;
  validate_public = λ k r. (true, tt);
  validate_private = λ s r. (true, tt);
  load_public-save_public = λ k r h. refl;
  load_private-save_private = λ s r h. refl;
  public_of-Fits = λ bits r r' s h. tt;
}

abbrev all_open : List ℕ → Bool
all_open name = true

abbrev no_files : Files
no_files name = none

abbrev message : List ℕ
message = 5 ∷ 6 ∷ []

-- The disk is full.
abbrev none_open : List ℕ → Bool
none_open name = false

abbrev some_files : Files
some_files name = some (1 ∷ [])

gen_server_keys-Keeps_example :
    new_rsa_server wide
      (gen_server_keys wide maker all_open tt some_files).1
      default_public_key_filename
      default_private_key_filename
      tt
    ≡ new_rsa_server wide some_files default_public_key_filename default_private_key_filename tt
gen_server_keys-Keeps_example = gen_server_keys-Keeps wide maker all_open tt tt some_files

abbrev old : AesCrypto
old = record { key = message }
