-- ===== src/Crypto/Tools.antt =====
-- The programs and the function that make key files: server/src/crypto/keysGenerator.cpp and
-- genServerKeys.cpp; and testProgram.cpp, which tries the ciphers. What Crypto++ generates and
-- whether a file opens are parameters.
pub mod Generated
pub mod Tried
pub mod Tests
use tin_locus.Base.{
  ℕ, ◌≡◌, Bool, true, not, List, [], ◌∷◌, ◌++◌, Option, some, Result, ok, throws, undefined, ◌>>=◌,
  bytes_beq, if◌then◌else◌,
}
use tin_locus.Base.Step.{Step, then_on}
use tin_locus.Crypto.{CryptoPp, rsa_encrypt, rsa_decrypt}
use tin_locus.Crypto.Keys.{
  default_public_key_filename, default_private_key_filename, new_rsa_server,
}
use tin_locus.Crypto.Aes.{AesCrypto, new_aes, encrypt, decrypt}

abbrev pub Files : Type 0
Files = List ℕ → Option (List ℕ)

-- `GenerateRandomWithKeySize`, `AssignFrom` and `Validate` with level 3. A key that is valid can be
-- loaded from what it is saved as, and the two keys that come from one generation fit.
pub record KeyMaker (lib : CryptoPp) : Type 0 where
  pub generate : ℕ → lib.RandomPool → Result (lib.PrivateKey × lib.RandomPool)
  pub public_of : lib.PrivateKey → lib.PublicKey
  pub validate_public : lib.PublicKey → lib.RandomPool → Bool × lib.RandomPool
  pub validate_private : lib.PrivateKey → lib.RandomPool → Bool × lib.RandomPool
  pub load_public-save_public :
      (k : lib.PublicKey) (r : lib.RandomPool)
      → (validate_public k r).0 ≡ true
      → lib.load_public (lib.save_public k) ≡ some k
  pub load_private-save_private :
      (s : lib.PrivateKey) (r : lib.RandomPool)
      → (validate_private s r).0 ≡ true
      → lib.load_private (lib.save_private s) ≡ some s
  pub public_of-Fits :
      (bits : ℕ) (r r' : lib.RandomPool) (s : lib.PrivateKey)
      → generate bits r ≡ ok (s, r')
      → lib.Fits (public_of s) s

-- A file that holds the bytes, which replace what it held; the other files stay.
abbrev pub with_file : List ℕ → List ℕ → Files → Files
with_file name bytes files other = if bytes_beq other name then some bytes else files other

-- `FileSink file(name)` and the copy into it; `opens` says which files can be written.
abbrev pub save_file : (List ℕ → Bool) → List ℕ → List ℕ → Step Files (Unit {0})
save_file opens name bytes files =
    if opens name then (ok tt, with_file name bytes files) else (throws, files)

-- `PUBLIC_KEY_FILENAME` and `PRIVATE_KEY_FILENAME` of genServerKeys.cpp
abbrev pub public_key_filename : List ℕ
public_key_filename =
    b'r' ∷ b's' ∷ b'a' ∷ b'1' ∷ b'0' ∷ b'2' ∷ b'4' ∷ b'-' ∷ b'p' ∷ b'u' ∷ b'b' ∷ b'l' ∷ b'i' ∷ b'c'
    ∷ b'.' ∷ b'k' ∷ b'e' ∷ b'y' ∷ []

abbrev pub private_key_filename : List ℕ
private_key_filename =
    b'r' ∷ b's' ∷ b'a' ∷ b'1' ∷ b'0' ∷ b'2' ∷ b'4' ∷ b'-' ∷ b'p' ∷ b'r' ∷ b'i' ∷ b'v' ∷ b'a' ∷ b't'
    ∷ b'e' ∷ b'.' ∷ b'k' ∷ b'e' ∷ b'y' ∷ []

module _ (lib : CryptoPp) (maker : KeyMaker lib) (opens : List ℕ → Bool) where
  -- "save keys to files"
  unfoldable pub save_keys :
      List ℕ → List ℕ → lib.PublicKey → lib.PrivateKey → Step Files (Unit {0})
  save_keys public_name private_name k s files =
      then_on (save_file opens public_name (lib.save_public k) files)
        (λ done. save_file opens private_name (lib.save_private s))

  -- `keysGenerator(length)`, from what `GenerateRandomWithKeySize` gives on.
  unfoldable pub after_generate : Result (lib.PrivateKey × lib.RandomPool) → Step Files (Unit {0})
  unfolding save_keys
  after_generate throws files = (throws, files)
  after_generate undefined files = (undefined, files)
  after_generate (ok (s, r)) files =
      let k = maker.public_of s in
      let (valid, r') = maker.validate_public k r in
      if not valid
      then (throws, files)
      else if not (maker.validate_private s r').0
      then (throws, files)
      else save_keys default_public_key_filename default_private_key_filename k s files

  unfoldable pub keys_generator : ℕ → lib.RandomPool → Step Files (Unit {0})
  unfolding after_generate
  keys_generator bits r = after_generate (maker.generate bits r)

  -- `main()` of genServerKeys.cpp, in the same two parts: what it returns to the system.
  unfoldable pub main_after_generate : Result (lib.PrivateKey × lib.RandomPool) → Step Files ℕ
  unfolding save_keys
  main_after_generate throws files = (throws, files)
  main_after_generate undefined files = (undefined, files)
  main_after_generate (ok (s, r)) files =
      let k = maker.public_of s in
      let (valid, r') = maker.validate_public k r in
      if not valid
      then (ok 1, files)
      else if not (maker.validate_private s r').0
      then (ok 2, files)
      else then_on (save_keys public_key_filename private_key_filename k s files)
          (λ done left. (ok 0, left))

  unfoldable pub gen_server_keys : lib.RandomPool → Step Files ℕ
  unfolding main_after_generate
  gen_server_keys r = main_after_generate (maker.generate 1024 r)

-- "Ala ma kota" and "Ala ma kota i duuuuzego psa"
abbrev pub short_text : List ℕ
short_text = b'A' ∷ b'l' ∷ b'a' ∷ b' ' ∷ b'm' ∷ b'a' ∷ b' ' ∷ b'k' ∷ b'o' ∷ b't' ∷ b'a' ∷ []

abbrev pub long_text : List ℕ
long_text =
    short_text
    ++ b' ' ∷ b'i' ∷ b' ' ∷ b'd' ∷ b'u' ∷ b'u' ∷ b'u' ∷ b'u' ∷ b'z' ∷ b'e' ∷ b'g' ∷ b'o' ∷ b' '
      ∷ b'p' ∷ b's' ∷ b'a' ∷ []

-- What `main()` of testProgram.cpp prints: a text, its length, or a text that was decrypted.
pub data Printed : Type 0 where
  text size recovered : List ℕ → Printed

-- A text before, in between and after.
abbrev pub tried : List ℕ → List ℕ → List ℕ → List Printed
tried before cipher after =
    Printed.text before
    ∷ Printed.size before
    ∷ Printed.text cipher
    ∷ Printed.size cipher
    ∷ Printed.recovered after
    ∷ []

module _ (lib : CryptoPp) where
  -- The part for AES, with one text.
  unfoldable pub try_aes : List ℕ → AesCrypto → Result (List Printed)
  unfolding encrypt decrypt
  try_aes res aes = do
    cipher ← encrypt lib res aes
    after ← decrypt lib cipher aes
    ok (tried res cipher after)

  -- `main()` of testProgram.cpp, with the random pool of its RSA object and the bytes of its key.
  unfoldable pub test_program : Files → lib.RandomPool → List ℕ → Result (List Printed)
  unfolding try_aes new_aes rsa_encrypt rsa_decrypt
  test_program files r random = do
    rsa ← new_rsa_server lib files default_public_key_filename default_private_key_filename r
    (cipher, rsa') ← rsa_encrypt lib short_text rsa
    after ← rsa_decrypt lib cipher rsa'
    short ← try_aes short_text (new_aes random)
    long ← try_aes long_text (new_aes random)
    ok (tried short_text cipher after ++ short ++ long)
