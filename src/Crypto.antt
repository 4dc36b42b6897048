-- ===== src/Crypto.antt =====
-- server/src/crypto/CryptoModule.h and CryptoModule.cpp, with the classes of Crypto.h and Crypto.cpp
-- as far as they guard the calls of Crypto++. That library is a parameter: its keys, its random
-- pool, and what it makes of one block.
pub mod Rsa
pub mod RoundTrip
pub mod Returns
pub mod Index
pub mod Keys
pub mod Aes
pub mod Tools
pub mod Tests
use tin_locus.Base.{
  ℕ, zero, suc, ◌+◌, ◌-◌, ◌≤◌, ◌<◌, ◌≡◌, Bool, true, List, [], ◌++◌, Option, none, some, Result, ok,
  throws, undefined, ◌>>=◌, ltb, ◌==◌, not, if◌then◌else◌, length, take, drop,
}
use Prim.Native.Nat.{min}

-- What the program uses of Crypto++. `none` is a key that does not load or is not valid; `Fits` is
-- a pair of keys that were generated together.
pub record CryptoPp : Type 1 where
  pub PublicKey : Type 0
  pub PrivateKey : Type 0
  pub RandomPool : Type 0
  pub load_public : List ℕ → Option PublicKey
  pub load_private : List ℕ → Option PrivateKey
  pub save_public : PublicKey → List ℕ
  pub save_private : PrivateKey → List ℕ
  pub max_plaintext : PublicKey → ℕ
  pub fixed_ciphertext : PrivateKey → ℕ
  pub rsa_encrypt : PublicKey → List ℕ → RandomPool → List ℕ × RandomPool
  pub rsa_decrypt : PrivateKey → List ℕ → Result (List ℕ)
  pub aes_encrypt : List ℕ → List ℕ → Result (List ℕ)
  pub aes_decrypt : List ℕ → List ℕ → Result (List ℕ)
  pub Fits : PublicKey → PrivateKey → Type 0
  pub some_plaintext : (k : PublicKey) (s : PrivateKey) → Fits k s → 0 < max_plaintext k
  pub some_ciphertext : (k : PublicKey) (s : PrivateKey) → Fits k s → 0 < fixed_ciphertext s
  pub length-rsa_encrypt :
      (k : PublicKey) (s : PrivateKey) (text : List ℕ) (r : RandomPool)
      → Fits k s
      → length text ≤ max_plaintext k
      → length (rsa_encrypt k text r).0 ≡ fixed_ciphertext s
  pub rsa_decrypt-rsa_encrypt :
      (k : PublicKey) (s : PrivateKey) (text : List ℕ) (r : RandomPool)
      → Fits k s
      → length text ≤ max_plaintext k
      → rsa_decrypt s (rsa_encrypt k text r).0 ≡ ok text
  pub aes_decrypt-aes_encrypt :
      (key text cipher : List ℕ)
      → aes_encrypt key text ≡ ok cipher
      → aes_decrypt key cipher ≡ ok text

-- `CryptoModule::Algorithm`
pub data Algorithm : Type 0 where
  plain server_rsa outer_rsa aes : Algorithm

-- `std::min(size, i + n)` and the part of a vector between two iterators.
unfoldable pub slice : ℕ → ℕ → List ℕ → List ℕ
slice i n text = take (min (length text) (i + n) - i) (drop i text)

module _ (lib : CryptoPp) where
  -- `RSASimpleCrypto`; the two flags of its keys are `none` and `some`.
  pub record RsaSimpleCrypto : Type 0 where
    pub public_key : Option lib.PublicKey
    pub private_key : Option lib.PrivateKey
    pub max_plain_text_length : ℕ
    pub fixed_cipher_text_length : ℕ
    pub random_generator : lib.RandomPool

  -- `initCryptors()`
  pub init_cryptors : RsaSimpleCrypto → RsaSimpleCrypto
  init_cryptors c = record c {
    max_plain_text_length = elim c.public_key [
      | none ↦ c.max_plain_text_length
      | some k ↦ lib.max_plaintext k
    ];
    fixed_cipher_text_length = elim c.private_key [
      | none ↦ c.fixed_cipher_text_length
      | some k ↦ lib.fixed_ciphertext k
    ];
  }

  -- `RSASimpleCrypto()`
  pub new_rsa : lib.RandomPool → RsaSimpleCrypto
  new_rsa r = record {
    public_key = none;
    private_key = none;
    max_plain_text_length = 0;
    fixed_cipher_text_length = 0;
    random_generator = r;
  }

  -- `setEncryptionKey(encryptKey)`. The source loads into `publicKey_` before it validates, so after an
  -- exception for a key that loads and is not valid the object there holds that key; here it is kept.
  pub set_encryption_key : List ℕ → RsaSimpleCrypto → Result RsaSimpleCrypto
  unfolding init_cryptors
  set_encryption_key key c = elim (lib.load_public key) [
    | none ↦ throws
    | some k ↦ ok (init_cryptors (record c { public_key = some k }))
  ]

  pub set_decryption_key : List ℕ → RsaSimpleCrypto → Result RsaSimpleCrypto
  unfolding init_cryptors
  set_decryption_key key c = elim (lib.load_private key) [
    | none ↦ throws
    | some k ↦ ok (init_cryptors (record c { private_key = some k }))
  ]

  unfoldable pub get_encryption_key : RsaSimpleCrypto → Result (List ℕ)
  get_encryption_key c = elim c.public_key [ none ↦ throws | some k ↦ ok (lib.save_public k) ]

  abbrev encrypted : RsaSimpleCrypto → List ℕ × lib.RandomPool → List ℕ × RsaSimpleCrypto
  encrypted c (bytes, r) = (bytes, record c { random_generator = r })

  -- `RSASimpleCrypto::encrypt(text)`
  unfoldable pub rsa_encrypt : List ℕ → RsaSimpleCrypto → Result (List ℕ × RsaSimpleCrypto)
  rsa_encrypt text c = elim c.public_key [
    | none ↦ throws
    | some k ↦
        if ltb c.max_plain_text_length (length text)
        then throws
        else ok (encrypted c (lib.rsa_encrypt k text c.random_generator))
  ]

  -- `RSASimpleCrypto::decrypt(cipher)`
  unfoldable pub rsa_decrypt : List ℕ → RsaSimpleCrypto → Result (List ℕ)
  rsa_decrypt cipher c = elim c.private_key [
    | none ↦ throws
    | some k ↦
        if not (length cipher == c.fixed_cipher_text_length)
        then throws
        else lib.rsa_decrypt k cipher
  ]

  -- The loop of `encryptRSA` from the index `i`, with the rounds that it may take. Out of rounds it
  -- does not return, and no more does the source where the length of a block is 0.
  unfoldable pub encrypt_loop : ℕ → ℕ → List ℕ → RsaSimpleCrypto → Result (List ℕ × RsaSimpleCrypto)
  unfolding rsa_encrypt slice
  encrypt_loop zero i text c = if ltb i (length text) then undefined else ok ([], c)
  encrypt_loop (suc rounds) i text c =
      if ltb i (length text)
      then (rsa_encrypt (slice i c.max_plain_text_length text) c >>= λ (new_bytes, d).
          (encrypt_loop rounds (i + c.max_plain_text_length) text d >>= λ (bytes, e).
          ok (new_bytes ++ bytes, e)))
      else ok ([], c)

  -- `encryptRSA(rsaCrypto, text)`
  unfoldable pub encrypt_rsa : List ℕ → RsaSimpleCrypto → Result (List ℕ × RsaSimpleCrypto)
  unfolding encrypt_loop
  encrypt_rsa text c = encrypt_loop (length text) 0 text c

  -- The loop of `decryptRSA`, in the same way.
  unfoldable pub decrypt_loop : ℕ → ℕ → List ℕ → RsaSimpleCrypto → Result (List ℕ)
  unfolding rsa_decrypt slice
  decrypt_loop zero i cipher c = if ltb i (length cipher) then undefined else ok []
  decrypt_loop (suc rounds) i cipher c =
      if ltb i (length cipher)
      then (rsa_decrypt (slice i c.fixed_cipher_text_length cipher) c >>= λ new_bytes.
          (decrypt_loop rounds (i + c.fixed_cipher_text_length) cipher c >>= λ bytes.
          ok (new_bytes ++ bytes)))
      else ok []

  -- `decryptRSA(rsaCrypto, cipher)`
  unfoldable pub decrypt_rsa : List ℕ → RsaSimpleCrypto → Result (List ℕ)
  unfolding decrypt_loop
  decrypt_rsa cipher c = decrypt_loop (length cipher) 0 cipher c

  pub record CryptoModule : Type 0 where
    pub rsa_server_crypto : RsaSimpleCrypto
    pub rsa_simple_crypto : RsaSimpleCrypto
    pub symmetric_key : List ℕ
    pub outer_rsa_key : Bool
    pub algorithm : Algorithm

  -- `setOuterRSAKey(key)`
  pub set_outer_rsa_key : List ℕ → CryptoModule → Result CryptoModule
  unfolding set_encryption_key
  set_outer_rsa_key key m = do
    c ← set_encryption_key key m.rsa_simple_crypto
    ok (record m { rsa_simple_crypto = c; outer_rsa_key = true })

  -- `getOuterRSAKey()`
  unfoldable pub get_outer_rsa_key : CryptoModule → Result (List ℕ)
  unfolding get_encryption_key
  get_outer_rsa_key m = get_encryption_key m.rsa_simple_crypto

  -- `use(algo)`
  unfoldable pub use_algorithm : Algorithm → CryptoModule → CryptoModule
  use_algorithm a m = record m { algorithm = a }

  -- `encrypt(text)`; the random pool of the RSA object moves on.
  unfoldable pub encrypt_by : Algorithm → List ℕ → CryptoModule → Result (List ℕ × CryptoModule)
  unfolding encrypt_rsa
  encrypt_by Algorithm.plain text m = ok (text, m)
  encrypt_by Algorithm.server_rsa text m = do
    (cipher, c) ← encrypt_rsa text m.rsa_server_crypto
    ok (cipher, record m { rsa_server_crypto = c })
  encrypt_by Algorithm.outer_rsa text m = do
    (cipher, c) ← encrypt_rsa text m.rsa_simple_crypto
    ok (cipher, record m { rsa_simple_crypto = c })
  encrypt_by Algorithm.aes text m = do cipher ← lib.aes_encrypt m.symmetric_key text; ok (cipher, m)

  unfoldable pub encrypt : List ℕ → CryptoModule → Result (List ℕ × CryptoModule)
  unfolding encrypt_by
  encrypt text m = encrypt_by m.algorithm text m

  -- `decrypt(cipher)`
  unfoldable pub decrypt_by : Algorithm → List ℕ → CryptoModule → Result (List ℕ)
  unfolding decrypt_rsa
  decrypt_by Algorithm.plain cipher m = ok cipher
  decrypt_by Algorithm.server_rsa cipher m = decrypt_rsa cipher m.rsa_server_crypto
  decrypt_by Algorithm.outer_rsa cipher m = decrypt_rsa cipher m.rsa_simple_crypto
  decrypt_by Algorithm.aes cipher m = lib.aes_decrypt m.symmetric_key cipher

  unfoldable pub decrypt : List ℕ → CryptoModule → Result (List ℕ)
  unfolding decrypt_by
  decrypt cipher m = decrypt_by m.algorithm cipher m
