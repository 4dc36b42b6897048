-- ===== src/Crypto/Keys.antt =====
-- The objects of Crypto.cpp as they are built: keys from files and from vectors, the symmetric key,
-- and `CryptoModule()`. The files and the random bytes are given.
use tin_locus.Base.{
  true, ℕ, ◌≡◌, refl, List, [], ◌∷◌, Option, none, some, Result, ok, throws, ◌>>=◌, false,
}
use tin_locus.Crypto.{
  set_outer_rsa_key, CryptoPp, RsaSimpleCrypto, CryptoModule, Algorithm, new_rsa,
  set_encryption_key, set_decryption_key, encrypt, decrypt, init_cryptors, use_algorithm,
}
use tin_locus.Crypto.Rsa.{IsSender, IsReceiver}
use tin_locus.Crypto.RoundTrip.{decrypt-encrypt}

-- `AES::DEFAULT_KEYLENGTH`
abbrev pub default_keylength : ℕ
default_keylength = 16

-- `DEFAULT_PUBLIC_KEY_FILENAME` and `DEFAULT_PRIVATE_KEY_FILENAME`, by their bytes.
abbrev pub default_public_key_filename : List ℕ
default_public_key_filename =
    b'r' ∷ b's' ∷ b'a' ∷ b'-' ∷ b'p' ∷ b'u' ∷ b'b' ∷ b'l' ∷ b'i' ∷ b'c' ∷ b'.' ∷ b'k' ∷ b'e' ∷ b'y'
    ∷ []

abbrev pub default_private_key_filename : List ℕ
default_private_key_filename =
    b'r' ∷ b's' ∷ b'a' ∷ b'-' ∷ b'p' ∷ b'r' ∷ b'i' ∷ b'v' ∷ b'a' ∷ b't' ∷ b'e' ∷ b'.' ∷ b'k' ∷ b'e'
    ∷ b'y' ∷ []

-- `loadKeyFromFile(keyFilename)`, where `none` is a file that does not open.
pub load_key_from_file : (List ℕ → Option (List ℕ)) → List ℕ → Result (List ℕ)
load_key_from_file files name = elim (files name) [ none ↦ throws | some key ↦ ok key ]

load_key-eq :
    (files files' : List ℕ → Option (List ℕ)) (name : List ℕ)
    → files name ≡ files' name
    → load_key_from_file files name ≡ load_key_from_file files' name
unfolding load_key_from_file
load_key-eq files files' name e = rw (load_key_from_file, e)

module _ (lib : CryptoPp) where
  -- `setKeys(encryptKey, decryptKey)`
  pub set_keys : List ℕ → List ℕ → RsaSimpleCrypto lib → Result (RsaSimpleCrypto lib)
  unfolding set_encryption_key set_decryption_key
  set_keys encrypt_key decrypt_key c = do
    d ← set_encryption_key lib encrypt_key c
    set_decryption_key lib decrypt_key d

  -- `RSASimpleCrypto(encryptKey, decryptKey)`
  pub new_rsa_keys : List ℕ → List ℕ → lib.RandomPool → Result (RsaSimpleCrypto lib)
  unfolding set_keys new_rsa
  new_rsa_keys encrypt_key decrypt_key pool = set_keys encrypt_key decrypt_key (new_rsa lib pool)

  -- `getDecryptionKey()`
  pub get_decryption_key : RsaSimpleCrypto lib → Result (List ℕ)
  get_decryption_key c = elim c.private_key [ none ↦ throws | some k ↦ ok (lib.save_private k) ]

  -- `RSAServerCrypto(publicKeyFilename, privateKeyFilename)`
  pub new_rsa_server :
      (List ℕ → Option (List ℕ)) → List ℕ → List ℕ → lib.RandomPool → Result (RsaSimpleCrypto lib)
  unfolding load_key_from_file new_rsa_keys
  new_rsa_server files public_name private_name pool = do
    public_bytes ← load_key_from_file files public_name
    private_bytes ← load_key_from_file files private_name
    new_rsa_keys public_bytes private_bytes pool

  -- The constructor reads nothing but its two files.
  pub new_rsa_server-eq :
      (files files' : List ℕ → Option (List ℕ)) (public_name private_name : List ℕ)
      (pool : lib.RandomPool)
      → files public_name ≡ files' public_name
      → files private_name ≡ files' private_name
      → new_rsa_server files public_name private_name pool
        ≡ new_rsa_server files' public_name private_name pool
  unfolding new_rsa_server
  new_rsa_server-eq files files' public_name private_name pool e f =
      rw (load_key-eq files files' public_name e, load_key-eq files files' private_name f)

  -- `CryptoModule()`, with the random pools of its two RSA objects and the bytes that
  -- `GenerateBlock` gives for the symmetric key.
  pub new_module :
      (List ℕ → Option (List ℕ))
      → lib.RandomPool
      → lib.RandomPool
      → List ℕ
      → Result (CryptoModule lib)
  unfolding new_rsa_server new_rsa
  new_module files pool pool' random = do
    server ← new_rsa_server files default_public_key_filename default_private_key_filename pool
    ok (record {
      rsa_server_crypto = server;
      rsa_simple_crypto = new_rsa lib pool';
      symmetric_key = random;
      outer_rsa_key = false;
      algorithm = Algorithm.plain;
    })

  -- The object with the key of the other side, after `setOuterRSAKey`.
  abbrev pub with_key : lib.PublicKey → RsaSimpleCrypto lib → RsaSimpleCrypto lib
  with_key k c = record c {
    public_key = some k;
    max_plain_text_length = lib.max_plaintext k;
    fixed_cipher_text_length = elim c.private_key [
      | none ↦ c.fixed_cipher_text_length
      | some s ↦ lib.fixed_ciphertext s
    ];
  }

  pub set_outer_rsa_key_ok :
      (key : List ℕ) (k : lib.PublicKey) (m : CryptoModule lib)
      → lib.load_public key ≡ some k
      → set_outer_rsa_key lib key m
        ≡ ok (record m { rsa_simple_crypto = with_key k m.rsa_simple_crypto; outer_rsa_key = true })
  unfolding set_outer_rsa_key set_encryption_key init_cryptors
  set_outer_rsa_key_ok key k m loads = rw (set_encryption_key, loads)

  module _ (k : lib.PublicKey) (s : lib.PrivateKey) (fits : lib.Fits k s)
      (files : List ℕ → Option (List ℕ)) (public_bytes private_bytes : List ℕ)
      (has_public : files default_public_key_filename ≡ some public_bytes)
      (has_private : files default_private_key_filename ≡ some private_bytes)
      (loads_public : lib.load_public public_bytes ≡ some k)
      (loads_private : lib.load_private private_bytes ≡ some s) where
    abbrev pub server_keys : lib.RandomPool → RsaSimpleCrypto lib
    server_keys pool = record {
      public_key = some k;
      private_key = some s;
      max_plain_text_length = lib.max_plaintext k;
      fixed_cipher_text_length = lib.fixed_ciphertext s;
      random_generator = pool;
    }

    -- The module that the constructor builds.
    abbrev pub built : lib.RandomPool → lib.RandomPool → List ℕ → CryptoModule lib
    built pool pool' random = record {
      rsa_server_crypto = server_keys pool;
      rsa_simple_crypto = record {
        public_key = none;
        private_key = none;
        max_plain_text_length = 0;
        fixed_cipher_text_length = 0;
        random_generator = pool';
      };
      symmetric_key = random;
      outer_rsa_key = false;
      algorithm = Algorithm.plain;
    }

    load_key :
        (name bytes : List ℕ) → files name ≡ some bytes → load_key_from_file files name ≡ ok bytes
    unfolding load_key_from_file
    load_key name bytes e = rw (load_key_from_file, e)

    pub new_rsa_server-built :
        (pool : lib.RandomPool)
        → new_rsa_server files default_public_key_filename default_private_key_filename pool
          ≡ ok (server_keys pool)
    unfolding new_rsa_server init_cryptors
    new_rsa_server-built pool = rw (
      load_key _ _ has_public,
      load_key _ _ has_private,
      set_encryption_key,
      loads_public,
      set_decryption_key,
      loads_private,
    )

    new_module-built :
        (pool pool' : lib.RandomPool) (random : List ℕ)
        → new_module files pool pool' random ≡ ok (built pool pool' random)
    unfolding new_module
    new_module-built pool pool' random = rw (new_rsa_server-built pool)

    pub server_keys-IsSender : (pool : lib.RandomPool) → IsSender lib k s fits (server_keys pool)
    server_keys-IsSender pool = record { public_key = refl; max_plain_text_length = refl }

    pub server_keys-IsReceiver :
        (pool : lib.RandomPool) → IsReceiver lib k s fits (server_keys pool)
    server_keys-IsReceiver pool = record { private_key = refl; fixed_cipher_text_length = refl }

    -- Where the two key files hold a pair of keys that fit, the constructor succeeds, and with
    -- ServerRSA each module that is built so decrypts what another one encrypted.
    pub new_module_lem :
        (text random random' : List ℕ) (p q p' q' : lib.RandomPool)
        → (m : CryptoModule lib) × (n : CryptoModule lib) × (new_module files p q random ≡ ok m)
          × (new_module files p' q' random' ≡ ok n)
          × ((cipher : List ℕ) × (m' : CryptoModule lib) × (encrypt lib text
                  (use_algorithm lib Algorithm.server_rsa m)
                ≡ ok (cipher, m'))
              × (decrypt lib cipher (use_algorithm lib Algorithm.server_rsa n) ≡ ok text))
    unfolding use_algorithm
    new_module_lem text random random' p q p' q' = (
      built p q random,
      built p' q' random',
      new_module-built p q random,
      new_module-built p' q' random',
      decrypt-encrypt lib k s fits Algorithm.server_rsa text
          (use_algorithm lib Algorithm.server_rsa (built p q random))
          (use_algorithm lib Algorithm.server_rsa (built p' q' random')) refl refl
          (server_keys-IsSender p, server_keys-IsReceiver p'),
    )
