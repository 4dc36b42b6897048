-- ===== src/Crypto/RoundTrip.antt =====
-- `CryptoModule`: whoever decrypts with the same algorithm and keys that fit reads the text.
use tin_locus.Base.{ℕ, ◌≡◌, sym, List, ok}
use tin_locus.Crypto.{CryptoPp, CryptoModule, Algorithm, encrypt, decrypt, encrypt_by, decrypt_by}
use tin_locus.Crypto.Rsa.{IsSender, IsReceiver, decrypt_rsa-encrypt_rsa}

module _ (lib : CryptoPp) (k : lib.PublicKey) (s : lib.PrivateKey) (fits : lib.Fits k s) where
  -- What two modules need for an algorithm: the sender the public key, the receiver the private
  -- key, and for AES the same key, with which the text can be encrypted.
  abbrev pub CanTalk : Algorithm → List ℕ → CryptoModule lib → CryptoModule lib → Type 0
  CanTalk Algorithm.plain text m n = Unit {0}
  CanTalk Algorithm.server_rsa text m n =
      IsSender lib k s fits m.rsa_server_crypto × IsReceiver lib k s fits n.rsa_server_crypto
  CanTalk Algorithm.outer_rsa text m n =
      IsSender lib k s fits m.rsa_simple_crypto × IsReceiver lib k s fits n.rsa_simple_crypto
  CanTalk Algorithm.aes text m n =
      (m.symmetric_key ≡ n.symmetric_key)
      × ((cipher : List ℕ) × (lib.aes_encrypt m.symmetric_key text ≡ ok cipher))

  -- With each of the four algorithms, what a module encrypts is decrypted to the text by a module
  -- that uses the same algorithm and has the fitting key.
  pub decrypt-encrypt :
      (a : Algorithm) (text : List ℕ) (m n : CryptoModule lib)
      → m.algorithm ≡ a
      → n.algorithm ≡ a
      → CanTalk a text m n
      → (cipher : List ℕ) × (m' : CryptoModule lib) × (encrypt lib text m ≡ ok (cipher, m'))
        × (decrypt lib cipher n ≡ ok text)
  unfolding encrypt decrypt encrypt_by decrypt_by
  decrypt-encrypt Algorithm.plain text m n e f t = (text, m, rw e, rw f)
  decrypt-encrypt Algorithm.server_rsa text m n e f (r, r') =
      let (cipher, c, done, same, back) =
        decrypt_rsa-encrypt_rsa lib k s fits text m.rsa_server_crypto n.rsa_server_crypto r r' in
      (cipher, record m { rsa_server_crypto = c }, rw (e, done), rw f back)
  decrypt-encrypt Algorithm.outer_rsa text m n e f (r, r') =
      let (cipher, c, done, same, back) =
        decrypt_rsa-encrypt_rsa lib k s fits text m.rsa_simple_crypto n.rsa_simple_crypto r r' in
      (cipher, record m { rsa_simple_crypto = c }, rw (e, done), rw f back)
  decrypt-encrypt Algorithm.aes text m n e f (same, (cipher, done)) = (
    cipher,
    m,
    rw (e, done),
    rw (f, sym same) (lib.aes_decrypt-aes_encrypt m.symmetric_key text cipher done),
  )
