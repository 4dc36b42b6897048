-- ===== src/Crypto/Aes.antt =====
-- The class `AESCrypto` of server/src/crypto/Crypto.h and Crypto.cpp. Both of its ciphers have the
-- key that it holds.
use tin_locus.Base.{
  ℕ, ◌≡◌, ◌≢◌, refl, sym, ap, ◌∙◌, inl, inr, arith, List, Result, ok, throws, undefined, ◌==◌, not,
  if◌then◌else◌, length, Bool-cases,
}
use tin_locus.Base.Step.{Step}
use tin_locus.Crypto.{CryptoPp}
use tin_locus.Crypto.Keys.{default_keylength}

pub record AesCrypto : Type 0 where
  pub key : List ℕ

-- `AESCrypto()`, with the bytes that `GenerateBlock` gives.
unfoldable pub new_aes : List ℕ → AesCrypto
new_aes random = record { key = random }

-- `AESCrypto(symmetricKey)`
unfoldable pub new_aes_key : List ℕ → Result AesCrypto
new_aes_key symmetric_key =
    if not (length symmetric_key == default_keylength)
    then throws
    else ok (record { key = symmetric_key })

-- `setSymmetricKey(symmetricKey)`
unfoldable pub set_symmetric_key : List ℕ → Step AesCrypto (Unit {0})
set_symmetric_key symmetric_key c =
    if not (length symmetric_key == default_keylength)
    then (throws, c)
    else (ok tt, record { key = symmetric_key })

-- `getSymmetricKey()`
unfoldable pub get_symmetric_key : AesCrypto → List ℕ
get_symmetric_key c = c.key

built_key : (key : List ℕ) (d : AesCrypto) → new_aes_key key ≡ ok d → d.key ≡ key
unfolding new_aes_key
built_key key d h = elim (Bool-cases (length key == default_keylength)) [
  | inr other ↦ absurd (refused (rw other at h))
  | inl same ↦ ap (λ r. key_of r) (sym (rw same at h))
]
  where
    key_of : Result AesCrypto → List ℕ
    key_of (ok c) = c.key
    key_of throws = key
    key_of undefined = key

    refused : throws ≡ ok d → ⊥
    refused e = cc

module _ (lib : CryptoPp) where
  unfoldable pub encrypt : List ℕ → AesCrypto → Result (List ℕ)
  encrypt text c = lib.aes_encrypt c.key text

  unfoldable pub decrypt : List ℕ → AesCrypto → Result (List ℕ)
  decrypt cipher c = lib.aes_decrypt c.key cipher

  -- What a change of the key owes: the key is taken over if it has 16 bytes, and two objects that
  -- took it over read each other; else the old key stays.
  abbrev pub Rekeys : List ℕ → AesCrypto → Result (Unit {0}) × AesCrypto → Type 0
  Rekeys key c (ok u, d) =
      (length key ≡ default_keylength)
      × (get_symmetric_key d ≡ key)
      × (new_aes_key (get_symmetric_key d) ≡ ok d)
      × ((text cipher : List ℕ) (other : AesCrypto)
          → new_aes_key key ≡ ok other
          → encrypt text other ≡ ok cipher
          → decrypt cipher d ≡ ok text)
  Rekeys key c (throws, d) = (length key ≢ default_keylength) × (d ≡ c)
  Rekeys key c (undefined, d) = ⊥

  -- `setSymmetricKey` takes a key of 16 bytes over: `getSymmetricKey` returns it, an object that is
  -- built from what that returns is the same, and what another object with the key encrypts is
  -- decrypted; any other key is refused and the object stays as it is.
  pub set_symmetric_key-Rekeys :
      (key : List ℕ) (c : AesCrypto) → Rekeys key c (set_symmetric_key key c)
  unfolding set_symmetric_key new_aes_key get_symmetric_key encrypt decrypt
  set_symmetric_key-Rekeys key c = elim (Bool-cases (length key == default_keylength)) [
    | inr other ↦ rw other ((λ same. ground (arith, other, same)), refl)
    | inl same ↦ rw same (
      ground (arith, same),
      refl,
      rw same,
      λ text cipher d built h.
          lib.aes_decrypt-aes_encrypt key text cipher
            (ap (λ (k : List ℕ). lib.aes_encrypt k text) (sym (built_key key d built)) ∙ h),
    )
  ]
