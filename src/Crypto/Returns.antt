-- ===== src/Crypto/Returns.antt =====
-- The loop of `encryptRSA` in CryptoModule.cpp ends.
use tin_locus.Base.{
  ℕ, zero, suc, ◌+◌, ◌≤◌, ◌<◌, ◌≡◌, refl, inl, inr, List, Result, ok, throws, undefined, ◌>>=◌,
  arith, ltb, length, Bool-cases, Option-cases,
}
use tin_locus.Crypto.{CryptoPp, RsaSimpleCrypto, rsa_encrypt, encrypt_loop, slice}

-- A call that comes back, with a value or an exception.
abbrev pub Returns {ℓ} : {A : Type ℓ} → Result A → Type 0
Returns (ok a) = Unit {0}
Returns throws = Unit {0}
Returns undefined = ⊥

map-Returns {ℓ κ} :
    {A : Type ℓ} {B : Type κ} (r : Result A) (f : A → B) → Returns r → Returns (r >>= λ a. ok (f a))
map-Returns (ok a) f h = tt
map-Returns throws f h = tt
map-Returns undefined f h = h

module _ (lib : CryptoPp) where
  -- A block is encrypted or refused, and the length of a block stays as it is.
  abbrev pub KeepsLength : RsaSimpleCrypto lib → Result (List ℕ × RsaSimpleCrypto lib) → Type 0
  KeepsLength c (ok (bytes, d)) = d.max_plain_text_length ≡ c.max_plain_text_length
  KeepsLength c throws = Unit {0}
  KeepsLength c undefined = ⊥

  pub rsa_encrypt-KeepsLength :
      (text : List ℕ) (c : RsaSimpleCrypto lib) → KeepsLength c (rsa_encrypt lib text c)
  unfolding rsa_encrypt
  rsa_encrypt-KeepsLength text c = elim (Option-cases c.public_key) [
    | inl e ↦ rw e tt
    | inr (k, e) ↦ elim (Bool-cases (ltb c.max_plain_text_length (length text))) [
      | inl long ↦ rw (e, long) tt
      | inr short ↦ rw (e, short) refl
    ]
  ]

  bind-Returns {ℓ} :
      {B : Type ℓ} (c : RsaSimpleCrypto lib) (r : Result (List ℕ × RsaSimpleCrypto lib))
      (f : List ℕ × RsaSimpleCrypto lib → Result B)
      → KeepsLength c r
      → ((bytes : List ℕ) (d : RsaSimpleCrypto lib)
          → d.max_plain_text_length ≡ c.max_plain_text_length
          → Returns (f (bytes, d)))
      → Returns (r >>= f)
  bind-Returns c (ok (bytes, d)) f h g = g bytes d h
  bind-Returns c throws f h g = tt
  bind-Returns c undefined f h g = h

  pub encrypt_loop-Returns :
      (rounds i : ℕ) (text : List ℕ) (c : RsaSimpleCrypto lib)
      → 0 < c.max_plain_text_length
      → length text ≤ i + rounds
      → Returns (encrypt_loop lib rounds i text c)
  unfolding encrypt_loop
  encrypt_loop-Returns zero i text c positive enough = ground arith
  encrypt_loop-Returns (suc rounds) i text c positive enough =
      elim (Bool-cases (ltb i (length text))) [
        | inr ended ↦ rw ended tt
        | inl more ↦ rw more (
            bind-Returns c (rsa_encrypt lib (slice i c.max_plain_text_length text) c) _
              (rsa_encrypt-KeepsLength (slice i c.max_plain_text_length text) c)
              (λ bytes d same.
                map-Returns (encrypt_loop lib rounds (i + c.max_plain_text_length) text d) _ (
                  encrypt_loop-Returns rounds (i + c.max_plain_text_length) text d
                    (omega (arith, same)) (omega arith))))
      ]
