-- ===== src/Crypto/Index.antt =====
-- The loop of `encryptRSA` in CryptoModule.cpp with its index as the source has it: an `int`, to which
-- a `size_t` is added, and which is compared as a `size_t`.
use tin_locus.Base.{
  ℕ, zero, suc, ◌+◌, ◌-◌, ◌%◌, ◌^◌, ◌<◌, ◌≡◌, refl, sym, ap, ◌∙◌, inl, inr, List, [], ◌++◌, false,
  Result, ok, throws, undefined, ◌>>=◌, arith, ltb, length, Bool-cases, if◌then◌else◌,
}
use tin_locus.Crypto.{CryptoPp, RsaSimpleCrypto, rsa_encrypt, encrypt_loop, encrypt_rsa, slice}
use tin_locus.Crypto.Returns.{Returns, KeepsLength, rsa_encrypt-KeepsLength, encrypt_loop-Returns}

-- `i += n`, as the next test of the loop reads it: the sum is cut to 32 bits, and a negative `int` is a
-- `size_t` just below 2 ^ 64.
pub next_index : ℕ → ℕ → ℕ
next_index i n =
    let sum = (i + n) % 2 ^ 32 in if ltb sum (2 ^ 31) then sum else sum + (2 ^ 64 - 2 ^ 32)

module _ (lib : CryptoPp) where
  -- The loop from the index `i`, with the rounds that it may take.
  pub encrypt_loop_int :
      ℕ → ℕ → List ℕ → RsaSimpleCrypto lib → Result (List ℕ × RsaSimpleCrypto lib)
  unfolding next_index
  encrypt_loop_int zero i text c = if ltb i (length text) then undefined else ok ([], c)
  encrypt_loop_int (suc rounds) i text c =
      if ltb i (length text)
      then (rsa_encrypt lib (slice i c.max_plain_text_length text) c >>= λ (new_bytes, d).
          (encrypt_loop_int rounds (next_index i c.max_plain_text_length) text d >>= λ (bytes, e).
          ok (new_bytes ++ bytes, e)))
      else ok ([], c)

  -- `encryptRSA(rsaCrypto, text)`
  pub encrypt_rsa_int : List ℕ → RsaSimpleCrypto lib → Result (List ℕ × RsaSimpleCrypto lib)
  unfolding encrypt_loop_int
  encrypt_rsa_int text c = encrypt_loop_int (length text) 0 text c

  ended :
      (rounds i : ℕ) (text : List ℕ) (c : RsaSimpleCrypto lib)
      → ltb i (length text) ≡ false
      → encrypt_loop lib rounds i text c ≡ ok ([], c)
  unfolding encrypt_loop
  ended zero i text c e = rw e
  ended (suc rounds) i text c e = rw e

  int_ended :
      (rounds i : ℕ) (text : List ℕ) (c : RsaSimpleCrypto lib)
      → ltb i (length text) ≡ false
      → encrypt_loop_int rounds i text c ≡ ok ([], c)
  unfolding encrypt_loop_int
  int_ended zero i text c e = rw e
  int_ended (suc rounds) i text c e = rw e

  -- After a block that was encrypted, the rest is the same if it is the same for blocks of that length.
  same_rest {ℓ} :
      {B : Type ℓ} (c : RsaSimpleCrypto lib) (r : Result (List ℕ × RsaSimpleCrypto lib))
      (f g : List ℕ × RsaSimpleCrypto lib → Result B)
      → KeepsLength lib c r
      → ((bytes : List ℕ) (d : RsaSimpleCrypto lib)
          → d.max_plain_text_length ≡ c.max_plain_text_length
          → f (bytes, d) ≡ g (bytes, d))
      → (r >>= f) ≡ (r >>= g)
  same_rest c (ok (bytes, d)) f g h same = same bytes d h
  same_rest c throws f g h same = refl
  same_rest c undefined f g h same = refl

  -- Where the sum does not fit an `int`, both indices are past the text.
  next_round :
      (rounds i n : ℕ) (text : List ℕ) (d : RsaSimpleCrypto lib)
      → length text < 2 ^ 31
      → n < 2 ^ 31
      → i < 2 ^ 31
      → (i + n < 2 ^ 31
          → encrypt_loop_int rounds (i + n) text d ≡ encrypt_loop lib rounds (i + n) text d)
      → encrypt_loop_int rounds (next_index i n) text d ≡ encrypt_loop lib rounds (i + n) text d
  unfolding next_index
  next_round rounds i n text d short block low same = elim (Bool-cases (ltb (i + n) (2 ^ 31))) [
    | inl fits ↦ ap (λ k. encrypt_loop_int rounds k text d) (ground arith) ∙ same (ground arith)
    | inr past ↦
        int_ended rounds (next_index i n) text d (ground arith)
        ∙ sym (ended rounds (i + n) text d (ground arith))
  ]

  encrypt_loop_int_lem :
      (rounds i : ℕ) (text : List ℕ) (c : RsaSimpleCrypto lib)
      → length text < 2 ^ 31
      → c.max_plain_text_length < 2 ^ 31
      → i < 2 ^ 31
      → encrypt_loop_int rounds i text c ≡ encrypt_loop lib rounds i text c
  unfolding encrypt_loop_int encrypt_loop
  encrypt_loop_int_lem zero i text c short block low = refl
  encrypt_loop_int_lem (suc rounds) i text c short block low =
      elim (Bool-cases (ltb i (length text))) [
        | inr over ↦ rw over
        | inl more ↦ rw more (
            same_rest c (rsa_encrypt lib (slice i c.max_plain_text_length text) c) _ _
              (rsa_encrypt-KeepsLength lib (slice i c.max_plain_text_length text) c)
              (λ bytes d same.
                ap (λ r. r >>= λ (rest, e). ok (bytes ++ rest, e))
                  (next_round rounds i c.max_plain_text_length text d short block low (
                    encrypt_loop_int_lem rounds (i + c.max_plain_text_length) text d short
                      (omega (arith, same))))))
      ]

  -- For a text shorter than 2 ^ 31 bytes, and blocks that hold at least one byte and fewer than 2 ^ 31,
  -- `encryptRSA` always returns, with a value or an exception, whatever the keys are, and its `int`
  -- index makes no difference: the outcome is that of the loop with an index without bounds.
  pub encrypt_rsa_int-Returns :
      (text : List ℕ) (c : RsaSimpleCrypto lib)
      → length text < 2 ^ 31
      → 0 < c.max_plain_text_length
      → c.max_plain_text_length < 2 ^ 31
      → Returns (encrypt_rsa_int text c) × (encrypt_rsa_int text c ≡ encrypt_rsa lib text c)
  unfolding encrypt_rsa_int encrypt_rsa
  encrypt_rsa_int-Returns text c short positive block =
      let same = encrypt_loop_int_lem (length text) 0 text c short block (omega arith) in
      (rw same (encrypt_loop-Returns lib (length text) 0 text c positive (omega arith)), same)
