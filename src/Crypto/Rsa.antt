-- ===== src/Crypto/Rsa.antt =====
-- Text of any length goes through RSA in blocks, and comes back.
use tin_locus.Base.{
  ℕ, zero, suc, ◌+◌, ◌-◌, ◌≤◌, ◌≡◌, sym, ap, ◌∙◌, ◌⊎◌, inl, inr, List, [], ◌∷◌, ◌++◌, some, ok,
  true, arith, subst, ltb, length, take, drop, length-append, length-take, length-drop, take-append,
  drop-append, take-append-drop,
}
use Prim.Native.Nat.{min}
use mathlib.Core.List.{append_assoc}
use tin_locus.Crypto.{
  CryptoPp, RsaSimpleCrypto, slice, rsa_encrypt, rsa_decrypt, encrypt_loop, decrypt_loop,
  encrypt_rsa, decrypt_rsa,
}

-- What stands in the middle of a vector.
slice-append :
    (pre mid post : List ℕ) (n : ℕ)
    → length mid ≡ n
    → slice (length pre) n (pre ++ (mid ++ post)) ≡ mid
unfolding slice
slice-append pre mid post n h =
    let size : min (length (pre ++ (mid ++ post))) (length pre + n) - length pre ≡ length mid =
      omega (arith, length-append pre (mid ++ post), length-append mid post) in
    rw (size, drop-append pre (mid ++ post)) (take-append mid post)

slice_of :
    (pre rest : List ℕ) (n : ℕ)
    → slice (length pre) n (pre ++ rest) ≡ take (min (length rest) n) rest
unfolding slice
slice_of pre rest n =
    let size : min (length (pre ++ rest)) (length pre + n) - length pre ≡ min (length rest) n =
      omega (arith, length-append pre rest) in
    rw (size, drop-append pre rest)

module _ (lib : CryptoPp) (k : lib.PublicKey) (s : lib.PrivateKey) (fits : lib.Fits k s) where
  -- An object that has the public key, and one that has the private key.
  pub record IsSender (c : RsaSimpleCrypto lib) : Type 0 where
    pub public_key : c.public_key ≡ some k
    pub max_plain_text_length : c.max_plain_text_length ≡ lib.max_plaintext k

  pub record IsReceiver (c : RsaSimpleCrypto lib) : Type 0 where
    pub private_key : c.private_key ≡ some s
    pub fixed_cipher_text_length : c.fixed_cipher_text_length ≡ lib.fixed_ciphertext s

  rsa_encrypt_block :
      (text : List ℕ) (c : RsaSimpleCrypto lib)
      → IsSender c
      → length text ≤ lib.max_plaintext k
      → (cipher : List ℕ) × (d : RsaSimpleCrypto lib) × (rsa_encrypt lib text c ≡ ok (cipher, d))
        × IsSender d
        × (length cipher ≡ lib.fixed_ciphertext s)
        × (lib.rsa_decrypt s cipher ≡ ok text)
  unfolding rsa_encrypt
  rsa_encrypt_block text c r h = (
    (lib.rsa_encrypt k text c.random_generator).0,
    record c { random_generator = (lib.rsa_encrypt k text c.random_generator).1 },
    ground (arith, r.public_key, r.max_plain_text_length, h),
    record { public_key = r.public_key; max_plain_text_length = r.max_plain_text_length },
    lib.length-rsa_encrypt k s text c.random_generator fits h,
    lib.rsa_decrypt-rsa_encrypt k s text c.random_generator fits h,
  )

  -- Decryption from the place where the blocks begin gives the text.
  abbrev Reads : List ℕ → List ℕ → Type 0
  Reads cipher text =
      (pre : List ℕ) (rounds : ℕ) (c : RsaSimpleCrypto lib)
      → IsReceiver c
      → length cipher ≤ rounds
      → decrypt_loop lib rounds (length pre) (pre ++ cipher) c ≡ ok text

  Reads-nil : Reads [] []
  unfolding decrypt_loop
  Reads-nil pre zero c r h = ground (arith, length-append pre [])
  Reads-nil pre (suc rounds) c r h = ground (arith, length-append pre [])

  rsa_decrypt_block :
      (block text : List ℕ) (c : RsaSimpleCrypto lib)
      → IsReceiver c
      → length block ≡ lib.fixed_ciphertext s
      → lib.rsa_decrypt s block ≡ ok text
      → rsa_decrypt lib block c ≡ ok text
  unfolding rsa_decrypt
  rsa_decrypt_block block text c r size back =
      ground (arith, r.private_key, r.fixed_cipher_text_length, size, back)

  Reads-block :
      (block cipher text rest : List ℕ)
      → length block ≡ lib.fixed_ciphertext s
      → lib.rsa_decrypt s block ≡ ok text
      → Reads cipher rest
      → Reads (block ++ cipher) (text ++ rest)
  unfolding decrypt_loop
  Reads-block block cipher text rest size back reads pre zero c r h =
      absurd (omega (arith, lib.some_ciphertext k s fits, length-append block cipher))
  Reads-block block cipher text rest size back reads pre (suc rounds) c r h =
      let whole = length-append pre (block ++ cipher) in
      let parts = length-append block cipher in
      let positive = lib.some_ciphertext k s fits in
      let some_left : ltb (length pre) (length (pre ++ (block ++ cipher))) ≡ true =
        ground (arith, whole, parts, positive, size) in
      let piece =
        slice-append pre block cipher c.fixed_cipher_text_length
          (size ∙ sym r.fixed_cipher_text_length) in
      let one = rsa_decrypt_block block text c r size back in
      let shift : length pre + c.fixed_cipher_text_length ≡ length (pre ++ block) =
        omega (arith, length-append pre block, size, r.fixed_cipher_text_length) in
      let others = reads (pre ++ block) rounds c r (omega (arith, parts, positive, size, h)) in
      let next : decrypt_loop lib rounds (length pre + c.fixed_cipher_text_length)
            (pre ++ (block ++ cipher)) c
          ≡ ok rest =
        rw (shift, sym (append_assoc pre block cipher)) others in
      rw (some_left, piece, one, next)

  encrypt_end :
      (rounds i : ℕ) (text : List ℕ) (c : RsaSimpleCrypto lib)
      → length text ≤ i
      → encrypt_loop lib rounds i text c ≡ ok ([], c)
  unfolding encrypt_loop
  encrypt_end zero i text c h = ground arith
  encrypt_end (suc rounds) i text c h = ground arith

  -- The next round starts behind the block, or behind the end.
  next_round :
      (i : ℕ) (text : List ℕ) (rounds : ℕ) (d : RsaSimpleCrypto lib) (pre after : List ℕ)
      (out : List ℕ × RsaSimpleCrypto lib)
      → (pre ++ after) ≡ text
      → encrypt_loop lib rounds (length pre) (pre ++ after) d ≡ ok out
      → (i ≡ length pre) ⊎ ((length text ≤ i) × (length text ≤ length pre))
      → encrypt_loop lib rounds i text d ≡ ok out
  next_round i text rounds d pre after out same e (inl here) = rw (here, sym same) e
  next_round i text rounds d pre after out same e (inr (past, ended)) =
      encrypt_end rounds i text d past
      ∙ sym (encrypt_end rounds (length pre) text d ended)
      ∙ rw (sym same) e

  encrypt-Reads :
      (pre rest : List ℕ) (rounds : ℕ) (c : RsaSimpleCrypto lib)
      → IsSender c
      → length rest ≤ rounds
      → (cipher : List ℕ) × (d : RsaSimpleCrypto lib) × (encrypt_loop lib rounds
            (length pre)
            (pre ++ rest)
            c
          ≡ ok (cipher, d))
        × IsSender d
        × Reads cipher rest
  unfolding encrypt_loop
  encrypt-Reads pre [] rounds c r h = (
    [],
    c,
    encrypt_end rounds (length pre) (pre ++ []) c (omega (arith, length-append pre [])),
    r,
    Reads-nil,
  )
  encrypt-Reads pre (x ∷ xs) zero c r h = absurd (omega arith)
  encrypt-Reads pre (x ∷ xs) (suc rounds) c r h =
      let n = c.max_plain_text_length in
      let positive = lib.some_plaintext k s fits in
      let text = x ∷ xs in
      let block = take (min (length text) n) text in
      let after = drop (min (length text) n) text in
      let whole = length-append pre text in
      let some_left : ltb (length pre) (length (pre ++ text)) ≡ true = ground (arith, whole) in
      let (cipher, d, e, r', size, back) =
        rsa_encrypt_block block c r
          (omega (arith, length-take (min (length text) n) text, r.max_plain_text_length)) in
      let same = append_assoc pre block after in
      let joined = take-append-drop (min (length text) n) text in
      let (others, f, g, r'', reads) = encrypt-Reads (pre ++ block) after rounds d r' (
        omega (arith, length-drop (min (length text) n) text, positive, r.max_plain_text_length)) in
      let next : encrypt_loop lib rounds (length pre + n) (pre ++ text) d ≡ ok (others, f) =
        next_round (length pre + n) (pre ++ text) rounds d (pre ++ block) after (others, f)
          (same ∙ ap (◌++◌ pre) joined) g
          (ground
            (arith, length-append pre block, length-take (min (length text) n) text, whole)) in
      (
        cipher ++ others,
        f,
        rw (some_left, slice_of pre text n, e, next),
        r'',
        subst (Reads (cipher ++ others)) joined
            (Reads-block cipher others block after size back reads),
      )

  -- Any text that `encryptRSA` takes is encrypted, and `decryptRSA` with keys that fit gives it back.
  pub decrypt_rsa-encrypt_rsa :
      (text : List ℕ) (c d : RsaSimpleCrypto lib)
      → IsSender c
      → IsReceiver d
      → (cipher : List ℕ) × (e : RsaSimpleCrypto lib) × (encrypt_rsa lib text c ≡ ok (cipher, e))
        × IsSender e
        × (decrypt_rsa lib cipher d ≡ ok text)
  unfolding encrypt_rsa decrypt_rsa
  decrypt_rsa-encrypt_rsa text c d r r' =
      let (cipher, e, done, r'', reads) = encrypt-Reads [] text (length text) c r (omega arith) in
      (cipher, e, done, r'', reads [] (length cipher) d r' (omega arith))
