-- ===== src/Crypto/Tools/Generated.antt =====
-- The key files that keysGenerator.cpp and genServerKeys.cpp make.
use tin_locus.Base.{
  ℕ, ◌≡◌, ◌⊎◌, refl, ◌∙◌, inl, inr, Bool, true, false, List, Result, ok, throws, undefined,
  bytes_beq, Bool-cases,
}
use tin_locus.Base.Step.{then_on}
use tin_locus.Crypto.{CryptoPp}
use tin_locus.Crypto.Keys.{
  default_public_key_filename, default_private_key_filename, new_rsa_server, new_rsa_server-eq,
}
use tin_locus.Crypto.Tools.{
  Files, KeyMaker, with_file, save_keys, after_generate, keys_generator, main_after_generate,
  gen_server_keys, public_key_filename, private_key_filename,
}

-- What is in the file after it was written.
abbrev pub holding : List ℕ → List ℕ → Files → Files
holding public_bytes private_bytes files =
    with_file default_private_key_filename private_bytes
      (with_file default_public_key_filename public_bytes files)

module _ (lib : CryptoPp) (maker : KeyMaker lib) (opens : List ℕ → Bool) where
  module _ (bits : ℕ) (r r' : lib.RandomPool) (s : lib.PrivateKey) (files : Files)
      (generated : maker.generate bits r ≡ ok (s, r'))
      (valid : (maker.validate_public (maker.public_of s) r').0 ≡ true)
      (valid' : (maker.validate_private s (maker.validate_public (maker.public_of s) r').1).0
        ≡ true)
      (opens_public : opens default_public_key_filename ≡ true)
      (opens_private : opens default_private_key_filename ≡ true) where
    abbrev pub made : Files
    made = holding (lib.save_public (maker.public_of s)) (lib.save_private s) files

  -- What keysGenerator leaves in the two files of the server when it throws.
  abbrev pub Throws : Files → Result (Unit {0}) × Files → Type 0
  Throws files (ok u, after) = Unit
  Throws files (throws, after) =
      (after ≡ files)
      ⊎ ((opens default_private_key_filename ≡ false)
          × ((k : lib.PublicKey) × (after
                ≡ with_file default_public_key_filename (lib.save_public k) files)))
  Throws files (undefined, after) = after ≡ files

  save_keys-Throws :
      (k : lib.PublicKey) (s : lib.PrivateKey) (files : Files)
      → Throws files (
          save_keys lib maker opens default_public_key_filename default_private_key_filename k s
            files)
  unfolding save_keys
  save_keys-Throws k s files = elim (Bool-cases (opens default_public_key_filename)) [
    | inr bad ↦ rw bad (inl refl)
    | inl good ↦ elim (Bool-cases (opens default_private_key_filename)) [
      | inr bad ↦ rw (good, bad) (inr (bad, (k, refl)))
      | inl good2 ↦ rw (good, good2) tt
    ]
  ]

  after_generate-Throws :
      (g : Result (lib.PrivateKey × lib.RandomPool)) (files : Files)
      → Throws files (after_generate lib maker opens g files)
  unfolding after_generate
  after_generate-Throws throws files = inl refl
  after_generate-Throws undefined files = refl
  after_generate-Throws (ok (s, r)) files =
      elim (Bool-cases (maker.validate_public (maker.public_of s) r).0) [
        | inr bad ↦ rw bad (inl refl)
        | inl good ↦
            elim (Bool-cases
              (maker.validate_private s (maker.validate_public (maker.public_of s) r).1).0) [
                | inr bad ↦ rw (good, bad) (inl refl)
                | inl good2 ↦ rw (good, good2) (save_keys-Throws (maker.public_of s) s files)
              ]
      ]

  -- If keysGenerator throws, the files are as they were, or the file of the private key could not be
  -- written, and that of the public key has a new key already.
  pub keys_generator-Throws :
      (bits : ℕ) (r : lib.RandomPool) (files : Files)
      → Throws files (keys_generator lib maker opens bits r files)
  unfolding keys_generator
  keys_generator-Throws bits r files = after_generate-Throws (maker.generate bits r) files

  -- The other names.
  save_keys-Keeps :
      (k : lib.PublicKey) (s : lib.PrivateKey) (files : Files) (name : List ℕ)
      → bytes_beq name public_key_filename ≡ false
      → bytes_beq name private_key_filename ≡ false
      → (save_keys lib maker opens public_key_filename private_key_filename k s files).1 name
        ≡ files name
  unfolding save_keys
  save_keys-Keeps k s files name other other2 = elim (Bool-cases (opens public_key_filename)) [
    | inr bad ↦ rw bad refl
    | inl good ↦ elim (Bool-cases (opens private_key_filename)) [
      | inr bad ↦ rw (good, bad, other) refl
      | inl good2 ↦ rw (good, good2, other2, other) refl
    ]
  ]

  after_main-Keeps :
      (g : Result (lib.PrivateKey × lib.RandomPool)) (files : Files) (name : List ℕ)
      → bytes_beq name public_key_filename ≡ false
      → bytes_beq name private_key_filename ≡ false
      → (main_after_generate lib maker opens g files).1 name ≡ files name
  unfolding main_after_generate
  after_main-Keeps throws files name other other2 = refl
  after_main-Keeps undefined files name other other2 = refl
  after_main-Keeps (ok (s, r)) files name other other2 =
      elim (Bool-cases (maker.validate_public (maker.public_of s) r).0) [
        | inr bad ↦ rw bad refl
        | inl good ↦
            elim (Bool-cases
              (maker.validate_private s (maker.validate_public (maker.public_of s) r).1).0) [
                | inr bad ↦ rw (good, bad) refl
                | inl good2 ↦
                    rw (good, good2)
                      (left_over (
                          save_keys lib maker opens public_key_filename private_key_filename
                            (maker.public_of s) s files)
                        ∙ save_keys-Keeps (maker.public_of s) s files name other other2)
              ]
      ]
    where
      left_over :
          (p : Result (Unit {0}) × Files)
          → (then_on {B = ℕ} p (λ done (left : Files). (ok 0, left))).1 name ≡ p.1 name
      left_over (ok u, after) = refl
      left_over (throws, after) = refl
      left_over (undefined, after) = refl

  -- genServerKeys does not give the server its keys: it writes under other names than RSAServerCrypto()
  -- loads, so whatever it does, that constructor returns what it returned before.
  pub gen_server_keys-Keeps :
      (r pool : lib.RandomPool) (files : Files)
      → new_rsa_server lib
          (gen_server_keys lib maker opens r files).1
          default_public_key_filename
          default_private_key_filename
          pool
        ≡ new_rsa_server lib files default_public_key_filename default_private_key_filename pool
  unfolding gen_server_keys
  gen_server_keys-Keeps r pool files =
      let g = maker.generate 1024 r in
      new_rsa_server-eq lib (main_after_generate lib maker opens g files).1 files
        default_public_key_filename default_private_key_filename pool
        (after_main-Keeps g files default_public_key_filename refl refl)
        (after_main-Keeps g files default_private_key_filename refl refl)
