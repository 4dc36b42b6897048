-- ===== src/Base/Dict.antt =====
-- `std::map` and `std::unordered_map` as association lists: each key is listed once, and `insert`
-- leaves an entry that is there alone, as in C++. The order of a map is not observed.
use tin_locus.Base.Tests.{Eq, if◌then◌else◌, Bool-cases}
use mathlib.Core.Path.{◌≡◌, refl, sym, ◌∙◌}
use mathlib.Core.Logic.{◌≢◌, ◌⊎◌, inl, inr}
use mathlib.Core.Bool.{true, false≢true}
use mathlib.Core.Option.{Option, none, some}
use mathlib.Core.List.{List, [], ◌∷◌}
use native.Mathlib.Omega.{arith}

abbrev pub Dict {ℓ κ} : Type ℓ → Type κ → Type (ℓ ⊔ κ)
Dict K V = List (K × V)

module _ {ℓ} {A : Type ℓ} ⦃e : Eq A⦄ where
  pub beq_self : (a : A) → e.beq a a ≡ true
  beq_self a = (e.beq_iff a a).1 refl

  -- Two keys are the same one, or not.
  pub key-cases : (i k : A) → (i ≡ k) ⊎ (i ≢ k)
  key-cases i k = elim (Bool-cases (e.beq i k)) [
    | inl same ↦ inl ((e.beq_iff i k).0 same)
    | inr other ↦ inr (λ h. false≢true (sym other ∙ (e.beq_iff i k).1 h))
  ]

module _ {κ} {V : Type κ} where
  -- What `insert` leaves at its key.
  abbrev pub kept : V → Option V → Option V
  kept v (some w) = some w
  kept v none = some v

  abbrev pub map_option : (V → V) → Option V → Option V
  map_option f none = none
  map_option f (some w) = some (f w)

module _ {ℓ κ} {K : Type ℓ} ⦃e : Eq K⦄ {V : Type κ} where
  -- `find`
  unfoldable pub lookup : K → Dict K V → Option V
  lookup k [] = none
  lookup k ((j, v) ∷ d) = if e.beq j k then some v else lookup k d

  -- `insert({k, v})` and `emplace(k, v)`
  unfoldable pub insert : K → V → Dict K V → Dict K V
  insert k v [] = (k, v) ∷ []
  insert k v ((j, w) ∷ d) = if e.beq j k then (j, w) ∷ d else (j, w) ∷ insert k v d

  -- `erase(k)`
  unfoldable pub erase : K → Dict K V → Dict K V
  erase k [] = []
  erase k ((j, w) ∷ d) = if e.beq j k then erase k d else (j, w) ∷ erase k d

  -- A write through the iterator that `find(k)` gives.
  unfoldable pub modify : K → (V → V) → Dict K V → Dict K V
  modify k f [] = []
  modify k f ((j, w) ∷ d) = if e.beq j k then (j, f w) ∷ modify k f d else (j, w) ∷ modify k f d

  pub lookup-insert_self :
      (k : K) (v : V) (d : Dict K V) → lookup k (insert k v d) ≡ kept v (lookup k d)
  unfolding lookup insert
  lookup-insert_self k v [] = ground (arith, beq_self k)
  lookup-insert_self k v ((j, w) ∷ d) = ground (arith, lookup-insert_self k v d)

  pub lookup-insert_ne :
      (k i : K) (v : V) (d : Dict K V) → i ≢ k → lookup i (insert k v d) ≡ lookup i d
  unfolding lookup insert
  lookup-insert_ne k i v [] h = ground (arith, e.beq_iff k i)
  lookup-insert_ne k i v ((j, w) ∷ d) h =
      ground (arith, e.beq_iff j i, e.beq_iff j k, lookup-insert_ne k i v d h)

  pub lookup-erase_self : (k : K) (d : Dict K V) → lookup k (erase k d) ≡ none
  unfolding lookup erase
  lookup-erase_self k [] = refl
  lookup-erase_self k ((j, w) ∷ d) = ground (arith, lookup-erase_self k d)

  pub lookup-erase_ne : (k i : K) (d : Dict K V) → i ≢ k → lookup i (erase k d) ≡ lookup i d
  unfolding lookup erase
  lookup-erase_ne k i [] h = refl
  lookup-erase_ne k i ((j, w) ∷ d) h =
      ground (arith, e.beq_iff j i, e.beq_iff j k, lookup-erase_ne k i d h)

  pub lookup-modify_self :
      (k : K) (f : V → V) (d : Dict K V) → lookup k (modify k f d) ≡ map_option f (lookup k d)
  unfolding lookup modify
  lookup-modify_self k f [] = refl
  lookup-modify_self k f ((j, w) ∷ d) = ground (arith, lookup-modify_self k f d)

  pub lookup-modify_ne :
      (k i : K) (f : V → V) (d : Dict K V) → i ≢ k → lookup i (modify k f d) ≡ lookup i d
  unfolding lookup modify
  lookup-modify_ne k i f [] h = refl
  lookup-modify_ne k i f ((j, w) ∷ d) h =
      ground (arith, e.beq_iff j i, e.beq_iff j k, lookup-modify_ne k i f d h)

  -- Writes that do not touch the same part of a value may be exchanged.
  pub modify_comm :
      (j k : K) (f g : V → V) (d : Dict K V)
      → ((v : V) → f (g v) ≡ g (f v))
      → modify j f (modify k g d) ≡ modify k g (modify j f d)
  unfolding modify
  modify_comm j k f g [] h = refl
  modify_comm j k f g ((i, w) ∷ d) h = ground (arith, h w, modify_comm j k f g d h)
