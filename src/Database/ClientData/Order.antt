-- ===== src/Database/ClientData/Order.antt =====
-- The comparison operators of server/src/database/Position.cpp, Watcher.cpp and ClientData.cpp. How
-- two floats compare is given: `==` and `<` of their patterns, where a NaN is less than nothing.
use tin_locus.Base.{
  ℕ, ◌+◌, ◌%◌, ◌^◌, ◌≡◌, refl, Bool, true, false, not, ◌&&◌, List, [], ◌∷◌, arith, ltb, ◌==◌,
  if◌then◌else◌, bytes_beq,
}
use tin_locus.Base.Int.{ltb_ℤ, eqb_ℤ}
use tin_locus.Database.ClientData.{Position, Watcher, ClientData}

-- `if (a < b) return true; if (b < a) return false;` and then the rest.
unfoldable pub first_less : Bool → Bool → Bool → Bool
first_less less greater rest = if less then true else if greater then false else rest

-- `==` and `<` of two vectors or two lists, by those of their elements.
unfoldable pub list_eq {ℓ} : {A : Type ℓ} → (A → A → Bool) → List A → List A → Bool
list_eq eq [] [] = true
list_eq eq (x ∷ xs) (y ∷ ys) = eq x y && list_eq eq xs ys
list_eq eq [] (y ∷ ys) = false
list_eq eq (x ∷ xs) [] = false

unfoldable pub list_lt {ℓ} : {A : Type ℓ} → (A → A → Bool) → List A → List A → Bool
unfolding first_less
list_lt lt xs [] = false
list_lt lt [] (y ∷ ys) = true
list_lt lt (x ∷ xs) (y ∷ ys) = first_less (lt x y) (lt y x) (list_lt lt xs ys)

-- `<` of two `short`s, by their patterns.
pub short_lt : ℕ → ℕ → Bool
short_lt a b = ltb ((a + 2 ^ 15) % 2 ^ 16) ((b + 2 ^ 15) % 2 ^ 16)

pub record FloatOrder : Type 0 where
  pub eq : ℕ → ℕ → Bool
  pub lt : ℕ → ℕ → Bool
  pub lt_asym : (a b : ℕ) → lt a b ≡ true → lt b a ≡ false

-- `Watcher::operator==` and `operator<`
pub watcher_eq : Watcher → Watcher → Bool
watcher_eq a b = a.id == b.id && eqb_ℤ a.time b.time && bytes_beq a.name b.name

pub watcher_lt : Watcher → Watcher → Bool
unfolding first_less list_lt short_lt
watcher_lt a b =
    first_less (short_lt a.id b.id) (short_lt b.id a.id)
      (first_less (ltb_ℤ a.time b.time) (ltb_ℤ b.time a.time) (list_lt ltb a.name b.name))

module _ (f : FloatOrder) where
  -- `Position::operator==` and `operator<`
  pub position_eq : Position → Position → Bool
  position_eq a b =
      f.eq a.latitude b.latitude && f.eq a.longitude b.longitude && eqb_ℤ a.time b.time

  pub position_lt : Position → Position → Bool
  unfolding first_less
  position_lt a b = first_less (f.lt a.latitude b.latitude) (f.lt b.latitude a.latitude) (
      first_less (f.lt a.longitude b.longitude) (f.lt b.longitude a.longitude)
        (ltb_ℤ a.time b.time))

  -- `ClientData::operator==`, which does not read the name.
  pub client_eq : ClientData → ClientData → Bool
  unfolding list_eq position_eq watcher_eq
  client_eq a b =
      bytes_beq a.public_key b.public_key
      && list_eq position_eq a.positions b.positions
      && list_eq ◌==◌ a.followers b.followers
      && list_eq watcher_eq a.following b.following

  -- `ClientData::operator<`
  pub client_lt : ClientData → ClientData → Bool
  unfolding first_less list_lt position_lt watcher_lt short_lt
  client_lt a b =
      first_less (list_lt ltb a.public_key b.public_key) (list_lt ltb b.public_key a.public_key) (
        first_less (list_lt ltb a.name b.name) (list_lt ltb b.name a.name) (
          first_less (list_lt position_lt a.positions b.positions)
            (list_lt position_lt b.positions a.positions)
            (first_less (list_lt short_lt a.followers b.followers)
              (list_lt short_lt b.followers a.followers)
              (list_lt watcher_lt a.following b.following))))

  -- `!=`, `>`, `<=` and `>=`, which are made of these in each of the three classes.
  pub client_ne : ClientData → ClientData → Bool
  client_ne a b = not (client_eq b a)

  pub client_gt : ClientData → ClientData → Bool
  client_gt a b = client_lt b a

  pub client_le : ClientData → ClientData → Bool
  client_le a b = not (client_lt b a)

  pub client_ge : ClientData → ClientData → Bool
  client_ge a b = not (client_lt a b)

-- A comparison that does not hold both ways.
abbrev pub IsAsymmetric {ℓ} : {A : Type ℓ} → (A → A → Bool) → Type ℓ
IsAsymmetric {A} lt = (a b : A) → lt a b ≡ true → lt b a ≡ false

first_less_asym :
    (less greater rest rest' : Bool)
    → (less ≡ true → greater ≡ false)
    → (rest ≡ true → rest' ≡ false)
    → first_less less greater rest ≡ true
    → first_less greater less rest' ≡ false
unfolding first_less
first_less_asym true greater rest rest' h g e = rw (h refl)
first_less_asym false true rest rest' h g e = cc
first_less_asym false false rest rest' h g e = g e

list_lt_asym {ℓ} : {A : Type ℓ} (lt : A → A → Bool) → IsAsymmetric lt → IsAsymmetric (list_lt lt)
unfolding list_lt
list_lt_asym lt h xs [] e = cc
list_lt_asym lt h [] (y ∷ ys) e = refl
list_lt_asym lt h (x ∷ xs) (y ∷ ys) e =
    first_less_asym (lt x y) (lt y x) (list_lt lt xs ys) (list_lt lt ys xs) (h x y)
      (list_lt_asym lt h xs ys) e

ltb_asym : IsAsymmetric ltb
ltb_asym a b h = ground arith

short_lt_asym : IsAsymmetric short_lt
unfolding short_lt
short_lt_asym a b h = ground arith

ltb_ℤ_asym : IsAsymmetric ltb_ℤ
ltb_ℤ_asym a b h = ground arith

watcher_lt_asym : IsAsymmetric watcher_lt
unfolding watcher_lt
watcher_lt_asym a b =
    first_less_asym _ _ _ _ (short_lt_asym a.id b.id)
      (first_less_asym _ _ _ _ (ltb_ℤ_asym a.time b.time) (list_lt_asym ltb ltb_asym a.name b.name))

module _ (f : FloatOrder) where
  position_lt_asym : IsAsymmetric (position_lt f)
  unfolding position_lt
  position_lt_asym a b =
      first_less_asym _ _ _ _ (f.lt_asym a.latitude b.latitude)
        (first_less_asym _ _ _ _ (f.lt_asym a.longitude b.longitude) (ltb_ℤ_asym a.time b.time))

  -- Of two clients, at most one is less than the other, whatever floats they hold.
  pub client_lt_asym : IsAsymmetric (client_lt f)
  unfolding client_lt
  client_lt_asym a b =
      first_less_asym _ _ _ _ (list_lt_asym ltb ltb_asym a.public_key b.public_key) (
        first_less_asym _ _ _ _ (list_lt_asym ltb ltb_asym a.name b.name) (
          first_less_asym _ _ _ _
            (list_lt_asym (position_lt f) position_lt_asym a.positions b.positions)
            (first_less_asym _ _ _ _ (list_lt_asym short_lt short_lt_asym a.followers b.followers)
              (list_lt_asym watcher_lt watcher_lt_asym a.following b.following))))
