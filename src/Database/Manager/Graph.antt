-- ===== src/Database/Manager/Graph.antt =====
-- Who follows whom, read off the clients' data.
use tin_locus.Base.{
  ℕ, suc, ◌+◌, ◌≡◌, refl, List, [], ◌∷◌, ◌++◌, Option, none, some, arith, ◌==◌, if◌then◌else◌,
  nat_eq,
}
use tin_locus.Base.Dict.{Dict, lookup, modify, insert, map_option}
use tin_locus.Database.ClientData.{ClientData, Watcher, remove, remove_watcher}

-- How often a number stands in a list.
abbrev pub count : ℕ → List ℕ → ℕ
count x [] = 0
count x (y ∷ ys) = if y == x then suc (count x ys) else count x ys

abbrev pub ids : List Watcher → List ℕ
ids [] = []
ids (w ∷ ws) = w.id ∷ ids ws

abbrev pub followers_in : Option ClientData → List ℕ
followers_in none = []
followers_in (some c) = c.followers

abbrev pub following_in : Option ClientData → List ℕ
following_in none = []
following_in (some c) = ids c.following

abbrev pub followers_of : Dict ℕ ClientData → ℕ → List ℕ
followers_of d a = followers_in (lookup a d)

abbrev pub following_of : Dict ℕ ClientData → ℕ → List ℕ
following_of d a = following_in (lookup a d)

pub count-snoc :
    (x y : ℕ) (xs : List ℕ) → count x (xs ++ y ∷ []) ≡ count x xs + (if y == x then 1 else 0)
count-snoc x y [] = ground arith
count-snoc x y (z ∷ xs) = ground (arith, count-snoc x y xs)

pub ids-snoc : (ws : List Watcher) (w : Watcher) → ids (ws ++ w ∷ []) ≡ ids ws ++ w.id ∷ []
ids-snoc [] w = refl
ids-snoc (v ∷ ws) w = rw (ids-snoc ws w)

pub count-remove :
    (x y : ℕ) (xs : List ℕ) → count x (remove y xs) ≡ (if y == x then 0 else count x xs)
unfolding remove
count-remove x y [] = ground arith
count-remove x y (z ∷ xs) = ground (arith, count-remove x y xs)

pub ids-remove_watcher : (y : ℕ) (ws : List Watcher) → ids (remove_watcher y ws) ≡ remove y (ids ws)
unfolding remove remove_watcher
ids-remove_watcher y [] = refl
ids-remove_watcher y (w ∷ ws) = ground (arith, ids-remove_watcher y ws)

-- A write to one client, seen through `find`.
pub lookup-modify :
    (k a : ℕ) (f : ClientData → ClientData) (d : Dict ℕ ClientData)
    → lookup a (modify k f d) ≡ (if k == a then map_option f (lookup a d) else lookup a d)
unfolding lookup modify
lookup-modify k a f [] = ground arith
lookup-modify k a f ((j, c) ∷ d) = ground (arith, lookup-modify k a f d)

pub lookup-insert :
    (k a : ℕ) (v : ClientData) (d : Dict ℕ ClientData)
    → lookup a (insert k v d)
      ≡ (if k == a then some (elim (lookup a d) [ some w ↦ w | none ↦ v ]) else lookup a d)
unfolding lookup insert
lookup-insert k a v [] = ground arith
lookup-insert k a v ((j, c) ∷ d) = ground (arith, lookup-insert k a v d)
