-- ===== src/Database/Manager/Reports.antt =====
-- The loops of `getNewNames` and `getNewPositions`: they keep whom a client follows, and do not
-- throw, since every client that is followed is there.
use tin_locus.Base.{
  ℕ, ◌<◌, ◌≡◌, ◌≢◌, refl, ap, List, [], ◌∷◌, Option, none, arith, nat_eq, Result, ok, throws,
  undefined,
}
use tin_locus.Base.Dict.{Dict, lookup}
use tin_locus.Database.ClientData.{ClientData, Watcher}
use tin_locus.Database.Manager.{names_loop, positions_loop}
use tin_locus.Database.Manager.Graph.{ids, count, following_of, followers_in}
use tin_locus.Database.Manager.Mutual.{IsMutual}

-- Every identifier of a list has a client.
abbrev pub AllKnown : Dict ℕ ClientData → List ℕ → Type 0
AllKnown d [] = Unit {0}
AllKnown d (a ∷ rest) = (lookup a d ≢ none) × AllKnown d rest

-- A result is there, with the watchers in place.
abbrev pub Reports {ℓ} : {A : Type ℓ} → List Watcher → Result (A × List Watcher) → Type 0
Reports ws (ok (news, ws')) = ids ws' ≡ ids ws
Reports ws throws = ⊥
Reports ws undefined = ⊥

pub names_loop-Reports :
    (d : Dict ℕ ClientData) (ws : List Watcher) → AllKnown d (ids ws) → Reports ws (names_loop d ws)
unfolding names_loop
names_loop-Reports d [] h = refl
names_loop-Reports d (w ∷ ws) h = ground (arith, names_loop-Reports d ws h.1)

pub positions_loop-Reports :
    (d : Dict ℕ ClientData) (ws : List Watcher)
    → AllKnown d (ids ws)
    → Reports ws (positions_loop d ws)
unfolding positions_loop
positions_loop-Reports d [] h = refl
positions_loop-Reports d (w ∷ ws) h = ground (arith, positions_loop-Reports d ws h.1)

known_of_count :
    (d : Dict ℕ ClientData) (xs : List ℕ)
    → ((a : ℕ) → 0 < count a xs → lookup a d ≢ none)
    → AllKnown d xs
known_of_count d [] h = tt
known_of_count d (x ∷ xs) h = (h x (ground arith), known_of_count d xs (λ a p. h a (ground arith)))

-- In a mirrored graph a client that is followed is there: it has the other one as a follower.
pub following-AllKnown :
    (d : Dict ℕ ClientData) → IsMutual d → (b : ℕ) → AllKnown d (following_of d b)
following-AllKnown d h b = known_of_count d (following_of d b) (λ a p e. missing a p e)
  where
    missing : (a : ℕ) → 0 < count a (following_of d b) → lookup a d ≡ none → ⊥
    missing a p e =
        absurd (omega (arith, h a b, ap (λ (o : Option ClientData). count b (followers_in o)) e))
