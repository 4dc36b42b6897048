-- ===== src/Database/Manager/Names.antt =====
-- The names that a client is told.
use tin_locus.Base.{
  ℕ, ◌≡◌, refl, subst, inl, inr, List, [], ◌∷◌, Option, none, some, arith, nat_eq, bytes_eq, Result,
  ok, throws, undefined, ◌>>=◌, Option-cases,
}
use tin_locus.Base.Dict.{Dict, lookup, modify, lookup-modify_self, beq_self}
use tin_locus.Database.ClientData.{ClientData, Watcher}
use tin_locus.Database.Manager.{Manager, names_loop, get_new_names, set_following}
use tin_locus.Database.Manager.Graph.{lookup-modify}

abbrev name_in : Option ClientData → Option (List ℕ)
name_in none = none
name_in (some c) = some c.name

-- A second round over the watchers that a first one left, with the same names.
abbrev Settled : Dict ℕ ClientData → Result (List (ℕ × List ℕ) × List Watcher) → Type 0
Settled d (ok (news, ws)) = names_loop d ws ≡ ok ([], ws)
Settled d throws = Unit {0}
Settled d undefined = Unit {0}

names_loop-Settled :
    (d d' : Dict ℕ ClientData)
    → ((a : ℕ) → name_in (lookup a d') ≡ name_in (lookup a d))
    → (ws : List Watcher) → Settled d' (names_loop d ws)
unfolding names_loop
names_loop-Settled d d' h [] = refl
names_loop-Settled d d' h (w ∷ ws) = elim (Option-cases (lookup w.id d)) [
  | inl e ↦ ground arith
  | inr (c, e) ↦ elim (Option-cases (lookup w.id d')) [
    | inl e' ↦ absurd (missing c e e')
    | inr (c', e') ↦
        ground (arith, h w.id, names_loop-Settled d d' h ws, beq_self {A = List ℕ} c'.name)
  ]
]
  where
    missing : (c : ClientData) → lookup w.id d ≡ some c → lookup w.id d' ≡ none → ⊥
    missing c e e' = ground (arith, h w.id)

same_names :
    (id : ℕ) (ws : List Watcher) (d : Dict ℕ ClientData) (a : ℕ)
    → name_in (lookup a (modify id (set_following ws) d)) ≡ name_in (lookup a d)
same_names id ws d a = elim (Option-cases (lookup a d)) [
  | inl e ↦ ground (arith, lookup-modify id a (set_following ws) d)
  | inr (c, e) ↦ ground (arith, lookup-modify id a (set_following ws) d)
]

abbrev written : ℕ → Manager → List Watcher → Manager
written id m ws = record m { clients_data = modify id (set_following ws) m.clients_data }

abbrev report :
    ℕ → Manager → Result (List (ℕ × List ℕ) × List Watcher) → Result (List (ℕ × List ℕ) × Manager)
report id m r = r >>= λ (found, ws). ok (found, written id m ws)

second_round :
    (id : ℕ) (m : Manager) (c : ClientData) (ws : List Watcher) (news : List (ℕ × List ℕ))
    → lookup id m.clients_data ≡ some c
    → names_loop m.clients_data c.following ≡ ok (news, ws)
    → get_new_names id (written id m ws) ≡ ok ([], written id (written id m ws) ws)
unfolding get_new_names
second_round id m c ws news e first =
    rw (lookup-modify_self id (set_following ws) m.clients_data, e, settled)
  where
    settled : names_loop (written id m ws).clients_data ws ≡ ok ([], ws)
    settled = rw first at (
        names_loop-Settled m.clients_data (written id m ws).clients_data
          (same_names id ws m.clients_data) c.following)

first_round :
    (id : ℕ) (m n : Manager) (c : ClientData) (r : Result (List (ℕ × List ℕ) × List Watcher))
    (news : List (ℕ × List ℕ))
    → lookup id m.clients_data ≡ some c
    → names_loop m.clients_data c.following ≡ r
    → report id m r ≡ ok (news, n)
    → (n' : Manager) × (get_new_names id n ≡ ok ([], n'))
first_round id m n c throws news e er h = absurd (cc)
first_round id m n c undefined news e er h = absurd (cc)
first_round id m n c (ok (found, ws)) news e er h = (
  written id (written id m ws) ws,
  subst (λ k. get_new_names id k ≡ ok ([], written id (written id m ws) ws)) (cc)
      (second_round id m c ws found e er),
)

-- `getNewNames` once more, before anything else changes, reports nothing.
pub get_new_names_twice :
    (id : ℕ) (m n : Manager) (news : List (ℕ × List ℕ))
    → get_new_names id m ≡ ok (news, n)
    → (n' : Manager) × (get_new_names id n ≡ ok ([], n'))
unfolding get_new_names
get_new_names_twice id m n news h = elim (Option-cases (lookup id m.clients_data)) [
  | inl e ↦ absurd (missing e)
  | inr (c, e) ↦
      first_round id m n c (names_loop m.clients_data c.following) news e refl (rw e at h)
]
  where
    missing : lookup id m.clients_data ≡ none → ⊥
    missing e = ground (arith, h)
