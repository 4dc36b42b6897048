-- ===== src/Database/Manager/Calls/Updates.antt =====
-- What each call leaves, call by call.
use tin_locus.Base.{
  ℕ, ◌≡◌, refl, sym, ap, ◌∙◌, ◌⊎◌, inl, inr, List, [], ◌∷◌, none, some, arith, nat_eq, bytes_eq,
  Result, ok, throws, undefined, ◌>>=◌, Option-cases,
}
use tin_locus.Base.Int.{ℤ}
use tin_locus.Base.Dict.{Dict, lookup, modify, insert, lookup-modify_self}
use tin_locus.Database.ClientData.{ClientData, Watcher}
use tin_locus.Database.ClientData
use tin_locus.Database.Manager.{
  Manager, register_client, unregister, add_follower, remove_follower, stop_following, add_position,
  set_name, get_new_names, get_new_positions, names_loop, positions_loop, set_following,
}
use tin_locus.Database.Manager.Graph.{
  ids, count, following_in, followers_of, following_of, lookup-modify, lookup-insert,
}
use tin_locus.Database.Manager.Mutual.{
  IsMutual, added-IsMutual, removed-IsMutual, stopped-IsMutual, removed, stopped,
}
use tin_locus.Database.Manager.Reports.{
  AllKnown, Reports, names_loop-Reports, positions_loop-Reports, following-AllKnown,
}
use tin_locus.Database.Manager.Calls.{Call, call, Mirrors}

-- A write to one client that keeps both of its lists.
pub modify-IsMutual :
    (k : ℕ) (g : ClientData → ClientData) (d : Dict ℕ ClientData)
    → ((c : ClientData)
        → lookup k d ≡ some c
        → ((g c).followers ≡ c.followers) × (ids (g c).following ≡ ids c.following))
    → IsMutual d
    → IsMutual (modify k g d)
modify-IsMutual k g d same h a b =
    ap (count b) (followers-same a) ∙ h a b ∙ sym (ap (count a) (following-same b))
  where
    followers-same : (a : ℕ) → followers_of (modify k g d) a ≡ followers_of d a
    followers-same a = elim (Option-cases (lookup a d)) [
      | inl e ↦ ground (arith, lookup-modify k a g d)
      | inr (c, e) ↦ ground (arith, lookup-modify k a g d, same c)
    ]

    following-same : (a : ℕ) → following_of (modify k g d) a ≡ following_of d a
    following-same a = elim (Option-cases (lookup a d)) [
      | inl e ↦ ground (arith, lookup-modify k a g d)
      | inr (c, e) ↦ ground (arith, lookup-modify k a g d, same c)
    ]

-- A client that is new follows nobody, and nobody follows it.
insert-IsMutual :
    (k : ℕ) (key : List ℕ) (d : Dict ℕ ClientData)
    → IsMutual d
    → IsMutual (insert k (ClientData.new_client key) d)
unfolding ClientData.new_client
insert-IsMutual k key d h a b =
    ap (count b) (followers-same a) ∙ h a b ∙ sym (ap (count a) (following-same b))
  where
    followers-same :
        (a : ℕ) → followers_of (insert k (ClientData.new_client key) d) a ≡ followers_of d a
    followers-same a = elim (Option-cases (lookup a d)) [
      | inl e ↦ ground (arith, lookup-insert k a (ClientData.new_client key) d)
      | inr (c, e) ↦ ground (arith, lookup-insert k a (ClientData.new_client key) d)
    ]

    following-same :
        (a : ℕ) → following_of (insert k (ClientData.new_client key) d) a ≡ following_of d a
    following-same a = elim (Option-cases (lookup a d)) [
      | inl e ↦ ground (arith, lookup-insert k a (ClientData.new_client key) d)
      | inr (c, e) ↦ ground (arith, lookup-insert k a (ClientData.new_client key) d)
    ]

pub register_client-IsMutual :
    (key : List ℕ) (queue : ℕ) (m : Manager)
    → IsMutual m.clients_data
    → IsMutual (register_client key queue m).1.clients_data
unfolding register_client
register_client-IsMutual key queue m h = elim (Option-cases (lookup key m.clients_id)) [
  | inl e ↦ rw (e, register_client) (insert-IsMutual m.next_id key m.clients_data h)
  | inr (id, e) ↦ rw (e, register_client) h
]

pub add_follower-Mirrors :
    (my f : ℕ) (m : Manager)
    → IsMutual m.clients_data
    → Mirrors (my ∷ f ∷ []) m (call (Call.adds_follower my f) m)
unfolding call add_follower
add_follower-Mirrors my f m h = elim (Option-cases (lookup my m.clients_data)) [
  | inl e ↦ rw e (λ k. k.0 e)
  | inr (c, e) ↦ elim (Option-cases (lookup f m.clients_data)) [
    | inl e' ↦ rw (e, e') (λ k. k.1.0 e')
    | inr (c', e') ↦ rw (e, e') (added-IsMutual my f m.clients_data c c' e e' h)
  ]
]

-- The two calls that take an edge out fail alike and write alike.
edge_removal-Mirrors :
    (a b : ℕ) (m n : Manager)
    → IsMutual n.clients_data
    → (r : Result Manager)
    → ((c e : ClientData)
        → lookup a m.clients_data ≡ some c
        → lookup b m.clients_data ≡ some e
        → r ≡ ok n)
    → ((lookup a m.clients_data ≡ none) ⊎ (lookup b m.clients_data ≡ none) → r ≡ undefined)
    → Mirrors (a ∷ b ∷ []) m r
edge_removal-Mirrors a b m n h r done missing = elim (Option-cases (lookup a m.clients_data)) [
  | inl e ↦ rw (missing (inl e)) (λ k. k.0 e)
  | inr (c, e) ↦ elim (Option-cases (lookup b m.clients_data)) [
    | inl e' ↦ rw (missing (inr e')) (λ k. k.1.0 e')
    | inr (c', e') ↦ rw (done c c' e e') h
  ]
]

pub remove_follower-Mirrors :
    (my f : ℕ) (m : Manager)
    → IsMutual m.clients_data
    → Mirrors (my ∷ f ∷ []) m (remove_follower my f m)
unfolding remove_follower
remove_follower-Mirrors my f m h =
    edge_removal-Mirrors my f m (record m { clients_data = removed my f m.clients_data })
      (removed-IsMutual my f m.clients_data h) (remove_follower my f m) (λ c e p q. rw (p, q))
      (λ n. ground arith)

pub stop_following-Mirrors :
    (my f : ℕ) (m : Manager)
    → IsMutual m.clients_data
    → Mirrors (my ∷ f ∷ []) m (stop_following my f m)
unfolding stop_following
stop_following-Mirrors my f m h =
    edge_removal-Mirrors my f m (record m { clients_data = stopped f my m.clients_data })
      (stopped-IsMutual f my m.clients_data h) (stop_following my f m) (λ c e p q. rw (p, q))
      (λ n. ground arith)

pub add_position-Mirrors :
    (my latitude longitude : ℕ) (time : ℤ) (m : Manager)
    → IsMutual m.clients_data
    → Mirrors (my ∷ []) m (call (Call.adds_position my latitude longitude time) m)
unfolding call add_position ClientData.add_position
add_position-Mirrors my latitude longitude time m h =
    elim (Option-cases (lookup my m.clients_data)) [
      | inl e ↦ rw e (λ k. k.0 e)
      | inr (c, e) ↦
          rw
            (
              e,
              lookup-modify_self my (ClientData.add_position latitude longitude time)
                  m.clients_data,
              e,
            )
            (modify-IsMutual my _ m.clients_data (λ c p. (refl, refl)) h)
    ]

pub set_name-Mirrors :
    (my : ℕ) (name : List ℕ) (m : Manager)
    → IsMutual m.clients_data
    → Mirrors (my ∷ []) m (call (Call.sets_name my name) m)
unfolding call set_name ClientData.set_name
set_name-Mirrors my name m h = elim (Option-cases (lookup my m.clients_data)) [
  | inl e ↦ rw e (λ k. k.0 e)
  | inr (c, e) ↦ elim (Option-cases (lookup name m.clients_name)) [
    | inl free ↦
        rw (e, free, lookup-modify_self my (ClientData.set_name name) m.clients_data, e)
          (modify-IsMutual my _ m.clients_data (λ c p. (refl, refl)) h)
    | inr (id, taken) ↦ rw (e, taken) h
  ]
]

-- The two reports end alike: the watchers of the client are written back.
report-Mirrors {ℓ} :
    {A : Type ℓ} (id : ℕ) (m : Manager) (c : ClientData) (r : Result (A × List Watcher))
    → lookup id m.clients_data ≡ some c
    → Reports c.following r
    → IsMutual m.clients_data
    → Mirrors (id ∷ []) m (
        (r >>= λ (news, ws).
        ok (news, record m { clients_data = modify id (set_following ws) m.clients_data }))
        >>= λ (news, n). ok n)
report-Mirrors id m c (ok (news, ws)) e same h =
    modify-IsMutual id (set_following ws) m.clients_data
      (λ c' p. (refl, same ∙ ap following_in (sym e ∙ p))) h
report-Mirrors id m c throws e same h = absurd same
report-Mirrors id m c undefined e same h = absurd same

known_following :
    (id : ℕ) (m : Manager) (c : ClientData)
    → IsMutual m.clients_data
    → lookup id m.clients_data ≡ some c
    → AllKnown m.clients_data (ids c.following)
known_following id m c h e = rw (ap following_in e) at (following-AllKnown m.clients_data h id)

pub get_new_names-Mirrors :
    (id : ℕ) (m : Manager)
    → IsMutual m.clients_data
    → Mirrors (id ∷ []) m (call (Call.gets_names id) m)
unfolding call get_new_names
get_new_names-Mirrors id m h = elim (Option-cases (lookup id m.clients_data)) [
  | inl e ↦ rw e (λ k. k.0 e)
  | inr (c, e) ↦ rw e (
      report-Mirrors id m c (names_loop m.clients_data c.following) e
        (names_loop-Reports m.clients_data c.following (known_following id m c h e)) h)
]

pub get_new_positions-Mirrors :
    (id : ℕ) (m : Manager)
    → IsMutual m.clients_data
    → Mirrors (id ∷ []) m (call (Call.gets_positions id) m)
unfolding call get_new_positions
get_new_positions-Mirrors id m h = elim (Option-cases (lookup id m.clients_data)) [
  | inl e ↦ rw e (λ k. k.0 e)
  | inr (c, e) ↦ rw e (
      report-Mirrors id m c (positions_loop m.clients_data c.following) e
        (positions_loop-Reports m.clients_data c.following (known_following id m c h e)) h)
]

pub unregister-IsMutual :
    (id : ℕ) (m : Manager) → IsMutual m.clients_data → IsMutual (unregister id m).clients_data
unfolding unregister
unregister-IsMutual id m h = h
