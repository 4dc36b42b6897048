-- ===== src/Database/Manager/Mutual.antt =====
-- The two lists of the graph mirror each other: `b` follows `a` as often as `a` has the follower `b`.
use tin_locus.Base.{
  ℕ, ◌+◌, ◌≡◌, sym, ap, ◌∙◌, inl, inr, some, arith, ◌==◌, if◌then◌else◌, nat_eq, Option-cases,
}
use tin_locus.Base.Dict.{Dict, lookup, modify}
use tin_locus.Database.ClientData.{ClientData, Watcher, remove, remove_watcher}
use tin_locus.Database.ClientData
use tin_locus.Database.Manager.Graph.{
  count, ids, followers_of, following_of, count-snoc, ids-snoc, count-remove, ids-remove_watcher,
  lookup-modify,
}

abbrev pub IsMutual : Dict ℕ ClientData → Type 0
IsMutual d = (a b : ℕ) → count b (followers_of d a) ≡ count a (following_of d b)

-- The count that one new edge adds.
abbrev pub edge : ℕ → ℕ → ℕ → ℕ → ℕ
edge my f a b = if my == a then if f == b then 1 else 0 else 0

module _ (my f : ℕ) (d : Dict ℕ ClientData) where
  abbrev pub added : Dict ℕ ClientData
  added = modify f (ClientData.start_following my) (modify my (ClientData.add_follower f) d)

  pub followers-added :
      (a b : ℕ) (c : ClientData)
      → lookup my d ≡ some c
      → count b (followers_of added a) ≡ count b (followers_of d a) + edge my f a b
  unfolding ClientData.start_following ClientData.add_follower
  followers-added a b c e = ground (
    arith,
    lookup-modify f a (ClientData.start_following my) (modify my (ClientData.add_follower f) d),
    lookup-modify my a (ClientData.add_follower f) d,
    count-snoc b f c.followers,
  )

  pub following-added :
      (a b : ℕ) (c : ClientData)
      → lookup f d ≡ some c
      → count a (following_of added b) ≡ count a (following_of d b) + edge my f a b
  unfolding ClientData.start_following ClientData.add_follower
  following-added a b c e = ground (
    arith,
    lookup-modify f b (ClientData.start_following my) (modify my (ClientData.add_follower f) d),
    lookup-modify my b (ClientData.add_follower f) d,
    ids-snoc c.following (ClientData.new_watcher my),
    count-snoc a my (ids c.following),
  )

  pub added-IsMutual :
      (c e : ClientData) → lookup my d ≡ some c → lookup f d ≡ some e → IsMutual d → IsMutual added
  added-IsMutual c e hc he h a b =
      followers-added a b c hc
      ∙ ap (λ (n : ℕ). n + edge my f a b) (h a b)
      ∙ sym (following-added a b e he)

  -- Both of `removeFollower` and of `stopFollowing`, the latter with the roles exchanged.
  abbrev pub removed : Dict ℕ ClientData
  removed = modify f (ClientData.stop_following my) (modify my (ClientData.remove_follower f) d)

  abbrev pub stopped : Dict ℕ ClientData
  stopped = modify my (ClientData.remove_follower f) (modify f (ClientData.stop_following my) d)

  -- What is left of a count when the edge is taken out.
  abbrev without : ℕ → ℕ → ℕ → ℕ
  without a b n = if my == a then if f == b then 0 else n else n

  followers-removed :
      (a b : ℕ)
      → (count b (followers_of removed a) ≡ without a b (count b (followers_of d a)))
        × (count b (followers_of stopped a) ≡ without a b (count b (followers_of d a)))
  unfolding ClientData.stop_following ClientData.remove_follower
  followers-removed a b = elim (Option-cases (lookup a d)) [
    | inl e ↦ ground (
      arith,
      lookup-modify f a (ClientData.stop_following my) (modify my (ClientData.remove_follower f) d),
      lookup-modify my a (ClientData.remove_follower f) d,
      lookup-modify my a (ClientData.remove_follower f) (modify f (ClientData.stop_following my) d),
      lookup-modify f a (ClientData.stop_following my) d,
    )
    | inr (c, e) ↦ ground (
      arith,
      lookup-modify f a (ClientData.stop_following my) (modify my (ClientData.remove_follower f) d),
      lookup-modify my a (ClientData.remove_follower f) d,
      lookup-modify my a (ClientData.remove_follower f) (modify f (ClientData.stop_following my) d),
      lookup-modify f a (ClientData.stop_following my) d,
      count-remove b f c.followers,
    )
  ]

  following-removed :
      (a b : ℕ)
      → (count a (following_of removed b) ≡ without a b (count a (following_of d b)))
        × (count a (following_of stopped b) ≡ without a b (count a (following_of d b)))
  unfolding ClientData.stop_following ClientData.remove_follower
  following-removed a b = elim (Option-cases (lookup b d)) [
    | inl e ↦ ground (
      arith,
      lookup-modify f b (ClientData.stop_following my) (modify my (ClientData.remove_follower f) d),
      lookup-modify my b (ClientData.remove_follower f) d,
      lookup-modify my b (ClientData.remove_follower f) (modify f (ClientData.stop_following my) d),
      lookup-modify f b (ClientData.stop_following my) d,
    )
    | inr (c, e) ↦ ground (
      arith,
      lookup-modify f b (ClientData.stop_following my) (modify my (ClientData.remove_follower f) d),
      lookup-modify my b (ClientData.remove_follower f) d,
      lookup-modify my b (ClientData.remove_follower f) (modify f (ClientData.stop_following my) d),
      lookup-modify f b (ClientData.stop_following my) d,
      ids-remove_watcher my c.following,
      count-remove a my (ids c.following),
    )
  ]

  pub removed-IsMutual : IsMutual d → IsMutual removed
  removed-IsMutual h a b =
      (followers-removed a b).0 ∙ ap (without a b) (h a b) ∙ sym (following-removed a b).0

  pub stopped-IsMutual : IsMutual d → IsMutual stopped
  stopped-IsMutual h a b =
      (followers-removed a b).1 ∙ ap (without a b) (h a b) ∙ sym (following-removed a b).1
