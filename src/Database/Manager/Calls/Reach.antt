-- ===== src/Database/Manager/Calls/Reach.antt =====
-- A position on its way: from the client that reports it, over the notice of its followers, to what
-- `getNewPositions` tells one of them.
use tin_locus.Base.{
  ℕ, ◌<◌, ◌≡◌, ◌≢◌, refl, sym, ap, subst, ◌∙◌, inl, inr, List, [], ◌∷◌, ◌++◌, Option, none, some,
  arith, nat_eq, ok, Option-cases,
}
use tin_locus.Base.Dict.{Dict, lookup, modify, key-cases}
use tin_locus.Database.ClientData.{ClientData, Watcher, Position}
use tin_locus.Database.Manager.{Manager, add_position, queues_of, get_new_positions, set_following}
use tin_locus.Database.Manager.Graph.{
  count, ids, following_of, followers_of, followers_in, following_in,
}
use tin_locus.Database.Manager.Mutual.{IsMutual}
use tin_locus.Database.Manager.Reports.{AllKnown, following-AllKnown}
use tin_locus.Database.Manager.Notices.{add_position_lem}
use tin_locus.Database.Manager.Calls.Reported.{Has, AllOlder, queues_of-Has, loop-Has}

-- A client that has somebody among its followers is followed by that one, who is there.
follower :
    (d : Dict ℕ ClientData) (a b : ℕ) (c : ClientData)
    → IsMutual d
    → lookup b d ≡ some c
    → 0 < count a c.followers
    → (e : ClientData) × (lookup a d ≡ some e) × (0 < count b (ids e.following))
follower d a b c mirrored there follows =
    let link : count a c.followers ≡ count b (following_of d a) =
      ap (λ (o : Option ClientData). count a (followers_in o)) (sym there) ∙ mirrored b a in
    elim (Option-cases (lookup a d)) [
      | inl missing ↦ absurd (
          omega (
            arith,
            follows,
            link,
            ap (λ (o : Option ClientData). count b (following_in o)) missing,
          ))
      | inr (e, h) ↦ (
        e,
        h,
        omega (arith, follows, link, ap (λ (o : Option ClientData). count b (following_in o)) h),
      )
    ]

-- What `addPosition` and the next `getNewPositions` of a follower owe.
pub record IsReached (a b : ℕ) (p : Position) (m : Manager) : Type 0 where
  pub after : Manager
  pub notices : List ℕ
  pub news : List (ℕ × Position)
  pub told : Manager
  pub added : add_position b p.latitude p.longitude p.time m ≡ ok (after, notices)
  pub notified : (q : ℕ) → lookup a m.clients_queue ≡ some q → Has q notices
  pub answered : get_new_positions a after ≡ ok (news, told)
  pub reported : Has (b, p) news

abbrev pub watchers_in : Option ClientData → List Watcher
watchers_in none = []
watchers_in (some e) = e.following

ids-watchers_in : (o : Option ClientData) → following_in o ≡ ids (watchers_in o)
ids-watchers_in none = refl
ids-watchers_in (some e) = refl

-- A database in which one client has another position, and nothing else differs.
module _ (b : ℕ) (c c' : ClientData) (m n : Manager) (same_followers : c'.followers ≡ c.followers)
    (same_following : c'.following ≡ c.following) (there : lookup b m.clients_data ≡ some c)
    (moved : lookup b n.clients_data ≡ some c')
    (others : (x : ℕ) → x ≢ b → lookup x n.clients_data ≡ lookup x m.clients_data) where
  same_lists :
      (x : ℕ)
      → (followers_of n.clients_data x ≡ followers_of m.clients_data x)
        × (watchers_in (lookup x n.clients_data) ≡ watchers_in (lookup x m.clients_data))
  same_lists x = elim (key-cases x b) [
    | inl same ↦ rw same (
      ap followers_in moved ∙ same_followers ∙ sym (ap followers_in there),
      ap watchers_in moved ∙ same_following ∙ sym (ap watchers_in there),
    )
    | inr other ↦ (ap followers_in (others x other), ap watchers_in (others x other))
  ]

  same-IsMutual : IsMutual m.clients_data → IsMutual n.clients_data
  same-IsMutual mirrored x y =
      ap (count y) (same_lists x).0
      ∙ mirrored x y
      ∙ ap (count x) (
          ids-watchers_in (lookup y m.clients_data)
          ∙ ap ids (sym (same_lists y).1)
          ∙ sym (ids-watchers_in (lookup y n.clients_data)))

-- Where the follower graph is mirrored, a position that a client with a name reports reaches each of
-- its followers: a follower that is connected is notified, and the next `getNewPositions` of the
-- follower returns the position under the identifier of the client, if it is newer than what the
-- follower was told of the client before.
pub location_reaches :
    (a b : ℕ) (p : Position) (m : Manager) (c : ClientData)
    → IsMutual m.clients_data
    → lookup b m.clients_data ≡ some c
    → c.name ≢ []
    → 0 < count a c.followers
    → AllOlder b p.time (watchers_in (lookup a m.clients_data))
    → IsReached a b p m
unfolding get_new_positions
location_reaches a b p m c mirrored there named follows older =
    let (n, added, moved, others) = add_position_lem b p.latitude p.longitude p.time m c there in
    let c' : ClientData = record c { positions = c.positions ++ p ∷ [] } in
    let mirrored' = same-IsMutual b c c' m n refl refl there moved others mirrored in
    let (e, h, cnt) = follower n.clients_data a b c' mirrored' moved follows in
    let known =
      subst (AllKnown n.clients_data) (ap following_in h)
        (following-AllKnown n.clients_data mirrored' a) in
    let still_older =
      subst (AllOlder b p.time)
        (sym ((same_lists b c c' m n refl refl there moved others a).1) ∙ ap watchers_in h) older in
    let (news, ws, f, has) =
      loop-Has n.clients_data b c' c.positions p moved named refl e.following known still_older
        cnt in
    record {
      after = n;
      notices = queues_of m.clients_queue c.followers;
      news = news;
      told = record n { clients_data = modify a (set_following ws) n.clients_data };
      added = added;
      notified = λ q connected. queues_of-Has m.clients_queue a q c.followers follows connected;
      answered = rw (h, f);
      reported = has;
    }
