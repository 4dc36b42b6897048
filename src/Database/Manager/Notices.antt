-- ===== src/Database/Manager/Notices.antt =====
-- What a client is told of those it follows.
use tin_locus.Base.{
  ℕ, ◌≡◌, ◌≢◌, refl, List, [], ◌∷◌, ◌++◌, some, arith, if◌then◌else◌, nat_eq, bytes_eq, ok,
}
use tin_locus.Base.Int.{ℤ, ltb_ℤ}
use tin_locus.Base.Dict.{lookup, modify, lookup-modify_self, lookup-modify_ne}
use tin_locus.Database.ClientData.{ClientData, Watcher, Position}
use tin_locus.Database.ClientData
use tin_locus.Database.Manager.{Manager, add_position, queues_of, watched, last_position, is_nil}

-- A new position goes to the end of the client's own list and to nobody else's, and those of the
-- client's followers are notified that are connected.
pub add_position_lem :
    (my latitude longitude : ℕ) (time : ℤ) (m : Manager) (c : ClientData)
    → lookup my m.clients_data ≡ some c
    → let p : Position = record { latitude = latitude; longitude = longitude; time = time } in
      (n : Manager) × (add_position my latitude longitude time m
        ≡ ok (n, queues_of m.clients_queue c.followers))
      × (lookup my n.clients_data ≡ some (record c { positions = c.positions ++ p ∷ [] }))
      × ((a : ℕ) → a ≢ my → lookup a n.clients_data ≡ lookup a m.clients_data)
unfolding add_position ClientData.add_position
add_position_lem my latitude longitude time m c e =
    let written =
      lookup-modify_self my (ClientData.add_position latitude longitude time) m.clients_data in
    (
      record m {
        clients_data = modify my (ClientData.add_position latitude longitude time) m.clients_data;
      },
      rw (e, written, e),
      rw (written, e),
      λ a ne. lookup-modify_ne my a _ m.clients_data ne,
    )

-- `getNewPositions` tells of a named client only its last position, and only if it is newer than
-- what was told before: once if it is the only one, and three times otherwise.
pub watched_lem :
    (w : Watcher) (name : List ℕ) (p : Position) (ps : List Position)
    → name ≢ []
    → let q = last_position p ps in
      (watched w name (p ∷ ps)).0 ≡ (
        if ltb_ℤ w.time q.time
        then if is_nil ps then (w.id, q) ∷ [] else (w.id, q) ∷ (w.id, q) ∷ (w.id, q) ∷ []
        else [])
unfolding watched
watched_lem w [] p ps h = absurd (h refl)
watched_lem w (x ∷ name) p ps h = ground arith

-- What was told once is not told again.
pub watched_twice :
    (w : Watcher) (name : List ℕ) (ps : List Position)
    → (watched (watched w name ps).1 name ps).0 ≡ []
unfolding watched
watched_twice w name [] = refl
watched_twice w name (p ∷ ps) = ground arith
