-- ===== src/Database/Manager/Calls/Invariant.antt =====
-- What every history of calls keeps: a predicate of the manager that registering and renaming keep,
-- and that no write can break which leaves the keys and the names of the clients alone.
use tin_locus.Base.{
  ℕ, ◌≡◌, refl, ◌⊎◌, inl, inr, List, [], ◌∷◌, none, some, arith, nat_eq, bytes_eq, Result, ok,
  throws, undefined, ◌>>=◌, Option-cases,
}
use tin_locus.Base.Int.{ℤ}
use tin_locus.Base.Dict.{lookup, modify, insert, lookup-modify_self}
use tin_locus.Database.ClientData.{ClientData, Watcher}
use tin_locus.Database.ClientData
use tin_locus.Database.Manager.{
  Manager, register_client, add_follower, remove_follower, stop_following, add_position, set_name,
  get_new_names, get_new_positions, unregister, set_following, names_loop, positions_loop, without,
}
use tin_locus.Database.Manager.Calls.{Call, call}
use tin_locus.Database.Manager.Calls.History.{run}

-- A write that keeps the key and the name of a client.
abbrev pub KeepsCard : (ClientData → ClientData) → Type 0
KeepsCard f = (c : ClientData) → ((f c).public_key ≡ c.public_key) × ((f c).name ≡ c.name)

-- The outcome of `setName` for a name that is free.
abbrev pub renamed_manager : ℕ → List ℕ → Manager → ClientData → Manager
renamed_manager my name m c = record m {
  clients_name = insert name my (without c.name m.clients_name);
  clients_data = modify my (ClientData.set_name name) m.clients_data;
}

-- A predicate holds after a call that is defined.
abbrev pub Stays : (Manager → Type 0) → Result Manager → Type 0
Stays P (ok n) = P n
Stays P throws = Unit {0}
Stays P undefined = Unit {0}

module _ (P : Manager → Type 0)
    (registered : (key : List ℕ) (queue : ℕ) (m : Manager)
      → P m
      → P (register_client key queue m).1)
    (unregistered : (id : ℕ) (m : Manager) → P m → P (unregister id m))
    (modified : (k : ℕ) (g : ClientData → ClientData) (m : Manager)
      → KeepsCard g
      → P m
      → P (record m { clients_data = modify k g m.clients_data }))
    (renamed : (my : ℕ) (name : List ℕ) (m : Manager) (c : ClientData)
      → lookup my m.clients_data ≡ some c
      → lookup name m.clients_name ≡ none
      → P m
      → P (renamed_manager my name m c)) where
  -- A call that needs one client, and one that needs two.
  needs_one :
      (a : ℕ) (m : Manager) (r : Result Manager)
      → ((c : ClientData) → lookup a m.clients_data ≡ some c → Stays P r)
      → (lookup a m.clients_data ≡ none → r ≡ undefined)
      → Stays P r
  needs_one a m r there missing = elim (Option-cases (lookup a m.clients_data)) [
    | inl e ↦ rw (missing e) tt
    | inr (c, e) ↦ there c e
  ]

  needs_two :
      (a b j k : ℕ) (f g : ClientData → ClientData) (m : Manager) (r : Result Manager)
      → KeepsCard f
      → KeepsCard g
      → P m
      → ((c e : ClientData)
          → lookup a m.clients_data ≡ some c
          → lookup b m.clients_data ≡ some e
          → r ≡ ok (record m { clients_data = modify j f (modify k g m.clients_data) }))
      → ((lookup a m.clients_data ≡ none) ⊎ (lookup b m.clients_data ≡ none) → r ≡ undefined)
      → Stays P r
  needs_two a b j k f g m r same_f same_g h there missing =
      needs_one a m r
        (λ c e. needs_one b m r (λ c' e'. rw (there c c' e e') written) (λ e'. missing (inr e')))
        (λ e. missing (inl e))
    where
      written : P (record m { clients_data = modify j f (modify k g m.clients_data) })
      written =
          modified j f (record m { clients_data = modify k g m.clients_data }) same_f
            (modified k g m same_g h)

  add_follower-Stays : (my f : ℕ) (m : Manager) → P m → Stays P (call (Call.adds_follower my f) m)
  unfolding call add_follower ClientData.add_follower ClientData.start_following
  add_follower-Stays my f m h =
      needs_two my f f my (ClientData.start_following my) (ClientData.add_follower f) m
        (call (Call.adds_follower my f) m) (λ c. (refl, refl)) (λ c. (refl, refl)) h
        (λ c e p q. rw (p, q)) (λ k. ground arith)

  remove_follower-Stays : (my f : ℕ) (m : Manager) → P m → Stays P (remove_follower my f m)
  unfolding remove_follower ClientData.remove_follower ClientData.stop_following
  remove_follower-Stays my f m h =
      needs_two my f f my (ClientData.stop_following my) (ClientData.remove_follower f) m
        (remove_follower my f m) (λ c. (refl, refl)) (λ c. (refl, refl)) h (λ c e p q. rw (p, q))
        (λ k. ground arith)

  stop_following-Stays : (my f : ℕ) (m : Manager) → P m → Stays P (stop_following my f m)
  unfolding stop_following ClientData.remove_follower ClientData.stop_following
  stop_following-Stays my f m h =
      needs_two my f f my (ClientData.remove_follower my) (ClientData.stop_following f) m
        (stop_following my f m) (λ c. (refl, refl)) (λ c. (refl, refl)) h (λ c e p q. rw (p, q))
        (λ k. ground arith)

  add_position-Stays :
      (my latitude longitude : ℕ) (time : ℤ) (m : Manager)
      → P m
      → Stays P (call (Call.adds_position my latitude longitude time) m)
  unfolding call add_position ClientData.add_position
  add_position-Stays my latitude longitude time m h =
      needs_one my m (call (Call.adds_position my latitude longitude time) m)
        (λ c e.
          rw
            (
              e,
              lookup-modify_self my (ClientData.add_position latitude longitude time)
                  m.clients_data,
              e,
            )
            (modified my (ClientData.add_position latitude longitude time) m (λ c. (refl, refl)) h))
        (λ e. rw e)

  set_name-Stays :
      (my : ℕ) (name : List ℕ) (m : Manager) → P m → Stays P (call (Call.sets_name my name) m)
  unfolding call set_name ClientData.set_name
  set_name-Stays my name m h =
      needs_one my m (call (Call.sets_name my name) m)
        (λ c e. elim (Option-cases (lookup name m.clients_name)) [
          | inl free ↦
              rw (e, free, lookup-modify_self my (ClientData.set_name name) m.clients_data, e)
                (renamed my name m c e free h)
          | inr (id, taken) ↦ rw (e, taken) h
        ])
        (λ e. rw e)

  -- Both reports end alike: the watchers of the client are written back.
  report-Stays {ℓ} :
      {A : Type ℓ} (id : ℕ) (m : Manager) (r : Result (A × List Watcher))
      → P m
      → Stays P (
          (r >>= λ (news, ws).
          ok (news, record m { clients_data = modify id (set_following ws) m.clients_data }))
          >>= λ (news, n). ok n)
  report-Stays id m (ok (news, ws)) h = modified id (set_following ws) m (λ c. (refl, refl)) h
  report-Stays id m throws h = tt
  report-Stays id m undefined h = tt

  get_new_names-Stays : (id : ℕ) (m : Manager) → P m → Stays P (call (Call.gets_names id) m)
  unfolding call get_new_names
  get_new_names-Stays id m h =
      needs_one id m (call (Call.gets_names id) m)
        (λ c e. rw e (report-Stays id m (names_loop m.clients_data c.following) h)) (λ e. rw e)

  get_new_positions-Stays : (id : ℕ) (m : Manager) → P m → Stays P (call (Call.gets_positions id) m)
  unfolding call get_new_positions
  get_new_positions-Stays id m h =
      needs_one id m (call (Call.gets_positions id) m)
        (λ c e. rw e (report-Stays id m (positions_loop m.clients_data c.following) h)) (λ e. rw e)

  -- A call keeps the table, if it is defined.
  pub call-Stays : (c : Call) (m : Manager) → P m → Stays P (call c m)
  unfolding call unregister
  call-Stays (Call.registers key queue) m h = registered key queue m h
  call-Stays (Call.unregisters id) m h = unregistered id m h
  call-Stays (Call.adds_follower my f) m h = add_follower-Stays my f m h
  call-Stays (Call.removes_follower my f) m h = remove_follower-Stays my f m h
  call-Stays (Call.stops_following my f) m h = stop_following-Stays my f m h
  call-Stays (Call.adds_position my lat lon t) m h = add_position-Stays my lat lon t m h
  call-Stays (Call.sets_name my name) m h = set_name-Stays my name m h
  call-Stays (Call.gets_names id) m h = get_new_names-Stays id m h
  call-Stays (Call.gets_positions id) m h = get_new_positions-Stays id m h

  pub run-Stays : (cs : List Call) (m : Manager) → P m → Stays P (run cs m)
  unfolding run
  run-Stays [] m h = h
  run-Stays (c ∷ cs) m h = then_run (call c m) (call-Stays c m h) (run-Stays cs)
    where
      then_run :
          (r : Result Manager)
          → Stays P r
          → ((n : Manager) → P n → Stays P (run cs n))
          → Stays P (r >>= λ n. run cs n)
      then_run (ok n) k rest = rest n k
      then_run throws k rest = tt
      then_run undefined k rest = tt
