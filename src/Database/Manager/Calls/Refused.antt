-- ===== src/Database/Manager/Calls/Refused.antt =====
-- The calls of the manager with the pushes of their notices: `priorityPush` throws when the pipe of a
-- queue refuses the byte. In ClientDataManager.cpp the pushes come last, after all writes.
use tin_locus.Base.{
  ℕ, ◌≡◌, refl, Bool, List, [], ◌∷◌, Result, ok, throws, undefined, ◌>>=◌, if◌then◌else◌,
  Bool-cases, inl, inr,
}
use tin_locus.Base.Step.{Step, pure, caught, then_on}
use tin_locus.Base.Step
use tin_locus.Database.Manager.{
  Manager, new, register_client, unregister, add_follower, remove_follower, stop_following,
  add_position, set_name, get_new_names, get_new_positions,
}
use tin_locus.Database.Manager.Mutual.{IsMutual}
use tin_locus.Database.Manager.Reports.{AllKnown}
use tin_locus.Database.Manager.Calls.{Call, call, named, Mirrors}
use tin_locus.Database.Manager.Calls.History.{call-Mirrors, new-IsMutual}

-- The manager after the writes of a call, and the queues on which it then calls `priorityPush`.
unfoldable pub announced : Call → Manager → Result (Manager × List ℕ)
announced (Call.registers key queue) m = ok ((register_client key queue m).1, [])
announced (Call.unregisters id) m = ok (unregister id m, [])
announced (Call.adds_follower my f) m = add_follower my f m
announced (Call.removes_follower my f) m = do n ← remove_follower my f m; ok (n, [])
announced (Call.stops_following my f) m = do n ← stop_following my f m; ok (n, [])
announced (Call.adds_position my latitude longitude time) m =
    add_position my latitude longitude time m
announced (Call.sets_name my name) m = do (done, n, notices) ← set_name my name m; ok (n, notices)
announced (Call.gets_names id) m = do (news, n) ← get_new_names id m; ok (n, [])
announced (Call.gets_positions id) m = do (news, n) ← get_new_positions id m; ok (n, [])

-- The pushes, by whether the pipe refuses each of them. The first that is refused throws.
abbrev pub push_all : List Bool → List ℕ → Result (Unit {0})
push_all refusals [] = ok tt
push_all [] (q ∷ qs) = ok tt
push_all (refused ∷ refusals) (q ∷ qs) = if refused then throws else push_all refusals qs

abbrev performed : List Bool → Manager → Result (Manager × List ℕ) → Result (Unit {0}) × Manager
performed refusals m (ok (n, qs)) = (push_all refusals qs, n)
performed refusals m throws = (throws, m)
performed refusals m undefined = (undefined, m)

-- A call with its pushes.
unfoldable pub perform : Call → List Bool → Step Manager (Unit {0})
unfolding announced
perform c refusals m = performed refusals m (announced c m)

-- Calls, one after another; an exception is caught by the thread that made the call.
unfoldable pub perform_all : List (Call × List Bool) → Step Manager (Unit {0})
unfolding perform
perform_all [] = pure tt
perform_all ((c, refusals) ∷ cs) =
    Step.◌>>=◌ (λ m. caught (perform c refusals m) (pure tt)) λ _. perform_all cs

-- One of the pushes is refused.
abbrev pub IsRefused : List Bool → Type 0
IsRefused [] = ⊥
IsRefused (refused ∷ refusals) = if refused then Unit {0} else IsRefused refusals

-- What a call owes that names some clients: it throws only for a push, and the graph is mirrored then
-- as well.
abbrev pub Performs : List ℕ → List Bool → Manager → Result (Unit {0}) × Manager → Type 0
Performs names refusals m (ok a, n) = IsMutual n.clients_data
Performs names refusals m (throws, n) = IsRefused refusals × IsMutual n.clients_data
Performs names refusals m (undefined, n) = ¬ AllKnown m.clients_data names

abbrev without_notices : Result (Manager × List ℕ) → Result Manager
without_notices (ok (n, qs)) = ok n
without_notices throws = throws
without_notices undefined = undefined

no_notices : (r : Result Manager) → r ≡ without_notices (r >>= λ n. ok (n, []))
no_notices (ok n) = refl
no_notices throws = refl
no_notices undefined = refl

no_value {ℓ} :
    {A : Type ℓ} (r : Result (A × Manager))
    → (r >>= λ (a, n). ok n) ≡ without_notices (r >>= λ (a, n). ok (n, []))
no_value (ok (a, n)) = refl
no_value throws = refl
no_value undefined = refl

some_notices : (r : Result (Manager × List ℕ)) → (r >>= λ (n, qs). ok n) ≡ without_notices r
some_notices (ok (n, qs)) = refl
some_notices throws = refl
some_notices undefined = refl

some_named :
    (r : Result (Bool × Manager × List ℕ))
    → (r >>= λ (a, n, qs). ok n) ≡ without_notices (r >>= λ (a, n, qs). ok (n, qs))
some_named (ok (a, n, qs)) = refl
some_named throws = refl
some_named undefined = refl

-- The writes are those of the call without its pushes.
call-announced : (c : Call) (m : Manager) → call c m ≡ without_notices (announced c m)
unfolding call announced
call-announced (Call.registers key queue) m = refl
call-announced (Call.unregisters id) m = refl
call-announced (Call.adds_follower my f) m = some_notices (add_follower my f m)
call-announced (Call.removes_follower my f) m = no_notices (remove_follower my f m)
call-announced (Call.stops_following my f) m = no_notices (stop_following my f m)
call-announced (Call.adds_position my lat lon t) m = some_notices (add_position my lat lon t m)
call-announced (Call.sets_name my name) m = some_named (set_name my name m)
call-announced (Call.gets_names id) m = no_value (get_new_names id m)
call-announced (Call.gets_positions id) m = no_value (get_new_positions id m)

pushed-Performs :
    (names qs : List ℕ) (refusals others : List Bool) (m n : Manager)
    → (IsRefused others → IsRefused refusals)
    → IsMutual n.clients_data
    → Performs names refusals m (push_all others qs, n)
pushed-Performs names [] refusals others m n h same = same
pushed-Performs names (q ∷ qs) refusals [] m n h same = same
pushed-Performs names (q ∷ qs) refusals (refused ∷ others) m n h same = elim (Bool-cases refused) [
  | inl e ↦ rw e (h (rw e tt), same)
  | inr e ↦ rw e (pushed-Performs names qs refusals others m n (λ k. h (rw e k)) same)
]

performed-Performs :
    (names : List ℕ) (refusals : List Bool) (m : Manager) (r : Result (Manager × List ℕ))
    → Mirrors names m (without_notices r)
    → Performs names refusals m (performed refusals m r)
performed-Performs names refusals m (ok (n, qs)) h =
    pushed-Performs names qs refusals refusals m n (λ k. k) h
performed-Performs names refusals m throws h = absurd h
performed-Performs names refusals m undefined h = h

-- A call throws only if some push is refused; returning or throwing it keeps the graph mirrored; and the behaviour is undefined only if it names a client that is not there.
pub perform-Performs :
    (c : Call) (refusals : List Bool) (m : Manager)
    → IsMutual m.clients_data
    → Performs (named c) refusals m (perform c refusals m)
unfolding perform
perform-Performs c refusals m h =
    performed-Performs (named c) refusals m (announced c m)
      (rw (call-announced c m) at (call-Mirrors c m h))

-- What a history leaves.
abbrev pub Leaves : Result (Unit {0}) × Manager → Type 0
Leaves (ok a, n) = IsMutual n.clients_data
Leaves (throws, n) = ⊥
Leaves (undefined, n) = Unit {0}

then-Leaves :
    (names : List ℕ) (refusals : List Bool) (m : Manager) (cs : List (Call × List Bool))
    (r : Result (Unit {0}) × Manager)
    → Performs names refusals m r
    → ((n : Manager) → IsMutual n.clients_data → Leaves (perform_all cs n))
    → Leaves (then_on (caught r (pure tt)) (λ _. perform_all cs))
then-Leaves names refusals m cs (ok a, n) h rest = rest n h
then-Leaves names refusals m cs (throws, n) h rest = rest n h.1
then-Leaves names refusals m cs (undefined, n) h rest = tt

perform_all-Leaves :
    (cs : List (Call × List Bool)) (m : Manager)
    → IsMutual m.clients_data
    → Leaves (perform_all cs m)
unfolding perform_all
perform_all-Leaves [] m h = h
perform_all-Leaves ((c, refusals) ∷ cs) m h =
    then-Leaves (named c) refusals m cs (perform c refusals m) (perform-Performs c refusals m h)
      (perform_all-Leaves cs)

-- After any history of calls from the empty manager, in which the pipes may refuse any of the notices
-- and the exception of a call is caught, each client is listed among the followers of another as often
-- as it follows it, unless the behaviour became undefined on the way.
pub perform_all-new-Leaves : (cs : List (Call × List Bool)) → Leaves (perform_all cs new)
perform_all-new-Leaves cs = perform_all-Leaves cs new new-IsMutual
