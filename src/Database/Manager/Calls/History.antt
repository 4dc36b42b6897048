-- ===== src/Database/Manager/Calls/History.antt =====
-- Histories of calls, without the pushes of their notices.
use tin_locus.Base.{ℕ, refl, List, [], ◌∷◌, Result, ok, throws, undefined, ◌>>=◌}
use tin_locus.Base.Dict.{lookup}
use tin_locus.Database.Manager.{Manager, new}
use tin_locus.Database.Manager.Mutual.{IsMutual}
use tin_locus.Database.Manager.Calls.{Call, call, named, Mirrors}
use tin_locus.Database.Manager.Calls.Updates.{
  register_client-IsMutual, unregister-IsMutual, add_follower-Mirrors, remove_follower-Mirrors,
  stop_following-Mirrors, add_position-Mirrors, set_name-Mirrors, get_new_names-Mirrors,
  get_new_positions-Mirrors,
}

-- Without its pushes no call throws, each keeps the graph mirrored, and the behaviour is undefined only if the call
-- names a client that is not there.
pub call-Mirrors :
    (c : Call) (m : Manager) → IsMutual m.clients_data → Mirrors (named c) m (call c m)
unfolding call
call-Mirrors (Call.registers key queue) m h = register_client-IsMutual key queue m h
call-Mirrors (Call.unregisters id) m h = unregister-IsMutual id m h
call-Mirrors (Call.adds_follower my f) m h = add_follower-Mirrors my f m h
call-Mirrors (Call.removes_follower my f) m h = remove_follower-Mirrors my f m h
call-Mirrors (Call.stops_following my f) m h = stop_following-Mirrors my f m h
call-Mirrors (Call.adds_position my lat lon t) m h = add_position-Mirrors my lat lon t m h
call-Mirrors (Call.sets_name my name) m h = set_name-Mirrors my name m h
call-Mirrors (Call.gets_names id) m h = get_new_names-Mirrors id m h
call-Mirrors (Call.gets_positions id) m h = get_new_positions-Mirrors id m h

-- A history of calls, as far as it is defined.
unfoldable pub run : List Call → Manager → Result Manager
unfolding call
run [] m = ok m
run (c ∷ cs) m = call c m >>= λ n. run cs n

-- What a history leaves.
abbrev pub Ends : Result Manager → Type 0
Ends (ok n) = IsMutual n.clients_data
Ends throws = ⊥
Ends undefined = Unit {0}

step-Ends :
    (names : List ℕ) (m : Manager) (cs : List Call) (r : Result Manager)
    → Mirrors names m r
    → ((n : Manager) → IsMutual n.clients_data → Ends (run cs n))
    → Ends (r >>= λ n. run cs n)
step-Ends names m cs (ok n) h rest = rest n h
step-Ends names m cs throws h rest = h
step-Ends names m cs undefined h rest = tt

pub run-Ends : (cs : List Call) (m : Manager) → IsMutual m.clients_data → Ends (run cs m)
unfolding run
run-Ends [] m h = h
run-Ends (c ∷ cs) m h =
    step-Ends (named c) m cs (call c m) (call-Mirrors c m h) (λ n k. run-Ends cs n k)

pub new-IsMutual : IsMutual new.clients_data
unfolding new lookup
new-IsMutual a b = refl

-- The same from the empty manager.
pub run-new-Ends : (cs : List Call) → Ends (run cs new)
run-new-Ends cs = run-Ends cs new new-IsMutual
