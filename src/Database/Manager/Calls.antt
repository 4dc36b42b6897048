-- ===== src/Database/Manager/Calls.antt =====
-- The calls of the manager as data, and what each owes: the graph stays mirrored.
pub mod Updates
pub mod History
pub mod Invariant
pub mod NameTable
pub mod NameHistory
pub mod Numbers
pub mod Refused
pub mod Reported
pub mod Reach
pub mod Tests
use tin_locus.Base.{ℕ, List, [], ◌∷◌, Result, ok, throws, undefined, ◌>>=◌}
use tin_locus.Base.Int.{ℤ}
use tin_locus.Database.Manager.{
  Manager, register_client, unregister, add_follower, remove_follower, stop_following, add_position,
  set_name, get_new_names, get_new_positions,
}
use tin_locus.Database.Manager.Mutual.{IsMutual}
use tin_locus.Database.Manager.Reports.{AllKnown}

-- The calls that change a manager.
pub data Call : Type 0 where
  registers : List ℕ → ℕ → Call
  unregisters : ℕ → Call
  adds_follower removes_follower stops_following : ℕ → ℕ → Call
  adds_position : ℕ → ℕ → ℕ → ℤ → Call
  sets_name : ℕ → List ℕ → Call
  gets_names gets_positions : ℕ → Call

-- The manager after a call, without what the call returns.
pub call : Call → Manager → Result Manager
call (Call.registers key queue) m = ok (register_client key queue m).1
call (Call.unregisters id) m = ok (unregister id m)
call (Call.adds_follower my f) m = do (n, notices) ← add_follower my f m; ok n
call (Call.removes_follower my f) m = remove_follower my f m
call (Call.stops_following my f) m = stop_following my f m
call (Call.adds_position my latitude longitude time) m = do
  (n, notices) ← add_position my latitude longitude time m
  ok n
call (Call.sets_name my name) m = do (done, n, notices) ← set_name my name m; ok n
call (Call.gets_names id) m = do (news, n) ← get_new_names id m; ok n
call (Call.gets_positions id) m = do (news, n) ← get_new_positions id m; ok n

-- The clients that a call names.
abbrev pub named : Call → List ℕ
named (Call.registers key queue) = []
named (Call.unregisters id) = []
named (Call.adds_follower my f) = my ∷ f ∷ []
named (Call.removes_follower my f) = my ∷ f ∷ []
named (Call.stops_following my f) = my ∷ f ∷ []
named (Call.adds_position my latitude longitude time) = my ∷ []
named (Call.sets_name my name) = my ∷ []
named (Call.gets_names id) = id ∷ []
named (Call.gets_positions id) = id ∷ []

-- What a call owes that names some clients.
abbrev pub Mirrors : List ℕ → Manager → Result Manager → Type 0
Mirrors names m (ok n) = IsMutual n.clients_data
Mirrors names m throws = ⊥
Mirrors names m undefined = ¬ AllKnown m.clients_data names
