-- ===== src/Database/Manager/Tests.antt =====
-- ClientDataManager.cpp on two clients, of which the second follows the first.
use tin_locus.Base.{ℕ, ◌≡◌, ◌≢◌, refl, List, [], ◌∷◌, none, some, ok, nat_eq, bytes_eq}
use tin_locus.Base.Int.{pos}
use tin_locus.Base.Dict.{lookup, modify}
use tin_locus.Database.ClientData.{ClientData, Position, Watcher}
use tin_locus.Database.Manager.{
  Manager, new, register_client, unregister, watched, last_position, is_nil, get_new_names,
  names_loop,
}
use tin_locus.Database.Manager.Calls.{Call}
use tin_locus.Database.Manager.Calls.History.{run, Ends, run-new-Ends}
use tin_locus.Database.Manager.Registration.{unregister-register_client}
use tin_locus.Database.Manager.Notices.{watched_lem}

abbrev first_key : List ℕ
first_key = 10 ∷ 11 ∷ []

abbrev history : List Call
history =
    Call.registers first_key 100
    ∷ Call.registers (12 ∷ []) 101
    ∷ Call.sets_name 1 (97 ∷ [])
    ∷ Call.adds_follower 1 2
    ∷ Call.adds_position 1 50 60 (pos 7)
    ∷ Call.gets_positions 2
    ∷ Call.removes_follower 1 2
    ∷ []

run-new-Ends_example : Ends (run history new)
run-new-Ends_example = run-new-Ends history

-- The manager after the second client began to follow the first, who has a name.
abbrev leader : ClientData
leader = record {
  public_key = first_key;
  name = 97 ∷ [];
  positions = [];
  followers = 2 ∷ [];
  following = [];
}

abbrev admirer : ClientData
admirer = record {
  public_key = 12 ∷ [];
  name = [];
  positions = [];
  followers = [];
  following = record { id = 1; time = pos 0; name = [] } ∷ [];
}

abbrev pair : Manager
pair = record {
  next_id = 3;
  clients_id = (first_key, 1) ∷ (12 ∷ [], 2) ∷ [];
  clients_name = (97 ∷ [], 1) ∷ [];
  clients_data = (1, leader) ∷ (2, admirer) ∷ [];
  clients_queue = (1, 100) ∷ (2, 101) ∷ [];
}

unregister-register_client_example :
    let (id, n) = register_client first_key 200 pair in
    let (id', n') = register_client first_key 300 n in
    (lookup id n'.clients_queue ≡ lookup id n.clients_queue)
    × (lookup id (unregister id' n').clients_queue ≡ none)
unregister-register_client_example = unregister-register_client first_key 200 300 pair

leader_there : lookup 1 pair.clients_data ≡ some leader
unfolding lookup
leader_there = refl

abbrev at_seven : Position
at_seven = record { latitude = 50; longitude = 60; time = pos 7 }

abbrev at_nine : Position
at_nine = record { latitude = 51; longitude = 60; time = pos 9 }

abbrev watcher : Watcher
watcher = record { id = 1; time = pos 0; name = [] }

some_name : leader.name ≢ []
some_name e = cc

-- Two positions: the last of them is told three times.
watched_lem_example :
    (watched watcher leader.name (at_seven ∷ at_nine ∷ [])).0
    ≡ (1, at_nine) ∷ (1, at_nine) ∷ (1, at_nine) ∷ []
unfolding last_position is_nil
watched_lem_example = watched_lem watcher leader.name at_seven (at_nine ∷ []) some_name

abbrev told : Manager
told = record pair {
  clients_data =
      (1, leader)
      ∷ (2, record admirer { following = record { id = 1; time = pos 0; name = 97 ∷ [] } ∷ [] })
      ∷ [];
}

first_report : get_new_names 2 pair ≡ ok ((1, 97 ∷ []) ∷ [], told)
unfolding get_new_names names_loop lookup modify is_nil
first_report = refl
