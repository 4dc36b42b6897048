-- ===== src/Database/Manager/Calls/Tests.antt =====
-- Histories of ClientDataManager.cpp with a client that takes a name and changes it.
use tin_locus.Base.{
  ℕ, ◌^◌, ◌<◌, ◌≡◌, ◌≢◌, ◌↔◌, refl, subst, List, [], ◌∷◌, some, ok, throws, true, Bool, arith,
  nat_eq, bytes_eq,
}
use tin_locus.Base.Int.{pos}
use tin_locus.Database.Manager.Calls.Reach.{IsReached, location_reaches}
use tin_locus.Base.Dict.{lookup, modify, erase}
use tin_locus.Database.ClientData.{ClientData, Position}
use tin_locus.Database.ClientData
use tin_locus.Database.Manager.{Manager, new, register_client, set_name, add_follower}
use tin_locus.Database.Manager.Calls.{Call, call}
use tin_locus.Database.Manager.Calls.History.{run, Ends, run-new-Ends}
use tin_locus.Database.Manager.Calls.Refused.{
  perform, perform_all, announced, Leaves, perform_all-new-Leaves,
}
use tin_locus.Database.Manager.Calls.NameTable.{name_of}
use tin_locus.Database.Manager.Calls.NameHistory.{run-new-IsIndexed}
use tin_locus.Database.Manager.Calls.Numbers.{key_of, run-new-IsNumbered}

abbrev first_key : List ℕ
first_key = 10 ∷ 11 ∷ []

abbrev named_client : ClientData
named_client = record {
  public_key = first_key;
  name = 97 ∷ [];
  positions = [];
  followers = [];
  following = [];
}

abbrev renaming : List Call
renaming =
    Call.registers first_key 100 ∷ Call.sets_name 1 (98 ∷ []) ∷ Call.sets_name 1 (97 ∷ []) ∷ []

abbrev renamed : Manager
renamed = record {
  next_id = 2;
  clients_id = (first_key, 1) ∷ [];
  clients_name = (97 ∷ [], 1) ∷ [];
  clients_data = (1, named_client) ∷ [];
  clients_queue = (1, 100) ∷ [];
}

renaming_runs : run renaming new ≡ ok renamed
unfolding run call new register_client set_name modify erase ClientData.set_name
renaming_runs = refl

abbrev short_name : List ℕ
short_name = 97 ∷ []

a_name : short_name ≢ []
a_name e = cc

run-new-IsIndexed_example :
    (lookup short_name renamed.clients_name ≡ some 1)
    ↔ (name_of renamed.clients_data 1 ≡ short_name)
run-new-IsIndexed_example = run-new-IsIndexed renaming renamed short_name 1 renaming_runs a_name

first_there : lookup first_key renamed.clients_id ≡ some 1
unfolding lookup
first_there = refl

run-new-IsNumbered_example :
    let one : ℕ = 1 in
    (0 < one)
    × (one < 2 ^ 15)
    × (key_of renamed.clients_data 1 ≡ some first_key)
    × (lookup (12 ∷ []) renamed.clients_id ≡ some 1 → 12 ∷ [] ≡ first_key)
run-new-IsNumbered_example =
    run-new-IsNumbered renaming renamed first_key (12 ∷ []) 1 renaming_runs (omega arith)
      first_there

abbrev second_key : List ℕ
second_key = 12 ∷ []

-- The second client follows the first, which has a name.
abbrev following : List Call
following =
    Call.registers first_key 100
    ∷ Call.registers second_key 200
    ∷ Call.sets_name 1 (97 ∷ [])
    ∷ Call.adds_follower 1 2
    ∷ []

abbrev followed_client : ClientData
followed_client = record named_client { followers = 2 ∷ [] }

abbrev followed : Manager
followed = record {
  next_id = 3;
  clients_id = (first_key, 1) ∷ (second_key, 2) ∷ [];
  clients_name = (97 ∷ [], 1) ∷ [];
  clients_data =
      (1, followed_client)
      ∷ (
        2,
        record {
          public_key = second_key;
          name = [];
          positions = [];
          followers = [];
          following = record { id = 1; time = pos 0; name = [] } ∷ [];
        },
      )
      ∷ [];
  clients_queue = (1, 100) ∷ (2, 200) ∷ [];
}

abbrev two_named : Manager
two_named = record followed {
  clients_data = (1, named_client) ∷ (2, ClientData.new_client second_key) ∷ [];
}

following_runs : run following new ≡ ok followed
unfolding run call new register_client set_name add_follower modify erase ClientData.set_name
    ClientData.add_follower ClientData.start_following
following_runs = refl

abbrev warsaw : Position
warsaw = record { latitude = 1112768512; longitude = 1101529088; time = pos 5 }

location_reaches_example : IsReached 2 1 warsaw followed
unfolding lookup
location_reaches_example =
    location_reaches 2 1 warsaw followed followed_client
      (subst Ends following_runs (run-new-Ends following)) refl a_name (omega arith)
      ((λ e. refl), tt)

-- The third call notifies nobody, and the pipe of the second client refuses the notice of the fourth.
abbrev refusing : List (Call × List Bool)
refusing =
    (Call.registers first_key 100, [])
    ∷ (Call.registers second_key 200, [])
    ∷ (Call.sets_name 1 (97 ∷ []), [])
    ∷ (Call.adds_follower 1 2, true ∷ [])
    ∷ []

-- The exception leaves the manager as the same calls leave it whose pushes succeed.
refused_throws : perform (Call.adds_follower 1 2) (true ∷ []) two_named ≡ (throws, followed)
unfolding perform announced add_follower modify ClientData.add_follower ClientData.start_following
    lookup ClientData.new_client
refused_throws = refl

perform_all-new-Leaves_example : Leaves (perform_all refusing new)
perform_all-new-Leaves_example = perform_all-new-Leaves refusing
