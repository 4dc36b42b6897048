-- ===== src/Database/Manager.antt =====
-- server/src/database/ClientDataManager.h and ClientDataManager.cpp. Where the source makes a
-- `std::runtime_error` of a missing client it does not throw it, and goes on to read through the
-- iterator `end()`. A call that notifies clients also returns the queues on which it calls
-- `priorityPush(Message(Message::Type::Update))`, in that order; these pushes come after all that it
-- writes, and Calls/Refused has them with the exception of a push that the pipe refuses.
pub mod Graph
pub mod Mutual
pub mod Calls
pub mod Registration
pub mod Notices
pub mod Names
pub mod Reports
pub mod Tests
use tin_locus.Base.{
  ℕ, zero, suc, ◌+◌, ◌%◌, ◌^◌, Bool, true, false, not, ◌&&◌, List, [], ◌∷◌, ◌++◌, Option, none,
  some, Result, ok, throws, undefined, ◌>>=◌, ◌==◌, if◌then◌else◌, nat_eq, bytes_eq, bytes_beq,
}
use tin_locus.Base.Int.{ℤ, pos, ltb_ℤ, max_ℤ}
use tin_locus.Base.Dict.{Dict, lookup, insert, erase, modify}
use tin_locus.Database.ClientData.{ClientData, Position, Watcher}
use tin_locus.Database.ClientData

pub record Manager : Type 0 where
  pub next_id : ℕ
  pub clients_id : Dict (List ℕ) ℕ
  pub clients_name : Dict (List ℕ) ℕ
  pub clients_data : Dict ℕ ClientData
  pub clients_queue : Dict ℕ ℕ

-- `ClientDataManager() = default`
unfoldable pub new : Manager
new = record {
  next_id = 1;
  clients_id = [];
  clients_name = [];
  clients_data = [];
  clients_queue = [];
}

-- `it->second` for an iterator that `find` gave.
abbrev pub deref : Option ClientData → Result ClientData
deref none = undefined
deref (some c) = ok c

-- `at(id)`
abbrev pub at : ℕ → Dict ℕ ClientData → Result ClientData
at id d = elim (lookup id d) [ none ↦ throws | some c ↦ ok c ]

pub add_client : List ℕ → Manager → ℕ × Manager
unfolding insert ClientData.new_client
add_client public_key m = (
  m.next_id,
  record m {
    clients_id = insert public_key m.next_id m.clients_id;
    clients_data = insert m.next_id (ClientData.new_client public_key) m.clients_data;
    next_id = (m.next_id + 1) % 2 ^ 16;
  },
)

abbrev known_or_new : List ℕ → Manager → Option ℕ → ℕ × Manager
unfolding add_client
known_or_new public_key m (some id) = (id, m)
known_or_new public_key m none = add_client public_key m

unfoldable pub register_client : List ℕ → ℕ → Manager → ℕ × Manager
unfolding add_client insert lookup
register_client public_key queue m =
    let (id, n) = known_or_new public_key m (lookup public_key m.clients_id) in
    (id, record n { clients_queue = insert id queue n.clients_queue })

pub unregister : ℕ → Manager → Manager
unfolding erase
unregister id m = record m { clients_queue = erase id m.clients_queue }

-- The queues of those clients of a list that are connected.
pub queues_of : Dict ℕ ℕ → List ℕ → List ℕ
unfolding lookup
queues_of d [] = []
queues_of d (f ∷ fs) = elim (lookup f d) [ none ↦ queues_of d fs | some q ↦ q ∷ queues_of d fs ]

pub notify_followers : ℕ → Manager → Result (List ℕ)
unfolding queues_of
notify_followers id m = do
  c ← deref (lookup id m.clients_data)
  ok (queues_of m.clients_queue c.followers)

unfoldable pub add_follower : ℕ → ℕ → Manager → Result (Manager × List ℕ)
unfolding queues_of
add_follower my_id follower_id m = do
  mine ← deref (lookup my_id m.clients_data)
  theirs ← deref (lookup follower_id m.clients_data)
  let data' =
      modify follower_id (ClientData.start_following my_id)
        (modify my_id (ClientData.add_follower follower_id) m.clients_data)
  ok (record m { clients_data = data' }, queues_of m.clients_queue (follower_id ∷ []))

pub remove_follower : ℕ → ℕ → Manager → Result Manager
remove_follower my_id follower_id m = do
  mine ← deref (lookup my_id m.clients_data)
  theirs ← deref (lookup follower_id m.clients_data)
  let data' =
      modify follower_id (ClientData.stop_following my_id)
        (modify my_id (ClientData.remove_follower follower_id) m.clients_data)
  ok (record m { clients_data = data' })

pub stop_following : ℕ → ℕ → Manager → Result Manager
stop_following my_id following_id m = do
  mine ← deref (lookup my_id m.clients_data)
  theirs ← deref (lookup following_id m.clients_data)
  let data' =
      modify following_id (ClientData.remove_follower my_id)
        (modify my_id (ClientData.stop_following following_id) m.clients_data)
  ok (record m { clients_data = data' })

pub add_position : ℕ → ℕ → ℕ → ℤ → Manager → Result (Manager × List ℕ)
unfolding notify_followers
add_position my_id latitude longitude time m = do
  mine ← deref (lookup my_id m.clients_data)
  let data' = modify my_id (ClientData.add_position latitude longitude time) m.clients_data
  let n = record m { clients_data = data' }
  notices ← notify_followers my_id n
  ok (n, notices)

pub get_name_id : List ℕ → Manager → ℕ
get_name_id name m = elim (lookup name m.clients_name) [ none ↦ 0 | some id ↦ id ]

pub is_nil {ℓ} : {A : Type ℓ} → List A → Bool
is_nil [] = true
is_nil (x ∷ xs) = false

-- The table without the name that the client had.
abbrev pub without : List ℕ → Dict (List ℕ) ℕ → Dict (List ℕ) ℕ
without name d = if is_nil name then d else erase name d

-- `setName` for a client that is there, `c`, by the entry of the name.
rename : ℕ → List ℕ → Manager → ClientData → Option ℕ → Result (Bool × Manager × List ℕ)
unfolding notify_followers is_nil
rename my_id name m c (some id) = ok (bytes_beq c.name name, m, [])
rename my_id name m c none =
    let old = without c.name m.clients_name in
    let n : Manager = record m {
      clients_name = insert name my_id old;
      clients_data = modify my_id (ClientData.set_name name) m.clients_data;
    } in
    (notify_followers my_id n >>= λ notices. ok (true, n, notices))

unfoldable pub set_name : ℕ → List ℕ → Manager → Result (Bool × Manager × List ℕ)
unfolding rename
set_name my_id name m = do
  c ← deref (lookup my_id m.clients_data)
  rename my_id name m c (lookup name m.clients_name)

-- The loop of `getNewNames` over those that a client follows: the names to report, and the watchers
-- after it. What the loop wrote before an exception is not kept here.
pub names_loop : Dict ℕ ClientData → List Watcher → Result (List (ℕ × List ℕ) × List Watcher)
unfolding is_nil
names_loop d [] = ok ([], [])
names_loop d (w ∷ ws) = do
  c ← at w.id d
  (news, rest) ← names_loop d ws
  if not (is_nil c.name) && not (bytes_beq c.name w.name)
      then ok ((w.id, c.name) ∷ news, record w { name = c.name } ∷ rest)
      else ok (news, w ∷ rest)

abbrev pub set_following : List Watcher → ClientData → ClientData
set_following ws c = record c { following = ws }

pub get_new_names : ℕ → Manager → Result (List (ℕ × List ℕ) × Manager)
unfolding names_loop
get_new_names id m = do
  c ← deref (lookup id m.clients_data)
  (news, ws) ← names_loop m.clients_data c.following
  ok (news, record m { clients_data = modify id (set_following ws) m.clients_data })

-- `while (newPositions.size() < 3)`, with the rounds that are left. The iterator stays where it is,
-- at `p`, the last position; `at_begin` says whether that is the first as well.
positions_round : ℕ → Bool → Watcher → Position → List (ℕ × Position) → ℤ → List (ℕ × Position) × ℤ
positions_round zero at_begin w p news new_time = (news, new_time)
positions_round (suc rounds) at_begin w p news new_time =
    let news' = news ++ (w.id, p) ∷ [] in
    let time' = max_ℤ new_time p.time in
    let more = positions_round rounds at_begin w p news' time' in
    if ltb_ℤ w.time p.time then (if at_begin then (news', time') else more) else (news, new_time)

pub last_position : Position → List Position → Position
last_position p [] = p
last_position p (q ∷ ps) = last_position q ps

-- The body of the loop of `getNewPositions` for one watcher.
pub watched : Watcher → List ℕ → List Position → List (ℕ × Position) × Watcher
unfolding positions_round last_position is_nil
watched w name [] = ([], w)
watched w name (p ∷ ps) =
    let (news, new_time) = positions_round 3 (is_nil ps) w (last_position p ps) [] (pos 0) in
    if is_nil name then ([], w) else (news, record w { time = max_ℤ w.time new_time })

pub positions_loop : Dict ℕ ClientData → List Watcher → Result (List (ℕ × Position) × List Watcher)
unfolding watched
positions_loop d [] = ok ([], [])
positions_loop d (w ∷ ws) = do
  c ← at w.id d
  (news, rest) ← positions_loop d ws
  let (mine, w') = watched w c.name c.positions
  ok (mine ++ news, w' ∷ rest)

pub get_new_positions : ℕ → Manager → Result (List (ℕ × Position) × Manager)
unfolding positions_loop
get_new_positions id m = do
  c ← deref (lookup id m.clients_data)
  (news, ws) ← positions_loop m.clients_data c.following
  ok (news, record m { clients_data = modify id (set_following ws) m.clients_data })
