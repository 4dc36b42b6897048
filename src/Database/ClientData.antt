-- ===== src/Database/ClientData.antt =====
-- server/src/database/Position, Watcher and ClientData: a client, its last positions, and whom it
-- follows. An identifier is a 16-bit pattern, a float the pattern of its 32 bits, a string its bytes.
pub mod Order
use tin_locus.Base.{ℕ, List, [], ◌∷◌, ◌++◌, ◌==◌, if◌then◌else◌}
use tin_locus.Base.Int.{ℤ, pos}

pub record Position : Type 0 where
  pub latitude : ℕ
  pub longitude : ℕ
  pub time : ℤ

pub record Watcher : Type 0 where
  pub id : ℕ
  pub time : ℤ
  pub name : List ℕ

-- `Watcher(id)`
unfoldable pub new_watcher : ℕ → Watcher
new_watcher id = record { id = id; time = pos 0; name = [] }

pub record ClientData : Type 0 where
  pub public_key : List ℕ
  pub name : List ℕ
  pub positions : List Position
  pub followers : List ℕ
  pub following : List Watcher

-- `ClientData(publicKey)`
unfoldable pub new_client : List ℕ → ClientData
new_client public_key = record {
  public_key = public_key;
  name = [];
  positions = [];
  followers = [];
  following = [];
}

unfoldable pub set_name : List ℕ → ClientData → ClientData
set_name name c = record c { name = name }

unfoldable pub add_position : ℕ → ℕ → ℤ → ClientData → ClientData
add_position latitude longitude time c = record c {
  positions =
      c.positions ++ record { latitude = latitude; longitude = longitude; time = time } ∷ [];
}

unfoldable pub add_follower : ℕ → ClientData → ClientData
add_follower id c = record c { followers = c.followers ++ id ∷ [] }

-- `std::list::remove(id)`
unfoldable pub remove : ℕ → List ℕ → List ℕ
remove id [] = []
remove id (x ∷ xs) = if x == id then remove id xs else x ∷ remove id xs

unfoldable pub remove_follower : ℕ → ClientData → ClientData
unfolding remove
remove_follower id c = record c { followers = remove id c.followers }

unfoldable pub start_following : ℕ → ClientData → ClientData
unfolding new_watcher
start_following id c = record c { following = c.following ++ new_watcher id ∷ [] }

-- `following.remove_if([&id](Watcher &w) { return w.id == id; })`
unfoldable pub remove_watcher : ℕ → List Watcher → List Watcher
remove_watcher id [] = []
remove_watcher id (w ∷ ws) = if w.id == id then remove_watcher id ws else w ∷ remove_watcher id ws

unfoldable pub stop_following : ℕ → ClientData → ClientData
unfolding remove_watcher
stop_following id c = record c { following = remove_watcher id c.following }
