-- ===== src/Database/Archive.antt =====
-- The members `serialize` of Position.h, Watcher.h, ClientData.h and ClientDataManager.h. The library
-- cereal is a parameter: how it writes and reads numbers, texts, vectors, lists and maps, and the
-- members of a node by their names.
use tin_locus.Base.{
  ℕ, List, [], ◌∷◌, Result, ok, throws, undefined, ◌>>=◌, ◌==◌, if◌then◌else◌, ◌≡◌, ◌≢◌,
}
use tin_locus.Base.Step
use tin_locus.Base.Step.{Step, updated}
use tin_locus.Base.Int.{ℤ}
use tin_locus.Base.Dict.{Dict}
use tin_locus.Database.ClientData.{Position, Watcher, ClientData}
use tin_locus.Database.Manager.{Manager}

-- The names that `CEREAL_NVP` gives to the members.
pub data Nvp : Type 0 where
  next_id clients_id clients_name clients_data : Nvp
  public_key name positions followers following : Nvp
  id time latitude longitude : Nvp

abbrev nvp_code : Nvp → ℕ
nvp_code Nvp.next_id = 0
nvp_code Nvp.clients_id = 1
nvp_code Nvp.clients_name = 2
nvp_code Nvp.clients_data = 3
nvp_code Nvp.public_key = 4
nvp_code Nvp.name = 5
nvp_code Nvp.positions = 6
nvp_code Nvp.followers = 7
nvp_code Nvp.following = 8
nvp_code Nvp.id = 9
nvp_code Nvp.time = 10
nvp_code Nvp.latitude = 11
nvp_code Nvp.longitude = 12

-- How values of a type are written to a node and read from it.
pub record Codec (Node A : Type 0) : Type 0 where
  pub save : A → Node
  pub load : Node → Result A

-- What is written of a value is read as the same value. Of a text in JSON, or of a float that is no
-- number, this need not be so.
abbrev pub Keeps : {Node A : Type 0} → Codec Node A → A → Type 0
Keeps c a = c.load (c.save a) ≡ ok a

abbrev pub All {ℓ} : {A : Type ℓ} → (A → Type 0) → List A → Type 0
All P [] = Unit {0}
All P (x ∷ xs) = P x × All P xs

abbrev pub AllKept : {Node A : Type 0} → Codec Node A → List A → Type 0
AllKept c xs = All (Keeps c) xs

-- The entries of a map are kept, and no two have the same key.
abbrev pub MapKept : {Node K V : Type 0} → Codec Node K → Codec Node V → Dict K V → Type 0
MapKept c d [] = Unit {0}
MapKept c d ((k, v) ∷ m) = Keeps c k × Keeps d v × All (λ e. e.0 ≢ k) m × MapKept c d m

-- The member of a name, among those that were written.
abbrev pub found : {Node : Type 0} → Nvp → List (Nvp × Node) → Result Node
found n [] = throws
found n ((k, x) ∷ ms) = if nvp_code n == nvp_code k then ok x else found n ms

-- What the program uses of cereal. A map is read entry by entry: `map_left` is what is in it after a
-- reading that throws, by the node and by what was in it before.
pub record Cereal : Type 1 where
  pub Node : Type 0
  pub object : List (Nvp × Node) → Node
  pub member : Nvp → Node → Result Node
  pub short : Codec Node ℕ
  pub float : Codec Node ℕ
  pub time_t : Codec Node ℤ
  pub string : Codec Node (List ℕ)
  pub bytes : Codec Node (List ℕ)
  pub list : (A : Type 0) → Codec Node A → Codec Node (List A)
  pub map : (K V : Type 0) → Codec Node K → Codec Node V → Codec Node (Dict K V)
  pub map_left : (K V : Type 0) → Codec Node K → Codec Node V → Node → Dict K V → Dict K V
  pub member-object : (n : Nvp) (ms : List (Nvp × Node)) → member n (object ms) ≡ found n ms
  pub list-Keeps :
      (A : Type 0) (c : Codec Node A) (xs : List A) → AllKept c xs → Keeps (list A c) xs
  pub map-Keeps :
      (K V : Type 0) (c : Codec Node K) (d : Codec Node V) (m : Dict K V)
      → MapKept c d m
      → Keeps (map K V c d) m

module _ (cereal : Cereal) where
  -- `ar(CEREAL_NVP(n))` of an input archive.
  abbrev pub read : {A : Type 0} → Nvp → Codec cereal.Node A → cereal.Node → Result A
  read n c node = cereal.member n node >>= λ x. c.load x

  -- `Position::serialize`
  unfoldable pub position : Codec cereal.Node Position
  position = record {
    save = λ p. cereal.object (
        (Nvp.latitude, cereal.float.save p.latitude)
        ∷ (Nvp.longitude, cereal.float.save p.longitude)
        ∷ (Nvp.time, cereal.time_t.save p.time)
        ∷ []);
    load = λ node.
        (read Nvp.latitude cereal.float node >>= λ latitude.
        (read Nvp.longitude cereal.float node >>= λ longitude.
        (read Nvp.time cereal.time_t node >>= λ time.
        ok (record { latitude = latitude; longitude = longitude; time = time }))));
  }

  -- `Watcher::serialize`
  unfoldable pub watcher : Codec cereal.Node Watcher
  watcher = record {
    save = λ w. cereal.object (
        (Nvp.id, cereal.short.save w.id)
        ∷ (Nvp.time, cereal.time_t.save w.time)
        ∷ (Nvp.name, cereal.string.save w.name)
        ∷ []);
    load = λ node.
        (read Nvp.id cereal.short node >>= λ id.
        (read Nvp.time cereal.time_t node >>= λ time.
        (read Nvp.name cereal.string node >>= λ name.
        ok (record { id = id; time = time; name = name }))));
  }

  -- `ClientData::serialize`
  unfoldable pub client_data : Codec cereal.Node ClientData
  unfolding position watcher
  client_data = record {
    save = λ c. cereal.object (
        (Nvp.public_key, cereal.bytes.save c.public_key)
        ∷ (Nvp.name, cereal.string.save c.name)
        ∷ (Nvp.positions, (cereal.list Position position).save c.positions)
        ∷ (Nvp.followers, (cereal.list ℕ cereal.short).save c.followers)
        ∷ (Nvp.following, (cereal.list Watcher watcher).save c.following)
        ∷ []);
    load = λ node.
        (read Nvp.public_key cereal.bytes node >>= λ public_key.
        (read Nvp.name cereal.string node >>= λ name.
        (read Nvp.positions (cereal.list Position position) node >>= λ positions.
        (read Nvp.followers (cereal.list ℕ cereal.short) node >>= λ followers.
        (read Nvp.following (cereal.list Watcher watcher) node >>= λ following. ok (record {
          public_key = public_key;
          name = name;
          positions = positions;
          followers = followers;
          following = following;
        }))))));
  }

  abbrev pub ids : Codec cereal.Node (Dict (List ℕ) ℕ)
  ids = cereal.map (List ℕ) ℕ cereal.bytes cereal.short

  abbrev pub names : Codec cereal.Node (Dict (List ℕ) ℕ)
  names = cereal.map (List ℕ) ℕ cereal.string cereal.short

  abbrev pub clients : Codec cereal.Node (Dict ℕ ClientData)
  clients = cereal.map ℕ ClientData cereal.short client_data

  -- `ClientDataManager::serialize` of an output archive
  unfoldable pub save_manager : Manager → cereal.Node
  unfolding client_data
  save_manager m = cereal.object (
      (Nvp.next_id, cereal.short.save m.next_id)
      ∷ (Nvp.clients_id, ids.save m.clients_id)
      ∷ (Nvp.clients_name, names.save m.clients_name)
      ∷ (Nvp.clients_data, clients.save m.clients_data)
      ∷ [])

  -- A number is replaced, or an exception leaves it as it is.
  abbrev pub read_into :
      {A : Type 0}
      → Nvp
      → Codec cereal.Node A
      → cereal.Node
      → (Manager → A → Manager)
      → Step Manager (Unit {0})
  read_into n c node put m = updated m (put m) (λ _. tt) (read n c node)

  -- What a reading of a map that throws leaves of it: nothing happens to it where the member is not
  -- there.
  abbrev pub left_in :
      {K V : Type 0} → Nvp → (cereal.Node → Dict K V → Dict K V) → cereal.Node → Dict K V → Dict K V
  left_in n left node d = elim (cereal.member n node) [
    | ok x ↦ left x d
    | throws ↦ d
    | undefined ↦ d
  ]

  -- The manager after the reading of a map: with the whole of it, or with what an exception leaves.
  abbrev pub replaced :
      {A : Type 0} → Manager → (A → Manager) → A → Result A → Result (Unit {0}) × Manager
  replaced m put left (ok d) = (ok tt, put d)
  replaced m put left throws = (throws, put left)
  replaced m put left undefined = (undefined, m)

  abbrev pub ids_left : cereal.Node → Dict (List ℕ) ℕ → Dict (List ℕ) ℕ
  ids_left = left_in Nvp.clients_id (cereal.map_left (List ℕ) ℕ cereal.bytes cereal.short)

  abbrev pub names_left : cereal.Node → Dict (List ℕ) ℕ → Dict (List ℕ) ℕ
  names_left = left_in Nvp.clients_name (cereal.map_left (List ℕ) ℕ cereal.string cereal.short)

  abbrev pub clients_left : cereal.Node → Dict ℕ ClientData → Dict ℕ ClientData
  clients_left = left_in Nvp.clients_data (cereal.map_left ℕ ClientData cereal.short client_data)

  abbrev pub read_ids : cereal.Node → Step Manager (Unit {0})
  read_ids node m =
      replaced m (λ x. record m { clients_id = x }) (ids_left node m.clients_id)
        (read Nvp.clients_id ids node)

  abbrev pub read_names : cereal.Node → Step Manager (Unit {0})
  read_names node m =
      replaced m (λ x. record m { clients_name = x }) (names_left node m.clients_name)
        (read Nvp.clients_name names node)

  abbrev pub read_clients : cereal.Node → Step Manager (Unit {0})
  read_clients node m =
      replaced m (λ x. record m { clients_data = x }) (clients_left node m.clients_data)
        (read Nvp.clients_data clients node)

  -- `ClientDataManager::serialize` of an input archive
  unfoldable pub load_manager : cereal.Node → Step Manager (Unit {0})
  unfolding client_data
  load_manager node =
      Step.◌>>=◌ (read_into Nvp.next_id cereal.short node (λ m x. record m { next_id = x }))
        λ _. Step.◌>>=◌ (read_ids node) λ _. Step.◌>>=◌ (read_names node) λ _. read_clients node
