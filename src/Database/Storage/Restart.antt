-- ===== src/Database/Storage/Restart.antt =====
-- The server is stopped and started again: what `~Database()` writes, `Database()` reads.
use tin_locus.Base.{ℕ, ◌≡◌, ◌≢◌, ap, List, [], ◌∷◌, ok, true}
use tin_locus.Base.Step.{updated, caught, pure}
use tin_locus.Base.Dict.{Dict}
use tin_locus.Database.ClientData.{Position, Watcher, ClientData}
use tin_locus.Database.Manager.{Manager, new}
use tin_locus.Database.Archive.{
  Cereal, Keeps, All, AllKept, MapKept, position, watcher, client_data, save_manager, load_manager,
}
use tin_locus.Database.Storage.{File, database, destroyed}

All-map {ℓ} :
    {A : Type ℓ} {P Q : A → Type 0} → ((a : A) → P a → Q a) → (xs : List A) → All P xs → All Q xs
All-map f [] h = tt
All-map f (x ∷ xs) (p, h) = (f x p, All-map f xs h)

module _ (cereal : Cereal) where
  -- The numbers and texts of an object are ones that the archive keeps.
  pub record PositionKept (p : Position) : Type 0 where
    pub latitude : Keeps cereal.float p.latitude
    pub longitude : Keeps cereal.float p.longitude
    pub time : Keeps cereal.time_t p.time

  pub record WatcherKept (w : Watcher) : Type 0 where
    pub id : Keeps cereal.short w.id
    pub time : Keeps cereal.time_t w.time
    pub name : Keeps cereal.string w.name

  pub record ClientKept (c : ClientData) : Type 0 where
    pub public_key : Keeps cereal.bytes c.public_key
    pub name : Keeps cereal.string c.name
    pub positions : All PositionKept c.positions
    pub followers : AllKept cereal.short c.followers
    pub following : All WatcherKept c.following

  abbrev pub ClientsKept : Dict ℕ ClientData → Type 0
  ClientsKept [] = Unit {0}
  ClientsKept ((id, c) ∷ d) =
      Keeps cereal.short id × ClientKept c × All (λ e. e.0 ≢ id) d × ClientsKept d

  pub record ManagerKept (m : Manager) : Type 0 where
    pub next_id : Keeps cereal.short m.next_id
    pub clients_id : MapKept cereal.bytes cereal.short m.clients_id
    pub clients_name : MapKept cereal.string cereal.short m.clients_name
    pub clients_data : ClientsKept m.clients_data

  position-Keeps : (p : Position) → PositionKept p → Keeps (position cereal) p
  unfolding position
  position-Keeps p h = simp (cereal.member-object, h.latitude, h.longitude, h.time)

  watcher-Keeps : (w : Watcher) → WatcherKept w → Keeps (watcher cereal) w
  unfolding watcher
  watcher-Keeps w h = simp (cereal.member-object, h.id, h.time, h.name)

  client_data-Keeps : (c : ClientData) → ClientKept c → Keeps (client_data cereal) c
  unfolding client_data
  client_data-Keeps c h = simp (
    cereal.member-object,
    h.public_key,
    h.name,
    cereal.list-Keeps Position (position cereal) c.positions
        (All-map position-Keeps c.positions h.positions),
    cereal.list-Keeps ℕ cereal.short c.followers h.followers,
    cereal.list-Keeps Watcher (watcher cereal) c.following
        (All-map watcher-Keeps c.following h.following),
  )

  clients-MapKept :
      (d : Dict ℕ ClientData) → ClientsKept d → MapKept cereal.short (client_data cereal) d
  clients-MapKept [] h = tt
  clients-MapKept ((id, c) ∷ d) (k, kept, new_key, h) =
      (k, client_data-Keeps c kept, new_key, clients-MapKept d h)

  -- The four members of the manager that are written; the queues stay.
  load_manager-save_manager :
      (m n : Manager)
      → ManagerKept m
      → load_manager cereal (save_manager cereal m) n
        ≡ (ok tt, record m { clients_queue = n.clients_queue })
  unfolding load_manager save_manager updated
  load_manager-save_manager m n h = simp (
    cereal.member-object,
    h.next_id,
    cereal.map-Keeps (List ℕ) ℕ cereal.bytes cereal.short m.clients_id h.clients_id,
    cereal.map-Keeps (List ℕ) ℕ cereal.string cereal.short m.clients_name h.clients_name,
    cereal.map-Keeps ℕ ClientData cereal.short (client_data cereal) m.clients_data
        (clients-MapKept m.clients_data h.clients_data),
  )

  -- When the file can be opened for writing, and the archive keeps the numbers and texts of the
  -- manager, a server that is stopped and started again has the same clients with the same keys,
  -- names, positions, followers and watchers and the same next identifier, whatever the file held
  -- before; no client is connected.
  pub database-destroyed :
      (m : Manager) (file : File cereal)
      → ManagerKept m
      → database cereal (destroyed cereal true m file) ≡ record m { clients_queue = [] }
  unfolding database destroyed new
  database-destroyed m file h = ap (λ r. (caught r (pure tt)).1) (load_manager-save_manager m new h)
