-- ===== src/Database/Storage/Broken.antt =====
-- Database.cpp when the file ends early or the clients' data does not fit: the exception is caught, but
-- what was read before it stays.
use tin_locus.Base.{ℕ, ◌≡◌, List, Result, ok, throws, undefined, none, some, nat_eq, bytes_eq}
use tin_locus.Base.Dict.{Dict, lookup}
use tin_locus.Base.Step
use tin_locus.Base.Step.{Step, caught, pure, updated}
use tin_locus.Database.ClientData.{ClientData}
use tin_locus.Database.Manager.{Manager, new, register_client, set_name}
use tin_locus.Database.Archive.{
  Cereal, Nvp, read, load_manager, ids, names, clients, replaced, ids_left, names_left,
  clients_left,
}
use tin_locus.Database.Storage.{database}

module _ (cereal : Cereal) where
  -- The reading of the manager, by what the archive gives for each member.
  abbrev read_all :
      cereal.Node
      → Result ℕ
      → Result (Dict (List ℕ) ℕ)
      → Result (Dict (List ℕ) ℕ)
      → Result (Dict ℕ ClientData)
      → Step Manager (Unit {0})
  read_all node r1 r2 r3 r4 =
      Step.◌>>=◌ (λ m. updated m (λ x. record m { next_id = x }) (λ _. tt) r1)
        λ _.
          Step.◌>>=◌
            (λ m.
              replaced cereal m (λ x. record m { clients_id = x })
                (ids_left cereal node m.clients_id) r2)
            λ _.
              Step.◌>>=◌
                (λ m.
                  replaced cereal m (λ x. record m { clients_name = x })
                    (names_left cereal node m.clients_name) r3)
                λ _. λ m.
                  replaced cereal m (λ x. record m { clients_data = x })
                    (clients_left cereal node m.clients_data) r4

  -- The manager of which the last member was read in part.
  abbrev pub half_read : ℕ → Dict (List ℕ) ℕ → Dict (List ℕ) ℕ → Dict ℕ ClientData → Manager
  half_read next d e left = record new {
    next_id = next;
    clients_id = d;
    clients_name = e;
    clients_data = left;
  }

  database-half_read :
      (node : cereal.Node) (next : ℕ) (d e : Dict (List ℕ) ℕ)
      → read cereal Nvp.next_id cereal.short node ≡ ok next
      → read cereal Nvp.clients_id (ids cereal) node ≡ ok d
      → read cereal Nvp.clients_name (names cereal) node ≡ ok e
      → read cereal Nvp.clients_data (clients cereal) node ≡ throws
      → database cereal (some (ok node))
        ≡ half_read next d e (clients_left cereal node new.clients_data)
  unfolding database load_manager updated
  database-half_read node next d e r1 r2 r3 r4 =
      λ i. (caught (read_all node (r1 i) (r2 i) (r3 i) (r4 i) new) (pure tt)).1

  -- When the first three members of the file are read, and the reading of the clients' data throws
  -- before it has come to the client of an identifier, the key of that client still gets the identifier
  -- from `registerClient`, and its next `setName` reads through the iterator `end()`.
  pub register_client_broken :
      (node : cereal.Node) (next id queue : ℕ) (d e : Dict (List ℕ) ℕ) (key name : List ℕ)
      → read cereal Nvp.next_id cereal.short node ≡ ok next
      → read cereal Nvp.clients_id (ids cereal) node ≡ ok d
      → read cereal Nvp.clients_name (names cereal) node ≡ ok e
      → read cereal Nvp.clients_data (clients cereal) node ≡ throws
      → lookup id (clients_left cereal node new.clients_data) ≡ none
      → lookup key d ≡ some id
      → ((register_client key queue (database cereal (some (ok node)))).0 ≡ id)
        × (set_name id name (register_client key queue (database cereal (some (ok node)))).1
            ≡ undefined)
  unfolding register_client set_name
  register_client_broken node next id queue d e key name r1 r2 r3 r4 missing known =
      let m = database-half_read node next d e r1 r2 r3 r4 in
      (rw (m, known), rw (m, known, missing))
