-- ===== src/Database/Storage/Tests.antt =====
-- Database.cpp with an archive that keeps a tree of numbers and texts.
use tin_locus.Base.{
  ℕ, ◌≡◌, refl, List, [], ◌∷◌, none, some, Result, ok, throws, undefined, ◌>>=◌, nat_eq, bytes_eq,
  ap, true, arith,
}
use tin_locus.Base.Int.{ℤ, pos}
use tin_locus.Base.Dict.{Dict, lookup}
use tin_locus.Database.Archive.{
  Cereal, Codec, Nvp, position, watcher, client_data, clients, clients_left, read, AllKept, MapKept,
  found,
}
use tin_locus.Database.Manager.{Manager, new, register_client, set_name}
use tin_locus.Database.Storage.{database, destroyed}
use tin_locus.Database.Storage.Restart.{ManagerKept, database-destroyed}
use tin_locus.Database.Storage.Broken.{register_client_broken}

mutual
  data Tree : Type 0 where
    number : ℕ → Tree
    signed : ℤ → Tree
    text : List ℕ → Tree
    array : Trees → Tree
    node : Members → Tree

  data Trees : Type 0 where
    end : Trees
    item : Tree → Trees → Trees

  data Members : Type 0 where
    last : Members
    named : Nvp → Tree → Members → Members

abbrev numbers : Codec Tree ℕ
numbers = record { save = number; load = λ t. elim t [ number n ↦ ok n | _ ↦ throws ] }

abbrev signeds : Codec Tree ℤ
signeds = record { save = signed; load = λ t. elim t [ signed n ↦ ok n | _ ↦ throws ] }

abbrev texts : Codec Tree (List ℕ)
texts = record { save = text; load = λ t. elim t [ text n ↦ ok n | _ ↦ throws ] }

abbrev save_all : {A : Type 0} → (A → Tree) → List A → Trees
save_all f [] = end
save_all f (x ∷ xs) = item (f x) (save_all f xs)

abbrev load_all : {A : Type 0} → (Tree → Result A) → Trees → Result (List A)
load_all f end = ok []
load_all f (item t ts) = f t >>= λ x. (load_all f ts >>= λ xs. ok (x ∷ xs))

load_all-save_all :
    (A : Type 0) (c : Codec Tree A) (xs : List A)
    → AllKept c xs
    → load_all c.load (save_all c.save xs) ≡ ok xs
load_all-save_all A c [] h = refl
load_all-save_all A c (x ∷ xs) (e, h) = rw (e, load_all-save_all A c xs h)

abbrev lists : (A : Type 0) → Codec Tree A → Codec Tree (List A)
lists A c = record {
  save = λ xs. array (save_all c.save xs);
  load = λ t. elim t [ array ts ↦ load_all c.load ts | _ ↦ throws ];
}

abbrev pairs : (K V : Type 0) → Codec Tree K → Codec Tree V → Codec Tree (K × V)
pairs K V c d = record {
  save = λ (k, v). array (item (c.save k) (item (d.save v) end));
  load = λ t. elim t [
    | array (item a (item b end)) ↦ c.load a >>= λ k. (d.load b >>= λ v. ok (k, v))
    | _ ↦ throws
  ];
}

pairs-AllKept :
    (K V : Type 0) (c : Codec Tree K) (d : Codec Tree V) (m : Dict K V)
    → MapKept c d m
    → AllKept (pairs K V c d) m
pairs-AllKept K V c d [] h = tt
pairs-AllKept K V c d ((k, v) ∷ m) (p, q, new_key, h) = (rw (p, q), pairs-AllKept K V c d m h)

abbrev members : List (Nvp × Tree) → Members
members [] = last
members ((n, t) ∷ ms) = named n t (members ms)

abbrev listed : Members → List (Nvp × Tree)
listed last = []
listed (named n t ms) = (n, t) ∷ listed ms

-- The pairs before the first that cannot be read.
abbrev load_front : {A : Type 0} → (Tree → Result A) → Trees → List A
load_front f end = []
load_front f (item t ts) = elim (f t) [ ok x ↦ x ∷ load_front f ts | throws ↦ [] | undefined ↦ [] ]

listed-members : (ms : List (Nvp × Tree)) → listed (members ms) ≡ ms
listed-members [] = refl
listed-members ((n, t) ∷ ms) = rw (listed-members ms)

abbrev member_of : Nvp → Tree → Result Tree
member_of n (node ms) = found n (listed ms)
member_of n _ = throws

abbrev trees : Cereal
trees = record {
  Node = Tree;
  object = λ ms. node (members ms);
  member = member_of;
  short = numbers;
  float = numbers;
  time_t = signeds;
  string = texts;
  bytes = texts;
  list = lists;
  map = λ K V c d. lists (K × V) (pairs K V c d);
  map_left = λ K V c d t old. elim t [ array ts ↦ load_front (pairs K V c d).load ts | _ ↦ old ];
  member-object = λ n ms. ap (found n) (listed-members ms);
  list-Keeps = load_all-save_all;
  map-Keeps =
      λ K V c d m h. load_all-save_all (K × V) (pairs K V c d) m (pairs-AllKept K V c d m h);
}

-- Two clients, the second of which follows the first.
abbrev two_clients : Manager
two_clients = record {
  next_id = 3;
  clients_id = (10 ∷ [], 1) ∷ (11 ∷ [], 2) ∷ [];
  clients_name = (97 ∷ [], 1) ∷ [];
  clients_data =
      (
        1,
        record {
          public_key = 10 ∷ [];
          name = 97 ∷ [];
          positions = record { latitude = 5; longitude = 6; time = pos 7 } ∷ [];
          followers = 2 ∷ [];
          following = [];
        },
      )
      ∷ (
        2,
        record {
          public_key = 11 ∷ [];
          name = [];
          positions = [];
          followers = [];
          following = record { id = 1; time = pos 0; name = [] } ∷ [];
        },
      )
      ∷ [];
  clients_queue = (1, 100) ∷ [];
}

two_clients-ManagerKept : ManagerKept trees two_clients
two_clients-ManagerKept = record {
  next_id = refl;
  clients_id = (refl, refl, ((λ e. cc, tt)), (refl, refl, tt, tt));
  clients_name = (refl, refl, tt, tt);
  clients_data = (
    refl,
    record {
      public_key = refl;
      name = refl;
      positions = (record { latitude = refl; longitude = refl; time = refl }, tt);
      followers = (refl, tt);
      following = tt;
    },
    (λ e. absurd (omega arith), tt),
    (
      refl,
      record {
        public_key = refl;
        name = refl;
        positions = tt;
        followers = tt;
        following = (record { id = refl; time = refl; name = refl }, tt);
      },
      tt,
      tt,
    ),
  );
}

database-destroyed_example :
    database trees (destroyed trees true two_clients none)
    ≡ record two_clients { clients_queue = [] }
database-destroyed_example = database-destroyed trees two_clients none two_clients-ManagerKept

-- A file in which the data of the first of two clients can be read, and that of the second cannot.
abbrev first_client : Tree
first_client = node (
    named Nvp.public_key (text (10 ∷ [])) (
      named Nvp.name (text []) (
        named Nvp.positions (array end)
          (named Nvp.followers (array end) (named Nvp.following (array end) last)))))

abbrev pair : Tree → Tree → Tree
pair k v = array (item k (item v end))

abbrev damaged : Tree
damaged = node (
    named Nvp.next_id (number 3) (
      named Nvp.clients_id
        (array
          (item (pair (text (10 ∷ [])) (number 1)) (item (pair (text (11 ∷ [])) (number 2)) end)))
        (named Nvp.clients_name (array end) (
          named Nvp.clients_data
            (array (item (pair (number 1) first_client) (item (pair (number 2) (number 7)) end)))
            last))))

abbrev damaged_ids : Dict (List ℕ) ℕ
damaged_ids = (10 ∷ [], 1) ∷ (11 ∷ [], 2) ∷ []

known_key : lookup (11 ∷ []) damaged_ids ≡ some 2
unfolding lookup
known_key = refl

unreadable : read trees Nvp.clients_data (clients trees) damaged ≡ throws
unfolding client_data position watcher
unreadable = refl

first_left :
    clients_left trees damaged new.clients_data
    ≡ (
      1,
      record { public_key = 10 ∷ []; name = []; positions = []; followers = []; following = [] },
    )
      ∷ []
unfolding client_data position watcher new
first_left = refl

second_missing : lookup 2 (clients_left trees damaged new.clients_data) ≡ none
unfolding lookup
second_missing = rw first_left refl

register_client_broken_example :
    ((register_client (11 ∷ []) 100 (database trees (some (ok damaged)))).0 ≡ 2)
    × (set_name 2 (97 ∷ []) (register_client (11 ∷ []) 100 (database trees (some (ok damaged)))).1
        ≡ undefined)
register_client_broken_example =
    register_client_broken trees damaged 3 2 100 damaged_ids [] (11 ∷ []) (97 ∷ []) refl refl refl
      unreadable second_missing known_key
