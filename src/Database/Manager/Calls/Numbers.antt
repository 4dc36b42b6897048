-- ===== src/Database/Manager/Calls/Numbers.antt =====
-- The identifiers that `addClient` gives out, through any history of calls.
use tin_locus.Base.{
  ℕ, ◌+◌, ◌%◌, ◌^◌, ◌≤◌, ◌<◌, ◌≡◌, ◌≢◌, refl, sym, ap, ◌∙◌, inl, inr, List, [], ◌∷◌, Option, none,
  some, arith, nat_eq, bytes_eq, ok, Option-cases, length,
}
use tin_locus.Base.Dict.{
  Dict, lookup, modify, insert, lookup-insert_self, lookup-insert_ne, key-cases,
}
use tin_locus.Database.ClientData.{ClientData}
use tin_locus.Database.ClientData
use tin_locus.Database.Manager.{Manager, new, register_client, add_client, unregister}
use tin_locus.Database.Manager.Graph.{lookup-modify}
use tin_locus.Database.Manager.Calls.{Call}
use tin_locus.Database.Manager.Calls.History.{run}
use tin_locus.Database.Manager.Calls.Invariant.{KeepsCard, renamed_manager, Stays, run-Stays}

abbrev key_in : Option ClientData → Option (List ℕ)
key_in none = none
key_in (some c) = some c.public_key

abbrev pub key_of : Dict ℕ ClientData → ℕ → Option (List ℕ)
key_of d id = key_in (lookup id d)

-- Whoever is registered has a number that was given out, and the client of that number has its key;
-- the numbers that were not given out have no client.
pub record IsNumbered (m : Manager) : Type 0 where
  pub counted : m.next_id ≡ length m.clients_id + 1
  pub owned :
      (key : List ℕ) (id : ℕ)
      → lookup key m.clients_id ≡ some id
      → (0 < id) × (id < m.next_id) × (key_of m.clients_data id ≡ some key)
  pub unused : (id : ℕ) → m.next_id ≤ id → key_of m.clients_data id ≡ none

-- As long as the 16 bits of `nextId` have not wrapped.
abbrev pub IsNumberedBelow : Manager → Type 0
IsNumberedBelow m = length m.clients_id + 1 < 2 ^ 16 → IsNumbered m

key_of-modify :
    (k : ℕ) (g : ClientData → ClientData) (d : Dict ℕ ClientData)
    → ((c : ClientData) → (g c).public_key ≡ c.public_key)
    → (a : ℕ) → key_of (modify k g d) a ≡ key_of d a
key_of-modify k g d same a = elim (Option-cases (lookup a d)) [
  | inl e ↦ ground (arith, lookup-modify k a g d)
  | inr (c, e) ↦ ground (arith, lookup-modify k a g d, same c)
]

same_keys-IsNumbered :
    (m n : Manager)
    → n.next_id ≡ m.next_id
    → n.clients_id ≡ m.clients_id
    → ((a : ℕ) → key_of n.clients_data a ≡ key_of m.clients_data a)
    → IsNumbered m
    → IsNumbered n
same_keys-IsNumbered m n next ids same h = record {
  counted = next ∙ h.counted ∙ ap (λ d. length d + 1) (sym ids);
  owned = λ key id e.
      let (low, high, holds) = h.owned key id (ap (lookup key) (sym ids) ∙ e) in
      (low, rw next high, same id ∙ holds);
  unused = λ id le. same id ∙ h.unused id (rw (← next) le);
}

modified-IsNumbered :
    (k : ℕ) (g : ClientData → ClientData) (m : Manager)
    → KeepsCard g
    → IsNumberedBelow m
    → IsNumberedBelow (record m { clients_data = modify k g m.clients_data })
modified-IsNumbered k g m same h below =
    same_keys-IsNumbered m _ refl refl (key_of-modify k g m.clients_data (λ c. (same c).0))
      (h below)

renamed-IsNumbered :
    (my : ℕ) (name : List ℕ) (m : Manager) (c : ClientData)
    → lookup my m.clients_data ≡ some c
    → lookup name m.clients_name ≡ none
    → IsNumberedBelow m
    → IsNumberedBelow (renamed_manager my name m c)
unfolding ClientData.set_name
renamed-IsNumbered my name m c e free h below =
    same_keys-IsNumbered m _ refl refl
      (key_of-modify my (ClientData.set_name name) m.clients_data (λ c. refl)) (h below)

length-insert :
    (key : List ℕ) (id : ℕ) (d : Dict (List ℕ) ℕ)
    → lookup key d ≡ none
    → length (insert key id d) ≡ length d + 1
unfolding lookup insert
length-insert key id [] e = refl
length-insert key id ((k, v) ∷ d) e = ground (arith, length-insert key id d)

no_client : (id : ℕ) (d : Dict ℕ ClientData) → key_of d id ≡ none → lookup id d ≡ none
no_client id d h = elim (Option-cases (lookup id d)) [
  | inl e ↦ e
  | inr (c, e) ↦ absurd (ground arith)
]

key_of-insert_self :
    (id : ℕ) (key : List ℕ) (d : Dict ℕ ClientData)
    → key_of d id ≡ none
    → key_of (insert id (ClientData.new_client key) d) id ≡ some key
unfolding ClientData.new_client
key_of-insert_self id key d h =
    rw (lookup-insert_self id (ClientData.new_client key) d, no_client id d h)

key_of-insert_ne :
    (id a : ℕ) (key : List ℕ) (d : Dict ℕ ClientData)
    → a ≢ id
    → key_of (insert id (ClientData.new_client key) d) a ≡ key_of d a
key_of-insert_ne id a key d h = ap key_in (lookup-insert_ne id a (ClientData.new_client key) d h)

-- A key that is new gets the next number.
added-IsNumbered :
    (key : List ℕ) (m : Manager)
    → lookup key m.clients_id ≡ none
    → length m.clients_id + 2 < 2 ^ 16
    → IsNumbered m
    → IsNumbered (add_client key m).1
unfolding add_client
added-IsNumbered key m e below h = record {
  counted = next ∙ ap (λ n. n + 1) h.counted ∙ sym more;
  owned = λ k id found. elim (key-cases k key) [
    | inl same ↦
        rw (newest k id same found, same, next)
          (
            omega (arith, h.counted),
            omega arith,
            key_of-insert_self m.next_id key m.clients_data vacant,
          )
    | inr other ↦
        let old : (0 < id) × (id < m.next_id) × (key_of m.clients_data id ≡ some k) =
          h.owned k id (sym (lookup-insert_ne key k m.next_id m.clients_id other) ∙ found) in
        (
          old.0,
          rw next (omega (arith, old.1)),
          key_of-insert_ne m.next_id id key m.clients_data (λ q. absurd (omega (arith, old.1, q)))
              ∙ old.2,
        )
  ];
  unused = λ id le.
      key_of-insert_ne m.next_id id key m.clients_data
        (λ q. absurd (omega (arith, rw next at le, q)))
      ∙ h.unused id (omega (arith, rw next at le));
}
  where
    more : length (insert key m.next_id m.clients_id) + 1 ≡ length m.clients_id + 1 + 1
    more = ap (λ n. n + 1) (length-insert key m.next_id m.clients_id e)

    next : (m.next_id + 1) % 2 ^ 16 ≡ m.next_id + 1
    next = omega (arith, h.counted)

    vacant : key_of m.clients_data m.next_id ≡ none
    vacant = h.unused m.next_id (omega arith)

    newest :
        (k : List ℕ) (id : ℕ)
        → k ≡ key
        → lookup k (insert key m.next_id m.clients_id) ≡ some id
        → id ≡ m.next_id
    newest k id same found = cc (lookup-insert_self key m.next_id m.clients_id, e, same, found)

registered-IsNumbered :
    (key : List ℕ) (queue : ℕ) (m : Manager)
    → IsNumberedBelow m
    → IsNumberedBelow (register_client key queue m).1
unfolding register_client add_client
registered-IsNumbered key queue m h = elim (Option-cases (lookup key m.clients_id)) [
  | inl e ↦
      rw (e, register_client)
        (λ below.
          let fits : length m.clients_id + 2 < 2 ^ 16 =
            omega (arith, length-insert key m.next_id m.clients_id e, below) in
          same_keys-IsNumbered (add_client key m).1 _ refl refl (λ a. refl)
            (added-IsNumbered key m e fits (h (omega (arith, fits)))))
  | inr (id, e) ↦
      rw (e, register_client) (λ below. same_keys-IsNumbered m _ refl refl (λ a. refl) (h below))
]

pub run-IsNumberedBelow :
    (cs : List Call) (m : Manager) → IsNumberedBelow m → Stays IsNumberedBelow (run cs m)
unfolding unregister
run-IsNumberedBelow =
    run-Stays IsNumberedBelow registered-IsNumbered
      (λ id m h below. same_keys-IsNumbered m _ refl refl (λ a. refl) (h below)) modified-IsNumbered
      renamed-IsNumbered

pub new-IsNumbered : IsNumbered new
unfolding new lookup
new-IsNumbered = record { counted = refl; owned = λ k i e. absurd (cc); unused = λ i le. refl }

-- After any history of calls from the empty manager that stays defined, and that registers fewer than
-- 2 ^ 15 keys, the identifier of a key is a positive `short`, from 1 to 2 ^ 15 - 1; the client of that
-- identifier has the key, and no other key has it.
pub run-new-IsNumbered :
    (cs : List Call) (m : Manager) (key other : List ℕ) (id : ℕ)
    → run cs new ≡ ok m
    → length m.clients_id < 2 ^ 15
    → lookup key m.clients_id ≡ some id
    → (0 < id)
      × (id < 2 ^ 15)
      × (key_of m.clients_data id ≡ some key)
      × (lookup other m.clients_id ≡ some id → other ≡ key)
run-new-IsNumbered cs m key other id ran below found =
    let all : IsNumberedBelow m = rw ran at (run-IsNumberedBelow cs new (λ k. new-IsNumbered)) in
    let h = all (omega arith) in
    let (low, high, holds) = h.owned key id found in
    (low, omega (arith, h.counted, high), holds, λ e. cc ((h.owned other id e).2, holds))
