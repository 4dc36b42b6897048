-- ===== src/Database/Manager/Calls/NameTable.antt =====
-- The table of names, `clientsName`, against the names that the clients hold.
use tin_locus.Base.{
  ℕ, ◌≡◌, ◌≢◌, ◌↔◌, refl, sym, ◌∙◌, inl, inr, List, [], ◌∷◌, Option, none, some, arith, ap, nat_eq,
  bytes_eq, Option-cases,
}
use tin_locus.Base.Dict.{
  Dict, lookup, modify, insert, lookup-modify_self, lookup-modify_ne, lookup-insert_self,
  lookup-insert_ne, lookup-erase_self, lookup-erase_ne, key-cases,
}
use tin_locus.Database.ClientData.{ClientData, Watcher}
use tin_locus.Database.ClientData
use tin_locus.Database.Manager.{Manager, without, is_nil}
use tin_locus.Database.Manager.Graph.{lookup-modify}

-- The name of a client; one that is not there, or has none yet, has the empty name.
abbrev name_in : Option ClientData → List ℕ
name_in none = []
name_in (some c) = c.name

abbrev pub name_of : Dict ℕ ClientData → ℕ → List ℕ
name_of d id = name_in (lookup id d)

-- A name that is not empty is in the table exactly under the client that has it.
abbrev pub IsIndexed : Manager → Type 0
IsIndexed m =
    (name : List ℕ) (id : ℕ)
    → name ≢ []
    → (lookup name m.clients_name ≡ some id) ↔ (name_of m.clients_data id ≡ name)

-- A write to a client that keeps its name.
pub name_of-modify :
    (k : ℕ) (g : ClientData → ClientData) (d : Dict ℕ ClientData)
    → ((c : ClientData) → (g c).name ≡ c.name)
    → (a : ℕ) → name_of (modify k g d) a ≡ name_of d a
name_of-modify k g d same a = elim (Option-cases (lookup a d)) [
  | inl e ↦ ground (arith, lookup-modify k a g d)
  | inr (c, e) ↦ ground (arith, lookup-modify k a g d, same c)
]

name_of-set_name_self :
    (k : ℕ) (name : List ℕ) (d : Dict ℕ ClientData) (c : ClientData)
    → lookup k d ≡ some c
    → name_of (modify k (ClientData.set_name name) d) k ≡ name
unfolding ClientData.set_name
name_of-set_name_self k name d c e = rw (lookup-modify_self k (ClientData.set_name name) d, e)

name_of-set_name_ne :
    (k a : ℕ) (name : List ℕ) (d : Dict ℕ ClientData)
    → a ≢ k
    → name_of (modify k (ClientData.set_name name) d) a ≡ name_of d a
name_of-set_name_ne k a name d h = ap name_in (lookup-modify_ne k a (ClientData.set_name name) d h)

lookup-without_ne :
    (n name : List ℕ) (d : Dict (List ℕ) ℕ) → n ≢ name → lookup n (without name d) ≡ lookup n d
unfolding is_nil
lookup-without_ne n [] d h = refl
lookup-without_ne n (x ∷ xs) d h = lookup-erase_ne (x ∷ xs) n d h

lookup-without_self :
    (name : List ℕ) (d : Dict (List ℕ) ℕ) → name ≢ [] → lookup name (without name d) ≡ none
unfolding is_nil
lookup-without_self [] d h = absurd (h refl)
lookup-without_self (x ∷ xs) d h = lookup-erase_self (x ∷ xs) d

lookup-without-none :
    (n name : List ℕ) (d : Dict (List ℕ) ℕ) → lookup n d ≡ none → lookup n (without name d) ≡ none
unfolding is_nil
lookup-without-none n [] d free = free
lookup-without-none n (x ∷ xs) d free = elim (key-cases n (x ∷ xs)) [
  | inl same ↦ rw same (lookup-erase_self (x ∷ xs) d)
  | inr other ↦ lookup-erase_ne (x ∷ xs) n d other ∙ free
]

-- The table and the clients after a new name for one of them.
pub renamed-IsIndexed :
    (my : ℕ) (name : List ℕ) (m : Manager) (c : ClientData)
    → lookup my m.clients_data ≡ some c
    → lookup name m.clients_name ≡ none
    → IsIndexed m
    → IsIndexed (record m {
      clients_name = insert name my (without c.name m.clients_name);
      clients_data = modify my (ClientData.set_name name) m.clients_data;
    })
renamed-IsIndexed my name m c e free h n id ne = elim (key-cases n name) [
  | inl same ↦ elim (key-cases id my) [
    | inl mine ↦ (λ q. cc (named, same, mine), λ q. cc (entered, same, mine))
    | inr other ↦ (
      λ q. absurd (other (cc (entered, same, q))),
      λ q. absurd (taken (kept_name other q ∙ same) same),
    )
  ]
  | inr differs ↦ elim (key-cases n c.name) [
    | inl was ↦ (
      λ q. absurd (gone was differs q),
      λ q. elim (key-cases id my) [
        | inl mine ↦ absurd (differs (cc (named, mine, q)))
        | inr other ↦ absurd (other (owner was (kept_name other q)))
      ],
    )
    | inr wasnt ↦ elim (key-cases id my) [
      | inl mine ↦ (
        λ q. absurd (wasnt (sym ((h n id ne).0 (sym (elsewhere differs wasnt) ∙ q)) ∙ held mine)),
        λ q. absurd (differs (cc (named, mine, q))),
      )
      | inr other ↦ (
        λ q. rename_ne other ∙ (h n id ne).0 (sym (elsewhere differs wasnt) ∙ q),
        λ q. elsewhere differs wasnt ∙ (h n id ne).1 (kept_name other q),
      )
    ]
  ]
]
  where
    table : Dict (List ℕ) ℕ
    table = insert name my (without c.name m.clients_name)

    clients : Dict ℕ ClientData
    clients = modify my (ClientData.set_name name) m.clients_data

    named : name_of clients my ≡ name
    named = name_of-set_name_self my name m.clients_data c e

    entered : lookup name table ≡ some my
    entered = rw (
      lookup-insert_self name my (without c.name m.clients_name),
      lookup-without-none name c.name m.clients_name free,
    )

    rename_ne : id ≢ my → name_of clients id ≡ name_of m.clients_data id
    rename_ne other = name_of-set_name_ne my id name m.clients_data other

    kept_name : id ≢ my → name_of clients id ≡ n → name_of m.clients_data id ≡ n
    kept_name other q = sym (rename_ne other) ∙ q

    held : id ≡ my → name_of m.clients_data id ≡ c.name
    held mine = rw mine (ap name_in e)

    taken : name_of m.clients_data id ≡ name → n ≡ name → ⊥
    taken q same = cc ((h n id ne).1 (q ∙ sym same), free, same)

    elsewhere : n ≢ name → n ≢ c.name → lookup n table ≡ lookup n m.clients_name
    elsewhere differs wasnt =
        lookup-insert_ne name n my (without c.name m.clients_name) differs
        ∙ lookup-without_ne n c.name m.clients_name wasnt

    gone : n ≡ c.name → n ≢ name → lookup n table ≡ some id → ⊥
    gone was differs q = cc (
      lookup-insert_ne name n my (without c.name m.clients_name) differs,
      lookup-without_self c.name m.clients_name (λ k. ne (was ∙ k)),
      was,
      q,
    )

    owner : n ≡ c.name → name_of m.clients_data id ≡ n → id ≡ my
    owner was q = cc ((h n id ne).1 q, (h n my ne).1 (ap name_in e ∙ sym was))
