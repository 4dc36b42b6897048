-- ===== src/Database/Manager/Calls/NameHistory.antt =====
-- The table of names through any history of calls.
use tin_locus.Base.{
  ℕ, ◌≡◌, ◌≢◌, ◌↔◌, sym, ◌∙◌, inl, inr, List, [], some, arith, nat_eq, bytes_eq, ok, Option-cases,
}
use tin_locus.Base.Dict.{Dict, lookup, modify, insert}
use tin_locus.Database.ClientData.{ClientData, Watcher}
use tin_locus.Database.ClientData
use tin_locus.Database.Manager.{Manager, new, register_client, unregister}
use tin_locus.Database.Manager.Graph.{lookup-insert}
use tin_locus.Database.Manager.Calls.{Call}
use tin_locus.Database.Manager.Calls.History.{run}
use tin_locus.Database.Manager.Calls.Invariant.{KeepsCard, Stays, run-Stays}
use tin_locus.Database.Manager.Calls.NameTable.{
  IsIndexed, name_of, name_of-modify, renamed-IsIndexed,
}

-- Other clients' data with the same names.
same_names-IsIndexed :
    (m : Manager) (d : Dict ℕ ClientData)
    → ((a : ℕ) → name_of d a ≡ name_of m.clients_data a)
    → IsIndexed m
    → IsIndexed (record m { clients_data = d })
same_names-IsIndexed m d same h name id ne =
    (λ q. same id ∙ (h name id ne).0 q, λ q. (h name id ne).1 (sym (same id) ∙ q))

modified-IsIndexed :
    (k : ℕ) (g : ClientData → ClientData) (m : Manager)
    → KeepsCard g
    → IsIndexed m
    → IsIndexed (record m { clients_data = modify k g m.clients_data })
modified-IsIndexed k g m same h =
    same_names-IsIndexed m (modify k g m.clients_data)
      (name_of-modify k g m.clients_data (λ c. (same c).1)) h

name_of-insert :
    (k : ℕ) (key : List ℕ) (d : Dict ℕ ClientData) (a : ℕ)
    → name_of (insert k (ClientData.new_client key) d) a ≡ name_of d a
unfolding ClientData.new_client
name_of-insert k key d a = elim (Option-cases (lookup a d)) [
  | inl e ↦ ground (arith, lookup-insert k a (ClientData.new_client key) d)
  | inr (c, e) ↦ ground (arith, lookup-insert k a (ClientData.new_client key) d)
]

register_client-IsIndexed :
    (key : List ℕ) (queue : ℕ) (m : Manager)
    → IsIndexed m
    → IsIndexed (register_client key queue m).1
unfolding register_client
register_client-IsIndexed key queue m h = elim (Option-cases (lookup key m.clients_id)) [
  | inl e ↦
      rw (e, register_client)
        (same_names-IsIndexed m (insert m.next_id (ClientData.new_client key) m.clients_data)
          (name_of-insert m.next_id key m.clients_data) h)
  | inr (id, e) ↦ rw (e, register_client) h
]

pub run-IsIndexed : (cs : List Call) (m : Manager) → IsIndexed m → Stays IsIndexed (run cs m)
unfolding unregister
run-IsIndexed =
    run-Stays IsIndexed register_client-IsIndexed (λ id m h. h) modified-IsIndexed renamed-IsIndexed

pub new-IsIndexed : IsIndexed new
unfolding new lookup
new-IsIndexed n i k = (λ q. cc, λ q. absurd (k (sym q)))

-- After any history of calls from the empty manager that stays defined, a name that is not empty is
-- in the table exactly under the client that has it.
pub run-new-IsIndexed :
    (cs : List Call) (m : Manager) (name : List ℕ) (id : ℕ)
    → run cs new ≡ ok m
    → name ≢ []
    → (lookup name m.clients_name ≡ some id) ↔ (name_of m.clients_data id ≡ name)
run-new-IsIndexed cs m name id ran ne = (rw ran at (run-IsIndexed cs new new-IsIndexed)) name id ne
