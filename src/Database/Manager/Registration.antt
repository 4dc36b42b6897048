-- ===== src/Database/Manager/Registration.antt =====
-- Clients by their public keys, and the queues of those that are connected.
use tin_locus.Base.{
  ℕ, ◌≡◌, refl, sym, ap, ◌∙◌, inl, inr, List, Option, none, some, nat_eq, bytes_eq, Option-cases,
}
use tin_locus.Base.Dict.{lookup, insert, kept, lookup-insert_self, lookup-erase_self}
use tin_locus.Database.Manager.{Manager, register_client, unregister, known_or_new}

-- `registerClient` of a key that is known.
register_known :
    (key : List ℕ) (q id : ℕ) (m : Manager)
    → lookup key m.clients_id ≡ some id
    → register_client key q m ≡ (id, record m { clients_queue = insert id q m.clients_queue })
unfolding register_client
register_known key q id m e = rw e

registered :
    (key : List ℕ) (q : ℕ) (m : Manager)
    → lookup key (register_client key q m).1.clients_id ≡ some (register_client key q m).0
unfolding register_client
registered key q m = elim (Option-cases (lookup key m.clients_id)) [
  | inl e ↦
      rw (e, register_client)
        (lookup-insert_self key m.next_id m.clients_id ∙ ap (kept m.next_id) e)
  | inr (id, e) ↦ rw (e, register_client) e
]

kept-some : (q : ℕ) (o : Option ℕ) → (p : ℕ) × (kept q o ≡ some p)
kept-some q none = (q, refl)
kept-some q (some p) = (p, refl)

connected :
    (key : List ℕ) (q : ℕ) (m : Manager)
    → (p : ℕ) × (lookup (register_client key q m).0 (register_client key q m).1.clients_queue
        ≡ some p)
unfolding register_client
connected key q m =
    let (id, n) = known_or_new key m (lookup key m.clients_id) in
    let (p, e) = kept-some q (lookup id n.clients_queue) in
    (p, lookup-insert_self id q n.clients_queue ∙ e)

-- Who has registered once gets the same identifier at the next time, and nothing but the queues
-- can change then.
pub register_client_again :
    (key : List ℕ) (q r : ℕ) (m : Manager)
    → let (id, n) = register_client key q m in
      let (id', n') = register_client key r n in
      (id' ≡ id) × (n' ≡ record n { clients_queue = n'.clients_queue })
register_client_again key q r m =
    rw (register_known key r _ (register_client key q m).1 (registered key q m)) (refl, refl)

-- The queue of a second session of a client is not taken while the first one is connected, and when
-- one of the two leaves, no queue of the client is left: the other session gets no more notices.
pub unregister-register_client :
    (key : List ℕ) (q r : ℕ) (m : Manager)
    → let (id, n) = register_client key q m in
      let (id', n') = register_client key r n in
      (lookup id n'.clients_queue ≡ lookup id n.clients_queue)
      × (lookup id (unregister id' n').clients_queue ≡ none)
unfolding unregister
unregister-register_client key q r m =
    let (id, n) = register_client key q m in
    let (p, e) = connected key q m in
    rw (register_known key r id n (registered key q m)) (
      lookup-insert_self id r n.clients_queue ∙ ap (kept r) e ∙ sym e,
      lookup-erase_self id (insert id r n.clients_queue),
    )
