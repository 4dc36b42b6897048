-- ===== src/BlockingQueue/Invariant.antt =====
-- The pipe of a queue holds one byte for each element, so that a reader is woken exactly while
-- there is something to read.
use tin_locus.Base.{
  ℕ, suc, ◌+◌, ◌≤◌, ◌≡◌, refl, inl, inr, Bool, true, false, List, [], ◌∷◌, ◌++◌, arith, length,
  length-append, Result, ok, throws, undefined, none, Bool-cases, Option-cases, ltb, ◌==◌,
}
use tin_locus.PipeBuffer.{PipeOs, PipeBuffer}
use tin_locus.BlockingQueue.{
  BlockingQueue, Wait, waits, done, insert_at, is_free, new, push, priority_push,
}
use mathlib.Core.List.{Perm}
use mathlib.Core.List.Perm

-- The elements in the order in which they will be handed out.
abbrev pub pending {ℓ} : {T : Type ℓ} → List (ℕ × T) → List T → List T
pending [] xs = xs
pending ((a, x) ∷ s) xs = x ∷ pending s xs

length-pending {ℓ} :
    {T : Type ℓ} (s : List (ℕ × T)) (xs : List T) → length (pending s xs) ≡ length s + length xs
length-pending [] xs = omega arith
length-pending (p ∷ s) xs = omega (arith, length-pending s xs)

length-insert_at {ℓ} :
    {T : Type ℓ} (a : ℕ) (x : T) (s : List (ℕ × T))
    → is_free a s ≡ true
    → length (insert_at a x s) ≡ suc (length s)
unfolding insert_at is_free
length-insert_at a x [] h = refl
length-insert_at a x ((b, y) ∷ s) h = ground (arith, length-insert_at a x s)

pending-snoc {ℓ} :
    {T : Type ℓ} (s : List (ℕ × T)) (xs : List T) (x : T)
    → pending s (xs ++ x ∷ []) ≡ pending s xs ++ x ∷ []
pending-snoc [] xs x = refl
pending-snoc ((a, y) ∷ s) xs x = rw (pending-snoc s xs x)

pending-insert_at {ℓ} :
    {T : Type ℓ} (a : ℕ) (x : T) (s : List (ℕ × T)) (xs : List T)
    → is_free a s ≡ true
    → Perm (pending (insert_at a x s) xs) (x ∷ pending s xs)
unfolding insert_at is_free
pending-insert_at a x [] xs h = Perm.refl (x ∷ xs)
pending-insert_at a x ((b, y) ∷ s) xs h = elim (Bool-cases (ltb a b)) [
  | inl first ↦ rw first (Perm.refl (x ∷ y ∷ pending s xs))
  | inr later ↦ elim (Bool-cases (a == b)) [
    | inl taken ↦ ground (arith)
    | inr other ↦
        rw (later, other)
          (Perm.trans (Perm.cons y (pending-insert_at a x s xs (ground arith)))
            (Perm.swap x y (pending s xs)))
  ]
]

module _ (os : PipeOs) {T : Type 0} (default : T) where
  abbrev Q : Type 0
  Q = BlockingQueue os default

  pub record IsValid (q : Q) : Type 0 where
    pub signalled : os.held q.pipe_buffer.pipe ≡ length q.queue + length q.priority
    pub bounded : length q.queue ≤ q.max_queue_size

  abbrev pub view : Q → List T
  view q = pending q.priority q.queue

  new-IsValid : (m : ℕ) (p : PipeBuffer os) → os.held p.pipe ≡ 0 → IsValid (new os default m p)
  unfolding new
  new-IsValid m p h = record { signalled = omega arith; bounded = omega arith }

  -- What `push` owes.
  abbrev pub Pushes : T → Q → Wait (Result (Unit {0}) × Q) → Type 0
  Pushes x q waits = length q.queue ≡ q.max_queue_size
  Pushes x q (done (ok u, r)) = IsValid r × (view r ≡ view q ++ x ∷ [])
  Pushes x q (done (throws, r)) = os.write_byte q.pipe_buffer.pipe ≡ none
  Pushes x q (done (undefined, r)) = ⊥

  -- `push` keeps its promise: it waits only while the queue is full, and otherwise appends the
  -- element and its byte, unless the pipe refuses the byte.
  pub push-Pushes : (x : T) (q : Q) → IsValid q → Pushes x q (push os default x q)
  unfolding push
  push-Pushes x q v = elim (Bool-cases (ltb (length q.queue) q.max_queue_size)) [
    | inl room ↦ elim (Option-cases (os.write_byte q.pipe_buffer.pipe)) [
      | inl e ↦ rw (room, e) e
      | inr (p, e) ↦
          rw (room, e)
            (
              record {
                signalled =
                    omega (arith, os.held-write _ p e, v.signalled, length-append q.queue (x ∷ []));
                bounded = ground (arith, length-append q.queue (x ∷ []));
              },
              pending-snoc q.priority q.queue x,
            )
    ]
    | inr full ↦ rw full (ground (arith, v.bounded))
  ]

  -- What `priorityPush` at an address owes.
  abbrev pub PriorityPushes : ℕ → T → Q → Result Bool × Q → Type 0
  PriorityPushes a x q (ok true, r) =
      (is_free a q.priority ≡ true) × IsValid r × Perm (view r) (x ∷ view q) × (r.queue ≡ q.queue)
  PriorityPushes a x q (ok false, r) = (is_free a q.priority ≡ false) × (r ≡ q)
  PriorityPushes a x q (throws, r) = os.write_byte q.pipe_buffer.pipe ≡ none
  PriorityPushes a x q (undefined, r) = ⊥

  -- `priorityPush` keeps its promise: it never waits, adds the element and its byte unless the
  -- address is taken, and throws only if the pipe refuses the byte.
  pub priority_push-PriorityPushes :
      (a : ℕ) (x : T) (q : Q) → IsValid q → PriorityPushes a x q (priority_push os default a x q)
  unfolding priority_push
  priority_push-PriorityPushes a x q v = elim (Bool-cases (is_free a q.priority)) [
    | inl free ↦ elim (Option-cases (os.write_byte q.pipe_buffer.pipe)) [
      | inl e ↦ rw (free, e) e
      | inr (p, e) ↦
          rw (free, e)
            (
              free,
              record {
                signalled =
                    omega (
                      arith,
                      os.held-write _ p e,
                      v.signalled,
                      length-insert_at a x q.priority free,
                    );
                bounded = v.bounded;
              },
              pending-insert_at a x q.priority q.queue free,
              refl,
            )
    ]
    | inr taken ↦ rw taken (taken, refl)
  ]

  -- What `push` leaves of any queue, valid or not, whether or not the pipe takes the byte.
  abbrev pub Appends : T → Q → Wait (Result (Unit {0}) × Q) → Type 0
  Appends x q waits = q.max_queue_size ≤ length q.queue
  Appends x q (done (r, p)) = p.queue ≡ q.queue ++ x ∷ []

  pub push-Appends : (x : T) (q : Q) → Appends x q (push os default x q)
  unfolding push
  push-Appends x q = elim (Bool-cases (ltb (length q.queue) q.max_queue_size)) [
    | inl room ↦ elim (Option-cases (os.write_byte q.pipe_buffer.pipe)) [
      | inl e ↦ rw (room, e)
      | inr (p, e) ↦ rw (room, e)
    ]
    | inr full ↦ rw full (ground arith)
  ]
