-- ===== src/BlockingQueue/Pop.antt =====
-- What a reader gets: the priority elements first, by their addresses, then the others in the order
-- in which they came.
use tin_locus.Base.{ℕ, ◌≡◌, refl, Bool, true, false, ◌&&◌, List, [], ◌∷◌, arith, Result, ok, throws}
use tin_locus.PipeBuffer.{PipeOs, PipeBuffer}
use tin_locus.BlockingQueue.{BlockingQueue, pop_for, move_from}
use tin_locus.BlockingQueue.Invariant.{IsValid, view, pending}

and_false : (b : Bool) → (b && false) ≡ false
and_false true = refl
and_false false = refl

module _ (os : PipeOs) {T : Type 0} (default : T) where
  abbrev Q : Type 0
  Q = BlockingQueue os default

  -- What `pop_for` owes on a queue that shows the elements.
  abbrev pub PopsFor : List T → Q → Result T × Q → Type 0
  PopsFor [] q r = r ≡ (ok default, q)
  PopsFor (x ∷ rest) q r =
      (q' : Q) × (r ≡ (ok x, q'))
      × (view os default q' ≡ rest)
      × (q'.max_queue_size ≡ q.max_queue_size)
      × IsValid os default q'

  pop_cases :
      (s : List (ℕ × T)) (xs : List T) (m : ℕ) (p : PipeBuffer os)
      → let q : Q = record { queue = xs; priority = s; max_queue_size = m; pipe_buffer = p } in
        IsValid os default q → PopsFor (pending s xs) q (pop_for os default q)
  unfolding pop_for
  pop_cases [] [] m p v = refl
  pop_cases [] (x ∷ xs) m p v =
      let (p', e) = os.read_ready p.pipe (omega arith) in
      (
        record {
          queue = xs;
          priority = [];
          max_queue_size = m;
          pipe_buffer = record p { pipe = p' };
        },
        rw e,
        refl,
        refl,
        record {
          signalled = omega (arith, os.held-read _ p' e, v.signalled);
          bounded = omega (arith, v.bounded);
        },
      )
  pop_cases ((a, x) ∷ s) xs m p v =
      let (p', e) = os.read_ready p.pipe (omega arith) in
      (
        record {
          queue = xs;
          priority = s;
          max_queue_size = m;
          pipe_buffer = record p { pipe = p' };
        },
        rw (and_false, e),
        refl,
        refl,
        record { signalled = omega (arith, os.held-read _ p' e, v.signalled); bounded = v.bounded },
      )

  -- `pop_for` keeps its promise: on a valid queue it never throws; it hands out the first pending
  -- element and keeps the others, or returns the default element if there is none.
  pub pop_for-PopsFor :
      (q : Q) → IsValid os default q → PopsFor (view os default q) q (pop_for os default q)
  pop_for-PopsFor q v = pop_cases q.priority q.queue q.max_queue_size q.pipe_buffer v

  move_cases :
      (s : List (ℕ × T)) (xs : List T) (m : ℕ) (p : PipeBuffer os) (x : T) (rest : List T)
      → os.held p.pipe ≡ 0
      → pending s xs ≡ x ∷ rest
      → let q : Q = record { queue = xs; priority = s; max_queue_size = m; pipe_buffer = p } in
        ((pop_for os default q).0 ≡ throws) × (view os default (pop_for os default q).1 ≡ rest)
  unfolding pop_for
  move_cases [] [] m p x rest h e = cc
  move_cases [] (y ∷ xs) m p x rest h e = rw (os.read_empty p.pipe h) (refl, cc)
  move_cases ((a, y) ∷ s) xs m p x rest h e = rw (and_false, os.read_empty p.pipe h) (refl, cc)

  -- The move constructor gives the new queue a pipe of its own. If the old queue had a pending
  -- element, the first `pop_for` of the new one throws, and the element is gone.
  pub pop_for-move_from :
      (q : Q) (p : PipeBuffer os) (x : T) (rest : List T)
      → os.held p.pipe ≡ 0
      → view os default q ≡ x ∷ rest
      → let r = pop_for os default (move_from os default q p) in
        (r.0 ≡ throws) × (view os default r.1 ≡ rest)
  unfolding move_from
  pop_for-move_from q p x rest h e = move_cases q.priority q.queue q.max_queue_size p x rest h e
