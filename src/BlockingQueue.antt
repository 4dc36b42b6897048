-- ===== src/BlockingQueue.antt =====
-- server/src/message/BlockingQueue.h: the queue of messages between threads. A method is one atomic
-- step, since its body holds `accessMutex`; `waits` is a condition that does not hold yet.
pub mod Invariant
pub mod Pop
pub mod Tests
use tin_locus.Base.{
  ℕ, zero, suc, ◌+◌, Bool, true, false, not, ◌&&◌, List, [], ◌∷◌, ◌++◌, Result, ok, throws,
  undefined, ltb, ◌==◌, if◌then◌else◌, length, Option, none, some,
}
use tin_locus.PipeBuffer
use tin_locus.PipeBuffer.{PipeOs, PipeBuffer, push_byte_to_pipe, pop_byte_from_pipe}

-- What a call does that may have to wait for its condition.
pub data Wait {ℓ} (A : Type ℓ) : Type ℓ where
  waits : Wait A
  done : A → Wait A

-- `std::set<std::unique_ptr<T>>` is ordered by the addresses of the elements. An element that is
-- inserted at an address stands before those at higher ones; the address of an element that is
-- there is not taken twice.
insert_at {ℓ} : {T : Type ℓ} → ℕ → T → List (ℕ × T) → List (ℕ × T)
insert_at a x [] = (a, x) ∷ []
insert_at a x ((b, y) ∷ s) =
    if ltb a b then (a, x) ∷ (b, y) ∷ s else if a == b then (b, y) ∷ s else (b, y) ∷ insert_at a x s

-- Whether no element stands at the address.
pub is_free {ℓ} : {T : Type ℓ} → ℕ → List (ℕ × T) → Bool
is_free a [] = true
is_free a ((b, y) ∷ s) = not (a == b) && is_free a s

is_nil {ℓ} : {A : Type ℓ} → List A → Bool
is_nil [] = true
is_nil (x ∷ xs) = false

module _ (os : PipeOs) {T : Type 0} (default : T) where
  pub record BlockingQueue : Type 0 where
    pub queue : List T
    pub priority : List (ℕ × T)
    pub max_queue_size : ℕ
    pub pipe_buffer : PipeBuffer os

  -- `BlockingQueue(maxQueueSize)`, with the pipe that its member's constructor opened.
  pub new : ℕ → PipeBuffer os → BlockingQueue
  new m p = record { queue = []; priority = []; max_queue_size = m; pipe_buffer = p }

  -- `BlockingQueue(BlockingQueue &&rth)`: the elements move, and the pipe is a new one.
  pub move_from : BlockingQueue → PipeBuffer os → BlockingQueue
  move_from rth p = record {
    queue = rth.queue;
    priority = rth.priority;
    max_queue_size = rth.max_queue_size;
    pipe_buffer = p;
  }

  -- What the last call, on the pipe, makes of a method: what was written before stays written.
  abbrev signalled {ℓ} :
      {A : Type ℓ} → A → BlockingQueue → Result (PipeBuffer os) → Result A × BlockingQueue
  signalled a q (ok p) = (ok a, record q { pipe_buffer = p })
  signalled a q throws = (throws, q)
  signalled a q undefined = (undefined, q)

  -- `push(elem)`
  pub push : T → BlockingQueue → Wait (Result (Unit {0}) × BlockingQueue)
  unfolding push_byte_to_pipe
  push elem q =
      if ltb (length q.queue) q.max_queue_size
      then (done (
          signalled tt (record q { queue = q.queue ++ elem ∷ [] })
            (push_byte_to_pipe os q.pipe_buffer)))
      else waits

  -- `priorityPush(elem)`, where `make_unique` allocates at `address`.
  pub priority_push : ℕ → T → BlockingQueue → Result Bool × BlockingQueue
  unfolding push_byte_to_pipe insert_at is_free
  priority_push address elem q =
      if is_free address q.priority
      then (signalled true (record q { priority = insert_at address elem q.priority })
          (push_byte_to_pipe os q.pipe_buffer))
      else (ok false, q)

  -- `popWithoutBlocking()`, on the two containers. Its caller saw that one of them has an element.
  take_from : List (ℕ × T) → List T → BlockingQueue → Result T × BlockingQueue
  unfolding pop_byte_from_pipe
  take_from ((a, x) ∷ s) xs q =
      signalled x (record q { priority = s }) (pop_byte_from_pipe os q.pipe_buffer)
  take_from [] (x ∷ xs) q =
      signalled x (record q { queue = xs }) (pop_byte_from_pipe os q.pipe_buffer)
  take_from [] [] q = (undefined, q)

  pub pop_without_blocking : BlockingQueue → Result T × BlockingQueue
  unfolding take_from
  pop_without_blocking q = take_from q.priority q.queue q

  -- `empty()`
  pub is_empty : BlockingQueue → Bool
  unfolding is_nil
  is_empty q = is_nil q.queue && is_nil q.priority

  -- `size()`
  pub size : BlockingQueue → ℕ
  size q = length q.queue + length q.priority

  -- `pop()`
  pub pop : BlockingQueue → Wait (Result T × BlockingQueue)
  unfolding pop_without_blocking is_empty
  pop q = if is_empty q then waits else done (pop_without_blocking q)

  -- `pop_for(real_time)`, once the time is over or an element is there. How long the call waits is not
  -- part of the model: with 0 ms, as `readMessage` calls it, not at all.
  pub pop_for : BlockingQueue → Result T × BlockingQueue
  unfolding pop_without_blocking is_empty
  pop_for q = if is_empty q then (ok default, q) else pop_without_blocking q

  -- `getReadFd()`
  pub get_read_fd : BlockingQueue → ℕ
  get_read_fd q = PipeBuffer.get_read_fd os q.pipe_buffer
