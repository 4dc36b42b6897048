-- ===== src/PipeBuffer.antt =====
-- server/src/buffer/PipeBuffer.h and PipeBuffer.cpp: the pipe that wakes the reader of a queue. The
-- kernel's pipe is a parameter: `write` and `read` of one byte fail or move one byte.
use tin_locus.Base.{
  ℕ, zero, suc, ◌<◌, ◌≡◌, refl, Option, none, some, arith, Result, ok, throws, ltb, if◌then◌else◌,
}

-- What the program relies on of a pipe opened with O_NONBLOCK. `none` is a return value of -1.
pub record PipeOs : Type 1 where
  pub Pipe : Type 0
  pub fresh : Pipe
  pub held : Pipe → ℕ
  pub write_byte : Pipe → Option Pipe
  pub read_byte : Pipe → Option Pipe
  pub held-fresh : held fresh ≡ 0
  pub held-write : (p q : Pipe) → write_byte p ≡ some q → held q ≡ suc (held p)
  pub held-read : (p q : Pipe) → read_byte p ≡ some q → held p ≡ suc (held q)
  pub read_ready : (p : Pipe) → 0 < held p → (q : Pipe) × (read_byte p ≡ some q)
  pub read_empty : (p : Pipe) → held p ≡ 0 → read_byte p ≡ none

module _ (os : PipeOs) where
  pub record PipeBuffer : Type 0 where
    pub pipe_read_fd : ℕ
    pub pipe_write_fd : ℕ
    pub pipe : os.Pipe

  -- The constructor, on what `pipe2` gave: its two descriptors, or an error.
  pub new : Option (ℕ × ℕ) → Result PipeBuffer
  new none = throws
  new (some (r, w)) = ok (record { pipe_read_fd = r; pipe_write_fd = w; pipe = os.fresh })

  abbrev moved : PipeBuffer → Option os.Pipe → Result PipeBuffer
  moved b none = throws
  moved b (some p) = ok (record b { pipe = p })

  -- `pushByteToPipe()`
  unfoldable pub push_byte_to_pipe : PipeBuffer → Result PipeBuffer
  push_byte_to_pipe b = moved b (os.write_byte b.pipe)

  -- `popByteFromPipe()`
  unfoldable pub pop_byte_from_pipe : PipeBuffer → Result PipeBuffer
  pop_byte_from_pipe b = moved b (os.read_byte b.pipe)

  pub get_read_fd : PipeBuffer → ℕ
  get_read_fd b = b.pipe_read_fd

  pub get_write_fd : PipeBuffer → ℕ
  get_write_fd b = b.pipe_write_fd

-- A pipe that holds up to `capacity` bytes.
abbrev write_counter : ℕ → ℕ → Option ℕ
write_counter capacity n = if ltb n capacity then some (suc n) else none

abbrev read_counter : ℕ → Option ℕ
read_counter zero = none
read_counter (suc n) = some n

pub held-write_counter : (c p q : ℕ) → write_counter c p ≡ some q → q ≡ suc p
held-write_counter c p q h = ground arith

pub held-read_counter : (p q : ℕ) → read_counter p ≡ some q → p ≡ suc q
held-read_counter zero q h = cc
held-read_counter (suc n) q h = ground arith

pub ready_counter : (p : ℕ) → 0 < p → (q : ℕ) × (read_counter p ≡ some q)
ready_counter zero h = absurd (omega arith)
ready_counter (suc n) h = (n, refl)

pub empty_counter : (p : ℕ) → p ≡ 0 → read_counter p ≡ none
empty_counter zero h = refl
empty_counter (suc n) h = absurd (omega arith)

abbrev pub counter : ℕ → PipeOs
counter capacity = record {
  Pipe = ℕ;
  fresh = 0;
  held = λ n. n;
  write_byte = write_counter capacity;
  read_byte = read_counter;
  held-fresh = refl;
  held-write = held-write_counter capacity;
  held-read = held-read_counter;
  read_ready = ready_counter;
  read_empty = empty_counter;
}
