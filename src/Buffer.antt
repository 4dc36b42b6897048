-- ===== src/Buffer.antt =====
-- server/src/buffer/Buffer.h and Buffer.cpp: a byte queue kept as a list of chunks, with a byte
-- count beside it. A `size_t` has 64 bits and its arithmetic wraps. The copying loops of `pop(n)` count
-- the bytes of a chunk in an `int`: here they stand for chunks below 2 ^ 31 bytes, and Counter has the
-- loops with a counter of 31 bits and shows that they agree on a buffer of that size.
pub mod Invariant
pub mod Bytes
pub mod Counter
pub mod Drain
pub mod Reference
pub mod Tests
use tin_locus.Base.{
  ℕ, ◌+◌, ◌-◌, ◌%◌, ◌^◌, Bool, not, List, [], ◌∷◌, ◌++◌, ltb, leb, ◌==◌, if◌then◌else◌, length,
  take, drop, Result, ok, throws, undefined, ◌>>=◌,
}

pub data Stage : Type 0 where
  empty full receiving sending : Stage

pub record Buffer : Type 0 where
  pub buffer : List (List ℕ)
  pub buffer_max_size : ℕ
  pub buffer_size : ℕ
  pub stage : Stage

-- `explicit Buffer() = default`
unfoldable pub new : Buffer
new = record { buffer = []; buffer_max_size = 0; buffer_size = 0; stage = Stage.empty }

unfoldable pub set_max_size : ℕ → Buffer → Buffer
set_max_size n b = record b { buffer_max_size = n }

unfoldable pub size : Buffer → ℕ
size b = b.buffer_size

unfoldable pub remaining_size : Buffer → ℕ
remaining_size b = (b.buffer_max_size + 2 ^ 64 - b.buffer_size) % 2 ^ 64

unfoldable pub is_empty : Buffer → Bool
is_empty b = b.buffer_size == 0

pub is_full : Buffer → Bool
is_full b = leb b.buffer_max_size b.buffer_size

unfoldable pub get_stage : Buffer → Stage
get_stage b = b.stage

unfoldable pub set_stage : Stage → Buffer → Buffer
set_stage s b = record b { stage = s }

unfoldable pub push_front : List ℕ → Buffer → Buffer
push_front bytes b = record b {
  buffer = bytes ∷ b.buffer;
  buffer_size = (b.buffer_size + length bytes) % 2 ^ 64;
}

unfoldable pub push_back : List ℕ → Buffer → Buffer
push_back bytes b = record b {
  buffer = b.buffer ++ bytes ∷ [];
  buffer_size = (b.buffer_size + length bytes) % 2 ^ 64;
}

-- The size after `bufferSize -= n`.
abbrev less : ℕ → ℕ → ℕ
less size n = (size + 2 ^ 64 - n) % 2 ^ 64

-- `front()` and `pop_front()` of the list of chunks.
front_chunk : List (List ℕ) → Result (List ℕ × List (List ℕ))
front_chunk [] = undefined
front_chunk (chunk ∷ rest) = ok (chunk, rest)

-- `pop()`: the first chunk, whole.
unfoldable pub pop : Buffer → Result (List ℕ × Buffer)
unfolding front_chunk size
pop b = if size b == 0 then throws else do
  (bytes, rest) ← front_chunk b.buffer
  ok (bytes, record b { buffer = rest; buffer_size = less b.buffer_size (length bytes) })

-- The `while (left)` loop of `pop(n)`: what it writes to the result, and the chunks that it leaves.
-- A round takes a chunk from the list, or is the last. Chunks have fewer than 2 ^ 31 bytes.
unfoldable pub pop_loop : ℕ → List (List ℕ) → Result (List ℕ × List (List ℕ))
pop_loop left [] = if left == 0 then ok ([], []) else undefined
pop_loop left (chunk ∷ rest) =
    if left == 0
    then ok ([], chunk ∷ rest)
    else if leb (length chunk) left
    then (pop_loop (left - length chunk) rest >>= λ (bytes, chunks). ok (chunk ++ bytes, chunks))
    else ok (take left chunk, drop left chunk ∷ rest)

-- `pop(n)`
unfoldable pub pop_n : ℕ → Buffer → Result (List ℕ × Buffer)
unfolding pop_loop size
pop_n n b = if ltb (size b) n then throws else do
  (bytes, rest) ← pop_loop n b.buffer
  ok (bytes, record b { buffer = rest; buffer_size = less b.buffer_size n })

-- `popAll()`
unfoldable pub pop_all : Buffer → Result (List ℕ × Buffer)
unfolding pop_n size
pop_all b = pop_n (size b) b
