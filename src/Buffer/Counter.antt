-- ===== src/Buffer/Counter.antt =====
-- `pop(n)` of Buffer.cpp with the counters of its copying loops as the source has them: an `int` counts
-- the bytes that are copied from one chunk, and counting past 2 ^ 31 - 1 is undefined.
use tin_locus.Base.{
  ℕ, ◌-◌, ◌^◌, ◌<◌, ◌≡◌, refl, List, [], ◌∷◌, ◌++◌, arith, ltb, leb, ◌==◌, length, take, drop,
  length-append, if◌then◌else◌, Result, ok, throws, undefined, ◌>>=◌,
}
use tin_locus.Buffer.{Buffer, size, pop_n, pop_all, pop_loop, less}
use tin_locus.Buffer.Bytes.{join}
use tin_locus.Buffer.Invariant.{contents}

-- The `while (left)` loop.
pub pop_loop_int : ℕ → List (List ℕ) → Result (List ℕ × List (List ℕ))
pop_loop_int left [] = if left == 0 then ok ([], []) else undefined
pop_loop_int left (chunk ∷ rest) =
    let next = pop_loop_int (left - length chunk) rest in
    if left == 0
    then ok ([], chunk ∷ rest)
    else if leb (length chunk) left
    then (if ltb (length chunk) (2 ^ 31)
        then (next >>= λ (bytes, chunks). ok (chunk ++ bytes, chunks))
        else undefined)
    else if ltb left (2 ^ 31)
    then ok (take left chunk, drop left chunk ∷ rest)
    else undefined

-- `pop(n)`
pub pop_n_int : ℕ → Buffer → Result (List ℕ × Buffer)
unfolding pop_loop_int
pop_n_int n b = if ltb (size b) n then throws else do
  (bytes, rest) ← pop_loop_int n b.buffer
  ok (bytes, record b { buffer = rest; buffer_size = less b.buffer_size n })

-- `popAll()`
pub pop_all_int : Buffer → Result (List ℕ × Buffer)
unfolding pop_n_int
pop_all_int b = pop_n_int (size b) b

pop_loop_int_lem :
    (left : ℕ) (chunks : List (List ℕ))
    → length (join chunks) < 2 ^ 31
    → pop_loop_int left chunks ≡ pop_loop left chunks
unfolding pop_loop_int pop_loop
pop_loop_int_lem left [] small = refl
pop_loop_int_lem left (chunk ∷ rest) small =
    ground (arith, length-append chunk (join rest), pop_loop_int_lem (left - length chunk) rest)

-- While a buffer holds fewer than 2 ^ 31 bytes, no counter is at its end.
pub pop_n_int_lem : (n : ℕ) (b : Buffer) → length (contents b) < 2 ^ 31 → pop_n_int n b ≡ pop_n n b
unfolding pop_n_int pop_n
pop_n_int_lem n b small = rw (pop_loop_int_lem n b.buffer small)

pub pop_all_int_lem : (b : Buffer) → length (contents b) < 2 ^ 31 → pop_all_int b ≡ pop_all b
unfolding pop_all_int pop_all
pop_all_int_lem b small = pop_n_int_lem (size b) b small
