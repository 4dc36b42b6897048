-- ===== src/BlockBuffer.antt =====
-- server/src/buffer/BlockBuffer.h and BlockBuffer.cpp: a queue of blocks of bytes, each pushed and
-- popped as a whole.
pub mod Objects
pub mod Order
pub mod Tests
use tin_locus.Base.{
  ℕ, List, [], ◌∷◌, ◌++◌, Bool, true, false, not, Result, ok, throws, undefined, ◌>>=◌, ◌==◌, ltb,
  if◌then◌else◌, length, bytes_beq,
}
use tin_locus.Converter.{to_bytes, from_bytes}
use tin_locus.Database.ClientData.Order.{list_eq, list_lt}

pub record BlockBuffer : Type 0 where
  pub block_buffer : List (List ℕ)

-- `BlockBuffer()`
pub new : BlockBuffer
new = record { block_buffer = [] }

pub size : BlockBuffer → ℕ
size b = length b.block_buffer

-- `frontSize()`: `front()` of an empty list is not defined.
unfoldable pub front_size : BlockBuffer → Result ℕ
front_size b = elim b.block_buffer [ [] ↦ undefined | bytes ∷ rest ↦ ok (length bytes) ]

-- `push(bytes)`, for a reference and for a value that is moved
unfoldable pub push : List ℕ → BlockBuffer → BlockBuffer
push bytes b = record { block_buffer = b.block_buffer ++ bytes ∷ [] }

-- `push(object)`, for an object of `w` bytes
unfoldable pub push_object : ℕ → ℕ → BlockBuffer → BlockBuffer
unfolding push
push_object w value b = push (to_bytes w value) b

-- `pop()`
unfoldable pub pop : BlockBuffer → Result (List ℕ × BlockBuffer)
pop b = elim b.block_buffer [
  | [] ↦ throws
  | result ∷ rest ↦ ok (result, record { block_buffer = rest })
]

abbrev is_empty : List (List ℕ) → Bool
is_empty [] = true
is_empty (bytes ∷ rest) = false

-- `pop(object)`, for an object of `w` bytes that is `old` before the call
unfoldable pub pop_object : ℕ → ℕ → BlockBuffer → Result (ℕ × BlockBuffer)
unfolding pop front_size
pop_object w old b =
    if is_empty b.block_buffer
    then throws
    else (front_size b >>= λ n.
        if not (w == n)
        then throws
        else (pop b >>= λ (bytes, rest). from_bytes w bytes old >>= λ value. ok (value, rest)))

-- `operator==`, `operator!=` and the four orders
unfoldable pub eq : BlockBuffer → BlockBuffer → Bool
eq a b = list_eq bytes_beq a.block_buffer b.block_buffer

unfoldable pub ne : BlockBuffer → BlockBuffer → Bool
unfolding eq
ne a b = not (eq b a)

unfoldable pub lt : BlockBuffer → BlockBuffer → Bool
lt a b = list_lt (list_lt ltb) a.block_buffer b.block_buffer

unfoldable pub gt : BlockBuffer → BlockBuffer → Bool
unfolding lt
gt a b = lt b a

unfoldable pub le : BlockBuffer → BlockBuffer → Bool
unfolding lt
le a b = not (lt b a)

unfoldable pub ge : BlockBuffer → BlockBuffer → Bool
unfolding lt
ge a b = not (lt a b)
