-- ===== src/Converter.antt =====
-- server/src/buffer/Converter.h: objects as bytes. An object of `w` bytes is a number below
-- 256 ^ w, its first byte the lowest (the server runs on little-endian machines).
pub mod Tests
use native.Mathlib.Nat.{pow-suc}
use tin_locus.Base.{
  ℕ, zero, suc, ◌+◌, ◌*◌, ◌/◌, ◌%◌, ◌^◌, ◌<◌, ◌≡◌, refl, List, [], ◌∷◌, ◌++◌, arith, leb,
  if◌then◌else◌, length, drop, Result, ok, undefined, drop_all, ap,
}
use mathlib.Core.List.{append-nil}

-- `to_bytes(object)`, for an object of `w` bytes.
unfoldable pub to_bytes : ℕ → ℕ → List ℕ
to_bytes zero n = []
to_bytes (suc w) n = (n % 256) ∷ to_bytes w (n / 256)

-- The object that bytes stand for.
unfoldable pub object : List ℕ → ℕ
object [] = 0
object (b ∷ bs) = b + 256 * object bs

-- `from_bytes(bytes, old)`: the bytes are copied over the first bytes of the object `old`. More
-- bytes than the object has are written past its end.
unfoldable pub from_bytes : ℕ → List ℕ → ℕ → Result ℕ
unfolding object to_bytes
from_bytes w bytes old =
    if leb (length bytes) w
    then ok (object (bytes ++ drop (length bytes) (to_bytes w old)))
    else undefined

pub length-to_bytes : (w n : ℕ) → length (to_bytes w n) ≡ w
unfolding to_bytes
length-to_bytes zero n = refl
length-to_bytes (suc w) n = ap suc (length-to_bytes w (n / 256))

pub object-to_bytes : (w n : ℕ) → n < 256 ^ w → object (to_bytes w n) ≡ n
unfolding object to_bytes
object-to_bytes zero n h = omega arith
object-to_bytes (suc w) n h =
    omega (arith, object-to_bytes w (n / 256) (omega (arith, pow-suc 256 w)))

-- Reading back the bytes of an object gives the object, whatever the target held before.
pub from_bytes-to_bytes : (w n old : ℕ) → n < 256 ^ w → from_bytes w (to_bytes w n) old ≡ ok n
unfolding from_bytes
from_bytes-to_bytes w n old h =
    let l = length-to_bytes w n in
    let none_left =
      drop_all (length (to_bytes w n)) (to_bytes w old) (omega (arith, l, length-to_bytes w old)) in
    ground (arith, l, none_left, append-nil (to_bytes w n), object-to_bytes w n h)

abbrev pub AllBytes : List ℕ → Type 0
AllBytes [] = Unit {0}
AllBytes (b ∷ bs) = (b < 256) × AllBytes bs

pub to_bytes-AllBytes : (w n : ℕ) → AllBytes (to_bytes w n)
unfolding to_bytes
to_bytes-AllBytes zero n = tt
to_bytes-AllBytes (suc w) n = (omega arith, to_bytes-AllBytes w (n / 256))

-- An object and back: the bytes, each below 256, are what was read.
pub to_bytes-object : (bs : List ℕ) → AllBytes bs → to_bytes (length bs) (object bs) ≡ bs
unfolding to_bytes object
to_bytes-object [] h = refl
to_bytes-object (b ∷ bs) (hb, h) =
    let low : (b + 256 * object bs) % 256 ≡ b = omega arith in
    let high : (b + 256 * object bs) / 256 ≡ object bs = omega arith in
    rw (low, high, to_bytes-object bs h)

-- One byte is the number itself.
pub to_bytes_one : (n : ℕ) → n < 256 → to_bytes 1 n ≡ n ∷ []
unfolding to_bytes
to_bytes_one n h = ap (λ (k : ℕ). k ∷ []) (omega arith)

pub from_bytes_one : (b old : ℕ) → from_bytes 1 (b ∷ []) old ≡ ok b
unfolding from_bytes
from_bytes_one b old = ap ok (omega arith)
