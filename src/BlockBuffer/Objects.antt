-- ===== src/BlockBuffer/Objects.antt =====
-- Objects through a BlockBuffer: what `pop(object)` does to every buffer, and that the objects come
-- out as they went in.
use tin_locus.Base.{
  ℕ, ◌^◌, ◌<◌, ◌≡◌, ◌≢◌, ◌⊎◌, refl, sym, ap, ◌∙◌, inl, inr, List, [], ◌∷◌, ◌++◌, arith, map, Result,
  ok, throws, undefined, ◌>>=◌, ◌==◌, true, length, drop_all, Bool-cases,
}
use tin_locus.Converter.{to_bytes, object, from_bytes, length-to_bytes, object-to_bytes}
use tin_locus.BlockBuffer.{BlockBuffer, push, push_object, pop, pop_object, front_size, new}
use mathlib.Core.List.{append-nil, append_assoc}

-- Bytes as many as the object has are all that is left of it.
from_bytes_whole :
    (bytes : List ℕ) (old : ℕ) → from_bytes (length bytes) bytes old ≡ ok (object bytes)
unfolding from_bytes
from_bytes_whole bytes old =
    let gone =
      drop_all (length bytes) (to_bytes (length bytes) old)
        (omega (arith, length-to_bytes (length bytes) old)) in
    ground (arith, gone, append-nil bytes)

-- What `pop(object)` owes, whatever the buffer holds.
abbrev pub PopsObject : ℕ → BlockBuffer → Result (ℕ × BlockBuffer) → Type 0
PopsObject w b (ok (value, rest)) =
    (bytes : List ℕ) × (b.block_buffer ≡ bytes ∷ rest.block_buffer)
    × (length bytes ≡ w)
    × (value ≡ object bytes)
PopsObject w b throws =
    (b.block_buffer ≡ [])
    ⊎ ((bytes : List ℕ) × (rest : List (List ℕ)) × (b.block_buffer ≡ bytes ∷ rest)
        × (length bytes ≢ w))
PopsObject w b undefined = ⊥

by_blocks :
    (blocks : List (List ℕ)) (w old : ℕ)
    → PopsObject w
        (record { block_buffer = blocks })
        (pop_object w old (record { block_buffer = blocks }))
unfolding pop_object pop front_size
by_blocks [] w old = inl refl
by_blocks (bytes ∷ rest) w old = elim (Bool-cases (w == length bytes)) [
  | inr other ↦ rw other (inr (bytes, rest, refl, λ same. ground (arith, other, same)))
  | inl same ↦
      let e : length bytes ≡ w = ground (arith, same) in
      rw (same, sym e, from_bytes_whole bytes old) (bytes, refl, refl, refl)
]

-- `pop(object)` takes the first block, if it has as many bytes as the object, and the object is what
-- they stand for, whatever it held; it throws if there is no block or the first one has another size;
-- never does it read a block that is not there or write past the object.
pub pop_object-PopsObject : (w old : ℕ) (b : BlockBuffer) → PopsObject w b (pop_object w old b)
pop_object-PopsObject w old b = by_blocks b.block_buffer w old

pub record Object : Type 0 where
  pub width : ℕ
  pub value : ℕ

-- Objects that are pushed one after the other, and objects that are read into.
pub pushes : List Object → BlockBuffer → BlockBuffer
pushes [] b = b
pushes (o ∷ os) b = pushes os (push_object o.width o.value b)

pub pops : List Object → BlockBuffer → Result (List ℕ × BlockBuffer)
pops [] b = ok ([], b)
pops (o ∷ os) b = do
  (value, c) ← pop_object o.width o.value b
  (values, d) ← pops os c
  ok (value ∷ values, d)

abbrev pub AllFit : List Object → Type 0
AllFit [] = Unit {0}
AllFit (o ∷ os) = (o.value < 256 ^ o.width) × AllFit os

abbrev encoded : Object → List ℕ
encoded o = to_bytes o.width o.value

pushed :
    (os : List Object) (b : BlockBuffer)
    → (pushes os b).block_buffer ≡ b.block_buffer ++ map encoded os
unfolding pushes push_object push
pushed [] b = sym (append-nil b.block_buffer)
pushed (o ∷ os) b =
    pushed os (push_object o.width o.value b)
    ∙ append_assoc b.block_buffer (encoded o ∷ []) (map encoded os)

-- One object out, and with it the rest.
pop_encoded :
    (o : Object) (old : ℕ) (rest : List (List ℕ))
    → o.value < 256 ^ o.width
    → pop_object o.width old (record { block_buffer = encoded o ∷ rest })
      ≡ ok (o.value, record { block_buffer = rest })
unfolding pop_object pop front_size
pop_encoded o old rest fits =
    let l = length-to_bytes o.width o.value in
    let same : (o.width == length (encoded o)) ≡ true = ground (arith, l) in
    let read : from_bytes o.width (encoded o) old ≡ ok o.value =
      ap (λ (w : ℕ). from_bytes w (encoded o) old) (sym l)
      ∙ from_bytes_whole (encoded o) old
      ∙ ap ok (object-to_bytes o.width o.value fits) in
    rw (same, read)

popped :
    (os into : List Object)
    → AllFit os
    → map (λ (o : Object). o.width) into ≡ map (λ (o : Object). o.width) os
    → pops into (record { block_buffer = map encoded os })
      ≡ ok (map (λ (o : Object). o.value) os, record { block_buffer = [] })
unfolding pops
popped [] [] fit same = refl
popped [] (p ∷ ps) fit same = cc
popped (o ∷ os) [] fit same = cc
popped (o ∷ os) (p ∷ ps) (fits, fit) same =
    let width : p.width ≡ o.width = cc in
    let widths : map (λ (o : Object). o.width) ps ≡ map (λ (o : Object). o.width) os = cc in
    rw (width, pop_encoded o p.value (map encoded os) fits, popped os ps fit widths)

-- Objects that are pushed into an empty buffer come out in the same order with the same values, into
-- objects of the same sizes, whatever these held, and leave the buffer empty.
pub pops-pushes :
    (os into : List Object)
    → AllFit os
    → map (λ (o : Object). o.width) into ≡ map (λ (o : Object). o.width) os
    → pops into (pushes os new) ≡ ok (map (λ (o : Object). o.value) os, new)
unfolding new
pops-pushes os into fit same =
    ap (λ (blocks : List (List ℕ)). pops into (record { block_buffer = blocks })) (pushed os new)
    ∙ popped os into fit same
