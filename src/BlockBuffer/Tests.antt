-- ===== src/BlockBuffer/Tests.antt =====
-- BlockBuffer.h and BlockBuffer.cpp on an identifier and a time.
use tin_locus.Base.{◌≡◌, refl, List, [], ◌∷◌, ok, arith}
use tin_locus.BlockBuffer.{BlockBuffer, new, pop_object}
use tin_locus.BlockBuffer.Objects.{
  Object, pushes, pops, pops-pushes, PopsObject, pop_object-PopsObject,
}

abbrev sent : List Object
sent = record { width = 4; value = 70000 } ∷ record { width = 8; value = 3 } ∷ []

abbrev into : List Object
into = record { width = 4; value = 0 } ∷ record { width = 8; value = 99 } ∷ []

pops-pushes_example : pops into (pushes sent new) ≡ ok (70000 ∷ 3 ∷ [], new)
pops-pushes_example = pops-pushes sent into (omega arith, (omega arith, tt)) refl

-- Two bytes are not an object of four.
abbrev two_bytes : BlockBuffer
two_bytes = record { block_buffer = (1 ∷ 2 ∷ []) ∷ [] }

pop_object-PopsObject_example : PopsObject 4 two_bytes (pop_object 4 7 two_bytes)
pop_object-PopsObject_example = pop_object-PopsObject 4 7 two_bytes

abbrev longer : BlockBuffer
longer = record { block_buffer = (1 ∷ 2 ∷ []) ∷ [] ∷ [] }
