-- ===== src/BlockingBuffer/Tests.antt =====
-- BlockingBuffer.cpp on a buffer that a producer and a consumer share.
use tin_locus.Base.{refl, List, [], ◌∷◌, arith}
use tin_locus.Buffer
use tin_locus.Buffer.{Buffer}
use tin_locus.Buffer.Invariant.{IsValid}
use tin_locus.BlockingBuffer.{Section}
use tin_locus.BlockingBuffer.Schedule.{Conserves, run-Conserves}

abbrev shared : Buffer
shared = record {
  buffer = (1 ∷ 2 ∷ []) ∷ (3 ∷ []) ∷ [];
  buffer_max_size = 8;
  buffer_size = 3;
  stage = Buffer.Stage.full;
}

shared-IsValid : IsValid shared
shared-IsValid = record { counted = refl; bounded = omega arith }

abbrev both : List Section
both = Section.pushes_back (4 ∷ []) ∷ Section.pops ∷ Section.pops_n 9 ∷ Section.pops_n 1 ∷ []

run-Conserves_example : Conserves both shared
run-Conserves_example = run-Conserves both shared shared-IsValid (omega arith)
