-- ===== src/Buffer/Tests.antt =====
-- Buffer.h and Buffer.cpp on a buffer of two chunks.
use tin_locus.Base.{List, ◌≡◌, refl, [], ◌∷◌, ok, throws, arith}
use tin_locus.Buffer.{Buffer, Stage, pop_n, pop_loop, size}
use tin_locus.Buffer.Invariant.{IsValid, contents}
use tin_locus.Buffer.Reference.{Call, answers, answers_of_bytes, answers-eq}

abbrev two_chunks : Buffer
two_chunks = record {
  buffer = (1 ∷ 2 ∷ []) ∷ (3 ∷ []) ∷ [];
  buffer_max_size = 5;
  buffer_size = 3;
  stage = Stage.full;
}

two_chunks-IsValid : IsValid two_chunks
two_chunks-IsValid = record { counted = refl; bounded = omega arith }

-- A pop across the chunks.
pop_across :
    pop_n 3 two_chunks
    ≡ ok (
      1 ∷ 2 ∷ 3 ∷ [],
      record { buffer = []; buffer_max_size = 5; buffer_size = 0; stage = Stage.full },
    )
unfolding pop_n pop_loop size
pop_across = refl

pop_too_many : pop_n 4 two_chunks ≡ throws
unfolding pop_n size
pop_too_many = refl

-- Pushes at both ends, a pop that asks for too much, one across the chunks, and the rest.
abbrev some_calls : List Call
some_calls =
    Call.pushes_front (9 ∷ [])
    ∷ Call.pushes_back (4 ∷ [])
    ∷ Call.pops_n 6
    ∷ Call.pops_n 3
    ∷ Call.pops_all
    ∷ []

answers-eq_example :
    answers some_calls two_chunks ≡ answers_of_bytes some_calls (contents two_chunks)
answers-eq_example = answers-eq some_calls two_chunks two_chunks-IsValid (omega arith)
