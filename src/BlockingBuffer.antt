-- ===== src/BlockingBuffer.antt =====
-- server/src/buffer/BlockingBuffer.h and BlockingBuffer.cpp: a buffer that several threads use. A
-- method that holds the mutex is one step. `popAll` does not hold it while it reads the size: if
-- another thread is at work then, this is a data race, for which C++ gives no meaning.
pub mod Schedule
pub mod Tests
use tin_locus.Base.{ℕ, List, [], ◌∷◌, ◌++◌, Result, ok, throws, undefined}
use tin_locus.Base.Step.{Step}
use tin_locus.Buffer
use tin_locus.Buffer.{Buffer}
use tin_locus.Buffer.Counter.{pop_n_int}

unfoldable pub push_front : List ℕ → Step Buffer (Unit {0})
push_front bytes b = (ok tt, Buffer.push_front bytes b)

unfoldable pub push_back : List ℕ → Step Buffer (Unit {0})
push_back bytes b = (ok tt, Buffer.push_back bytes b)

-- The outcome of a method of `Buffer` under the mutex, which an exception gives back too.
abbrev guarded : Buffer → Result (List ℕ × Buffer) → Result (List ℕ) × Buffer
guarded b (ok (bytes, c)) = (ok bytes, c)
guarded b throws = (throws, b)
guarded b undefined = (undefined, b)

unfoldable pub pop : Step Buffer (List ℕ)
pop b = guarded b (Buffer.pop b)

-- `pop(n)`
unfoldable pub pop_n : ℕ → Step Buffer (List ℕ)
pop_n n b = guarded b (pop_n_int n b)

-- What one thread does while it holds the mutex.
pub data Section : Type 0 where
  pushes_front pushes_back : List ℕ → Section
  pops : Section
  pops_n : ℕ → Section

-- What a section hands out.
abbrev nothing : Result (Unit {0}) × Buffer → Result (List ℕ) × Buffer
nothing (r, b) = (ok [], b)

unfoldable pub section : Section → Step Buffer (List ℕ)
unfolding push_front push_back pop pop_n
section (Section.pushes_front bytes) b = nothing (push_front bytes b)
section (Section.pushes_back bytes) b = nothing (push_back bytes b)
section Section.pops b = pop b
section (Section.pops_n n) b = pop_n n b

abbrev pub handed : Result (List ℕ) → List ℕ
handed (ok bytes) = bytes
handed throws = []
handed undefined = []

-- Sections of any threads, in the order in which they get the mutex: what they hand out together.
unfoldable pub run : List Section → Buffer → List ℕ × Buffer
unfolding section
run [] b = ([], b)
run (s ∷ ss) b = let (r, c) = section s b in let (bytes, d) = run ss c in (handed r ++ bytes, d)

-- `popAll()`, which reads the size and then calls the virtual `pop(n)`. The sections are those of other
-- threads that nothing orders before or after the call: with any of them the read is a data race.
unfoldable pub pop_all : List Section → Step Buffer (List ℕ)
unfolding pop_n
pop_all [] b = pop_n (Buffer.size b) b
pop_all (s ∷ ss) b = (undefined, b)
