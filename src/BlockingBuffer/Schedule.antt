-- ===== src/BlockingBuffer/Schedule.antt =====
-- Any schedule of the sections: nothing is lost, doubled or exchanged.
use tin_locus.Base.{
  ℕ, ◌+◌, ◌^◌, ◌≤◌, ◌<◌, ◌≡◌, refl, sym, ap, ◌∙◌, List, [], ◌∷◌, ◌++◌, arith, length, take,
  length-append, take-append-drop, Result, ok, throws, undefined,
}
use tin_locus.Buffer
use tin_locus.Buffer.{Buffer}
use tin_locus.Buffer.Counter.{pop_n_int, pop_n_int_lem}
use tin_locus.Buffer.Invariant.{
  IsValid, contents, PopsN, Pops, pop_n-PopsN, pop-Pops, push_back-IsValid, push_front-IsValid,
}
use tin_locus.BlockingBuffer.{
  Section, section, handed, run, push_front, push_back, pop, pop_n, guarded,
}
use mathlib.Core.List.{append-nil, append_assoc}

-- How many bytes some sections push, and what is pushed at the back.
abbrev pub pushed_size : List Section → ℕ
pushed_size [] = 0
pushed_size (Section.pushes_front bytes ∷ ss) = length bytes + pushed_size ss
pushed_size (Section.pushes_back bytes ∷ ss) = length bytes + pushed_size ss
pushed_size (Section.pops ∷ ss) = pushed_size ss
pushed_size (Section.pops_n n ∷ ss) = pushed_size ss

abbrev pub pushed : List Section → List ℕ
pushed [] = []
pushed (Section.pushes_front bytes ∷ ss) = pushed ss
pushed (Section.pushes_back bytes ∷ ss) = bytes ++ pushed ss
pushed (Section.pops ∷ ss) = pushed ss
pushed (Section.pops_n n ∷ ss) = pushed ss

-- No section pushes at the front.
abbrev pub AllBack : List Section → Type 0
AllBack [] = Unit {0}
AllBack (Section.pushes_front bytes ∷ ss) = ⊥
AllBack (Section.pushes_back bytes ∷ ss) = AllBack ss
AllBack (Section.pops ∷ ss) = AllBack ss
AllBack (Section.pops_n n ∷ ss) = AllBack ss

abbrev pub IsDefined {ℓ} : {A : Type ℓ} → Result A → Type 0
IsDefined (ok a) = Unit {0}
IsDefined throws = Unit {0}
IsDefined undefined = ⊥

-- A pop, whether it throws or not, splits the contents.
pub record Splits (b : Buffer) (r : Result (List ℕ) × Buffer) : Type 0 where
  pub defined : IsDefined r.0
  pub valid : IsValid r.1
  pub split : handed r.0 ++ contents r.1 ≡ contents b

guarded_n-Splits :
    (n : ℕ) (b : Buffer) (r : Result (List ℕ × Buffer))
    → IsValid b
    → PopsN n b r
    → Splits b (guarded b r)
guarded_n-Splits n b throws v p = record { defined = tt; valid = v; split = refl }
guarded_n-Splits n b undefined v p = absurd p
guarded_n-Splits n b (ok (bytes, c)) v (fits, e, rest, m, s, w) = record {
  defined = tt;
  valid = w;
  split =
      ap (λ (xs : List ℕ). xs ++ contents c) e
      ∙ ap (λ (xs : List ℕ). take n (contents b) ++ xs) rest
      ∙ take-append-drop n (contents b);
}

guarded-Splits :
    (b : Buffer) (r : Result (List ℕ × Buffer)) → IsValid b → Pops b r → Splits b (guarded b r)
guarded-Splits b throws v p = record { defined = tt; valid = v; split = refl }
guarded-Splits b undefined v p = absurd p
guarded-Splits b (ok (bytes, c)) v (some_left, chunks, split, m, s, w) = record {
  defined = tt;
  valid = w;
  split = sym split;
}

pub pop_n-Splits :
    (n : ℕ) (b : Buffer) → IsValid b → length (contents b) < 2 ^ 31 → Splits b (pop_n n b)
unfolding pop_n
pop_n-Splits n b v small =
    guarded_n-Splits n b (pop_n_int n b) v (rw (pop_n_int_lem n b small) (pop_n-PopsN n b v))

pub pop-Splits : (b : Buffer) → IsValid b → Splits b (pop b)
unfolding pop
pop-Splits b v = guarded-Splits b (Buffer.pop b) v (pop-Pops b v)

-- What one section of a schedule does.
pub record Sectioned (s : Section) (ss : List Section) (b : Buffer) (r : Result (List ℕ) × Buffer)
    : Type 0 where
  pub defined : IsDefined r.0
  pub valid : IsValid r.1
  pub room : length (contents r.1) + pushed_size ss ≤ length (contents b) + pushed_size (s ∷ ss)
  pub order :
      AllBack (s ∷ ss) → handed r.0 ++ contents r.1 ++ pushed ss ≡ contents b ++ pushed (s ∷ ss)

split-Sectioned :
    (s : Section) (ss : List Section) (b : Buffer) (r : Result (List ℕ) × Buffer)
    → pushed_size (s ∷ ss) ≡ pushed_size ss
    → pushed (s ∷ ss) ≡ pushed ss
    → Splits b r
    → Sectioned s ss b r
split-Sectioned s ss b r same none_pushed k = record {
  defined = k.defined;
  valid = k.valid;
  room = omega (arith, same, ap length k.split, length-append (handed r.0) (contents r.1));
  order = λ back.
      ap (λ (xs : List ℕ). xs ++ pushed ss) k.split
      ∙ ap (λ (xs : List ℕ). contents b ++ xs) (sym none_pushed);
}

pub section-Sectioned :
    (s : Section) (ss : List Section) (b : Buffer)
    → IsValid b
    → length (contents b) + pushed_size (s ∷ ss) < 2 ^ 31
    → Sectioned s ss b (section s b)
unfolding section push_front push_back
section-Sectioned (Section.pushes_front bytes) ss b v small =
    let (w, e) = push_front-IsValid bytes b v (omega arith) in
    record {
      defined = tt;
      valid = w;
      room = omega (arith, ap length e, length-append bytes (contents b));
      order = λ back. absurd back;
    }
section-Sectioned (Section.pushes_back bytes) ss b v small =
    let (w, e) = push_back-IsValid bytes b v (omega arith) in
    record {
      defined = tt;
      valid = w;
      room = omega (arith, ap length e, length-append (contents b) bytes);
      order = λ back.
          ap (λ (xs : List ℕ). xs ++ pushed ss) e ∙ append_assoc (contents b) bytes (pushed ss);
    }
section-Sectioned Section.pops ss b v small =
    split-Sectioned Section.pops ss b (pop b) refl refl (pop-Splits b v)
section-Sectioned (Section.pops_n n) ss b v small =
    split-Sectioned (Section.pops_n n) ss b (pop_n n b) refl refl (pop_n-Splits n b v (omega arith))

-- What a schedule does. No section reads the front of an empty list.
abbrev pub AllDefined : List Section → Buffer → Type 0
AllDefined [] b = Unit {0}
AllDefined (s ∷ ss) b = IsDefined (section s b).0 × AllDefined ss (section s b).1

pub record Conserves (ss : List Section) (b : Buffer) : Type 0 where
  pub defined : AllDefined ss b
  pub valid : IsValid (run ss b).1
  pub order : AllBack ss → (run ss b).0 ++ contents (run ss b).1 ≡ contents b ++ pushed ss

-- Any threads may use the buffer, in whatever order they get the mutex, as long as fewer than 2 ^ 31
-- bytes come together. The buffer stays valid, and no section is undefined. If nobody pushes at the front,
-- what all of them popped and what is left are together, in order, what was there and what was pushed.
pub run-Conserves :
    (ss : List Section) (b : Buffer)
    → IsValid b
    → length (contents b) + pushed_size ss < 2 ^ 31
    → Conserves ss b
unfolding run
run-Conserves [] b v small = record {
  defined = tt;
  valid = v;
  order = λ back. sym (append-nil (contents b));
}
run-Conserves (s ∷ ss) b v small =
    let k = section-Sectioned s ss b v small in
    let rest = run-Conserves ss (section s b).1 k.valid (omega (arith, k.room)) in
    record {
      defined = (k.defined, rest.defined);
      valid = rest.valid;
      order = λ back.
          append_assoc (handed (section s b).0) (run ss (section s b).1).0
            (contents (run ss (section s b).1).1)
          ∙ ap (λ (xs : List ℕ). handed (section s b).0 ++ xs) (rest.order (tail s ss back))
          ∙ sym (append_assoc (handed (section s b).0) (contents (section s b).1) (pushed ss))
          ∙ k.order back;
    }
  where
    tail : (s : Section) (ss : List Section) → AllBack (s ∷ ss) → AllBack ss
    tail (Section.pushes_front bytes) ss back = absurd back
    tail (Section.pushes_back bytes) ss back = back
    tail Section.pops ss back = back
    tail (Section.pops_n n) ss back = back
