-- ===== src/Buffer/Reference.antt =====
-- A buffer against a plain sequence of bytes: the chunks of Buffer.cpp cannot be told apart by the
-- calls that do not ask for a chunk.
use tin_locus.Base.{
  ℕ, ◌+◌, ◌^◌, ◌≤◌, ◌<◌, ◌≡◌, refl, ap, ◌∙◌, Bool, List, [], ◌∷◌, ◌++◌, arith, ltb, ◌==◌, length,
  take, drop, length-append, length-drop, if◌then◌else◌, Result, ok, throws, undefined,
}
use tin_locus.Buffer.{Buffer, push_front, push_back, size, is_empty}
use tin_locus.Buffer.Counter.{pop_n_int, pop_all_int, pop_n_int_lem, pop_all_int_lem}
use tin_locus.Buffer.Invariant.{
  IsValid, contents, PopsN, pop_n-PopsN, push_front-IsValid, push_back-IsValid,
}
use tin_locus.Buffer.Drain.{pop_all-contents}

pub data Call : Type 0 where
  pushes_front pushes_back : List ℕ → Call
  pops_n : ℕ → Call
  pops_all : Call

-- What a call returns, and what `size()` and `empty()` say then.
abbrev pub Answer : Type 0
Answer = Result (List ℕ) × ℕ × Bool

abbrev outcome : Buffer → Result (List ℕ × Buffer) → Result (List ℕ) × Buffer
outcome b (ok (bytes, c)) = (ok bytes, c)
outcome b throws = (throws, b)
outcome b undefined = (undefined, b)

pub act : Call → Buffer → Result (List ℕ) × Buffer
act (Call.pushes_front bytes) b = (ok [], push_front bytes b)
act (Call.pushes_back bytes) b = (ok [], push_back bytes b)
act (Call.pops_n n) b = outcome b (pop_n_int n b)
act Call.pops_all b = outcome b (pop_all_int b)

pub answers : List Call → Buffer → List Answer
unfolding act
answers [] b = []
answers (c ∷ cs) b = let (r, d) = act c b in (r, size d, is_empty d) ∷ answers cs d

-- The same for a sequence of bytes.
pub act_on_bytes : Call → List ℕ → Result (List ℕ) × List ℕ
act_on_bytes (Call.pushes_front bytes) q = (ok [], bytes ++ q)
act_on_bytes (Call.pushes_back bytes) q = (ok [], q ++ bytes)
act_on_bytes (Call.pops_n n) q = if ltb (length q) n then (throws, q) else (ok (take n q), drop n q)
act_on_bytes Call.pops_all q = (ok q, [])

pub answers_of_bytes : List Call → List ℕ → List Answer
unfolding act_on_bytes
answers_of_bytes [] q = []
answers_of_bytes (c ∷ cs) q =
    let (r, p) = act_on_bytes c q in (r, length p, length p == 0) ∷ answers_of_bytes cs p

abbrev pub pushed_size : List Call → ℕ
pushed_size [] = 0
pushed_size (Call.pushes_front bytes ∷ cs) = length bytes + pushed_size cs
pushed_size (Call.pushes_back bytes ∷ cs) = length bytes + pushed_size cs
pushed_size (Call.pops_n n ∷ cs) = pushed_size cs
pushed_size (Call.pops_all ∷ cs) = pushed_size cs

-- One call on the buffer, seen on its contents.
record Matches (c : Call) (cs : List Call) (b : Buffer) : Type 0 where
  same_result : (act c b).0 ≡ (act_on_bytes c (contents b)).0
  same_rest : contents (act c b).1 ≡ (act_on_bytes c (contents b)).1
  valid : IsValid (act c b).1
  room : length (contents (act c b).1) + pushed_size cs ≤ length (contents b) + pushed_size (c ∷ cs)

outcome_n :
    (n : ℕ) (b : Buffer) (r : Result (List ℕ × Buffer))
    → IsValid b
    → PopsN n b r
    → ((outcome b r).0 ≡ (act_on_bytes (Call.pops_n n) (contents b)).0)
      × (contents (outcome b r).1 ≡ (act_on_bytes (Call.pops_n n) (contents b)).1)
      × IsValid (outcome b r).1
      × (length (contents (outcome b r).1) ≤ length (contents b))
unfolding act_on_bytes
outcome_n n b throws v p = (ground arith, ground arith, v, omega arith)
outcome_n n b undefined v p = absurd p
outcome_n n b (ok (bytes, c)) v (fits, got, rest, m, s, w) =
    (ground arith, ground arith, w, omega (arith, ap length rest, length-drop n (contents b)))

act-Matches :
    (c : Call) (cs : List Call) (b : Buffer)
    → IsValid b
    → length (contents b) + pushed_size (c ∷ cs) < 2 ^ 31
    → Matches c cs b
unfolding act act_on_bytes
act-Matches (Call.pushes_front bytes) cs b v small =
    let (w, e) = push_front-IsValid bytes b v (omega arith) in
    record {
      same_result = refl;
      same_rest = e;
      valid = w;
      room = omega (arith, ap length e, length-append bytes (contents b));
    }
act-Matches (Call.pushes_back bytes) cs b v small =
    let (w, e) = push_back-IsValid bytes b v (omega arith) in
    record {
      same_result = refl;
      same_rest = e;
      valid = w;
      room = omega (arith, ap length e, length-append (contents b) bytes);
    }
act-Matches (Call.pops_n n) cs b v small =
    let p : PopsN n b (pop_n_int n b) = rw (pop_n_int_lem n b (omega arith)) (pop_n-PopsN n b v) in
    let (e, f, w, fewer) = outcome_n n b (pop_n_int n b) v p in
    record { same_result = e; same_rest = f; valid = w; room = omega (arith, fewer) }
act-Matches Call.pops_all cs b v small =
    let (c, popped, none_left, m, s, w) = pop_all-contents b v in
    let e : pop_all_int b ≡ ok (contents b, c) = pop_all_int_lem b (omega arith) ∙ popped in
    record {
      same_result = ap (λ r. (outcome b r).0) e;
      same_rest = ap (λ r. contents (outcome b r).1) e ∙ none_left;
      valid = rw e w;
      room = rw e (omega (arith, ap length none_left));
    }

-- As long as fewer than 2 ^ 31 bytes come together, no sequence of calls of `push_front`, `push_back`,
-- `pop(n)`, `popAll`, `size` and `empty` can tell a valid buffer from the sequence of its bytes.
pub answers-eq :
    (cs : List Call) (b : Buffer)
    → IsValid b
    → length (contents b) + pushed_size cs < 2 ^ 31
    → answers cs b ≡ answers_of_bytes cs (contents b)
unfolding answers answers_of_bytes size is_empty
answers-eq [] b v small = refl
answers-eq (c ∷ cs) b v small =
    let k = act-Matches c cs b v small in
    let rest = answers-eq cs (act c b).1 k.valid (omega (arith, k.room)) in
    let counted = k.valid.counted ∙ ap length k.same_rest in
    λ i.
      (k.same_result i, counted i, counted i == 0) ∷ (rest ∙ ap (answers_of_bytes cs) k.same_rest) i
