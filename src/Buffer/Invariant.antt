-- ===== src/Buffer/Invariant.antt =====
-- The byte count of a buffer agrees with its chunks, and every operation keeps it so. With that a
-- buffer is a plain byte queue: no operation reads the front of an empty list.
use tin_locus.Base.{
  ℕ, ◌+◌, ◌-◌, ◌^◌, ◌≤◌, ◌<◌, ◌≡◌, ◌≢◌, refl, sym, ap, ◌∙◌, inl, inr, List, [], ◌∷◌, ◌++◌, arith,
  ltb, ◌==◌, length, take, drop, length-append, length-drop, ok, throws, Bool-cases, Result, true,
  false,
}
use tin_locus.Buffer.{Buffer, remaining_size, is_empty, push_front, push_back, pop, pop_n, new}
use tin_locus.Buffer.Bytes.{join, join-snoc, pop_loop-join}

abbrev pub contents : Buffer → List ℕ
contents b = join b.buffer

pub record IsValid (b : Buffer) : Type 0 where
  pub counted : b.buffer_size ≡ length (contents b)
  pub bounded : length (contents b) < 2 ^ 64

pub new-IsValid : IsValid new
unfolding new
new-IsValid = record { counted = refl; bounded = omega arith }

pub new-contents : contents new ≡ []
unfolding new
new-contents = refl

-- `push_front(bytes)` keeps a buffer valid and puts the bytes before the contents, while the sum of
-- the sizes has 64 bits.
pub push_front-IsValid :
    (bytes : List ℕ) (b : Buffer)
    → IsValid b
    → length bytes + length (contents b) < 2 ^ 64
    → IsValid (push_front bytes b) × (contents (push_front bytes b) ≡ bytes ++ contents b)
unfolding push_front
push_front-IsValid bytes b v h = (
  record {
    counted = omega (arith, v.counted, length-append bytes (contents b));
    bounded = omega (arith, length-append bytes (contents b));
  },
  refl,
)

-- `push_back(bytes)` keeps a buffer valid and puts the bytes behind the contents, while the sum of
-- the sizes has 64 bits.
pub push_back-IsValid :
    (bytes : List ℕ) (b : Buffer)
    → IsValid b
    → length (contents b) + length bytes < 2 ^ 64
    → IsValid (push_back bytes b) × (contents (push_back bytes b) ≡ contents b ++ bytes)
unfolding push_back
push_back-IsValid bytes b v h =
    let e = join-snoc b.buffer bytes in
    let m = length-append (contents b) bytes in
    (record { counted = rw e (omega (arith, v.counted, m)); bounded = rw e (omega (arith, m)) }, e)

-- What `pop(n)` owes: it throws when there are too few bytes, and otherwise cuts the contents.
abbrev pub PopsN : ℕ → Buffer → Result (List ℕ × Buffer) → Type 0
PopsN n b throws = length (contents b) < n
PopsN n b Result.undefined = ⊥
PopsN n b (ok (bytes, c)) =
    (n ≤ length (contents b))
    × (bytes ≡ take n (contents b))
    × (contents c ≡ drop n (contents b))
    × (c.buffer_max_size ≡ b.buffer_max_size)
    × (c.stage ≡ b.stage)
    × IsValid c

-- `pop(n)` keeps its promise: on a valid buffer it throws exactly when fewer than `n` bytes are
-- there, never misbehaves, and otherwise hands out the first `n` bytes and keeps the others.
pub pop_n-PopsN : (n : ℕ) (b : Buffer) → IsValid b → PopsN n b (pop_n n b)
unfolding pop_n
pop_n-PopsN n b v = elim (Bool-cases (ltb b.buffer_size n)) [
  | inl short ↦ rw short (ground (arith, v.counted))
  | inr long ↦
      let fits : n ≤ length (contents b) = ground (arith, v.counted) in
      let (r, e, j) = pop_loop-join n b.buffer fits in
      let cut = length-drop n (contents b) in
      rw (long, e)
        (
          fits,
          refl,
          j,
          refl,
          refl,
          record {
            counted = rw (j, cut) (omega (arith, v.counted, v.bounded));
            bounded = rw (j, cut) (omega (arith, v.bounded));
          },
        )
]

-- What `pop()` owes: it throws on a count of zero, and otherwise hands out the first chunk.
abbrev pub Pops : Buffer → Result (List ℕ × Buffer) → Type 0
Pops b throws = contents b ≡ []
Pops b Result.undefined = ⊥
Pops b (ok (bytes, c)) =
    (contents b ≢ [])
    × (b.buffer ≡ bytes ∷ c.buffer)
    × (contents b ≡ bytes ++ contents c)
    × (c.buffer_max_size ≡ b.buffer_max_size)
    × (c.stage ≡ b.stage)
    × IsValid c

nil_of_length : (xs : List ℕ) → length xs ≡ 0 → xs ≡ []
nil_of_length [] h = refl
nil_of_length (x ∷ xs) h = absurd (omega arith)

chunks_of_length :
    (cs : List (List ℕ)) → length (join cs) ≢ 0 → (c : List ℕ) × (r : List (List ℕ)) × (cs ≡ c ∷ r)
chunks_of_length [] h = absurd (h refl)
chunks_of_length (c ∷ r) h = (c, r, refl)

-- `pop()` keeps its promise: on a valid buffer it throws exactly when no byte is left, never reads
-- the front of an empty list, and otherwise removes the first chunk.
pub pop-Pops : (b : Buffer) → IsValid b → Pops b (pop b)
unfolding pop
pop-Pops b v = elim (Bool-cases (b.buffer_size == 0)) [
  | inl none_left ↦ rw none_left (nil_of_length (contents b) (ground (arith, v.counted)))
  | inr some_left ↦
      let (c, r, e) = chunks_of_length b.buffer (ground (arith, v.counted)) in
      let total : length (contents b) ≡ length c + length (join r) =
        rw (ap join e) (length-append c (join r)) in
      let present : length (contents b) ≢ 0 = ground (arith, v.counted) in
      rw (some_left, e)
        (
          (λ h. present (total ∙ sym (length-append c (join r)) ∙ ap length h)),
          refl,
          refl,
          refl,
          refl,
          record {
            counted = omega (arith, v.counted, v.bounded, total);
            bounded = omega (arith, v.bounded, total);
          },
        )
]

-- `remainingSize()` is the room that is left, while the contents do not exceed the maximum.
pub remaining_size-sub :
    (b : Buffer)
    → IsValid b
    → length (contents b) ≤ b.buffer_max_size
    → b.buffer_max_size < 2 ^ 64
    → remaining_size b ≡ b.buffer_max_size - length (contents b)
unfolding remaining_size
remaining_size-sub b v h m = omega (arith, v.counted)

-- `empty()` tells whether a byte is left.
pub is_empty-nil : (b : Buffer) → IsValid b → is_empty b ≡ true → contents b ≡ []
unfolding is_empty
is_empty-nil b v h = nil_of_length (contents b) (ground (arith, v.counted))

pub is_empty-not_nil : (b : Buffer) → IsValid b → is_empty b ≡ false → contents b ≢ []
unfolding is_empty
is_empty-not_nil b v h e = ground (arith, v.counted, ap length e)
