-- ===== src/BlockBuffer/Order.antt =====
-- The six comparisons of BlockBuffer.cpp: the blocks are compared one after the other, each byte by
-- byte.
use tin_locus.Base.{
  ℕ, ◌≡◌, ◌⊎◌, ◌↔◌, refl, sym, ap, ◌∙◌, inl, inr, Bool, true, false, not, List, [], ◌∷◌, ◌&&◌,
  arith, ltb, Bool-cases, bytes_beq, bytes_beq_iff,
}
use tin_locus.Database.ClientData.Order.{first_less, list_eq, list_lt}
use tin_locus.BlockBuffer.{BlockBuffer, eq, ne, lt, gt, le, ge}

-- A strict order in which any two different values are in order.
record IsStrictTotal {ℓ} {A : Type ℓ} (less : A → A → Bool) : Type ℓ where
  asym : (a b : A) → less a b ≡ true → less b a ≡ false
  trans : (a b c : A) → less a b ≡ true → less b c ≡ true → less a c ≡ true
  tri : (a b : A) → (less a b ≡ true) ⊎ ((a ≡ b) ⊎ (less b a ≡ true))

ltb-IsStrictTotal : IsStrictTotal ltb
ltb-IsStrictTotal = record {
  asym = λ a b h. ground arith;
  trans = λ a b c h k. ground arith;
  tri = λ a b. byte_tri a b;
}
  where
    byte_tri : (a b : ℕ) → (ltb a b ≡ true) ⊎ ((a ≡ b) ⊎ (ltb b a ≡ true))
    byte_tri a b = ground arith

module _ {ℓ} {A : Type ℓ} (less : A → A → Bool) (total : IsStrictTotal less) where
  clash : {b : Bool} → b ≡ true → b ≡ false → ⊥
  clash h k = cc

  irrefl : (a : A) → less a a ≡ false
  irrefl a = elim (Bool-cases (less a a)) [ inl h ↦ total.asym a a h | inr h ↦ h ]

  -- What it takes for a list to come before another one.
  Before : List A → List A → Type ℓ
  Before (x ∷ xs) (y ∷ ys) = (less x y ≡ true) ⊎ ((x ≡ y) × (list_lt less xs ys ≡ true))
  Before _ _ = Unit

  lt-Before : (xs ys : List A) → list_lt less xs ys ≡ true → Before xs ys
  unfolding list_lt first_less Before
  lt-Before [] ys h = tt
  lt-Before (x ∷ xs) [] h = tt
  lt-Before (x ∷ xs) (y ∷ ys) h = elim (total.tri x y) [
    | inl l ↦ inl l
    | inr (inl e) ↦ inr (e, rw (e, irrefl y) at h)
    | inr (inr g) ↦ absurd (clash (rw (total.asym y x g, g) at h) refl)
  ]

  cons_lt :
      (x y : A) (xs ys : List A) → Before (x ∷ xs) (y ∷ ys) → list_lt less (x ∷ xs) (y ∷ ys) ≡ true
  unfolding list_lt first_less Before
  cons_lt x y xs ys (inl l) = rw l refl
  cons_lt x y xs ys (inr (e, h)) = rw (e, irrefl y) h

  list_lt_asym : (xs ys : List A) → list_lt less xs ys ≡ true → list_lt less ys xs ≡ false
  unfolding list_lt first_less Before
  list_lt_asym [] [] h = refl
  list_lt_asym [] (y ∷ ys) h = refl
  list_lt_asym (x ∷ xs) [] h = absurd (clash h refl)
  list_lt_asym (x ∷ xs) (y ∷ ys) h = elim (lt-Before (x ∷ xs) (y ∷ ys) h) [
    | inl l ↦ rw (total.asym x y l, l) refl
    | inr (e, k) ↦ rw (e, irrefl y) (list_lt_asym xs ys k)
  ]

  list_lt_trans :
      (xs ys zs : List A)
      → list_lt less xs ys ≡ true
      → list_lt less ys zs ≡ true
      → list_lt less xs zs ≡ true
  unfolding list_lt Before
  list_lt_trans xs ys [] h k = absurd (clash k refl)
  list_lt_trans [] ys (z ∷ zs) h k = refl
  list_lt_trans (x ∷ xs) [] (z ∷ zs) h k = absurd (clash h refl)
  list_lt_trans (x ∷ xs) (y ∷ ys) (z ∷ zs) h k =
      cons_lt x z xs zs (elim (lt-Before (x ∷ xs) (y ∷ ys) h) [
        | inl l ↦ elim (lt-Before (y ∷ ys) (z ∷ zs) k) [
          | inl m ↦ inl (total.trans x y z l m)
          | inr (e, m) ↦ inl (rw (sym e) l)
        ]
        | inr (e, l) ↦ elim (lt-Before (y ∷ ys) (z ∷ zs) k) [
          | inl m ↦ inl (rw e m)
          | inr (f, m) ↦ inr (e ∙ f, list_lt_trans xs ys zs l m)
        ]
      ])

  list_lt_tri :
      (xs ys : List A) → (list_lt less xs ys ≡ true) ⊎ ((xs ≡ ys) ⊎ (list_lt less ys xs ≡ true))
  unfolding list_lt Before
  list_lt_tri [] [] = inr (inl refl)
  list_lt_tri [] (y ∷ ys) = inl refl
  list_lt_tri (x ∷ xs) [] = inr (inr refl)
  list_lt_tri (x ∷ xs) (y ∷ ys) = elim (total.tri x y) [
    | inl l ↦ inl (cons_lt x y xs ys (inl l))
    | inr (inr g) ↦ inr (inr (cons_lt y x ys xs (inl g)))
    | inr (inl e) ↦ elim (list_lt_tri xs ys) [
      | inl l ↦ inl (cons_lt x y xs ys (inr (e, l)))
      | inr (inl f) ↦ inr (inl (λ i. e i ∷ f i))
      | inr (inr g) ↦ inr (inr (cons_lt y x ys xs (inr (sym e, g))))
    ]
  ]

  list_lt-IsStrictTotal : IsStrictTotal (list_lt less)
  list_lt-IsStrictTotal = record { asym = list_lt_asym; trans = list_lt_trans; tri = list_lt_tri }

-- What follows for "not greater".
module _ {ℓ} {A : Type ℓ} (less : A → A → Bool) (total : IsStrictTotal less) where
  le_trans : (a b c : A) → less b a ≡ false → less c b ≡ false → less c a ≡ false
  le_trans a b c h k = elim (total.tri a b) [
    | inl l ↦ elim (total.tri b c) [
      | inl m ↦ total.asym a c (total.trans a b c l m)
      | inr (inl e) ↦ rw (sym e) h
      | inr (inr g) ↦ absurd (clash less total g k)
    ]
    | inr (inl e) ↦ rw e k
    | inr (inr g) ↦ absurd (clash less total g h)
  ]

  le_antisym : (a b : A) → less b a ≡ false → less a b ≡ false → a ≡ b
  le_antisym a b h k = elim (total.tri a b) [
    | inl l ↦ absurd (clash less total l k)
    | inr (inl e) ↦ e
    | inr (inr g) ↦ absurd (clash less total g h)
  ]

  le_total : (a b : A) → (less b a ≡ false) ⊎ (less a b ≡ false)
  le_total a b = elim (Bool-cases (less b a)) [ inl g ↦ inr (total.asym b a g) | inr h ↦ inl h ]

blocks_lt-IsStrictTotal : IsStrictTotal (list_lt (list_lt ltb))
blocks_lt-IsStrictTotal =
    list_lt-IsStrictTotal (list_lt ltb) (list_lt-IsStrictTotal ltb ltb-IsStrictTotal)

list_eq_sound : (xs ys : List (List ℕ)) → list_eq bytes_beq xs ys ≡ true → xs ≡ ys
unfolding list_eq
list_eq_sound [] [] h = refl
list_eq_sound [] (y ∷ ys) h = cc
list_eq_sound (x ∷ xs) [] h = cc
list_eq_sound (x ∷ xs) (y ∷ ys) h = elim (Bool-cases (bytes_beq x y)) [
  | inl e ↦ λ i. (bytes_beq_iff x y).0 e i ∷ list_eq_sound xs ys (rw e at h) i
  | inr n ↦ cc
]

list_eq_refl : (xs : List (List ℕ)) → list_eq bytes_beq xs xs ≡ true
unfolding list_eq
list_eq_refl [] = refl
list_eq_refl (x ∷ xs) = rw ((bytes_beq_iff x x).1 refl, list_eq_refl xs)

list_eq_iff : (xs ys : List (List ℕ)) → (list_eq bytes_beq xs ys ≡ true) ↔ (xs ≡ ys)
list_eq_iff xs ys = (list_eq_sound xs ys, λ e. rw e (list_eq_refl ys))

list_eq_sym : (xs ys : List (List ℕ)) → list_eq bytes_beq xs ys ≡ list_eq bytes_beq ys xs
list_eq_sym xs ys = elim (Bool-cases (list_eq bytes_beq ys xs)) [
  | inl same ↦ same_lists (sym ((list_eq_iff ys xs).0 same)) ∙ sym same
  | inr other ↦ elim (Bool-cases (list_eq bytes_beq xs ys)) [
    | inl same ↦ absurd (not_both (same_lists (sym ((list_eq_iff xs ys).0 same))) other)
    | inr h ↦ h ∙ sym other
  ]
]
  where
    same_lists : {a b : List (List ℕ)} → a ≡ b → list_eq bytes_beq a b ≡ true
    same_lists {a} {b} e = (list_eq_iff a b).1 e

    not_both : {b : Bool} → b ≡ true → b ≡ false → ⊥
    not_both h k = cc

-- `<` is `<=` and `!=`.
lt_le_ne :
    (xs ys : List (List ℕ))
    → list_lt (list_lt ltb) xs ys
      ≡ (not (list_lt (list_lt ltb) ys xs) && not (list_eq bytes_beq ys xs))
lt_le_ne xs ys =
    let t = blocks_lt-IsStrictTotal in
    elim (t.tri xs ys) [
      | inl l ↦ rw (l, t.asym xs ys l, different xs ys l) refl
      | inr (inl e) ↦ rw (e, irrefl (list_lt (list_lt ltb)) t ys, list_eq_refl ys) refl
      | inr (inr g) ↦ rw (g, t.asym ys xs g) refl
    ]
  where
    different :
        (u v : List (List ℕ)) → list_lt (list_lt ltb) u v ≡ true → list_eq bytes_beq v u ≡ false
    different u v l = elim (Bool-cases (list_eq bytes_beq v u)) [
      | inr h ↦ h
      | inl same ↦
          let e = (list_eq_iff v u).0 same in
          let t = blocks_lt-IsStrictTotal in
          absurd (clash (list_lt (list_lt ltb)) t l (rw e (irrefl (list_lt (list_lt ltb)) t u)))
    ]

refuted : (b : Bool) → not b ≡ true → b ≡ false
refuted true h = cc
refuted false h = refl

double_negation : (b : Bool) → b ≡ not (not b)
double_negation true = refl
double_negation false = refl

-- What `operator==` and `operator<=` owe, with the other four in terms of them.
pub record IsLinear (a b c : BlockBuffer) : Type 0 where
  pub same : (eq a b ≡ true) ↔ (a ≡ b)
  pub trans : le a b ≡ true → le b c ≡ true → le a c ≡ true
  pub antisym : le a b ≡ true → le b a ≡ true → a ≡ b
  pub total : (le a b ≡ true) ⊎ (le b a ≡ true)
  pub others :
      (ne a b ≡ not (eq a b))
      × (lt a b ≡ (le a b && ne a b))
      × (gt a b ≡ not (le a b))
      × (ge a b ≡ le b a)

-- The comparisons of BlockBuffer are a linear order of the buffers: two buffers are equal by `==`
-- exactly if they are the same, `<=` is transitive, antisymmetric and total, and `!=`, `<`, `>` and
-- `>=` agree with these two.
pub le-IsLinear : (a b c : BlockBuffer) → IsLinear a b c
unfolding eq ne lt gt le ge
le-IsLinear a b c =
    let t = blocks_lt-IsStrictTotal in
    let x = a.block_buffer in
    let y = b.block_buffer in
    let ext : x ≡ y → a ≡ b = λ e i. record { block_buffer = e i } in
    record {
      same =
          (λ h. ext ((list_eq_iff x y).0 h), λ e. (list_eq_iff x y).1 (ap (λ d. d.block_buffer) e));
      trans = λ h k.
          ap not
            (le_trans (list_lt (list_lt ltb)) t x y c.block_buffer (refuted _ h) (refuted _ k));
      antisym = λ h k. ext (le_antisym (list_lt (list_lt ltb)) t x y (refuted _ h) (refuted _ k));
      total = elim (le_total (list_lt (list_lt ltb)) t x y) [
        | inl h ↦ inl (ap not h)
        | inr h ↦ inr (ap not h)
      ];
      others = (
        ap not (list_eq_sym y x),
        lt_le_ne x y,
        double_negation (list_lt (list_lt ltb) y x),
        refl,
      );
    }
