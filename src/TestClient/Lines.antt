-- ===== src/TestClient/Lines.antt =====
-- What `std::cin.get` and the loop over `peek` make of a text in lines.
use tin_locus.Base.{
  ℕ, zero, suc, ◌≤◌, ◌≡◌, ◌⊎◌, refl, ap, inl, inr, true, false, List, [], ◌∷◌, ◌++◌, arith, ◌==◌,
  if◌then◌else◌, length, Bool-cases,
}
use tin_locus.TestClient.{newline, take_line, skip_newlines}

-- The characters of all lines.
unfoldable pub without_newlines : List ℕ → List ℕ
without_newlines [] = []
without_newlines (c ∷ cs) = if c == newline then without_newlines cs else c ∷ without_newlines cs

-- An empty first line ends the loop.
unfoldable pub typed : List ℕ → List ℕ
typed [] = []
typed (c ∷ cs) = if c == newline then [] else without_newlines (c ∷ cs)

pub without_newlines-append :
    (xs ys : List ℕ) → without_newlines (xs ++ ys) ≡ without_newlines xs ++ without_newlines ys
unfolding without_newlines
without_newlines-append [] ys = refl
without_newlines-append (x ∷ xs) ys = elim (Bool-cases (x == newline)) [
  | inl e ↦ rw e (without_newlines-append xs ys)
  | inr e ↦ rw e (ap (◌∷◌ x) (without_newlines-append xs ys))
]

-- A line that `get` takes.
pub record IsTaken (n : ℕ) (text : List ℕ) : Type 0 where
  pub split : (take_line n text).0 ++ (take_line n text).1 ≡ text
  pub plain : without_newlines (take_line n text).0 ≡ (take_line n text).0
  pub at_end : (take_line n text).2 ≡ true → (take_line n text).1 ≡ []

pub take_line-IsTaken : (n : ℕ) (text : List ℕ) → IsTaken n text
unfolding take_line without_newlines
take_line-IsTaken zero text = record { split = refl; plain = refl; at_end = λ e. cc }
take_line-IsTaken (suc n) [] = record { split = refl; plain = refl; at_end = λ e. refl }
take_line-IsTaken (suc n) (c ∷ cs) =
    let l = take_line-IsTaken n cs in
    elim (Bool-cases (c == newline)) [
      | inl e ↦ record { split = rw e; plain = rw e; at_end = rw e (λ e. cc) }
      | inr e ↦ record {
        split = rw e (ap (◌∷◌ c) l.split);
        plain = rw (e, e) (ap (◌∷◌ c) l.plain);
        at_end = rw e l.at_end;
      }
    ]

-- What `peek` and the `get` of newlines leave.
abbrev pub Skips : List ℕ → Type 0
Skips text =
    ((skip_newlines text ≡ ([], true)) × (without_newlines text ≡ []))
    ⊎ ((c : ℕ) × (cs : List ℕ) × (skip_newlines text ≡ (c ∷ cs, false))
        × ((c == newline) ≡ false)
        × (without_newlines text ≡ without_newlines (c ∷ cs))
        × (length (c ∷ cs) ≤ length text))

pub skip_newlines-Skips : (text : List ℕ) → Skips text
unfolding skip_newlines without_newlines
skip_newlines-Skips [] = inl (refl, refl)
skip_newlines-Skips (c ∷ cs) = elim (Bool-cases (c == newline)) [
  | inr e ↦ inr (c, cs, rw e, e, refl, omega arith)
  | inl e ↦ elim (skip_newlines-Skips cs) [
    | inl (s, w) ↦ inl (rw e s, rw e w)
    | inr (d, ds, s, f, w, l) ↦ inr (d, ds, rw e s, f, rw e w, omega (arith, l))
  ]
]
