-- ===== src/Buffer/Bytes.antt =====
-- The chunks of a buffer as one sequence of bytes.
use tin_locus.Base.{
  ℕ, zero, suc, ◌-◌, ◌≤◌, ◌≡◌, refl, sym, inl, inr, List, [], ◌∷◌, ◌++◌, arith, leb, length, take,
  drop, length-append, ok, Bool-cases, take-append_ge, drop-append_ge, take-append_le,
  drop-append_le, leb→le,
}
use tin_locus.Buffer.{pop_loop}
use mathlib.Core.List.{append-nil, append_assoc}

abbrev pub join : List (List ℕ) → List ℕ
join [] = []
join (chunk ∷ rest) = chunk ++ join rest

pub join-snoc : (cs : List (List ℕ)) (c : List ℕ) → join (cs ++ c ∷ []) ≡ join cs ++ c
join-snoc [] c = append-nil c
join-snoc (d ∷ cs) c = rw (join-snoc cs c) (sym (append_assoc d (join cs) c))

-- With enough bytes at hand the loop ends normally: it yields the first `n` and leaves the others.
pub pop_loop-join :
    (n : ℕ) (cs : List (List ℕ))
    → n ≤ length (join cs)
    → (r : List (List ℕ)) × (pop_loop n cs ≡ ok (take n (join cs), r)) × (join r ≡ drop n (join cs))
unfolding pop_loop
pop_loop-join zero [] h = ([], refl, refl)
pop_loop-join zero (c ∷ cs) h = (c ∷ cs, refl, refl)
pop_loop-join (suc n) [] h = absurd (omega arith)
pop_loop-join (suc n) (c ∷ cs) h = elim (Bool-cases (leb (length c) (suc n))) [
  | inl whole ↦
      let fits : length c ≤ suc n = leb→le _ _ whole in
      let (r, e, j) =
        pop_loop-join (suc n - length c) cs (omega (arith, length-append c (join cs))) in
      (
        r,
        ground (arith, e, take-append_ge (suc n) c (join cs) fits),
        rw (drop-append_ge (suc n) c (join cs) fits) j,
      )
  | inr part ↦
      let cut : suc n ≤ length c = ground arith in
      (
        drop (suc n) c ∷ cs,
        ground (arith, take-append_le (suc n) c (join cs) cut),
        sym (drop-append_le (suc n) c (join cs) cut),
      )
]
