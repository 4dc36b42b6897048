-- ===== src/Buffer/Drain.antt =====
-- `pop(n)` and `popAll()` in the form that clients use: the result, as an equation.
use tin_locus.Base.{
  ℕ, ◌≤◌, ◌<◌, ◌≡◌, ◌≢◌, refl, ap, ◌∙◌, List, [], ◌∷◌, ◌++◌, arith, length, take, drop, take_all,
  drop_all, Result, ok, throws, undefined,
}
use tin_locus.Buffer.{Buffer, pop, pop_n, pop_all}
use tin_locus.Buffer.Invariant.{IsValid, contents, PopsN, pop_n-PopsN, Pops, pop-Pops}

-- A pop that succeeded: its result, and what is left.
pub record Drained (n : ℕ) (b c : Buffer) : Type 0 where
  pub rest : contents c ≡ drop n (contents b)
  pub same_max : c.buffer_max_size ≡ b.buffer_max_size
  pub same_stage : c.stage ≡ b.stage
  pub valid : IsValid c

enough :
    (n : ℕ) (b : Buffer) (r : Result (List ℕ × Buffer))
    → n ≤ length (contents b)
    → PopsN n b r
    → (c : Buffer) × (r ≡ ok (take n (contents b), c)) × Drained n b c
enough n b throws h p = absurd (omega arith)
enough n b undefined h p = absurd p
enough n b (ok (bytes, c)) h (fits, e, rest, m, s, v) = (
  c,
  ap (λ (xs : List ℕ). ok (xs, c)) e,
  record { rest = rest; same_max = m; same_stage = s; valid = v },
)

pub pop_n_ok :
    (n : ℕ) (b : Buffer)
    → IsValid b
    → n ≤ length (contents b)
    → (c : Buffer) × (pop_n n b ≡ ok (take n (contents b), c)) × Drained n b c
pop_n_ok n b v h = enough n b (pop_n n b) h (pop_n-PopsN n b v)

too_few :
    (n : ℕ) (b : Buffer) (r : Result (List ℕ × Buffer))
    → length (contents b) < n
    → PopsN n b r
    → r ≡ throws
too_few n b throws h p = refl
too_few n b undefined h p = absurd p
too_few n b (ok (bytes, c)) h p = absurd (omega arith)

pub pop_n_throws : (n : ℕ) (b : Buffer) → IsValid b → length (contents b) < n → pop_n n b ≡ throws
pop_n_throws n b v h = too_few n b (pop_n n b) h (pop_n-PopsN n b v)

pub pop_all-contents :
    (b : Buffer)
    → IsValid b
    → (c : Buffer) × (pop_all b ≡ ok (contents b, c))
      × (contents c ≡ [])
      × (c.buffer_max_size ≡ b.buffer_max_size)
      × (c.stage ≡ b.stage)
      × IsValid c
unfolding pop_all
pop_all-contents b v =
    let everything : length (contents b) ≤ b.buffer_size = omega (arith, v.counted) in
    let (c, e, d) =
      enough b.buffer_size b (pop_n b.buffer_size b) (omega (arith, v.counted))
        (pop_n-PopsN b.buffer_size b v) in
    (
      c,
      e ∙ ap (λ (xs : List ℕ). ok (xs, c)) (take_all b.buffer_size (contents b) everything),
      d.rest ∙ drop_all b.buffer_size (contents b) everything,
      d.same_max,
      d.same_stage,
      d.valid,
    )

-- `pop()` with something to pop.
pub record Shifted (b : Buffer) (bytes : List ℕ) (c : Buffer) : Type 0 where
  pub chunks : b.buffer ≡ bytes ∷ c.buffer
  pub split : contents b ≡ bytes ++ contents c
  pub same_max : c.buffer_max_size ≡ b.buffer_max_size
  pub same_stage : c.stage ≡ b.stage
  pub valid : IsValid c

shifted :
    (b : Buffer) (r : Result (List ℕ × Buffer))
    → contents b ≢ []
    → Pops b r
    → (bytes : List ℕ) × (c : Buffer) × (r ≡ ok (bytes, c)) × Shifted b bytes c
shifted b throws h p = absurd (h p)
shifted b undefined h p = absurd p
shifted b (ok (bytes, c)) h (present, e, s, m, t, v) =
    (bytes, c, refl, record { chunks = e; split = s; same_max = m; same_stage = t; valid = v })

pub pop_ok :
    (b : Buffer)
    → IsValid b
    → contents b ≢ []
    → (bytes : List ℕ) × (c : Buffer) × (pop b ≡ ok (bytes, c)) × Shifted b bytes c
pop_ok b v h = shifted b (pop b) h (pop-Pops b v)
