-- ===== src/Base/Step/Frame.antt =====
-- What a step leaves alone, however it ends: a relation between the states before and after it that
-- its parts have, and that is reflexive and transitive, is one that it has.
use tin_locus.Base.Tests.{Result, ok, throws, undefined, if◌then◌else◌}
use tin_locus.Base.Step.{Step, pure, lift, then_on, caught, catch, updated, ◌>>=◌}
use mathlib.Core.Bool.{Bool, true, false}

module _ {ℓ} {S : Type ℓ} (R : S → S → Type ℓ) where
  -- The step relates the state before it to the one after it.
  pub record Frame {A : Type ℓ} (m : Step S A) : Type ℓ where
    pub holds : (s : S) → R s (m s).1

  pub record IsPreorder : Type ℓ where
    pub reflexive : (s : S) → R s s
    pub transitive : (s t u : S) → R s t → R t u → R s u

module _ {ℓ} {S : Type ℓ} (R : S → S → Type ℓ) (p : IsPreorder R) {A : Type ℓ} where
  pub pure-Frame : (a : A) → Frame R (pure a)
  pure-Frame a = record { holds = p.reflexive }

  pub lift-Frame : (r : Result A) → Frame R (lift r)
  lift-Frame r = record { holds = p.reflexive }

  pub if-Frame : (b : Bool) (m n : Step S A) → Frame R m → Frame R n → Frame R (if b then m else n)
  if-Frame true m n f g = f
  if-Frame false m n f g = g

  catch_lem : (s : S) (r : Result A × S) (h : Step S A) → R s r.1 → Frame R h → R s (caught r h).1
  catch_lem s (ok a, t) h f g = f
  catch_lem s (throws, t) h f g = p.transitive s t (h t).1 f (g.holds t)
  catch_lem s (undefined, t) h f g = f

  pub catch-Frame : (m h : Step S A) → Frame R m → Frame R h → Frame R (catch m h)
  catch-Frame m h f g = record { holds = λ s. catch_lem s (m s) h (f.holds s) g }

module _ {ℓ} {S : Type ℓ} (R : S → S → Type ℓ) (p : IsPreorder R) {A B : Type ℓ} where
  then_lem :
      (s : S) (r : Result A × S) (f : A → Step S B)
      → R s r.1
      → ((a : A) → Frame R (f a))
      → R s (then_on r f).1
  then_lem s (ok a, t) f g h = p.transitive s t (f a t).1 g ((h a).holds t)
  then_lem s (throws, t) f g h = g
  then_lem s (undefined, t) f g h = g

  pub bind-Frame :
      (m : Step S A) (f : A → Step S B) → Frame R m → ((a : A) → Frame R (f a)) → Frame R (m >>= f)
  bind-Frame m f g h = record { holds = λ s. then_lem s (m s) f (g.holds s) h }

  updated_lem :
      (s : S) (put : A → S) (value : A → B) (r : Result A)
      → ((a : A) → R s (put a))
      → R s (updated s put value r).1
  unfolding updated
  updated_lem s put value (ok a) h = h a
  updated_lem s put value throws h = p.reflexive s
  updated_lem s put value undefined h = p.reflexive s

  pub updated-Frame :
      (put : S → A → S) (value : A → B) (r : S → Result A)
      → ((s : S) (a : A) → R s (put s a))
      → Frame R (λ s. updated s (put s) value (r s))
  updated-Frame put value r h = record { holds = λ s. updated_lem s (put s) value (r s) (h s) }

-- A step that has a relation has every weaker one.
pub weaken-Frame {ℓ} :
    {S A : Type ℓ} (R Q : S → S → Type ℓ) (m : Step S A)
    → ((s t : S) → R s t → Q s t)
    → Frame R m
    → Frame Q m
weaken-Frame R Q m w f = record { holds = λ s. w s (m s).1 (f.holds s) }
