-- ===== src/Base/Step.antt =====
-- Methods of an object: a step from one state to the next, which may end in an exception. What was
-- done before the exception stays done, so a `catch` goes on from the state of the `throw`.
pub mod Frame
use tin_locus.Base.Tests.{Result, ok, throws, undefined}

abbrev pub Step {ℓ} : Type ℓ → Type ℓ → Type ℓ
Step S A = S → Result A × S

module _ {ℓ} {S : Type ℓ} where
  abbrev pub then_on : {A B : Type ℓ} → Result A × S → (A → Step S B) → Result B × S
  then_on (ok a, s) f = f a s
  then_on (throws, s) f = (throws, s)
  then_on (undefined, s) f = (undefined, s)

  abbrev pub pure : {A : Type ℓ} → A → Step S A
  pure a s = (ok a, s)

  -- What a call returns that changes nothing.
  abbrev pub lift : {A : Type ℓ} → Result A → Step S A
  lift r s = (r, s)

  -- What `catch (std::exception &e)` does.
  abbrev pub caught : {A : Type ℓ} → Result A × S → Step S A → Result A × S
  caught (ok a, s) h = (ok a, s)
  caught (throws, s) h = h s
  caught (undefined, s) h = (undefined, s)

  abbrev pub catch : {A : Type ℓ} → Step S A → Step S A → Step S A
  catch m h s = caught (m s) h

  -- The outcome of a call on a part of the state, with a way to put the part back.
  unfoldable pub updated : {A B : Type ℓ} → S → (A → S) → (A → B) → Result A → Result B × S
  updated s put value (ok a) = (ok (value a), put a)
  updated s put value throws = (throws, s)
  updated s put value undefined = (undefined, s)

infixl 5 ◌>>=◌
abbrev pub ◌>>=◌ {ℓ} : {S A B : Type ℓ} → Step S A → (A → Step S B) → Step S B
(m >>= f) s = then_on (m s) f
