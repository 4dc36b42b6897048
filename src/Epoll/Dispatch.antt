-- ===== src/Epoll/Dispatch.antt =====
-- No event keeps another from its object, and a descriptor that is moved is closed once.
use tin_locus.Base.{
  ℕ, ◌≡◌, refl, List, [], ◌∷◌, ◌++◌, some, Result, ok, throws, undefined, if◌then◌else◌, arith,
  Bool-cases, inl, inr,
}
use tin_locus.Base.Step.{Step, pure, caught}
use tin_locus.Epoll.{
  EpollEvent, Event, is_in, is_out, dispatch, dispatch_all, read_epoll, move_from, destroy,
}

-- After a move, the two objects together close what the one would have closed, each descriptor once.
pub destroy-move_from :
    (e : EpollEvent) → let (f, g) = move_from e in destroy f ++ destroy g ≡ destroy e
unfolding move_from destroy
destroy-move_from e = ground arith

-- A call that `readEPoll` is to make of the object of an event.
pub data Method : Type 0 where
  receives sends : ℕ → Method

-- The calls that some events ask for, in order: an object that can be read from receives, even if it
-- can be written to as well, and an event that is neither asks for nothing.
abbrev pub methods : List Event → List Method
methods [] = []
methods (e ∷ es) =
    if is_in e
    then Method.receives e.object ∷ methods es
    else if is_out e
    then Method.sends e.object ∷ methods es
    else methods es

-- A call that returns or throws.
abbrev pub IsDefined : Result (Unit {0}) → Type 0
IsDefined (ok a) = Unit {0}
IsDefined throws = Unit {0}
IsDefined undefined = ⊥

module _ {S : Type 0} (recv send : ℕ → Step S (Unit {0})) where
  abbrev pub method : Method → Step S (Unit {0})
  method (Method.receives object) = recv object
  method (Method.sends object) = send object

  -- One call after another, each on the state that the one before it left, however that ended.
  abbrev pub served : List Method → S → S
  served [] s = s
  served (m ∷ ms) s = served ms (method m s).1

  -- None of these calls is undefined, on the states in which they are made.
  abbrev pub AllDefined : List Method → S → Type 0
  AllDefined [] s = Unit {0}
  AllDefined (m ∷ ms) s = IsDefined (method m s).0 × AllDefined ms (method m s).1

  caught-outcome : (r : Result (Unit {0}) × S) → IsDefined r.0 → caught r (pure tt) ≡ (ok tt, r.1)
  caught-outcome (ok a, t) h = refl
  caught-outcome (throws, t) h = refl
  caught-outcome (undefined, t) h = absurd h

  -- As long as none of the calls that it makes is undefined, `readEPoll` makes every call that the
  -- events ask for, in their order, whether the call before it returned or threw, and throws nothing.
  pub read_epoll_lem :
      (es : List Event) (s : S)
      → AllDefined (methods es) s
      → read_epoll recv send (some es) s ≡ (ok tt, served (methods es) s)
  unfolding read_epoll dispatch_all dispatch
  read_epoll_lem [] s h = refl
  read_epoll_lem (e ∷ es) s h = elim (Bool-cases (is_in e)) [
    | inl i ↦
        let (d, rest) : AllDefined (Method.receives e.object ∷ methods es) s = rw i at h in
        rw (i, caught-outcome (recv e.object s) d) (read_epoll_lem es (recv e.object s).1 rest)
    | inr i ↦ elim (Bool-cases (is_out e)) [
      | inl o ↦
          let (d, rest) : AllDefined (Method.sends e.object ∷ methods es) s = rw (i, o) at h in
          rw (i, o, caught-outcome (send e.object s) d) (read_epoll_lem es (send e.object s).1 rest)
      | inr o ↦ rw (i, o) (read_epoll_lem es s (rw (i, o) at h))
    ]
  ]
