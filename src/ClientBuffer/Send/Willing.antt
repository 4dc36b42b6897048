-- ===== src/ClientBuffer/Send/Willing.antt =====
-- What a kernel that has room makes of one call of `ClientBuffer::send(buffer)`.
use tin_locus.Base.{
  ℕ, zero, suc, ◌≤◌, ◌<◌, ◌≡◌, ◌≢◌, ◌⊎◌, refl, inl, inr, false, List, [], ◌∷◌, ◌++◌, arith, length,
  length-drop,
}
use tin_locus.Buffer.{Stage}
use tin_locus.Buffer.Invariant.{IsValid, contents}
use tin_locus.ClientBuffer.{ClientBuffer, is_nil}
use tin_locus.ClientBuffer.Send.{Taken, took, would_block, failed, send_bytes}

-- The kernel reports no error; and it takes a byte at once.
abbrev pub NoFail : List Taken → Type 0
NoFail [] = Unit {0}
NoFail (took n ∷ rest) = NoFail rest
NoFail (would_block ∷ rest) = NoFail rest
NoFail (failed ∷ rest) = ⊥

abbrev pub Willing : List Taken → Type 0
Willing (took (suc n) ∷ rest) = NoFail rest
Willing _ = ⊥

pub NoFail-Willing : (a : List Taken) → Willing a → NoFail a
NoFail-Willing [] h = absurd h
NoFail-Willing (took zero ∷ rest) h = absurd h
NoFail-Willing (took (suc n) ∷ rest) h = h
NoFail-Willing (would_block ∷ rest) h = absurd h
NoFail-Willing (failed ∷ rest) h = absurd h

-- A connection in the middle of a frame, and one that has nothing more to send.
pub record IsPending (c : ClientBuffer) : Type 0 where
  pub open_now : c.close ≡ false
  pub sending : c.buffer_out.stage ≡ Stage.sending
  pub valid : IsValid c.buffer_out
  pub some_left : contents c.buffer_out ≢ []

pub record IsDone (c : ClientBuffer) : Type 0 where
  pub open_now : c.close ≡ false
  pub stage : c.buffer_out.stage ≡ Stage.empty
  pub valid : IsValid c.buffer_out
  pub none_left : contents c.buffer_out ≡ []

pub send_bytes-NoFail :
    (bs : List ℕ) (a : List Taken)
    → NoFail a
    → ((send_bytes bs false a).closed ≡ false) × NoFail (send_bytes bs false a).answers
unfolding send_bytes is_nil
send_bytes-NoFail [] a h = (refl, h)
send_bytes-NoFail (b ∷ bs) [] h = (refl, tt)
send_bytes-NoFail (b ∷ bs) (took n ∷ rest) h = (refl, h)
send_bytes-NoFail (b ∷ bs) (would_block ∷ rest) h = (refl, h)
send_bytes-NoFail (b ∷ bs) (failed ∷ rest) h = absurd h

pub send_bytes-Willing :
    (b : ℕ) (bs : List ℕ) (a : List Taken)
    → Willing a
    → length (send_bytes (b ∷ bs) false a).remained ≤ length bs
unfolding send_bytes is_nil
send_bytes-Willing b bs [] h = absurd h
send_bytes-Willing b bs (took zero ∷ rest) h = absurd h
send_bytes-Willing b bs (took (suc n) ∷ rest) h = omega (arith, length-drop n bs)
send_bytes-Willing b bs (would_block ∷ rest) h = absurd h
send_bytes-Willing b bs (failed ∷ rest) h = absurd h

-- What the rounds leave.
abbrev pub Ends : ClientBuffer → Type 0
Ends c = IsDone c ⊎ IsPending c

pub cons-ne-nil : (x : ℕ) (xs : List ℕ) → x ∷ xs ≢ []
cons-ne-nil x xs e = cc

pub not_nil : (xs ys : List ℕ) → is_nil xs ≡ false → xs ++ ys ≢ []
unfolding is_nil
not_nil [] ys h = cc
not_nil (x ∷ xs) ys h = cons-ne-nil x (xs ++ ys)

pub send_bytes-less :
    (bs : List ℕ) (a : List Taken)
    → Willing a
    → is_nil (send_bytes bs false a).remained ≡ false
    → length (send_bytes bs false a).remained < length bs
unfolding send_bytes is_nil
send_bytes-less [] a w h = cc
send_bytes-less (b ∷ bs) a w h = omega (arith, send_bytes-Willing b bs a w)

-- An empty chunk uses no answer.
pub send_bytes-next :
    (bs : List ℕ) (a : List Taken)
    → Willing a
    → Willing (send_bytes bs false a).answers ⊎ (0 < length bs)
unfolding send_bytes is_nil
send_bytes-next [] a w = inl w
send_bytes-next (b ∷ bs) a w = inr (omega arith)

pub pos_of_not_nil : (xs : List ℕ) → xs ≢ [] → 0 < length xs
pos_of_not_nil [] h = absurd (h refl)
pos_of_not_nil (x ∷ xs) h = omega arith
