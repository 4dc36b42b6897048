-- ===== src/Main/Console.antt =====
-- What the console loop does with commands, and with the end of the input.
use tin_locus.Base.{ℕ, zero, suc, ◌≡◌, ◌≢◌, List, [], ◌∷◌, ◌++◌, true, false, length, arith}
use tin_locus.Message.{Message}
use tin_locus.Server.{erase_message}
use tin_locus.Main.{Cin, Told, console, close, close_all}
use mathlib.Core.List.{append_assoc, append-nil}

module _ (cin : Cin) where
  -- The empty word, once for each round.
  abbrev pub empty_words : ℕ → List (List ℕ)
  empty_words zero = []
  empty_words (suc rounds) = [] ∷ empty_words rounds

  -- When the input is over, the loop does not end, however many rounds it takes: each of them has
  -- called the empty word a command that is not recognised, and none has pushed a message.
  pub console_over :
      (rounds : ℕ) (s : cin.Stream) (t : Told)
      → cin.IsOver s
      → console cin rounds s t ≡ (record t { unknown = t.unknown ++ empty_words rounds }, false)
  unfolding console
  console_over zero s t over = ground (arith, append-nil t.unknown)
  console_over (suc rounds) s t over = ground (
    arith,
    cin.peek_over s over,
    cin.word_over s over,
    append_assoc t.unknown ([] ∷ []) (empty_words rounds),
    console_over rounds (cin.word s).1 (record t { unknown = t.unknown ++ [] ∷ [] })
        (cin.stays_over s over),
  )

  -- A stream on which `close` stands with each of some numbers, and then `closeAll`.
  pub data Commands : List ℕ → cin.Stream → Type 0 where
    ends : {s : cin.Stream} → cin.peek s ≢ 0 → (cin.word s).0 ≡ close_all → Commands [] s
    closes :
        {s : cin.Stream} {nr : ℕ} {nrs : List ℕ}
        → cin.peek s ≢ 0
        → (cin.word s).0 ≡ close
        → (cin.number (cin.word s).1).0 ≡ nr
        → Commands nrs (cin.number (cin.word s).1).1
        → Commands (nr ∷ nrs) s

  abbrev pub erasures : List ℕ → List Message
  erasures [] = []
  erasures (nr ∷ nrs) = erase_message nr ∷ erasures nrs

  -- On an input of some `close` commands with their numbers and then `closeAll`, the loop ends, and it
  -- has pushed one `EraseClient` for each number, in order.
  pub console_lem :
      (nrs : List ℕ) (s : cin.Stream) (t : Told)
      → Commands nrs s
      → console cin (suc (length nrs)) s t ≡ (record t { pushed = t.pushed ++ erasures nrs }, true)
  unfolding console
  console_lem [] s t (Commands.ends some_left word) = ground (arith, word, append-nil t.pushed)
  console_lem (nr ∷ nrs) s t (Commands.closes some_left word number more) = ground (
    arith,
    word,
    number,
    append_assoc t.pushed (erase_message nr ∷ []) (erasures nrs),
    console_lem nrs (cin.number (cin.word s).1).1
        (record t { pushed = t.pushed ++ erase_message nr ∷ [] }) more,
  )
