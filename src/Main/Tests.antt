-- ===== src/Main/Tests.antt =====
-- The console loop on a stream of commands that is a list.
use tin_locus.Base.{ℕ, ◌≡◌, ◌≢◌, refl, ap, List, [], ◌∷◌, false, arith}
use tin_locus.Main.{Cin, Told, console, close, close_all}
use tin_locus.Main.Console.{console_over, empty_words}

-- What is left to read: words, each followed by a number that is read only if it is asked for.
abbrev word_of : List (List ℕ × ℕ) → List ℕ
word_of [] = []
word_of ((w, n) ∷ rest) = w

abbrev number_of : List (List ℕ × ℕ) → ℕ × List (List ℕ × ℕ)
number_of [] = (0, [])
number_of ((w, n) ∷ rest) = (n, rest)

abbrev listed_cin : Cin
listed_cin = record {
  Stream = List (List ℕ × ℕ);
  peek = λ s. 1;
  word = λ s. (word_of s, s);
  number = number_of;
  IsOver = λ s. s ≡ [];
  peek_over = λ s over e. absurd (omega arith);
  word_over = λ s over. ap word_of over;
  stays_over = λ s over. over;
}

abbrev nothing_told : Told
nothing_told = record { pushed = []; unknown = [] }

console_over_example :
    console listed_cin 5 [] nothing_told
    ≡ (record nothing_told { unknown = empty_words listed_cin 5 }, false)
console_over_example = console_over listed_cin 5 [] nothing_told refl

abbrev six : List ℕ
six = 6 ∷ []

abbrev two_commands : List (List ℕ × ℕ)
two_commands = (close, 6) ∷ (close_all, 0) ∷ []

peeks : (n : ℕ) → n ≡ 1 → n ≢ 0
peeks n e f = omega arith
