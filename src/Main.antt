-- ===== src/Main.antt =====
-- server/src/main.cpp: the console loop, and the order in which the threads are told to close. What
-- `std::cin` does is a parameter, since it belongs to the C++ library.
pub mod Console
pub mod Tests
use tin_locus.Base.{
  ℕ, zero, suc, ◌==◌, ◌≡◌, ◌≢◌, Bool, true, false, List, [], ◌∷◌, ◌++◌, bytes_beq, if◌then◌else◌,
}
use tin_locus.Server.{erase_message, event_message}
use tin_locus.Message
use tin_locus.Message.{Message, MessageType}

-- `std::cin`: `peek` (the pattern of an `int`), and `>>` of a word and of an `int`. After the end of
-- the input, and after a number that could not be read, `peek` gives `EOF` and a word stays empty.
pub record Cin : Type 1 where
  pub Stream : Type 0
  pub peek : Stream → ℕ
  pub word : Stream → List ℕ × Stream
  pub number : Stream → ℕ × Stream
  pub IsOver : Stream → Type 0
  pub peek_over : (s : Stream) → IsOver s → peek s ≢ 0
  pub word_over : (s : Stream) → IsOver s → (word s).0 ≡ []
  pub stays_over : (s : Stream) → IsOver s → IsOver (word s).1

abbrev pub close_all : List ℕ
close_all = b'c' ∷ b'l' ∷ b'o' ∷ b's' ∷ b'e' ∷ b'A' ∷ b'l' ∷ b'l' ∷ []

abbrev pub close : List ℕ
close = b'c' ∷ b'l' ∷ b'o' ∷ b's' ∷ b'e' ∷ []

-- What the loop did: the messages that it pushed to the queue of the clients' manager, and the
-- commands that it did not recognise.
pub record Told : Type 0 where
  pub pushed : List Message
  pub unknown : List (List ℕ)

module _ (cin : Cin) where
  -- `while (std::cin.peek())`, for some rounds: what it did, and whether it has ended.
  pub console : ℕ → cin.Stream → Told → Told × Bool
  console zero s t = (t, false)
  console (suc rounds) s t =
      let (commend, s') = cin.word s in
      let (nr, s'') = cin.number s' in
      let erased = console rounds s'' (record t { pushed = t.pushed ++ erase_message nr ∷ [] }) in
      let ignored = console rounds s' (record t { unknown = t.unknown ++ commend ∷ [] }) in
      if cin.peek s == 0
      then (t, true)
      else if bytes_beq commend close_all
      then (t, true)
      else if bytes_beq commend close
      then erased
      else ignored

-- The three threads, in the order in which `main` pushes `Close` to them and joins them.
pub data Thread : Type 0 where
  server receiver sender : Thread

pub shut_down : List (Thread × Message)
unfolding Message.new
shut_down =
    (Thread.sender, Message.new MessageType.close)
    ∷ (Thread.receiver, Message.new MessageType.close)
    ∷ (Thread.server, Message.new MessageType.close)
    ∷ []

-- The objects that `main` gives to the threads before the loop: the clients' manager and the acceptor.
pub start_up : ℕ → ℕ → List (Thread × Message)
start_up client_manager acceptor =
    (Thread.server, event_message client_manager) ∷ (Thread.receiver, event_message acceptor) ∷ []
