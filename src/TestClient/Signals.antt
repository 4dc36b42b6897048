-- ===== src/TestClient/Signals.antt =====
-- server/src/simple-client/signal_handlers.cpp. A signal is delivered to the handler of the program, or
-- takes its default action.
use tin_locus.Base.{ℕ, ◌≡◌, refl, Bool, true, false, List, [], ◌∷◌, ◌++◌, if◌then◌else◌}

pub data Signal : Type 0 where
  sigint sigterm sigquit sigtstp sigcont other : Signal

abbrev is_signal : Signal → Signal → Bool
is_signal Signal.sigint Signal.sigint = true
is_signal Signal.sigterm Signal.sigterm = true
is_signal Signal.sigquit Signal.sigquit = true
is_signal Signal.sigtstp Signal.sigtstp = true
is_signal Signal.sigcont Signal.sigcont = true
is_signal Signal.other Signal.other = true
is_signal _ _ = false

-- Which signals have the handler, and what happened so far: the text on the screen, and the signals
-- whose default action was taken.
pub record Process : Type 0 where
  pub handled : Signal → Bool
  pub screen : List ℕ
  pub defaults : List Signal

-- The text that the handler writes.
pub message_of : Signal → List ℕ
message_of Signal.sigint =
    b'@' ∷ b' ' ∷ b'S' ∷ b'I' ∷ b'G' ∷ b'I' ∷ b'N' ∷ b'T' ∷ b' ' ∷ b'c' ∷ b'a' ∷ b't' ∷ b'c' ∷ b'h'
    ∷ b'e' ∷ b'd' ∷ b' ' ∷ b'@' ∷ []
message_of Signal.sigterm =
    b'@' ∷ b' ' ∷ b'S' ∷ b'I' ∷ b'G' ∷ b'T' ∷ b'E' ∷ b'R' ∷ b'M' ∷ b' ' ∷ b'c' ∷ b'a' ∷ b't' ∷ b'c'
    ∷ b'h' ∷ b'e' ∷ b'd' ∷ b' ' ∷ b'@' ∷ []
message_of Signal.sigquit =
    b'@' ∷ b' ' ∷ b'S' ∷ b'I' ∷ b'G' ∷ b'Q' ∷ b'U' ∷ b'I' ∷ b'T' ∷ b' ' ∷ b'c' ∷ b'a' ∷ b't' ∷ b'c'
    ∷ b'h' ∷ b'e' ∷ b'd' ∷ b' ' ∷ b'@' ∷ []
message_of Signal.sigtstp =
    b'@' ∷ b' ' ∷ b'S' ∷ b'I' ∷ b'G' ∷ b'T' ∷ b'S' ∷ b'T' ∷ b'P' ∷ b' ' ∷ b'c' ∷ b'a' ∷ b't' ∷ b'c'
    ∷ b'h' ∷ b'e' ∷ b'd' ∷ b' ' ∷ b'@' ∷ []
message_of Signal.sigcont =
    b'@' ∷ b' ' ∷ b'S' ∷ b'I' ∷ b'G' ∷ b'C' ∷ b'O' ∷ b'N' ∷ b'T' ∷ b' ' ∷ b'c' ∷ b'a' ∷ b't' ∷ b'c'
    ∷ b'h' ∷ b'e' ∷ b'd' ∷ b' ' ∷ b'@' ∷ []
message_of Signal.other = []

-- The default action of a signal.
abbrev by_default : Signal → Process → Process
by_default s p = record p { defaults = p.defaults ++ s ∷ [] }

-- `signal_handler(signal)`: the text, `SIG_DFL`, and `raise`, which takes the default action now.
pub signal_handler : Signal → Process → Process
unfolding message_of
signal_handler s p = by_default s (record p {
  screen = p.screen ++ message_of s;
  handled = λ t. if is_signal s t then false else p.handled t;
})

-- A signal that arrives.
pub delivered : Signal → Process → Process
unfolding signal_handler
delivered s p = if p.handled s then signal_handler s p else by_default s p

same_signal : (s : Signal) → is_signal s s ≡ true
same_signal Signal.sigint = refl
same_signal Signal.sigterm = refl
same_signal Signal.sigquit = refl
same_signal Signal.sigtstp = refl
same_signal Signal.sigcont = refl
same_signal Signal.other = refl

-- A signal is caught once: the first delivery writes its text and takes the default action, and from
-- then on it takes the default action and writes nothing; the handlers of the others stay.
pub delivered_twice :
    (s : Signal) (p : Process)
    → p.handled s ≡ true
    → let q = delivered s p in
      let r = delivered s q in
      (q.screen ≡ p.screen ++ message_of s)
      × (q.defaults ≡ p.defaults ++ s ∷ [])
      × (r.screen ≡ q.screen)
      × (r.defaults ≡ q.defaults ++ s ∷ [])
      × ((t : Signal) → is_signal s t ≡ false → q.handled t ≡ p.handled t)
unfolding delivered
delivered_twice s p h = rw (h, same_signal s) (refl, refl, refl, refl, λ t other. rw other)
