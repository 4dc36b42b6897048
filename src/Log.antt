-- ===== src/Log.antt =====
-- server/src/log/Logger.h and Logger.cpp: the text that goes to the log. The mutex makes each call one
-- step. The texts that set a colour, from a class of a test library, and the clock are parameters.
pub mod Shown
use tin_locus.Base.{ℕ, ◌-◌, Bool, true, not, if◌then◌else◌, List, [], ◌∷◌, ◌++◌, length, take}

pub data Colour : Type 0 where
  error warning white : Colour

-- What is read of the machine: the colours, and what `std::ctime` returns, with its line end.
pub record Screen : Type 0 where
  pub colour : Colour → List ℕ
  pub ctime : ℕ → List ℕ

-- The stream of the log, by a number, and what was written so far, each text with its stream.
pub record Logger : Type 0 where
  pub output : ℕ
  pub written : List (ℕ × List ℕ)
  pub should_show_debug : Bool

-- `Logger()`, whose stream is `std::cerr`.
pub new : Logger
new = record { output = 2; written = []; should_show_debug = true }

abbrev newline : List ℕ
newline = 10 ∷ []

-- `setOutputStream(output)`
unfoldable pub set_output_stream : ℕ → Logger → Logger
set_output_stream output l = record l { output = output }

-- `setShouldShowDebug(shouldShowDebug)`
unfoldable pub set_should_show_debug : Bool → Logger → Logger
set_should_show_debug show l = record l { should_show_debug = show }

module _ (screen : Screen) where
  -- `getTime()`: the text of the time without its last character.
  unfoldable pub get_time : ℕ → List ℕ
  get_time now = take (length (screen.ctime now) - 1) (screen.ctime now)

  -- `logMessage(message)`
  unfoldable pub log_message : ℕ → List ℕ → Logger → Logger
  unfolding get_time
  log_message now message l = record l {
    written =
        l.written
        ++ (
          l.output,
          (b'L' ∷ b'O' ∷ b'G' ∷ b':' ∷ b' ' ∷ [])
              ++ get_time now
              ++ (b' ' ∷ b' ' ∷ [])
              ++ message
              ++ newline,
        )
          ∷ [];
  }

  -- `logError(error)`
  unfoldable pub log_error : ℕ → List ℕ → Logger → Logger
  unfolding get_time
  log_error now message l = record l {
    written =
        l.written
        ++ (
          l.output,
          screen.colour Colour.error
              ++ (b'E' ∷ b'R' ∷ b'R' ∷ b'O' ∷ b'R' ∷ b':' ∷ b' ' ∷ [])
              ++ get_time now
              ++ (b' ' ∷ b' ' ∷ [])
              ++ message
              ++ screen.colour Colour.white
              ++ newline,
        )
          ∷ [];
  }

  -- `logDebug(debug)`
  unfoldable pub log_debug : ℕ → List ℕ → Logger → Logger
  unfolding get_time
  log_debug now message l = if not l.should_show_debug then l else (record l {
    written =
        l.written
        ++ (
          l.output,
          screen.colour Colour.warning
              ++ (b'D' ∷ b'E' ∷ b'B' ∷ b'U' ∷ b'G' ∷ b':' ∷ b' ' ∷ [])
              ++ get_time now
              ++ (b' ' ∷ b' ' ∷ [])
              ++ message
              ++ screen.colour Colour.white
              ++ newline,
        )
          ∷ [];
  })
