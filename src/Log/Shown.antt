-- ===== src/Log/Shown.antt =====
-- What `setShouldShowDebug` decides.
use tin_locus.Base.{ℕ, ◌≡◌, refl, ap, ◌∙◌, false, List, [], ◌∷◌}
use tin_locus.Log.{Screen, Logger, log_message, log_error, log_debug, set_output_stream}

-- The calls of the log, each at a time.
pub data Call : Type 0 where
  message error debug : ℕ → List ℕ → Call
  to_stream : ℕ → Call

module _ (screen : Screen) where
  pub logged : Call → Logger → Logger
  logged (Call.message now text) = log_message screen now text
  logged (Call.error now text) = log_error screen now text
  logged (Call.debug now text) = log_debug screen now text
  logged (Call.to_stream n) = set_output_stream n

  pub run : List Call → Logger → Logger
  unfolding logged
  run [] l = l
  run (c ∷ cs) l = run cs (logged c l)

  abbrev pub without_debug : List Call → List Call
  without_debug [] = []
  without_debug (Call.debug now text ∷ cs) = without_debug cs
  without_debug (c ∷ cs) = c ∷ without_debug cs

  -- While debug messages are not shown, the log reads as if `logDebug` was never called.
  pub run-without_debug :
      (cs : List Call) (l : Logger)
      → l.should_show_debug ≡ false
      → run cs l ≡ run (without_debug cs) l
  unfolding run set_output_stream log_message log_error log_debug
  run-without_debug [] l h = refl
  run-without_debug (Call.debug now text ∷ cs) l h =
      ap (run cs) (hidden now text) ∙ run-without_debug cs l h
    where
      hidden : (now : ℕ) (text : List ℕ) → log_debug screen now text l ≡ l
      hidden now text = rw h
  run-without_debug (Call.message now text ∷ cs) l h =
      run-without_debug cs (log_message screen now text l) h
  run-without_debug (Call.error now text ∷ cs) l h =
      run-without_debug cs (log_error screen now text l) h
  run-without_debug (Call.to_stream n ∷ cs) l h = run-without_debug cs (set_output_stream n l) h
