-- ===== src/Log/Streams.antt =====
-- What the log prints on each stream.
use loop_charger_inverter.Prelude.{
  ℕ, ◌≡◌, refl, Bool, true, false, ◌||◌, List, [], ◌∷◌, arith, leb, ◌==◌, if◌then◌else◌,
}
use loop_charger_inverter.Cmos.Text.{codes}
use loop_charger_inverter.Log.{
  Stream, stdout, stderr, TimeOfDay, level_output, log_line, log_message, LogCall, set_log_level,
  message, with_line, log_run,
}

abbrev pub on_stream : Stream → Stream → Bool
on_stream stdout stdout = true
on_stream stderr stderr = true
on_stream _ _ = false

-- The lines on a stream.
abbrev pub lines_on : Stream → List (Stream × List ℕ) → List (List ℕ)
lines_on s [] = []
lines_on s ((t, line) ∷ lines) = if on_stream s t then line ∷ lines_on s lines else lines_on s lines

-- The lines of the errors and assertions among the calls, whatever the level is.
abbrev pub error_lines : List LogCall → List (List ℕ)
error_lines [] = []
error_lines (set_log_level level ∷ calls) = error_lines calls
error_lines (message level tv text ∷ calls) =
    if level == 4
    then log_line (codes "ERROR") tv text ∷ error_lines calls
    else if level == 5
    then log_line (codes "ASSERT") tv text ∷ error_lines calls
    else error_lines calls

-- The lines of the other messages at or above the level that is set when they come; those above
-- ASSERT always.
abbrev pub other_lines : ℕ → List LogCall → List (List ℕ)
other_lines current [] = []
other_lines current (set_log_level level ∷ calls) = other_lines level calls
other_lines current (message level tv text ∷ calls) =
    if level == 4 || level == 5
    then other_lines current calls
    else if leb current level || leb 6 level
    then log_line (level_output level).1 tv text ∷ other_lines current calls
    else other_lines current calls

lines_on-message :
    (current level : ℕ) (tv : TimeOfDay) (text : List ℕ) (lines : List (Stream × List ℕ))
    → (lines_on stderr (with_line (log_message current level tv text) lines) ≡ (
        if level == 4
        then log_line (codes "ERROR") tv text ∷ lines_on stderr lines
        else if level == 5
        then log_line (codes "ASSERT") tv text ∷ lines_on stderr lines
        else lines_on stderr lines))
      × (lines_on stdout (with_line (log_message current level tv text) lines) ≡ (
          if level == 4 || level == 5
          then lines_on stdout lines
          else if leb current level || leb 6 level
          then log_line (level_output level).1 tv text ∷ lines_on stdout lines
          else lines_on stdout lines))
unfolding log_message level_output
lines_on-message current level tv text lines = (ground arith, ground arith)

-- Whatever levels are set in between: stderr gets exactly the messages of level ERROR and ASSERT, in
-- order and with the name of the level, and stdout exactly those of the other levels that are at or
-- above the level set when they come, or above ASSERT.
pub log_run-lines_on :
    (calls : List LogCall) (current : ℕ)
    → (lines_on stderr (log_run current calls) ≡ error_lines calls)
      × (lines_on stdout (log_run current calls) ≡ other_lines current calls)
unfolding log_run
log_run-lines_on [] current = (refl, refl)
log_run-lines_on (set_log_level level ∷ calls) current = log_run-lines_on calls level
log_run-lines_on (message level tv text ∷ calls) current =
    let (errors, others) = log_run-lines_on calls current in
    let (to_stderr, to_stdout) = lines_on-message current level tv text (log_run current calls) in
    (rw (← errors) to_stderr, rw (← others) to_stdout)
