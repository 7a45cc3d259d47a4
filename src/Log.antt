-- ===== src/Log.antt =====
-- lib/log/log.c and the levels of lib/log/log.h. The formatted message, and the text that `strftime`
-- makes of the time, are arguments.
pub mod Streams
use loop_charger_inverter.Prelude.{
  ℕ, ◌+◌, ◌/◌, ◌%◌, Bool, ◌&&◌, Option, none, some, List, [], ◌∷◌, ◌++◌, ltb, ◌==◌, if◌then◌else◌,
}
use loop_charger_inverter.Cmos.Text.{codes, newline}

-- `log_level_t`. A level may be any `unsigned int`, as the program casts a number to it.
abbrev pub log_level_verbose : ℕ
log_level_verbose = 0

abbrev pub log_level_debug : ℕ
log_level_debug = 1

abbrev pub log_level_info : ℕ
log_level_info = 2

abbrev pub log_level_warning : ℕ
log_level_warning = 3

abbrev pub log_level_error : ℕ
log_level_error = 4

abbrev pub log_level_assert : ℕ
log_level_assert = 5

pub data Stream : Type 0 where
  stdout : Stream
  stderr : Stream

-- The value of `gettimeofday`: the text of its seconds, and its microseconds.
pub record TimeOfDay : Type 0 where
  pub seconds : List ℕ
  pub tv_usec : ℕ

-- `.%03d` of a number below 1000.
abbrev pub millis : ℕ → List ℕ
millis n = b'.' ∷ (b'0' + n / 100) ∷ (b'0' + n / 10 % 10) ∷ (b'0' + n % 10) ∷ []

abbrev pub time_buffer : TimeOfDay → List ℕ
time_buffer tv = tv.seconds ++ millis (tv.tv_usec / 1000)

-- The `switch`: the stream and the name of the level.
unfoldable pub level_output : ℕ → Stream × List ℕ
level_output level =
    if level == log_level_verbose
    then (stdout, codes "VERBOSE")
    else if level == log_level_debug
    then (stdout, codes "DEBUG")
    else if level == log_level_info
    then (stdout, codes "INFO")
    else if level == log_level_warning
    then (stdout, codes "WARNING")
    else if level == log_level_error
    then (stderr, codes "ERROR")
    else if level == log_level_assert
    then (stderr, codes "ASSERT")
    else (stdout, codes "UNKNOWN")

unfoldable pub log_line : List ℕ → TimeOfDay → List ℕ → List ℕ
log_line level_str tv message =
    codes "["
    ++ (time_buffer tv
        ++ (codes "] [CM_MODBUS] [" ++ (level_str ++ (codes "]: " ++ (message ++ (newline ∷ []))))))

-- `log_message` with this `current_log_level`: the line that is printed, and where.
unfoldable pub log_message : ℕ → ℕ → TimeOfDay → List ℕ → Option (Stream × List ℕ)
log_message current level tv message =
    if ltb level current && ltb level log_level_error
    then none
    else some ((level_output level).0, log_line (level_output level).1 tv message)

-- The calls of the module: `set_log_level`, and `log_message` at a time.
pub data LogCall : Type 0 where
  set_log_level : ℕ → LogCall
  message : ℕ → TimeOfDay → List ℕ → LogCall

abbrev pub with_line : Option (Stream × List ℕ) → List (Stream × List ℕ) → List (Stream × List ℕ)
with_line none lines = lines
with_line (some l) lines = l ∷ lines

-- What a sequence of calls prints.
unfoldable pub log_run : ℕ → List LogCall → List (Stream × List ℕ)
log_run current [] = []
log_run current (set_log_level level ∷ calls) = log_run level calls
log_run current (message level tv text ∷ calls) =
    with_line (log_message current level tv text) (log_run current calls)
