-- ===== src/Inverter/AlarmManager.antt =====
-- src/inverter_alarm_manager.c: the log of alarm events in an SQLite table. The calls of sqlite3 and
-- of the clock are a parameter, on a state of type `W`. The lines for the console are left out.
pub mod Handles
pub mod Rows
pub mod Kept
pub mod Again
pub mod Latest
pub mod Monitored
use Prim.Native.Char.{code}
use loop_charger_inverter.Prelude.{
  ℕ, ◌+◌, ◌-◌, ◌/◌, ◌%◌, Bool, true, false, Option, none, some, List, [], ◌∷◌, ◌++◌, take, ltb, leb,
  if◌then◌else◌, String,
}
use loop_charger_inverter.Cmos.Text.{codes, space}
use loop_charger_inverter.Alarm.Engine.{AlarmEvent, trigger, clear, Entry, Emitted}

abbrev pub log_max_rows : ℕ
log_max_rows = 10000

-- `sizeof(detail)`.
abbrev pub detail_size : ℕ
detail_size = 128

abbrev pub log_node : List ℕ
log_node = codes "inverter_alarm_node"

-- A row of the table `logs`, without the id that SQLite gives it.
pub record LogRow : Type 0 where
  pub timestamp : List ℕ
  pub node : List ℕ
  pub event : List ℕ
  pub detail : List ℕ

-- The two statements of `write_log`.
pub data Statement : Type 0 where
  insert_row : LogRow → Statement
  update_oldest : LogRow → Statement

-- `ensure_log_dir`; `sqlite3_open` and the `sqlite3_exec` that creates the table, each with whether
-- it returned `SQLITE_OK`; `sqlite3_close`; the text that `strftime` makes of the time; the count of
-- the rows, if the query for it succeeds; and the run of a statement, from its preparation on.
pub record SqlCalls (W : Type 0) : Type 0 where
  pub ensure_log_dir : W → W
  pub open_log : W → W × Bool
  pub create_table : W → W × Bool
  pub close_log : W → W
  pub local_time : W → W × List ℕ
  pub count_rows : W → W × Option ℕ
  pub run_statement : W → Statement → W

-- `g_db != NULL` and `g_db_open_failed`.
pub record AlarmLog : Type 0 where
  pub db_open : Bool
  pub db_open_failed : Bool

-- A digit of `%X`.
abbrev pub hex_digit : ℕ → ℕ
hex_digit d = if ltb d 10 then b'0' + d else b'A' + (d - 10)

-- `%04X` of a 16-bit number.
unfoldable pub hex4 : ℕ → List ℕ
hex4 n =
    hex_digit (n / 4096 % 16)
    ∷ hex_digit (n / 256 % 16)
    ∷ hex_digit (n / 16 % 16)
    ∷ hex_digit (n % 16)
    ∷ []

-- The bytes of a text in UTF-8, as they stand in the source; code points above 0xFFFF do not occur.
abbrev pub utf8_of : ℕ → List ℕ
utf8_of c =
    if ltb c 0x80
    then c ∷ []
    else if ltb c 0x800
    then (0xC0 + c / 64) ∷ (0x80 + c % 64) ∷ []
    else (0xE0 + c / 4096) ∷ (0x80 + c / 64 % 64) ∷ (0x80 + c % 64) ∷ []

abbrev pub utf8 : String → List ℕ
utf8 String.[] = []
utf8 (String.◌∷◌ c s) = utf8_of (code c) ++ utf8 s

-- What both `snprintf` write: "err=0x%04X | value=0x%04X | %s".
abbrev pub alarm_text : Entry → ℕ → List ℕ
alarm_text entry value =
    codes "err=0x"
    ++ (hex4 entry.error_code
        ++ (codes " | value=0x" ++ (hex4 value ++ (codes " | " ++ utf8 entry.description))))

unfoldable pub detail_of : Emitted → List ℕ
unfolding hex4
detail_of e = elim e.event [
  | trigger ↦ take (detail_size - 1) (alarm_text e.entry e.value)
  | clear ↦ take (detail_size - 1) (codes "CLEARED " ++ alarm_text e.entry e.value)
]

abbrev pub event_name : AlarmEvent → List ℕ
event_name trigger = codes "ALARM_TRIGGER"
event_name clear = codes "ALARM_CLEAR"

module _ {W : Type 0} (calls : SqlCalls W) where
  unfoldable pub log_init : W → AlarmLog → W × AlarmLog
  log_init w log =
      let made = calls.ensure_log_dir w in
      let (opened, is_open) = calls.open_log made in
      let (created, has_table) = calls.create_table opened in
      let failed : AlarmLog = record { db_open = false; db_open_failed = true } in
      if log.db_open then (w, log) else if log.db_open_failed then (w, log) else elim is_open [
        | false ↦ (calls.close_log opened, failed)
        | true ↦ elim has_table [
          | false ↦ (calls.close_log created, failed)
          | true ↦ (created, record log { db_open = true })
        ]
      ]

  unfoldable pub write_log : W → AlarmLog → List ℕ → List ℕ → W
  write_log w log event detail =
      let (timed, ts) = calls.local_time w in
      let (counted, rows) = calls.count_rows timed in
      let count : ℕ = elim rows [ none ↦ 0 | some n ↦ n ] in
      let row : LogRow = record {
        timestamp = ts;
        node = log_node;
        event = event;
        detail = detail;
      } in
      let written =
        calls.run_statement counted
          (if ltb count log_max_rows then insert_row row else update_oldest row) in
      if log.db_open then written else w

  -- `inverter_alarm_manager_close`.
  unfoldable pub manager_close : W → AlarmLog → W × AlarmLog
  manager_close w log =
      if log.db_open then (calls.close_log w, record log { db_open = false }) else (w, log)

  -- `inverter_alarm_manager_handle_event`; its `userdata` only names the unit on the console.
  unfoldable pub handle_event : W → AlarmLog → Emitted → W × AlarmLog
  unfolding log_init write_log
  handle_event w log e =
      let (w', log') = log_init w log in
      (write_log w' log' (event_name e.event) (detail_of e), log')

  -- The events of the alarm engine, one after the other, as `forward_to_manager` passes them on.
  unfoldable pub handle_events : W → AlarmLog → List Emitted → W × AlarmLog
  handle_events w log [] = (w, log)
  handle_events w log (e ∷ events) =
      let (w', log') = handle_event w log e in handle_events w' log' events
