-- ===== src/Inverter/AlarmManager/Handles.antt =====
-- The database handle of the alarm manager over events and closings.
use loop_charger_inverter.Prelude.{
  ℕ, ◌+◌, ◌≡◌, sym, ◌∙◌, subst, false, ◌&&◌, List, [], ◌∷◌, arith, if◌then◌else◌, Bool-cases, inl,
  inr,
}
use loop_charger_inverter.Alarm.Engine.{Emitted}
use loop_charger_inverter.Inverter.AlarmManager.{
  SqlCalls, Statement, AlarmLog, log_init, write_log, manager_close, handle_event, event_name,
  detail_of,
}

-- What happens to the manager: an event is handled, or it is closed.
pub data LogStep : Type 0 where
  event : Emitted → LogStep
  close : LogStep

-- How many handles of SQLite were made, and how many were closed.
pub record Handles : Type 0 where
  pub made : ℕ
  pub closed : ℕ

-- `sqlite3_open` makes a handle also where it fails; `sqlite3_close` closes one; the other calls do
-- neither.
pub record IsCounting {W : Type 0} (calls : SqlCalls W) (handles : W → Handles) : Type 0 where
  pub dir_keeps : (w : W) → handles (calls.ensure_log_dir w) ≡ handles w
  pub open_adds :
      (w : W) → handles (calls.open_log w).0 ≡ record (handles w) { made = (handles w).made + 1 }
  pub create_keeps : (w : W) → handles (calls.create_table w).0 ≡ handles w
  pub close_ends :
      (w : W) → handles (calls.close_log w) ≡ record (handles w) { closed = (handles w).closed + 1 }
  pub time_keeps : (w : W) → handles (calls.local_time w).0 ≡ handles w
  pub count_keeps : (w : W) → handles (calls.count_rows w).0 ≡ handles w
  pub statement_keeps : (w : W) (s : Statement) → handles (calls.run_statement w s) ≡ handles w

module _ {W : Type 0} (calls : SqlCalls W) where
  unfoldable pub manager_run : W → AlarmLog → List LogStep → W × AlarmLog
  manager_run w log [] = (w, log)
  manager_run w log (event e ∷ steps) =
      let (w', log') = handle_event calls w log e in manager_run w' log' steps
  manager_run w log (close ∷ steps) =
      let (w', log') = manager_close calls w log in manager_run w' log' steps

module _ {W : Type 0} (calls : SqlCalls W) (handles : W → Handles)
    (counting : IsCounting calls handles) where
  -- Exactly the handle in `g_db` is open, and it is not set while `g_db_open_failed` is.
  abbrev pub IsHeld : W × AlarmLog → Type 0
  IsHeld s =
      ((handles s.0).made ≡ (handles s.0).closed + (if s.1.db_open then 1 else 0))
      × ((s.1.db_open && s.1.db_open_failed) ≡ false)

  log_init-IsHeld : (w : W) (log : AlarmLog) → IsHeld (w, log) → IsHeld (log_init calls w log)
  unfolding log_init
  log_init-IsHeld w log h =
      let made = calls.ensure_log_dir w in
      let opened = (calls.open_log made).0 in
      let created = (calls.create_table opened).0 in
      ground (
        arith,
        counting.dir_keeps w,
        counting.open_adds made,
        counting.create_keeps opened,
        counting.close_ends opened,
        counting.close_ends created,
      )

  handles-write_log :
      (w : W) (log : AlarmLog) (name detail : List ℕ)
      → handles (write_log calls w log name detail) ≡ handles w
  unfolding write_log
  handles-write_log w log name detail =
      let timed = (calls.local_time w).0 in
      elim (Bool-cases log.db_open) [
        | inr shut ↦ simp (write_log, shut)
        | inl is_open ↦
            simp (write_log, is_open)
              (counting.statement_keeps _ _ ∙ counting.count_keeps timed ∙ counting.time_keeps w)
      ]

  handle_event-IsHeld :
      (w : W) (log : AlarmLog) (e : Emitted) → IsHeld (w, log) → IsHeld (handle_event calls w log e)
  unfolding handle_event
  handle_event-IsHeld w log e h =
      let (w', log') = log_init calls w log in
      let (one, shut) = log_init-IsHeld w log h in
      (
        subst (λ c. c.made ≡ c.closed + (if log'.db_open then 1 else 0))
            (sym (handles-write_log w' log' (event_name e.event) (detail_of e))) one,
        shut,
      )

  manager_close-IsHeld :
      (w : W) (log : AlarmLog) → IsHeld (w, log) → IsHeld (manager_close calls w log)
  unfolding manager_close
  manager_close-IsHeld w log h = ground (arith, counting.close_ends w)

  -- While events are handled and the manager is closed in any order, and however SQLite answers: the
  -- handles that were made are as many as those closed, and one more while `g_db` is set; and `g_db`
  -- is not set while the log is marked as one that could not be opened.
  pub manager_run-IsHeld :
      (steps : List LogStep) (w : W) (log : AlarmLog)
      → IsHeld (w, log)
      → IsHeld (manager_run calls w log steps)
  unfolding manager_run
  manager_run-IsHeld [] w log h = h
  manager_run-IsHeld (event e ∷ steps) w log h =
      manager_run-IsHeld steps (handle_event calls w log e).0 (handle_event calls w log e).1
        (handle_event-IsHeld w log e h)
  manager_run-IsHeld (close ∷ steps) w log h =
      manager_run-IsHeld steps (manager_close calls w log).0 (manager_close calls w log).1
        (manager_close-IsHeld w log h)
