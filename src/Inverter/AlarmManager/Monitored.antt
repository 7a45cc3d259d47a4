-- ===== src/Inverter/AlarmManager/Monitored.antt =====
-- The monitor thread of lib/alarm/alarm_bridge.c with the alarm manager behind it: the callback of
-- src/inverter_alarm.c passes the events of each pass on to the manager.
use loop_charger_inverter.Prelude.{
  ℕ, ◌≤◌, ◌≡◌, refl, sym, ap, ◌∙◌, subst, true, List, [], ◌∷◌, ◌++◌, length,
}
use loop_charger_inverter.Alarm.Engine.{Emitted}
use loop_charger_inverter.Alarm.Bridge.{Bridge, Monitor, monitor_pass, monitor_run}
use loop_charger_inverter.Inverter.AlarmManager.{
  log_max_rows, LogRow, SqlCalls, AlarmLog, handle_event, handle_events,
}
use loop_charger_inverter.Inverter.AlarmManager.Kept.{Forward, KeepsLatest}
use loop_charger_inverter.Inverter.AlarmManager.Latest.{IsTable, rows_of, handle_events-KeepsLatest}

handle_events-append :
    {W : Type 0} (calls : SqlCalls W) (xs ys : List Emitted) (w : W) (log : AlarmLog)
    → handle_events calls w log (xs ++ ys)
      ≡ handle_events calls (handle_events calls w log xs).0 (handle_events calls w log xs).1 ys
unfolding handle_events
handle_events-append calls [] ys w log = refl
handle_events-append calls (x ∷ xs) ys w log =
    handle_events-append calls xs ys (handle_event calls w log x).0 (handle_event calls w log x).1

module _ {W R : Type 0} (calls : SqlCalls W) where
  -- The passes at the times of a list, each with what the registers are then. An event is handled
  -- before the next one is evaluated, which neither of them sees.
  unfoldable pub monitor_logged :
      List (ℕ × R) → Monitor → Bridge R → W → AlarmLog → Monitor × Bridge R × W × AlarmLog
  monitor_logged [] m b w log = (m, b, w, log)
  monitor_logged (pass ∷ passes) m b w log =
      let (m', b', events) = monitor_pass pass.1 pass.0 m b in
      let (w', log') = handle_events calls w log events in monitor_logged passes m' b' w' log'

  monitor_logged-monitor_run :
      (passes : List (ℕ × R)) (m : Monitor) (b : Bridge R) (w : W) (log : AlarmLog)
      → monitor_logged passes m b w log ≡ (
        (monitor_run passes m b).0,
        (monitor_run passes m b).1,
        (handle_events calls w log (monitor_run passes m b).2).0,
        (handle_events calls w log (monitor_run passes m b).2).1,
      )
  unfolding monitor_logged monitor_run handle_events
  monitor_logged-monitor_run [] m b w log = refl
  monitor_logged-monitor_run (pass ∷ passes) m b w log =
      let (m', b', events) = monitor_pass pass.1 pass.0 m b in
      let (w', log') = handle_events calls w log events in
      let later = (monitor_run passes m' b').2 in
      monitor_logged-monitor_run passes m' b' w' log'
      ∙ ap
          (λ (x : W × AlarmLog).
            ((monitor_run passes m' b').0, (monitor_run passes m' b').1, x.0, x.1))
          (sym (handle_events-append calls events later w log))

-- With an open database whose table has at most 10000 rows, as long as the clock never shows a time
-- before that of a row in the table: the passes of the monitor leave the same contexts as without the
-- manager, and a table of at most 10000 rows. Together with rows that were dropped these are, in some
-- order, the rows that were there and one for each event that the passes emit, with its name and its
-- text; no dropped row is later than a row that was kept, and none was dropped unless the table is
-- full.
pub monitor_logged-KeepsLatest :
    {W R : Type 0} (calls : SqlCalls W) (rows : W → List LogRow) (passes : List (ℕ × R))
    (m : Monitor) (b : Bridge R) (w : W) (log : AlarmLog)
    → IsTable calls rows
    → log.db_open ≡ true
    → length (rows w) ≤ log_max_rows
    → Forward log_max_rows (rows w) (rows_of calls w log (monitor_run passes m b).2)
    → let (m', b', w', log') = monitor_logged calls passes m b w log in
      (m' ≡ (monitor_run passes m b).0)
      × (b' ≡ (monitor_run passes m b).1)
      × (length (rows w') ≤ log_max_rows)
      × KeepsLatest log_max_rows
          (rows w ++ rows_of calls w log (monitor_run passes m b).2)
          (rows w')
monitor_logged-KeepsLatest {W} {R} calls rows passes m b w log table is_open small forward =
    let e = monitor_logged-monitor_run calls passes m b w log in
    let (few, keeps) =
      handle_events-KeepsLatest calls rows table log is_open w (monitor_run passes m b).2 small
        forward in
    (
      ap (λ r. r.0) e,
      ap (λ r. r.1) e,
      subst (λ r. length (rows r) ≤ log_max_rows) (sym (ap (λ r. r.2) e)) few,
      subst (KeepsLatest log_max_rows (rows w ++ rows_of calls w log (monitor_run passes m b).2))
          (sym (ap (λ r. rows r.2) e)) keeps,
    )
