-- ===== src/Tests/AlarmLog.antt =====
-- Examples for the alarm log.
use loop_charger_inverter.Prelude.{
  ℕ, zero, suc, ◌+◌, ◌≤◌, ◌<◌, ◌≡◌, refl, true, false, some, List, [], ◌∷◌, ◌++◌, All, arith,
  length,
}
use loop_charger_inverter.Cmos.Text.{codes}
use loop_charger_inverter.Alarm.Engine.{bitmask, trigger, clear, Emitted}
use loop_charger_inverter.Inverter.Alarms.{alarm}
use loop_charger_inverter.Inverter.AlarmManager.{
  log_max_rows, log_node, LogRow, insert_row, update_oldest, SqlCalls, AlarmLog, handle_event,
  handle_events, detail_of, log_init, manager_close,
}
use loop_charger_inverter.Inverter.AlarmManager.Rows.{rank, oldest_replaced, store_row}
use loop_charger_inverter.Inverter.AlarmManager.Kept.{KeepsLatest}
use loop_charger_inverter.Alarm.Bridge.{
  Bridge, Monitor, monitor_run, monitor_pass, evaluate, run_ctxs,
}
use loop_charger_inverter.Alarm.Engine.{
  alarm_engine_run, engine_loop, step_entry, eval_entry, apply_sticky, eval_bitmask,
}
use loop_charger_inverter.Inverter.AlarmManager.Monitored.{
  monitor_logged, monitor_logged-KeepsLatest,
}
use loop_charger_inverter.Prelude.{sym, subst}
use loop_charger_inverter.Inverter.AlarmManager.Kept.{Forward}
use loop_charger_inverter.Inverter.AlarmManager.Latest.{
  IsTable, row_of, rows_of, handle_events_backward,
}
use loop_charger_inverter.Inverter.AlarmManager.Handles.{
  event, close, Handles, IsCounting, manager_run, IsHeld, manager_run-IsHeld,
}

abbrev noon : List ℕ
noon = codes "2026-01-01 12:00:00"

abbrev evening : List ℕ
evening = codes "2026-01-01 20:00:00"

-- A table as its rows, with a clock that shows noon.
abbrev table_calls : SqlCalls (List LogRow)
table_calls = record {
  ensure_log_dir = λ w. w;
  open_log = λ w. (w, true);
  create_table = λ w. (w, true);
  close_log = λ w. w;
  local_time = λ w. (w, noon);
  count_rows = λ w. (w, some (length w));
  run_statement =
      λ w s. elim s [ insert_row r ↦ w ++ (r ∷ []) | update_oldest r ↦ oldest_replaced w r ];
}

table_calls-IsTable : IsTable table_calls (λ w. w)
table_calls-IsTable = record {
  time_keeps = λ w. refl;
  count_keeps = λ w. refl;
  counted = λ w. refl;
  inserted = λ w r. refl;
  updated = λ w r. refl;
}

abbrev open_log : AlarmLog
open_log = record { db_open = true; db_open_failed = false }

abbrev raised : Emitted
raised = record { entry = alarm 0x20 bitmask 0 1 0x11 "過溫"; value = 3; event = trigger }

abbrev ended : Emitted
ended = record { entry = alarm 0x20 bitmask 0 1 0x11 "過溫"; value = 2; event = clear }

detail_of-raised : length (detail_of raised) ≡ 34
unfolding detail_of
detail_of-raised = refl

-- The registers are one value; the alarm has bit 0.
abbrev monitored : Bridge ℕ
monitored = record {
  ctxs =
      record {
        table = some (raised.entry ∷ []);
        states = some (record { is_active = false; prev_value = 0 } ∷ []);
        count = 1;
        read_fn = some (λ r a. some r);
        has_event_fn = true;
      }
      ∷ [];
  running = true;
  last_beat_ms = 0;
}

abbrev warm : Monitor
warm = record { start_ms = 0; warming = false }

-- The value is 3, then 2 and 2 again.
abbrev passes : List (ℕ × ℕ)
passes = (6000, 3) ∷ (6100, 2) ∷ (6200, 2) ∷ []

two_events : (monitor_run passes warm monitored).2 ≡ raised ∷ ended ∷ []
unfolding monitor_run monitor_pass evaluate run_ctxs alarm_engine_run engine_loop step_entry
    eval_entry apply_sticky eval_bitmask
two_events = refl

in_order : Forward 10000 [] (rows_of table_calls [] open_log (raised ∷ ended ∷ []))
unfolding handle_event handle_events store_row rank
in_order = (tt, ((omega arith, tt), tt))

monitor_logged-KeepsLatest_example :
    let (m', b', w', log') = monitor_logged table_calls passes warm monitored [] open_log in
    (m' ≡ (monitor_run passes warm monitored).0)
    × (b' ≡ (monitor_run passes warm monitored).1)
    × (length w' ≤ 10000)
    × KeepsLatest 10000 (rows_of table_calls [] open_log (monitor_run passes warm monitored).2) w'
monitor_logged-KeepsLatest_example =
    monitor_logged-KeepsLatest table_calls (λ w. w) passes warm monitored [] open_log
      table_calls-IsTable refl (omega arith)
      (subst (λ events. Forward 10000 [] (rows_of table_calls [] open_log events)) (sym two_events)
        in_order)

abbrev later_row : LogRow
later_row = record { timestamp = evening; node = log_node; event = []; detail = [] }

-- Opaque, as it is run on 10000 rows.
unfoldable rows_in_evening : ℕ → List LogRow
rows_in_evening zero = []
rows_in_evening (suc n) = later_row ∷ rows_in_evening n

length-rows_in_evening : (n : ℕ) → length (rows_in_evening n) ≡ n
unfolding rows_in_evening
length-rows_in_evening zero = refl
length-rows_in_evening (suc n) = omega (arith, length-rows_in_evening n)

all_later : (k n : ℕ) → k < rank later_row → All (λ x. k < rank x) (rows_in_evening n)
unfolding rows_in_evening
all_later k zero h = tt
all_later k (suc n) h = (h, all_later k n h)

noon_before :
    rank (record {
      timestamp = noon;
      node = log_node;
      event = codes "ALARM_TRIGGER";
      detail = detail_of raised;
    })
    < rank later_row
unfolding rank
noon_before = omega arith

-- The clock is set back to noon with 10000 rows of the evening.
handle_events_backward_example :
    (handle_events table_calls (rows_in_evening 10000) open_log (raised ∷ ended ∷ [])).0
    ≡ store_row log_max_rows (rows_in_evening 10000) (row_of table_calls [] ended)
handle_events_backward_example =
    handle_events_backward table_calls (λ w. w) table_calls-IsTable open_log refl
      (rows_in_evening 10000) raised ended (omega (arith, length-rows_in_evening 10000))
      (all_later _ 10000 noon_before)

-- The handles are counted.
abbrev counting_calls : SqlCalls Handles
counting_calls = record {
  ensure_log_dir = λ w. w;
  open_log = λ w. (record w { made = w.made + 1 }, true);
  create_table = λ w. (w, true);
  close_log = λ w. record w { closed = w.closed + 1 };
  local_time = λ w. (w, noon);
  count_rows = λ w. (w, some 3);
  run_statement = λ w s. w;
}

counting_calls-IsCounting : IsCounting counting_calls (λ w. w)
counting_calls-IsCounting = record {
  dir_keeps = λ w. refl;
  open_adds = λ w. refl;
  create_keeps = λ w. refl;
  close_ends = λ w. refl;
  time_keeps = λ w. refl;
  count_keeps = λ w. refl;
  statement_keeps = λ w s. refl;
}

-- An event after the closing opens the database again.
manager_run-IsHeld_example :
    IsHeld counting_calls
      (λ w. w)
      counting_calls-IsCounting
      (record { made = 2; closed = 1 }, record { db_open = true; db_open_failed = false })
unfolding manager_run handle_event log_init manager_close
manager_run-IsHeld_example =
    manager_run-IsHeld counting_calls (λ w. w) counting_calls-IsCounting
      (event raised ∷ event ended ∷ close ∷ event raised ∷ []) (record { made = 0; closed = 0 })
      (record { db_open = false; db_open_failed = false }) (omega arith, refl)
