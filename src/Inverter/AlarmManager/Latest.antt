-- ===== src/Inverter/AlarmManager/Latest.antt =====
-- The events that the table of the alarm log holds.
use loop_charger_inverter.Prelude.{
  ℕ, ◌≤◌, ◌<◌, ◌≡◌, refl, sym, ap, ◌∙◌, true, some, List, [], ◌∷◌, ◌++◌, All, arith, length, ltb,
  if◌then◌else◌, Bool-cases, inl, inr,
}
use loop_charger_inverter.Alarm.Engine.{Emitted}
use loop_charger_inverter.Inverter.AlarmManager.{
  log_max_rows, log_node, LogRow, insert_row, update_oldest, SqlCalls, AlarmLog, detail_of,
  event_name, log_init, write_log, handle_event, handle_events,
}
use loop_charger_inverter.Inverter.AlarmManager.Rows.{rank, oldest_replaced, store_row, store_rows}
use loop_charger_inverter.Inverter.AlarmManager.Kept.{
  Forward, KeepsLatest, length-store_rows, store_rows-KeepsLatest,
}
use loop_charger_inverter.Inverter.AlarmManager.Again.{store_row-again}

-- What the manager relies on of SQLite, for a table with these rows: reading the time and the count
-- changes no row; the count is that of the rows; INSERT adds a row with the next id; and UPDATE puts
-- the new values in the oldest row.
pub record IsTable {W : Type 0} (calls : SqlCalls W) (rows : W → List LogRow) : Type 0 where
  pub time_keeps : (w : W) → rows (calls.local_time w).0 ≡ rows w
  pub count_keeps : (w : W) → rows (calls.count_rows w).0 ≡ rows w
  pub counted : (w : W) → (calls.count_rows w).1 ≡ some (length (rows w))
  pub inserted :
      (w : W) (r : LogRow) → rows (calls.run_statement w (insert_row r)) ≡ rows w ++ (r ∷ [])
  pub updated :
      (w : W) (r : LogRow)
      → rows (calls.run_statement w (update_oldest r)) ≡ oldest_replaced (rows w) r

module _ {W : Type 0} (calls : SqlCalls W) where
  -- The row of an event that is handled in the state `w`.
  abbrev pub row_of : W → Emitted → LogRow
  row_of w e = record {
    timestamp = (calls.local_time w).1;
    node = log_node;
    event = event_name e.event;
    detail = detail_of e;
  }

  -- The rows of events that are handled one after the other.
  abbrev pub rows_of : W → AlarmLog → List Emitted → List LogRow
  rows_of w log [] = []
  rows_of w log (e ∷ events) = row_of w e ∷ rows_of (handle_event calls w log e).0 log events

module _ {W : Type 0} (calls : SqlCalls W) (rows : W → List LogRow) (table : IsTable calls rows)
    (log : AlarmLog) (is_open : log.db_open ≡ true) where
  handle_event-open :
      (w : W) (e : Emitted)
      → handle_event calls w log e ≡ (write_log calls w log (event_name e.event) (detail_of e), log)
  unfolding handle_event log_init
  handle_event-open w e = simp (handle_event, log_init, is_open)

  rows-statement :
      (w : W) (r : LogRow) (n : ℕ)
      → n ≡ length (rows w)
      → rows (calls.run_statement w (if ltb n log_max_rows then insert_row r else update_oldest r))
        ≡ store_row log_max_rows (rows w) r
  unfolding store_row
  rows-statement w r n e = elim (Bool-cases (ltb (length (rows w)) log_max_rows)) [
    | inl small ↦ rw (e, small) (table.inserted w r)
    | inr full ↦ rw (e, full) (table.updated w r)
  ]

  rows-write_log :
      (w : W) (e : Emitted)
      → rows (write_log calls w log (event_name e.event) (detail_of e))
        ≡ store_row log_max_rows (rows w) (row_of calls w e)
  unfolding write_log
  rows-write_log w e =
      let timed = (calls.local_time w).0 in
      let counted = (calls.count_rows timed).0 in
      let same : rows counted ≡ rows w = table.count_keeps timed ∙ table.time_keeps w in
      simp (write_log, is_open, table.counted timed)
        (rows-statement counted (row_of calls w e) (length (rows timed))
            (ap length (sym (table.count_keeps timed)))
          ∙ ap (λ l. store_row log_max_rows l (row_of calls w e)) same)

  -- The table after some events, as what the stores of their rows make of it.
  rows-handle_events :
      (w : W) (events : List Emitted)
      → (rows (handle_events calls w log events).0
          ≡ store_rows log_max_rows (rows w) (rows_of calls w log events))
        × ((handle_events calls w log events).1 ≡ log)
  unfolding handle_events store_rows
  rows-handle_events w [] = (refl, refl)
  rows-handle_events w (e ∷ events) =
      let w' = write_log calls w log (event_name e.event) (detail_of e) in
      let (stored, same) = rows-handle_events w' events in
      rw (handle_events, handle_event-open w e)
        (
          stored
              ∙ ap (λ l. store_rows log_max_rows l (rows_of calls w' log events))
                  (rows-write_log w e),
          same,
        )

  -- With an open database whose table has at most 10000 rows, as long as the clock never shows a time
  -- before that of a row in the table: after any events the table has at most 10000 rows. Together
  -- with rows that were dropped these are, in some order, the rows that were there and one for each
  -- event, with its name and its text; no dropped row is later than a row that was kept, and none
  -- was dropped unless the table is full.
  pub handle_events-KeepsLatest :
      (w : W) (events : List Emitted)
      → length (rows w) ≤ log_max_rows
      → Forward log_max_rows (rows w) (rows_of calls w log events)
      → (length (rows (handle_events calls w log events).0) ≤ log_max_rows)
        × KeepsLatest log_max_rows
            (rows w ++ rows_of calls w log events)
            (rows (handle_events calls w log events).0)
  handle_events-KeepsLatest w events h forward = rw ((rows-handle_events w events).0) (
    (length-store_rows log_max_rows (omega arith) (rows_of calls w log events) (rows w) h).1,
    store_rows-KeepsLatest log_max_rows (omega arith) (rows_of calls w log events) (rows w) h
        forward,
  )

  -- With an open database and a full table: an event at a time before that of every row in the table
  -- leaves no trace once the next event has come, which is the only one of both that the table keeps.
  pub handle_events_backward :
      (w : W) (e next : Emitted)
      → log_max_rows ≤ length (rows w)
      → All (λ x. rank (row_of calls w e) < rank x) (rows w)
      → rows (handle_events calls w log (e ∷ next ∷ [])).0
        ≡ store_row log_max_rows (rows w) (row_of calls (handle_event calls w log e).0 next)
  unfolding handle_events
  handle_events_backward w e next full before = rw (handle_event-open w e) (
      rw (handle_event-open (write_log calls w log (event_name e.event) (detail_of e)) next) (
        rows-write_log (write_log calls w log (event_name e.event) (detail_of e)) next
        ∙ ap
            (λ l.
              store_row log_max_rows l
                (row_of calls (write_log calls w log (event_name e.event) (detail_of e)) next))
            (rows-write_log w e)
        ∙ store_row-again log_max_rows (rows w) (row_of calls w e) _ full before))
