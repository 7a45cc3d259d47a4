-- ===== src/Inverter/Alarms/Silent.antt =====
-- The alarms of unit 1 against its register table.
use loop_charger_inverter.Prelude.{
  ℕ, zero, suc, ◌≡◌, ◌<◌, refl, false, Option, none, some, List, [], ◌∷◌, ◌++◌, arith, length, ◌==◌,
  inl, inr, All, if◌then◌else◌, Bool-cases, gt→leb,
}
use loop_charger_inverter.Prelude.Int.{pos}
use loop_charger_inverter.DeviceMap.{RegisterPool, pool_read_by_device_addr}
use loop_charger_inverter.DeviceMap.Find.{lookup_row, device_find_slot-lookup_row}
use loop_charger_inverter.Alarm.Engine.{
  Entry, State, EngineCtx, alarm_engine_run, run_entries, engine_loop, step_entry,
}
use loop_charger_inverter.Alarm.Bridge.{Bridge, max_ctxs, register_ctx}
use loop_charger_inverter.Inverter.Map.{
  inverter1_mapping_table, inverter1_profile, inverter_find_profile_by_uid,
}
use loop_charger_inverter.Inverter.Map.Laws.{inverter1_profile-IsWellFormed}
use loop_charger_inverter.Inverter.Alarms.{
  inverter_alarm_table, initial_states, AlarmRegistry, alarm_read_register, alarm_ctx, has_config,
  inverter_alarm_register_all,
}

unmapped :
    (pool : RegisterPool) (address : ℕ)
    → address < 0x2000
    → alarm_read_register inverter1_profile pool address ≡ none
unfolding alarm_read_register pool_read_by_device_addr
unmapped pool address low =
    rw
      (
        pool_read_by_device_addr,
        device_find_slot-lookup_row inverter1_profile inverter1_mapping_table address
            inverter1_profile-IsWellFormed,
        no_row address low,
      )
      refl
  where
    no_row : (a : ℕ) → a < 0x2000 → lookup_row inverter1_mapping_table a ≡ none
    no_row a h = ground arith

-- A table whose registers cannot be read changes no state and emits nothing.
engine_loop-unread :
    (read : ℕ → Option ℕ) (count : ℕ) (table : List Entry) (states : List State)
    → All (λ entry. read entry.device_address ≡ none) table
    → engine_loop read count table states ≡ (states, [])
unfolding engine_loop step_entry
engine_loop-unread read zero table states h = refl
engine_loop-unread read (suc count) [] states h = refl
engine_loop-unread read (suc count) (entry ∷ table) [] h = refl
engine_loop-unread read (suc count) (entry ∷ table) (state ∷ states) h =
    rw (h.0, engine_loop-unread read count table states h.1) refl

-- No register of the alarm table is in the register table of unit 1: whatever the pool holds and
-- whatever the states are, a pass over the alarms of the unit emits no event and changes nothing.
pub inverter1_alarms_silent :
    (entry : AlarmRegistry) (pool : RegisterPool)
    → alarm_engine_run (some (alarm_ctx entry inverter1_profile)) pool
      ≡ (some (alarm_ctx entry inverter1_profile), [])
unfolding alarm_engine_run run_entries
inverter1_alarms_silent entry pool = elim (Bool-cases (entry.count == 0)) [
  | inl e ↦ rw (run_entries, e) refl
  | inr e ↦
      rw
        (
          run_entries,
          e,
          engine_loop-unread (alarm_read_register inverter1_profile pool) entry.count
              inverter_alarm_table entry.states (unread pool),
        )
        refl
]
  where
    unread :
        (pool : RegisterPool)
        → All
            (λ entry. alarm_read_register inverter1_profile pool entry.device_address ≡ none)
            inverter_alarm_table
    unread pool = (
      low 0x0001 (omega arith),
      (
        low 0x0002 (omega arith),
        (
          low 0x0010 (omega arith),
          (
            low 0x0015 (omega arith),
            (low 0x0042 (omega arith), (low 0x0043 (omega arith), (low 0x0050 (omega arith), tt))),
          ),
        ),
      ),
    )
      where
        low : (a : ℕ) → a < 0x2000 → alarm_read_register inverter1_profile pool a ≡ none
        low a h = unmapped pool a h

register_ctx_room :
    (b : Bridge RegisterPool) (ctx : EngineCtx RegisterPool)
    → b.running ≡ false
    → length b.ctxs < max_ctxs
    → register_ctx b (some ctx) ≡ (record b { ctxs = b.ctxs ++ (ctx ∷ []) }, pos 0)
unfolding register_ctx
register_ctx_room b ctx idle room = rw (idle, gt→leb max_ctxs (length b.ctxs) room) refl

-- On a bridge with room that is not running, the registration adds one context, that of unit 1,
-- when the configuration has a unit with uid 1, and else changes nothing.
pub inverter_alarm_register_all_lem :
    (uids : List ℕ) (b : Bridge RegisterPool)
    → b.running ≡ false
    → length b.ctxs < max_ctxs
    → inverter_alarm_register_all uids b ≡ (
        if has_config uids 1
        then (
          record b {
            ctxs =
                b.ctxs
                ++ (alarm_ctx
                      (record { uid = 1; states = initial_states; count = 7 })
                      inverter1_profile
                    ∷ []);
          },
          1,
        )
        else (b, 0))
unfolding inverter_alarm_register_all inverter_find_profile_by_uid
inverter_alarm_register_all_lem uids b idle room =
    let ctx =
      alarm_ctx (record { uid = 1; states = initial_states; count = 7 }) inverter1_profile in
    elim (Bool-cases (has_config uids 1)) [
      | inl present ↦ rw (present, register_ctx_room b ctx idle room) refl
      | inr missing ↦ rw missing refl
    ]
