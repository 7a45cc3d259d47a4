-- ===== src/Tests/Alarms.antt =====
-- Examples for the alarms.
use loop_charger_inverter.Prelude.{ℕ, List}
use loop_charger_inverter.Prelude.{◌≡◌, inr, refl, false, some, none, [], ◌∷◌}
use loop_charger_inverter.DeviceMap.{RegisterPool}
use loop_charger_inverter.Alarm.Engine.{
  range, trigger, clear, Entry, EngineCtx, alarm_engine_run, eval_range,
}
use loop_charger_inverter.Alarm.Engine.Sticky.{run_entry, run_entry-edges}
use loop_charger_inverter.Prelude.{if◌then◌else◌, ◌==◌, Option}
use loop_charger_inverter.Alarm.Engine.{change}
use loop_charger_inverter.Alarm.Engine.Changes.{run_entry-changes}
use loop_charger_inverter.Alarm.Bridge.{Bridge}
use loop_charger_inverter.Inverter.Map.{inverter1_profile}
use loop_charger_inverter.Inverter.Alarms.{alarm, initial_states, alarm_ctx}
use loop_charger_inverter.Inverter.Alarms.Silent.{inverter1_alarms_silent}

abbrev hot : Entry
hot = alarm 0x50 range 0 800 0x30 "hot"

-- The value rises over 800, stays, is not available once, and falls.
run_entry-edges_example :
    run_entry hot
      (record { is_active = false; prev_value = 0 })
      (some 700 ∷ some 801 ∷ some 900 ∷ none ∷ some 800 ∷ [])
    ≡ (
      record { is_active = false; prev_value = 0 },
      record { entry = hot; value = 801; event = trigger }
          ∷ record { entry = hot; value = 800; event = clear }
          ∷ [],
    )
unfolding eval_range
run_entry-edges_example =
    run_entry-edges hot (record { is_active = false; prev_value = 0 })
      (some 700 ∷ some 801 ∷ some 900 ∷ none ∷ some 800 ∷ []) (inr refl)

abbrev fault : Entry
fault = alarm 0x01 change 0 0 0x01 "fault"

run_entry-changes_example :
    run_entry fault
      (record { is_active = false; prev_value = 0 })
      (some 3 ∷ none ∷ some 3 ∷ some 0 ∷ [])
    ≡ (
      record { is_active = false; prev_value = 0 },
      record { entry = fault; value = 3; event = trigger }
          ∷ record { entry = fault; value = 0; event = trigger }
          ∷ [],
    )
run_entry-changes_example =
    run_entry-changes fault (record { is_active = false; prev_value = 0 })
      (some 3 ∷ none ∷ some 3 ∷ some 0 ∷ []) refl

-- Register 0x50 rises; the other is not available.
abbrev rising : List (ℕ → Option ℕ)
rising =
    (λ a. if a == 0x50 then some 700 else none) ∷ (λ a. if a == 0x50 then some 900 else none) ∷ []

abbrev ctx1 : EngineCtx RegisterPool
ctx1 = alarm_ctx (record { uid = 1; states = initial_states; count = 7 }) inverter1_profile

abbrev idle : Bridge RegisterPool
idle = record { ctxs = []; running = false; last_beat_ms = 0 }

inverter1_alarms_silent_example : alarm_engine_run (some ctx1) (λ p. 0xFFFF) ≡ (some ctx1, [])
inverter1_alarms_silent_example =
    inverter1_alarms_silent (record { uid = 1; states = initial_states; count = 7 }) (λ p. 0xFFFF)
