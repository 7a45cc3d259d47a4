-- ===== src/Inverter/Bridge.antt =====
-- The threads of src/inverter_cmos_bridge.c: the subscriptions and the handlers that they reach, and
-- what a turn of the publisher's loop sends. A thread of the bridge is one sequence of steps.
pub mod Dispatch
pub mod Registers
use loop_charger_inverter.Prelude.{
  ℕ, Bool, true, false, Option, none, some, List, [], ◌∷◌, ◌++◌, map, ◌==◌, if◌then◌else◌,
}
use loop_charger_inverter.Prelude.Int.{ℤ, pos}
use loop_charger_inverter.Cmos.Text.{codes}
use loop_charger_inverter.Cmos.Text.Decimal.{decimal}
use loop_charger_inverter.Cmos.Pub.{Publisher, PubCalls, cmos_publish, cmos_pub_poll}
use loop_charger_inverter.Cmos.Sub.{Call}
use loop_charger_inverter.Cmos.Conns.{SubCtx, SubCalls}
use loop_charger_inverter.Cmos.Spin.{cmos_sub_add}
use loop_charger_inverter.DeviceMap.{RegisterPool, pool_read_register}
use loop_charger_inverter.Inverter.Thread.{ConnectionState, disconnected, connected, unknown}
use loop_charger_inverter.Inverter.Handlers.{
  UnitQueue, on_main_pump_duty_cmd, on_operation_cmd, on_frequency_write_cmd, on_fault_control_cmd,
}

-- The handlers that the bridge subscribes with.
pub data Handler : Type 0 where
  operation_cmd frequency_write_cmd fault_control_cmd main_pump_duty_cmd : Handler

abbrev pub bridge_sub_hmi_topic : List ℕ
bridge_sub_hmi_topic = codes "control_output"

abbrev pub bridge_pub_topic : List ℕ
bridge_pub_topic = codes "inverter"

-- A subscription of `cmos_sub_thread`: type, key and handler; its state filter is NULL.
pub record Subscription : Type 0 where
  pub filter_type : List ℕ
  pub filter_key : List ℕ
  pub handler : Handler

abbrev pub subscriptions : List Subscription
subscriptions =
    record {
      filter_type = codes "command";
      filter_key = codes "inv_operation_commands";
      handler = operation_cmd;
    }
    ∷ record {
      filter_type = codes "command";
      filter_key = codes "inv_frequency_write_commands";
      handler = frequency_write_cmd;
    }
    ∷ record {
      filter_type = codes "command";
      filter_key = codes "inv_fault_Control_commands";
      handler = fault_control_cmd;
    }
    ∷ record {
      filter_type = codes "ctrl";
      filter_key = codes "main_pump";
      handler = main_pump_duty_cmd;
    }
    ∷ []

module _ {W : Type 0} (calls : SubCalls W) where
  -- The calls of `cmos_sub_add` in `cmos_sub_thread`, whose results are not looked at.
  unfoldable pub subscribe_all : W → SubCtx Handler → List Subscription → W × SubCtx Handler
  subscribe_all w ctx [] = (w, ctx)
  subscribe_all w ctx (sub ∷ subs) =
      let (w', ctx', _) =
        cmos_sub_add calls w ctx bridge_sub_hmi_topic none (some sub.filter_type)
          (some sub.filter_key) (some sub.handler) in
      subscribe_all w' ctx' subs

module _ (strtoul : List ℕ → ℕ) where
  unfoldable pub run_handler : Handler → List UnitQueue → List ℕ → List UnitQueue
  run_handler operation_cmd = on_operation_cmd strtoul
  run_handler frequency_write_cmd = on_frequency_write_cmd strtoul
  run_handler fault_control_cmd = on_fault_control_cmd strtoul
  run_handler main_pump_duty_cmd = on_main_pump_duty_cmd strtoul

  -- The calls that a subscriber makes, in order.
  unfoldable pub run_calls : List (Call Handler) → List UnitQueue → List UnitQueue
  run_calls [] units = units
  run_calls (call ∷ calls) units = run_calls calls (run_handler call.cb units call.payload)

-- The registers that a turn publishes: their keys and their addresses in the pool.
abbrev pub published_registers : List (List ℕ × ℕ)
published_registers =
    (codes "fault_warning_code", 0xBB00)
    ∷ (codes "inverter_operating_status", 0xBB01)
    ∷ (codes "frequency_read_command", 0xBB02)
    ∷ (codes "output_frequency", 0xBB03)
    ∷ (codes "output_current", 0xBB04)
    ∷ (codes "dc_bus_voltage", 0xBB05)
    ∷ (codes "motor_actual_speed", 0xBB0C)
    ∷ []

abbrev pub state_text : ConnectionState → List ℕ
state_text connected = codes "Alive"
state_text disconnected = codes "Disconnect"
state_text unknown = codes "Disconnect"

module _ {W : Type 0} (calls : PubCalls W) where
  -- `publish_pool_register`; `none` where `cmos_publish` has no defined behaviour.
  unfoldable pub publish_pool_register :
      W
      → Publisher
      → RegisterPool
      → ConnectionState
      → Option (List ℕ)
      → List ℕ
      → ℕ
      → Option (W × Publisher)
  publish_pool_register w p pool state type key pool_address =
      elim (pool_read_register pool pool_address) [
        | none ↦ some (w, p)
        | some val ↦
            cmos_publish calls w p (some (state_text state)) type (some key) (some (decimal val))
      ]

  unfoldable pub publish_registers :
      W → Publisher → RegisterPool → ConnectionState → List (List ℕ × ℕ) → Option (W × Publisher)
  publish_registers w p pool state [] = some (w, p)
  publish_registers w p pool state (r ∷ registers) =
      elim (publish_pool_register w p pool state none r.0 r.1) [
        | none ↦ none
        | some (w', p') ↦ publish_registers w' p' pool state registers
      ]

  -- The loop over the configured inverters, each with its connection state.
  unfoldable pub publish_units :
      W → Publisher → RegisterPool → List ConnectionState → Option (W × Publisher)
  publish_units w p pool [] = some (w, p)
  publish_units w p pool (state ∷ states) =
      elim (publish_registers w p pool state published_registers) [
        | none ↦ none
        | some (w', p') ↦ publish_units w' p' pool states
      ]

  -- One turn of `cmos_pub_poll_thread`.
  unfoldable pub pub_poll_turn :
      W → Publisher → RegisterPool → List ConnectionState → Option (W × Publisher)
  unfolding publish_units
  pub_poll_turn w p pool states =
      let (w', p') = cmos_pub_poll calls w p in publish_units w' p' pool states
