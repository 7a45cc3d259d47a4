-- ===== src/Inverter/Start.antt =====
-- The start and the stop of the modules of src/inverter_module.c, with those of the bridge of
-- src/inverter_cmos_bridge.c. The threads are parameters: what the publisher's thread makes of the
-- publisher until it is joined is what `join_publisher` returns.
pub mod Loop
pub mod Started
use loop_charger_inverter.Prelude.{
  ℕ, ◌-◌, ◌%◌, Bool, true, false, not, Option, none, some, List, [], ◌∷◌, ◌++◌, if◌then◌else◌,
}
use loop_charger_inverter.Prelude.Int.{ℤ, pos, negsuc, eq_pos}
use loop_charger_inverter.Cmos.Text.{codes}
use loop_charger_inverter.Cmos.Pub.{Publisher, PubCalls, cmos_pub_init, cmos_pub_close}
use loop_charger_inverter.Modbus.Transaction.{Ctx}
use loop_charger_inverter.DeviceMap.{Profile}
use loop_charger_inverter.Config.{UnitConfig}
use loop_charger_inverter.Inverter.Map.{inverter_find_profile_by_uid}
use loop_charger_inverter.Inverter.Queue.{queue_init}
use loop_charger_inverter.Inverter.Unit.{InverterUnit}
use loop_charger_inverter.Inverter.Bridge.{bridge_pub_topic}

-- The constants of the bridge's connections.
abbrev pub bridge_master_ip : List ℕ
bridge_master_ip = codes "127.0.0.1"

abbrev pub bridge_master_port : ℕ
bridge_master_port = 10000

abbrev pub bridge_pub_port : ℕ
bridge_pub_port = 13000

abbrev pub bridge_node_name : List ℕ
bridge_node_name = codes "inverter_node"

-- An entry of `inverter_units`.
pub record RunningUnit : Type 0 where
  pub cfg : UnitConfig
  pub unit : InverterUnit
  pub running : Bool

-- The publisher's variables and `g_bridge_running`.
pub record CmosBridge : Type 0 where
  pub publisher : Publisher
  pub bridge_running : Bool

-- `pthread_create`, `pthread_cancel` and `pthread_join` for the bridge's two threads and for the
-- thread of a unit.
pub record ThreadCalls (W : Type 0) : Type 0 where
  pub create_publisher : W → W × ℤ
  pub create_subscriber : W → W × ℤ
  pub create_unit : W → RunningUnit → W × ℤ
  pub cancel_subscriber : W → W
  pub join_subscriber : W → W
  pub join_publisher : W → Publisher → W × Publisher
  pub join_unit : W → RunningUnit → W

-- The cast to `uint8_t`.
abbrev pub to_uint8 : ℤ → ℕ
to_uint8 (pos n) = n % 256
to_uint8 (negsuc n) = 255 - n % 256

-- A context after `memset`, with its descriptor closed.
abbrev pub closed_ctx : Ctx
closed_ctx = record {
  fd = negsuc 0;
  cfg = record { serial_path = ""; baud_rate = 0; unit_id = 0; response_timeout_ms = 0 };
}

-- An entry as the loop fills it; the callbacks are the same for all.
abbrev pub new_unit : UnitConfig → Profile → RunningUnit
new_unit cfg profile = record {
  cfg = cfg;
  unit = record {
    profile = profile;
    rtu_ctx = closed_ctx;
    comm_fail_count = 0;
    cmd_queue = queue_init;
  };
  running = true;
}

module _ {W : Type 0} (threads : ThreadCalls W) where
  -- The loop of `start_inverter_modules`, with the units started so far and the status.
  unfoldable pub start_loop : W → List RunningUnit → ℤ → List UnitConfig → W × List RunningUnit × ℤ
  start_loop w units status [] = (w, units, status)
  start_loop w units status (cfg ∷ inverters) = elim cfg.enabled [
    | false ↦ start_loop w units status inverters
    | true ↦ elim (inverter_find_profile_by_uid (to_uint8 cfg.modbus_uid)) [
      | none ↦ start_loop w units (negsuc 0) inverters
      | some profile ↦
          let (w', created) = threads.create_unit w (new_unit cfg profile) in
          elim (eq_pos created 0) [
            | true ↦ start_loop w' (units ++ (new_unit cfg profile ∷ [])) status inverters
            | false ↦ start_loop w' units (negsuc 0) inverters
          ]
    ]
  ]

  -- The second loop of `stop_inverter_modules`; the first clears `running` of every unit.
  unfoldable pub join_units : W → List RunningUnit → W
  join_units w [] = w
  join_units w (u ∷ units) = join_units (threads.join_unit w (record u { running = false })) units

module _ {W : Type 0} (calls : PubCalls W) (threads : ThreadCalls W) where
  -- `inverter_cmos_bridge_start`.
  unfoldable pub inverter_cmos_bridge_start : W → CmosBridge → W × CmosBridge × ℤ
  inverter_cmos_bridge_start w b =
      let (w1, p, opened) =
        cmos_pub_init calls w b.publisher bridge_master_ip bridge_master_port bridge_node_name
          bridge_pub_topic bridge_pub_port in
      let (w2, polling) = threads.create_publisher w1 in
      let (w3, subscribing) = threads.create_subscriber w2 in
      let (joined, p') = threads.join_publisher w3 p in
      let (closed2, p2) = cmos_pub_close calls w2 p in
      let (closed3, p3) = cmos_pub_close calls joined p' in
      if not (eq_pos opened 0)
      then (w1, record b { publisher = p }, negsuc 0)
      else if not (eq_pos polling 0)
      then (closed2, record { publisher = p2; bridge_running = false }, negsuc 0)
      else if not (eq_pos subscribing 0)
      then (closed3, record { publisher = p3; bridge_running = false }, negsuc 0)
      else (w3, record { publisher = p; bridge_running = true }, pos 0)

  -- `inverter_cmos_bridge_stop`, for threads that were created.
  unfoldable pub inverter_cmos_bridge_stop : W → CmosBridge → W × CmosBridge
  inverter_cmos_bridge_stop w b =
      let w1 = threads.join_subscriber (threads.cancel_subscriber w) in
      let (w2, p) = threads.join_publisher w1 b.publisher in
      let (w3, closed) = cmos_pub_close calls w2 p in
      (w3, record { publisher = closed; bridge_running = false })

  -- `start_inverter_modules`.
  unfoldable pub start_inverter_modules :
      W → CmosBridge → List UnitConfig → W × CmosBridge × List RunningUnit × ℤ
  unfolding start_loop inverter_cmos_bridge_start
  start_inverter_modules w b inverters =
      let (w1, units, status) = start_loop threads w [] (pos 0) inverters in
      let (w2, b', code) = inverter_cmos_bridge_start w1 b in
      (w2, b', units, if eq_pos code 0 then status else negsuc 0)

  -- `stop_inverter_modules`, which returns 0.
  unfoldable pub stop_inverter_modules :
      W → CmosBridge → List RunningUnit → W × CmosBridge × List RunningUnit
  unfolding inverter_cmos_bridge_stop join_units
  stop_inverter_modules w b units =
      let (w1, b') = inverter_cmos_bridge_stop w b in (join_units threads w1 units, b', [])
