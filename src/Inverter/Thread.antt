-- ===== src/Inverter/Thread.antt =====
-- The poll thread of src/inverter_module.c and its init and error callbacks. One step is one test of
-- `unit->running`, whose value is an input, with what the code then does up to the next test. The
-- unit of the configuration is there, as it is for every thread that is started.
pub mod Connection
use loop_charger_inverter.Prelude.{
  ℕ, ◌%◌, ◌^◌, Bool, true, false, not, Option, none, some, List, [], ◌∷◌, ◌==◌, if◌then◌else◌,
  String,
}
use loop_charger_inverter.Prelude.Int.{ℤ, pos, negsuc, eq_pos}
use loop_charger_inverter.Modbus.Transaction.{Config, Ctx, Exchange}
use loop_charger_inverter.Modbus.Client.{probe_device}
use loop_charger_inverter.Modbus.Port.{SerialCalls, connect, disconnect}
use loop_charger_inverter.DeviceMap.{Mapping, RegisterPool}
use loop_charger_inverter.Inverter.Unit.{InverterUnit, address_at, process_callback}

-- `connection_state_t`.
pub data ConnectionState : Type 0 where
  disconnected connected unknown : ConnectionState

-- The fields of `module_config_t` that the thread uses.
pub record ModuleConfig : Type 0 where
  pub path : String
  pub baud_rate : ℕ
  pub modbus_uid : ℕ
  pub connection_state : ConnectionState

-- Where the thread is: before the test of the outer loop, before that of the inner one, or past both.
pub data Phase : Type 0 where
  starting polling stopped : Phase

pub record Thread (W : Type 0) : Type 0 where
  pub line : W
  pub pool : RegisterPool
  pub cfg : ModuleConfig
  pub unit : InverterUnit
  pub phase : Phase

abbrev pub rtu_cfg : ModuleConfig → Config
rtu_cfg cfg = record {
  serial_path = cfg.path;
  baud_rate = cfg.baud_rate % 2 ^ 32;
  unit_id = cfg.modbus_uid % 256;
  response_timeout_ms = 1000;
}

module _ {W : Type 0} (calls : SerialCalls W) where
  -- `mb_rtu_client_disconnect(&unit->rtu_ctx)`.
  unfoldable pub drop_line : W → InverterUnit → W × InverterUnit
  drop_line w unit =
      let (w', ctx) = disconnect calls w (some unit.rtu_ctx) in
      (w', record unit { rtu_ctx = elim ctx [ none ↦ unit.rtu_ctx | some c ↦ c ] })

module _ {W : Type 0} (calls : SerialCalls W) (bus : W → ℕ → List ℕ → W × Exchange) where
  -- The probe of the first register of the table, and what the callback does after it.
  unfoldable pub probe_unit : W → ModuleConfig → InverterUnit → W × ModuleConfig × InverterUnit × ℤ
  probe_unit w cfg unit =
      let table : List Mapping = elim unit.profile.table [ none ↦ [] | some rows ↦ rows ] in
      let (probed, code) = probe_device bus w (some unit.rtu_ctx) (address_at table 0) 1 in
      let (w', lost) = drop_line calls probed unit in
      let ready : InverterUnit = record unit { comm_fail_count = 0 } in
      let cfg' : ModuleConfig = record cfg { connection_state = connected } in
      if unit.profile.table_count == 0
      then (w, cfg', ready, pos 0)
      else if not (eq_pos code 0)
      then (w', cfg, lost, negsuc 0)
      else (probed, cfg', ready, pos 0)

  -- `inverter_rtu_init_callback`.
  unfoldable pub init_callback :
      W → ModuleConfig → InverterUnit → W × ModuleConfig × InverterUnit × ℤ
  init_callback w cfg unit =
      let (w', ctx, code) = connect calls w (rtu_cfg cfg) in
      let opened : InverterUnit = record unit { rtu_ctx = ctx } in
      let probed = probe_unit w' cfg opened in
      if not (eq_pos code 0) then (w', cfg, opened, negsuc 0) else probed

  -- `inverter_rtu_error_callback`.
  unfoldable pub error_callback :
      W → ModuleConfig → InverterUnit → ConnectionState → W × ModuleConfig × InverterUnit
  error_callback w cfg unit connection_state =
      let (w', closed) = drop_line calls w unit in
      (
        w',
        record cfg { connection_state = connection_state },
        record closed { comm_fail_count = 0 },
      )

  -- The outer loop's body, or what follows the loop.
  unfoldable pub outer_step : Bool → Thread W → Thread W
  outer_step running t =
      let (w1, cfg1, unit1, code) = init_callback t.line t.cfg t.unit in
      let (w2, unit2) = drop_line calls t.line t.unit in
      if running
      then record t {
        line = w1;
        cfg = cfg1;
        unit = unit1;
        phase = if eq_pos code 0 then polling else starting;
      }
      else record t { line = w2; unit = unit2; phase = stopped }

  -- The inner loop's body, or the end of the loop.
  unfoldable pub inner_step : Bool → Thread W → Thread W
  inner_step running t =
      let ((w1, pool1, processed), code) = process_callback bus t.line t.pool (some t.unit) in
      let unit1 : InverterUnit = elim processed [ none ↦ t.unit | some u ↦ u ] in
      let (w2, cfg2, unit2) = error_callback w1 t.cfg unit1 disconnected in
      if not running
      then record t { phase = starting }
      else if eq_pos code 0
      then record t { line = w1; pool = pool1; unit = unit1 }
      else record t { line = w2; pool = pool1; cfg = cfg2; unit = unit2; phase = starting }

  -- `inverter_rtu_thread`, a step at a time.
  unfoldable pub thread_step : Bool → Thread W → Thread W
  thread_step running t = elim t.phase [
    | starting ↦ outer_step running t
    | polling ↦ inner_step running t
    | stopped ↦ t
  ]

  -- Its steps for a list of the values of `unit->running`.
  unfoldable pub thread_run : List Bool → Thread W → Thread W
  thread_run [] t = t
  thread_run (running ∷ rest) t = thread_run rest (thread_step running t)
