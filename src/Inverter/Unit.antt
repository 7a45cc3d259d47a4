-- ===== src/Inverter/Unit.antt =====
-- The callbacks of one unit's poll thread, of src/inverter_module.c: writes of queued commands and
-- the scan of the registers. In this file the queue is what it holds when the drain begins;
-- Arrivals has the drain with commands that another thread pushes meanwhile. The sleeps change no
-- state and are left out. A profile has a table, as every registered one does.
pub mod Segments
pub mod Scan
pub mod Slave
pub mod Device
pub mod Round
pub mod Arrivals
pub mod Drain
pub mod Pass
use loop_charger_inverter.Prelude.{
  ℕ, zero, suc, ◌+◌, ◌-◌, ◌%◌, ◌^◌, Bool, true, false, not, ◌&&◌, Option, none, some, List, [], ◌∷◌,
  get_or, replicate, ltb, leb, ◌==◌, if◌then◌else◌,
}
use loop_charger_inverter.Prelude.Int.{ℤ, pos, negsuc, eq_pos}
use loop_charger_inverter.Modbus.Frame.{max_read_registers}
use loop_charger_inverter.Modbus.Transaction.{Ctx, Exchange, client_ok}
use loop_charger_inverter.Modbus.Client.{
  read_holding_registers, write_single_register, write_multiple_registers,
}
use loop_charger_inverter.DeviceMap.{
  Mapping, Profile, RegisterPool, device_map_read_to_pool, access_ro,
}
use loop_charger_inverter.Inverter.Queue.{
  WriteMode, auto, fc06, fc16, WriteCmd, CmdQueue, queue_pop,
}

abbrev pub comm_fail_threshold : ℕ
comm_fail_threshold = 5

-- The fields of `inverter_unit_t` that a pass of the thread uses.
pub record InverterUnit : Type 0 where
  pub profile : Profile
  pub rtu_ctx : Ctx
  pub comm_fail_count : ℕ
  pub cmd_queue : CmdQueue

-- `profile->table[i].device_address`. The loops read only indices below `table_count`.
abbrev pub address_at : List Mapping → ℕ → ℕ
address_at table i =
    (get_or table i (record {
      device_address = 0;
      pool_address = 0;
      access = access_ro;
      description = "";
    })).device_address

-- What follows a segment, when the callback goes on.
abbrev pub and_then : {S : Type 0} → S × Bool → (S → S × Bool) → S × Bool
and_then (s, true) rest = rest s
and_then (s, false) rest = (s, false)

-- The loop of the scan for the rows from `i` on, with the rounds left. `segment` is its body past
-- the `continue`: it reads `count` registers at `start`, and returns false to leave the callback.
module _ {S : Type 0} (segment : S → ℕ → ℕ → S × Bool) where
  unfoldable pub scan_loop : List Mapping → ℕ → ℕ → ℕ → ℕ → ℕ → ℕ → S → S × Bool
  scan_loop table table_count read_chunk zero i seg_start seg_len s = (s, true)
  scan_loop table table_count read_chunk (suc left) i seg_start seg_len s =
      let contiguous : Bool =
        ltb i table_count && (address_at table i == address_at table (i - 1) + 1) in
      elim (contiguous && not (leb read_chunk seg_len)) [
        | true ↦ scan_loop table table_count read_chunk left (i + 1) seg_start (seg_len + 1) s
        | false ↦
            and_then (segment s (address_at table seg_start) (seg_len % 2 ^ 16))
              (λ s'. scan_loop table table_count read_chunk left (i + 1) i 1 s')
      ]

module _ {W : Type 0} (bus : W → ℕ → List ℕ → W × Exchange) where
  -- `write_registers_to_device`: `values[0]` for FC06.
  unfoldable pub write_registers_to_device : W → Ctx → ℕ → List ℕ → ℕ → WriteMode → W × ℤ
  write_registers_to_device w ctx addr values count mode =
      let (w1, single) = write_single_register bus w (some ctx) addr (get_or values 0 0) in
      let (w2, multiple) = write_multiple_registers bus w (some ctx) addr count (some values) in
      let after_single : W × ℤ = (w1, if eq_pos single 0 then pos 0 else negsuc 0) in
      let after_multiple : W × ℤ = (w2, if eq_pos multiple 0 then pos 0 else negsuc 0) in
      elim mode [
        | fc06 ↦ if not (count == 1) then (w, negsuc 0) else after_single
        | fc16 ↦ after_multiple
        | auto ↦ if count == 1 then after_single else after_multiple
      ]

  -- Phase 1 of the scan, with a bound on the rounds: pop and write until the queue is empty. A write
  -- that fails is only logged.
  unfoldable pub drain_queue : ℕ → W → Ctx → CmdQueue → W × CmdQueue
  drain_queue zero w ctx q = (w, q)
  drain_queue (suc rounds) w ctx q =
      let (q', popped) = queue_pop q in
      elim popped [
        | none ↦ (w, q')
        | some cmd ↦
            let (w', _) = write_registers_to_device w ctx cmd.addr cmd.values cmd.count cmd.mode in
            drain_queue rounds w' ctx q'
      ]

  -- What phase 2 works on: the line, the pool, `comm_fail_count` and the buffer.
  unfoldable pub read_segment :
      Profile → Ctx → W × RegisterPool × ℕ × List ℕ → ℕ → ℕ → (W × RegisterPool × ℕ × List ℕ) × Bool
  read_segment profile ctx (w, pool, fails, buf) start count =
      let (w', code, out) = read_holding_registers bus w (some ctx) start count (some buf) in
      let buf' : List ℕ = elim out [ none ↦ buf | some b ↦ b ] in
      if not (eq_pos code 0)
      then ((w', pool, fails + 1, buf'), ltb (fails + 1) comm_fail_threshold)
      else (
        (w', device_map_read_to_pool (some profile) (some buf') start count pool, 0, buf'),
        true,
      )

  -- Phase 2 of the scan: the registers of the table, read segment by segment. The result is 0 or -1.
  unfoldable pub scan_registers :
      W → RegisterPool → InverterUnit → (W × RegisterPool × Option InverterUnit) × ℤ
  scan_registers w pool unit = elim unit.profile.table [
    | none ↦ ((w, pool, some unit), pos 0)
    | some table ↦
        let ((w', pool', fails, _), done) =
          scan_loop (read_segment unit.profile unit.rtu_ctx) table unit.profile.table_count
            unit.profile.read_chunk unit.profile.table_count 1 0 1
            (w, pool, unit.comm_fail_count, replicate max_read_registers 0) in
        if unit.profile.table_count == 0 then ((w, pool, some unit), pos 0) else (
          (w', pool', some (record unit { comm_fail_count = fails })),
          if done then pos 0 else negsuc 0,
        )
  ]

  -- `inverter_rtu_process_callback`; a missing configuration or unit is `none`.
  unfoldable pub process_callback :
      W → RegisterPool → Option InverterUnit → (W × RegisterPool × Option InverterUnit) × ℤ
  unfolding scan_registers
  process_callback w pool none = ((w, pool, none), negsuc 0)
  process_callback w pool (some unit) =
      let (w', queue') = drain_queue (suc unit.cmd_queue.count) w unit.rtu_ctx unit.cmd_queue in
      scan_registers w' pool (record unit { cmd_queue = queue' })

  -- `inverter_msg_callback`; its configuration and unit as for the scan, a null pointer is `none`.
  unfoldable pub msg_callback : W → Option InverterUnit → ℕ → Option (List ℕ) → ℕ → W × ℤ
  msg_callback w unit addr none count = (w, negsuc 0)
  msg_callback w none addr (some values) count = (w, negsuc 0)
  msg_callback w (some unit) addr (some values) count =
      if count == 0
      then (w, negsuc 0)
      else write_registers_to_device w unit.rtu_ctx addr values (count % 2 ^ 16) auto
