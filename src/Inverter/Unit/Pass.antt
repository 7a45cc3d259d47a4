-- ===== src/Inverter/Unit/Pass.antt =====
-- A whole pass of the poll thread over a device that answers, while commands are pushed.
use loop_charger_inverter.Prelude.{
  ℕ, ◌≡◌, ◌≢◌, ap, ◌∙◌, Option, none, some, List, [], All, get_elem?,
}
use loop_charger_inverter.Prelude.Int.{pos}
use loop_charger_inverter.Modbus.Transaction.{Exchange}
use loop_charger_inverter.DeviceMap.{Mapping, RegisterPool}
use loop_charger_inverter.Inverter.Queue.{CmdQueue}
use loop_charger_inverter.Inverter.Queue.Fifo.{IsWellFormed, contents}
use loop_charger_inverter.Inverter.Queue.Slots.{Request, slots}
use loop_charger_inverter.Inverter.Unit.{InverterUnit}
use loop_charger_inverter.Inverter.Unit.Slave.{Answers}
use loop_charger_inverter.Inverter.Unit.Scan.{fails_of}
use loop_charger_inverter.Inverter.Unit.Round.{IsReady, scan_registers-Synced}
use loop_charger_inverter.Inverter.Unit.Arrivals.{
  Push, HasValues, push_each, push_requests, to_write, drain_arrivals, process_callback_arrivals,
  Drained,
}
use loop_charger_inverter.Inverter.Unit.Drain.{push_each-requests, drain_arrivals-Drained}

-- The requests that wait in a unit.
abbrev pub waiting_in : Option InverterUnit → List Request
waiting_in none = []
waiting_in (some unit) = contents unit.cmd_queue

-- The queue has no part in what a scan may rely on.
IsReady-queue :
    (unit : InverterUnit) (table : List Mapping)
    → IsReady unit table
    → (q : CmdQueue) → IsReady (record unit { cmd_queue = q }) table
IsReady-queue unit table ready q = record {
  well_formed = ready.well_formed;
  rows = ready.rows;
  addresses = ready.addresses;
  own_slots = ready.own_slots;
  inside = ready.inside;
  chunk = ready.chunk;
  opened = ready.opened;
  unit_byte = ready.unit_byte;
}

nothing_left : (q : CmdQueue) → q.count ≡ 0 → contents q ≡ []
nothing_left q e = ap (slots q.entries q.head) e

-- When the port is open, the register table is well formed and fits the pool, a device answers
-- every read, and the array of each push holds the values that it counts, a pass over a unit with a
-- well-formed queue returns 0 with no failures counted. It writes, in order, the commands that were
-- queued and those that are pushed, while there is room, before the drain finds the queue empty;
-- what is pushed later, while there is room, waits in the queue. The pool then holds, in the slot
-- of each row of the table, the value that the device had in that register once these commands were
-- written, and every slot that is of no row is as before. The device's registers are left as the
-- writes made them.
pub process_callback_arrivals-Filled :
    {W : Type 0} (bus : W → ℕ → List ℕ → W × Exchange) (device : W → ℕ → ℕ)
    (arrivals : List (List Push)) (late : List Push) (w : W) (pool : RegisterPool)
    (unit : InverterUnit) (table : List Mapping)
    → IsReady unit table
    → Answers bus unit.rtu_ctx device
    → IsWellFormed unit.cmd_queue
    → All (All HasValues) arrivals
    → All HasValues late
    → let ((w', pool', unit'), code) =
        process_callback_arrivals bus arrivals late w pool (some unit) in
      let drained = drain_arrivals bus arrivals w unit.rtu_ctx unit.cmd_queue in
      (code ≡ pos 0)
      × (fails_of unit' ≡ 0)
      × Drained bus w unit.rtu_ctx (to_write arrivals (contents unit.cmd_queue)) drained
      × (waiting_in unit' ≡ push_requests [] late)
      × (device w' ≡ device drained.0)
      × ((k : ℕ) (m : Mapping)
          → get_elem? table k ≡ some m
          → pool' m.pool_address ≡ device drained.0 m.device_address)
      × ((p : ℕ)
          → ((k : ℕ) (m : Mapping) → get_elem? table k ≡ some m → m.pool_address ≢ p)
          → pool' p ≡ pool p)
unfolding process_callback_arrivals
process_callback_arrivals-Filled bus device arrivals late w pool unit table ready answers wf values
      late_values =
    let drains = drain_arrivals-Drained bus arrivals w unit.rtu_ctx unit.cmd_queue wf values in
    let (w1, q1) = drain_arrivals bus arrivals w unit.rtu_ctx unit.cmd_queue in
    let scanned : InverterUnit = record unit { cmd_queue = push_each q1 late } in
    let (code, unit_after, same_device, filled, kept) =
      scan_registers-Synced bus device w1 pool scanned table
        (IsReady-queue unit table ready (push_each q1 late)) answers in
    (
      code,
      ap fails_of unit_after,
      drains,
      ap waiting_in unit_after
          ∙ ((push_each-requests late q1 drains.well_formed late_values).1
              ∙ ap (λ l. push_requests l late) (nothing_left q1 drains.emptied)),
      same_device,
      filled,
      kept,
    )
