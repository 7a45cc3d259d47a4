-- ===== src/Inverter/Unit/Arrivals.antt =====
-- Phase 1 of the scan in src/inverter_module.c while the bridge's thread pushes further commands, as
-- the mutex of the queue lets it before each pop.
use loop_charger_inverter.Prelude.{
  ℕ, suc, ◌≤◌, ◌≡◌, refl, Bool, not, ◌&&◌, none, some, List, [], ◌∷◌, ◌++◌, length, take, map, ltb,
  leb, ◌==◌, if◌then◌else◌,
}
use loop_charger_inverter.Modbus.Frame.{max_write_registers}
use loop_charger_inverter.Modbus.Transaction.{Ctx, Exchange}
use loop_charger_inverter.Inverter.Queue.{
  cmd_queue_capacity, WriteMode, WriteCmd, CmdQueue, queue_push, queue_pop,
}
use loop_charger_inverter.Inverter.Queue.Slots.{Request, request}
use loop_charger_inverter.Inverter.Queue.Fifo.{IsWellFormed}
use loop_charger_inverter.Prelude.{Option}
use loop_charger_inverter.Prelude.Int.{ℤ, negsuc}
use loop_charger_inverter.DeviceMap.{RegisterPool}
use loop_charger_inverter.Inverter.Unit.{
  InverterUnit, write_registers_to_device, drain_queue, scan_registers, process_callback,
}

-- The arguments of a `queue_push`.
pub record Push : Type 0 where
  pub addr : ℕ
  pub values : List ℕ
  pub count : ℕ
  pub mode : WriteMode

-- The caller's array holds the values that it counts.
abbrev pub HasValues : Push → Type 0
HasValues p = p.count ≤ length p.values

unfoldable pub push_each : CmdQueue → List Push → CmdQueue
push_each q [] = q
push_each q (p ∷ ps) = push_each (queue_push q p.addr p.values p.count p.mode).0 ps

abbrev pub has_room : ℕ → ℕ → Bool
has_room n count = not (count == 0) && leb count max_write_registers && ltb n cmd_queue_capacity

-- The abstract queue.
abbrev pub push_request : List Request → Push → List Request
push_request l p =
    if has_room (length l) p.count
    then l ++ (record { addr = p.addr; values = take p.count p.values; mode = p.mode } ∷ [])
    else l

abbrev pub push_requests : List Request → List Push → List Request
push_requests l [] = l
push_requests l (p ∷ ps) = push_requests (push_request l p) ps

-- The requests that the drain is to write: before each pop the new ones are put behind the others,
-- and it stops where none is there.
abbrev pub to_write : List (List Push) → List Request → List Request
to_write [] l = l
to_write (new ∷ later) l = elim (push_requests l new) [
  | [] ↦ []
  | r ∷ rest ↦ r ∷ to_write later rest
]

module _ {W : Type 0} (bus : W → ℕ → List ℕ → W × Exchange) where
  -- The drain with what is pushed before each of the first pops; nothing is pushed after those.
  unfoldable pub drain_arrivals : List (List Push) → W → Ctx → CmdQueue → W × CmdQueue
  unfolding drain_queue
  drain_arrivals [] w ctx q = drain_queue bus (suc q.count) w ctx q
  drain_arrivals (new ∷ later) w ctx q =
      let (q', popped) = queue_pop (push_each q new) in
      elim popped [
        | none ↦ (w, q')
        | some cmd ↦
            let (w', _) =
              write_registers_to_device bus w ctx cmd.addr cmd.values cmd.count cmd.mode in
            drain_arrivals later w' ctx q'
      ]

  -- `inverter_rtu_process_callback` with what is pushed before the pops, and then while the registers
  -- are read. As the scan does not look at the queue, the latter are all there when it begins.
  unfoldable pub process_callback_arrivals :
      List (List Push)
      → List Push
      → W
      → RegisterPool
      → Option InverterUnit
      → (W × RegisterPool × Option InverterUnit) × ℤ
  unfolding drain_arrivals push_each scan_registers
  process_callback_arrivals arrivals late w pool none = ((w, pool, none), negsuc 0)
  process_callback_arrivals arrivals late w pool (some unit) =
      let (w', queue') = drain_arrivals arrivals w unit.rtu_ctx unit.cmd_queue in
      scan_registers bus w' pool (record unit { cmd_queue = push_each queue' late })

  -- The commands written one after the other.
  unfoldable pub write_each : W → Ctx → List WriteCmd → W
  write_each w ctx [] = w
  write_each w ctx (c ∷ cmds) =
      write_each (write_registers_to_device bus w ctx c.addr c.values c.count c.mode).0 ctx cmds

  -- Without pushes it is the callback as it stands alone.
  process_callback_arrivals-none :
      (w : W) (pool : RegisterPool) (unit : Option InverterUnit)
      → process_callback_arrivals [] [] w pool unit ≡ process_callback bus w pool unit
  unfolding process_callback_arrivals process_callback push_each drain_arrivals
  process_callback_arrivals-none w pool none = refl
  process_callback_arrivals-none w pool (some unit) = refl

  -- The result of a drain: it has written commands for these requests, and left the queue empty.
  pub record Drained (w : W) (ctx : Ctx) (requests : List Request) (result : W × CmdQueue)
      : Type 0 where
    pub cmds : List WriteCmd
    pub written : result.0 ≡ write_each w ctx cmds
    pub as_requested : map request cmds ≡ requests
    pub emptied : result.1.count ≡ 0
    pub well_formed : IsWellFormed result.1
