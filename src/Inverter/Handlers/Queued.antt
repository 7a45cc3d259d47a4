-- ===== src/Inverter/Handlers/Queued.antt =====
-- What `on_write` of src/inverter_cmos_bridge.c does to the command queues, against lists of requests.
use loop_charger_inverter.Prelude.{
  ℕ, ◌≡◌, refl, ap, List, [], ◌∷◌, ◌++◌, All, arith, length, map, ltb, ◌==◌, if◌then◌else◌,
  Bool-cases, inl, inr,
}
use loop_charger_inverter.Inverter.Queue.{cmd_queue_capacity, auto}
use loop_charger_inverter.Inverter.Queue.Slots.{Request}
use loop_charger_inverter.Inverter.Queue.Fifo.{IsWellFormed, contents}
use loop_charger_inverter.Inverter.Unit.Drain.{push-request}
use loop_charger_inverter.Inverter.Handlers.{
  UnitQueue, push_to_unit, inverter_cmd_push, queue_write, on_write,
}
use loop_charger_inverter.Inverter.Handlers.Access.{on_write_lem}

-- The command queues of all units are well formed.
abbrev pub AreWellFormed : List UnitQueue → Type 0
AreWellFormed units = All (λ u. IsWellFormed u.cmd_queue) units

-- Each unit's uid, and the requests that wait in its queue.
abbrev pub waiting_requests : List UnitQueue → List (ℕ × List Request)
waiting_requests units = map (λ u. (u.uid, contents u.cmd_queue)) units

-- A queue of at most 16 requests.
abbrev pub put_behind : Request → List Request → List Request
put_behind r l = if ltb (length l) cmd_queue_capacity then l ++ (r ∷ []) else l

-- The first unit with this uid has the request put behind the others.
abbrev pub put_on_first : ℕ → Request → List (ℕ × List Request) → List (ℕ × List Request)
put_on_first uid r [] = []
put_on_first uid r ((u, l) ∷ units) =
    let rest = put_on_first uid r units in
    if u == uid then (u, put_behind r l) ∷ units else (u, l) ∷ rest

-- The write of one register, in the mode that is chosen by the count of values.
abbrev pub one_register : ℕ → ℕ → Request
one_register addr val = record { addr = addr; values = val ∷ []; mode = auto }

-- A push of one value onto the units.
abbrev IsPut : ℕ → Request → List UnitQueue → List UnitQueue → Type 0
IsPut uid r before after =
    AreWellFormed after × (waiting_requests after ≡ put_on_first uid r (waiting_requests before))

push_to_unit-IsPut :
    (units : List UnitQueue) (uid addr val : ℕ)
    → AreWellFormed units
    → IsPut uid (one_register addr val) units (push_to_unit units uid addr (val ∷ []) 1 auto).0
unfolding push_to_unit
push_to_unit-IsPut [] uid addr val wf = (tt, refl)
push_to_unit-IsPut (u ∷ units) uid addr val wf = elim (Bool-cases (u.uid == uid)) [
  | inl here ↦
      let pushed =
        push-request u.cmd_queue (record { addr = addr; values = val ∷ []; count = 1; mode = auto })
          wf.0 (omega arith) in
      rw (push_to_unit, here)
        ((pushed.0, wf.1), ap (λ l. (u.uid, l) ∷ waiting_requests units) pushed.1)
  | inr other ↦
      let rest = push_to_unit-IsPut units uid addr val wf.1 in
      rw (push_to_unit, other) ((wf.0, rest.0), ap (λ l. (u.uid, contents u.cmd_queue) ∷ l) rest.1)
]

-- The value for register 0x2001 of unit 1 is put behind the requests of the first unit with that uid,
-- when fewer than 16 wait there.
pub on_write-IsPut :
    (units : List UnitQueue) (val : ℕ)
    → AreWellFormed units
    → AreWellFormed (on_write units 1 0x2001 val).0
      × (waiting_requests (on_write units 1 0x2001 val).0
          ≡ put_on_first 1 (one_register 0x2001 val) (waiting_requests units))
unfolding queue_write inverter_cmd_push
on_write-IsPut units val wf =
    rw (on_write_lem units 0x2001 val) (push_to_unit-IsPut units 1 0x2001 val wf)
