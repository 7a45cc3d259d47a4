-- ===== src/Inverter/Unit/Scan.antt =====
-- A pass of the poll thread: the drain of the queue, and the count of failures.
use loop_charger_inverter.Prelude.{
  ℕ, zero, suc, ◌<◌, ◌≡◌, ◌⊎◌, inl, inr, Bool, true, false, Option, none, some, List, arith, ◌==◌,
  Bool-cases, get_or,
}
use loop_charger_inverter.Prelude.Int.{ℤ, pos, negsuc}
use loop_charger_inverter.Modbus.Transaction.{Ctx, Exchange}
use loop_charger_inverter.Inverter.Queue.{blank, WriteCmd, CmdQueue, queue_pop}
use loop_charger_inverter.Inverter.Unit.{
  InverterUnit, comm_fail_threshold, write_registers_to_device, drain_queue,
}

-- `P` where the scan goes on, `Q` where it has left the callback.
abbrev pub Outcome : {S : Type 0} → (S → Type 0) → (S → Type 0) → S × Bool → Type 0
Outcome P Q (s, true) = P s
Outcome P Q (s, false) = Q s

abbrev pub fails_of : Option InverterUnit → ℕ
fails_of none = 0
fails_of (some unit) = unit.comm_fail_count

-- The result of a pass, and the failures that it leaves counted.
abbrev pub FailsAfter : ℤ → ℕ → Type 0
FailsAfter code fails =
    ((code ≡ pos 0) × (fails < comm_fail_threshold))
    ⊎ ((code ≡ negsuc 0) × (fails ≡ comm_fail_threshold))

module _ {W : Type 0} (bus : W → ℕ → List ℕ → W × Exchange) where
  -- As many rounds as the queue has commands, and one, are enough for the drain: it ends with an
  -- empty queue.
  pub drain_queue_empties :
      (rounds : ℕ) (w : W) (ctx : Ctx) (q : CmdQueue)
      → q.count < rounds
      → (drain_queue bus rounds w ctx q).1.count ≡ 0
  unfolding drain_queue queue_pop
  drain_queue_empties zero w ctx q h = elim h [ ]
  drain_queue_empties (suc rounds) w ctx q h = elim (Bool-cases (q.count == 0)) [
    | inl empty ↦ rw (drain_queue, empty) (ground arith)
    | inr more ↦
        rw (drain_queue, more)
          (let cmd : WriteCmd = get_or q.entries q.head blank in
            drain_queue_empties rounds
              (write_registers_to_device bus w ctx cmd.addr cmd.values cmd.count cmd.mode).0 ctx _
              (ground arith))
  ]
