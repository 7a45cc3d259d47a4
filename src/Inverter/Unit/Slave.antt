-- ===== src/Inverter/Unit/Slave.antt =====
-- A device behind the line, as far as the reads of a scan see it.
use loop_charger_inverter.Prelude.{
  ℕ, zero, suc, ◌+◌, ◌^◌, ◌≤◌, ◌<◌, ◌≡◌, refl, ap, ◌∙◌, List, [], ◌∷◌, ◌++◌, arith, length, get_or,
}
use loop_charger_inverter.Modbus.Frame.{max_read_registers}
use loop_charger_inverter.Modbus.Serial.Delivery.{Delivers}
use loop_charger_inverter.Modbus.Transaction.{Ctx, Exchange}
use loop_charger_inverter.Modbus.Transaction.Laws.{answer, WritesAll}
use loop_charger_inverter.Modbus.Client.{read_request}
use loop_charger_inverter.Modbus.Client.Registers.{IsWords}
use loop_charger_inverter.Modbus.Client.Laws.{read_reply}

-- `qty` registers of a device from `addr` on.
abbrev pub registers : (ℕ → ℕ) → ℕ → ℕ → List ℕ
registers device addr zero = []
registers device addr (suc qty) = device addr ∷ registers device (addr + 1) qty

pub length-registers : (device : ℕ → ℕ) (addr qty : ℕ) → length (registers device addr qty) ≡ qty
length-registers device addr zero = refl
length-registers device addr (suc qty) = ap suc (length-registers device (addr + 1) qty)

pub registers-IsWords :
    (device : ℕ → ℕ)
    → ((a : ℕ) → device a < 2 ^ 16)
    → (addr qty : ℕ) → IsWords (registers device addr qty)
registers-IsWords device h addr zero = tt
registers-IsWords device h addr (suc qty) = (h addr, registers-IsWords device h (addr + 1) qty)

pub get_or-registers :
    (device : ℕ → ℕ) (addr qty i : ℕ) (rest : List ℕ)
    → i < qty
    → get_or (registers device addr qty ++ rest) i 0 ≡ device (addr + i)
get_or-registers device addr zero i rest h = absurd (omega arith)
get_or-registers device addr (suc qty) zero rest h = ap device (omega arith)
get_or-registers device addr (suc qty) (suc i) rest h =
    get_or-registers device (addr + 1) qty i rest (omega arith) ∙ ap device (omega arith)

-- Behind the line is a slave with 16-bit registers: it takes every request to read 1 to 125 of
-- them and answers with their values, in any pieces. Reading changes no register.
pub record Answers {W : Type 0} (bus : W → ℕ → List ℕ → W × Exchange) (ctx : Ctx)
    (device : W → ℕ → ℕ) : Type 0 where
  pub words : (w : W) (a : ℕ) → device w a < 2 ^ 16
  pub takes_request :
      (w : W) (addr qty : ℕ)
      → 0 < qty
      → qty ≤ max_read_registers
      → addr + qty ≤ 2 ^ 16
      → WritesAll bus w ctx (read_request ctx.cfg.unit_id addr qty)
  pub replies :
      (w : W) (addr qty : ℕ)
      → 0 < qty
      → qty ≤ max_read_registers
      → addr + qty ≤ 2 ^ 16
      → Delivers
          (answer bus w ctx (read_request ctx.cfg.unit_id addr qty)).1.events
          (read_reply ctx.cfg.unit_id (registers (device w) addr qty))
  pub keeps :
      (w : W) (addr qty : ℕ)
      → 0 < qty
      → qty ≤ max_read_registers
      → addr + qty ≤ 2 ^ 16
      → device (answer bus w ctx (read_request ctx.cfg.unit_id addr qty)).0 ≡ device w
