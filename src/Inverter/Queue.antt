-- ===== src/Inverter/Queue.antt =====
-- The command queue of src/inverter_module.c. Its mutex is not modelled: a push and a pop each hold
-- it from their test on, and are one step here.
pub mod Slots
pub mod Fifo
pub mod Runs
use loop_charger_inverter.Prelude.{
  ℕ, zero, suc, ◌+◌, ◌-◌, ◌%◌, Bool, true, false, ◌||◌, Option, none, some, List, [], ◌∷◌, ◌++◌,
  length, get_or, set, take, drop, replicate, ltb, leb, ◌==◌, if◌then◌else◌,
}
use loop_charger_inverter.Prelude.Int.{ℤ, pos, negsuc}
use loop_charger_inverter.Modbus.Frame.{max_write_registers}

abbrev pub cmd_queue_capacity : ℕ
cmd_queue_capacity = 16

-- `inverter_write_mode_t`.
pub data WriteMode : Type 0 where
  auto fc06 fc16 : WriteMode

-- `inverter_write_cmd_t`; `values` is the array of MODBUS_MAX_WRITE_REGISTERS registers.
pub record WriteCmd : Type 0 where
  pub addr : ℕ
  pub values : List ℕ
  pub count : ℕ
  pub mode : WriteMode

-- `inverter_cmd_queue_t`.
pub record CmdQueue : Type 0 where
  pub entries : List WriteCmd
  pub head : ℕ
  pub tail : ℕ
  pub count : ℕ

-- An entry after the `memset`; INVERTER_WRITE_MODE_AUTO is 0.
abbrev pub blank : WriteCmd
blank = record { addr = 0; values = replicate max_write_registers 0; count = 0; mode = auto }

abbrev pub queue_init : CmdQueue
queue_init = record { entries = replicate cmd_queue_capacity blank; head = 0; tail = 0; count = 0 }

-- The `memcpy` of `count` registers over the start of the array of an entry.
abbrev pub copy_values : ℕ → List ℕ → List ℕ → List ℕ
copy_values count values old = take count values ++ drop count old

-- `queue_push`. The array of the entry that is filled keeps what stands behind the `count` values.
unfoldable pub queue_push : CmdQueue → ℕ → List ℕ → ℕ → WriteMode → CmdQueue × ℤ
queue_push q addr values count mode =
    if count == 0 || ltb max_write_registers count
    then (q, negsuc 0)
    else if leb cmd_queue_capacity q.count
    then (q, negsuc 0)
    else let old = get_or q.entries q.tail blank in
      (
        record q {
          entries = set q.entries q.tail (record {
            addr = addr;
            values = copy_values count values old.values;
            count = count;
            mode = mode;
          });
          tail = (q.tail + 1) % cmd_queue_capacity;
          count = q.count + 1;
        },
        pos 0,
      )

-- `queue_pop`: `some` for 0 and the entry copied out, `none` for -1.
unfoldable pub queue_pop : CmdQueue → CmdQueue × Option WriteCmd
queue_pop q = if q.count == 0 then (q, none) else (
  record q { head = (q.head + 1) % cmd_queue_capacity; count = q.count - 1 },
  some (get_or q.entries q.head blank),
)
