-- ===== src/Inverter/Handlers.antt =====
-- The register access of src/inverter_cmos_bridge.c and the `inverter_cmd_push` that it calls. The
-- text of a message is a list of bytes; `strtoul`, cut to 16 bits, is a parameter.
pub mod Access
pub mod Queued
use loop_charger_inverter.Prelude.{
  ℕ, zero, suc, ◌+◌, ◌%◌, ◌^◌, Bool, true, false, ◌||◌, Option, none, some, List, [], ◌∷◌, ltb,
  ◌==◌, if◌then◌else◌,
}
use loop_charger_inverter.Prelude.Int.{ℤ, pos, negsuc, eq_pos}
use loop_charger_inverter.Modbus.Frame.{max_write_registers}
use loop_charger_inverter.DeviceMap.{
  Profile, Mapping, RegisterAccess, access_ro, access_rw, access_wo, RegisterPool, device_find_slot,
  pool_read_register,
}
use loop_charger_inverter.Inverter.Map.{
  inverter_find_profile_by_uid, int_operation_cmd_reg, int_frequency_write_cmd_reg,
  int_fault_control_cmd_reg, dev_operation_cmd_reg,
}
use loop_charger_inverter.Inverter.Queue.{WriteMode, auto, CmdQueue, queue_push}

-- One of `inverter_units[0 .. inverter_unit_count]`, with what a push needs: the `modbus_uid` of its
-- configuration, cut to 8 bits, and its queue.
pub record UnitQueue : Type 0 where
  pub uid : ℕ
  pub cmd_queue : CmdQueue

-- The lookup of `inverter_unit_from_uid` and the push onto the first unit that it finds.
unfoldable pub push_to_unit : List UnitQueue → ℕ → ℕ → List ℕ → ℕ → WriteMode → List UnitQueue × ℤ
push_to_unit [] uid addr values count mode = ([], negsuc 0)
push_to_unit (u ∷ units) uid addr values count mode =
    let (units', code) = push_to_unit units uid addr values count mode in
    let (queue', pushed) = queue_push u.cmd_queue addr values count mode in
    if u.uid == uid then (record u { cmd_queue = queue' } ∷ units, pushed) else (u ∷ units', code)

-- `inverter_cmd_push`; a null pointer is `none`.
unfoldable pub inverter_cmd_push :
    List UnitQueue → ℕ → ℕ → Option (List ℕ) → ℕ → WriteMode → List UnitQueue × ℤ
inverter_cmd_push units uid addr none count mode = (units, negsuc 0)
inverter_cmd_push units uid addr (some values) count mode =
    if count == 0 || ltb max_write_registers count
    then (units, negsuc 0)
    else push_to_unit units uid addr values count mode

abbrev pub is_ro : RegisterAccess → Bool
is_ro access_ro = true
is_ro _ = false

abbrev pub is_wo : RegisterAccess → Bool
is_wo access_wo = true
is_wo _ = false

-- The end of `on_write`: the result of the push is 0 or makes -1.
unfoldable pub queue_write : List UnitQueue → ℕ → ℕ → ℕ → List UnitQueue × ℤ
queue_write units uid addr val =
    let (units', pushed) = inverter_cmd_push units uid addr (some (val ∷ [])) 1 auto in
    (units', if eq_pos pushed 0 then pos 0 else negsuc 0)

-- `on_write`.
unfoldable pub on_write : List UnitQueue → ℕ → ℕ → ℕ → List UnitQueue × ℤ
on_write units uid addr val = elim (inverter_find_profile_by_uid uid) [
  | none ↦ (units, negsuc 0)
  | some profile ↦ elim (device_find_slot (some profile) addr) [
    | none ↦ (units, negsuc 0)
    | some entry ↦ if is_ro entry.access then (units, negsuc 0) else queue_write units uid addr val
  ]
]

-- `on_read`: `some` for 0 and the value, `none` for -1.
unfoldable pub on_read : RegisterPool → ℕ → ℕ → Option ℕ
on_read pool uid addr = elim (inverter_find_profile_by_uid uid) [
  | none ↦ none
  | some profile ↦ elim (device_find_slot (some profile) addr) [
    | none ↦ none
    | some entry ↦ if is_wo entry.access then none else pool_read_register pool entry.pool_address
  ]
]

abbrev pub bridge_default_uid : ℕ
bridge_default_uid = 1

module _ (strtoul : List ℕ → ℕ) where
  -- What every handler does with the address that it names. The result of `on_write` is dropped.
  unfoldable pub handle : ℕ → List UnitQueue → List ℕ → List UnitQueue
  handle addr units value =
      let (units', _) = on_write units bridge_default_uid addr (strtoul value % 2 ^ 16) in units'

  unfoldable pub on_main_pump_duty_cmd : List UnitQueue → List ℕ → List UnitQueue
  unfolding handle
  on_main_pump_duty_cmd = handle dev_operation_cmd_reg

  unfoldable pub on_operation_cmd : List UnitQueue → List ℕ → List UnitQueue
  unfolding handle
  on_operation_cmd = handle int_operation_cmd_reg

  unfoldable pub on_frequency_write_cmd : List UnitQueue → List ℕ → List UnitQueue
  unfolding handle
  on_frequency_write_cmd = handle int_frequency_write_cmd_reg

  unfoldable pub on_fault_control_cmd : List UnitQueue → List ℕ → List UnitQueue
  unfolding handle
  on_fault_control_cmd = handle int_fault_control_cmd_reg
