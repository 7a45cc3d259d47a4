-- ===== src/Inverter/Handlers/Access.antt =====
-- What the CMOS handlers can write and read.
use loop_charger_inverter.Prelude.{leb, ◌&&◌, false}
use loop_charger_inverter.Prelude.{
  ℕ, ◌%◌, ◌^◌, ◌≡◌, ◌≢◌, refl, ap, ◌∙◌, none, some, List, arith, if◌then◌else◌,
}
use loop_charger_inverter.Prelude.Int.{negsuc}
use loop_charger_inverter.DeviceMap.{RegisterPool}
use loop_charger_inverter.DeviceMap.Find.{lookup_row, device_find_slot-lookup_row}
use loop_charger_inverter.Inverter.Map.{
  inverter1_mapping_table, inverter1_profile, int_operation_cmd_reg, int_frequency_write_cmd_reg,
  int_fault_control_cmd_reg,
}
use loop_charger_inverter.Inverter.Map.Laws.{
  inverter1_profile-IsWellFormed, inverter_find_profile_by_uid_lem,
}
use loop_charger_inverter.Inverter.Handlers.{
  UnitQueue, queue_write, on_write, on_read, is_ro, on_operation_cmd, on_frequency_write_cmd,
  on_fault_control_cmd,
}

-- The lookup in the profile of a uid, as `on_write` and `on_read` make it.
on_write-row :
    (units : List UnitQueue) (addr val : ℕ)
    → on_write units 1 addr val ≡ elim (lookup_row inverter1_mapping_table addr) [
      | none ↦ (units, negsuc 0)
      | some entry ↦ if is_ro entry.access then (units, negsuc 0) else queue_write units 1 addr val
    ]
unfolding on_write
on_write-row units addr val =
    rw
      (
        on_write,
        (inverter_find_profile_by_uid_lem 1).0,
        device_find_slot-lookup_row inverter1_profile inverter1_mapping_table addr
            inverter1_profile-IsWellFormed,
      )
      refl

-- On unit 1 a write is queued exactly for the registers 0x2000 to 0x2002; at any other address it
-- returns -1 and no queue changes.
pub on_write_lem :
    (units : List UnitQueue) (addr val : ℕ)
    → on_write units 1 addr val ≡ (
        if leb 0x2000 addr && leb addr 0x2002
        then queue_write units 1 addr val
        else (units, negsuc 0))
on_write_lem units addr val = on_write-row units addr val ∙ ground arith

-- For a uid other than 1, which has no profile, every write and every read is refused, and no
-- queue changes.
pub on_write_no_profile :
    (units : List UnitQueue) (pool : RegisterPool) (uid addr val : ℕ)
    → uid ≢ 1
    → (on_write units uid addr val ≡ (units, negsuc 0)) × (on_read pool uid addr ≡ none)
unfolding on_write on_read
on_write_no_profile units pool uid addr val d =
    rw (on_write, on_read, (inverter_find_profile_by_uid_lem uid).1 d) (refl, refl)

-- The three command handlers never queue a write: whatever they receive, all queues stay as they
-- are.
pub command_handlers_refused :
    (strtoul : List ℕ → ℕ) (units : List UnitQueue) (value : List ℕ)
    → (on_operation_cmd strtoul units value ≡ units)
      × (on_frequency_write_cmd strtoul units value ≡ units)
      × (on_fault_control_cmd strtoul units value ≡ units)
unfolding on_operation_cmd on_frequency_write_cmd on_fault_control_cmd
command_handlers_refused strtoul units value = (
  refused int_operation_cmd_reg refl,
  refused int_frequency_write_cmd_reg refl,
  refused int_fault_control_cmd_reg refl,
)
  where
    refused :
        (addr : ℕ)
        → (leb 0x2000 addr && leb addr 0x2002) ≡ false
        → (on_write units 1 addr (strtoul value % 2 ^ 16)).0 ≡ units
    refused addr out =
        ap (λ r. r.0)
          (on_write_lem units addr (strtoul value % 2 ^ 16)
            ∙ ap
                (λ c.
                  if c
                  then queue_write units 1 addr (strtoul value % 2 ^ 16)
                  else (units, negsuc 0))
                out)
