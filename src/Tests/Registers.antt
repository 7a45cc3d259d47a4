-- ===== src/Tests/Registers.antt =====
-- Examples for the register map, on the table of unit 1.
use loop_charger_inverter.Prelude.{
  ℕ, zero, suc, ◌+◌, ◌≡◌, ◌≤◌, ◌<◌, ◌↔◌, refl, true, some, List, [], ◌∷◌, arith, bit_and,
}
use loop_charger_inverter.DeviceMap.{store}
use loop_charger_inverter.DeviceMap.{
  Mapping, Profile, access_ro, access_rw, device_find_slot, device_register_map_init,
  device_map_read_to_pool, pool_read_by_device_addr, pool_read_masked_by_device_addr,
  pool_write_by_device_addr, check_register_access_range,
}
use loop_charger_inverter.DeviceMap.Find.{IsWellFormed, device_find_slot-lookup_row}
use loop_charger_inverter.DeviceMap.Pool.{
  IsInjective, read_to_pool_mapped, pool_write_by_device_addr_ok,
}
use loop_charger_inverter.DeviceMap.Access.{
  Permits, check_register_access_range-Permits, check_register_access_range_wrapped,
}
use loop_charger_inverter.Inverter.Map.{row, inverter1_mapping_table, inverter1_profile}
use loop_charger_inverter.Inverter.Map.Laws.{inverter1_profile-IsWellFormed, ascending-IsSorted}

device_find_slot-lookup_row_example :
    device_find_slot (some inverter1_profile) 0x210C
    ≡ some (row 0x210C 0xBB0C access_ro "motor_actual_speed")
device_find_slot-lookup_row_example =
    device_find_slot-lookup_row inverter1_profile inverter1_mapping_table 0x210C
      inverter1_profile-IsWellFormed

-- The rows of a table, two of whose slots are never the same.
abbrev two_rows : List Mapping
two_rows = row 0x2100 10 access_ro "a" ∷ row 0x2102 11 access_ro "b" ∷ []

two_rows-IsInjective : IsInjective two_rows
two_rows-IsInjective zero zero m n at_m at_n same = cc
two_rows-IsInjective zero (suc zero) m n at_m at_n same = ground arith
two_rows-IsInjective (suc zero) zero m n at_m at_n same = ground arith
two_rows-IsInjective (suc zero) (suc zero) m n at_m at_n same = cc
two_rows-IsInjective (suc (suc j)) k m n at_m at_n same = ground arith
two_rows-IsInjective zero (suc (suc k)) m n at_m at_n same = ground arith
two_rows-IsInjective (suc zero) (suc (suc k)) m n at_m at_n same = ground arith

abbrev two_profile : Profile
two_profile = record { name = "two"; table = some two_rows; table_count = 2; read_chunk = 20 }

two_profile-IsWellFormed : IsWellFormed two_profile two_rows
two_profile-IsWellFormed = record {
  has_table = refl;
  counted = refl;
  sorted = ascending-IsSorted two_rows 0 refl;
}

-- Three registers are read, the second is not mapped.
read_to_pool_mapped_example :
    device_map_read_to_pool
      (some two_profile)
      (some (7 ∷ 8 ∷ 9 ∷ []))
      0x2100
      3
      device_register_map_init
      11
    ≡ 9
read_to_pool_mapped_example =
    read_to_pool_mapped two_profile-IsWellFormed (7 ∷ 8 ∷ 9 ∷ []) 0x2100 3 (omega arith)
      device_register_map_init two_rows-IsInjective 1 (row 0x2102 11 access_ro "b") refl
      (omega arith) 2 (omega arith) refl

pool_write_by_device_addr_ok_example :
    let (pool', done) =
      pool_write_by_device_addr (some inverter1_profile) device_register_map_init 0x2001 0x1FF in
    (done ≡ true)
    × (pool_read_by_device_addr (some inverter1_profile) pool' 0x2001 ≡ some 0x1FF)
    × (pool_read_masked_by_device_addr (some inverter1_profile) pool' 0x2001 0xFF
        ≡ some (bit_and 0x1FF 0xFF))
    × (pool' ≡ store device_register_map_init 0xB001 0x1FF)
pool_write_by_device_addr_ok_example =
    pool_write_by_device_addr_ok (some inverter1_profile) device_register_map_init 0x2001 0x1FF 0xFF
      (row 0x2001 0xB001 access_rw "frequency_write_commands")
      (device_find_slot-lookup_row inverter1_profile inverter1_mapping_table 0x2001
        inverter1_profile-IsWellFormed)
      (omega arith)

check_register_access_range-Permits_example :
    (code : ℕ) × (check_register_access_range 4 (some two_profile) 10 2 access_ro ≡ some code)
    × ((code ≡ 0) ↔ ((pa : ℕ) → 10 ≤ pa → pa < 10 + 2 → Permits two_rows access_ro pa))
check_register_access_range-Permits_example =
    check_register_access_range-Permits two_profile two_rows refl refl access_ro 10 2 4
      (omega arith) (omega arith) (omega arith)

check_register_access_range_wrapped_example :
    check_register_access_range 1 (some two_profile) 0xFFFF 3 access_ro ≡ some 0
check_register_access_range_wrapped_example =
    check_register_access_range_wrapped two_profile two_rows refl refl access_ro 0xFFFF 3 1
      (omega arith) (omega arith) (omega arith) (omega arith)
