-- ===== src/Inverter/Map.antt =====
-- devices/inverter/inverter_map.c: the register table of unit 1 and the lookup of a unit's profile.
pub mod Laws
use loop_charger_inverter.Prelude.{
  ℕ, Bool, true, false, Option, none, some, List, [], ◌∷◌, length, ◌==◌, if◌then◌else◌, String,
}
use loop_charger_inverter.DeviceMap.{Mapping, Profile, access_ro, access_rw, RegisterAccess}

abbrev pub row : ℕ → ℕ → RegisterAccess → String → Mapping
row device pool access description = record {
  device_address = device;
  pool_address = pool;
  access = access;
  description = description;
}

abbrev pub inverter1_mapping_table : List Mapping
inverter1_mapping_table =
    row 0x2000 0xB000 access_rw "operation_commands"
    ∷ row 0x2001 0xB001 access_rw "frequency_write_commands"
    ∷ row 0x2002 0xB002 access_rw "fault_Control_commands"
    ∷ row 0x2100 0xBB00 access_ro "fault_warning_code"
    ∷ row 0x2101 0xBB01 access_ro "inverter_operating_status"
    ∷ row 0x2102 0xBB02 access_ro "frequency_read_command"
    ∷ row 0x2103 0xBB03 access_ro "output_frequency"
    ∷ row 0x2104 0xBB04 access_ro "output_current"
    ∷ row 0x2105 0xBB05 access_ro "dc_Bus_voltage"
    ∷ row 0x210C 0xBB0C access_ro "motor_actual_speed"
    ∷ row 0x220A 0xBB0A access_ro "pid feedback value"
    ∷ []

abbrev pub inverter1_profile : Profile
inverter1_profile = record {
  name = "Inverter1";
  table = some inverter1_mapping_table;
  table_count = 11;
  read_chunk = 20;
}

-- `inverter_uid_profile_entry_t`.
pub record UidProfileEntry : Type 0 where
  pub modbus_uid : ℕ
  pub profile : Profile

abbrev pub inverter_uid_profile_map : List UidProfileEntry
inverter_uid_profile_map = record { modbus_uid = 1; profile = inverter1_profile } ∷ []

-- The loop of `inverter_find_profile_by_uid`.
unfoldable pub find_profile : List UidProfileEntry → ℕ → Option Profile
find_profile [] uid = none
find_profile (entry ∷ entries) uid =
    let rest = find_profile entries uid in
    if entry.modbus_uid == uid then some entry.profile else rest

unfoldable pub inverter_find_profile_by_uid : ℕ → Option Profile
unfolding find_profile
inverter_find_profile_by_uid uid = find_profile inverter_uid_profile_map uid

-- The pool addresses that inverter_map.c names, and its one device address.
abbrev pub int_operation_cmd_reg : ℕ
int_operation_cmd_reg = 0xB000

abbrev pub int_frequency_write_cmd_reg : ℕ
int_frequency_write_cmd_reg = 0xB001

abbrev pub int_fault_control_cmd_reg : ℕ
int_fault_control_cmd_reg = 0xB002

abbrev pub dev_operation_cmd_reg : ℕ
dev_operation_cmd_reg = 0x2001
