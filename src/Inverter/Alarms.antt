-- ===== src/Inverter/Alarms.antt =====
-- src/inverter_alarm.c: the alarm table and the registration of one context per unit. The pool is
-- what the contexts read from; `event_data`, the unit's configuration, only names the unit in the
-- log and is not modelled.
pub mod Silent
use loop_charger_inverter.Prelude.{
  ℕ, zero, suc, ◌+◌, Bool, true, false, Option, none, some, List, [], ◌∷◌, length, replicate, map,
  ◌==◌, ◌||◌, if◌then◌else◌, String,
}
use loop_charger_inverter.Prelude.Int.{ℤ, pos, negsuc, eq_pos}
use loop_charger_inverter.DeviceMap.{Profile, RegisterPool, pool_read_by_device_addr}
use loop_charger_inverter.Alarm.Engine.{Condition, change, range, Entry, State, EngineCtx}
use loop_charger_inverter.Alarm.Bridge.{Bridge, register_ctx}
use loop_charger_inverter.Inverter.Map.{inverter_find_profile_by_uid}

abbrev pub alarm : ℕ → Condition → ℕ → ℕ → ℕ → String → Entry
alarm device condition lo hi code description = record {
  device_address = device;
  condition = condition;
  lo_limit = lo;
  hi_limit = hi;
  error_code = code;
  description = description;
}

abbrev pub inverter_alarm_table : List Entry
inverter_alarm_table =
    alarm 0x0001 change 0x0000 0x0000 0x0001 "fault code changed"
    ∷ alarm 0x0002 change 0x0000 0x0000 0x0002 "warning code changed"
    ∷ alarm 0x0010 range 0x0082 0x00DC 0x0010 "AC output voltage out of range"
    ∷ alarm 0x0015 range 0x0000 0x0064 0x0040 "output load >= 100%"
    ∷ alarm 0x0042 range 0x0014 0xFFFF 0x0020 "battery SoC < 20%"
    ∷ alarm 0x0043 range 0x0000 0x02BC 0x0021 "battery temperature > 70 °C"
    ∷ alarm 0x0050 range 0x0000 0x0320 0x0030 "heatsink temperature > 80 °C"
    ∷ []

abbrev pub initial_states : List State
initial_states = replicate 7 (record { is_active = false; prev_value = 0 })

-- `inverter_alarm_registry_t`.
pub record AlarmRegistry : Type 0 where
  pub uid : ℕ
  pub states : List State
  pub count : ℕ

abbrev pub alarm_registry : List AlarmRegistry
alarm_registry = record { uid = 1; states = initial_states; count = 7 } ∷ []

-- `alarm_read_register`, `read_data` being the profile.
unfoldable pub alarm_read_register : Profile → RegisterPool → ℕ → Option ℕ
alarm_read_register profile pool address = pool_read_by_device_addr (some profile) pool address

-- The context that is filled in for a registry entry.
abbrev pub alarm_ctx : AlarmRegistry → Profile → EngineCtx RegisterPool
alarm_ctx entry profile = record {
  table = some inverter_alarm_table;
  states = some entry.states;
  count = entry.count;
  read_fn = some (alarm_read_register profile);
  has_event_fn = true;
}

-- Whether a unit of the configuration has the uid; the list holds each `modbus_uid`, cut to 8 bits.
abbrev pub has_config : List ℕ → ℕ → Bool
has_config [] uid = false
has_config (u ∷ uids) uid = u == uid || has_config uids uid

-- The body of the loop of `inverter_alarm_register_all`, on the bridge and `inverter_alarm_ctx_count`.
unfoldable pub register_one :
    List ℕ → AlarmRegistry → Bridge RegisterPool × ℕ → Bridge RegisterPool × ℕ
register_one uids entry (b, count) = elim (inverter_find_profile_by_uid entry.uid) [
  | none ↦ (b, count)
  | some profile ↦
      let (b', code) = register_ctx b (some (alarm_ctx entry profile)) in
      if has_config uids entry.uid
      then (b', if eq_pos code 0 then count + 1 else count)
      else (b, count)
]

unfoldable pub register_all :
    List AlarmRegistry → List ℕ → Bridge RegisterPool × ℕ → Bridge RegisterPool × ℕ
register_all [] uids out = out
register_all (entry ∷ entries) uids out = register_all entries uids (register_one uids entry out)

-- `inverter_alarm_register_all`.
unfoldable pub inverter_alarm_register_all : List ℕ → Bridge RegisterPool → Bridge RegisterPool × ℕ
unfolding register_all register_one
inverter_alarm_register_all uids b = register_all alarm_registry uids (b, 0)
