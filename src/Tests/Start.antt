-- ===== src/Tests/Start.antt =====
-- Examples for the loading of the configuration and the start of the modules.
use loop_charger_inverter.Prelude.{
  ℕ, ◌+◌, ◌==◌, if◌then◌else◌, ◌-◌, ◌<◌, ◌≤◌, ◌≡◌, refl, true, false, none, some, [], ◌∷◌, length,
  take, All,
}
use loop_charger_inverter.Prelude.Int.{pos}
use loop_charger_inverter.Cmos.Text.{codes, same_text}
use loop_charger_inverter.Config.{
  max_inverter_count, path_size, UnitConfig, JsonCalls, zeroed, undefined, loaded, load_json_config,
  load_loop, load_field, with_text, load_module_config, is_enabled, load_inverter_config,
}
use loop_charger_inverter.Config.Fields.{IsBounded}
use loop_charger_inverter.Config.Units.{
  all_defined, enabled_entries, each_loaded, load_json_config-each_loaded, load_json_config_bounds,
}
use loop_charger_inverter.Inverter.Start.{CmosBridge, ThreadCalls}
use loop_charger_inverter.Tests.Cmos.{publisher}

-- A file is a number here: 0 is the root, 1 its array, 2 and 3 the entries, of which 3 is disabled, and
-- from 4 on the fields of an entry.
abbrev pub json : JsonCalls ℕ
json = record {
  get_ex = λ v key.
      if v == 0
      then if same_text key (codes "INVERTER") then some 1 else none
      else if same_text key (codes "enabled")
      then some (v + 2)
      else if same_text key (codes "modbus_uid")
      then some 6
      else if same_text key (codes "name")
      then some 7
      else none;
  get_string = λ v. some (codes "inverter 1");
  get_boolean = λ v. v == 4;
  get_int = λ v. pos 1;
  array_elements = λ v. if v == 1 then some (2 ∷ 3 ∷ []) else none;
}

abbrev pub unit1 : UnitConfig
unit1 = record zeroed {
  name = codes "inverter 1";
  enabled = true;
  modbus_uid = pos 1;
  rtu_poll_interval_ms = 200;
}

pub one_loaded :
    load_json_config json (some 0) (codes "c.json") ≡ loaded (codes "c.json") (unit1 ∷ [])
unfolding load_json_config load_inverter_config load_loop is_enabled load_module_config load_field
    with_text same_text
one_loaded = refl

load_json_config-each_loaded_example :
    load_json_config json (some 0) (codes "c.json")
    ≡ elim (all_defined
        (each_loaded json (take max_inverter_count (enabled_entries json (2 ∷ 3 ∷ []))))) [
          | none ↦ undefined
          | some units ↦ loaded (take (path_size - 1) (codes "c.json")) units
        ]
unfolding same_text
load_json_config-each_loaded_example =
    load_json_config-each_loaded json 0 1 (2 ∷ 3 ∷ []) (codes "c.json") refl refl

load_json_config_bounds_example :
    (length (codes "c.json") < path_size) × (1 ≤ max_inverter_count) × All IsBounded (unit1 ∷ [])
load_json_config_bounds_example =
    load_json_config_bounds json (some 0) (codes "c.json") (codes "c.json") (unit1 ∷ []) one_loaded

abbrev threads : ThreadCalls ℕ
threads = record {
  create_publisher = λ w. (w, pos 0);
  create_subscriber = λ w. (w, pos 11);
  create_unit = λ w u. (w, pos 0);
  cancel_subscriber = λ w. w;
  join_subscriber = λ w. w;
  join_publisher = λ w p. (w, p);
  join_unit = λ w u. w;
}

abbrev pub bridge : CmosBridge
bridge = record { publisher = publisher; bridge_running = false }
