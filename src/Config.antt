-- ===== src/Config.antt =====
-- src/config_loader.c. The JSON library is a parameter: a type `J` of values, with the calls that the
-- file makes on them. A text is a list of bytes; reading a text from a value that has none gives a
-- null pointer, which the file passes to `strncpy` or `strcmp`: there the behaviour is undefined.
pub mod Fields
pub mod Units
use loop_charger_inverter.Prelude.{
  ℕ, ◌+◌, ◌-◌, Bool, true, false, ◌||◌, Option, none, some, List, [], ◌∷◌, ◌++◌, length, take, leb,
  if◌then◌else◌, String,
}
use loop_charger_inverter.Prelude.Int.{ℤ, pos}
use loop_charger_inverter.Cmos.Text.{codes, same_text}

abbrev pub max_inverter_count : ℕ
max_inverter_count = 10

-- `sizeof` of the arrays of `module_config_t`, and of `global_config_path`.
abbrev pub unit_name_size : ℕ
unit_name_size = 64

abbrev pub path_size : ℕ
path_size = 256

abbrev pub short_size : ℕ
short_size = 16

pub data ModbusFormat : Type 0 where
  modbus_format_rtu modbus_format_tcp : ModbusFormat

-- The fields of `module_config_t` that the loader writes; its `disconnect_timeout` is always 0.
pub record UnitConfig : Type 0 where
  pub name : List ℕ
  pub enabled : Bool
  pub is_server : Bool
  pub modbus_uid : ℤ
  pub format : ModbusFormat
  pub path : List ℕ
  pub gpio : List ℕ
  pub baud_rate : ℤ
  pub modbus_role : List ℕ
  pub rtu_poll_interval_ms : ℕ

-- The calls of json-c: `json_object_object_get_ex`, which finds nothing in a value that is no object;
-- those named like these fields; and the elements of a value of type array.
pub record JsonCalls (J : Type 0) : Type 0 where
  pub get_ex : J → List ℕ → Option J
  pub get_string : J → Option (List ℕ)
  pub get_boolean : J → Bool
  pub get_int : J → ℤ
  pub array_elements : J → Option (List J)

-- An entry after the `memset` of `load_json_config`.
abbrev pub zeroed : UnitConfig
zeroed = record {
  name = [];
  enabled = false;
  is_server = false;
  modbus_uid = pos 0;
  format = modbus_format_rtu;
  path = [];
  gpio = [];
  baud_rate = pos 0;
  modbus_role = [];
  rtu_poll_interval_ms = 0;
}

unfoldable pub parse_modbus_format : List ℕ → ModbusFormat
parse_modbus_format text =
    if same_text text (codes "RTU")
    then modbus_format_rtu
    else if same_text text (codes "TCP")
    then modbus_format_tcp
    else modbus_format_rtu

unfoldable pub parse_modbus_role : List ℕ → Bool
parse_modbus_role role =
    if same_text role (codes "Server") || same_text role (codes "Master") then true else false

-- What `load_json_config` does: it exits, has no defined behaviour, or sets the path and the
-- configured units.
pub data Loaded : Type 0 where
  exited : Loaded
  undefined : Loaded
  loaded : (config_path : List ℕ) (inverter : List UnitConfig) → Loaded

module _ {J : Type 0} (calls : JsonCalls J) where
  -- One `if` of `load_module_config`: a field that is not there leaves the configuration.
  unfoldable pub load_field :
      J → String → (J → UnitConfig → Option UnitConfig) → Option UnitConfig → Option UnitConfig
  load_field obj key assign none = none
  load_field obj key assign (some config) = elim (calls.get_ex obj (codes key)) [
    | none ↦ some config
    | some field ↦ assign field config
  ]

  -- The use of `json_object_get_string(field)`.
  unfoldable pub with_text : (List ℕ → UnitConfig → UnitConfig) → J → UnitConfig → Option UnitConfig
  with_text assign field config = elim (calls.get_string field) [
    | none ↦ none
    | some text ↦ some (assign text config)
  ]

  -- `load_module_config`, for an object that is there; `none` where its behaviour is undefined.
  unfoldable pub load_module_config : J → UnitConfig → Option UnitConfig
  unfolding load_field
  load_module_config obj config =
      let named =
        load_field obj "name"
          (with_text (λ text c. record c { name = take (unit_name_size - 1) text }))
          (some config) in
      let with_enabled =
        load_field obj "enabled" (λ field c. some (record c { enabled = calls.get_boolean field }))
          named in
      let with_uid =
        load_field obj "modbus_uid"
          (λ field c. some (record c { modbus_uid = calls.get_int field })) with_enabled in
      let with_format =
        load_field obj "modbus_format"
          (with_text (λ text c. record c { format = parse_modbus_format text })) with_uid in
      let with_role =
        load_field obj "modbus_role"
          (with_text (λ text c. record c {
            modbus_role = take (short_size - 1) text;
            is_server = parse_modbus_role (take (short_size - 1) text);
          }))
          with_format in
      let with_path =
        load_field obj "path" (with_text (λ text c. record c { path = take (path_size - 1) text }))
          with_role in
      let with_baud =
        load_field obj "baud_rate" (λ field c. some (record c { baud_rate = calls.get_int field }))
          with_path in
      let with_gpio =
        load_field obj "gpio" (with_text (λ text c. record c { gpio = take (short_size - 1) text }))
          with_baud in
      elim with_gpio [ none ↦ none | some c ↦ some (record c { rtu_poll_interval_ms = 200 }) ]

  -- The entry is there, has the field `enabled`, and the field is true.
  unfoldable pub is_enabled : J → Bool
  is_enabled inv_obj = elim (calls.get_ex inv_obj (codes "enabled")) [
    | none ↦ false
    | some enabled_obj ↦ calls.get_boolean enabled_obj
  ]

  -- The loop of `load_inverter_config`, with the units loaded so far.
  unfoldable pub load_loop : List J → List UnitConfig → Option (List UnitConfig)
  load_loop [] units = some units
  load_loop (inv_obj ∷ objs) units = elim (is_enabled inv_obj) [
    | false ↦ load_loop objs units
    | true ↦ elim (load_module_config inv_obj zeroed) [
      | none ↦ none
      | some config ↦
          let more = load_loop objs (units ++ (config ∷ [])) in
          if leb max_inverter_count (length units + 1) then some (units ++ (config ∷ [])) else more
    ]
  ]

  -- `load_inverter_config`, on a configuration that was cleared; a null pointer is `none`.
  unfoldable pub load_inverter_config : Option J → Option (List UnitConfig)
  unfolding load_loop
  load_inverter_config none = some []
  load_inverter_config (some inverter_array) = elim (calls.array_elements inverter_array) [
    | none ↦ some []
    | some objs ↦ load_loop objs []
  ]

  -- `load_json_config`, on what `json_object_from_file` returns.
  unfoldable pub load_json_config : Option J → List ℕ → Loaded
  unfolding load_inverter_config
  load_json_config none json_path = exited
  load_json_config (some json_config) json_path =
      elim (load_inverter_config (calls.get_ex json_config (codes "INVERTER"))) [
        | none ↦ undefined
        | some units ↦ loaded (take (path_size - 1) json_path) units
      ]
