-- ===== src/Config/Fields.antt =====
-- The texts of a configuration and the arrays that they are stored in.
use loop_charger_inverter.Prelude.{
  ℕ, ◌+◌, ◌<◌, Option, none, some, List, length, length-take-le, take, arith, String, Option-cases,
  inl, inr,
}
use loop_charger_inverter.Cmos.Text.{codes}
use loop_charger_inverter.Config.{
  unit_name_size, path_size, short_size, UnitConfig, JsonCalls, zeroed, load_field, with_text,
  load_module_config,
}

-- The texts fit the arrays of `module_config_t`, with their ends.
abbrev pub IsBounded : UnitConfig → Type 0
IsBounded c =
    (length c.name < unit_name_size)
    × (length c.path < path_size)
    × (length c.gpio < short_size)
    × (length c.modbus_role < short_size)

abbrev pub IfLoaded : Option UnitConfig → Type 0
IfLoaded none = Unit
IfLoaded (some c) = IsBounded c

module _ {J : Type 0} (calls : JsonCalls J) where
  with_text-IsBounded :
      (assign : List ℕ → UnitConfig → UnitConfig) (field : J) (c : UnitConfig)
      → ((text : List ℕ) (d : UnitConfig) → IsBounded d → IsBounded (assign text d))
      → IsBounded c
      → IfLoaded (with_text calls assign field c)
  unfolding with_text
  with_text-IsBounded assign field c keeps b = elim (Option-cases (calls.get_string field)) [
    | inl e ↦ rw (with_text, e) tt
    | inr (text, e) ↦ rw (with_text, e) (keeps text c b)
  ]

  load_field-IsBounded :
      (obj : J) (key : String) (assign : J → UnitConfig → Option UnitConfig) (o : Option UnitConfig)
      → ((field : J) (c : UnitConfig) → IsBounded c → IfLoaded (assign field c))
      → IfLoaded o
      → IfLoaded (load_field calls obj key assign o)
  unfolding load_field
  load_field-IsBounded obj key assign none keeps b = tt
  load_field-IsBounded obj key assign (some c) keeps b =
      elim (Option-cases (calls.get_ex obj (codes key))) [
        | inl e ↦ rw (load_field, e) b
        | inr (field, e) ↦ rw (load_field, e) (keeps field c b)
      ]

  pub short_end : (n : ℕ) (text : List ℕ) → length (take n text) < n + 1
  short_end n text = omega (arith, length-take-le n text)

  text_field :
      (obj : J) (key : String) (assign : List ℕ → UnitConfig → UnitConfig) (o : Option UnitConfig)
      → ((text : List ℕ) (d : UnitConfig) → IsBounded d → IsBounded (assign text d))
      → IfLoaded o
      → IfLoaded (load_field calls obj key (with_text calls assign) o)
  text_field obj key assign o keeps b =
      load_field-IsBounded obj key (with_text calls assign) o
        (λ field c. with_text-IsBounded assign field c keeps) b

  polled :
      (o : Option UnitConfig)
      → IfLoaded o
      → IfLoaded (elim o [ none ↦ none | some c ↦ some (record c { rtu_poll_interval_ms = 200 }) ])
  polled none b = tt
  polled (some c) b = b

  pub load_module_config-IsBounded : (obj : J) → IfLoaded (load_module_config calls obj zeroed)
  unfolding load_module_config
  load_module_config-IsBounded obj = polled _ (
      text_field obj "gpio" _ _ (λ text d b. (b.0, b.1, short_end 15 text, b.3))
        (load_field-IsBounded obj "baud_rate" _ _ (λ field d b. b)
          (text_field obj "path" _ _ (λ text d b. (b.0, short_end 255 text, b.2, b.3))
            (text_field obj "modbus_role" _ _ (λ text d b. (b.0, b.1, b.2, short_end 15 text))
              (text_field obj "modbus_format" _ _ (λ text d b. b)
                (load_field-IsBounded obj "modbus_uid" _ _ (λ field d b. b)
                  (load_field-IsBounded obj "enabled" _ _ (λ field d b. b)
                    (text_field obj "name" _ (some zeroed)
                      (λ text d b. (short_end 63 text, b.1, b.2, b.3))
                      ((omega arith, omega arith, omega arith, omega arith))))))))))
