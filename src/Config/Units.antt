-- ===== src/Config/Units.antt =====
-- The units that the configuration loader takes from the file.
use loop_charger_inverter.Prelude.{
  ℕ, zero, suc, if◌then◌else◌, ◌+◌, ◌-◌, ◌<◌, ◌≤◌, ◌≡◌, refl, sym, ap, subst, ◌∙◌, true, false,
  Option, none, some, List, [], ◌∷◌, ◌++◌, length, length-append, length-take-le, take, leb, All,
  arith, le→leb, gt→leb, Bool-cases, Option-cases, inl, inr,
}
use loop_charger_inverter.Cmos.Text.{codes}
use loop_charger_inverter.Config.{
  max_inverter_count, path_size, UnitConfig, JsonCalls, zeroed, Loaded, exited, undefined, loaded,
  load_module_config, is_enabled, load_loop, load_inverter_config, load_json_config,
}
use mathlib.Core.List.{append_assoc, append-nil}
use loop_charger_inverter.Config.Fields.{
  IsBounded, IfLoaded, short_end, load_module_config-IsBounded,
}

-- The units, if the behaviour is defined for each.
abbrev pub all_defined : List (Option UnitConfig) → Option (List UnitConfig)
all_defined [] = some []
all_defined (none ∷ units) = none
all_defined (some c ∷ units) = elim (all_defined units) [ none ↦ none | some cs ↦ some (c ∷ cs) ]

abbrev append_to : List UnitConfig → Option (List UnitConfig) → Option (List UnitConfig)
append_to units none = none
append_to units (some more) = some (units ++ more)

append_to-snoc :
    (units : List UnitConfig) (c : UnitConfig) (more : Option (List UnitConfig))
    → append_to (units ++ (c ∷ [])) more
      ≡ append_to units (elim more [ none ↦ none | some cs ↦ some (c ∷ cs) ])
append_to-snoc units c none = refl
append_to-snoc units c (some cs) = ap some (append_assoc units (c ∷ []) cs)

-- At most so many units, all of them bounded.
abbrev Bounds : ℕ → Option (List UnitConfig) → Type 0
Bounds n none = Unit
Bounds n (some cs) = (length cs ≤ n) × All IsBounded cs

Bounds-append_to :
    (k : ℕ) (o : Option (List UnitConfig))
    → k ≤ max_inverter_count
    → Bounds k o
    → Bounds max_inverter_count (append_to [] o)
Bounds-append_to k none h b = tt
Bounds-append_to k (some cs) h b = (omega (arith, b.0), b.1)

module _ {J : Type 0} (calls : JsonCalls J) where
  -- The entries that are enabled.
  abbrev pub enabled_entries : List J → List J
  enabled_entries [] = []
  enabled_entries (o ∷ objs) = elim (is_enabled calls o) [
    | true ↦ o ∷ enabled_entries objs
    | false ↦ enabled_entries objs
  ]

  -- Each entry loaded by itself.
  abbrev pub each_loaded : List J → List (Option UnitConfig)
  each_loaded [] = []
  each_loaded (o ∷ objs) = load_module_config calls o zeroed ∷ each_loaded objs

  all_defined-Bounds : (objs : List J) → Bounds (length objs) (all_defined (each_loaded objs))
  all_defined-Bounds [] = (omega arith, tt)
  all_defined-Bounds (o ∷ objs) = elim (Option-cases (load_module_config calls o zeroed)) [
    | inl e ↦ rw e tt
    | inr (c, e) ↦ rw e (elim (Option-cases (all_defined (each_loaded objs))) [
      | inl none_left ↦ rw none_left tt
      | inr (cs, more) ↦
          let rest = subst (Bounds (length objs)) more (all_defined-Bounds objs) in
          rw more (
            omega (arith, rest.0),
            (subst IfLoaded e (load_module_config-IsBounded calls o), rest.1),
          )
    ])
  ]

  -- An entry is appended, and the loop ends if it was the last.
  last_or_more :
      (c : UnitConfig) (objs : List J) (units : List UnitConfig) (n : ℕ)
      → length units + suc n ≡ max_inverter_count
      → ((m : ℕ)
          → length (units ++ (c ∷ [])) + suc m ≡ max_inverter_count
          → load_loop calls objs (units ++ (c ∷ []))
            ≡ append_to
                (units ++ (c ∷ []))
                (all_defined (each_loaded (take (suc m) (enabled_entries objs)))))
      → (if leb max_inverter_count (length units + 1)
          then some (units ++ (c ∷ []))
          else load_loop calls objs (units ++ (c ∷ [])))
        ≡ append_to units (all_defined (some c ∷ each_loaded (take n (enabled_entries objs))))
  last_or_more c objs units zero h more =
      rw (le→leb max_inverter_count (length units + 1) (omega arith)) refl
  last_or_more c objs units (suc n) h more =
      rw (gt→leb max_inverter_count (length units + 1) (omega arith))
        (more n (omega (arith, length-append units (c ∷ []))) ∙ append_to-snoc units c _)

  -- The loop with `n` entries left to fill.
  load_loop-all_defined :
      (objs : List J) (units : List UnitConfig) (n : ℕ)
      → length units + suc n ≡ max_inverter_count
      → load_loop calls objs units
        ≡ append_to units (all_defined (each_loaded (take (suc n) (enabled_entries objs))))
  unfolding load_loop
  load_loop-all_defined [] units n h = ap some (sym (append-nil units))
  load_loop-all_defined (o ∷ objs) units n h = elim (Bool-cases (is_enabled calls o)) [
    | inr e ↦ rw (load_loop, enabled_entries, e) (load_loop-all_defined objs units n h)
    | inl e ↦ elim (Option-cases (load_module_config calls o zeroed)) [
      | inl u ↦ rw (load_loop, enabled_entries, e, u) refl
      | inr (c, u) ↦
          rw (load_loop, enabled_entries, e, u)
            (last_or_more c objs units n h (λ m. load_loop-all_defined objs (units ++ (c ∷ [])) m))
    ]
  ]

  -- Where the file has an array `INVERTER`, the units are its first ten enabled entries, in order, each
  -- read by `load_module_config` into a cleared entry; the behaviour is defined exactly where it is for
  -- each of these.
  pub load_json_config-each_loaded :
      (json_config inverter_array : J) (objs : List J) (json_path : List ℕ)
      → calls.get_ex json_config (codes "INVERTER") ≡ some inverter_array
      → calls.array_elements inverter_array ≡ some objs
      → load_json_config calls (some json_config) json_path
        ≡ elim (all_defined (each_loaded (take max_inverter_count (enabled_entries objs)))) [
          | none ↦ undefined
          | some units ↦ loaded (take (path_size - 1) json_path) units
        ]
  unfolding load_json_config load_inverter_config
  load_json_config-each_loaded json_config inverter_array objs json_path found elements =
      rw (load_json_config, found, elements, load_loop-all_defined objs [] 9 refl)
        (started (all_defined (each_loaded (take max_inverter_count (enabled_entries objs)))))
    where
      started :
          (o : Option (List UnitConfig))
          → elim (append_to [] o) [
            | none ↦ undefined
            | some units ↦ loaded (take (path_size - 1) json_path) units
          ]
            ≡ elim o [
              | none ↦ undefined
              | some units ↦ loaded (take (path_size - 1) json_path) units
            ]
      started none = refl
      started (some units) = refl

  load_loop-Bounds : (objs : List J) → Bounds max_inverter_count (load_loop calls objs [])
  load_loop-Bounds objs =
      let entries = take max_inverter_count (enabled_entries objs) in
      rw (load_loop-all_defined objs [] 9 refl) (
        Bounds-append_to (length entries) (all_defined (each_loaded entries))
          (length-take-le max_inverter_count (enabled_entries objs)) (all_defined-Bounds entries))

  load_inverter_config-Bounds :
      (o : Option J) → Bounds max_inverter_count (load_inverter_config calls o)
  unfolding load_inverter_config
  load_inverter_config-Bounds none = (omega arith, tt)
  load_inverter_config-Bounds (some inverter_array) =
      elim (Option-cases (calls.array_elements inverter_array)) [
        | inl e ↦ rw (load_inverter_config, e) (omega arith, tt)
        | inr (objs, e) ↦ rw (load_inverter_config, e) (load_loop-Bounds objs)
      ]

  IsBoundedLoad : Loaded → Type 0
  IsBoundedLoad exited = Unit
  IsBoundedLoad undefined = Unit
  IsBoundedLoad (loaded config_path units) =
      (length config_path < path_size) × (length units ≤ max_inverter_count) × All IsBounded units

  load_json_config-IsBoundedLoad :
      (file : Option J) (json_path : List ℕ) → IsBoundedLoad (load_json_config calls file json_path)
  unfolding load_json_config IsBoundedLoad
  load_json_config-IsBoundedLoad none json_path = tt
  load_json_config-IsBoundedLoad (some json_config) json_path =
      let entry = calls.get_ex json_config (codes "INVERTER") in
      elim (Option-cases (load_inverter_config calls entry)) [
        | inl e ↦ rw (load_json_config, e) tt
        | inr (units, e) ↦
            let b = subst (Bounds max_inverter_count) e (load_inverter_config-Bounds entry) in
            rw (load_json_config, e) (short_end calls (path_size - 1) json_path, b.0, b.1)
      ]

  -- Whatever the file holds: when it is loaded, there are at most 10 units, and each text that was
  -- stored, the path of the file too, leaves room for the NUL in its array.
  pub load_json_config_bounds :
      (file : Option J) (json_path config_path : List ℕ) (units : List UnitConfig)
      → load_json_config calls file json_path ≡ loaded config_path units
      → (length config_path < path_size) × (length units ≤ max_inverter_count) × All IsBounded units
  unfolding IsBoundedLoad
  load_json_config_bounds file json_path config_path units e =
      subst IsBoundedLoad e (load_json_config-IsBoundedLoad file json_path)
