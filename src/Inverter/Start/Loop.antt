-- ===== src/Inverter/Start/Loop.antt =====
-- The units that the loop of `start_inverter_modules` leaves running.
use mathlib.Core.List.{append_assoc, append-nil}
use loop_charger_inverter.Prelude.{
  ◌≤◌, ◌≡◌, refl, sym, ap, subst, ◌∙◌, ◌⊎◌, inl, inr, true, false, none, some, List, [], ◌∷◌, ◌++◌,
  map, length, All, arith, Bool-cases, Option-cases,
}
use loop_charger_inverter.Prelude.Int.{ℤ, pos, negsuc, eq_pos, is_neg}
use loop_charger_inverter.DeviceMap.{Profile}
use loop_charger_inverter.Config.{UnitConfig}
use loop_charger_inverter.Inverter.Map.{inverter_find_profile_by_uid}
use loop_charger_inverter.Inverter.Start.{RunningUnit, ThreadCalls, to_uint8, new_unit, start_loop}

-- A unit as its thread finds it: of an enabled configuration, with the profile of its uid, no command
-- queued, no failure counted, and its port closed.
abbrev pub IsFresh : RunningUnit → Type 0
IsFresh u =
    (u.cfg.enabled ≡ true)
    × (inverter_find_profile_by_uid (to_uint8 u.cfg.modbus_uid) ≡ some u.unit.profile)
    × (u.running ≡ true)
    × (u.unit.cmd_queue.count ≡ 0)
    × (u.unit.comm_fail_count ≡ 0)
    × (is_neg u.unit.rtu_ctx.fd ≡ true)

abbrev pub enabled_configs : List UnitConfig → List UnitConfig
enabled_configs [] = []
enabled_configs (c ∷ cs) = elim c.enabled [
  | true ↦ c ∷ enabled_configs cs
  | false ↦ enabled_configs cs
]

enabled_configs-kept :
    (c : UnitConfig) (configs : List UnitConfig)
    → c.enabled ≡ true
    → enabled_configs (c ∷ configs) ≡ c ∷ enabled_configs configs
enabled_configs-kept c configs e = simp (enabled_configs, e)

-- The loop has added fresh units, and all that are enabled if its status is 0.
pub record Adds (before after : List RunningUnit) (configs : List UnitConfig) (status : ℤ)
    : Type 0 where
  pub added : List RunningUnit
  pub split : after ≡ before ++ added
  pub fresh : All IsFresh added
  pub few : length added ≤ length configs
  pub complete :
      ((status ≡ pos 0) × (map (λ u. u.cfg) added ≡ enabled_configs configs)) ⊎ (status ≡ negsuc 0)

skipped-Adds :
    (c : UnitConfig) {units after : List RunningUnit} {configs : List UnitConfig} {status : ℤ}
    → c.enabled ≡ false
    → Adds units after configs status
    → Adds units after (c ∷ configs) status
skipped-Adds c e a = record {
  added = a.added;
  split = a.split;
  fresh = a.fresh;
  few = omega (arith, a.few);
  complete = elim a.complete [
    | inl (ok, all) ↦ inl (ok, rw (enabled_configs, e) all)
    | inr failed ↦ inr failed
  ];
}

failed-Adds :
    (c : UnitConfig) {units after : List RunningUnit} {configs : List UnitConfig} {status : ℤ}
    → status ≡ negsuc 0
    → Adds units after configs status
    → Adds units after (c ∷ configs) status
failed-Adds c e a = record {
  added = a.added;
  split = a.split;
  fresh = a.fresh;
  few = omega (arith, a.few);
  complete = inr e;
}

kept-Adds :
    (c : UnitConfig) (profile : Profile) {units after : List RunningUnit}
    {configs : List UnitConfig} {status : ℤ}
    → c.enabled ≡ true
    → inverter_find_profile_by_uid (to_uint8 c.modbus_uid) ≡ some profile
    → Adds (units ++ (new_unit c profile ∷ [])) after configs status
    → Adds units after (c ∷ configs) status
kept-Adds c profile {units} {after} {configs} e found a = record {
  added = new_unit c profile ∷ a.added;
  split = a.split ∙ append_assoc units (new_unit c profile ∷ []) a.added;
  fresh = ((e, found, refl, refl, refl, refl), a.fresh);
  few = omega (arith, a.few);
  complete = elim a.complete [
    | inl (ok, all) ↦ inl (ok, ap (λ l. c ∷ l) all ∙ sym (enabled_configs-kept c configs e))
    | inr failed ↦ inr failed
  ];
}

module _ {W : Type 0} (threads : ThreadCalls W) where
  module _ (c : UnitConfig) (configs : List UnitConfig) (e : c.enabled ≡ true) (w : W)
      (units : List RunningUnit) (status : ℤ) where
    start_loop-no_profile :
        inverter_find_profile_by_uid (to_uint8 c.modbus_uid) ≡ none
        → start_loop threads w units status (c ∷ configs)
          ≡ start_loop threads w units (negsuc 0) configs
    unfolding start_loop
    start_loop-no_profile p = simp (start_loop, e, p)

    module _ (profile : Profile)
        (p : inverter_find_profile_by_uid (to_uint8 c.modbus_uid) ≡ some profile) where
      start_loop-created :
          eq_pos (threads.create_unit w (new_unit c profile)).1 0 ≡ true
          → start_loop threads w units status (c ∷ configs)
            ≡ start_loop threads
                (threads.create_unit w (new_unit c profile)).0
                (units ++ (new_unit c profile ∷ []))
                status
                configs
      unfolding start_loop
      start_loop-created made = simp (start_loop, e, p, made)

      start_loop-not_created :
          eq_pos (threads.create_unit w (new_unit c profile)).1 0 ≡ false
          → start_loop threads w units status (c ∷ configs)
            ≡ start_loop threads
                (threads.create_unit w (new_unit c profile)).0
                units
                (negsuc 0)
                configs
      unfolding start_loop
      start_loop-not_created failed = simp (start_loop, e, p, failed)

  -- A status of -1 stays.
  start_loop-refused :
      (configs : List UnitConfig) (w : W) (units : List RunningUnit)
      → (start_loop threads w units (negsuc 0) configs).2 ≡ negsuc 0
  unfolding start_loop
  start_loop-refused [] w units = refl
  start_loop-refused (c ∷ configs) w units = elim (Bool-cases c.enabled) [
    | inr e ↦ rw (start_loop, e) (start_loop-refused configs w units)
    | inl e ↦ elim (Option-cases (inverter_find_profile_by_uid (to_uint8 c.modbus_uid))) [
      | inl p ↦
          ap (λ r. r.2) (start_loop-no_profile c configs e w units (negsuc 0) p)
          ∙ start_loop-refused configs w units
      | inr (profile, p) ↦
          let w' = (threads.create_unit w (new_unit c profile)).0 in
          elim (Bool-cases (eq_pos (threads.create_unit w (new_unit c profile)).1 0)) [
            | inl made ↦
                ap (λ r. r.2) (start_loop-created c configs e w units (negsuc 0) profile p made)
                ∙ start_loop-refused configs w' (units ++ (new_unit c profile ∷ []))
            | inr failed ↦
                ap (λ r. r.2)
                  (start_loop-not_created c configs e w units (negsuc 0) profile p failed)
                ∙ start_loop-refused configs w' units
          ]
    ]
  ]

  pub start_loop-Adds :
      (configs : List UnitConfig) (w : W) (units : List RunningUnit) (status : ℤ)
      → (status ≡ pos 0) ⊎ (status ≡ negsuc 0)
      → Adds units
          (start_loop threads w units status configs).1
          configs
          (start_loop threads w units status configs).2
  unfolding start_loop
  start_loop-Adds [] w units status s = record {
    added = [];
    split = sym (append-nil units);
    fresh = tt;
    few = omega arith;
    complete = elim s [ inl e ↦ inl (e, refl) | inr e ↦ inr e ];
  }
  start_loop-Adds (c ∷ configs) w units status s = elim (Bool-cases c.enabled) [
    | inr e ↦ simp (start_loop, e) (skipped-Adds c e (start_loop-Adds configs w units status s))
    | inl e ↦ elim (Option-cases (inverter_find_profile_by_uid (to_uint8 c.modbus_uid))) [
      | inl p ↦
          subst (λ r. Adds units r.1 (c ∷ configs) r.2)
            (sym (start_loop-no_profile c configs e w units status p))
            (failed-Adds c (start_loop-refused configs w units)
              (start_loop-Adds configs w units (negsuc 0) (inr refl)))
      | inr (profile, p) ↦
          let w' = (threads.create_unit w (new_unit c profile)).0 in
          elim (Bool-cases (eq_pos (threads.create_unit w (new_unit c profile)).1 0)) [
            | inl made ↦
                subst (λ r. Adds units r.1 (c ∷ configs) r.2)
                  (sym (start_loop-created c configs e w units status profile p made))
                  (kept-Adds c profile e p
                    (start_loop-Adds configs w' (units ++ (new_unit c profile ∷ [])) status s))
            | inr failed ↦
                subst (λ r. Adds units r.1 (c ∷ configs) r.2)
                  (sym (start_loop-not_created c configs e w units status profile p failed))
                  (failed-Adds c (start_loop-refused configs w' units)
                    (start_loop-Adds configs w' units (negsuc 0) (inr refl)))
          ]
    ]
  ]
