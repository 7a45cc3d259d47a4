-- ===== src/DeviceMap/Access.antt =====
-- What the answer of `check_register_access_range` of device_register_map.c means.
use loop_charger_inverter.Prelude.{le→leb, gt→leb, ==_iff}
use native.Mathlib.Nat.{le_refl}
use native.Mathlib.Decide.{ℕ_discrete}
use loop_charger_inverter.Prelude.{
  ℕ, zero, suc, ◌+◌, ◌-◌, ◌%◌, ◌^◌, ◌≤◌, ◌<◌, ◌≡◌, ◌↔◌, ◌≢◌, inl, inr, refl, false, Option, none,
  some, List, [], ◌∷◌, arith, length, take_all, subst, ◌==◌, if◌then◌else◌, Bool-cases,
}
use loop_charger_inverter.DeviceMap.{
  Mapping, Profile, RegisterAccess, access_ro, access_wo, access_rw, ex_illegal_function, denies,
  check_slot, check_loop, check_register_access_range,
}

abbrev pub row_of_pool : List Mapping → ℕ → Option Mapping
row_of_pool [] pa = none
row_of_pool (row ∷ rows) pa = if row.pool_address == pa then some row else row_of_pool rows pa

-- A register of this permission can be read.
abbrev pub CanRead : RegisterAccess → Type 0
CanRead access = access ≢ access_wo

abbrev pub CanWrite : RegisterAccess → Type 0
CanWrite access = access ≢ access_ro

-- What is asked, ACCESS_RO to read and ACCESS_WO to write, can be done with a register of this
-- permission; ACCESS_RW asks only that the register is mapped.
abbrev pub Allows : RegisterAccess → RegisterAccess → Type 0
Allows access_ro access = CanRead access
Allows access_wo access = CanWrite access
Allows access_rw access = Unit

-- The pool address is mapped, and the row's permission allows the access.
abbrev pub Permits : List Mapping → RegisterAccess → ℕ → Type 0
Permits rows required pa = (m : Mapping) × (row_of_pool rows pa ≡ some m) × Allows required m.access

denies-Allows :
    (required access : RegisterAccess) → (denies required access ≡ false) ↔ Allows required access
unfolding denies
denies-Allows access_ro access_ro = (λ e. λ h. cc, λ h. refl)
denies-Allows access_ro access_wo = (λ e. cc, λ h. absurd (h refl))
denies-Allows access_ro access_rw = (λ e. λ h. cc, λ h. refl)
denies-Allows access_wo access_ro = (λ e. cc, λ h. absurd (h refl))
denies-Allows access_wo access_wo = (λ e. λ h. cc, λ h. refl)
denies-Allows access_wo access_rw = (λ e. λ h. cc, λ h. refl)
denies-Allows access_rw access_ro = (λ e. tt, λ h. refl)
denies-Allows access_rw access_wo = (λ e. tt, λ h. refl)
denies-Allows access_rw access_rw = (λ e. tt, λ h. refl)

-- The answer of a slot that is mapped.
denies_cases :
    (required access : RegisterAccess)
    → ((if denies required access then ex_illegal_function else 0) ≡ 0) ↔ Allows required access
denies_cases required access = elim (Bool-cases (denies required access)) [
  | inl denied ↦
      rw denied (λ e. absurd (omega arith), λ h. absurd (cc ((denies-Allows required access).1 h)))
  | inr allowed ↦ rw allowed (λ e. (denies-Allows required access).0 allowed, λ h. refl)
]

check_slot-Permits :
    (rows : List Mapping) (required : RegisterAccess) (pa : ℕ)
    → (check_slot rows required pa ≡ 0) ↔ Permits rows required pa
unfolding check_slot
check_slot-Permits [] required pa = (λ e. absurd (omega arith), λ h. cc)
check_slot-Permits (row ∷ rows) required pa = elim (Bool-cases (row.pool_address == pa)) [
  | inl here ↦ rw here (
    λ e. (row, refl, (denies_cases required row.access).0 e),
    λ (m, same, allowed).
        let here_it_is : m ≡ row = cc in
        (denies_cases required row.access).1
          (subst (λ (x : Mapping). Allows required x.access) here_it_is allowed),
  )
  | inr other ↦ rw other (check_slot-Permits rows required pa)
]

-- The loop over slots that do not wrap ends, with 0 exactly when every slot permits the access.
check_loop_lem :
    (rows : List Mapping) (required : RegisterAccess) (left rounds pa pool_end : ℕ)
    → pa + left ≡ pool_end + 1
    → pool_end + 1 < 2 ^ 16
    → left < rounds
    → (code : ℕ) × (check_loop rows required pool_end rounds pa ≡ some code)
      × ((code ≡ 0) ↔ ((q : ℕ) → pa ≤ q → q ≤ pool_end → check_slot rows required q ≡ 0))
unfolding check_loop
check_loop_lem rows required left zero pa pool_end e h r = elim r [ ]
check_loop_lem rows required zero (suc rounds) pa pool_end e h r =
    (0, rw (gt→leb pa pool_end (omega arith)), (λ _ q lo hi. absurd (omega arith), λ _. refl))
check_loop_lem rows required (suc left) (suc rounds) pa pool_end e h r =
    elim (Bool-cases (check_slot rows required pa == 0)) [
      | inl clear ↦
          let zero_here : check_slot rows required pa ≡ 0 = (==_iff _ 0).0 clear in
          let (code, runs, means) =
            check_loop_lem rows required left rounds (pa + 1) pool_end (omega arith) (omega arith)
              (omega arith) in
          (
            code,
            rw (le→leb pa pool_end (omega arith), clear, wrap) runs,
            (
              λ z q lo hi. elim (ℕ_discrete pa q) [
                | yes same ↦ rw (← same) zero_here
                | no other ↦ means.0 z q (omega arith) hi
              ],
              λ all. means.1 (λ q lo hi. all q (omega arith) hi),
            ),
          )
      | inr denied ↦ (
        check_slot rows required pa,
        rw (le→leb pa pool_end (omega arith), denied),
        (
          λ z. absurd (cc ((==_iff (check_slot rows required pa) 0).1 z)),
          λ all. all pa (omega arith) (omega arith),
        ),
      )
    ]
  where
    wrap : (pa + 1) % 2 ^ 16 ≡ pa + 1
    wrap = omega arith

check_loop_past :
    (rows : List Mapping) (required : RegisterAccess) (pool_end rounds pa : ℕ)
    → pool_end < pa
    → 0 < rounds
    → check_loop rows required pool_end rounds pa ≡ some 0
unfolding check_loop
check_loop_past rows required pool_end zero pa h r = elim r [ ]
check_loop_past rows required pool_end (suc rounds) pa h r = rw (gt→leb pa pool_end h)

module _ (profile : Profile) (table : List Mapping) (has_table : profile.table ≡ some table)
    (counted : profile.table_count ≡ length table) (required : RegisterAccess)
    (start count rounds : ℕ) where
  -- For a profile whose table is there and counted right, and a range of slots below 0xFFFF
  -- that is not empty: the check ends within `count + 1` rounds, and its result is 0 exactly
  -- when every slot of the range is mapped with a permission that allows the access: not ACCESS_WO
  -- to read, not ACCESS_RO to write, and any for ACCESS_RW.
  pub check_register_access_range-Permits :
      0 < count
      → start + count < 2 ^ 16
      → count < rounds
      → (code : ℕ) × (check_register_access_range rounds (some profile) start count required
          ≡ some code)
        × ((code ≡ 0) ↔ ((pa : ℕ) → start ≤ pa → pa < start + count → Permits table required pa))
  unfolding check_register_access_range
  check_register_access_range-Permits pos fits enough =
      let (code, runs, means) =
        check_loop_lem table required count rounds start (start + count - 1) (omega arith)
          (omega arith) enough in
      (
        code,
        rw (has_table, counted, nonzero, take_all (length table) table (le_refl _), wrap) runs,
        (
          λ z pa lo hi. (check_slot-Permits table required pa).0 (means.0 z pa lo (omega arith)),
          λ all.
              means.1 (λ q lo hi. (check_slot-Permits table required q).1 (all q lo (omega arith))),
        ),
      )
    where
      nonzero : (count == 0) ≡ false
      nonzero = ground arith

      wrap : (start + count - 1) % 2 ^ 16 ≡ start + count - 1
      wrap = omega arith

  -- For a profile whose table is there and counted right: a range of 16-bit start and count
  -- that wraps round past 0xFFFF is let through, whatever the table holds.
  pub check_register_access_range_wrapped :
      start < 2 ^ 16
      → count < 2 ^ 16
      → 2 ^ 16 < start + count
      → 0 < rounds
      → check_register_access_range rounds (some profile) start count required ≡ some 0
  unfolding check_register_access_range
  check_register_access_range_wrapped hs hc wraps enough =
      rw (has_table, counted, nonzero)
        (check_loop_past _ required _ rounds start (omega arith) enough)
    where
      nonzero : (count == 0) ≡ false
      nonzero = ground arith
