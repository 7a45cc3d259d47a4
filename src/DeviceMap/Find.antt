-- ===== src/DeviceMap/Find.antt =====
-- The binary search of `device_find_slot` of device_register_map.c against a lookup row by row.
use loop_charger_inverter.Prelude.{Bool-cases, ==_iff, ltb→lt}
use loop_charger_inverter.Prelude.{
  ℕ, zero, suc, ◌+◌, ◌-◌, ◌/◌, ◌≤◌, ◌<◌, ◌≡◌, ◌≢◌, ◌⊎◌, inl, inr, refl, false, Option, none, some,
  List, [], ◌∷◌, arith, length, get_elem?, get_elem?-some, ltb, ◌==◌, if◌then◌else◌,
}
use loop_charger_inverter.DeviceMap.{
  Mapping, Profile, found, absent, search_loop, row_found, device_find_slot,
}

-- Rows stand in the order of their device addresses, all different.
abbrev pub IsSorted : List Mapping → Type 0
IsSorted table =
    (i j : ℕ) (m n : Mapping)
    → i < j
    → get_elem? table i ≡ some m
    → get_elem? table j ≡ some n
    → m.device_address < n.device_address

module _ (table : List Mapping) (sorted : IsSorted table) (address : ℕ) where
  -- The row at `k` is in the range of the search.
  search_loop_hit :
      (rounds low high k : ℕ) (m : Mapping)
      → high - low < rounds
      → high ≤ length table
      → low ≤ k
      → k < high
      → get_elem? table k ≡ some m
      → m.device_address ≡ address
      → search_loop table address rounds low high ≡ found m
  unfolding search_loop
  search_loop_hit zero low high k m r hl lo hi e a = elim r [ ]
  search_loop_hit (suc rounds) low high k m r hl lo hi e a =
      let mid : ℕ = low + (high - low) / 2 in
      let (row, at) = get_elem?-some table mid (omega arith) in
      ground (
        arith,
        at,
        sorted k mid m row,
        sorted mid k row m,
        search_loop_hit rounds (mid + 1) high k m,
        search_loop_hit rounds low mid k m,
      )

  -- No row of the range has the address.
  search_loop_miss :
      (rounds low high : ℕ)
      → high - low < rounds
      → high ≤ length table
      → ((k : ℕ) (m : Mapping) → get_elem? table k ≡ some m → m.device_address ≢ address)
      → search_loop table address rounds low high ≡ absent
  unfolding search_loop
  search_loop_miss zero low high r hl nowhere_in = elim r [ ]
  search_loop_miss (suc rounds) low high r hl nowhere_in = elim (Bool-cases (ltb low high)) [
    | inr empty ↦ rw empty
    | inl more ↦
        let mid : ℕ = low + (high - low) / 2 in
        let lt : low < high = ltb→lt low high more in
        let (row, at) = get_elem?-some table mid (omega arith) in
        ground (
          arith,
          at,
          nowhere_in mid row,
          search_loop_miss rounds (mid + 1) high (omega arith) hl nowhere_in,
          search_loop_miss rounds low mid (omega arith) (omega arith) nowhere_in,
        )
  ]

-- The linear search that the binary search stands for.
abbrev pub lookup_row : List Mapping → ℕ → Option Mapping
lookup_row [] address = none
lookup_row (row ∷ rows) address =
    if row.device_address == address then some row else lookup_row rows address

lookup_row_cases :
    (table : List Mapping) (address : ℕ)
    → ((k : ℕ) × (m : Mapping) × (k < length table)
        × (get_elem? table k ≡ some m)
        × (m.device_address ≡ address)
        × (lookup_row table address ≡ some m))
      ⊎ (((k : ℕ) (m : Mapping) → get_elem? table k ≡ some m → m.device_address ≢ address)
          × (lookup_row table address ≡ none))
lookup_row_cases [] address = inr (λ k m e. cc, refl)
lookup_row_cases (row ∷ rows) address = elim (Bool-cases (row.device_address == address)) [
  | inl here ↦ inl (0, row, omega arith, refl, (==_iff row.device_address address).0 here, rw here)
  | inr other ↦ elim (lookup_row_cases rows address) [
    | inl (k, m, lt, at, a, found_at) ↦ inl (suc k, m, omega arith, at, a, rw other found_at)
    | inr (nowhere_in, nowhere) ↦ inr (not_in other nowhere_in, rw other nowhere)
  ]
]
  where
    not_in :
        (row.device_address == address) ≡ false
        → ((k : ℕ) (m : Mapping) → get_elem? rows k ≡ some m → m.device_address ≢ address)
        → (k : ℕ) (m : Mapping) → get_elem? (row ∷ rows) k ≡ some m
        → m.device_address ≢ address
    not_in other nowhere_in zero m e = ground arith
    not_in other nowhere_in (suc k) m e = nowhere_in k m e

-- A profile whose table is there, counted right and sorted.
pub record IsWellFormed (profile : Profile) (table : List Mapping) : Type 0 where
  pub has_table : profile.table ≡ some table
  pub counted : profile.table_count ≡ length table
  pub sorted : IsSorted table

-- On a sorted table the search ends within one round more than there are rows, without a read
-- behind the table: at the row of the address if there is one, and else at an empty range.
pub search_loop_lem :
    (table : List Mapping) (address : ℕ)
    → IsSorted table
    → search_loop table address (suc (length table)) 0 (length table)
      ≡ elim (lookup_row table address) [ none ↦ absent | some m ↦ found m ]
search_loop_lem table address sorted = elim (lookup_row_cases table address) [
  | inl (k, m, lt, at, a, e) ↦ rw e (
      search_loop_hit table sorted address _ 0 (length table) k m (omega arith) (omega arith)
        (omega arith) lt at a)
  | inr (nowhere_in, e) ↦ rw e (
      search_loop_miss table sorted address _ 0 (length table) (omega arith) (omega arith)
        nowhere_in)
]

-- `device_find_slot` on a well-formed profile is the linear lookup in its table.
pub device_find_slot-lookup_row :
    (profile : Profile) (table : List Mapping) (address : ℕ)
    → IsWellFormed profile table
    → device_find_slot (some profile) address ≡ lookup_row table address
unfolding device_find_slot
device_find_slot-lookup_row profile table address h =
    rw (h.has_table, h.counted) (rw (search_loop_lem table address h.sorted) (as_option table))
  where
    as_option :
        (rows : List Mapping)
        → (if length rows == 0
            then none
            else row_found (elim (lookup_row rows address) [ none ↦ absent | some m ↦ found m ]))
          ≡ lookup_row rows address
    as_option [] = refl
    as_option (row ∷ rows) = ground arith

-- The lookup finds a row of the table with the address asked for.
pub lookup_row-get_elem? :
    (table : List Mapping) (address : ℕ) {m : Mapping}
    → lookup_row table address ≡ some m
    → (m.device_address ≡ address) × ((k : ℕ) × (k < length table) × (get_elem? table k ≡ some m))
lookup_row-get_elem? table address {m} e = elim (lookup_row_cases table address) [
  | inl (k, n, lt, at, a, f) ↦ (ground arith, (k, lt, ground arith))
  | inr (_, f) ↦ absurd (cc)
]

-- On a sorted table every row is found at its address.
pub get_elem?-lookup_row :
    (table : List Mapping) (k : ℕ) (m : Mapping)
    → IsSorted table
    → get_elem? table k ≡ some m
    → lookup_row table m.device_address ≡ some m
get_elem?-lookup_row table k m sorted at = elim (lookup_row_cases table m.device_address) [
  | inl (j, n, lt, e, a, f) ↦ ground (arith, sorted j k n m, sorted k j m n)
  | inr (nowhere_in, f) ↦ absurd (nowhere_in k m at refl)
]
