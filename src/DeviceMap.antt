-- ===== src/DeviceMap.antt =====
-- lib/device_map: the register tables of the device units, and the pool that holds the last value
-- of each register. A pointer that may be null is an `Option`; the pool's lock is not modelled,
-- since each access holds it for the one step that it is here.
pub mod Find
pub mod Pool
pub mod Access
use loop_charger_inverter.Prelude.{
  ℕ, zero, suc, ◌+◌, ◌-◌, ◌/◌, ◌%◌, ◌^◌, Bool, true, false, ◌&&◌, ◌||◌, Option, none, some, List,
  [], ◌∷◌, get_elem?, get_or, take, ltb, leb, ◌==◌, if◌then◌else◌, bit_and, String,
}

abbrev pub internal_pool_size : ℕ
internal_pool_size = 65535

-- `register_access_t`.
pub data RegisterAccess : Type 0 where
  access_ro access_rw access_wo : RegisterAccess

-- `device_register_mapping_t`.
pub record Mapping : Type 0 where
  pub device_address : ℕ
  pub pool_address : ℕ
  pub access : RegisterAccess
  pub description : String

-- `device_map_profile_t`.
pub record Profile : Type 0 where
  pub name : String
  pub table : Option (List Mapping)
  pub table_count : ℕ
  pub read_chunk : ℕ

-- How the search of `device_find_slot` ends: at a row, with an empty range, with a read behind the
-- table, or not within the rounds allowed.
pub data Search : Type 0 where
  found : Mapping → Search
  absent fault out_of_rounds : Search

-- The loop of `device_find_slot` over `low` and `high`.
unfoldable pub search_loop : List Mapping → ℕ → ℕ → ℕ → ℕ → Search
search_loop table address zero low high = out_of_rounds
search_loop table address (suc rounds) low high =
    let mid = low + (high - low) / 2 in
    let right = search_loop table address rounds (mid + 1) high in
    let left = search_loop table address rounds low mid in
    if ltb low high
    then elim (get_elem? table mid) [
      | none ↦ fault
      | some row ↦
          if row.device_address == address
          then found row
          else if ltb row.device_address address
          then right
          else left
    ]
    else absent

abbrev pub row_found : Search → Option Mapping
row_found (found row) = some row
row_found _ = none

-- `device_find_slot`. A range of `table_count` rows is empty after as many rounds at the latest.
unfoldable pub device_find_slot : Option Profile → ℕ → Option Mapping
device_find_slot none address = none
device_find_slot (some profile) address = elim profile.table [
  | none ↦ none
  | some table ↦
      if profile.table_count == 0
      then none
      else row_found (search_loop table address (suc profile.table_count) 0 profile.table_count)
]

-- `internal_pool`, by its index. Every access of the program is guarded by the pool's size.
abbrev pub RegisterPool : Type 0
RegisterPool = ℕ → ℕ

abbrev pub store : RegisterPool → ℕ → ℕ → RegisterPool
store pool p v q = if p == q then v else pool q

-- `device_register_map_init`.
unfoldable pub device_register_map_init : RegisterPool
device_register_map_init p = 0

-- The body of the loop of `device_map_read_to_pool`.
unfoldable pub read_one : Profile → RegisterPool → ℕ → ℕ → RegisterPool
read_one profile pool dev_addr raw = elim (device_find_slot (some profile) dev_addr) [
  | none ↦ pool
  | some m ↦ if leb internal_pool_size m.pool_address then pool else store pool m.pool_address raw
]

-- Its loop from `i` on, with the rounds left. The buffer holds `read_count` registers.
unfoldable pub read_loop : Profile → List ℕ → ℕ → ℕ → ℕ → RegisterPool → RegisterPool
read_loop profile buffer start zero i pool = pool
read_loop profile buffer start (suc left) i pool =
    read_loop profile buffer start left (i + 1)
      (read_one profile pool ((start + i % 2 ^ 16) % 2 ^ 16) (get_or buffer i 0))

-- `device_map_read_to_pool`. A negative `read_count` does what 0 does, and stands for no rounds.
unfoldable pub device_map_read_to_pool :
    Option Profile → Option (List ℕ) → ℕ → ℕ → RegisterPool → RegisterPool
unfolding read_loop read_one
device_map_read_to_pool none buffer start read_count pool = pool
device_map_read_to_pool (some profile) none start read_count pool = pool
device_map_read_to_pool (some profile) (some buffer) start read_count pool = elim profile.table [
  | none ↦ pool
  | some table ↦
      if read_count == 0 || profile.table_count == 0
      then pool
      else read_loop profile buffer start read_count 0 pool
]

-- `pool_read_register`, into a pointer that is not null: the value, or `none` for false.
unfoldable pub pool_read_register : RegisterPool → ℕ → Option ℕ
pool_read_register pool p = if leb internal_pool_size p then none else some (pool p)

-- `pool_write_register`: the pool, and the result.
unfoldable pub pool_write_register : RegisterPool → ℕ → ℕ → RegisterPool × Bool
pool_write_register pool p v =
    if leb internal_pool_size p then (pool, false) else (store pool p v, true)

-- `pool_read_by_device_addr`.
unfoldable pub pool_read_by_device_addr : Option Profile → RegisterPool → ℕ → Option ℕ
unfolding pool_read_register
pool_read_by_device_addr profile pool address = elim (device_find_slot profile address) [
  | none ↦ none
  | some m ↦ pool_read_register pool m.pool_address
]

-- `pool_read_masked_by_device_addr`.
unfoldable pub pool_read_masked_by_device_addr : Option Profile → RegisterPool → ℕ → ℕ → Option ℕ
unfolding pool_read_by_device_addr
pool_read_masked_by_device_addr profile pool address mask =
    elim (pool_read_by_device_addr profile pool address) [
      | none ↦ none
      | some raw ↦ some (bit_and raw mask)
    ]

-- `pool_write_by_device_addr`.
unfoldable pub pool_write_by_device_addr :
    Option Profile → RegisterPool → ℕ → ℕ → RegisterPool × Bool
unfolding pool_write_register
pool_write_by_device_addr profile pool address v = elim (device_find_slot profile address) [
  | none ↦ (pool, false)
  | some m ↦ pool_write_register pool m.pool_address v
]

abbrev pub ex_illegal_function : ℕ
ex_illegal_function = 0x01

abbrev pub ex_illegal_data_address : ℕ
ex_illegal_data_address = 0x02

-- The two tests of `check_register_access_range` on a row.
unfoldable pub denies : RegisterAccess → RegisterAccess → Bool
denies access_ro access_wo = true
denies access_wo access_ro = true
denies _ _ = false

-- Its inner loop: the first row with this pool address decides; 0 lets the outer loop go on.
unfoldable pub check_slot : List Mapping → RegisterAccess → ℕ → ℕ
check_slot [] required pa = ex_illegal_data_address
check_slot (row ∷ rows) required pa =
    let rest = check_slot rows required pa in
    if row.pool_address == pa
    then (if denies required row.access then ex_illegal_function else 0)
    else rest

-- Its outer loop, `pa` a uint16_t. `none`: not ended within the rounds allowed.
unfoldable pub check_loop : List Mapping → RegisterAccess → ℕ → ℕ → ℕ → Option ℕ
check_loop rows required pool_end zero pa = none
check_loop rows required pool_end (suc rounds) pa =
    let rest = check_loop rows required pool_end rounds ((pa + 1) % 2 ^ 16) in
    let code = check_slot rows required pa in
    if leb pa pool_end then (if code == 0 then rest else some code) else some 0

-- `check_register_access_range`, with a bound on the rounds of its outer loop. The table has
-- `table_count` rows.
unfoldable pub check_register_access_range : ℕ → Option Profile → ℕ → ℕ → RegisterAccess → Option ℕ
unfolding check_loop check_slot denies
check_register_access_range rounds none pool_start count required = some ex_illegal_data_address
check_register_access_range rounds (some profile) pool_start count required = elim profile.table [
  | none ↦ some ex_illegal_data_address
  | some table ↦
      if count == 0
      then some ex_illegal_data_address
      else check_loop (take profile.table_count table) required ((pool_start + count - 1) % 2 ^ 16)
          rounds pool_start
]
