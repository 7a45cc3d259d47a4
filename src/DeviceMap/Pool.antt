-- ===== src/DeviceMap/Pool.antt =====
-- What a read of the device leaves in the pool, and reads and writes by device address.
use loop_charger_inverter.Prelude.{gt→leb, le→leb, ==_refl}
use loop_charger_inverter.Prelude.{Bool-cases, get_elem?-none, ◌||◌}
use native.Mathlib.Decide.{ℕ_discrete}
use loop_charger_inverter.Prelude.{
  ℕ, zero, suc, ◌+◌, ◌%◌, ◌^◌, ◌≤◌, ◌<◌, ◌≡◌, ◌≢◌, inl, inr, refl, sym, ap, ◌∙◌, true, false,
  Option, none, some, List, arith, length, get_elem?, get_or, leb, ◌==◌, Option-cases, bit_and,
}
use loop_charger_inverter.DeviceMap.{
  Mapping, Profile, RegisterPool, store, internal_pool_size, device_find_slot, read_one, read_loop,
  device_map_read_to_pool, pool_read_by_device_addr, pool_read_masked_by_device_addr,
  pool_write_by_device_addr,
}
use loop_charger_inverter.DeviceMap.Find.{
  IsWellFormed, device_find_slot-lookup_row, lookup_row-get_elem?, get_elem?-lookup_row,
}

module _ (profile : Profile) (pool : RegisterPool) (address raw : ℕ) where
  read_one_self :
      (m : Mapping)
      → device_find_slot (some profile) address ≡ some m
      → m.pool_address < internal_pool_size
      → read_one profile pool address raw m.pool_address ≡ raw
  unfolding read_one
  read_one_self m e h = rw (e, read_one) (ground arith)

  read_one_other :
      (p : ℕ)
      → ((m : Mapping) → device_find_slot (some profile) address ≡ some m → m.pool_address ≢ p)
      → read_one profile pool address raw p ≡ pool p
  unfolding read_one
  read_one_other p h = elim (Option-cases (device_find_slot (some profile) address)) [
    | inl e ↦ rw (e, read_one)
    | inr (m, e) ↦ rw (e, read_one) (ground (arith, h m e))
  ]

module _ (profile : Profile) (buffer : List ℕ) (start : ℕ) where
  -- The row that round `j` of the loop writes through.
  abbrev slot_at : ℕ → Option Mapping
  slot_at j = device_find_slot (some profile) ((start + j % 2 ^ 16) % 2 ^ 16)

  -- A slot that no round writes keeps its value.
  read_loop_other :
      (p left i : ℕ) (pool : RegisterPool)
      → ((j : ℕ) (m : Mapping) → i ≤ j → j < i + left → slot_at j ≡ some m → m.pool_address ≢ p)
      → read_loop profile buffer start left i pool p ≡ pool p
  unfolding read_loop
  read_loop_other p zero i pool h = refl
  read_loop_other p (suc left) i pool h =
      read_loop_other p left (i + 1) (read_one profile pool _ (get_or buffer i 0))
        (λ j m lo hi. h j m (omega arith) (omega arith))
      ∙ read_one_other profile pool _ (get_or buffer i 0) p
          (λ m e. h i m (omega arith) (omega arith) e)

  -- The slot of round `j` gets register `j` of the buffer, if no other round writes it.
  read_loop_self :
      (j : ℕ) (m : Mapping)
      → slot_at j ≡ some m
      → m.pool_address < internal_pool_size
      → (left i : ℕ) (pool : RegisterPool) → i ≤ j
      → j < i + left
      → ((k : ℕ) (n : Mapping)
          → k ≢ j
          → i ≤ k
          → k < i + left
          → slot_at k ≡ some n
          → n.pool_address ≢ m.pool_address)
      → read_loop profile buffer start left i pool m.pool_address ≡ get_or buffer j 0
  unfolding read_loop
  read_loop_self j m e size zero i pool lo hi h = absurd (omega arith)
  read_loop_self j m e size (suc left) i pool lo hi h = elim (ℕ_discrete i j) [
    | yes same ↦
        read_loop_other m.pool_address left (i + 1) (read_one profile pool _ (get_or buffer i 0))
          (λ k n p q. h k n (omega arith) (omega arith) (omega arith))
        ∙ rw same (read_one_self profile pool _ (get_or buffer j 0) m e size)
    | no other ↦
        read_loop_self j m e size left (i + 1) _ (omega arith) (omega arith)
          (λ k n d p q. h k n d (omega arith) (omega arith))
  ]

-- Two rows with one pool address are one register.
abbrev pub IsInjective : List Mapping → Type 0
IsInjective table =
    (j k : ℕ) (m n : Mapping)
    → get_elem? table j ≡ some m
    → get_elem? table k ≡ some n
    → m.pool_address ≡ n.pool_address
    → m.device_address ≡ n.device_address

module _ {profile : Profile} {table : List Mapping} (wf : IsWellFormed profile table)
    (buffer : List ℕ) (start count : ℕ) (in_range : start + count ≤ 2 ^ 16)
    (pool : RegisterPool) where
  slot_address :
      (j : ℕ) (m : Mapping)
      → j < count
      → device_find_slot (some profile) ((start + j % 2 ^ 16) % 2 ^ 16) ≡ some m
      → (m.device_address ≡ start + j)
        × ((k : ℕ) × (k < length table) × (get_elem? table k ≡ some m))
  slot_address j m h e =
      let (a, at) =
        lookup_row-get_elem? table _ (sym (device_find_slot-lookup_row profile table _ wf) ∙ e) in
      (omega arith, at)

  enters :
      0 < count
      → (k : ℕ) (m : Mapping) → get_elem? table k ≡ some m
      → device_map_read_to_pool (some profile) (some buffer) start count pool
        ≡ read_loop profile buffer start count 0 pool
  unfolding device_map_read_to_pool
  enters h k m at = rw (wf.has_table, wf.counted) (ground (arith, get_elem?-none table k))

  -- On a well-formed profile, for a range within the 16-bit addresses: after a read of `count`
  -- registers from `start`, each mapped register of the range is in its slot of the pool, if
  -- that slot is inside the pool and no two rows share a slot.
  pub read_to_pool_mapped :
      IsInjective table
      → (k : ℕ) (m : Mapping) → get_elem? table k ≡ some m
      → m.pool_address < internal_pool_size
      → (i : ℕ) → i < count
      → m.device_address ≡ start + i
      → device_map_read_to_pool (some profile) (some buffer) start count pool m.pool_address
        ≡ get_or buffer i 0
  read_to_pool_mapped inj k m at size i hi e =
      ap (λ (f : RegisterPool). f m.pool_address) (enters (omega arith) k m at)
      ∙ read_loop_self profile buffer start i m slot_i size count 0 pool (omega arith) (omega arith)
          (λ j n d lo up f same.
            let (a, (l, _, there)) = slot_address j n (omega arith) f in
            d (omega (arith, inj l k n m there at same)))
    where
      slot_i : device_find_slot (some profile) ((start + i % 2 ^ 16) % 2 ^ 16) ≡ some m
      slot_i =
          ap (device_find_slot (some profile)) (omega arith)
          ∙ device_find_slot-lookup_row profile table m.device_address wf
          ∙ get_elem?-lookup_row table k m wf.sorted at

  -- On a well-formed profile, for a range within the 16-bit addresses: a slot of the pool that
  -- no row of the range owns keeps its value.
  pub read_to_pool_other :
      (p : ℕ)
      → ((k : ℕ) (m : Mapping)
          → get_elem? table k ≡ some m
          → start ≤ m.device_address
          → m.device_address < start + count
          → m.pool_address ≢ p)
      → device_map_read_to_pool (some profile) (some buffer) start count pool p ≡ pool p
  unfolding device_map_read_to_pool
  read_to_pool_other p h = elim (Bool-cases (count == 0 || profile.table_count == 0)) [
    | inl nothing ↦ rw wf.has_table (rw nothing)
    | inr some_rows ↦ rw wf.has_table (
        rw some_rows (
          read_loop_other profile buffer start p count 0 pool (λ j m lo hi f.
            let (a, (k, _, there)) = slot_address j m (omega arith) f in
            h k m there (omega arith) (omega arith))))
  ]

-- A write by device address of an address that is mapped into the pool succeeds and changes the
-- pool at its slot alone; a read of the address then gives the value written, raw or masked.
pub pool_write_by_device_addr_ok :
    (profile : Option Profile) (pool : RegisterPool) (address v mask : ℕ) (m : Mapping)
    → device_find_slot profile address ≡ some m
    → m.pool_address < internal_pool_size
    → let (pool', done) = pool_write_by_device_addr profile pool address v in
      (done ≡ true)
      × (pool_read_by_device_addr profile pool' address ≡ some v)
      × (pool_read_masked_by_device_addr profile pool' address mask ≡ some (bit_and v mask))
      × (pool' ≡ store pool m.pool_address v)
unfolding pool_write_by_device_addr pool_read_masked_by_device_addr pool_read_by_device_addr
pool_write_by_device_addr_ok profile pool address v mask m f size =
    rw write_eq (refl, read_eq, rw (read_eq, pool_read_masked_by_device_addr), refl)
  where
    size_ok : leb internal_pool_size m.pool_address ≡ false
    size_ok = gt→leb internal_pool_size m.pool_address size

    write_eq :
        pool_write_by_device_addr profile pool address v ≡ (store pool m.pool_address v, true)
    write_eq = rw (f, pool_write_by_device_addr) (rw size_ok)

    read_eq : pool_read_by_device_addr profile (store pool m.pool_address v) address ≡ some v
    read_eq = rw (f, pool_read_by_device_addr) (rw (size_ok, ==_refl m.pool_address))

-- Where the address is not mapped, or its slot is outside the pool, a write by device address
-- reports false and changes nothing, and a read reports that there is no value.
pub pool_by_device_addr_none :
    (profile : Option Profile) (pool : RegisterPool) (address v : ℕ)
    → ((m : Mapping)
        → device_find_slot profile address ≡ some m
        → internal_pool_size ≤ m.pool_address)
    → (pool_write_by_device_addr profile pool address v ≡ (pool, false))
      × (pool_read_by_device_addr profile pool address ≡ none)
unfolding pool_write_by_device_addr pool_read_by_device_addr
pool_by_device_addr_none profile pool address v h =
    elim (Option-cases (device_find_slot profile address)) [
      | inl f ↦ rw (f, pool_write_by_device_addr, pool_read_by_device_addr) (refl, refl)
      | inr (m, f) ↦
          rw (f, pool_write_by_device_addr, pool_read_by_device_addr)
            (rw (le→leb internal_pool_size m.pool_address (h m f)) (refl, refl))
    ]
