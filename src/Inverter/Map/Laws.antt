-- ===== src/Inverter/Map/Laws.antt =====
-- The table of unit 1 against what the lookup expects of a table.
use loop_charger_inverter.Prelude.{
  ℕ, zero, suc, ◌≡◌, ◌≢◌, ◌<◌, refl, none, some, List, [], ◌∷◌, get_elem?, arith, ltb, Bool, true,
  not, ◌==◌, ◌&&◌,
}
use loop_charger_inverter.DeviceMap.{Mapping, internal_pool_size}
use loop_charger_inverter.DeviceMap.Pool.{IsInjective}
use loop_charger_inverter.DeviceMap.Find.{IsSorted, IsWellFormed}
use loop_charger_inverter.Inverter.Map.{
  inverter1_mapping_table, inverter1_profile, inverter_find_profile_by_uid,
}

-- Every row of the table stands above `bound`, in order.
abbrev pub ascending : ℕ → List Mapping → Bool
ascending bound [] = true
ascending bound (m ∷ rows) = ltb bound m.device_address && ascending m.device_address rows

ascending_above :
    (rows : List Mapping) (bound j : ℕ) (n : Mapping)
    → ascending bound rows ≡ true
    → get_elem? rows j ≡ some n
    → bound < n.device_address
ascending_above [] bound j n a at = ground arith
ascending_above (m ∷ rows) bound zero n a at = ground arith
ascending_above (m ∷ rows) bound (suc j) n a at =
    ground (arith, ascending_above rows m.device_address j n)

pub ascending-IsSorted :
    (rows : List Mapping) (bound : ℕ) → ascending bound rows ≡ true → IsSorted rows
ascending-IsSorted [] bound a i j m n lt at_i at_j = ground arith
ascending-IsSorted (r ∷ rows) bound a zero zero m n lt at_i at_j = ground arith
ascending-IsSorted (r ∷ rows) bound a zero (suc j) m n lt at_i at_j =
    ground (arith, ascending_above rows r.device_address j n)
ascending-IsSorted (r ∷ rows) bound a (suc i) zero m n lt at_i at_j = ground arith
ascending-IsSorted (r ∷ rows) bound a (suc i) (suc j) m n lt at_i at_j =
    ascending-IsSorted rows r.device_address (ground arith) i j m n (omega arith) at_i at_j

pub inverter1_profile-IsWellFormed : IsWellFormed inverter1_profile inverter1_mapping_table
inverter1_profile-IsWellFormed = record {
  has_table = refl;
  counted = refl;
  sorted = ascending-IsSorted inverter1_mapping_table 0 refl;
}

-- Unit 1 has the profile of inverter_map.c, and no other uid has one.
pub inverter_find_profile_by_uid_lem :
    (uid : ℕ)
    → (inverter_find_profile_by_uid 1 ≡ some inverter1_profile)
      × (uid ≢ 1 → inverter_find_profile_by_uid uid ≡ none)
unfolding inverter_find_profile_by_uid
inverter_find_profile_by_uid_lem uid = (refl, λ d. ground arith)

-- No row of the table has this slot of the pool.
abbrev unused : ℕ → List Mapping → Bool
unused slot [] = true
unused slot (m ∷ rows) = not (m.pool_address == slot) && unused slot rows

abbrev pub own_slots : List Mapping → Bool
own_slots [] = true
own_slots (m ∷ rows) = unused m.pool_address rows && own_slots rows

unused-get_elem? :
    (slot : ℕ) (rows : List Mapping) (j : ℕ) (n : Mapping)
    → unused slot rows ≡ true
    → get_elem? rows j ≡ some n
    → n.pool_address ≢ slot
unused-get_elem? slot [] j n u at = ground arith
unused-get_elem? slot (m ∷ rows) zero n u at = ground arith
unused-get_elem? slot (m ∷ rows) (suc j) n u at = unused-get_elem? slot rows j n (ground arith) at

pub own_slots-IsInjective : (rows : List Mapping) → own_slots rows ≡ true → IsInjective rows
own_slots-IsInjective [] o j k m n at_j at_k e = ground arith
own_slots-IsInjective (r ∷ rows) o zero zero m n at_j at_k e = ground arith
own_slots-IsInjective (r ∷ rows) o zero (suc k) m n at_j at_k e =
    ground (arith, unused-get_elem? r.pool_address rows k n)
own_slots-IsInjective (r ∷ rows) o (suc j) zero m n at_j at_k e =
    ground (arith, unused-get_elem? r.pool_address rows j m)
own_slots-IsInjective (r ∷ rows) o (suc j) (suc k) m n at_j at_k e =
    own_slots-IsInjective rows (ground arith) j k m n at_j at_k e

-- Every row has its slot inside the pool.
abbrev pub slots_inside : List Mapping → Bool
slots_inside [] = true
slots_inside (m ∷ rows) = ltb m.pool_address internal_pool_size && slots_inside rows

pub slots_inside-get_elem? :
    (rows : List Mapping) (k : ℕ) (m : Mapping)
    → slots_inside rows ≡ true
    → get_elem? rows k ≡ some m
    → m.pool_address < internal_pool_size
slots_inside-get_elem? [] k m s at = ground arith
slots_inside-get_elem? (r ∷ rows) zero m s at = ground arith
slots_inside-get_elem? (r ∷ rows) (suc k) m s at = slots_inside-get_elem? rows k m (ground arith) at
