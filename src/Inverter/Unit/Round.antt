-- ===== src/Inverter/Unit/Round.antt =====
-- A whole pass of the poll thread over a device that answers.
use loop_charger_inverter.Prelude.{
  ℕ, zero, suc, ◌+◌, ◌^◌, ◌≤◌, ◌<◌, ◌≡◌, ◌≢◌, refl, sym, ap, ◌∙◌, ◌⊎◌, inl, inr, true, false, subst,
  Option, some, List, [], ◌∷◌, ◌++◌, arith, map, length, All, get_elem?, replicate, ◌==◌,
}
use loop_charger_inverter.Prelude.Int.{ℤ, pos, is_neg}
use loop_charger_inverter.Modbus.Frame.{max_read_registers}
use loop_charger_inverter.Modbus.Transaction.{Exchange}
use loop_charger_inverter.DeviceMap.{Mapping, RegisterPool, internal_pool_size}
use loop_charger_inverter.DeviceMap.Find.{IsWellFormed}
use loop_charger_inverter.DeviceMap.Pool.{IsInjective}
use loop_charger_inverter.Inverter.Unit.{InverterUnit, scan_loop, read_segment, scan_registers}
use loop_charger_inverter.Inverter.Unit.Segments.{expand, expand_all, scan_loop_covers}
use loop_charger_inverter.Inverter.Unit.Slave.{Answers}
use loop_charger_inverter.Inverter.Unit.Device.{Named, run_segments-ReadsWell, fails_left}

get_elem?-expand :
    (start count : ℕ) (rest : List ℕ) (k a : ℕ)
    → get_elem? (expand start count ++ rest) k ≡ some a
    → ((start ≤ a) × (a < start + count)) ⊎ ((j : ℕ) × (get_elem? rest j ≡ some a))
get_elem?-expand start zero rest k a e = inr (k, e)
get_elem?-expand start (suc count) rest zero a e = inl (ground arith)
get_elem?-expand start (suc count) rest (suc k) a e =
    elim (get_elem?-expand (start + 1) count rest k a e) [
      | inl h ↦ inl (omega (arith, h.0), omega (arith, h.1))
      | inr h ↦ inr h
    ]

get_elem?-Named :
    (segs : List (ℕ × ℕ)) (k a : ℕ) → get_elem? (expand_all segs) k ≡ some a → Named a segs
get_elem?-Named [] k a e = ground arith
get_elem?-Named (g ∷ segs) k a e = elim (get_elem?-expand g.0 g.1 (expand_all segs) k a e) [
  | inl h ↦ inl h
  | inr (j, f) ↦ inr (get_elem?-Named segs j a f)
]

get_elem?-addresses :
    (table : List Mapping) (k : ℕ) (m : Mapping)
    → get_elem? table k ≡ some m
    → get_elem? (map (λ r. r.device_address) table) k ≡ some m.device_address
get_elem?-addresses [] k m e = ground arith
get_elem?-addresses (r ∷ table) zero m e = ground arith
get_elem?-addresses (r ∷ table) (suc k) m e = get_elem?-addresses table k m e

expand-bound :
    (bound start count : ℕ) (rest : List ℕ)
    → 0 < count
    → All (λ a. a < bound) (expand start count ++ rest)
    → (start + count ≤ bound) × All (λ a. a < bound) rest
expand-bound bound start zero rest p h = absurd (omega arith)
expand-bound bound start (suc zero) rest p h = (omega arith, h.1)
expand-bound bound start (suc (suc count)) rest p h =
    let (top, others) = expand-bound bound (start + 1) (suc count) rest (omega arith) h.1 in
    (omega arith, others)

expand_all-bound :
    (bound chunk : ℕ) (segs : List (ℕ × ℕ))
    → chunk ≤ max_read_registers
    → All (λ a. a < bound) (expand_all segs)
    → All (λ g. (0 < g.1) × (g.1 ≤ chunk)) segs
    → All (λ g. (0 < g.1) × (g.1 ≤ max_read_registers) × (g.0 + g.1 ≤ bound)) segs
expand_all-bound bound chunk [] c h sizes = tt
expand_all-bound bound chunk (g ∷ segs) c h sizes =
    let (top, others) = expand-bound bound g.0 g.1 (expand_all segs) sizes.0.0 h in
    ((sizes.0.0, omega (arith, sizes.0.1), top), expand_all-bound bound chunk segs c others sizes.1)

fails_left-nonempty :
    (segs : List (ℕ × ℕ)) (fails : ℕ) → 0 < length (expand_all segs) → fails_left segs fails ≡ 0
fails_left-nonempty [] fails h = absurd (omega arith)
fails_left-nonempty (g ∷ segs) fails h = refl

length-addresses :
    (table : List Mapping) → length (map (λ r. r.device_address) table) ≡ length table
length-addresses [] = refl
length-addresses (r ∷ table) = ap suc (length-addresses table)

length-replicate {ℓ} : {A : Type ℓ} (n : ℕ) (a : A) → length (replicate n a) ≡ n
length-replicate zero a = refl
length-replicate (suc n) a = ap suc (length-replicate n a)

-- What a scan may rely on: a well-formed table that is not empty, of 16-bit addresses, with its own
-- slot inside the pool for each register; requests of at most 125 registers; and an open port.
pub record IsReady (unit : InverterUnit) (table : List Mapping) : Type 0 where
  pub well_formed : IsWellFormed unit.profile table
  pub rows : (0 < length table) × (length table < 2 ^ 16)
  pub addresses : All (λ a. a < 2 ^ 16) (map (λ m. m.device_address) table)
  pub own_slots : IsInjective table
  pub inside :
      (k : ℕ) (m : Mapping) → get_elem? table k ≡ some m → m.pool_address < internal_pool_size
  pub chunk : (0 < unit.profile.read_chunk) × (unit.profile.read_chunk ≤ max_read_registers)
  pub opened : is_neg unit.rtu_ctx.fd ≡ false
  pub unit_byte : unit.rtu_ctx.cfg.unit_id < 256

-- What a scan is known to have done that began in this state of the line, with this pool.
abbrev pub Synced :
    {W : Type 0}
    → (W → ℕ → ℕ)
    → List Mapping
    → W
    → RegisterPool
    → InverterUnit
    → (W × RegisterPool × Option InverterUnit) × ℤ
    → Type 0
Synced device table w pool unit result =
    (result.1 ≡ pos 0)
    × (result.0.2 ≡ some (record unit { comm_fail_count = 0 }))
    × (device result.0.0 ≡ device w)
    × ((k : ℕ) (m : Mapping)
        → get_elem? table k ≡ some m
        → result.0.1 m.pool_address ≡ device w m.device_address)
    × ((p : ℕ)
        → ((k : ℕ) (m : Mapping) → get_elem? table k ≡ some m → m.pool_address ≢ p)
        → result.0.1 p ≡ pool p)

scan_registers-scan :
    {W : Type 0} (bus : W → ℕ → List ℕ → W × Exchange) (w : W) (pool : RegisterPool)
    (unit : InverterUnit) (table : List Mapping) (s' : W × RegisterPool × ℕ × List ℕ)
    → unit.profile.table ≡ some table
    → (unit.profile.table_count == 0) ≡ false
    → scan_loop
        (read_segment bus unit.profile unit.rtu_ctx)
        table
        unit.profile.table_count
        unit.profile.read_chunk
        unit.profile.table_count
        1
        0
        1
        (w, pool, unit.comm_fail_count, replicate max_read_registers 0)
      ≡ (s', true)
    → scan_registers bus w pool unit
      ≡ ((s'.0, s'.1, some (record unit { comm_fail_count = s'.2 })), pos 0)
unfolding scan_registers
scan_registers-scan bus w pool unit table s' f e scan = simp (scan_registers, f, e, scan)

pub scan_registers-Synced :
    {W : Type 0} (bus : W → ℕ → List ℕ → W × Exchange) (device : W → ℕ → ℕ) (w : W)
    (pool : RegisterPool) (unit : InverterUnit) (table : List Mapping)
    → IsReady unit table
    → Answers bus unit.rtu_ctx device
    → Synced device table w pool unit (scan_registers bus w pool unit)
scan_registers-Synced {W} bus device w pool unit table ready answers =
    let (segs, runs, covers, sizes) =
      scan_loop_covers table unit.profile.read_chunk ready.chunk.0 ready.rows.0 ready.rows.1 in
    let begun : W × RegisterPool × ℕ × List ℕ =
      (w, pool, unit.comm_fail_count, replicate {A = ℕ} max_read_registers 0) in
    let (s', e, fails, reads) =
      run_segments-ReadsWell bus unit.profile unit.rtu_ctx device table ready.well_formed
        ready.own_slots ready.inside ready.opened ready.unit_byte answers segs begun
        (length-replicate {A = ℕ} max_read_registers 0)
        (expand_all-bound (2 ^ 16) unit.profile.read_chunk segs ready.chunk.1
          (subst (λ l. All (λ a. a < 2 ^ 16) l) (sym covers) ready.addresses) sizes) in
    subst (Synced device table w pool unit)
      (sym (
        scan_registers-scan bus w pool unit table s' ready.well_formed.has_table
          (nonzero _ (omega (arith, ready.well_formed.counted, ready.rows.0)))
          (subst
            (λ n.
              scan_loop (read_segment bus unit.profile unit.rtu_ctx) table n unit.profile.read_chunk
                n 1 0 1 begun
              ≡ (s', true))
            (sym ready.well_formed.counted) (runs _ _ begun ∙ e))))
      (
        refl,
        ap (λ n. some (record unit { comm_fail_count = n }))
            (fails
              ∙ fails_left-nonempty segs unit.comm_fail_count
                  (omega (arith, ap length covers, length-addresses table, ready.rows.0))),
        reads.same_device,
        λ k m at. reads.pool_filled.filled k m at (
            get_elem?-Named segs k m.device_address (
              subst (λ l. get_elem? l k ≡ some m.device_address) (sym covers)
                (get_elem?-addresses table k m at))),
        λ p other. reads.pool_filled.kept p (λ k m at _. other k m at),
      )
  where
    nonzero : (n : ℕ) → 0 < n → (n == 0) ≡ false
    nonzero n h = ground arith
