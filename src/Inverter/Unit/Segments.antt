-- ===== src/Inverter/Unit/Segments.antt =====
-- The segments that the scan of `process_callback` makes of a register table: which requests it
-- sends.
use loop_charger_inverter.Prelude.{
  ℕ, zero, suc, ◌+◌, ◌-◌, ◌%◌, ◌^◌, ◌≤◌, ◌<◌, ◌≡◌, refl, sym, ap, ◌∙◌, inl, inr, Bool, true, false,
  not, ◌&&◌, List, [], ◌∷◌, ◌++◌, arith, map, length, All, ltb, leb, ◌==◌, Bool-cases, le→ltb,
}
use native.Mathlib.Decide.{ℕ_discrete}
use loop_charger_inverter.DeviceMap.{Mapping}
use loop_charger_inverter.Inverter.Unit.{address_at, and_then, scan_loop}

-- The requests in order, each with its start and its count, until one returns false.
abbrev pub run_segments : {S : Type 0} → (S → ℕ → ℕ → S × Bool) → List (ℕ × ℕ) → S → S × Bool
run_segments segment [] s = (s, true)
run_segments segment (g ∷ segs) s =
    and_then (segment s g.0 g.1) (λ s'. run_segments segment segs s')

and_then-ap :
    {S : Type 0} (r : S × Bool) (f g : S → S × Bool)
    → ((s : S) → f s ≡ g s)
    → and_then r f ≡ and_then r g
and_then-ap (s, true) f g h = h s
and_then-ap (s, false) f g h = refl

-- The addresses of a request.
abbrev pub expand : ℕ → ℕ → List ℕ
expand start zero = []
expand start (suc count) = start ∷ expand (start + 1) count

abbrev pub expand_all : List (ℕ × ℕ) → List ℕ
expand_all [] = []
expand_all (g ∷ segs) = expand g.0 g.1 ++ expand_all segs

-- The addresses of `n` rows from row `i` on.
abbrev pub addresses : List Mapping → ℕ → ℕ → List ℕ
addresses table i zero = []
addresses table i (suc n) = address_at table i ∷ addresses table (i + 1) n

module _ (table : List Mapping) where
  addresses-add :
      (i a b n j : ℕ)
      → n ≡ a + b
      → j ≡ i + a
      → addresses table i n ≡ addresses table i a ++ addresses table j b
  addresses-add i zero b n j e f =
      let same_count : n ≡ b = omega arith in let same_row : j ≡ i = omega arith in cc
  addresses-add i (suc a) b zero j e f = absurd (omega arith)
  addresses-add i (suc a) b (suc n) j e f =
      ap (λ l. address_at table i ∷ l) (addresses-add (i + 1) a b n j (omega arith) (omega arith))

  -- The rows of a segment have consecutive addresses.
  abbrev IsRun : ℕ → ℕ → Type 0
  IsRun start len = (k : ℕ) → k < len → address_at table (start + k) ≡ address_at table start + k

  expand-addresses :
      (start len : ℕ)
      → IsRun start len
      → expand (address_at table start) len ≡ addresses table start len
  expand-addresses start zero run = refl
  expand-addresses start (suc zero) run = refl
  expand-addresses start (suc (suc len)) run =
      ap (λ l. address_at table start ∷ l)
        (ap (λ a. expand a (suc len)) (sym next) ∙ expand-addresses (start + 1) (suc len) shifted)
    where
      moved : (a b : ℕ) → a + 1 + b ≡ a + (b + 1)
      moved a b = omega arith

      next : address_at table (start + 1) ≡ address_at table start + 1
      next = run 1 (omega arith)

      shifted : IsRun (start + 1) (suc len)
      shifted k h =
          ap (address_at table) (moved start k) ∙ (run (k + 1) (omega arith) ∙ omega (arith, next))

  longer :
      (i start len : ℕ)
      → IsRun start len
      → start + len ≡ i
      → 0 < len
      → address_at table i ≡ address_at table (i - 1) + 1
      → IsRun start (len + 1)
  longer i start len run at pos_len next k h = elim (ℕ_discrete k len) [
    | no other ↦ run k (omega arith)
    | yes same ↦
        let last : address_at table (start + (len - 1)) ≡ address_at table start + (len - 1) =
          run (len - 1) (omega arith) in
        let here : start + k ≡ i = omega arith in
        let before : start + (len - 1) ≡ i - 1 = omega arith in
        ap (address_at table) here ∙ (next ∙ omega (arith, ap (address_at table) before, last))
  ]

  one_row : (i : ℕ) → IsRun i 1
  one_row i zero h = ap (address_at table) (plain i) ∙ omega arith
    where
      plain : (n : ℕ) → n + 0 ≡ n
      plain n = omega arith
  one_row i (suc k) h = absurd (omega arith)

  module _ (table_count read_chunk : ℕ) (chunk_pos : 0 < read_chunk)
      (fits : table_count < 2 ^ 16) where
    -- What the scan does from row `i` on, whatever the requests do.
    scan_loop-segments :
        (left i start len : ℕ)
        → i + left ≡ table_count
        → start + len ≡ i
        → 0 < len
        → len ≤ read_chunk
        → IsRun start len
        → (segs : List (ℕ × ℕ)) × ((S : Type 0) (segment : S → ℕ → ℕ → S × Bool) (s : S)
            → scan_loop segment table table_count read_chunk (suc left) i start len s
              ≡ run_segments segment segs s)
          × (expand_all segs ≡ addresses table start (table_count - start))
          × All (λ g. (0 < g.1) × (g.1 ≤ read_chunk)) segs
    unfolding scan_loop
    scan_loop-segments zero i start len e at pos_len small run = (
      (address_at table start, len) ∷ [],
      λ S segment s.
          rw (scan_loop, le→ltb i table_count (omega arith))
            (ap (λ n. and_then (segment s (address_at table start) n) (λ s'. (s', true))) narrow),
      ap (λ l. l ++ []) (expand-addresses start len run)
          ∙ sym (addresses-add start len 0 (table_count - start) (start + len) (omega arith) refl),
      ((pos_len, small), tt),
    )
      where
        narrow : len % 2 ^ 16 ≡ len
        narrow = omega arith
    scan_loop-segments (suc left) i start len e at pos_len small run =
        elim (Bool-cases (
          (ltb i table_count && (address_at table i == address_at table (i - 1) + 1))
          && not (leb read_chunk len))) [
            | inl extends ↦
                let (segs, runs, covers, sizes) =
                  scan_loop-segments left (i + 1) start (len + 1) (omega arith) (omega arith)
                    (omega arith) (ground arith)
                    (longer i start len run at pos_len (ground arith)) in
                (segs, λ S segment s. rw (scan_loop, extends) (runs S segment s), covers, sizes)
            | inr ends ↦
                let (segs, runs, covers, sizes) =
                  scan_loop-segments left (i + 1) i 1 (omega arith) refl (omega arith) chunk_pos
                    (one_row i) in
                (
                  (address_at table start, len) ∷ segs,
                  λ S segment s.
                      rw (scan_loop, ends)
                        (ap
                            (λ n. and_then (segment s (address_at table start) n) (λ s'.
                              scan_loop segment table table_count read_chunk (suc left) (i + 1) i 1
                                s'))
                            narrow
                          ∙ and_then-ap (segment s (address_at table start) len) _ _
                              (λ s'. runs S segment s')),
                  ap (λ l. l ++ expand_all segs) (expand-addresses start len run)
                      ∙ (ap (λ l. addresses table start len ++ l) covers
                          ∙ sym (
                              addresses-add start len (table_count - i) (table_count - start) i
                                (omega arith) (omega arith))),
                  ((pos_len, small), sizes),
                )
          ]
      where
        narrow : len % 2 ^ 16 ≡ len
        narrow = omega arith

addresses-tail :
    (row : Mapping) (rows : List Mapping) (i n : ℕ)
    → addresses (row ∷ rows) (i + 1) n ≡ addresses rows i n
addresses-tail row rows i zero = refl
addresses-tail row rows i (suc n) =
    ap (λ j. address_at (row ∷ rows) j ∷ addresses (row ∷ rows) (i + 1 + 1) n) (next i)
    ∙ ap (λ l. address_at rows i ∷ l) (addresses-tail row rows (i + 1) n)
  where
    next : (j : ℕ) → j + 1 ≡ suc j
    next j = omega arith

addresses-map :
    (table : List Mapping) → addresses table 0 (length table) ≡ map (λ m. m.device_address) table
addresses-map [] = refl
addresses-map (row ∷ rows) =
    ap (λ l. row.device_address ∷ l) (addresses-tail row rows 0 (length rows) ∙ addresses-map rows)

-- For a table that is not empty and has fewer than 65536 rows, a positive `read_chunk` and any body
-- of the loop, the scan runs the body on a fixed list of requests, until one returns false.
-- Together the requests name exactly the device addresses of the table, in order, and each has 1 to
-- `read_chunk` registers.
pub scan_loop_covers :
    (table : List Mapping) (read_chunk : ℕ)
    → 0 < read_chunk
    → 0 < length table
    → length table < 2 ^ 16
    → (segs : List (ℕ × ℕ)) × ((S : Type 0) (segment : S → ℕ → ℕ → S × Bool) (s : S)
        → scan_loop segment table (length table) read_chunk (length table) 1 0 1 s
          ≡ run_segments segment segs s)
      × (expand_all segs ≡ map (λ m. m.device_address) table)
      × All (λ g. (0 < g.1) × (g.1 ≤ read_chunk)) segs
scan_loop_covers [] read_chunk c p f = absurd (omega arith)
scan_loop_covers (row ∷ rows) read_chunk c p f =
    let table : List Mapping = row ∷ rows in
    let (segs, runs, covers, sizes) =
      scan_loop-segments table (length table) read_chunk c f (length rows) 1 0 1 (omega arith) refl
        (omega arith) (omega arith) (one_row table 0) in
    (
      segs,
      runs,
      covers ∙ (ap (addresses table 0) (whole (length table)) ∙ addresses-map table),
      sizes,
    )
  where
    whole : (n : ℕ) → n - 0 ≡ n
    whole n = omega arith
