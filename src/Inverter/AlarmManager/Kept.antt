-- ===== src/Inverter/AlarmManager/Kept.antt =====
-- What stays in a table for at most `m` rows.
use mathlib.Core.List.{Perm, append_assoc, append-nil, perm_middle}
use mathlib.Core.List.Perm
use loop_charger_inverter.Prelude.{
  ℕ, ◌≤◌, ◌<◌, ◌≡◌, refl, sym, ap, ◌∙◌, ◌⊎◌, inl, inr, subst, List, [], ◌∷◌, ◌++◌, All, All-append,
  arith, length, length-append, ltb, Bool-cases,
}
use loop_charger_inverter.Inverter.AlarmManager.{LogRow}
use loop_charger_inverter.Inverter.AlarmManager.Rows.{
  rank, NoneBefore, store_row, store_rows, Replaced, oldest_replaced-Replaced, NoneBefore-Replaced,
  length-Replaced,
}

module _ (m : ℕ) where
  -- No row is before one of those stored already.
  abbrev pub Forward : List LogRow → List LogRow → Type 0
  Forward rows [] = Unit
  Forward rows (r ∷ new) = All (λ x. rank x ≤ rank r) rows × Forward (store_row m rows r) new

  -- What became of the rows: those in the table and those that were dropped are all that there were,
  -- no dropped row is after a row in the table, and none was dropped while there was room.
  pub record KeepsLatest (all after : List LogRow) : Type 0 where
    pub dropped : List LogRow
    pub nothing_lost : Perm (dropped ++ after) all
    pub oldest_dropped : All (λ d. NoneBefore (rank d) after) dropped
    pub only_when_full : (dropped ≡ []) ⊎ (length after ≡ m)

module _ (m : ℕ) (positive : 0 < m) where
  -- What a store does: it appends, or it replaces a row that is not after any other.
  store_row-cases :
      (rows : List LogRow) (r : LogRow)
      → ((length rows < m) × (store_row m rows r ≡ rows ++ (r ∷ [])))
        ⊎ ((m ≤ length rows) × Replaced rows r (store_row m rows r))
  unfolding store_row
  store_row-cases rows r = elim (Bool-cases (ltb (length rows) m)) [
    | inl small ↦ rw (store_row, small) (inl (ground arith, refl))
    | inr full ↦
        let le : m ≤ length rows = ground arith in
        rw (store_row, full) (inr (le, oldest_replaced-Replaced rows r (omega arith)))
  ]

  store_row-NoneBefore :
      (rows : List LogRow) (r : LogRow) (n : ℕ)
      → NoneBefore n rows
      → n ≤ rank r
      → NoneBefore n (store_row m rows r)
  store_row-NoneBefore rows r n h le = elim (store_row-cases rows r) [
    | inl (_, e) ↦ rw e (All-append (λ x. n ≤ rank x) rows (r ∷ []) h (le, tt))
    | inr (_, p) ↦ NoneBefore-Replaced n p h le
  ]

  length-store_row :
      (rows : List LogRow) (r : LogRow)
      → length rows ≤ m
      → (length rows ≤ length (store_row m rows r))
        × (0 < length (store_row m rows r))
        × (length (store_row m rows r) ≤ m)
  length-store_row rows r h = elim (store_row-cases rows r) [
    | inl (small, e) ↦ rw e (omega (arith, length-append rows (r ∷ [])))
    | inr (full, p) ↦ omega (arith, length-Replaced p)
  ]

  new-not_before :
      (n : ℕ) (rows : List LogRow) (r : LogRow)
      → 0 < length rows
      → NoneBefore n rows
      → All (λ x. rank x ≤ rank r) rows
      → n ≤ rank r
  new-not_before n [] r p h f = absurd (omega arith)
  new-not_before n (x ∷ rows) r p h f = omega (arith, h.0, f.0)

  store_rows-NoneBefore :
      (new rows : List LogRow) (n : ℕ)
      → 0 < length rows
      → length rows ≤ m
      → NoneBefore n rows
      → Forward m rows new
      → NoneBefore n (store_rows m rows new)
  unfolding store_rows
  store_rows-NoneBefore [] rows n p l h f = h
  store_rows-NoneBefore (r ∷ new) rows n p l h f =
      let (_, more, fits) = length-store_row rows r l in
      store_rows-NoneBefore new (store_row m rows r) n more fits
        (store_row-NoneBefore rows r n h (new-not_before n rows r p h f.0)) f.1

  pub length-store_rows :
      (new rows : List LogRow)
      → length rows ≤ m
      → (length rows ≤ length (store_rows m rows new)) × (length (store_rows m rows new) ≤ m)
  unfolding store_rows
  length-store_rows [] rows h = omega arith
  length-store_rows (r ∷ new) rows h =
      let (grows, _, fits) = length-store_row rows r h in
      let (more, most) = length-store_rows new (store_row m rows r) fits in
      (omega (arith, grows, more), most)

  moved :
      (before behind new : List LogRow) (old r : LogRow)
      → Perm (old ∷ ((before ++ (r ∷ behind)) ++ new)) ((before ++ (old ∷ behind)) ++ (r ∷ new))
  moved before behind new old r = Perm.symm (
      subst (λ l. Perm ((before ++ (old ∷ behind)) ++ (r ∷ new)) (old ∷ l))
        (sym (append_assoc before (r ∷ behind) new))
        (Perm.trans
          (subst (λ l. Perm l (old ∷ (before ++ (behind ++ (r ∷ new)))))
            (sym (append_assoc before (old ∷ behind) (r ∷ new)))
            (perm_middle before (behind ++ (r ∷ new))))
          (Perm.cons old (Perm.append_left before (perm_middle behind new)))))

  pub store_rows-KeepsLatest :
      (new rows : List LogRow)
      → length rows ≤ m
      → Forward m rows new
      → KeepsLatest m (rows ++ new) (store_rows m rows new)
  unfolding store_rows
  store_rows-KeepsLatest [] rows h f = record {
    dropped = [];
    nothing_lost = subst (Perm rows) (sym (append-nil rows)) (Perm.refl rows);
    oldest_dropped = tt;
    only_when_full = inl refl;
  }
  store_rows-KeepsLatest (r ∷ new) rows h f =
      let (_, more, fits) = length-store_row rows r h in
      let ih = store_rows-KeepsLatest new (store_row m rows r) fits f.1 in
      elim (store_row-cases rows r) [
        | inl (small, e) ↦ record {
          dropped = ih.dropped;
          nothing_lost =
              subst (Perm (ih.dropped ++ store_rows m (store_row m rows r) new))
                (ap (λ l. l ++ new) e ∙ append_assoc rows (r ∷ []) new) ih.nothing_lost;
          oldest_dropped = ih.oldest_dropped;
          only_when_full = ih.only_when_full;
        }
        | inr (full, p) ↦
            let older : NoneBefore (rank p.old) (store_row m rows r) =
              store_row-NoneBefore rows r (rank p.old) p.oldest
                (new-not_before (rank p.old) rows r (omega arith) p.oldest f.0) in
            record {
              dropped = p.old ∷ ih.dropped;
              nothing_lost = Perm.trans (Perm.cons p.old ih.nothing_lost) (
                  subst (λ l. Perm (p.old ∷ (store_row m rows r ++ new)) (l ++ (r ∷ new)))
                    (sym p.was)
                    (subst
                      (λ l.
                        Perm (p.old ∷ (l ++ new)) ((p.before ++ (p.old ∷ p.behind)) ++ (r ∷ new)))
                      (sym p.is) (moved p.before p.behind new p.old r)));
              oldest_dropped = (
                store_rows-NoneBefore new (store_row m rows r) (rank p.old) more fits older f.1,
                ih.oldest_dropped,
              );
              only_when_full = inr (
                  omega
                    (arith, length-store_rows new (store_row m rows r) fits, length-Replaced p));
            }
      ]
