-- ===== src/Inverter/AlarmManager/Rows.antt =====
-- The table `logs` as a list of rows in the order of their ids, and what the statements of
-- `write_log` make of it. A row of the table is replaced where it stands, as its id stays.
use loop_charger_inverter.Prelude.{
  ℕ, ◌+◌, ◌*◌, ◌≤◌, ◌<◌, ◌≡◌, refl, sym, ap, inl, inr, subst, Bool, true, false, ◌&&◌, List, [],
  ◌∷◌, ◌++◌, All, All-append, arith, length, length-append, ltb, leb, if◌then◌else◌, Bool-cases,
}
use loop_charger_inverter.Inverter.AlarmManager.{LogRow}

-- The texts of one format have one length, so that their order is that of the numbers which their
-- bytes make.
abbrev rank_from : ℕ → List ℕ → ℕ
rank_from v [] = v
rank_from v (b ∷ bs) = rank_from (v * 256 + b) bs

unfoldable pub rank : LogRow → ℕ
rank r = rank_from 0 r.timestamp

abbrev pub not_after : ℕ → List LogRow → Bool
not_after n [] = true
not_after n (x ∷ xs) = leb n (rank x) && not_after n xs

-- `UPDATE logs SET ... WHERE id=(SELECT id FROM logs ORDER BY timestamp ASC, id ASC LIMIT 1)`.
unfoldable pub oldest_replaced : List LogRow → LogRow → List LogRow
oldest_replaced [] r = []
oldest_replaced (x ∷ xs) r =
    let later = oldest_replaced xs r in if not_after (rank x) xs then r ∷ xs else x ∷ later

-- A row is put into a table for at most `m`.
unfoldable pub store_row : ℕ → List LogRow → LogRow → List LogRow
unfolding oldest_replaced
store_row m rows r = if ltb (length rows) m then rows ++ (r ∷ []) else oldest_replaced rows r

unfoldable pub store_rows : ℕ → List LogRow → List LogRow → List LogRow
store_rows m rows [] = rows
store_rows m rows (r ∷ new) = store_rows m (store_row m rows r) new

-- No row is older than `n`.
abbrev pub NoneBefore : ℕ → List LogRow → Type 0
NoneBefore n rows = All (λ x. n ≤ rank x) rows

not_after-NoneBefore : (n : ℕ) (rows : List LogRow) → not_after n rows ≡ true → NoneBefore n rows
not_after-NoneBefore n [] h = tt
not_after-NoneBefore n (x ∷ xs) h = elim (Bool-cases (leb n (rank x))) [
  | inl le ↦
      (ground arith, not_after-NoneBefore n xs (subst (λ b. (b && not_after n xs) ≡ true) le h))
  | inr gt ↦ ground arith
]

-- The row that is replaced, with what stands before and behind it.
pub record Replaced (rows : List LogRow) (r : LogRow) (after : List LogRow) : Type 0 where
  pub before : List LogRow
  pub old : LogRow
  pub behind : List LogRow
  pub was : rows ≡ before ++ (old ∷ behind)
  pub is : after ≡ before ++ (r ∷ behind)
  pub oldest : NoneBefore (rank old) rows

pub not_after-nonempty : (n : ℕ) (rows : List LogRow) → not_after n rows ≡ false → 0 < length rows
not_after-nonempty n [] e = ground arith
not_after-nonempty n (x ∷ xs) e = omega arith

not_after-bound :
    (n k : ℕ) (rows : List LogRow) → NoneBefore k rows → not_after n rows ≡ false → k < n
not_after-bound n k [] h e = ground arith
not_after-bound n k (x ∷ xs) h e = elim (Bool-cases (leb n (rank x))) [
  | inl le ↦ not_after-bound n k xs h.1 (subst (λ b. (b && not_after n xs) ≡ false) le e)
  | inr gt ↦ ground arith
]

-- The first row that is not before any other is found.
pub oldest_replaced-Replaced :
    (rows : List LogRow) (r : LogRow) → 0 < length rows → Replaced rows r (oldest_replaced rows r)
unfolding oldest_replaced
oldest_replaced-Replaced [] r h = absurd (omega arith)
oldest_replaced-Replaced (x ∷ xs) r h = elim (Bool-cases (not_after (rank x) xs)) [
  | inl first ↦
      rw (oldest_replaced, first)
        (record {
          before = [];
          old = x;
          behind = xs;
          was = refl;
          is = refl;
          oldest = (omega arith, not_after-NoneBefore (rank x) xs first);
        })
  | inr older ↦
      let found = oldest_replaced-Replaced xs r (not_after-nonempty (rank x) xs older) in
      rw (oldest_replaced, older)
        (record {
          before = x ∷ found.before;
          old = found.old;
          behind = found.behind;
          was = ap (λ l. x ∷ l) found.was;
          is = ap (λ l. x ∷ l) found.is;
          oldest = (
            omega (arith, not_after-bound (rank x) (rank found.old) xs found.oldest older),
            found.oldest,
          );
        })
]

pub length-Replaced :
    {rows after : List LogRow} {r : LogRow} → Replaced rows r after → length after ≡ length rows
length-Replaced {r} p = omega (
  arith,
  ap length p.was,
  ap length p.is,
  length-append p.before (p.old ∷ p.behind),
  length-append p.before (r ∷ p.behind),
)

-- A bound that holds of the rows and of the new row holds of the rows afterwards.
All-split :
    (n : ℕ) (xs ys : List LogRow) → NoneBefore n (xs ++ ys) → NoneBefore n xs × NoneBefore n ys
All-split n [] ys h = (tt, h)
All-split n (x ∷ xs) ys h = let (p, q) = All-split n xs ys h.1 in ((h.0, p), q)

pub NoneBefore-Replaced :
    {rows after : List LogRow} {r : LogRow} (n : ℕ)
    → Replaced rows r after
    → NoneBefore n rows
    → n ≤ rank r
    → NoneBefore n after
NoneBefore-Replaced {rows} {after} {r} n p h le =
    let (front, back) = All-split n p.before (p.old ∷ p.behind) (subst (NoneBefore n) p.was h) in
    subst (NoneBefore n) (sym p.is)
      (All-append (λ x. n ≤ rank x) p.before (r ∷ p.behind) front (le, back.1))
