-- ===== src/Inverter/AlarmManager/Again.antt =====
-- A row that is before all others of a full table.
use loop_charger_inverter.Prelude.{
  ℕ, suc, ◌≤◌, ◌<◌, ◌≡◌, refl, ap, inl, inr, Bool, true, false, ◌&&◌, List, [], ◌∷◌, All, arith,
  length, ltb, leb, gt→leb, le→leb, le→ltb, Bool-cases,
}
use loop_charger_inverter.Inverter.AlarmManager.{LogRow}
use loop_charger_inverter.Inverter.AlarmManager.Rows.{
  rank, not_after, oldest_replaced, store_row, not_after-nonempty,
}

-- A row that is before all others is the one that goes.
oldest_replaced-before :
    (rows : List LogRow) (r : LogRow) (n : ℕ)
    → 0 < length rows
    → rank r < n
    → not_after n (oldest_replaced rows r) ≡ false
unfolding oldest_replaced
oldest_replaced-before [] r n p h = absurd (omega arith)
oldest_replaced-before (x ∷ xs) r n p h = elim (Bool-cases (not_after (rank x) xs)) [
  | inl e ↦ rw (oldest_replaced, e, gt→leb n (rank r) h) refl
  | inr e ↦
      rw (oldest_replaced, e, oldest_replaced-before xs r n (not_after-nonempty (rank x) xs e) h)
        (both (leb n (rank x)))
]
  where
    both : (b : Bool) → (b && false) ≡ false
    both true = refl
    both false = refl

before-not_after :
    (r : LogRow) (rows : List LogRow)
    → All (λ x. rank r < rank x) rows
    → not_after (rank r) rows ≡ true
before-not_after r [] h = refl
before-not_after r (x ∷ rows) h =
    rw (le→leb (rank r) (rank x) (omega arith), before-not_after r rows h.1) refl

oldest_replaced-again :
    (rows : List LogRow) (r next : LogRow)
    → All (λ x. rank r < rank x) rows
    → oldest_replaced (oldest_replaced rows r) next ≡ oldest_replaced rows next
unfolding oldest_replaced
oldest_replaced-again [] r next h = refl
oldest_replaced-again (x ∷ xs) r next h = elim (Bool-cases (not_after (rank x) xs)) [
  | inl e ↦ rw (oldest_replaced, e, before-not_after r xs h.1) refl
  | inr e ↦
      rw
        (
          oldest_replaced,
          e,
          oldest_replaced-before xs r (rank x) (not_after-nonempty (rank x) xs e) h.0,
        )
        (ap (λ l. x ∷ l) (oldest_replaced-again xs r next h.1))
]

length-oldest_replaced :
    (rows : List LogRow) (r : LogRow) → length (oldest_replaced rows r) ≡ length rows
unfolding oldest_replaced
length-oldest_replaced [] r = refl
length-oldest_replaced (x ∷ xs) r = elim (Bool-cases (not_after (rank x) xs)) [
  | inl e ↦ rw (oldest_replaced, e) refl
  | inr e ↦ rw (oldest_replaced, e) (ap suc (length-oldest_replaced xs r))
]

-- In a full table a row that is before all others is overwritten by the next one.
pub store_row-again :
    (m : ℕ) (rows : List LogRow) (r next : LogRow)
    → m ≤ length rows
    → All (λ x. rank r < rank x) rows
    → store_row m (store_row m rows r) next ≡ store_row m rows next
unfolding store_row
store_row-again m rows r next full h =
    let stored : ltb (length rows) m ≡ false = le→ltb (length rows) m full in
    rw
      (
        stored,
        le→ltb (length (oldest_replaced rows r)) m
            (omega (arith, full, length-oldest_replaced rows r)),
      )
      (oldest_replaced-again rows r next h)
