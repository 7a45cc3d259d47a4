-- ===== src/Cmos/Sub/Framing.antt =====
-- The lines of a publisher's stream, however `recv` cuts it into pieces.
use mathlib.Core.Path.{ap₂}
use mathlib.Core.List.{append_assoc, append-nil, map-append}
use loop_charger_inverter.Prelude.{
  ℕ, ◌+◌, ◌-◌, ◌<◌, ◌≡◌, refl, sym, ap, ◌∙◌, Bool, true, false, Option, none, some, List, [], ◌∷◌,
  ◌++◌, All, arith, map, subst, length, length-append, take, take_all, ◌==◌, gt→leb, inl, inr,
  Bool-cases,
}
use loop_charger_inverter.Cmos.Text.{newline}
use loop_charger_inverter.Cmos.Text.Tokens.{IsWord}
use loop_charger_inverter.Cmos.Sub.{
  cm_rx_buf, line_size, SubSlot, PubConn, Call, ctx_handle_line, cut_lines, calls_of, conn_receive,
}

-- The pieces that `recv` brings, one after the other.
unfoldable pub conn_receives :
    {C : Type 0} → List (SubSlot C) → PubConn → List (List ℕ) → PubConn × List (Call C)
conn_receives slots c [] = (c, [])
conn_receives slots c (bytes ∷ pieces) =
    let (c1, calls) = conn_receive slots c bytes in
    let (c2, more) = conn_receives slots c1 pieces in (c2, calls ++ more)

abbrev pub concat : List (List ℕ) → List ℕ
concat [] = []
concat (t ∷ ts) = t ++ concat ts

-- Lines with their newlines, and the start of a line that is not complete.
abbrev pub stream : List (List ℕ) → List ℕ → List ℕ
stream [] partial = partial
stream (l ∷ lines) partial = l ++ (newline ∷ stream lines partial)

abbrev pub is_newline : ℕ → Bool
is_newline b = b == newline

cut_lines-append :
    (start xs ys : List ℕ)
    → cut_lines start (xs ++ ys) ≡ (
      (cut_lines start xs).0 ++ (cut_lines (cut_lines start xs).1 ys).0,
      (cut_lines (cut_lines start xs).1 ys).1,
    )
unfolding cut_lines
cut_lines-append start [] ys = refl
cut_lines-append start (b ∷ xs) ys = elim (Bool-cases (b == newline)) [
  | inl ends ↦
      rw (cut_lines, ends)
        (ap (λ (r : List (List ℕ) × List ℕ). (take (line_size - 1) (start ++ (b ∷ [])) ∷ r.0, r.1))
          (cut_lines-append [] xs ys))
  | inr more ↦ rw (cut_lines, more) (cut_lines-append (start ++ (b ∷ [])) xs ys)
]

-- The bytes of an incomplete line are kept.
cut_lines-partial :
    (start xs : List ℕ) → IsWord is_newline xs → cut_lines start xs ≡ ([], start ++ xs)
unfolding cut_lines
cut_lines-partial start [] h = ap (λ (l : List ℕ). ([], l)) (sym (append-nil start))
cut_lines-partial start (b ∷ xs) h =
    rw (cut_lines, h.0)
      (cut_lines-partial (start ++ (b ∷ [])) xs h.1
        ∙ ap (λ (l : List ℕ). ([], l)) (append_assoc start (b ∷ []) xs))

cut_lines-rest :
    (start xs : List ℕ) → IsWord is_newline start → IsWord is_newline (cut_lines start xs).1
unfolding cut_lines
cut_lines-rest start [] h = h
cut_lines-rest start (b ∷ xs) h = elim (Bool-cases (b == newline)) [
  | inl ends ↦ rw (cut_lines, ends) (cut_lines-rest [] xs tt)
  | inr more ↦ rw (cut_lines, more) (cut_lines-rest (start ++ (b ∷ [])) xs (snoc start h more))
]
  where
    snoc :
        (t : List ℕ)
        → IsWord is_newline t
        → (b == newline) ≡ false
        → IsWord is_newline (t ++ (b ∷ []))
    snoc [] w e = (e, tt)
    snoc (x ∷ t) w e = (w.0, snoc t w.1 e)

abbrev TypeIf : Bool → Type 0 → Type 0 → Type 0
TypeIf true A B = A
TypeIf false A B = B

-- With `k` bytes of a line stored already, no line of the text fills the receive buffer.
abbrev Fits : ℕ → List ℕ → Type 0
Fits k [] = Unit
Fits k (b ∷ bs) = TypeIf (b == newline) (Fits 0 bs) ((k + 1 < cm_rx_buf - 1) × Fits (k + 1) bs)

Fits-append :
    (start xs ys : List ℕ)
    → length start < cm_rx_buf - 1
    → Fits (length start) (xs ++ ys)
    → (length (cut_lines start xs).1 < cm_rx_buf - 1) × Fits (length (cut_lines start xs).1) ys
unfolding cut_lines
Fits-append start [] ys h f = (h, f)
Fits-append start (b ∷ xs) ys h f = elim (Bool-cases (b == newline)) [
  | inl ends ↦
      rw (cut_lines, ends)
        (Fits-append [] xs ys (omega arith) (
          subst
            (λ e.
              TypeIf e (Fits 0 (xs ++ ys))
                ((length start + 1 < cm_rx_buf - 1) × Fits (length start + 1) (xs ++ ys)))
            ends f))
  | inr more ↦
      let (fits, rest) =
        subst
          (λ e.
            TypeIf e (Fits 0 (xs ++ ys))
              ((length start + 1 < cm_rx_buf - 1) × Fits (length start + 1) (xs ++ ys)))
          more f in
      rw (cut_lines, more)
        (Fits-append (start ++ (b ∷ [])) xs ys (omega (arith, longer))
          (subst (λ n. Fits n (xs ++ ys)) (sym longer) rest))
]
  where
    longer : length (start ++ (b ∷ [])) ≡ length start + 1
    longer = length-append start (b ∷ [])

Fits-line :
    (k : ℕ) (l rest : List ℕ)
    → IsWord is_newline l
    → k + length l < cm_rx_buf - 1
    → Fits 0 rest
    → Fits k (l ++ (newline ∷ rest))
Fits-line k [] rest w h f = f
Fits-line k (b ∷ l) rest w h f =
    rw (Fits, w.0) (omega arith, Fits-line (k + 1) l rest w.1 (omega arith) f)

Fits-partial : (k : ℕ) (t : List ℕ) → IsWord is_newline t → k + length t < cm_rx_buf - 1 → Fits k t
Fits-partial k [] w h = tt
Fits-partial k (b ∷ t) w h = rw (Fits, w.0) (omega arith, Fits-partial (k + 1) t w.1 (omega arith))

-- A line that `line` has room for, with its newline.
abbrev pub IsLine : List ℕ → Type 0
IsLine l = IsWord is_newline l × (length l + 1 < line_size)

stream-Fits :
    (lines : List (List ℕ)) (partial : List ℕ)
    → All IsLine lines
    → IsWord is_newline partial
    → length partial < cm_rx_buf - 1
    → Fits 0 (stream lines partial)
stream-Fits [] partial h w p = Fits-partial 0 partial w (omega (arith, p))
stream-Fits (l ∷ lines) partial h w p =
    Fits-line 0 l (stream lines partial) h.0.0 (omega (arith, h.0.1))
      (stream-Fits lines partial h.1 w p)

cut_lines-line :
    (start l rest : List ℕ)
    → IsWord is_newline l
    → cut_lines start (l ++ (newline ∷ rest)) ≡ (
      take (line_size - 1) ((start ++ l) ++ (newline ∷ [])) ∷ (cut_lines [] rest).0,
      (cut_lines [] rest).1,
    )
unfolding cut_lines
cut_lines-line start [] rest w =
    ap
      (λ (l : List ℕ).
        (take (line_size - 1) (l ++ (newline ∷ [])) ∷ (cut_lines [] rest).0, (cut_lines [] rest).1))
      (sym (append-nil start))
cut_lines-line start (b ∷ l) rest w =
    rw (cut_lines, w.0)
      (cut_lines-line (start ++ (b ∷ [])) l rest w.1
        ∙ ap
            (λ (t : List ℕ). (
              take (line_size - 1) (t ++ (newline ∷ [])) ∷ (cut_lines [] rest).0,
              (cut_lines [] rest).1,
            ))
            (append_assoc start (b ∷ []) l))

cut_lines-stream :
    (lines : List (List ℕ)) (partial : List ℕ)
    → All IsLine lines
    → IsWord is_newline partial
    → cut_lines [] (stream lines partial) ≡ (map (λ l. l ++ (newline ∷ [])) lines, partial)
cut_lines-stream [] partial h w = cut_lines-partial [] partial w
cut_lines-stream (l ∷ lines) partial h w =
    cut_lines-line [] l (stream lines partial) h.0.0
    ∙ rw (cut_lines-stream lines partial h.1 w) (
        ap (λ (t : List ℕ). (t ∷ map (λ l. l ++ (newline ∷ [])) lines, partial))
          (take_all (line_size - 1) (l ++ (newline ∷ []))
            (omega (arith, h.0.1, length-append l (newline ∷ [])))))

calls_of-append :
    {C : Type 0} (xs ys : List (Option (Call C))) → calls_of (xs ++ ys) ≡ calls_of xs ++ calls_of ys
calls_of-append [] ys = refl
calls_of-append (none ∷ xs) ys = calls_of-append xs ys
calls_of-append (some call ∷ xs) ys = ap (λ l. call ∷ l) (calls_of-append xs ys)

-- The calls after a further line.
abbrev handled : {C : Type 0} → List (SubSlot C) → PubConn → List (List ℕ) → List (Call C)
handled slots c lines = calls_of (map (ctx_handle_line slots c.sub_slot) lines)

handled-append :
    {C : Type 0} (slots : List (SubSlot C)) (c : PubConn) (xs ys : List (List ℕ))
    → handled slots c (xs ++ ys) ≡ handled slots c xs ++ handled slots c ys
handled-append slots c xs ys =
    ap calls_of (map-append (ctx_handle_line slots c.sub_slot) xs ys)
    ∙ calls_of-append (map (ctx_handle_line slots c.sub_slot) xs)
        (map (ctx_handle_line slots c.sub_slot) ys)

conn_receive-cut_lines :
    {C : Type 0} (slots : List (SubSlot C)) (c : PubConn) (bytes : List ℕ)
    → IsWord is_newline c.rxbuf
    → length (cut_lines c.rxbuf bytes).1 < cm_rx_buf - 1
    → conn_receive slots c bytes ≡ (
      record c { rxbuf = (cut_lines c.rxbuf bytes).1 },
      handled slots c (cut_lines c.rxbuf bytes).0,
    )
unfolding conn_receive
conn_receive-cut_lines slots c bytes w h =
    rw (cut_lines-append [] c.rxbuf bytes)
      (rw (cut_lines-partial [] c.rxbuf w) (rw (gt→leb (cm_rx_buf - 1) _ h) refl))

conn_receives-cut_lines :
    {C : Type 0} (slots : List (SubSlot C)) (c : PubConn) (pieces : List (List ℕ))
    → IsWord is_newline c.rxbuf
    → length c.rxbuf < cm_rx_buf - 1
    → Fits (length c.rxbuf) (concat pieces)
    → conn_receives slots c pieces ≡ (
      record c { rxbuf = (cut_lines c.rxbuf (concat pieces)).1 },
      handled slots c (cut_lines c.rxbuf (concat pieces)).0,
    )
unfolding conn_receives cut_lines
conn_receives-cut_lines slots c [] w h f = refl
conn_receives-cut_lines {C} slots c (bytes ∷ pieces) w h f =
    let (small, fits) = Fits-append c.rxbuf bytes (concat pieces) h f in
    rw (conn_receive-cut_lines slots c bytes w small) (
      rw
        (conn_receives-cut_lines slots (record c { rxbuf = (cut_lines c.rxbuf bytes).1 }) pieces
          (cut_lines-rest c.rxbuf bytes w) small fits)
        (rw (cut_lines-append c.rxbuf bytes (concat pieces)) (
          ap
            (λ (l : List (Call C)).
              (record c { rxbuf = (cut_lines (cut_lines c.rxbuf bytes).1 (concat pieces)).1 }, l))
            (sym (handled-append slots c (cut_lines c.rxbuf bytes).0 _)))))

-- Receiving: when the buffer is empty and the pieces that `recv` brings come to complete lines of at
-- most 510 bytes, each with its newline, and an incomplete line of at most 2046 bytes, then each
-- line goes to `ctx_handle_line` once, in order and with its newline, wherever the pieces are cut,
-- and the buffer holds the incomplete line.
pub conn_receives-stream :
    {C : Type 0} (slots : List (SubSlot C)) (c : PubConn) (pieces : List (List ℕ))
    (lines : List (List ℕ)) (partial : List ℕ)
    → c.rxbuf ≡ []
    → concat pieces ≡ stream lines partial
    → All IsLine lines
    → IsWord is_newline partial
    → length partial < cm_rx_buf - 1
    → conn_receives slots c pieces ≡ (
      record c { rxbuf = partial },
      calls_of (map (ctx_handle_line slots c.sub_slot) (map (λ l. l ++ (newline ∷ [])) lines)),
    )
conn_receives-stream {C} slots c pieces lines partial e cuts h w p =
    conn_receives-cut_lines slots c pieces (subst (IsWord is_newline) (sym e) tt)
      (omega (arith, ap length e)) fits
    ∙ ap (λ (r : List (List ℕ) × List ℕ). (record c { rxbuf = r.1 }, handled slots c r.0)) whole
  where
    whole : cut_lines c.rxbuf (concat pieces) ≡ (map (λ l. l ++ (newline ∷ [])) lines, partial)
    whole = ap₂ cut_lines e cuts ∙ cut_lines-stream lines partial h w

    fits : Fits (length c.rxbuf) (concat pieces)
    fits =
        subst (λ (t : List ℕ). Fits (length t) (concat pieces)) (sym e)
          (subst (Fits 0) (sym cuts) (stream-Fits lines partial h w p))
