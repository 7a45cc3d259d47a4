-- ===== src/Modbus/Serial/Delivery.antt =====
-- `read_exact` and the pieces that the line cuts an answer into.
use loop_charger_inverter.Prelude.{
  ℕ, zero, suc, ◌+◌, ◌-◌, ◌≤◌, ◌<◌, ◌≡◌, refl, sym, ap, ◌∙◌, List, [], ◌∷◌, ◌++◌, arith, length,
  length-append, take, take_all, length-take-le, ◌⊎◌, lt→ltb, ltb, Bool, Bool-cases, true, false,
  inl, inr, if◌then◌else◌,
}
use mathlib.Core.Path.{ap₂}
use native.Mathlib.Numerals.{unary_clauses}
use mathlib.Core.List.{append-nil, append_assoc}
use loop_charger_inverter.Prelude.Int.{ℤ, pos, negsuc}
use loop_charger_inverter.Modbus.Serial.{
  Event, interrupted, timed_out, select_error, read_error, bytes, read_exact,
}

-- The events bring exactly these bytes, in pieces of any size, with interrupts between them.
pub data Delivers : List Event → List ℕ → Type 0 where
  complete : {es : List Event} → Delivers es []
  again : {es : List Event} {f : List ℕ} → Delivers es f → Delivers (interrupted ∷ es) f
  piece :
      (b : ℕ) (bs : List ℕ) {es : List Event} {rest f : List ℕ}
      → f ≡ b ∷ (bs ++ rest)
      → Delivers es rest
      → Delivers (bytes (b ∷ bs) ∷ es) f

read_exact_full :
    (n : ℕ) (buf : List ℕ) (es : List Event)
    → n ≤ length buf
    → read_exact n buf es ≡ (pos (length buf), buf)
unfolding read_exact
read_exact_full n buf [] h = ground arith
read_exact_full n buf (interrupted ∷ es) h = read_exact_full n buf es h
read_exact_full n buf (timed_out ∷ es) h = ground arith
read_exact_full n buf (select_error ∷ es) h = ground arith
read_exact_full n buf (read_error ∷ es) h = ground arith
read_exact_full n buf (bytes [] ∷ es) h = ground arith
read_exact_full n buf (bytes (b ∷ bs) ∷ es) h = ground arith

-- Bytes that come to the count wanted, together with those stored before, are stored in order,
-- however they are cut, and their count is returned.
pub read_exact-Delivers :
    (n : ℕ) (buf : List ℕ) {es : List Event} {f : List ℕ}
    → Delivers es f
    → length buf + length f ≡ n
    → read_exact n buf es ≡ (pos n, buf ++ f)
unfolding read_exact
read_exact-Delivers n buf {es} complete h =
    read_exact_full n buf es (omega arith)
    ∙ ap₂ (λ k (l : List ℕ). (pos k, l)) (omega arith) (sym (append-nil buf))
read_exact-Delivers n buf (again d) h = read_exact-Delivers n buf d h
read_exact-Delivers n buf (piece b bs {rest = rest} e d) h =
    rw (lt→ltb (length buf) n short, take_all (n - length buf) (b ∷ bs) fits)
      (read_exact-Delivers n (buf ++ (b ∷ bs)) d longer
        ∙ ap (λ (l : List ℕ). (pos n, l))
            (append_assoc buf (b ∷ bs) rest ∙ ap (λ l. buf ++ l) (sym e)))
  where
    total : length buf + suc (length bs + length rest) ≡ n
    total = omega (arith, h, ap length e, length-append bs rest)

    short : length buf < n
    short = omega (arith, total)

    fits : suc (length bs) ≤ n - length buf
    fits = omega (arith, total)

    longer : length (buf ++ (b ∷ bs)) + length rest ≡ n
    longer = omega (arith, total, length-append buf (b ∷ bs))

-- How many bytes the events bring in all.
abbrev pub bytes_in : List Event → ℕ
bytes_in [] = 0
bytes_in (bytes bs ∷ es) = length bs + bytes_in es
bytes_in (e ∷ es) = bytes_in es

-- A failure of `read_exact`: the timeout, or an error.
abbrev pub IsFailure : ℤ → Type 0
IsFailure r = (r ≡ pos 0) ⊎ (r ≡ negsuc 0)

-- With fewer bytes than wanted `read_exact` fails.
pub read_exact_short :
    (n : ℕ) (buf : List ℕ) (es : List Event)
    → length buf + bytes_in es < n
    → IsFailure (read_exact n buf es).0
unfolding read_exact
read_exact_short n buf [] h = ground arith
read_exact_short n buf (interrupted ∷ es) h = read_exact_short n buf es h
read_exact_short n buf (timed_out ∷ es) h = ground arith
read_exact_short n buf (select_error ∷ es) h = ground arith
read_exact_short n buf (read_error ∷ es) h = ground arith
read_exact_short n buf (bytes [] ∷ es) h = ground arith
read_exact_short n buf (bytes (b ∷ bs) ∷ es) h =
    rw (lt→ltb (length buf) n (omega arith), take_all (n - length buf) (b ∷ bs) (omega arith))
      (read_exact_short n (buf ++ (b ∷ bs)) es (omega (arith, length-append buf (b ∷ bs))))

-- The bytes that the events bring, one behind the other.
abbrev pub line_bytes : List Event → List ℕ
line_bytes [] = []
line_bytes (bytes bs ∷ es) = bs ++ line_bytes es
line_bytes (e ∷ es) = line_bytes es

take-take-append : (n k : ℕ) (xs ys : List ℕ) → n ≤ k → take n (take k xs ++ ys) ≡ take n (xs ++ ys)
take-take-append zero k xs ys h = refl
take-take-append (suc n) k [] ys h = ap (λ l. take (suc n) (l ++ ys)) (take_all k [] (omega arith))
take-take-append (suc n) zero (x ∷ xs) ys h = absurd (omega arith)
take-take-append (suc n) (suc k) (x ∷ xs) ys h =
    ap (λ l. x ∷ l) (take-take-append n k xs ys (omega arith))

take-append-long : (n : ℕ) (xs ys : List ℕ) → n ≤ length xs → take n (xs ++ ys) ≡ take n xs
take-append-long zero xs ys h = refl
take-append-long (suc n) [] ys h = absurd (omega arith)
take-append-long (suc n) (x ∷ xs) ys h = ap (λ l. x ∷ l) (take-append-long n xs ys (omega arith))

-- A piece of which only the first bytes are stored.
take-cut :
    (n : ℕ) (buf bs more : List ℕ)
    → take n ((buf ++ take (n - length buf) bs) ++ more) ≡ take n (buf ++ (bs ++ more))
take-cut n [] bs more = simp unary_clauses (take-take-append n n bs more (omega arith))
take-cut zero (b ∷ buf) bs more = refl
take-cut (suc n) (b ∷ buf) bs more = rw (minus) (ap (λ l. b ∷ l) (take-cut n buf bs more))
  where
    minus : suc n - suc (length buf) ≡ n - length buf
    minus = omega arith

first_bytes : (n : ℕ) (buf more : List ℕ) → length buf ≡ n → buf ≡ take n (buf ++ more)
first_bytes n buf more e =
    sym (take-append-long n buf more (omega arith) ∙ take_all n buf (omega arith))

-- No further byte is stored, whatever is returned.
stopped :
    (n : ℕ) (buf more : List ℕ) (b : Bool) (x y : ℤ)
    → let result : ℤ × List ℕ = if b then (x, buf) else (y, buf) in
      length result.1 ≡ n → result.1 ≡ take n (buf ++ more)
stopped n buf more true x y e = first_bytes n buf more e
stopped n buf more false x y e = first_bytes n buf more e

-- As many bytes as wanted are the first ones of those stored before and those of the line.
pub read_exact-line_bytes :
    (n : ℕ) (buf : List ℕ) (es : List Event)
    → length buf ≤ n
    → length (read_exact n buf es).1 ≡ n
    → (read_exact n buf es).1 ≡ take n (buf ++ line_bytes es)
unfolding read_exact
read_exact-line_bytes n buf [] h e = stopped n buf [] (ltb (length buf) n) (pos 0) _ e
read_exact-line_bytes n buf (interrupted ∷ es) h e = read_exact-line_bytes n buf es h e
read_exact-line_bytes n buf (timed_out ∷ es) h e =
    stopped n buf (line_bytes es) (ltb (length buf) n) (pos 0) _ e
read_exact-line_bytes n buf (select_error ∷ es) h e =
    stopped n buf (line_bytes es) (ltb (length buf) n) (negsuc 0) _ e
read_exact-line_bytes n buf (read_error ∷ es) h e =
    stopped n buf (line_bytes es) (ltb (length buf) n) (negsuc 0) _ e
read_exact-line_bytes n buf (bytes [] ∷ es) h e =
    stopped n buf (line_bytes es) (ltb (length buf) n) (negsuc 0) _ e
read_exact-line_bytes n buf (bytes (b ∷ bs) ∷ es) h e = elim (Bool-cases (ltb (length buf) n)) [
  | inl more ↦
      let cut : List ℕ = buf ++ take (n - length buf) (b ∷ bs) in
      let fits : length cut ≤ n = omega (
        arith,
        length-append buf (take (n - length buf) (b ∷ bs)),
        length-take-le (n - length buf) (b ∷ bs),
      ) in
      rw (read_exact, more)
        (read_exact-line_bytes n cut es fits (rw more at e)
          ∙ take-cut n buf (b ∷ bs) (line_bytes es))
  | inr full ↦
      rw (read_exact, full) (first_bytes n buf (line_bytes (bytes (b ∷ bs) ∷ es)) (rw full at e))
]

-- With no more bytes stored than wanted, `read_exact` fails, or it stores exactly the bytes
-- wanted and returns their number.
pub read_exact_cases :
    (n : ℕ) (buf : List ℕ) (es : List Event)
    → length buf ≤ n
    → IsFailure (read_exact n buf es).0
      ⊎ (((read_exact n buf es).0 ≡ pos n) × (length (read_exact n buf es).1 ≡ n))
unfolding read_exact
read_exact_cases n buf [] h = ground arith
read_exact_cases n buf (interrupted ∷ es) h = read_exact_cases n buf es h
read_exact_cases n buf (timed_out ∷ es) h = ground arith
read_exact_cases n buf (select_error ∷ es) h = ground arith
read_exact_cases n buf (read_error ∷ es) h = ground arith
read_exact_cases n buf (bytes [] ∷ es) h = ground arith
read_exact_cases n buf (bytes (b ∷ bs) ∷ es) h = ground (
  arith,
  length-append buf (take (n - length buf) (b ∷ bs)),
  length-take-le (n - length buf) (b ∷ bs),
  read_exact_cases n (buf ++ take (n - length buf) (b ∷ bs)) es,
)
