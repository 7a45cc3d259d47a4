-- ===== src/Cmos/Pub/Message.antt =====
-- What `cmos_publish` writes.
use mathlib.Core.List.{append_assoc}
use loop_charger_inverter.Prelude.{
  ℕ, suc, ◌+◌, ◌-◌, ◌≤◌, ◌<◌, ◌≡◌, refl, sym, ap, ◌∙◌, false, Option, none, some, List, [], ◌∷◌,
  ◌++◌, arith, length, length-append, take_all, ◌==◌, le→ltb,
}
use loop_charger_inverter.Cmos.Text.{codes, space}
use loop_charger_inverter.Cmos.Pub.{
  data_size, Composed, composed, print_piece, print_field, print_value, nothing_given, compose_data,
}

-- A field with its name, if it is given.
abbrev pub named : List ℕ → Option (List ℕ) → List (List ℕ)
named name none = []
named name (some text) = (name ++ text) ∷ []

-- The fields of a message with a key, in order.
abbrev pub fields : Option (List ℕ) → Option (List ℕ) → List ℕ → Option (List ℕ) → List (List ℕ)
fields state type key value =
    named (codes "state=") state
    ++ (named (codes "type=") type ++ ((codes "key=" ++ key) ∷ named (codes "value=") value))

-- The fields with single spaces between them.
abbrev pub spaced : List (List ℕ) → List ℕ
spaced [] = []
spaced (t ∷ []) = t
spaced (t ∷ u ∷ ts) = t ++ (space ∷ spaced (u ∷ ts))

abbrev add : List ℕ → List ℕ → List ℕ
add [] t = t
add (b ∷ bs) t = (b ∷ bs) ++ (space ∷ t)

-- Further fields behind a text.
abbrev put : List ℕ → List (List ℕ) → List ℕ
put text [] = text
put text (t ∷ ts) = put (add text t) ts

put-append : (text : List ℕ) (ts us : List (List ℕ)) → put text (ts ++ us) ≡ put (put text ts) us
put-append text [] us = refl
put-append text (t ∷ ts) us = put-append (add text t) ts us

length-add : (text t : List ℕ) → length text + length t ≤ length (add text t)
length-add [] t = omega arith
length-add (b ∷ bs) t = omega (arith, length-append bs (space ∷ t))

length-put : (text : List ℕ) (ts : List (List ℕ)) → length text ≤ length (put text ts)
length-put text [] = omega arith
length-put text (t ∷ ts) = omega (arith, length-put (add text t) ts, length-add text t)

put-spaced : (b : ℕ) (bs : List ℕ) (ts : List (List ℕ)) → put (b ∷ bs) ts ≡ spaced ((b ∷ bs) ∷ ts)
put-spaced b bs [] = refl
put-spaced b bs (u ∷ []) = refl
put-spaced b bs (u ∷ v ∷ us) =
    put-spaced b (bs ++ (space ∷ u)) (v ∷ us)
    ∙ append_assoc (b ∷ bs) (space ∷ u) (space ∷ spaced (v ∷ us))

-- What has been written so far, as `cmos_publish` keeps it.
abbrev written : List ℕ → Composed
written text = composed (length text) text

print_piece-fits :
    (text piece : List ℕ)
    → length (text ++ piece) < data_size
    → print_piece (written text) piece ≡ written (text ++ piece)
unfolding print_piece
print_piece-fits text piece h =
    let size : length (text ++ piece) ≡ length text + length piece = length-append text piece in
    rw
      (
        le→ltb data_size (length text) (omega (arith, size)),
        take_all (data_size - 1) (text ++ piece) (omega arith),
      )
      (ap (λ n. composed n (text ++ piece)) (sym size))

not_zero : (bs : List ℕ) → (suc (length bs) == 0) ≡ false
not_zero bs = ground arith

print_field-put :
    (text name : List ℕ) (x : Option (List ℕ))
    → length (put text (named name x)) < data_size
    → print_field (written text) name x ≡ written (put text (named name x))
unfolding print_field
print_field-put text name none h = refl
print_field-put [] name (some t) h = print_piece-fits [] (name ++ t) h
print_field-put (b ∷ bs) name (some t) h =
    rw (not_zero bs) (print_piece-fits (b ∷ bs) (space ∷ (name ++ t)) h)

print_value-put :
    (text : List ℕ) (x : Option (List ℕ))
    → 0 < length text
    → length (put text (named (codes "value=") x)) < data_size
    → print_value (written text) x ≡ written (put text (named (codes "value=") x))
unfolding print_value
print_value-put text none p h = refl
print_value-put [] (some t) p h = absurd (omega arith)
print_value-put (b ∷ bs) (some t) p h =
    rw (not_zero bs) (print_piece-fits (b ∷ bs) (space ∷ (codes "value=" ++ t)) h)

a_key_given :
    (state type : Option (List ℕ)) (key : List ℕ) (value : Option (List ℕ))
    → nothing_given state type (some key) value ≡ false
a_key_given none none key value = refl
a_key_given none (some t) key value = refl
a_key_given (some s) type key value = refl

fields-put :
    (state type : Option (List ℕ)) (key : List ℕ) (value : Option (List ℕ))
    → put [] (fields state type key value) ≡ spaced (fields state type key value)
fields-put none none key value = put-spaced b'k' (codes "ey=" ++ key) (named (codes "value=") value)
fields-put none (some t) key value =
    put-spaced b't' (codes "ype=" ++ t) ((codes "key=" ++ key) ∷ named (codes "value=") value)
fields-put (some s) none key value =
    put-spaced b's' (codes "tate=" ++ s) ((codes "key=" ++ key) ∷ named (codes "value=") value)
fields-put (some s) (some t) key value =
    put-spaced b's' (codes "tate=" ++ s)
      ((codes "type=" ++ t) ∷ (codes "key=" ++ key) ∷ named (codes "value=") value)

-- When a key is given and the fields with single spaces between them come to at most 895 bytes, the
-- message holds exactly them: the state, the type, the key and the value that are given, in order.
pub compose_data-fields :
    (state type : Option (List ℕ)) (key : List ℕ) (value : Option (List ℕ))
    → length (spaced (fields state type key value)) < data_size
    → compose_data state type (some key) value
      ≡ composed
          (length (spaced (fields state type key value)))
          (spaced (fields state type key value))
unfolding compose_data
compose_data-fields state type key value h =
    rw
      (
        a_key_given state type key value,
        print_field-put [] (codes "state=") state
            (omega (arith, length-put one (named (codes "type=") type), two_fits)),
        print_field-put one (codes "type=") type two_fits,
        print_field-put two (codes "key=") (some key) (omega (arith, small)),
        print_value-put three value (omega (arith, length-add two (codes "key=" ++ key)))
            (omega (arith, all_fits)),
      )
      (ap written whole)
  where
    one : List ℕ
    one = put [] (named (codes "state=") state)

    two : List ℕ
    two = put one (named (codes "type=") type)

    three : List ℕ
    three = put two (named (codes "key=") (some key))

    whole : put three (named (codes "value=") value) ≡ spaced (fields state type key value)
    whole =
        sym (
          put-append one (named (codes "type=") type)
            ((codes "key=" ++ key) ∷ named (codes "value=") value))
        ∙ sym (
            put-append [] (named (codes "state=") state) (
              named (codes "type=") type ++ ((codes "key=" ++ key) ∷ named (codes "value=") value)))
        ∙ fields-put state type key value

    all_fits : length (put three (named (codes "value=") value)) < data_size
    all_fits = omega (arith, ap length whole, h)

    small : length three < data_size
    small = omega (arith, length-put three (named (codes "value=") value), all_fits)

    two_fits : length two < data_size
    two_fits = omega (arith, length-put two (named (codes "key=") (some key)), small)
