-- ===== src/Cmos/Pub/Bounds.antt =====
-- The sizes of a message and of the buffers of `cmos_publish`.
use mathlib.Core.List.{append_assoc}
use loop_charger_inverter.Prelude.{
  ℕ, ◌+◌, ◌-◌, ◌≤◌, ◌<◌, ◌≡◌, refl, sym, ap, ◌∙◌, Option, none, some, List, [], ◌∷◌, ◌++◌, arith,
  length, length-append, take_all, ltb, ◌==◌, lt→ltb, if◌then◌else◌, Bool-cases, inl, inr,
  length-take-le, subst,
}
use loop_charger_inverter.Cmos.Text.{codes, space, newline}
use loop_charger_inverter.Cmos.Pub.{
  data_size, message_size, topic_size, Composed, composed, undefined, print_piece, separator,
  print_field, print_value, nothing_given, compose_data, message_line,
}

-- The text that `data` holds is shorter than `data`.
abbrev InData : Composed → Type 0
InData (composed at text) = length text < data_size
InData undefined = Unit

print_piece-InData : (c : Composed) (piece : List ℕ) → InData (print_piece c piece)
unfolding print_piece
print_piece-InData undefined piece = tt
print_piece-InData (composed at text) piece = elim (Bool-cases (ltb data_size at)) [
  | inl over ↦ rw (print_piece, over) tt
  | inr inside ↦
      rw (print_piece, inside) (omega (arith, length-take-le (data_size - 1) (text ++ piece)))
]

print_field-InData :
    (c : Composed) (name : List ℕ) (x : Option (List ℕ)) → InData c → InData (print_field c name x)
unfolding print_field
print_field-InData c name none h = h
print_field-InData c name (some t) h = print_piece-InData c (separator c ++ (name ++ t))

print_value-InData : (c : Composed) (x : Option (List ℕ)) → InData c → InData (print_value c x)
unfolding print_value
print_value-InData c none h = h
print_value-InData undefined (some t) h = tt
print_value-InData (composed at before) (some t) h =
    print_piece-InData (composed at before) (if at == 0 then t else space ∷ (codes "value=" ++ t))

compose_data-InData :
    (state type key value : Option (List ℕ)) → InData (compose_data state type key value)
unfolding compose_data
compose_data-InData state type key value = elim (Bool-cases (nothing_given state type key value)) [
  | inl nothing ↦ rw nothing tt
  | inr given ↦ rw given (
      print_value-InData _ value (
        print_field-InData _ (codes "key=") key (
          print_field-InData _ (codes "type=") type
            (print_field-InData (composed 0 []) (codes "state=") state (omega arith)))))
]

-- Whatever the fields are, a message that `cmos_publish` composes without undefined behaviour, on a
-- topic of at most 63 bytes, is sent as a whole line: nothing is cut off in the buffer of 1024 bytes,
-- and the line ends with its newline and has at most 964 bytes.
pub message_line-whole :
    (state type key value : Option (List ℕ)) (at : ℕ) (topic payload : List ℕ)
    → compose_data state type key value ≡ composed at payload
    → length topic < topic_size
    → (message_line topic payload
        ≡ (codes "MSG " ++ (topic ++ (space ∷ payload))) ++ (newline ∷ []))
      × (length (message_line topic payload) ≤ 964)
unfolding message_line
message_line-whole state type key value at topic payload e h =
    (uncut ∙ ap (λ l. codes "MSG " ++ l) regrouped, omega (arith, ap length uncut, size))
  where
    whole : List ℕ
    whole = codes "MSG " ++ (topic ++ (space ∷ (payload ++ (newline ∷ []))))

    regrouped :
        topic ++ (space ∷ (payload ++ (newline ∷ [])))
        ≡ (topic ++ (space ∷ payload)) ++ (newline ∷ [])
    regrouped = sym (append_assoc topic (space ∷ payload) (newline ∷ []))

    small : length payload < data_size
    small = subst InData e (compose_data-InData state type key value)

    size : length whole ≤ 964
    size = omega (
      arith,
      small,
      length-append topic (space ∷ (payload ++ (newline ∷ []))),
      length-append payload (newline ∷ []),
    )

    uncut : message_line topic payload ≡ whole
    uncut = take_all (message_size - 1) whole (omega (arith, size))

print_field-undefined :
    (name : List ℕ) (x : Option (List ℕ)) → print_field undefined name x ≡ undefined
unfolding print_field print_piece
print_field-undefined name none = refl
print_field-undefined name (some t) = refl

print_value-undefined : (x : Option (List ℕ)) → print_value undefined x ≡ undefined
unfolding print_value
print_value-undefined none = refl
print_value-undefined (some t) = refl

print_field-none : (c : Composed) (name : List ℕ) → print_field c name none ≡ c
unfolding print_field
print_field-none c name = refl

behind_end :
    (first next long short : List ℕ)
    → 4 < length first
    → 891 < length long
    → print_field (print_field (composed 0 []) first (some long)) next (some short) ≡ undefined
unfolding print_field print_piece
behind_end first next long short p h =
    rw (lt→ltb data_size (0 + length (first ++ long)) (omega (arith, length-append first long)))
      refl

-- A state of more than 891 bytes with a type, or a type of more than 891 bytes with a key and no
-- state, makes the next `snprintf` start behind the end of `data`: the behaviour is undefined.
pub compose_data_overruns :
    (long short : List ℕ) (other value : Option (List ℕ))
    → 891 < length long
    → (compose_data (some long) (some short) other value ≡ undefined)
      × (compose_data none (some long) (some short) value ≡ undefined)
unfolding compose_data print_piece
compose_data_overruns long short other value h = (
  rw (behind_end (codes "state=") (codes "type=") long short (omega arith) h)
      (rw (print_field-undefined (codes "key=") other) (print_value-undefined value)),
  rw
      (
        print_field-none (composed 0 []) (codes "state="),
        behind_end (codes "type=") (codes "key=") long short (omega arith) h,
      )
      (print_value-undefined value),
)
