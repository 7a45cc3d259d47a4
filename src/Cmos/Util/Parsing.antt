-- ===== src/Cmos/Util/Parsing.antt =====
-- What `cmos_parse` reads in the data that `cmos_publish` composes.
use loop_charger_inverter.Prelude.{
  ℕ, ◌-◌, ◌<◌, ◌≡◌, refl, ap, ◌∙◌, Option, none, some, List, [], ◌∷◌, ◌++◌, All-map, arith, length,
  if◌then◌else◌, ◌==◌,
}
use loop_charger_inverter.Prelude.Int.{ℤ, pos, negsuc}
use loop_charger_inverter.Cmos.Text.{codes, c_string, after_prefix}
use loop_charger_inverter.Cmos.Text.Tokens.{c_string-IsWord}
use loop_charger_inverter.Cmos.Pub.{data_size, Composed, composed, undefined, compose_data}
use loop_charger_inverter.Cmos.Pub.Message.{named, fields, spaced, compose_data-fields}
use loop_charger_inverter.Cmos.Sub.{is_empty, value_or_empty}
use loop_charger_inverter.Cmos.Sub.Messages.{
  IsClean, IsCleanOption, fields-clean, spaced-IsWord, clean-nul,
}
use loop_charger_inverter.Cmos.Link.{Message, data_of}
use loop_charger_inverter.Cmos.Util.{
  Parsed, Numbers, type_size, value_size, after_first, search_of, cmos_get_field, cmos_parse,
}
use loop_charger_inverter.Cmos.Util.Search.{
  IsBare, IsName, Passes, after_first-end, after_first-field, behind, spaced-behind,
  copy_field-text,
}

-- A text that may be missing is shorter than `n`, and has no blank, line end, NUL or '='.
abbrev pub IsField : ℕ → Option (List ℕ) → Type 0
IsField n none = Unit
IsField n (some t) = IsClean t × IsBare t × (length t < n)

pub record IsParsable (m : Message) : Type 0 where
  pub state_field : IsField data_size m.state
  pub type_field : IsField type_size m.type
  pub key_field : IsField type_size (some m.key)
  pub value_field : IsField value_size m.value
  pub fits : length (data_of m) < data_size

-- What the parser is to find of a message.
abbrev pub parsed_of : {F : Type 0} → Numbers F → Message → Parsed F × ℤ
parsed_of numbers m =
    let value = value_or_empty m.value in
    (
      record {
        type = value_or_empty m.type;
        key = m.key;
        value = value;
        value_f = if is_empty value then numbers.zero_f else numbers.atof value;
        value_i = if is_empty value then pos 0 else numbers.atoi value;
      },
      if is_empty (value_or_empty m.type) then negsuc 0 else pos 0,
    )

abbrev pub parse_composed : {F : Type 0} → Numbers F → Composed → Option (Parsed F × ℤ)
parse_composed numbers (composed at payload) = some (cmos_parse numbers payload)
parse_composed numbers undefined = none

field-clean : (n : ℕ) (x : Option (List ℕ)) → IsField n x → IsCleanOption x
field-clean n none h = tt
field-clean n (some t) h = h.0

-- The search passes over a field that may be missing.
after_first-named :
    (name label : List ℕ) (n : ℕ) (x : Option (List ℕ)) (ts : List (List ℕ))
    → IsName name
    → Passes name label
    → IsField n x
    → after_first (name ++ (b'=' ∷ [])) (spaced (named label x ++ ts))
      ≡ after_first (name ++ (b'=' ∷ [])) (spaced ts)
after_first-named name label n none ts is_name p h = refl
after_first-named name label n (some t) ts is_name p h =
    after_first-field name label t ts is_name p h.1

after_first-last :
    (name label : List ℕ) (n : ℕ) (x : Option (List ℕ))
    → IsName name
    → Passes name label
    → IsField n x
    → after_first (name ++ (b'=' ∷ [])) (spaced (named label x)) ≡ none
unfolding after_first
after_first-last name label n none is_name p h = after_first-end name [] tt
after_first-last name label n (some t) is_name p h =
    after_first-field name label t [] is_name p h.1 ∙ after_first-end name [] tt

-- A search that ends like this makes `cmos_get_field` copy the whole text.
got :
    (payload field : List ℕ) (n : ℕ) (x : Option (List ℕ)) (ts : List (List ℕ))
    → c_string payload ≡ payload
    → IsField n x
    → after_first (search_of field) payload
      ≡ (elim x [ none ↦ none | some t ↦ some (t ++ behind ts) ])
    → (cmos_get_field payload field n).0 ≡ value_or_empty x
unfolding cmos_get_field
got payload field n none ts whole h e = rw (cmos_get_field, whole, e) refl
got payload field n (some t) ts whole h e =
    rw (cmos_get_field, whole, e) (copy_field-text (n - 1) t ts h.0 (omega (arith, h.2)))

module _ (m : Message) (parsable : IsParsable m) where
  abbrev after_type : List (List ℕ)
  after_type = (codes "key=" ++ m.key) ∷ named (codes "value=") m.value

  search_type :
      after_first (codes "type=") (data_of m)
      ≡ (elim m.type [ none ↦ none | some t ↦ some (t ++ behind after_type) ])
  unfolding after_first after_prefix
  search_type =
      after_first-named (codes "type") (codes "state=") data_size m.state
        (named (codes "type=") m.type ++ after_type) (ground arith) (λ more. refl)
        parsable.state_field
      ∙ found m.type
    where
      found :
          (x : Option (List ℕ))
          → after_first (codes "type=") (spaced (named (codes "type=") x ++ after_type))
            ≡ (elim x [ none ↦ none | some t ↦ some (t ++ behind after_type) ])
      found none =
          after_first-field (codes "type") (codes "key=") m.key (named (codes "value=") m.value)
            (ground arith) (λ more. refl) parsable.key_field.1
          ∙ after_first-last (codes "type") (codes "value=") value_size m.value (ground arith)
              (λ more. refl) parsable.value_field
      found (some t) =
          ap (after_first (codes "type=")) (spaced-behind (codes "type=" ++ t) after_type)

  search_key :
      after_first (codes "key=") (data_of m)
      ≡ some (m.key ++ behind (named (codes "value=") m.value))
  unfolding after_first after_prefix
  search_key =
      after_first-named (codes "key") (codes "state=") data_size m.state
        (named (codes "type=") m.type ++ after_type) (ground arith) (λ more. refl)
        parsable.state_field
      ∙ after_first-named (codes "key") (codes "type=") type_size m.type after_type (ground arith)
          (λ more. refl) parsable.type_field
      ∙ ap (after_first (codes "key="))
          (spaced-behind (codes "key=" ++ m.key) (named (codes "value=") m.value))

  search_value :
      after_first (codes "value=") (data_of m)
      ≡ (elim m.value [ none ↦ none | some t ↦ some (t ++ behind []) ])
  unfolding after_first after_prefix
  search_value =
      after_first-named (codes "value") (codes "state=") data_size m.state
        (named (codes "type=") m.type ++ after_type) (ground arith) (λ more. refl)
        parsable.state_field
      ∙ after_first-named (codes "value") (codes "type=") type_size m.type after_type (ground arith)
          (λ more. refl) parsable.type_field
      ∙ after_first-field (codes "value") (codes "key=") m.key (named (codes "value=") m.value)
          (ground arith) (λ more. refl) parsable.key_field.1
      ∙ found m.value
    where
      found :
          (x : Option (List ℕ))
          → after_first (codes "value=") (spaced (named (codes "value=") x))
            ≡ (elim x [ none ↦ none | some t ↦ some (t ++ behind []) ])
      found none = refl
      found (some t) = ap (after_first (codes "value=")) (spaced-behind (codes "value=" ++ t) [])

  data_string : c_string (data_of m) ≡ data_of m
  data_string = c_string-IsWord (data_of m) (
      spaced-IsWord (λ b. b == 0) (fields m.state m.type m.key m.value) refl
        (All-map (fields m.state m.type m.key m.value) (λ t c. clean-nul t c.1)
          (fields-clean m.state m.type m.key m.value
            (field-clean data_size m.state parsable.state_field)
            (field-clean type_size m.type parsable.type_field) parsable.key_field.0
            (field-clean value_size m.value parsable.value_field))))

  cmos_parse-data_of :
      {F : Type 0} (numbers : Numbers F) → cmos_parse numbers (data_of m) ≡ parsed_of numbers m
  unfolding cmos_parse c_string
  cmos_parse-data_of numbers =
      rw
        (
          got (data_of m) (codes "type") type_size m.type after_type data_string parsable.type_field
              search_type,
          got (data_of m) (codes "key") type_size (some m.key) (named (codes "value=") m.value)
              data_string parsable.key_field search_key,
          got (data_of m) (codes "value") value_size m.value [] data_string parsable.value_field
              search_value,
        )
        refl

-- For a message with a key, whose fields have no blank, line end, NUL or '=', with a type and a key of
-- at most 63 bytes, a value of at most 255 and at most 895 bytes of data: `cmos_parse` of the data
-- that `cmos_publish` composes gives back the type, the key and the value, empty where the message
-- has none, with the numbers of a value that is not empty, and returns 0 exactly with a type that is
-- not empty.
pub cmos_parse-composed :
    {F : Type 0} (numbers : Numbers F) (m : Message)
    → IsParsable m
    → parse_composed numbers (compose_data m.state m.type (some m.key) m.value)
      ≡ some (parsed_of numbers m)
cmos_parse-composed numbers m parsable =
    rw (compose_data-fields m.state m.type m.key m.value parsable.fits)
      (ap some (cmos_parse-data_of m parsable numbers))
