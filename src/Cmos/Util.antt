-- ===== src/Cmos/Util.antt =====
-- lib/cmos/cmos_util.h: the helpers around the publisher and the subscriber. What `atof` and `atoi`
-- make of a text is a parameter; a `float` is of a type `F`.
pub mod Search
pub mod Parsing
pub mod Batch
use loop_charger_inverter.Prelude.{
  ℕ, zero, suc, ◌-◌, ◌||◌, ◌==◌, Option, none, some, List, [], ◌∷◌, ◌++◌, take, if◌then◌else◌,
}
use loop_charger_inverter.Prelude.Int.{ℤ, pos, negsuc}
use loop_charger_inverter.Cmos.Text.{codes, c_string, after_prefix, blank_or_end}
use loop_charger_inverter.Cmos.Pub.{PubCalls, Publisher, cmos_publish}
use loop_charger_inverter.Cmos.Sub.{is_empty}

-- `cmos_msg_t`.
pub record Msg : Type 0 where
  pub state : Option (List ℕ)
  pub type : Option (List ℕ)
  pub key : Option (List ℕ)
  pub value : Option (List ℕ)

-- `cmos_publish_batch`, which returns 0, as `cmos_publish` does; `none` where its behaviour is
-- undefined.
unfoldable pub cmos_publish_batch :
    {W : Type 0} → PubCalls W → W → Publisher → List Msg → Option (W × Publisher)
cmos_publish_batch calls w p [] = some (w, p)
cmos_publish_batch calls w p (m ∷ msgs) =
    elim (cmos_publish calls w p m.state m.type m.key m.value) [
      | none ↦ none
      | some sent ↦ cmos_publish_batch calls sent.0 sent.1 msgs
    ]

-- `cmos_parsed_t`, its arrays as the strings in them.
pub record Parsed (F : Type 0) : Type 0 where
  pub type : List ℕ
  pub key : List ℕ
  pub value : List ℕ
  pub value_f : F
  pub value_i : ℤ

-- `(float)atof`, `atoi`, and the 0.0 that `memset` leaves.
pub record Numbers (F : Type 0) : Type 0 where
  pub atof : List ℕ → F
  pub atoi : List ℕ → ℤ
  pub zero_f : F

-- The sizes of `type`, `key` and `value`.
abbrev pub type_size : ℕ
type_size = 64

abbrev pub value_size : ℕ
value_size = 256

-- `strstr`, and what follows the text that it finds.
unfoldable pub after_first : List ℕ → List ℕ → Option (List ℕ)
after_first search [] = after_prefix search []
after_first search (b ∷ bs) = elim (after_prefix search (b ∷ bs)) [
  | some rest ↦ some rest
  | none ↦ after_first search bs
]

-- The loop that copies a field, for at most this many bytes.
unfoldable pub copy_field : ℕ → List ℕ → List ℕ
copy_field zero text = []
copy_field (suc n) [] = []
copy_field (suc n) (b ∷ bs) =
    let rest = copy_field n bs in if b == 0 || blank_or_end b then [] else b ∷ rest

-- The text that `search` gets: at most 126 bytes of the name, and '='.
abbrev pub search_of : List ℕ → List ℕ
search_of field = take 126 (c_string field) ++ (b'=' ∷ [])

-- `cmos_get_field` for an `out` of at least one byte: the string in `out`, and what is returned.
unfoldable pub cmos_get_field : List ℕ → List ℕ → ℕ → List ℕ × ℤ
cmos_get_field payload field out_size = elim (after_first (search_of field) (c_string payload)) [
  | none ↦ ([], negsuc 0)
  | some p ↦ (copy_field (out_size - 1) p, pos 0)
]

-- `cmos_parse`.
unfoldable pub cmos_parse : {F : Type 0} → Numbers F → List ℕ → Parsed F × ℤ
cmos_parse numbers payload =
    let type = (cmos_get_field payload (codes "type") type_size).0 in
    let key = (cmos_get_field payload (codes "key") type_size).0 in
    let value = (cmos_get_field payload (codes "value") value_size).0 in
    (
      record {
        type = type;
        key = key;
        value = value;
        value_f = if is_empty value then numbers.zero_f else numbers.atof value;
        value_i = if is_empty value then pos 0 else numbers.atoi value;
      },
      if is_empty type then negsuc 0 else pos 0,
    )
