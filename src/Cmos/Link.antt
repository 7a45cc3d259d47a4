-- ===== src/Cmos/Link.antt =====
-- A message from `cmos_publish` to the callback of the subscriber.
use mathlib.Core.List.{append_assoc}
use loop_charger_inverter.Prelude.{
  ℕ, suc, ◌+◌, ◌-◌, ◌<◌, ◌≡◌, refl, ap, ◌∙◌, true, ◌&&◌, ◌||◌, ◌==◌, Option, none, some, List, [],
  ◌∷◌, ◌++◌, All, All-append, All-map, arith, length, length-append, take_all, if◌then◌else◌,
  get_elem?,
}
use loop_charger_inverter.Prelude.Int.{ℤ, pos}
use loop_charger_inverter.Cmos.Text.{codes, space, newline, line_end, blank_or_end, c_string}
use loop_charger_inverter.Cmos.Text.Tokens.{IsWord, strtok-word, same_text_refl, c_string-IsWord}
use loop_charger_inverter.Cmos.Pub.Message.{named, fields, spaced}
use loop_charger_inverter.Cmos.Sub.{
  line_size, SubSlot, Call, no_fields, is_refused, is_empty, value_or_empty, filter_data, dispatch,
  ctx_handle_line,
}
use loop_charger_inverter.Cmos.Sub.Messages.{
  IsClean, IsCleanOption, IsToken, IsCleanToken, clean-blank, clean-line_end, clean-blank_or_end,
  clean-nul, fields-clean, spaced-IsWord, field_loop-spaced, length-spaced, set_all-fields,
}

-- A message with a key, as every one of the bridge has.
pub record Message : Type 0 where
  pub state : Option (List ℕ)
  pub type : Option (List ℕ)
  pub key : List ℕ
  pub value : Option (List ℕ)

abbrev pub data_of : Message → List ℕ
data_of m = spaced (fields m.state m.type m.key m.value)

-- The line of a message, without its newline.
abbrev pub line_of : List ℕ → Message → List ℕ
line_of topic m = codes "MSG " ++ (topic ++ (space ∷ data_of m))

-- The fields have no blank, line end or NUL, and the line fits the subscriber's `line`.
pub record IsPlain (topic : List ℕ) (m : Message) : Type 0 where
  pub state_clean : IsCleanOption m.state
  pub type_clean : IsCleanOption m.type
  pub key_clean : IsClean m.key
  pub value_clean : IsCleanOption m.value
  pub fits : length (line_of topic m) + 1 < line_size

-- What a slot is told of a message: nothing, if a filter that it has differs from the field; else
-- the value, if it has a filter for the key, and the whole data, if it has none.
abbrev pub received : {C : Type 0} → SubSlot C → C → List ℕ → Message → Option (Call C)
received slot cb topic m =
    if is_refused slot.filter_state m.state
      || is_refused slot.filter_type m.type
      || is_refused slot.filter_key (some m.key)
    then none
    else some (record {
      cb = cb;
      topic = topic;
      payload = if is_empty slot.filter_key then data_of m else value_or_empty m.value;
    })

unfiltered :
    {X : Type 0} (fs ft fk : List ℕ) (s t k : Option (List ℕ)) (g : List ℕ → X) (whole v : List ℕ)
    → (if is_empty fs && is_empty ft && is_empty fk
        then some (g whole)
        else if is_refused fs s || is_refused ft t || is_refused fk k
        then none
        else some (g (if is_empty fk then whole else v)))
      ≡ (if is_refused fs s || is_refused ft t || is_refused fk k
          then none
          else some (g (if is_empty fk then whole else v)))
unfolding is_refused
unfiltered [] [] [] s t k g whole v = refl
unfiltered [] [] (b ∷ fk) s t k g whole v = refl
unfiltered [] (b ∷ ft) fk s t k g whole v = refl
unfiltered (b ∷ fs) ft fk s t k g whole v = refl

handle_message_line :
    {C : Type 0} (slots : List (SubSlot C)) (sub_slot : ℤ) (topic payload : List ℕ)
    → 0 < length topic
    → IsWord blank_or_end topic
    → 0 < length payload
    → IsWord line_end payload
    → (line : List ℕ)
    → c_string line ≡ codes "MSG" ++ (space ∷ (topic ++ (space ∷ (payload ++ (newline ∷ [])))))
    → ctx_handle_line slots sub_slot line ≡ dispatch slots sub_slot topic payload
unfolding ctx_handle_line
handle_message_line slots sub_slot [] payload p w q v line e = absurd (omega arith)
handle_message_line slots sub_slot (b ∷ topic) [] p w q v line e = absurd (omega arith)
handle_message_line slots sub_slot (b ∷ topic) (d ∷ payload) p w q v line e =
    rw
      (
        ctx_handle_line,
        e,
        strtok-word blank_or_end b'M' (codes "SG") space
            ((b ∷ topic) ++ (space ∷ ((d ∷ payload) ++ (newline ∷ [])))) (ground arith) refl,
        strtok-word blank_or_end b topic space ((d ∷ payload) ++ (newline ∷ [])) w refl,
        strtok-word line_end d payload newline [] v refl,
        same_text_refl (codes "MSG"),
      )
      refl

module _ (topic : List ℕ) (m : Message) (plain : IsPlain topic m) where
  pub data_short : length (data_of m) < line_size
  data_short = omega (arith, plain.fits, length-append topic (space ∷ data_of m))

  tokens : All IsCleanToken (fields m.state m.type m.key m.value)
  tokens =
      fields-clean m.state m.type m.key m.value plain.state_clean plain.type_clean plain.key_clean
        plain.value_clean

  blank_tokens : All IsToken (fields m.state m.type m.key m.value)
  blank_tokens =
      All-map (fields m.state m.type m.key m.value) (λ t c. (c.0, clean-blank t c.1)) tokens

  pub data-IsWord : IsWord line_end (data_of m)
  data-IsWord =
      spaced-IsWord line_end (fields m.state m.type m.key m.value) refl
        (All-map (fields m.state m.type m.key m.value) (λ t c. clean-line_end t c.1) tokens)

  data_nul : IsWord (λ b. b == 0) (data_of m)
  data_nul =
      spaced-IsWord (λ b. b == 0) (fields m.state m.type m.key m.value) refl
        (All-map (fields m.state m.type m.key m.value) (λ t c. clean-nul t c.1) tokens)

  data_positive : 0 < length (data_of m)
  data_positive = omega (
    arith,
    length-spaced (fields m.state m.type m.key m.value) blank_tokens,
    length-append (named (codes "state=") m.state) (
        named (codes "type=") m.type ++ ((codes "key=" ++ m.key) ∷ named (codes "value=") m.value)),
    length-append (named (codes "type=") m.type)
        ((codes "key=" ++ m.key) ∷ named (codes "value=") m.value),
  )

  line_string :
      IsClean topic
      → c_string (line_of topic m ++ (newline ∷ [])) ≡ line_of topic m ++ (newline ∷ [])
  line_string clean = c_string-IsWord (line_of topic m ++ (newline ∷ [])) (
      All-append _ (line_of topic m) (newline ∷ [])
        (All-append _ (codes "MSG ") (topic ++ (space ∷ data_of m)) (ground arith)
          (All-append _ topic (space ∷ data_of m) (clean-nul topic clean) (refl, data_nul)))
        (refl, tt))

  module _ {C : Type 0} (slot : SubSlot C) (cb : C) where
    filter_data-received : filter_data slot cb topic (data_of m) ≡ received slot cb topic m
    unfolding filter_data
    filter_data-received = rw (take_all (line_size - 1) (data_of m) (omega (arith, data_short))) (
        rw
          (field_loop-spaced (suc (length (data_of m))) (fields m.state m.type m.key m.value)
            no_fields
            (omega (arith, length-spaced (fields m.state m.type m.key m.value) blank_tokens))
            blank_tokens)
          (rw (set_all-fields m.state m.type m.key m.value) (
            unfiltered slot.filter_state slot.filter_type slot.filter_key m.state m.type
              (some m.key) (λ payload. record { cb = cb; topic = topic; payload = payload })
              (data_of m) (value_or_empty m.value))))

    -- The line of a plain message, on a slot for its topic that is used and has a callback.
    pub ctx_handle_line-message :
        (slots : List (SubSlot C)) (s : ℕ)
        → get_elem? slots s ≡ some slot
        → slot.used ≡ true
        → slot.cb ≡ some cb
        → slot.topic ≡ topic
        → 0 < length topic
        → IsClean topic
        → ctx_handle_line slots (pos s) (line_of topic m ++ (newline ∷ []))
          ≡ received slot cb topic m
    unfolding dispatch filter_data
    ctx_handle_line-message slots s at used has_cb on_topic positive clean =
        handle_message_line slots (pos s) topic (data_of m) positive
          (clean-blank_or_end topic clean) data_positive data-IsWord _
          (line_string clean
            ∙ ap (λ l. codes "MSG " ++ l) (append_assoc topic (space ∷ data_of m) (newline ∷ [])))
        ∙ (rw (dispatch, at, has_cb, used, on_topic, same_text_refl topic) filter_data-received)
