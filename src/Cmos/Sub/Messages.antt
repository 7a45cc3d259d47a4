-- ===== src/Cmos/Sub/Messages.antt =====
-- Which fields the subscriber finds in a message, and what it does with the line of a message.
use loop_charger_inverter.Prelude.{
  ℕ, zero, suc, ◌≤◌, ◌<◌, ◌≡◌, refl, Bool, false, Option, none, some, List, [], ◌∷◌, All, arith,
  length, length-append, ◌==◌, All-append, All-map,
}
use loop_charger_inverter.Cmos.Text.{codes, space, blank, line_end, blank_or_end, after_prefix}
use loop_charger_inverter.Cmos.Text.Tokens.{IsWord, strtok-word, strtok-last, strtok-none}
use loop_charger_inverter.Cmos.Pub.Message.{named, fields, spaced}
use loop_charger_inverter.Cmos.Sub.{Fields, no_fields, set_field, field_loop}

-- A token of `strtok(..., " ")`.
abbrev pub IsToken : List ℕ → Type 0
IsToken t = (0 < length t) × IsWord blank t

abbrev pub set_all : List (List ℕ) → Fields → Fields
set_all [] f = f
set_all (t ∷ ts) f = set_all ts (set_field t f)

-- The loop takes the tokens one by one, if it has a round for each of them and one more.
pub field_loop-spaced :
    (rounds : ℕ) (ts : List (List ℕ)) (f : Fields)
    → length ts < rounds
    → All IsToken ts
    → field_loop rounds (spaced ts) f ≡ set_all ts f
unfolding field_loop
field_loop-spaced zero ts f h w = absurd (omega arith)
field_loop-spaced (suc rounds) [] f h w = rw (field_loop, strtok-none blank) refl
field_loop-spaced (suc rounds) ([] ∷ ts) f h w = absurd (omega (arith, w.0.0))
field_loop-spaced (suc rounds) ((b ∷ t) ∷ []) f h w =
    rw (field_loop, strtok-last blank b t w.0.1)
      (field_loop-spaced rounds [] (set_field (b ∷ t) f) (omega arith) tt)
field_loop-spaced (suc rounds) ((b ∷ t) ∷ u ∷ us) f h w =
    rw (field_loop, strtok-word blank b t space (spaced (u ∷ us)) w.0.1 refl)
      (field_loop-spaced rounds (u ∷ us) (set_field (b ∷ t) f) (omega arith) w.1)

pub length-spaced : (ts : List (List ℕ)) → All IsToken ts → length ts ≤ length (spaced ts)
length-spaced [] w = omega arith
length-spaced (t ∷ []) w = w.0.0
length-spaced (t ∷ u ∷ us) w =
    omega (arith, length-append t (space ∷ spaced (u ∷ us)), length-spaced (u ∷ us) w.1)

pub set_all-fields :
    (state type : Option (List ℕ)) (key : List ℕ) (value : Option (List ℕ))
    → set_all (fields state type key value) no_fields
      ≡ record { state_field = state; type_field = type; key_field = some key; value_field = value }
unfolding set_field after_prefix
set_all-fields none none key none = refl
set_all-fields none none key (some v) = refl
set_all-fields none (some t) key none = refl
set_all-fields none (some t) key (some v) = refl
set_all-fields (some s) none key none = refl
set_all-fields (some s) none key (some v) = refl
set_all-fields (some s) (some t) key none = refl
set_all-fields (some s) (some t) key (some v) = refl

-- A text without blanks, line ends and NUL.
abbrev pub IsClean : List ℕ → Type 0
IsClean t = All (λ b. (blank_or_end b ≡ false) × ((b == 0) ≡ false)) t

abbrev pub IsCleanOption : Option (List ℕ) → Type 0
IsCleanOption none = Unit
IsCleanOption (some t) = IsClean t

pub clean-blank : (t : List ℕ) → IsClean t → IsWord blank t
clean-blank t h = All-map t (λ b c. ground arith) h

pub clean-line_end : (t : List ℕ) → IsClean t → IsWord line_end t
clean-line_end t h = All-map t (λ b c. ground arith) h

pub clean-blank_or_end : (t : List ℕ) → IsClean t → IsWord blank_or_end t
clean-blank_or_end t h = All-map t (λ b c. c.0) h

pub clean-nul : (t : List ℕ) → IsClean t → IsWord (λ b. b == 0) t
clean-nul t h = All-map t (λ b c. c.1) h

abbrev pub IsCleanToken : List ℕ → Type 0
IsCleanToken t = (0 < length t) × IsClean t

named-clean :
    (b : ℕ) (name : List ℕ) (x : Option (List ℕ))
    → IsClean (b ∷ name)
    → IsCleanOption x
    → All IsCleanToken (named (b ∷ name) x)
named-clean b name none n h = tt
named-clean b name (some t) n h = ((omega arith, All-append _ (b ∷ name) t n h), tt)

pub fields-clean :
    (state type : Option (List ℕ)) (key : List ℕ) (value : Option (List ℕ))
    → IsCleanOption state
    → IsCleanOption type
    → IsClean key
    → IsCleanOption value
    → All IsCleanToken (fields state type key value)
fields-clean state type key value hs ht hk hv =
    All-append IsCleanToken (named (codes "state=") state) _
      (named-clean b's' (codes "tate=") state (ground arith) hs)
      (All-append IsCleanToken (named (codes "type=") type) _
        (named-clean b't' (codes "ype=") type (ground arith) ht)
        (All-append IsCleanToken (named (codes "key=") (some key)) (named (codes "value=") value)
          (named-clean b'k' (codes "ey=") (some key) (ground arith) hk)
          (named-clean b'v' (codes "alue=") value (ground arith) hv)))

pub spaced-IsWord :
    (delimiter : ℕ → Bool) (ts : List (List ℕ))
    → delimiter space ≡ false
    → All (IsWord delimiter) ts
    → IsWord delimiter (spaced ts)
spaced-IsWord delimiter [] s h = tt
spaced-IsWord delimiter (t ∷ []) s h = h.0
spaced-IsWord delimiter (t ∷ u ∷ us) s h =
    All-append _ t (space ∷ spaced (u ∷ us)) h.0 (s, spaced-IsWord delimiter (u ∷ us) s h.1)
