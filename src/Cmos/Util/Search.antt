-- ===== src/Cmos/Util/Search.antt =====
-- The search for a field in the data of a message.
use mathlib.Core.List.{append_assoc, append-nil}
use loop_charger_inverter.Prelude.{
  zero, sym, ℕ, suc, ◌≤◌, ◌≡◌, refl, ap, ◌∙◌, false, ◌==◌, none, List, [], ◌∷◌, ◌++◌, All, arith,
  length, Bool-cases, inl, inr,
}
use loop_charger_inverter.Cmos.Text.{space, after_prefix}
use loop_charger_inverter.Cmos.Pub.Message.{spaced}
use loop_charger_inverter.Cmos.Sub.Messages.{IsClean}
use loop_charger_inverter.Cmos.Util.{after_first, copy_field}

-- No byte is '='.
abbrev pub IsBare : List ℕ → Type 0
IsBare t = All (λ b. (b == b'=') ≡ false) t

-- No byte is '=' or a space.
abbrev pub IsName : List ℕ → Type 0
IsName t = All (λ b. ((b == b'=') ≡ false) × ((b == space) ≡ false)) t

-- A name with '=' is not at the start of a text without '=' that a space follows.
after_prefix-text :
    (name text more : List ℕ)
    → IsName name
    → IsBare text
    → after_prefix (name ++ (b'=' ∷ [])) (text ++ (space ∷ more)) ≡ none
unfolding after_prefix
after_prefix-text [] [] more n t = refl
after_prefix-text [] (y ∷ text) more n t = ground arith
after_prefix-text (x ∷ name) [] more n t = ground arith
after_prefix-text (x ∷ name) (y ∷ text) more n t = elim (Bool-cases (x == y)) [
  | inl e ↦ rw e (after_prefix-text name text more n.1 t.1)
  | inr e ↦ rw e refl
]

after_prefix-end :
    (name text : List ℕ) → IsBare text → after_prefix (name ++ (b'=' ∷ [])) text ≡ none
unfolding after_prefix
after_prefix-end [] [] t = refl
after_prefix-end [] (y ∷ text) t = ground arith
after_prefix-end (x ∷ name) [] t = refl
after_prefix-end (x ∷ name) (y ∷ text) t = elim (Bool-cases (x == y)) [
  | inl e ↦ rw e (after_prefix-end name text t.1)
  | inr e ↦ rw e refl
]

-- The search passes over the text of a field.
pub after_first-text :
    (name text more : List ℕ)
    → IsName name
    → IsBare text
    → after_first (name ++ (b'=' ∷ [])) (text ++ (space ∷ more))
      ≡ after_first (name ++ (b'=' ∷ [])) more
unfolding after_first
after_first-text name [] more n t = rw (after_first, after_prefix-text name [] more n tt) refl
after_first-text name (b ∷ text) more n t =
    rw (after_first, after_prefix-text name (b ∷ text) more n t)
      (after_first-text name text more n t.1)

pub after_first-end :
    (name text : List ℕ) → IsBare text → after_first (name ++ (b'=' ∷ [])) text ≡ none
unfolding after_first
after_first-end name [] t = after_prefix-end name [] tt
after_first-end name (b ∷ text) t =
    rw (after_first, after_prefix-end name (b ∷ text) t) (after_first-end name text t.1)

-- No match of the search starts in the label of a field.
abbrev pub Passes : List ℕ → List ℕ → Type 0
Passes name label =
    (more : List ℕ)
    → after_first (name ++ (b'=' ∷ [])) (label ++ more) ≡ after_first (name ++ (b'=' ∷ [])) more

-- The search passes over a field with another label.
pub after_first-field :
    (name label text : List ℕ) (ts : List (List ℕ))
    → IsName name
    → Passes name label
    → IsBare text
    → after_first (name ++ (b'=' ∷ [])) (spaced ((label ++ text) ∷ ts))
      ≡ after_first (name ++ (b'=' ∷ [])) (spaced ts)
unfolding after_first
after_first-field name label text [] n p t =
    p text ∙ (rw (after_first-end name text t, after_first-end name [] tt) refl)
after_first-field name label text (u ∷ ts) n p t =
    rw (append_assoc label text (space ∷ spaced (u ∷ ts)))
      (p (text ++ (space ∷ spaced (u ∷ ts))) ∙ after_first-text name text (spaced (u ∷ ts)) n t)

-- What stands behind the text of a field.
abbrev pub behind : List (List ℕ) → List ℕ
behind [] = []
behind (u ∷ ts) = space ∷ spaced (u ∷ ts)

pub spaced-behind : (t : List ℕ) (ts : List (List ℕ)) → spaced (t ∷ ts) ≡ t ++ behind ts
spaced-behind t [] = sym (append-nil t)
spaced-behind t (u ∷ ts) = refl

-- The text of a field that fits is copied whole.
pub copy_field-text :
    (n : ℕ) (text : List ℕ) (ts : List (List ℕ))
    → IsClean text
    → length text ≤ n
    → copy_field n (text ++ behind ts) ≡ text
unfolding copy_field
copy_field-text zero [] ts c h = refl
copy_field-text zero (b ∷ text) ts c h = absurd (omega arith)
copy_field-text (suc n) [] [] c h = refl
copy_field-text (suc n) [] (u ∷ ts) c h = refl
copy_field-text (suc n) (b ∷ text) ts c h =
    rw (copy_field, c.0.0, c.0.1) (ap (λ l. b ∷ l) (copy_field-text n text ts c.1 (omega arith)))
