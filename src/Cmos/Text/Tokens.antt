-- ===== src/Cmos/Text/Tokens.antt =====
-- The texts that `strtok` and the comparisons take apart again.
use loop_charger_inverter.Prelude.{
  ℕ, ◌≡◌, ◌↔◌, refl, ap, Bool, true, false, none, some, List, [], ◌∷◌, ◌++◌, All, arith, ◌==◌,
  ==_refl,
}
use loop_charger_inverter.Cmos.Text.{
  c_string, same_text, after_prefix, skip_delimiters, cut_token, strtok,
}

pub same_text_refl : (t : List ℕ) → same_text t t ≡ true
unfolding same_text
same_text_refl [] = refl
same_text_refl (x ∷ xs) = rw (==_refl x, same_text_refl xs) refl

pub same_text_iff : (s t : List ℕ) → (same_text s t ≡ true) ↔ (s ≡ t)
unfolding same_text
same_text_iff s t = (forward s t, λ e. rw e (same_text_refl t))
  where
    forward : (s t : List ℕ) → same_text s t ≡ true → s ≡ t
    forward [] [] h = refl
    forward [] (y ∷ ys) h = ground arith
    forward (x ∷ xs) [] h = ground arith
    forward (x ∷ xs) (y ∷ ys) h =
        let here : x ≡ y = ground arith in let rest : xs ≡ ys = forward xs ys (ground arith) in cc

pub after_prefix-append : (p t : List ℕ) → after_prefix p (p ++ t) ≡ some t
unfolding after_prefix
after_prefix-append [] t = refl
after_prefix-append (x ∷ p) t = rw (==_refl x) (after_prefix-append p t)

-- No byte of the text is a delimiter.
abbrev pub IsWord : (ℕ → Bool) → List ℕ → Type 0
IsWord delimiter t = All (λ b. delimiter b ≡ false) t

pub cut_token-word :
    (delimiter : ℕ → Bool) (word : List ℕ) (d : ℕ) (rest : List ℕ)
    → IsWord delimiter word
    → delimiter d ≡ true
    → cut_token delimiter (word ++ (d ∷ rest)) ≡ (word, rest)
unfolding cut_token
cut_token-word delimiter [] d rest h e = rw e refl
cut_token-word delimiter (b ∷ word) d rest h e =
    rw (h.0, cut_token-word delimiter word d rest h.1 e) refl

pub cut_token-last :
    (delimiter : ℕ → Bool) (word : List ℕ)
    → IsWord delimiter word
    → cut_token delimiter word ≡ (word, [])
unfolding cut_token
cut_token-last delimiter [] h = refl
cut_token-last delimiter (b ∷ word) h = rw (h.0, cut_token-last delimiter word h.1) refl

-- A word that is not empty, with a delimiter behind it, is the next token.
pub strtok-word :
    (delimiter : ℕ → Bool) (b : ℕ) (word : List ℕ) (d : ℕ) (rest : List ℕ)
    → IsWord delimiter (b ∷ word)
    → delimiter d ≡ true
    → strtok delimiter (b ∷ word ++ (d ∷ rest)) ≡ some (b ∷ word, rest)
unfolding strtok skip_delimiters
strtok-word delimiter b word d rest h e =
    rw (strtok, skip_delimiters, h.0) (ap some (cut_token-word delimiter (b ∷ word) d rest h e))

-- The last word of a text is its last token.
pub strtok-last :
    (delimiter : ℕ → Bool) (b : ℕ) (word : List ℕ)
    → IsWord delimiter (b ∷ word)
    → strtok delimiter (b ∷ word) ≡ some (b ∷ word, [])
unfolding strtok skip_delimiters
strtok-last delimiter b word h =
    rw (strtok, skip_delimiters, h.0) (ap some (cut_token-last delimiter (b ∷ word) h))

pub strtok-none : (delimiter : ℕ → Bool) → strtok delimiter [] ≡ none
unfolding strtok skip_delimiters
strtok-none delimiter = refl

-- A text without NUL is a string as it stands.
pub c_string-IsWord : (t : List ℕ) → IsWord (λ b. b == 0) t → c_string t ≡ t
unfolding c_string
c_string-IsWord [] h = refl
c_string-IsWord (b ∷ t) h = rw (h.0) (ap (λ l. b ∷ l) (c_string-IsWord t h.1))
