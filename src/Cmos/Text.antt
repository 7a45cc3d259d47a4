-- ===== src/Cmos/Text.antt =====
-- C strings as lists of bytes without their NUL, and what lib/cmos uses of string.h on them.
pub mod Tokens
pub mod Decimal
use Prim.Native.Char.{code}
use loop_charger_inverter.Prelude.{
  ℕ, Bool, true, false, ◌&&◌, ◌||◌, Option, none, some, List, [], ◌∷◌, String, ◌==◌, if◌then◌else◌,
}

-- The bytes of a text in ASCII.
abbrev pub codes : String → List ℕ
codes String.[] = []
codes (String.◌∷◌ c s) = code c ∷ codes s

abbrev pub space : ℕ
space = 32

abbrev pub newline : ℕ
newline = 10

abbrev pub carriage_return : ℕ
carriage_return = 13

-- The string that starts a buffer: the bytes before the first NUL.
unfoldable pub c_string : List ℕ → List ℕ
c_string [] = []
c_string (b ∷ bs) = let rest = c_string bs in if b == 0 then [] else b ∷ rest

-- `strcmp(a, b) == 0`.
unfoldable pub same_text : List ℕ → List ℕ → Bool
same_text [] [] = true
same_text [] (y ∷ ys) = false
same_text (x ∷ xs) [] = false
same_text (x ∷ xs) (y ∷ ys) = x == y && same_text xs ys

-- `strncmp(t, prefix, strlen(prefix)) == 0`: what follows the prefix, or `none`.
unfoldable pub after_prefix : List ℕ → List ℕ → Option (List ℕ)
after_prefix [] ys = some ys
after_prefix (x ∷ xs) [] = none
after_prefix (x ∷ xs) (y ∷ ys) = let rest = after_prefix xs ys in if x == y then rest else none

-- The delimiters of the calls of `strtok`.
abbrev pub blank_or_end : ℕ → Bool
blank_or_end b = b == space || b == carriage_return || b == newline

abbrev pub line_end : ℕ → Bool
line_end b = b == carriage_return || b == newline

abbrev pub blank : ℕ → Bool
blank b = b == space

module _ (delimiter : ℕ → Bool) where
  -- The delimiters that start a text are passed over.
  unfoldable pub skip_delimiters : List ℕ → List ℕ
  skip_delimiters [] = []
  skip_delimiters (b ∷ bs) = let rest = skip_delimiters bs in if delimiter b then rest else b ∷ bs

  -- The bytes before the first delimiter, and those behind it.
  unfoldable pub cut_token : List ℕ → List ℕ × List ℕ
  cut_token [] = ([], [])
  cut_token (b ∷ bs) =
      let (token, rest) = cut_token bs in if delimiter b then ([], bs) else (b ∷ token, rest)

  -- `strtok`: the next token, and the text that the next call goes on with.
  unfoldable pub strtok : List ℕ → Option (List ℕ × List ℕ)
  strtok text = elim (skip_delimiters text) [ [] ↦ none | b ∷ bs ↦ some (cut_token (b ∷ bs)) ]
