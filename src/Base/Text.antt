-- ===== src/Base/Text.antt =====
-- Texts that the program compares, cuts and matches by prefix.
use Prim.Native.Nat.{ℕ, zero, suc, ◌+◌}
use Prim.Native.Char.{code}
use Prim.Native.String
use Prim.Native.String.{String, [], ◌∷◌}
use mathlib.Core.Bool.{Bool, true, false, ◌&&◌, ◌||◌}
use swo_adobe_vipm_extension.Base.Tests.{eqb, leb}

-- `s[:n]`
unfoldable pub take_text : ℕ → String → String
take_text zero s = []
take_text (suc n) [] = []
take_text (suc n) (c ∷ s) = c ∷ take_text n s

-- `s.startswith(prefix)`
unfoldable pub starts_with : String → String → Bool
starts_with [] s = true
starts_with (c ∷ p) [] = false
starts_with (c ∷ p) (d ∷ s) = eqb (code c) (code d) && starts_with p s

-- `s.lower() == word`, for a word of ASCII letters in lower case: no other character has one of its
-- letters as its lower case.
unfoldable pub lower_is : String → String → Bool
lower_is [] [] = true
lower_is [] (d ∷ word) = false
lower_is (c ∷ s) [] = false
lower_is (c ∷ s) (d ∷ word) =
    (eqb (code c) (code d) || (leb 65 (code c) && leb (code c) 90 && eqb (code c + 32) (code d)))
    && lower_is s word

-- The truth value of a text.
abbrev pub is_blank : String → Bool
is_blank [] = true
is_blank (c ∷ s) = false

-- `len(s)`, in characters
abbrev pub len_text : String → ℕ
len_text [] = 0
len_text (c ∷ s) = suc (len_text s)

-- The concatenation of texts; `++` is kept for lists.
abbrev pub append_text : String → String → String
append_text s t = String.◌++◌ s t

-- `part in s`
unfoldable pub occurs_in_text : String → String → Bool
occurs_in_text part [] = is_blank part
occurs_in_text part (c ∷ s) = starts_with part (c ∷ s) || occurs_in_text part s
