-- ===== src/Base/ParseInt.antt =====
-- Python's `int(text)`: white space around an optional sign and decimal digits, with single underscores
-- between digits. Digits and spaces outside ASCII are not read.
use Prim.Native.Nat.{ℕ, ◌+◌, ◌-◌, ◌*◌}
use Prim.Native.Char.{Char, code}
use Prim.Native.String.{String, [], ◌∷◌}
use mathlib.Core.Path.{◌≡◌, refl}
use mathlib.Core.Bool.{Bool, true, false, ◌&&◌, ◌||◌}
use mathlib.Core.Option
use mathlib.Core.Option.{Option, none, some}
use swo_adobe_vipm_extension.Base.Tests.{leb, eqb, if◌then◌else◌}
use swo_adobe_vipm_extension.Base.Int.{ℤ, pos, negsuc, sub_ℕ}

pub data CharClass : Type 0 where
  digit : ℕ → CharClass
  underscore space other : CharClass

abbrev pub classify : Char → CharClass
classify c =
    let n = code c in
    if leb 48 n && leb n 57
    then digit (n - 48)
    else if eqb n 95
    then underscore
    else if eqb n 32 || (leb 9 n && leb n 13)
    then space
    else other

all_spaces : String → Bool
all_spaces [] = true
all_spaces (c ∷ s) = elim (classify c) [ space ↦ all_spaces s | _ ↦ false ]

-- The digits from here on, after `n`; `after_digit` says whether the last character was a digit.
digits : ℕ → Bool → String → Option ℕ
digits n after_digit [] = if after_digit then some n else none
digits n after_digit (c ∷ s) = elim (classify c) [
  | digit d ↦ digits (n * 10 + d) true s
  | underscore ↦ if after_digit then digits n false s else none
  | space ↦ if after_digit && all_spaces s then some n else none
  | other ↦ none
]

signed : String → Option ℤ
signed [] = none
signed (c ∷ s) =
    if eqb (code c) 45
    then Option.map (sub_ℕ 0) (digits 0 false s)
    else if eqb (code c) 43
    then Option.map pos (digits 0 false s)
    else Option.map pos (digits 0 false (c ∷ s))

-- `ValueError` is `none`.
unfoldable pub parse_int : String → Option ℤ
unfolding signed digits all_spaces
parse_int [] = none
parse_int (c ∷ s) = elim (classify c) [ space ↦ parse_int s | _ ↦ signed (c ∷ s) ]

parse_int_examples :
    (parse_int " -1_200 " ≡ some (negsuc 1199))
    × (parse_int "+7" ≡ some (pos 7))
    × (parse_int "1__2" ≡ none)
    × (parse_int "12a" ≡ none)
unfolding parse_int
parse_int_examples = (refl, refl, refl, refl)
