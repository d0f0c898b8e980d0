-- ===== src/Preview/Message.antt =====
-- `flex_discount_not_qualify_re`: the regular expression `Line Item: ?(\d+)`, without regard to case,
-- matched at the start of Adobe's message. Digits outside ASCII are not read.
use Prim.Native.Char.{Char, code}
use Prim.Native.String.{String, [], ◌∷◌}
use swo_adobe_vipm_extension.Base.{
  ℕ, ◌+◌, ◌-◌, ◌*◌, ◌≡◌, refl, Option, none, some, Bool, ◌&&◌, ◌||◌, leb, eqb, if◌then◌else◌,
}

-- `word` is in lower case.
same_letter : Char → Char → Bool
same_letter c w =
    eqb (code c) (code w) || (leb 65 (code c) && leb (code c) 90 && eqb (code c + 32) (code w))

after_word : String → String → Option String
after_word [] s = some s
after_word (w ∷ word) [] = none
after_word (w ∷ word) (c ∷ s) = if same_letter c w then after_word word s else none

after_space : String → String
after_space [] = []
after_space (c ∷ s) = if eqb (code c) 32 then s else c ∷ s

is_digit : Char → Bool
is_digit c = leb 48 (code c) && leb (code c) 57

digits_from : ℕ → String → ℕ
digits_from n [] = n
digits_from n (c ∷ s) =
    let rest = digits_from (n * 10 + (code c - 48)) s in if is_digit c then rest else n

first_number : String → Option ℕ
first_number [] = none
first_number (c ∷ s) = if is_digit c then some (digits_from 0 (c ∷ s)) else none

unfoldable pub line_item_number : String → Option ℕ
unfolding after_word same_letter after_space first_number digits_from is_digit
line_item_number message = elim (after_word "line item:" message) [
  | none ↦ none
  | some s ↦ first_number (after_space s)
]

line_item_number_examples :
    (line_item_number "Line Item: 12, Reason: Invalid Flexible Discount" ≡ some 12)
    × (line_item_number "LINE item:3" ≡ some 3)
    × (line_item_number "Line Item:  2" ≡ none)
    × (line_item_number "The Line Item: 2" ≡ none)
unfolding line_item_number
line_item_number_examples = (refl, refl, refl, refl)
