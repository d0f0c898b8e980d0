-- ===== src/Purchase/Checks.antt =====
-- The checks of single fields (adobe_vipm/adobe/validation.py). The regular expressions are matched by
-- the `regex` package, and close matches found by `difflib`: both are arguments.
use swo_adobe_vipm_extension.Base.{
  ℕ, ◌+◌, String, Option, none, some, List, [], Bool, true, false, ◌&&◌, leb, contains, is_blank,
  len_text, parse_int, if◌then◌else◌,
}
use swo_adobe_vipm_extension.Base.Int.{ℤ, pos, leb_ℤ}
use swo_adobe_vipm_extension.Dict.{Dict, lookup}
use swo_adobe_vipm_extension.Order.{Phone, Value, null, text, choices}
use swo_adobe_vipm_extension.Context.{type_error, Reply, ok, raises}

-- A country of adobe_vipm/adobe/config.py; a match of its postal code format where it has one.
pub record Country : Type 0 where
  pub states_or_provinces : List String
  pub provinces_to_code : Dict String
  pub matches_postal_code : Option (String → Bool)

-- The configured countries, the patterns of adobe_vipm/adobe/constants.py and `get_close_matches`.
pub record Rules : Type 0 where
  pub countries : Dict Country
  pub matches_company_name : String → Bool
  pub matches_first_last_name : String → Bool
  pub matches_email : String → Bool
  pub get_close_matches : String → List String → List String

unfoldable pub is_valid_company_name_length : String → Bool
is_valid_company_name_length name = leb 4 (len_text name) && leb (len_text name) 59

abbrev or_same : String → Option String → String
or_same s none = s
or_same s (some code) = code

unfoldable pub is_valid_state_or_province : Country → String → Bool
is_valid_state_or_province country state =
    contains country.states_or_provinces (or_same state (lookup state country.provinces_to_code))

unfoldable pub is_valid_postal_code : Country → String → Bool
is_valid_postal_code country postal_code = elim (country.matches_postal_code) [
  | none ↦ true
  | some matches ↦ matches postal_code
]

-- `_is_valid_maxlength`
unfoldable pub is_valid_maxlength : ℕ → String → Bool
is_valid_maxlength max_length field_value = leb (len_text field_value) max_length

abbrev at_least : ℕ → Option ℤ → Bool
at_least minimum none = false
at_least minimum (some n) = leb_ℤ (pos minimum) n

-- `_is_valid_minimum_quantity`; what is no number counts as -1.
unfoldable pub is_valid_minimum_quantity : ℕ → Value → Reply Bool
unfolding parse_int
is_valid_minimum_quantity minimum null = ok true
is_valid_minimum_quantity minimum (choices []) = ok true
is_valid_minimum_quantity minimum (text s) =
    ok (if is_blank s then true else at_least minimum (parse_int s))
is_valid_minimum_quantity minimum _ = raises type_error

-- `is_valid_phone_number_length(join_phone_number(phone))`
unfoldable pub is_valid_phone_number : Option Phone → Bool
is_valid_phone_number none = true
is_valid_phone_number (some phone) = leb (len_text phone.prefix + len_text phone.number) 40
