-- ===== src/Purchase/Addresses.antt =====
-- The address that passes `validate_address`.
use mathlib.Core.Path.{subst}
use swo_adobe_vipm_extension.Base.{
  ℕ, ◌≤◌, ◌≡◌, refl, ap, String, Option, none, some, List, [], ◌∷◌, ◌++◌, Bool, true, false,
  if◌then◌else◌, len_text, arith,
}
use swo_adobe_vipm_extension.Dict.{Dict, lookup, keys}
use swo_adobe_vipm_extension.Order.{
  Address, Value, null, text, choices, address, contact, AddressError, address_error, country_code,
}
use swo_adobe_vipm_extension.Context.{Context, customer_data}
use swo_adobe_vipm_extension.Pipeline.Linear.{proceeds}
use swo_adobe_vipm_extension.Purchase.Checks.{
  Country, Rules, is_valid_state_or_province, is_valid_postal_code, is_valid_maxlength,
}
use swo_adobe_vipm_extension.Purchase.CustomerData.{
  add, suggest, by_provinces, check_state, line_2_is_valid, field_errors, with_address,
  conclude_address, check_country, check_address,
}
use swo_adobe_vipm_extension.Purchase.Reports.{no_report}

module _ (rules : Rules) where
  -- The state that is kept: a valid one as it is, else the single suggestion for it.
  pub data HasState (country : Country) (a : Address) : Address → Type 0 where
    as_given : is_valid_state_or_province country a.state ≡ true → HasState country a a
    corrected :
        (s : String)
        → rules.get_close_matches a.state (keys country.provinces_to_code) ≡ s ∷ []
        → HasState country a (record a { state = s })

  -- The address of a configured country, each field within its bounds.
  pub record HasAddress (context c : Context) : Type 0 where
    pub given : Address
    pub kept : Address
    pub country : Country
    pub value : customer_data context "address" ≡ address given
    pub configured : lookup given.country rules.countries ≡ some country
    pub state : HasState country given kept
    pub post_code : is_valid_postal_code country given.post_code ≡ true
    pub post_code_length : len_text given.post_code ≤ 40
    pub line_1_length : len_text given.address_line1 ≤ 60
    pub city_length : len_text given.city ≤ 40
    pub line_2_length : (s : String) → given.address_line2 ≡ some s → len_text s ≤ 60
    pub stored : c ≡ with_address rules context kept

  pub append-nil_parts :
      {A : Type 0} (b : Bool) (e : A) (rest : List A)
      → add b e ++ rest ≡ []
      → (b ≡ true) × (rest ≡ [])
  append-nil_parts true e rest h = (refl, h)
  append-nil_parts false e rest h = cc

  field_errors_lem :
      (country : Country) (a : Address)
      → field_errors rules country a ≡ []
      → (is_valid_postal_code country a.post_code ≡ true)
        × (is_valid_maxlength 40 a.post_code ≡ true)
        × (is_valid_maxlength 60 a.address_line1 ≡ true)
        × (is_valid_maxlength 40 a.city ≡ true)
        × (line_2_is_valid rules a.address_line2 ≡ true)
  unfolding field_errors
  field_errors_lem country a h =
      let (p, h1) = append-nil_parts (is_valid_postal_code country a.post_code) _ _ h in
      let (q, h2) = append-nil_parts (is_valid_maxlength 40 a.post_code) _ _ h1 in
      let (r, h3) = append-nil_parts (is_valid_maxlength 60 a.address_line1) _ _ h2 in
      let (s, h4) = append-nil_parts (is_valid_maxlength 40 a.city) _ _ h3 in
      (p, q, r, s, last_lem (line_2_is_valid rules a.address_line2) _ h4)
    where
      last_lem : (b : Bool) (e : AddressError) → add b e ≡ [] → b ≡ true
      last_lem true e h = refl
      last_lem false e h = cc

  maxlength_lem : (n : ℕ) (s : String) → is_valid_maxlength n s ≡ true → len_text s ≤ n
  unfolding is_valid_maxlength
  maxlength_lem n s h = ground arith

  line_2_lem :
      (line : Option String) (s : String)
      → line_2_is_valid rules line ≡ true
      → line ≡ some s
      → len_text s ≤ 60
  line_2_lem none s h e = cc
  line_2_lem (some String.[]) s h e =
      let same : String.[] ≡ s = cc in subst (λ x. len_text x ≤ 60) same (omega arith)
  line_2_lem (some (String.◌∷◌ x xs)) s h e =
      let same : String.◌∷◌ x xs ≡ s = cc in
      subst (λ y. len_text y ≤ 60) same (maxlength_lem 60 (String.◌∷◌ x xs) h)

  state_lem :
      (country : Country) (a : Address)
      → (check_state rules country a).0 ≡ []
      → HasState country a (check_state rules country a).1
  unfolding check_state
  state_lem country a h = by_valid (is_valid_state_or_province country a.state) refl h
    where
      by_suggestions :
          (found : List String)
          → rules.get_close_matches a.state (keys country.provinces_to_code) ≡ found
          → (suggest rules a found).0 ≡ []
          → HasState country a (suggest rules a found).1
      by_suggestions [] e h = cc
      by_suggestions (s ∷ []) e h = corrected s e
      by_suggestions (s ∷ t ∷ rest) e h = cc

      by_codes :
          (d : Dict String)
          → country.provinces_to_code ≡ d
          → (by_provinces rules country a d).0 ≡ []
          → HasState country a (by_provinces rules country a d).1
      by_codes [] e h = cc
      by_codes (p ∷ ps) e h =
          by_suggestions (rules.get_close_matches a.state (keys (p ∷ ps)))
            (ap (λ d. rules.get_close_matches a.state (keys d)) e) h

      by_valid :
          (b : Bool)
          → is_valid_state_or_province country a.state ≡ b
          → (if b then ([], a) else by_provinces rules country a country.provinces_to_code).0 ≡ []
          → HasState country a
              (if b then ([], a) else by_provinces rules country a country.provinces_to_code).1
      by_valid true e h = as_given e
      by_valid false e h = by_codes country.provinces_to_code refl h

  address_errors_lem :
      (context c : Context) (a : Address) (country : Country) (errors : List AddressError)
      → customer_data context "address" ≡ address a
      → lookup a.country rules.countries ≡ some country
      → (check_state rules country a).0 ++ field_errors rules country a ≡ errors
      → conclude_address rules (with_address rules context (check_state rules country a).1) errors
        ≡ proceeds c
      → c.validation_succeeded ≡ true
      → HasAddress context c
  address_errors_lem context c a country [] value configured e h t =
      let (none_of_state, none_of_fields) = nil_parts (check_state rules country a).0 _ e in
      let (p, q, r, s, l) = field_errors_lem country a none_of_fields in
      record {
        given = a;
        kept = (check_state rules country a).1;
        country = country;
        value = value;
        configured = configured;
        state = state_lem country a none_of_state;
        post_code = p;
        post_code_length = maxlength_lem 40 a.post_code q;
        line_1_length = maxlength_lem 60 a.address_line1 r;
        city_length = maxlength_lem 40 a.city s;
        line_2_length = λ line f. line_2_lem a.address_line2 line l f;
        stored = cc;
      }
    where
      nil_parts : (xs ys : List AddressError) → xs ++ ys ≡ [] → (xs ≡ []) × (ys ≡ [])
      nil_parts [] ys h = (refl, h)
      nil_parts (x ∷ xs) ys h = cc
  address_errors_lem context c a country (x ∷ xs) value configured e h t =
      no_report "address" (λ title. address_error title (x ∷ xs)) true
        (with_address rules context (check_state rules country a).1) c h t

  pub address_lem :
      (context c : Context) (v : Value)
      → customer_data context "address" ≡ v
      → check_address rules context v ≡ proceeds c
      → c.validation_succeeded ≡ true
      → HasAddress context c
  address_lem context c (address a) e h t = by_country (lookup a.country rules.countries) refl h
    where
      by_country :
          (found : Option Country)
          → lookup a.country rules.countries ≡ found
          → check_country rules context a found ≡ proceeds c
          → HasAddress context c
      by_country none f h =
          no_report "address" (λ title. address_error title (country_code ∷ [])) true context c h t
      by_country (some country) f h =
          address_errors_lem context c a country
            ((check_state rules country a).0 ++ field_errors rules country a) e f refl h t
  address_lem context c null e h t = cc
  address_lem context c (text _) e h t = cc
  address_lem context c (choices _) e h t = cc
  address_lem context c (contact _) e h t = cc
