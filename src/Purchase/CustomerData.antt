-- ===== src/Purchase/CustomerData.antt =====
-- `ValidateCustomerData`: a check reports its errors on the parameter of the order and goes on; the
-- step calls `next_step` if none has reported one.
use swo_adobe_vipm_extension.Base.{
  ℕ, String, Option, none, some, List, [], ◌∷◌, ◌++◌, Bool, true, false, not, ◌&&◌, ◌==◌,
  if◌then◌else◌, is_blank,
}
use swo_adobe_vipm_extension.Dict.{Dict, lookup, keys}
use swo_adobe_vipm_extension.Order.{
  Address, Contact, Parameter, Value, null, text, choices, address, contact, ErrorData,
  AddressError, ContactError, country_code, state_or_province, postal_code_format,
  postal_code_length, address_line_1_length, address_line_2_length, city_length, state_did_you_mean,
  mandatory, first_name_format, last_name_format, email_format, phone_number_length,
  no_minimums_3yc, quantity_3yc_licenses, quantity_3yc_consumables, company_name_length,
  company_name_chars, address_error, contact_error,
}
use swo_adobe_vipm_extension.Params.{
  get_ordering_parameter, set_ordering_parameter_error, set_order_error,
  update_ordering_parameter_value,
}
use swo_adobe_vipm_extension.Context.{
  Context, Exception, key_error, type_error, Reply, ok, raises, customer_data,
}
use swo_adobe_vipm_extension.Pipeline.Linear.{Ends, stops, proceeds}
use swo_adobe_vipm_extension.Pipeline.Linear
use swo_adobe_vipm_extension.Purchase.Checks.{
  Country, Rules, is_valid_company_name_length, is_valid_state_or_province, is_valid_postal_code,
  is_valid_maxlength, is_valid_minimum_quantity, is_valid_phone_number,
}

abbrev pub invalid : Context → Context
invalid context = record context { validation_succeeded = false }

-- One check after another; an exception ends them.
infixl 5 ◌>=>◌
abbrev pub ◌>=>◌ :
    Ends Context Exception → (Context → Ends Context Exception) → Ends Context Exception
stops context >=> f = stops context
proceeds context >=> f = f context
Linear.raises e context >=> f = Linear.raises e context

-- An error on a parameter, with the parameter's name as its title.
abbrev pub reported :
    String → (String → ErrorData) → Bool → Context → Option Parameter → Ends Context Exception
reported param_name error required context none = Linear.raises (key_error "name") context
reported param_name error required context (some param) = proceeds (record context {
  order = set_ordering_parameter_error context.order param_name (error param.name) required;
})

unfoldable pub report : String → (String → ErrorData) → Bool → Context → Ends Context Exception
unfolding set_ordering_parameter_error get_ordering_parameter
report param_name error required context =
    reported param_name error required (invalid context)
      (get_ordering_parameter context.order param_name)

abbrev pub add {ℓ} : {A : Type ℓ} → Bool → A → List A
add true e = []
add false e = e ∷ []

module _ (rules : Rules) where
  abbrev pub check_company_name : Context → Value → Ends Context Exception
  check_company_name context (text name) =
      if not (is_valid_company_name_length name)
      then report "companyName" company_name_length true context
      else if not (rules.matches_company_name name)
      then report "companyName" company_name_chars true context
      else proceeds context
  check_company_name context _ = Linear.raises type_error context

  unfoldable pub validate_company_name : Context → Ends Context Exception
  unfolding report is_valid_company_name_length
  validate_company_name context = check_company_name context (customer_data context "companyName")

  -- The state's errors, and the address, whose state a single suggestion replaces.
  abbrev pub suggest : Address → List String → List AddressError × Address
  suggest a [] = (state_or_province ∷ [], a)
  suggest a (s ∷ []) = ([], record a { state = s })
  suggest a (s ∷ t ∷ rest) = (state_did_you_mean (s ∷ t ∷ rest) ∷ [], a)

  abbrev pub by_provinces : Country → Address → Dict String → List AddressError × Address
  by_provinces country a [] = (state_or_province ∷ [], a)
  by_provinces country a (p ∷ ps) = suggest a (rules.get_close_matches a.state (keys (p ∷ ps)))

  unfoldable pub check_state : Country → Address → List AddressError × Address
  unfolding is_valid_state_or_province
  check_state country a =
      if is_valid_state_or_province country a.state
      then ([], a)
      else by_provinces country a country.provinces_to_code

  abbrev pub line_2_is_valid : Option String → Bool
  line_2_is_valid none = true
  line_2_is_valid (some s) = if is_blank s then true else is_valid_maxlength 60 s

  unfoldable pub field_errors : Country → Address → List AddressError
  unfolding is_valid_postal_code is_valid_maxlength
  field_errors country a =
      add (is_valid_postal_code country a.post_code) postal_code_format
      ++ (add (is_valid_maxlength 40 a.post_code) postal_code_length
          ++ (add (is_valid_maxlength 60 a.address_line1) address_line_1_length
              ++ (add (is_valid_maxlength 40 a.city) city_length
                  ++ add (line_2_is_valid a.address_line2) address_line_2_length)))

  -- The value is changed where it stands, so the order has the new state with or without errors.
  abbrev pub with_address : Context → Address → Context
  with_address context a = record context {
    order = update_ordering_parameter_value context.order "address" (address a);
  }

  abbrev pub conclude_address : Context → List AddressError → Ends Context Exception
  conclude_address context [] = proceeds context
  conclude_address context (e ∷ es) =
      report "address" (λ title. address_error title (e ∷ es)) true context

  abbrev pub check_country : Context → Address → Option Country → Ends Context Exception
  check_country context a none =
      report "address" (λ title. address_error title (country_code ∷ [])) true context
  check_country context a (some country) =
      let result = check_state country a in
      conclude_address (with_address context result.1) (result.0 ++ field_errors country a)

  abbrev pub check_address : Context → Value → Ends Context Exception
  check_address context (address a) = check_country context a (lookup a.country rules.countries)
  check_address context _ = Linear.raises type_error context

  unfoldable pub validate_address : Context → Ends Context Exception
  unfolding report check_state field_errors update_ordering_parameter_value
  validate_address context = check_address context (customer_data context "address")

  unfoldable pub contact_errors : Contact → List ContactError
  unfolding is_valid_phone_number
  contact_errors c =
      add (rules.matches_first_last_name c.first_name) first_name_format
      ++ (add (rules.matches_first_last_name c.last_name) last_name_format
          ++ (add (rules.matches_email c.email) email_format
              ++ add (is_valid_phone_number c.phone) phone_number_length))

  abbrev pub conclude_contact : Context → List ContactError → Ends Context Exception
  conclude_contact context [] = proceeds context
  conclude_contact context (e ∷ es) =
      report "contact" (λ title. contact_error title (e ∷ es)) true context

  abbrev missing_contact : Context → Ends Context Exception
  missing_contact context =
      report "contact" (λ title. contact_error title (mandatory ∷ [])) true context

  abbrev pub check_contact : Context → Value → Ends Context Exception
  check_contact context (contact c) = conclude_contact context (contact_errors c)
  check_contact context null = missing_contact context
  check_contact context (choices []) = missing_contact context
  check_contact context (text s) =
      if is_blank s then missing_contact context else Linear.raises type_error context
  check_contact context _ = Linear.raises type_error context

  unfoldable pub validate_contact : Context → Ends Context Exception
  unfolding report contact_errors
  validate_contact context = check_contact context (customer_data context "contact")

-- One of the two quantities of a three-year commitment.
abbrev pub check_minimum :
    String → (String → ErrorData) → Context → Reply Bool → Ends Context Exception
check_minimum param_name error context (ok true) = proceeds context
check_minimum param_name error context (ok false) = report param_name error false context
check_minimum param_name error context (raises e) = Linear.raises e context

abbrev pub is_falsy : Value → Bool
is_falsy null = true
is_falsy (text s) = is_blank s
is_falsy (choices []) = true
is_falsy _ = false

abbrev pub named : Context → Option Parameter → Option Parameter → Ends Context Exception
named context (some licenses) (some consumables) = proceeds (record context {
  order = set_order_error context.order (no_minimums_3yc licenses.name consumables.name);
})
named context _ _ = Linear.raises (key_error "name") context

abbrev pub check_no_minimums : Context → Ends Context Exception
check_no_minimums context =
    if is_falsy (customer_data context "3YCLicenses")
      && is_falsy (customer_data context "3YCConsumables")
    then named (invalid context) (get_ordering_parameter context.order "3YCLicenses")
        (get_ordering_parameter context.order "3YCConsumables")
    else proceeds context

abbrev pub wants_3yc : Value → Bool
wants_3yc (choices (s ∷ [])) = s == "Yes"
wants_3yc _ = false

abbrev pub check_minimum_of : String → ℕ → (String → ErrorData) → Context → Ends Context Exception
check_minimum_of param_name minimum error context =
    check_minimum param_name error context
      (is_valid_minimum_quantity minimum (customer_data context param_name))

unfoldable pub validate_3yc : Context → Ends Context Exception
unfolding report is_valid_minimum_quantity get_ordering_parameter set_order_error
validate_3yc context =
    if wants_3yc (customer_data context "3YC")
    then check_minimum_of "3YCConsumables" 1000 quantity_3yc_consumables context
      >=> check_minimum_of "3YCLicenses" 10 quantity_3yc_licenses
      >=> check_no_minimums
    else proceeds context

abbrev pub finish : Context → Ends Context Exception
finish context = if context.validation_succeeded then proceeds context else stops context

unfoldable pub validate_customer_data : Rules → Context → Ends Context Exception
unfolding validate_company_name validate_address validate_contact validate_3yc
validate_customer_data rules context =
    validate_company_name rules context
    >=> validate_address rules
    >=> validate_contact rules
    >=> validate_3yc
    >=> finish
