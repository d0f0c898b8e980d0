-- ===== src/Examples/Purchase.antt =====
-- A purchase that is valid but for an item that a subscription has.
use swo_adobe_vipm_extension.Base.{refl, some, [], ◌∷◌, true, false}
use swo_adobe_vipm_extension.Context.{Context}
use swo_adobe_vipm_extension.Examples.Data.{
  new_line, context_of, param_of, the_order, the_address, the_contact,
}
use swo_adobe_vipm_extension.Order.{null, contact}
use swo_adobe_vipm_extension.Purchase.Prepare.{Licensee, prepare_customer_data}
use swo_adobe_vipm_extension.Purchase.Prepared.{IsPrepared, prepare_customer_data-IsPrepared}
use swo_adobe_vipm_extension.Purchase.Checks.{Rules}
use swo_adobe_vipm_extension.Purchase.CustomerData.{validate_customer_data}
use swo_adobe_vipm_extension.Purchase.Accepted.{IsAccepted, validate_customer_data-IsAccepted}
use swo_adobe_vipm_extension.Purchase.Steps.{validate_duplicate_lines}
use swo_adobe_vipm_extension.Purchase.Duplicates.{IsChecked, validate_duplicate_lines-IsChecked}

abbrev rules : Rules
rules = record {
  countries =
      (
        "ES",
        record {
          states_or_provinces = "Madrid" ∷ [];
          provinces_to_code = [];
          matches_postal_code = some (λ s. true);
        },
      )
      ∷ [];
  matches_company_name = λ s. true;
  matches_first_last_name = λ s. true;
  matches_email = λ s. true;
  get_close_matches = λ s ss. [];
}

abbrev purchase : Context
purchase = context_of [] [] (new_line ∷ [])

validate_customer_data-IsAccepted_example : IsAccepted rules purchase purchase
unfolding validate_customer_data
validate_customer_data-IsAccepted_example =
    validate_customer_data-IsAccepted rules purchase purchase refl

validate_duplicate_lines-IsChecked_example : IsChecked purchase (validate_duplicate_lines purchase)
validate_duplicate_lines-IsChecked_example = validate_duplicate_lines-IsChecked purchase

-- The order has a contact, but neither a company name nor a parameter for the address.
abbrev unnamed : Context
unnamed = record purchase {
  order = record the_order {
    ordering = param_of "companyName" null ∷ param_of "contact" (contact the_contact) ∷ [];
  };
}

abbrev acme : Licensee
acme = record { name = "ACME"; located_at = the_address; reached_by = some the_contact }

prepare_customer_data-IsPrepared_example :
    IsPrepared false acme unnamed (prepare_customer_data false acme unnamed)
prepare_customer_data-IsPrepared_example = prepare_customer_data-IsPrepared false acme unnamed
