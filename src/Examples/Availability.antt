-- ===== src/Examples/Availability.antt =====
-- An upsize whose SKU is on sale and a new line whose SKU is not, of a customer without commitment.
use swo_adobe_vipm_extension.Base.{none, some, [], ◌∷◌, false}
use swo_adobe_vipm_extension.Context.{Context}
use swo_adobe_vipm_extension.Availability.{Outside, validate_sku_availability}
use swo_adobe_vipm_extension.Availability.Checked.{IsChecked, validate_sku_availability-IsChecked}
use swo_adobe_vipm_extension.Examples.Data.{
  upsize_line, new_line, the_table, the_customer, context_of,
}

abbrev on_sale : Outside
on_sale = record {
  products = the_table;
  rows =
      record { partial_sku = "65304578CA"; currency = "EUR"; valid_from = 1; valid_until = none }
      ∷ record {
        partial_sku = "77777777CA";
        currency = "EUR";
        valid_from = 1;
        valid_until = some 300;
      }
      ∷ [];
  currency = "EUR";
  today = 400;
}

-- The new line is expired today.
abbrev changing : Context
changing = record (context_of [] (upsize_line ∷ []) (new_line ∷ [])) {
  adobe_customer = some (record the_customer { benefits = [] });
}

validate_sku_availability-IsChecked_example :
    IsChecked false on_sale changing (validate_sku_availability false on_sale changing)
validate_sku_availability-IsChecked_example =
    validate_sku_availability-IsChecked false on_sale changing
