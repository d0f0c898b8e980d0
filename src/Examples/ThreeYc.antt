-- ===== src/Examples/ThreeYc.antt =====
-- The three-year commitment's theorems on an order of one upsize and one new line.
use swo_adobe_vipm_extension.Base.{◌≡◌, refl, arith, ◌↔◌, none, List, [], ◌∷◌, true, All}
use swo_adobe_vipm_extension.Customer.{MinimumQuantity}
use swo_adobe_vipm_extension.Catalog.{commercial}
use swo_adobe_vipm_extension.Context.{Context, ok}
use swo_adobe_vipm_extension.Pipeline.Linear.{proceeds}
use swo_adobe_vipm_extension.Order.Lines.{Split}
use swo_adobe_vipm_extension.Base.Int.{pos}
use swo_adobe_vipm_extension.Examples.Data.{
  upsize_line, new_line, the_table, the_subscription, the_customer, the_commitment, context_of,
}
use swo_adobe_vipm_extension.ThreeYc.Quantities.{Counts, get_quantities}
use swo_adobe_vipm_extension.ThreeYc.Totals.{
  expected, counts_licenses, counts_consumables, get_quantities-totals,
}
use swo_adobe_vipm_extension.ThreeYc.Minimum.{
  IsReached, validate_minimum_quantity, validate_minimum_quantity_iff,
}
use swo_adobe_vipm_extension.ThreeYc.Listed.{HaveSubscriptions}
use swo_adobe_vipm_extension.ThreeYc.Step.{
  Outside, counts_of, validate_3yc_commitment, commitment_of, ends_before_coterm,
}
use swo_adobe_vipm_extension.ThreeYc.Guarantees.{running_commitment_enforced}
use swo_adobe_vipm_extension.ThreeYc.Effects.{IsReported, validate_3yc_commitment-IsReported}

abbrev split : Split
split = record { downsize_lines = []; upsize_lines = upsize_line ∷ []; new_lines = new_line ∷ [] }

get_quantities-totals_example :
    let counts = get_quantities the_table commercial split (the_subscription ∷ []) in
    (counts.licenses ≡ expected the_table commercial counts_licenses split (the_subscription ∷ []))
    × (counts.consumables
        ≡ expected the_table commercial counts_consumables split (the_subscription ∷ []))
get_quantities-totals_example =
    get_quantities-totals the_table commercial split (the_subscription ∷ [])

abbrev minimums : List MinimumQuantity
minimums =
    record { offer_type = "LICENSE"; quantity = 9 }
    ∷ record { offer_type = "CONSUMABLES"; quantity = 4 }
    ∷ []

abbrev nine_and_four : Counts
nine_and_four = record { licenses = pos 9; consumables = pos 4 }

validate_minimum_quantity_iff_example :
    (validate_minimum_quantity minimums nine_and_four ≡ none)
    ↔ All (IsReached nine_and_four) minimums
validate_minimum_quantity_iff_example = validate_minimum_quantity_iff minimums nine_and_four

abbrev outside : Outside
outside = record {
  products = the_table;
  get_subscriptions = λ authorization customer. ok (the_subscription ∷ []);
}

abbrev change : Context
change = context_of [] (upsize_line ∷ []) (new_line ∷ [])

running_commitment_enforced_example :
    (validate_3yc_commitment true outside change ≡ proceeds change) ↔ (
      HaveSubscriptions (upsize_line ∷ []) (the_subscription ∷ [])
      × All
          (IsReached (counts_of true outside change (the_subscription ∷ [])))
          the_commitment.minimum_quantities)
unfolding commitment_of ends_before_coterm
running_commitment_enforced_example =
    running_commitment_enforced true outside change the_customer the_commitment
      (the_subscription ∷ []) refl refl refl refl (λ d e. ground (arith, e)) refl

validate_3yc_commitment-IsReported_example :
    IsReported true change (validate_3yc_commitment true outside change)
validate_3yc_commitment-IsReported_example = validate_3yc_commitment-IsReported true outside change
