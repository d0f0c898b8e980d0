-- ===== src/Examples.antt =====
-- The theorems at concrete orders, on which every hypothesis holds.
mod Data
mod Deployments
mod Availability
mod Renewals
mod Transferring
mod Migration
mod ThreeYc
mod Preview
mod Returns
mod Prices
mod Purchase
use mathlib.Core.Option
use swo_adobe_vipm_extension.Base.{
  ℕ, suc, zero, ◌≡◌, ◌≢◌, refl, ◌↔◌, String, Option, none, some, List, [], ◌∷◌, ◌++◌, Bool, true,
  false, All, map, is_blank, not,
}
use swo_adobe_vipm_extension.Base.Int.{ℤ, pos}
use swo_adobe_vipm_extension.Customer.{AdobeSubscription}
use swo_adobe_vipm_extension.Order.{Line}
use swo_adobe_vipm_extension.Catalog.{commercial}
use swo_adobe_vipm_extension.Context.{Context, Exception, type_error, adobe, Reply, ok, raises}
use swo_adobe_vipm_extension.Examples.Data.{
  downsize_line, upsize_line, new_line, the_order, the_table, the_subscription, the_customer,
  the_commitment, context_of, adobe_order, returnable, the_address,
}
use swo_adobe_vipm_extension.Pipeline.{Step, Raised, Outcome, returned, raised, Action, run}
use swo_adobe_vipm_extension.Pipeline.Linear.{
  Ends, stops, proceeds, LinearStep, as_step, run_linear, run-eq-run_linear,
}
use swo_adobe_vipm_extension.Pipeline.Linear
use swo_adobe_vipm_extension.Pipeline.Failed.{IsAnnotated, run-IsAnnotated}
use swo_adobe_vipm_extension.Params.{
  get_value, get_ordering_parameter, update_parameters_visibility,
}
use swo_adobe_vipm_extension.Params.Tables.{type_of, constraints_for}
use swo_adobe_vipm_extension.Params.Visibility.{with_constraints, get-update_parameters_visibility}
use swo_adobe_vipm_extension.Order.Lines.{
  Split, split_downsizes_upsizes_new, IsSplit, split_downsizes_upsizes_new-IsSplit, AdobeItem,
  has_order_line_updated, line_pair, item_pair,
}
use swo_adobe_vipm_extension.Order.Updated.{last_quantity, has_order_line_updated_iff}
use swo_adobe_vipm_extension.Routing.{
  copy_order_without_errors, get_validator_by_order_type, copy_order_without_errors_lem,
}

-- A step that counts, and one that raises at ten.
abbrev counting : LinearStep ℕ String
counting = record { name = "Counting"; act = λ n. proceeds (suc n) }

abbrev failing : LinearStep ℕ String
failing = record { name = "Failing"; act = λ n. Linear.raises "ten" n }

run-eq-run_linear_example :
    run (map as_step (counting ∷ failing ∷ [])) none 9 ≡ run_linear (counting ∷ failing ∷ []) 9
run-eq-run_linear_example = run-eq-run_linear (counting ∷ failing ∷ []) 9 (refl, (refl, tt))

run-IsAnnotated_example : IsAnnotated (run (map as_step (counting ∷ failing ∷ [])) none 9)
run-IsAnnotated_example =
    run-IsAnnotated (map as_step (counting ∷ failing ∷ [])) 9 (refl, (refl, tt))

split_downsizes_upsizes_new-IsSplit_example :
    IsSplit
      (downsize_line ∷ upsize_line ∷ new_line ∷ [])
      (split_downsizes_upsizes_new (downsize_line ∷ upsize_line ∷ new_line ∷ []))
split_downsizes_upsizes_new-IsSplit_example =
    split_downsizes_upsizes_new-IsSplit (downsize_line ∷ upsize_line ∷ new_line ∷ [])

get-update_parameters_visibility_example :
    get_ordering_parameter (update_parameters_visibility the_order) "membershipId"
    ≡ Option.map
        (λ p.
          with_constraints
            (constraints_for
              (type_of (get_value (get_ordering_parameter the_order "agreementType")))
              "membershipId"
              p.constraints)
            p)
        (get_ordering_parameter the_order "membershipId")
get-update_parameters_visibility_example = get-update_parameters_visibility the_order "membershipId"

abbrev adobe_item : AdobeItem
adobe_item = record { offer_id = "65304578CA01A12"; quantity = 9 }

has_order_line_updated_iff_example :
    (has_order_line_updated (upsize_line ∷ []) (adobe_item ∷ []) ≡ false) ↔ (
      (k : String)
      → last_quantity k (map line_pair (upsize_line ∷ []))
        ≡ last_quantity k (map item_pair (adobe_item ∷ [])))
has_order_line_updated_iff_example = has_order_line_updated_iff (upsize_line ∷ []) (adobe_item ∷ [])

copy_order_without_errors_lem_example :
    ((copy_order_without_errors the_order).error ≡ none)
    × All (λ p. p.error ≡ none) (copy_order_without_errors the_order).ordering
    × (get_validator_by_order_type (copy_order_without_errors the_order)
        ≡ get_validator_by_order_type the_order)
copy_order_without_errors_lem_example = copy_order_without_errors_lem the_order
