-- ===== src/Examples/Returns.antt =====
-- The theorems on returns: of the orders for 2, 1 and 3 a downsize by 3 returns the last.
use mathlib.Core.List.{Memᴰ}
use swo_adobe_vipm_extension.Base.{◌↔◌, ◌≡◌, refl, some, List, [], ◌∷◌}
use swo_adobe_vipm_extension.Context.{Context, ok}
use swo_adobe_vipm_extension.Examples.Data.{downsize_line, context_of, adobe_order, returnable}
use swo_adobe_vipm_extension.Returns.{Returnable}
use swo_adobe_vipm_extension.Returns.Quantities.{lookup_quantity, returnable_by_quantity}
use swo_adobe_vipm_extension.Returns.Fewest.{Answer, lookup-returnable_by_quantity}
use swo_adobe_vipm_extension.Returns.Steps.{Outside, validate_downsizes, get_returnable_orders}
use swo_adobe_vipm_extension.Returns.Agreement.{BothProceed, validate_downsizes-BothProceed}
use swo_adobe_vipm_extension.Returns.Orders.{get_returnable_orders_by_subscription_id}
use swo_adobe_vipm_extension.Returns.Eligible.{
  IsReturnable, get_returnable_orders_by_subscription_id_iff,
}

abbrev orders : List Returnable
orders = returnable "A" 2 ∷ returnable "B" 1 ∷ returnable "C" 3 ∷ []

lookup-returnable_by_quantity_example :
    Answer orders 3 (lookup_quantity 3 (returnable_by_quantity orders))
lookup-returnable_by_quantity_example = lookup-returnable_by_quantity orders 3

fewest : lookup_quantity 3 (returnable_by_quantity orders) ≡ some (returnable "C" 3 ∷ [])
unfolding returnable_by_quantity
fewest = refl

abbrev outside : Outside
outside = record {
  today = 100;
  day_of = λ moment. moment;
  get_orders = λ authorization customer coterm. ok (adobe_order "A" 2 ∷ adobe_order "B" 1 ∷ []);
}

abbrev downsize : Context
downsize = context_of (downsize_line ∷ []) [] []

validate_downsizes-BothProceed_example :
    BothProceed outside (get_returnable_orders outside downsize)
unfolding validate_downsizes
validate_downsizes-BothProceed_example =
    validate_downsizes-BothProceed outside downsize downsize refl refl refl

get_returnable_orders_by_subscription_id_iff_example :
    Memᴰ (returnable "A" 2) (
      get_returnable_orders_by_subscription_id
        (adobe_order "A" 2 ∷ adobe_order "B" 1 ∷ [])
        "a-sub"
        ("B" ∷ []))
    ↔ IsReturnable "a-sub"
        ("B" ∷ [])
        (adobe_order "A" 2 ∷ adobe_order "B" 1 ∷ [])
        (returnable "A" 2)
get_returnable_orders_by_subscription_id_iff_example =
    get_returnable_orders_by_subscription_id_iff "a-sub" ("B" ∷ [])
      (adobe_order "A" 2 ∷ adobe_order "B" 1 ∷ []) (returnable "A" 2)
