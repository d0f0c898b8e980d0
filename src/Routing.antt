-- ===== src/Routing.antt =====
-- The choice of the validator of a draft (adobe_vipm/flows/validation/base.py, and the predicates of
-- adobe_vipm/flows/utils/validation.py).
use mathlib.Core.Option
use swo_adobe_vipm_extension.Base.{
  String, ◌≡◌, refl, ap, ◌∙◌, Option, none, some, List, [], ◌∷◌, Bool, false, ◌&&◌, ◌==◌,
  if◌then◌else◌, map, find_first, All, arith,
}
use swo_adobe_vipm_extension.Order.{Order, Parameter, Value, text}
use swo_adobe_vipm_extension.Params.{
  has_id, get_value, get_ordering_parameter, is_ordering_param_required,
  reset_ordering_parameters_error, reset_order_error,
}

-- `AgreementType`, as the value of the parameter.
abbrev is_text : Value → String → Bool
is_text (text s) word = s == word
is_text _ word = false

abbrev has_agreement_type : Order → String → Bool
has_agreement_type order agreement_type =
    is_text (get_value (get_ordering_parameter order "agreementType")) agreement_type

unfoldable pub is_migrate_customer : Order → Bool
unfolding get_ordering_parameter is_ordering_param_required
is_migrate_customer order =
    has_agreement_type order "Migrate" && is_ordering_param_required order "membershipId"

unfoldable pub is_reseller_change : Order → Bool
unfolding get_ordering_parameter is_ordering_param_required
is_reseller_change order =
    has_agreement_type order "Transfer" && is_ordering_param_required order "changeResellerCode"

-- The functions that validate a draft.
pub data Validator : Type 0 where
  validate_transfer validate_reseller_change validate_purchase_order : Validator
  validate_change_order validate_termination_order : Validator

unfoldable pub copy_order_without_errors : Order → Order
unfolding reset_order_error reset_ordering_parameters_error
copy_order_without_errors order = reset_order_error (reset_ordering_parameters_error order)

unfoldable pub get_purchase_order_validator : Order → Validator
unfolding is_migrate_customer is_reseller_change
get_purchase_order_validator order =
    if is_migrate_customer order
    then validate_transfer
    else if is_reseller_change order
    then validate_reseller_change
    else validate_purchase_order

unfoldable pub get_validator_by_order_type : Order → Option Validator
unfolding get_purchase_order_validator
get_validator_by_order_type order =
    if order.order_type == "Purchase"
    then some (get_purchase_order_validator order)
    else if order.order_type == "Change"
    then some validate_change_order
    else if order.order_type == "Termination"
    then some validate_termination_order
    else none

abbrev cleared : Parameter → Parameter
cleared param = record param { error = none }

find_first-cleared :
    (k : String) (params : List Parameter)
    → find_first (has_id k) (map cleared params) ≡ Option.map cleared (find_first (has_id k) params)
find_first-cleared k [] = ground arith
find_first-cleared k (p ∷ params) = ground (arith, find_first-cleared k params)

cleared_params : (params : List Parameter) → All (λ p. p.error ≡ none) (map cleared params)
cleared_params [] = tt
cleared_params (p ∷ params) = (refl, cleared_params params)

value-cleared : (o : Option Parameter) → get_value (Option.map cleared o) ≡ get_value o
value-cleared none = refl
value-cleared (some p) = refl

abbrev required : Option Parameter → Bool
required none = false
required (some param) = elim (param.constraints) [ none ↦ false | some c ↦ c.required ]

required-cleared : (o : Option Parameter) → required (Option.map cleared o) ≡ required o
required-cleared none = refl
required-cleared (some p) = refl

value_lem :
    (order : Order) (k : String)
    → get_value (get_ordering_parameter (copy_order_without_errors order) k)
      ≡ get_value (get_ordering_parameter order k)
unfolding copy_order_without_errors get_ordering_parameter
value_lem order k =
    ap get_value (find_first-cleared k order.ordering)
    ∙ value-cleared (find_first (has_id k) order.ordering)

required_lem :
    (order : Order) (k : String)
    → is_ordering_param_required (copy_order_without_errors order) k
      ≡ is_ordering_param_required order k
unfolding copy_order_without_errors is_ordering_param_required
required_lem order k =
    ap required (find_first-cleared k order.ordering)
    ∙ required-cleared (find_first (has_id k) order.ordering)

migrate_lem :
    (order : Order)
    → is_migrate_customer (copy_order_without_errors order) ≡ is_migrate_customer order
unfolding is_migrate_customer
migrate_lem order = rw (value_lem order "agreementType", required_lem order "membershipId") refl

reseller_lem :
    (order : Order)
    → is_reseller_change (copy_order_without_errors order) ≡ is_reseller_change order
unfolding is_reseller_change
reseller_lem order =
    rw (value_lem order "agreementType", required_lem order "changeResellerCode") refl

purchase_lem :
    (order : Order)
    → get_purchase_order_validator (copy_order_without_errors order)
      ≡ get_purchase_order_validator order
unfolding get_purchase_order_validator
purchase_lem order = rw (migrate_lem order, reseller_lem order) refl

type_lem : (order : Order) → (copy_order_without_errors order).order_type ≡ order.order_type
unfolding copy_order_without_errors
type_lem order = refl

no_error : (order : Order) → (copy_order_without_errors order).error ≡ none
unfolding copy_order_without_errors
no_error order = refl

no_param_errors :
    (order : Order) → All (λ p. p.error ≡ none) (copy_order_without_errors order).ordering
unfolding copy_order_without_errors
no_param_errors order = cleared_params order.ordering

-- The copy of a draft that is validated has no error on the order or on a parameter, and the errors of
-- an earlier validation have no say in the choice of the validator: the copy has that of the draft.
pub copy_order_without_errors_lem :
    (order : Order)
    → ((copy_order_without_errors order).error ≡ none)
      × All (λ p. p.error ≡ none) (copy_order_without_errors order).ordering
      × (get_validator_by_order_type (copy_order_without_errors order)
          ≡ get_validator_by_order_type order)
unfolding get_validator_by_order_type
copy_order_without_errors_lem order =
    (no_error order, no_param_errors order, rw (type_lem order, purchase_lem order) refl)
