-- ===== src/Params.antt =====
-- adobe_vipm/flows/utils/parameter.py, and the parameter writers of utils/customer.py, date.py and
-- market_segment.py. A lookup is of the first parameter with the external id; the code's default
-- for a missing one is a fresh dict, so a write to it is lost: the order stays as it was.
pub mod Laws
pub mod Tables
pub mod Visibility
use swo_adobe_vipm_extension.Base.{
  String, Option, none, some, List, [], ◌∷◌, ◌++◌, Bool, true, false, not, ◌&&◌, ◌||◌, ◌==◌, map,
  find_first, all, update_first, contains, is_blank, if◌then◌else◌, lower_is,
}
use swo_adobe_vipm_extension.Order.{
  Order, Parameter, Constraints, Value, null, text, choices, ErrorData,
}

abbrev pub has_id : String → Parameter → Bool
has_id param_external_id p = p.external_id == param_external_id

unfoldable pub get_ordering_parameter : Order → String → Option Parameter
get_ordering_parameter source param_external_id =
    find_first (has_id param_external_id) source.ordering

unfoldable pub get_fulfillment_parameter : Order → String → Option Parameter
get_fulfillment_parameter source param_external_id =
    find_first (has_id param_external_id) source.fulfillment

-- `.get("value")` of a lookup
abbrev pub get_value : Option Parameter → Value
get_value none = null
get_value (some param) = param.value

-- An assignment to the parameter that a lookup in the ordering phase gave.
abbrev pub modify_ordering : String → (Parameter → Parameter) → Order → Order
modify_ordering k f order = record order { ordering = update_first (has_id k) f order.ordering }

abbrev pub modify_fulfillment : String → (Parameter → Parameter) → Order → Order
modify_fulfillment k f order = record order {
  fulfillment = update_first (has_id k) f order.fulfillment;
}

unfoldable pub set_ordering_parameter_error : Order → String → ErrorData → Bool → Order
set_ordering_parameter_error order param_external_id error required =
    modify_ordering param_external_id
      (λ param. record param {
        error = some error;
        constraints = some (record { hidden = false; required = required });
      })
      order

unfoldable pub reset_ordering_parameters_error : Order → Order
reset_ordering_parameters_error order = record order {
  ordering = map {A = Parameter} (λ param. record param { error = none }) order.ordering;
}

unfoldable pub set_order_error : Order → ErrorData → Order
set_order_error order error = record order { error = some error }

unfoldable pub reset_order_error : Order → Order
reset_order_error order = record order { error = none }

unfoldable pub is_ordering_param_required : Order → String → Bool
unfolding get_ordering_parameter
is_ordering_param_required source param_external_id =
    elim (get_ordering_parameter source param_external_id) [
      | none ↦ false
      | some param ↦ elim (param.constraints) [ none ↦ false | some c ↦ c.required ]
    ]

unfoldable pub update_ordering_parameter_value : Order → String → Value → Order
update_ordering_parameter_value order param_external_id value =
    modify_ordering param_external_id (λ param. record param { value = value }) order

unfoldable pub update_fulfillment_parameter_value : Order → String → Value → Order
update_fulfillment_parameter_value order param_external_id value =
    modify_fulfillment param_external_id (λ param. record param { value = value }) order

-- `Param.DUE_DATE` is set to None, in place.
unfoldable pub reset_due_date : Order → Order
reset_due_date order = modify_fulfillment "dueDate" (λ param. record param { value = null }) order

abbrev pub optional_customer_params : List String
optional_customer_params = "3YC" ∷ "3YCConsumables" ∷ "3YCLicenses" ∷ []

abbrev pub required_customer_params : List String
required_customer_params = "companyName" ∷ "address" ∷ "contact" ∷ []

-- `PARAM_NEW_CUSTOMER_PARAMETERS`
abbrev pub new_customer_params : List String
new_customer_params =
    required_customer_params ++ (optional_customer_params ++ "companyAgencyType" ∷ [])

abbrev pub transfer_customer_params : List String
transfer_customer_params = "adobeCustomerAdminEmail" ∷ "changeResellerCode" ∷ []

unfoldable pub set_parameter_visible : Order → String → Order
set_parameter_visible order param_external_id =
    modify_ordering param_external_id
      (λ param. record param {
        constraints = some (record {
          hidden = false;
          required = not (contains optional_customer_params param_external_id);
        });
      })
      order

unfoldable pub set_parameter_hidden : Order → String → Order
set_parameter_hidden order param_external_id =
    modify_ordering param_external_id
      (λ param. record param { constraints = some (record { hidden = true; required = false }) })
      order

-- The two loops over a list of external ids.
abbrev pub set_each : (Order → String → Order) → List String → Order → Order
set_each set [] order = order
set_each set (param ∷ params) order = set_each set params (set order param)

-- `(value or "").lower()` as far as `parameters_map` tells it apart: a key of it, or none.
pub data AgreementKind : Type 0 where
  new migrate transfer other : AgreementKind

abbrev pub agreement_text : Value → String
agreement_text (text s) = s
agreement_text _ = ""

unfoldable pub agreement_kind : Order → AgreementKind
unfolding get_ordering_parameter lower_is
agreement_kind order =
    let value = agreement_text (get_value (get_ordering_parameter order "agreementType")) in
    if lower_is value "new"
    then new
    else if lower_is value "migrate"
    then migrate
    else if lower_is value "transfer"
    then transfer
    else other

-- `parameters_map`
abbrev pub visible_params : AgreementKind → List String
visible_params new = new_customer_params
visible_params migrate = "membershipId" ∷ []
visible_params transfer = transfer_customer_params
visible_params other = []

abbrev pub hidden_params : AgreementKind → List String
hidden_params new = transfer_customer_params ++ "membershipId" ∷ []
hidden_params migrate = new_customer_params ++ transfer_customer_params
hidden_params transfer = new_customer_params ++ "membershipId" ∷ []
hidden_params other = []

unfoldable pub update_parameters_visibility : Order → Order
unfolding agreement_kind set_parameter_visible set_parameter_hidden
update_parameters_visibility order =
    let kind = agreement_kind order in
    set_each set_parameter_hidden (hidden_params kind)
      (set_each set_parameter_visible (visible_params kind) order)
