-- ===== src/Context.antt =====
-- adobe_vipm/flows/context.py: the state that a pipeline's steps share, with the calls that a step has
-- sent to the marketplace platform, in order. The exceptions are those that the modelled code can
-- raise or meet; what it calls outside the repository is in `Outside`.
use swo_adobe_vipm_extension.Base.{
  ℕ, String, ◌≡◌, refl, Option, List, [], ◌∷◌, ◌++◌, Bool, true, false, if◌then◌else◌,
}
use swo_adobe_vipm_extension.Dict.{Dict}
use swo_adobe_vipm_extension.Order.{Order, Line, Parameter, ErrorData, Value}
use swo_adobe_vipm_extension.Params.{
  get_value, get_ordering_parameter, set_order_error, set_ordering_parameter_error, reset_due_date,
}
use swo_adobe_vipm_extension.Returns.{Returnable}
use swo_adobe_vipm_extension.Customer.{Customer}
use swo_adobe_vipm_extension.Catalog.{MarketSegment}

pub data Exception : Type 0 where
  key_error value_error : String → Exception
  type_error attribute_error index_error : Exception
  -- AdobeAPIError with its code, message and details; AdobeHttpError with its status; AdobeError
  adobe_api : String → String → List String → Exception
  adobe_http : ℕ → Exception
  adobe : String → Exception
  product_not_found : String → Exception
  authorization_not_found reseller_not_found : String → Exception
  airtable_http : String → Exception
  create_preview : String → Exception
  transport : String → Exception

pub data Reply {ℓ} (A : Type ℓ) : Type ℓ where
  ok : A → Reply A
  raises : Exception → Reply A

infixl 5 ◌>>=◌
abbrev pub ◌>>=◌ {ℓ κ} : {A : Type ℓ} {B : Type κ} → Reply A → (A → Reply B) → Reply B
ok a >>= f = f a
raises e >>= f = raises e

pub bind-ok {ℓ κ} :
    {A : Type ℓ} {B : Type κ} (m : Reply A) (f : A → Reply B) (b : B)
    → m >>= f ≡ ok b
    → (a : A) × (m ≡ ok a) × (f a ≡ ok b)
bind-ok (ok a) f b e = (a, refl, e)
bind-ok (raises x) f b e = cc

-- A line item of a preview order, with its discounted partner price.
pub record PreviewItem : Type 0 where
  pub offer_id : String
  pub price : ℕ

-- What is sent to the platform: a failed order, a query, the sync of agreements that follows a failed
-- order, and new line prices.
pub data Call : Type 0 where
  fail_order : String → ErrorData → List Parameter → List Parameter → Call
  query_order : String → String → List Parameter → List Parameter → Option ErrorData → Call
  sync_agreements : List String → Call
  update_lines : String → List (String × ℕ) → Call
  update_parameters : String → List Parameter → List Parameter → Call

pub record Context : Type 0 where
  pub order : Order
  pub downsize_lines : List Line
  pub upsize_lines : List Line
  pub new_lines : List Line
  pub market_segment : MarketSegment
  pub authorization_id : String
  pub validation_succeeded : Bool
  pub adobe_customer_id : Option String
  pub adobe_customer : Option Customer
  -- By SKU: the `referenceOrderId` of each return order; the orders to return, none for no match.
  pub adobe_return_orders : Dict (List String)
  pub adobe_returnable_orders : Dict (Option (List Returnable))
  pub adobe_new_order : Bool
  pub adobe_preview_order : Option (List PreviewItem)
  pub calls : List Call

-- `context.customer_data[id]`, for the ordering parameters
abbrev pub customer_data : Context → String → Value
customer_data context id = get_value (get_ordering_parameter context.order id)

abbrev pub send : Call → Context → Context
send call context = record context { calls = context.calls ++ call ∷ [] }

-- `switch_order_to_failed` of flows/fulfillment/shared.py: the due date is reset in the order itself.
unfoldable pub switch_order_to_failed : ErrorData → Context → Context
unfolding reset_due_date
switch_order_to_failed error context =
    let order = reset_due_date context.order in
    record context {
      order = order;
      calls =
          context.calls
          ++ fail_order order.id error order.ordering order.fulfillment
            ∷ sync_agreements (order.agreement_id ∷ [])
            ∷ [];
    }

-- `switch_order_to_query`, with the name of its template
unfoldable pub switch_order_to_query : String → Context → Context
unfolding reset_due_date
switch_order_to_query template_name context =
    let order = reset_due_date context.order in
    send (query_order order.id template_name order.ordering order.fulfillment order.error)
      (record context { order = order })

-- `manage_order_error` of flows/helpers.py
unfoldable pub manage_order_error : Bool → ErrorData → Context → Context
unfolding switch_order_to_failed set_order_error
manage_order_error is_validation error context =
    if is_validation
    then record context { order = set_order_error context.order error }
    else switch_order_to_failed error context

-- `handle_error` of flows/fulfillment/shared.py
unfoldable pub handle_error : Bool → String → ErrorData → Context → Context
unfolding switch_order_to_failed set_ordering_parameter_error
handle_error is_validation parameter error context =
    if is_validation
    then record context {
      order = set_ordering_parameter_error context.order parameter error true;
      validation_succeeded = false;
    }
    else switch_order_to_failed error context
