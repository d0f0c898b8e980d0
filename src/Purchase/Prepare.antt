-- ===== src/Purchase/Prepare.antt =====
-- `PrepareCustomerData` of adobe_vipm/flows/helpers.py: customer data that the order lacks is taken from
-- its licensee. With `set_customer_data` of adobe_vipm/flows/utils/customer.py.
use swo_adobe_vipm_extension.Base.{
  String, Option, none, some, List, [], ◌∷◌, ◌++◌, Bool, if◌then◌else◌,
}
use swo_adobe_vipm_extension.Order.{Order, Value, text, address, contact, Address, Contact}
use swo_adobe_vipm_extension.Params.{get_ordering_parameter, update_ordering_parameter_value}
use swo_adobe_vipm_extension.Context.{Context, Exception, customer_data, send, update_parameters}
use swo_adobe_vipm_extension.Pipeline.Linear.{Ends, proceeds}
use swo_adobe_vipm_extension.Purchase.CustomerData.{is_falsy}

-- What the agreement's licensee has.
pub record Licensee : Type 0 where
  pub name : String
  pub located_at : Address
  pub reached_by : Option Contact

-- The items of a dict, in order.
abbrev pub Data : Type 0
Data = List (String × Value)

unfoldable pub set_customer_data : Order → Data → Order
unfolding update_ordering_parameter_value
set_customer_data order [] = order
set_customer_data order ((param_external_id, value) ∷ values) =
    set_customer_data (update_ordering_parameter_value order param_external_id value) values

abbrev pub lacks : Context → String → Bool
lacks context param = is_falsy (customer_data context param)

abbrev pub contact_data : Context → Option Contact → Data
contact_data context none = []
contact_data context (some c) = if lacks context "contact" then ("contact", contact c) ∷ [] else []

abbrev pub new_customer_data : Licensee → Context → Data
new_customer_data licensee context =
    (if lacks context "companyName" then ("companyName", text licensee.name) ∷ [] else [])
    ++ ((if lacks context "address" then ("address", address licensee.located_at) ∷ [] else [])
        ++ contact_data context licensee.reached_by)

abbrev pub updated : Bool → Context → Context
updated is_validation context =
    if is_validation
    then context
    else send (update_parameters context.order.id context.order.ordering context.order.fulfillment)
        context

abbrev pub with_data : Bool → Context → Data → Context
unfolding set_customer_data
with_data is_validation context [] = context
with_data is_validation context (d ∷ values) =
    updated is_validation (record context { order = set_customer_data context.order (d ∷ values) })

unfoldable pub prepare_customer_data : Bool → Licensee → Context → Ends Context Exception
unfolding set_customer_data get_ordering_parameter
prepare_customer_data is_validation licensee context =
    proceeds (with_data is_validation context (new_customer_data licensee context))
