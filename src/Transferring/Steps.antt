-- ===== src/Transferring/Steps.antt =====
-- The steps of `validate_transfer`, and the pipeline.
use swo_adobe_vipm_extension.Base.{
  ℕ, String, Option, none, some, List, [], ◌∷◌, map, Bool, true, false, not, ◌==◌, eqb,
  if◌then◌else◌,
}
use swo_adobe_vipm_extension.Catalog.{MarketSegment}
use swo_adobe_vipm_extension.Context.{
  Context, Exception, adobe_api, adobe_http, attribute_error, type_error, Reply, ok, raises, ◌>>=◌,
  handle_error,
}
use swo_adobe_vipm_extension.Customer.{Customer, get_3yc_commitment, get_3yc_commitment_of_benefits}
use swo_adobe_vipm_extension.Migration.{Transfer}
use swo_adobe_vipm_extension.Order.{
  Order, Item, Value, ErrorData, membership_id, membership_processing, membership_inactive,
}
use swo_adobe_vipm_extension.Params.{
  get_value, get_ordering_parameter, set_ordering_parameter_error,
}
use swo_adobe_vipm_extension.Pipeline.{Outcome, run}
use swo_adobe_vipm_extension.Pipeline.Linear
use swo_adobe_vipm_extension.Pipeline.Linear.{Ends, stops, proceeds, LinearStep, as_step}
use swo_adobe_vipm_extension.Preview.Discounts.{is_adobe_error}
use swo_adobe_vipm_extension.Routing.{is_migrate_customer}
use swo_adobe_vipm_extension.Transferring.{
  TransferItem, TransferPreview, AdobeTransfer, Pricing, exclude_items_with_deployment_id,
  get_transfer_item_sku_by_subscription,
}
use swo_adobe_vipm_extension.Transferring.Government.{is_government, validate_government_lga_data}
use swo_adobe_vipm_extension.Transferring.Lines.{Added, name_of, add_lines_to_order}

-- The context, with the attributes that only the transfers use. `transfer` is no field of the class:
-- none where nothing has set it, `some none` where no transfer was found.
pub record TransferContext : Type 0 where
  pub context : Context
  pub membership_id : Value
  pub transfer : Option (Option Transfer)
  pub customer_id : Option String
  pub subscriptions : List TransferItem
  pub adobe_transfer : Option AdobeTransfer

-- The answers of the platform, of Airtable and of Adobe, and the text of an Adobe error that is no
-- `AdobeAPIError`.
pub record Outside : Type 0 where
  pub authorization_id : String
  pub pricing : Pricing
  pub with_agreement : Order → Order
  pub segment_of : String → MarketSegment
  pub find_transfer : String → String → Value → Option Transfer
  pub items_of : List String → List Item
  pub error_text : Exception → String
  pub preview_transfer : String → Value → Reply TransferPreview
  pub get_subscriptions : String → String → Reply (List TransferItem)
  pub get_transfer : String → String → String → Reply AdobeTransfer
  pub get_customer : String → Option String → Reply Customer

abbrev pub order_of : TransferContext → Order
order_of t = t.context.order

abbrev pub with_order : Order → Bool → TransferContext → TransferContext
with_order order succeeded t = record t {
  context = record (t.context) { order = order; validation_succeeded = succeeded };
}

-- An error of the parameter with the membership id, which ends the validation.
unfoldable pub refused : ErrorData → TransferContext → TransferContext
unfolding set_ordering_parameter_error
refused error t =
    with_order (set_ordering_parameter_error (order_of t) "membershipId" error true) false t

abbrev pub ends_named : TransferContext → String → Reply String → Ends TransferContext Exception
ends_named t details (ok title) = stops (refused (membership_id title details) t)
ends_named t details (raises e) = Linear.raises e t

-- The error with the parameter's name as its title.
unfoldable pub refused_titled : String → TransferContext → Ends TransferContext Exception
unfolding refused get_ordering_parameter
refused_titled details t =
    ends_named t details (name_of (get_ordering_parameter (order_of t) "membershipId"))

abbrev pub not_found_or_unexpected : ℕ → String
not_found_or_unexpected status_code =
    if eqb status_code 404 then "Membership not found" else "Adobe returned an unexpected error"

module _ (outside : Outside) where
  -- `SetupTransferContext`
  unfoldable pub setup_transfer_context : TransferContext → Ends TransferContext Exception
  unfolding is_migrate_customer get_ordering_parameter
  setup_transfer_context t =
      let order = outside.with_agreement (order_of t) in
      let id = get_value (get_ordering_parameter order "membershipId") in
      proceeds (record t {
        context = record (t.context) {
          order = order;
          validation_succeeded = true;
          authorization_id = outside.authorization_id;
          market_segment = outside.segment_of order.product_id;
        };
        membership_id = id;
        transfer =
            if is_migrate_customer order
            then some (outside.find_transfer order.product_id outside.authorization_id id)
            else t.transfer;
      })

  abbrev pub ends_added : TransferContext → Reply Added → Ends TransferContext Exception
  ends_added t (ok (has_error, order)) = stops (with_order order (not has_error) t)
  ends_added t (raises e) = Linear.raises e t

  abbrev pub check_preview :
      TransferContext → TransferPreview → Option ErrorData → Ends TransferContext Exception
  check_preview t preview (some error) = stops (refused error t)
  check_preview t preview none = ends_added t (
      add_lines_to_order outside.pricing outside.items_of preview.items
        (get_3yc_commitment_of_benefits preview.benefits) false (order_of t))

  abbrev pub previewed : TransferContext → Reply TransferPreview → Ends TransferContext Exception
  previewed t (ok preview) =
      check_preview t preview
        (validate_government_lga_data (outside.segment_of (order_of t).product_id) preview.benefits)
  previewed t (raises (adobe_api code message details)) = refused_titled message t
  previewed t (raises (adobe_http status)) = refused_titled (not_found_or_unexpected status) t
  previewed t (raises e) = Linear.raises e t

  -- `validate_transfer_not_migrated`, with what the step makes of it
  unfoldable pub validate_transfer_not_migrated : TransferContext → Ends TransferContext Exception
  unfolding refused refused_titled add_lines_to_order validate_government_lga_data
      get_3yc_commitment_of_benefits
  validate_transfer_not_migrated t = previewed t (
      outside.preview_transfer outside.authorization_id
        (get_value (get_ordering_parameter (order_of t) "membershipId")))

  abbrev pub fetched :
      TransferContext
      → Transfer
      → Reply (List TransferItem × AdobeTransfer)
      → Ends TransferContext Exception
  fetched t transfer (ok (subscriptions, adobe_transfer)) = proceeds (record t {
    customer_id = some adobe_transfer.customer_id;
    subscriptions = exclude_items_with_deployment_id subscriptions;
    adobe_transfer = some (record adobe_transfer {
      line_items = exclude_items_with_deployment_id adobe_transfer.line_items;
    });
  })
  fetched t transfer (raises e) =
      if is_adobe_error e
      then stops (refused (membership_processing transfer.membership_id (outside.error_text e)) t)
      else Linear.raises e t

  -- The two calls of the `try`.
  abbrev pub ask_adobe : Transfer → Reply (List TransferItem × AdobeTransfer)
  ask_adobe transfer =
      outside.get_subscriptions outside.authorization_id transfer.customer_id >>= λ subscriptions.
      outside.get_transfer outside.authorization_id transfer.membership_id transfer.transfer_id
      >>= λ adobe_transfer. ok (subscriptions, adobe_transfer)

  -- `FetchTransferData`
  abbrev pub fetch_for : TransferContext → Option (Option Transfer) → Ends TransferContext Exception
  fetch_for t none = Linear.raises attribute_error t
  fetch_for t (some none) = validate_transfer_not_migrated t
  fetch_for t (some (some transfer)) = fetched t transfer (ask_adobe transfer)

  unfoldable pub fetch_transfer_data : TransferContext → Ends TransferContext Exception
  unfolding validate_transfer_not_migrated exclude_items_with_deployment_id refused
  fetch_transfer_data t = fetch_for t t.transfer

  abbrev pub with_context : Context → TransferContext → TransferContext
  with_context context t = record t { context = context }

  abbrev pub ends_agency :
      Bool → TransferContext → Option ErrorData → Ends TransferContext Exception
  ends_agency is_validation t none = proceeds t
  ends_agency is_validation t (some error) =
      stops (with_context (handle_error is_validation "membershipId" error t.context) t)

  abbrev pub check_agency : Bool → TransferContext → Reply Customer → Ends TransferContext Exception
  check_agency is_validation t (ok customer) =
      ends_agency is_validation t (
        validate_government_lga_data (outside.segment_of (order_of t).product_id) customer.benefits)
  check_agency is_validation t (raises e) = Linear.raises e t

  -- `ValidateGovernmentTransfer`
  unfoldable pub validate_government_transfer :
      Bool → TransferContext → Ends TransferContext Exception
  unfolding handle_error validate_government_lga_data
  validate_government_transfer is_validation t =
      if is_government (outside.segment_of (order_of t).product_id)
      then check_agency is_validation t
          (outside.get_customer outside.authorization_id t.customer_id)
      else proceeds t

-- `ValidateTransferStatus`
abbrev pub check_adobe_status :
    TransferContext → Option AdobeTransfer → Ends TransferContext Exception
check_adobe_status t none = Linear.raises type_error t
check_adobe_status t (some adobe_transfer) =
    if adobe_transfer.status == "1010"
    then stops (refused (membership_inactive adobe_transfer.status) t)
    else proceeds t

abbrev pub check_status :
    TransferContext → Option (Option Transfer) → Ends TransferContext Exception
check_status t none = Linear.raises attribute_error t
check_status t (some none) = Linear.raises attribute_error t
check_status t (some (some transfer)) =
    if transfer.status == "running"
    then refused_titled "Migration in progress, retry later" t
    else if transfer.status == "synchronized"
    then refused_titled "Membership has already been migrated" t
    else check_adobe_status t t.adobe_transfer

unfoldable pub validate_transfer_status : TransferContext → Ends TransferContext Exception
unfolding refused refused_titled
validate_transfer_status t = check_status t t.transfer

abbrev pub with_sku : TransferItem → Option String → TransferItem
with_sku item none = item
with_sku item (some sku) = record item { offer_id = sku }

-- `UpdateSubscriptionSkus`
abbrev pub corrected :
    List TransferItem → Option AdobeTransfer → TransferContext → Ends TransferContext Exception
corrected [] transfer t = proceeds t
corrected (x ∷ xs) none t = Linear.raises type_error t
corrected (x ∷ xs) (some transfer) t = proceeds (record t {
  subscriptions =
      map
        (λ item.
          with_sku item
            (get_transfer_item_sku_by_subscription transfer.line_items item.subscription_id))
        (x ∷ xs);
})

unfoldable pub update_subscription_skus : TransferContext → Ends TransferContext Exception
unfolding get_transfer_item_sku_by_subscription
update_subscription_skus t = corrected t.subscriptions t.adobe_transfer t

module _ (outside : Outside) where
  abbrev pub with_customer : Customer → TransferContext → TransferContext
  with_customer customer t = record t {
    context = record (t.context) { adobe_customer = some customer };
  }

  abbrev pub check_subscriptions :
      Customer → List TransferItem → TransferContext → Ends TransferContext Exception
  check_subscriptions customer [] t =
      if customer.global_sales_enabled
      then refused_titled
          "('No subscriptions found without deployment ID to be added to the main agreement',)" t
      else stops (with_order (order_of t) true t)
  check_subscriptions customer (x ∷ xs) t = proceeds t

  abbrev pub fetched_customer : TransferContext → Reply Customer → Ends TransferContext Exception
  fetched_customer t (ok customer) =
      check_subscriptions customer t.subscriptions (with_customer customer t)
  fetched_customer t (raises e) = Linear.raises e t

  abbrev pub customer_for :
      TransferContext → Option (Option Transfer) → Ends TransferContext Exception
  customer_for t none = Linear.raises attribute_error t
  customer_for t (some none) = Linear.raises attribute_error t
  customer_for t (some (some transfer)) =
      fetched_customer t (outside.get_customer outside.authorization_id (some transfer.customer_id))

  -- `FetchCustomerAndValidateEmptySubscriptions`
  unfoldable pub fetch_customer_and_validate_empty_subscriptions :
      TransferContext → Ends TransferContext Exception
  unfolding refused_titled
  fetch_customer_and_validate_empty_subscriptions t = customer_for t t.transfer

  abbrev pub proceeds_added : TransferContext → Reply Added → Ends TransferContext Exception
  proceeds_added t (ok (has_error, order)) = proceeds (with_order order (not has_error) t)
  proceeds_added t (raises e) = Linear.raises e t

  abbrev pub add_lines_for : TransferContext → Option Customer → Ends TransferContext Exception
  add_lines_for t none = Linear.raises attribute_error t
  add_lines_for t (some customer) = proceeds_added t (
      add_lines_to_order outside.pricing outside.items_of t.subscriptions
        (get_3yc_commitment customer) true (order_of t))

  -- `AddLinesToOrder`
  unfoldable pub add_lines : TransferContext → Ends TransferContext Exception
  unfolding add_lines_to_order get_3yc_commitment
  add_lines t = add_lines_for t t.context.adobe_customer

  abbrev pub transfer_steps : List (LinearStep TransferContext Exception)
  transfer_steps =
      record { name = "SetupTransferContext"; act = setup_transfer_context outside }
      ∷ record { name = "FetchTransferData"; act = fetch_transfer_data outside }
      ∷ record {
        name = "ValidateGovernmentTransfer";
        act = validate_government_transfer outside true;
      }
      ∷ record { name = "ValidateTransferStatus"; act = validate_transfer_status }
      ∷ record { name = "UpdateSubscriptionSkus"; act = update_subscription_skus }
      ∷ record {
        name = "FetchCustomerAndValidateEmptySubscriptions";
        act = fetch_customer_and_validate_empty_subscriptions;
      }
      ∷ record { name = "AddLinesToOrder"; act = add_lines }
      ∷ []

  -- `validate_transfer`: the context after the pipeline, whose `validation_succeeded` and order are the
  -- result.
  unfoldable pub validate_transfer : TransferContext → TransferContext × Outcome Exception
  unfolding run setup_transfer_context fetch_transfer_data validate_government_transfer
      validate_transfer_status update_subscription_skus add_lines
      fetch_customer_and_validate_empty_subscriptions
  validate_transfer t = run (map as_step transfer_steps) none t
