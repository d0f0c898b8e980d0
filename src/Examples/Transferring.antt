-- ===== src/Examples/Transferring.antt =====
-- A draft of a membership with one subscription, and one with a change of the reseller.
use swo_adobe_vipm_extension.Base.{All, ◌≡◌, refl, none, some, [], ◌∷◌, true, false, inl}
use swo_adobe_vipm_extension.Catalog.{commercial}
use swo_adobe_vipm_extension.Context.{ok, raises, transport}
use swo_adobe_vipm_extension.Order.{Order, Item, text}
use swo_adobe_vipm_extension.Order.Lines.{get_partial_sku, occurs_in}
use swo_adobe_vipm_extension.Routing.{is_migrate_customer}
use swo_adobe_vipm_extension.Pipeline.Stages.{Returns}
use swo_adobe_vipm_extension.Transferring.{TransferItem, Pricing}
use swo_adobe_vipm_extension.Transferring.Products.{HasItem, outside_deployments}
use swo_adobe_vipm_extension.Transferring.Lines.{
  partial_skus, add_lines_to_order, keep_valid, put_line,
}
use swo_adobe_vipm_extension.Transferring.Added.{IsAdded, add_lines_to_order-IsAdded}
use swo_adobe_vipm_extension.Transferring.Steps
use swo_adobe_vipm_extension.Transferring.Steps.{TransferContext, validate_transfer}
use swo_adobe_vipm_extension.Transferring.Refused.{validate_transfer-IsRefused}
use swo_adobe_vipm_extension.Transferring.Reseller
use swo_adobe_vipm_extension.Transferring.Reseller.{
  ResellerTransfer, ResellerContext, get_order_lines_from_transfer,
  add_reseller_change_lines_to_order,
}
use swo_adobe_vipm_extension.Transferring.Compared.{
  IsAccepted, add_reseller_change_lines_to_order-IsAccepted,
}
use swo_adobe_vipm_extension.Examples.Data.{the_order, line_of, param_of, context_of}
use swo_adobe_vipm_extension.Examples.Migration.{member}

abbrev item_3 : TransferItem
item_3 = record {
  subscription_id = "S-1";
  offer_id = "65304578CA01A12";
  quantity = 3;
  status = some "1000";
  renewal_date = 400;
  deployment_id = none;
}

abbrev pricing : Pricing
pricing = record { currency = "USD"; today = 20; table = []; cache = [] }

abbrev product_item : Item
product_item = record { id = "ITM-1"; name = "Photoshop"; vendor = "65304578CA" }

abbrev draft : Order
draft = record the_order { lines = line_of "ALI-1" "65304578CA" 0 5 ∷ [] }

abbrev updated : Order
updated = record the_order { lines = line_of "ALI-1" "65304578CA" 0 3 ∷ [] }

add_lines_to_order-IsAdded_example : IsAdded pricing (item_3 ∷ []) draft updated
unfolding add_lines_to_order get_partial_sku occurs_in keep_valid put_line
add_lines_to_order-IsAdded_example =
    add_lines_to_order-IsAdded pricing (λ skus. product_item ∷ []) (item_3 ∷ []) none false draft
      updated (refl, tt) ((refl, tt), tt) ((refl, tt), tt) refl

abbrev migrating : Order
migrating = record the_order {
  ordering =
      param_of "agreementType" (text "Migrate")
      ∷ record (param_of "membershipId" (text "M-1")) {
        constraints = some (record { hidden = false; required = true });
      }
      ∷ [];
}

abbrev silent_adobe : Steps.Outside
silent_adobe = record {
  authorization_id = "AUT-1";
  pricing = pricing;
  with_agreement = λ order. order;
  segment_of = λ product_id. commercial;
  find_transfer = λ product_id authorization_id id. some (member "running");
  items_of = λ skus. product_item ∷ [];
  error_text = λ e. "";
  preview_transfer = λ a m. raises (transport "preview_transfer");
  get_subscriptions = λ a c. ok (item_3 ∷ []);
  get_transfer =
      λ a m t. ok (record { status = "1000"; customer_id = "P-1"; line_items = item_3 ∷ [] });
  get_customer = λ a c. raises (transport "get_customer");
}

abbrev migrating_context : TransferContext
migrating_context = record {
  context = record (context_of [] [] []) { order = migrating };
  membership_id = text "M-1";
  transfer = none;
  customer_id = none;
  subscriptions = [];
  adobe_transfer = none;
}

validate_transfer-IsRefused_example :
    Returns
      (λ c. c.context.validation_succeeded ≡ false)
      (validate_transfer silent_adobe migrating_context)
unfolding is_migrate_customer
validate_transfer-IsRefused_example =
    validate_transfer-IsRefused silent_adobe migrating_context (member "running")
      (record { migrates = refl; found = refl; is_closed = inl refl })

abbrev reseller_adobe : Reseller.Outside
reseller_adobe = record {
  pricing = pricing;
  seller_id = "SEL-1";
  segment_of = λ product_id. commercial;
  items_of = λ skus. product_item ∷ [];
  error_text = λ status. "";
  reseller_change_request = λ a s c e. raises (transport "reseller_change_request");
}

abbrev reseller_transfer : ResellerTransfer
reseller_transfer = record { expiry = 30; benefits = []; line_items = item_3 ∷ [] }

abbrev changing : ResellerContext
changing = record {
  context = record (context_of [] [] []) { order = record the_order { lines = [] } };
  adobe_transfer = some reseller_transfer;
}

abbrev changed : ResellerContext
changed = record {
  context = record (changing.context) {
    order = record (changing.context.order) {
      lines =
          record (line_of "" "65304578CA" 0 3) { item = product_item; subscription_id = none } ∷ [];
    };
    validation_succeeded = true;
  };
  adobe_transfer = some reseller_transfer;
}

add_reseller_change_lines_to_order-IsAccepted_example :
    ((get_order_lines_from_transfer reseller_adobe changing.context.order reseller_transfer).1 ≡ [])
    × All
        (HasItem (reseller_adobe.items_of (partial_skus (outside_deployments reseller_transfer))))
        (outside_deployments reseller_transfer)
    × IsAccepted reseller_adobe changing.context.order.lines
        (get_order_lines_from_transfer reseller_adobe changing.context.order reseller_transfer).0
        changed
unfolding add_reseller_change_lines_to_order
add_reseller_change_lines_to_order-IsAccepted_example =
    add_reseller_change_lines_to_order-IsAccepted reseller_adobe changing changed reseller_transfer
      refl refl refl
