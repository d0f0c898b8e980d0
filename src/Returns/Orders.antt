-- ===== src/Returns/Orders.antt =====
-- `get_returnable_orders_by_subscription_id`, on the orders that Adobe gives for the cancellation
-- window.
use swo_adobe_vipm_extension.Base.{
  String, Option, none, some, List, [], ◌∷◌, Bool, ◌==◌, ◌&&◌, ◌||◌, leb, keep, find_first,
  contains, map,
}
use swo_adobe_vipm_extension.Returns.{AdobeOrder, OrderItem, Returnable}

-- `get_item_by_subcription_id`
unfoldable pub get_item_by_subscription_id : List OrderItem → String → Option OrderItem
get_item_by_subscription_id line_items subscription_id =
    find_first (λ item. item.subscription_id == subscription_id) line_items

-- `_is_processed`
abbrev pub is_processed : AdobeOrder × OrderItem → Bool
is_processed (order, item) = order.status == "1000" && item.status == "1000"

-- Each order with its item of the subscription, where it has one.
abbrev pub with_item :
    AdobeOrder → Option OrderItem → List (AdobeOrder × OrderItem) → List (AdobeOrder × OrderItem)
with_item order none rest = rest
with_item order (some item) rest = (order, item) ∷ rest

abbrev pub order_items : List AdobeOrder → String → List (AdobeOrder × OrderItem)
order_items [] subscription_id = []
order_items (order ∷ orders) subscription_id =
    with_item order (get_item_by_subscription_id order.line_items subscription_id)
      (order_items orders subscription_id)

abbrev pub is_candidate : List String → AdobeOrder × OrderItem → Bool
is_candidate returning_order_ids order_item =
    contains returning_order_ids order_item.0.order_id || is_processed order_item

abbrev pub is_renewal : AdobeOrder × OrderItem → Bool
is_renewal order_item = order_item.0.order_type == "RENEWAL"

-- Nothing older than the first renewal order found.
abbrev pub since_renewal :
    Option (AdobeOrder × OrderItem) → List (AdobeOrder × OrderItem) → List (AdobeOrder × OrderItem)
since_renewal none items = items
since_renewal (some renewal) items =
    keep (λ (item : AdobeOrder × OrderItem). leb renewal.0.creation_date item.0.creation_date) items

abbrev pub info : AdobeOrder × OrderItem → Returnable
info (order, item) = record { order = order; line = item; quantity = item.quantity }

unfoldable pub get_returnable_orders_by_subscription_id :
    List AdobeOrder → String → List String → List Returnable
unfolding get_item_by_subscription_id
get_returnable_orders_by_subscription_id orders subscription_id returning_order_ids =
    let candidates = keep (is_candidate returning_order_ids) (order_items orders subscription_id) in
    map info (since_renewal (find_first is_renewal candidates) candidates)
