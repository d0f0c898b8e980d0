-- ===== src/Transferring/Lines.antt =====
-- `add_lines_to_order`: the lines of the draft become those of the membership's items.
use swo_adobe_vipm_extension.Base.{
  ℕ, String, Option, none, some, List, [], ◌∷◌, ◌++◌, map, Bool, true, false, not, ◌&&◌,
  if◌then◌else◌, keep, contains, update_first,
}
use swo_adobe_vipm_extension.Customer.{Commitment}
use swo_adobe_vipm_extension.Context.{key_error, Reply, ok, raises, ◌>>=◌}
use swo_adobe_vipm_extension.Dict.{Dict, lookup, update}
use swo_adobe_vipm_extension.Order.{
  Order, Line, Item, Parameter, membership_id_item, membership_id_empty, updating_transfer_items,
}
use swo_adobe_vipm_extension.Order.Lines.{
  AdobeItem, get_partial_sku, occurs_in, get_order_line_by_sku, has_order_line_updated,
}
use swo_adobe_vipm_extension.Params.{
  get_ordering_parameter, set_ordering_parameter_error, set_order_error,
}
use swo_adobe_vipm_extension.Routing.{is_migrate_customer}
use swo_adobe_vipm_extension.Transferring.{
  TransferItem, Pricing, get_prices, is_transferring_item_expired,
  are_all_transferring_items_expired,
}

-- The flag `order_error` and the order.
abbrev pub Added : Type 0
Added = Bool × Order

-- `param["name"]`
abbrev pub name_of : Option Parameter → Reply String
name_of none = raises (key_error "name")
name_of (some param) = ok param.name

abbrev pub price_or_zero : Option ℕ → ℕ
price_or_zero none = 0
price_or_zero (some price) = price

-- A line that the program appends: it has no id and no subscription.
abbrev pub new_line : Item → TransferItem → Dict ℕ → Line
new_line item adobe_line prices = record {
  id = "";
  item = item;
  quantity = adobe_line.quantity;
  old_quantity = 0;
  unit_pp = price_or_zero (lookup adobe_line.offer_id prices);
  subscription_id = none;
}

abbrev pub set_quantity : ℕ → Line → Line
set_quantity quantity line = record line { quantity = quantity }

-- The line of an Adobe item: it gets the item's quantity, or is appended.
unfoldable pub put_line : Item → TransferItem → Dict ℕ → List Line → List Line
unfolding get_order_line_by_sku get_partial_sku occurs_in
put_line item adobe_line prices lines =
    elim (get_order_line_by_sku lines (get_partial_sku adobe_line.offer_id)) [
      | none ↦ lines ++ new_line item adobe_line prices ∷ []
      | some line ↦
          update_first (λ line. occurs_in line.item.vendor (get_partial_sku adobe_line.offer_id))
            (set_quantity adobe_line.quantity) lines
    ]

abbrev pub with_lines : List Line → Order → Order
with_lines lines order = record order { lines = lines }

unfoldable pub report_item : TransferItem → Order → String → Reply Added
unfolding set_ordering_parameter_error get_partial_sku
report_item adobe_line order title = ok (
  true,
  set_ordering_parameter_error order "membershipId"
      (membership_id_item title (get_partial_sku adobe_line.offer_id)) true,
)

-- An item that the product does not have.
unfoldable pub unknown_item : TransferItem → Order → Reply Added
unfolding get_ordering_parameter report_item
unknown_item adobe_line order =
    name_of (get_ordering_parameter order "membershipId") >>= report_item adobe_line order

-- The end of the loop: the lines that are not of the membership are dropped.
unfoldable pub keep_valid : List String → Order → Order
keep_valid returned_skus order =
    with_lines (keep (λ line. contains returned_skus line.item.vendor) order.lines) order

abbrev pub update_line :
    (Order → Reply Added) → TransferItem → Dict ℕ → Order → Option Item → Reply Added
update_line rest adobe_line prices order none = unknown_item adobe_line order
update_line rest adobe_line prices order (some item) =
    rest (with_lines (put_line item adobe_line prices order.lines) order)

-- `_update_order_lines`
abbrev pub update_order_lines :
    List TransferItem → Dict ℕ → Dict Item → List String → Bool → Order → Reply Added
update_order_lines [] prices items_map returned_skus order_error order =
    ok (order_error, keep_valid returned_skus order)
update_order_lines (adobe_line ∷ adobe_items) prices items_map returned_skus order_error order =
    update_line (update_order_lines adobe_items prices items_map returned_skus order_error)
      adobe_line prices order (lookup (get_partial_sku adobe_line.offer_id) items_map)

abbrev pub partial_skus : List TransferItem → List String
partial_skus items = map (λ item. get_partial_sku item.offer_id) items

abbrev pub vendor_pair : Item → String × Item
vendor_pair item = (item.vendor, item)

-- The dict comprehension over the items of the product.
unfoldable pub map_items : List String → List Item → Dict Item
map_items valid_skus items =
    update [] (map vendor_pair (keep (λ item. contains valid_skus item.vendor) items))

-- The items as `has_order_line_updated` reads them.
abbrev pub as_items : List TransferItem → List AdobeItem
as_items items = map (λ item. record { offer_id = item.offer_id; quantity = item.quantity }) items

abbrev pub is_filled : {A : Type 0} → List A → Bool
is_filled [] = false
is_filled (x ∷ xs) = true

module _ (pricing : Pricing) where
  -- `_get_updated_order_lines`
  unfoldable pub get_updated_order_lines :
      List TransferItem → Option Commitment → List Item → Bool → Order → Reply Added
  unfolding get_prices map_items
  get_updated_order_lines adobe_items commitment items order_error order =
      update_order_lines adobe_items
        (get_prices pricing commitment (map (λ item. item.offer_id) adobe_items))
        (map_items (partial_skus adobe_items) items) (partial_skus adobe_items) order_error order

  -- `_handle_empty_adobe_items`
  unfoldable pub handle_empty_adobe_items : Order → Added
  unfolding is_migrate_customer set_ordering_parameter_error
  handle_empty_adobe_items order = (
    true,
    if is_migrate_customer order
        then set_ordering_parameter_error order "membershipId" membership_id_empty true
        else order,
  )

  abbrev pub non_expired : List TransferItem → List TransferItem
  non_expired items = keep (λ item. not (is_transferring_item_expired pricing.today item)) items

  -- `_fail_validation_if_items_updated`, on the items that have not expired
  unfoldable pub fail_validation_if_items_updated : List TransferItem → Order → Added
  unfolding has_order_line_updated set_order_error
  fail_validation_if_items_updated items order =
      if is_filled order.lines && has_order_line_updated order.lines (as_items items)
      then (true, set_order_error order updating_transfer_items)
      else (false, order)

  -- From `if not adobe_items` on.
  abbrev pub add_items : Option Commitment → List Item → List TransferItem → Added → Reply Added
  add_items commitment items [] (order_error, order) = ok (handle_empty_adobe_items order)
  add_items commitment items (x ∷ adobe_items) (order_error, order) =
      get_updated_order_lines (x ∷ adobe_items) commitment items order_error order

  -- The items of an order that has been transferred.
  abbrev pub add_transferred :
      Option Commitment → List Item → List TransferItem → Bool → Order → Reply Added
  add_transferred commitment items adobe_items all_expired order =
      if all_expired
      then if is_filled order.lines
        then ok (false, order)
        else add_items commitment items adobe_items (false, order)
      else add_items commitment items (non_expired adobe_items)
          (fail_validation_if_items_updated (non_expired adobe_items) order)

  -- `add_lines_to_order`; `items_of` is the answer of the platform to the product's items by SKU.
  unfoldable pub add_lines_to_order :
      (List String → List Item) → List TransferItem → Option Commitment → Bool → Order → Reply Added
  unfolding are_all_transferring_items_expired get_updated_order_lines handle_empty_adobe_items
      fail_validation_if_items_updated
  add_lines_to_order items_of [] commitment is_transferred order =
      ok (handle_empty_adobe_items order)
  add_lines_to_order items_of (x ∷ adobe_items) commitment is_transferred order =
      let items = items_of (partial_skus (x ∷ adobe_items)) in
      if is_transferred
      then add_transferred commitment items (x ∷ adobe_items)
          (are_all_transferring_items_expired pricing.today (x ∷ adobe_items)) order
      else add_items commitment items (non_expired (x ∷ adobe_items)) (false, order)
