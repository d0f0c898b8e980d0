-- ===== src/ThreeYc/Quantities.antt =====
-- The licenses and consumables that the customer has after the order: the renewal quantities of the
-- subscriptions that renew, changed by the order's lines.
use swo_adobe_vipm_extension.Base.{
  String, Option, none, some, List, [], ◌∷◌, ◌++◌, Bool, true, false, not, if◌then◌else◌, keep,
}
use swo_adobe_vipm_extension.Base.Int.{ℤ, pos, ◌+ℤ◌, ◌-ℤ◌}
use swo_adobe_vipm_extension.Order.{Line}
use swo_adobe_vipm_extension.Order.Lines.{get_partial_sku, Split}
use swo_adobe_vipm_extension.Customer.{AdobeSubscription}
use swo_adobe_vipm_extension.Catalog.{
  Product, MarketSegment, get_adobe_product_by_marketplace_sku, is_consumable, is_valid_3yc_type,
}

pub record Counts : Type 0 where
  pub licenses : ℤ
  pub consumables : ℤ

-- A product that the mapping does not know is reported and skipped, as is one of no 3YC type.
abbrev pub add_product : Option Product → ℤ → Counts → Counts
add_product none delta counts = counts
add_product (some sku) delta counts =
    if is_valid_3yc_type sku
    then (if is_consumable sku
        then record counts { consumables = counts.consumables +ℤ delta }
        else record counts { licenses = counts.licenses +ℤ delta })
    else counts

-- `_calculate_delta`
abbrev pub calculate_delta : Line → Bool → ℤ
calculate_delta line is_downsize =
    if is_downsize
    then pos line.old_quantity -ℤ pos line.quantity
    else pos line.quantity -ℤ pos line.old_quantity

-- The amount that `_update_counts` adds.
abbrev pub signed_delta : ℤ → Bool → ℤ
signed_delta delta is_downsize = if not is_downsize then delta else pos 0 -ℤ delta

module _ (table : List Product) (market_segment : MarketSegment) where
  abbrev pub product_of : String → Option Product
  product_of sku = get_adobe_product_by_marketplace_sku table sku market_segment

  abbrev pub count_subscriptions : List AdobeSubscription → Counts → Counts
  count_subscriptions [] counts = counts
  count_subscriptions (subscription ∷ rest) counts = count_subscriptions rest (
      add_product (product_of (get_partial_sku subscription.offer_id))
        (pos subscription.renewal_quantity) counts)

  unfoldable pub get_licenses_and_consumables_count : List AdobeSubscription → Counts
  get_licenses_and_consumables_count items =
      count_subscriptions (keep (λ sub. sub.auto_renewal) items)
        (record { licenses = pos 0; consumables = pos 0 })

  unfoldable pub process_lines_quantities : List Line → Counts → Bool → Counts
  process_lines_quantities [] counts is_downsize = counts
  process_lines_quantities (line ∷ lines) counts is_downsize =
      process_lines_quantities lines
        (add_product (product_of line.item.vendor)
          (signed_delta (calculate_delta line is_downsize) is_downsize) counts)
        is_downsize

  unfoldable pub get_quantities : Split → List AdobeSubscription → Counts
  unfolding get_licenses_and_consumables_count process_lines_quantities
  get_quantities lines items =
      process_lines_quantities (lines.upsize_lines ++ lines.new_lines)
        (process_lines_quantities lines.downsize_lines (get_licenses_and_consumables_count items)
          true)
        false
