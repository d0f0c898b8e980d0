-- ===== src/Availability.antt =====
-- `ValidateSkuAvailability` of adobe_vipm/flows/helpers.py, with the queries of
-- adobe_vipm/airtable/models.py for SKUs that have a price. A query selects rows of the price list.
pub mod Priced
pub mod Sale
pub mod Checked
use swo_adobe_vipm_extension.Base.{
  ℕ, ◌+◌, String, Option, none, some, List, [], ◌∷◌, ◌++◌, Bool, true, false, not, ◌==◌, ◌&&◌,
  if◌then◌else◌, leb, ltb, keep, map, contains,
}
use swo_adobe_vipm_extension.Order.{Line, ErrorData, sku_not_found, sku_availability}
use swo_adobe_vipm_extension.Customer.{Customer, Commitment, get_3yc_commitment}
use swo_adobe_vipm_extension.Catalog.{Product, MarketSegment, get_adobe_product_by_marketplace_sku}
use swo_adobe_vipm_extension.Context.{Context, Exception, attribute_error, manage_order_error}
use swo_adobe_vipm_extension.Pipeline.Linear.{Ends, stops, proceeds}
use swo_adobe_vipm_extension.Pipeline.Linear

-- A row of the price list; `valid_until` is none in an open-ended one.
pub record SkuPrice : Type 0 where
  pub partial_sku : String
  pub currency : String
  pub valid_from : ℕ
  pub valid_until : Option ℕ

-- The tables, the currency of the agreement and the day.
pub record Outside : Type 0 where
  pub products : List Product
  pub rows : List SkuPrice
  pub currency : String
  pub today : ℕ

abbrev pub is_open_until : (ℕ → Bool) → Option ℕ → Bool
is_open_until p none = true
is_open_until p (some until) = p until

-- `_get_current_prices_for_skus_from_airtable`: the formula but for the SKUs
abbrev pub is_current_price : String → ℕ → SkuPrice → Bool
is_current_price currency today row =
    row.currency == currency && is_open_until (leb today) row.valid_until

-- `_get_prices_3yc_for_skus_from_airtable`: the formula but for the SKUs
abbrev pub is_start_price : String → ℕ → SkuPrice → Bool
is_start_price currency start_date row =
    row.currency == currency
    && is_open_until (λ until. leb row.valid_from start_date && ltb start_date until)
        row.valid_until

-- The partial SKUs of the rows that a query selects.
abbrev pub select_skus : (SkuPrice → Bool) → List SkuPrice → List String → List String
select_skus p rows [] = []
select_skus p rows (sku ∷ skus) =
    map (λ (row : SkuPrice). row.partial_sku)
      (keep (λ row. p row && contains (sku ∷ skus) row.partial_sku) rows)

unfoldable pub get_skus_with_available_prices :
    String → ℕ → List SkuPrice → List String → List String
get_skus_with_available_prices currency today = select_skus (is_current_price currency today)

unfoldable pub get_skus_with_available_prices_3yc :
    String → ℕ → List SkuPrice → List String → List String
get_skus_with_available_prices_3yc currency start_date =
    select_skus (is_start_price currency start_date)

-- The SKUs, or the vendor id that has no product.
pub data Skus : Type 0 where
  skus_of : List String → Skus
  not_found : String → Skus

abbrev pub with_sku : String → Option Product → Skus → Skus
with_sku vendor none rest = not_found vendor
with_sku vendor (some product) (skus_of skus) = skus_of (product.vendor_external_id ∷ skus)
with_sku vendor (some product) (not_found other) = not_found other

-- `_get_adobe_skus`, of the lines that it goes through
unfoldable pub get_adobe_skus : List Product → MarketSegment → List Line → Skus
unfolding get_adobe_product_by_marketplace_sku
get_adobe_skus products segment [] = skus_of []
get_adobe_skus products segment (line ∷ lines) =
    with_sku line.item.vendor
      (get_adobe_product_by_marketplace_sku products line.item.vendor segment)
      (get_adobe_skus products segment lines)

abbrev pub changed_lines : Context → List Line
changed_lines context = context.new_lines ++ context.upsize_lines ++ context.downsize_lines

module _ (is_validation : Bool) (outside : Outside) where
  -- `validation_succeeded` is reset, and the error managed.
  abbrev pub refuse : Context → ErrorData → Ends Context Exception
  refuse context error =
      stops
        (manage_order_error is_validation error (record context { validation_succeeded = false }))

  abbrev pub by_missing : Context → List String → List String → Ends Context Exception
  by_missing context available [] = proceeds context
  by_missing context available (sku ∷ missing) =
      refuse context (sku_availability (sku ∷ missing) available)

  abbrev pub check_available : Context → List String → List String → Ends Context Exception
  check_available context skus available =
      by_missing context available (keep (λ sku. not (contains available sku)) skus)

  -- The end of the commitment is more than a year ahead.
  abbrev pub is_long : Commitment → Bool
  is_long c = ltb (outside.today + 365) c.end_date

  abbrev pub by_commitment : Context → List String → Option Commitment → Ends Context Exception
  unfolding get_skus_with_available_prices get_skus_with_available_prices_3yc
  by_commitment context skus none =
      check_available context skus
        (get_skus_with_available_prices outside.currency outside.today outside.rows skus)
  by_commitment context skus (some c) =
      if c.status == "COMMITTED"
      then if is_long c
        then proceeds context
        else check_available context skus
            (get_skus_with_available_prices_3yc outside.currency c.start_date outside.rows skus)
      else check_available context skus
          (get_skus_with_available_prices outside.currency outside.today outside.rows skus)

  abbrev pub with_skus : Context → Skus → Option Customer → Ends Context Exception
  unfolding get_3yc_commitment
  with_skus context (not_found vendor) customer = refuse context (sku_not_found vendor)
  with_skus context (skus_of skus) none = Linear.raises attribute_error context
  with_skus context (skus_of skus) (some customer) =
      by_commitment context skus (get_3yc_commitment customer)

  unfoldable pub validate_sku_availability : Context → Ends Context Exception
  unfolding get_adobe_skus manage_order_error get_skus_with_available_prices
      get_skus_with_available_prices_3yc get_3yc_commitment
  validate_sku_availability context =
      with_skus context
        (get_adobe_skus outside.products context.market_segment (changed_lines context))
        context.adobe_customer
