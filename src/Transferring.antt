-- ===== src/Transferring.antt =====
-- adobe_vipm/flows/validation/transfer.py: the validation of a draft that brings a membership of
-- Adobe's to the marketplace, from the program of VIP or from another reseller.
pub mod Government
pub mod Lines
pub mod Steps
pub mod Matched
pub mod Added
pub mod Reseller
pub mod Products
pub mod Compared
pub mod Refused
use swo_adobe_vipm_extension.Base.{
  ℕ, String, Option, none, some, List, [], ◌∷◌, Bool, true, false, not, ◌==◌, ◌&&◌, ltb, leb, all,
  keep, is_blank, if◌then◌else◌, find_first,
}
use swo_adobe_vipm_extension.Customer.{Benefit, Commitment, Customer, is_running}
use swo_adobe_vipm_extension.Dict.{Dict}
use swo_adobe_vipm_extension.Order.{Order, Item}
use swo_adobe_vipm_extension.Prices.{PriceRow, Cache, get_prices_for_3yc_skus, get_prices_for_skus}

-- A subscription of the membership, or an item of a transfer or its preview. `quantity` is the field
-- that `quantity_field` names.
pub record TransferItem : Type 0 where
  pub subscription_id : String
  pub offer_id : String
  pub quantity : ℕ
  pub status : Option String
  pub renewal_date : ℕ
  pub deployment_id : Option String

pub record TransferPreview : Type 0 where
  pub benefits : List Benefit
  pub items : List TransferItem

-- Adobe's transfer, with its line items.
pub record AdobeTransfer : Type 0 where
  pub status : String
  pub customer_id : String
  pub line_items : List TransferItem

-- `is_transferring_item_expired`, on the day `today`
unfoldable pub is_transferring_item_expired : ℕ → TransferItem → Bool
is_transferring_item_expired today item = elim (item.status) [
  | none ↦ ltb item.renewal_date today
  | some status ↦ if status == "1004" then true else ltb item.renewal_date today
]

-- `are_all_transferring_items_expired`
unfoldable pub are_all_transferring_items_expired : ℕ → List TransferItem → Bool
unfolding is_transferring_item_expired
are_all_transferring_items_expired today adobe_items =
    all (is_transferring_item_expired today) adobe_items

abbrev pub has_deployment : TransferItem → Bool
has_deployment item = elim (item.deployment_id) [ none ↦ false | some d ↦ not (is_blank d) ]

-- `exclude_items_with_deployment_id`, `exclude_subscriptions_with_deployment_id`
unfoldable pub exclude_items_with_deployment_id : List TransferItem → List TransferItem
exclude_items_with_deployment_id items = keep (λ item. not (has_deployment item)) items

-- `get_transfer_item_sku_by_subscription`
unfoldable pub get_transfer_item_sku_by_subscription : List TransferItem → String → Option String
get_transfer_item_sku_by_subscription line_items sub_id =
    elim (find_first (λ item. item.subscription_id == sub_id) line_items) [
      | none ↦ none
      | some item ↦ some item.offer_id
    ]

-- What `get_prices` reads: the currency of the agreement, the day, the table and its cache.
pub record Pricing : Type 0 where
  pub currency : String
  pub today : ℕ
  pub table : List PriceRow
  pub cache : Cache

-- `get_prices`; what the call adds to the cache changes no later price.
unfoldable pub get_prices : Pricing → Option Commitment → List String → Dict ℕ
unfolding get_prices_for_3yc_skus get_prices_for_skus
get_prices pricing none adobe_skus = get_prices_for_skus pricing.currency pricing.table adobe_skus
get_prices pricing (some c) adobe_skus =
    if is_running c.status && leb pricing.today c.end_date
    then (get_prices_for_3yc_skus pricing.currency c.start_date pricing.table pricing.cache
        adobe_skus).0
    else get_prices_for_skus pricing.currency pricing.table adobe_skus
