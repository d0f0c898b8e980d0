-- ===== src/Catalog.antt =====
-- The SKU mapping of adobe_vipm/airtable/models.py. The rows of the Airtable table are an argument:
-- a query with `first` gives the first row that meets its formula.
use swo_adobe_vipm_extension.Base.{String, Option, List, Bool, ◌==◌, ◌&&◌, ◌||◌, find_first}

-- `MARKET_SEGMENT_…` of flows/constants.py
pub data MarketSegment : Type 0 where
  commercial education government large_government_agency : MarketSegment

-- `MARKET_SEGMENT_TO_AIRTABLE_SEGMENT`
abbrev pub airtable_segment : MarketSegment → String
airtable_segment commercial = "Commercial"
airtable_segment government = "Government"
airtable_segment education = "Education"
airtable_segment large_government_agency = "LargeGovernment"

pub record Product : Type 0 where
  pub vendor_external_id : String
  pub sku : String
  pub segment : String
  pub type_3yc : String

abbrev pub is_consumable : Product → Bool
is_consumable p = p.type_3yc == "Consumable"

abbrev pub is_license : Product → Bool
is_license p = p.type_3yc == "License"

abbrev pub is_valid_3yc_type : Product → Bool
is_valid_3yc_type p = is_consumable p || is_license p

-- `AdobeProductNotFoundError` is `none`.
unfoldable pub get_adobe_product_by_marketplace_sku :
    List Product → String → MarketSegment → Option Product
get_adobe_product_by_marketplace_sku table vendor_external_id market_segment =
    find_first
      (λ p.
        p.vendor_external_id == vendor_external_id && p.segment == airtable_segment market_segment)
      table
