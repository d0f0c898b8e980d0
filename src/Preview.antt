-- ===== src/Preview.antt =====
-- Preview orders of adobe_vipm/adobe/mixins/order.py: `Preview/Discounts` has the retries without the
-- flexible discounts that Adobe refuses, `Preview/Lines` the line items and their quantities.
-- A set of codes is a list, of which only membership counts.
pub mod Message
pub mod Discounts
pub mod Lines
pub mod Create
pub mod Ordered
pub mod Requested
pub mod Accepted
pub mod Shrinking
use swo_adobe_vipm_extension.Base.{ℕ, String, Option, List}
use swo_adobe_vipm_extension.Base.Int.{ℤ}

-- `flex_discount_codes` is none where the line item has no key `flexDiscountCodes`.
pub record LineItem : Type 0 where
  pub ext_line_item_number : ℤ
  pub offer_id : String
  pub quantity : ℤ
  pub flex_discount_codes : Option (List String)
  pub deployment_id : Option String
  pub currency_code : Option String

pub record Payload : Type 0 where
  pub external_reference_id : String
  pub line_items : List LineItem
  pub currency_code : Option String

pub record FlexDiscount : Type 0 where
  pub code : String
  pub result : String

-- `price` is the discounted partner price of the item's pricing.
pub record ResponseItem : Type 0 where
  pub offer_id : String
  pub price : ℕ
  pub flex_discounts : List FlexDiscount

pub record Response : Type 0 where
  pub external_reference_id : String
  pub line_items : List ResponseItem
