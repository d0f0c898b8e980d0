-- ===== src/Returns.antt =====
-- The returns of a downsize (adobe_vipm/adobe/mixins/order.py, adobe/dataclasses.py,
-- flows/validation/change.py, flows/fulfillment/change.py): Adobe's orders, `Returns/Orders` the choice
-- of those that can be returned, `Returns/Quantities` the sums that they reach together,
-- `Returns/Steps` the pipeline steps.
pub mod Orders
pub mod Open
pub mod Members
pub mod Eligible
pub mod Quantities
pub mod Choice
pub mod Fewest
pub mod Steps
pub mod Passed
pub mod Agreement
use swo_adobe_vipm_extension.Base.{ℕ, String, List}

-- A line item of an Adobe order, with the status of the item.
pub record OrderItem : Type 0 where
  pub subscription_id : String
  pub quantity : ℕ
  pub status : String

-- `creation_date` counts time from a fixed start; its day is taken by the code that needs one.
pub record AdobeOrder : Type 0 where
  pub order_id : String
  pub order_type : String
  pub status : String
  pub creation_date : ℕ
  pub line_items : List OrderItem

-- `ReturnableOrderInfo`
pub record Returnable : Type 0 where
  pub order : AdobeOrder
  pub line : OrderItem
  pub quantity : ℕ
