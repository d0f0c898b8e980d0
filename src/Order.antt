-- ===== src/Order.antt =====
-- The marketplace order as the flows read it: its lines (`order["lines"]`), its two phases of
-- parameters (`order["parameters"]`), the error that a validation leaves and the subscriptions of
-- its agreement. Quantities are the platform's, which are not negative; differences of quantities
-- are integers. A price is only moved about, so it is a number.
pub mod Errors
pub mod Lines
pub mod Updated
pub use Errors.*
use swo_adobe_vipm_extension.Base.{ℕ, String, Option, List, Bool}

pub record Phone : Type 0 where
  pub prefix : String
  pub number : String

pub record Address : Type 0 where
  pub country : String
  pub state : String
  pub city : String
  pub address_line1 : String
  pub address_line2 : Option String
  pub post_code : String

pub record Contact : Type 0 where
  pub first_name : String
  pub last_name : String
  pub email : String
  pub phone : Option Phone

-- What a parameter's `value` holds; `null` also where the key is missing, as `.get("value")` reads.
pub data Value : Type 0 where
  null : Value
  text : String → Value
  choices : List String → Value
  address : Address → Value
  contact : Contact → Value

-- The `constraints` of a parameter; a missing key counts as false.
pub record Constraints : Type 0 where
  pub hidden : Bool
  pub required : Bool

pub record Parameter : Type 0 where
  pub external_id : String
  pub name : String
  pub value : Value
  pub error : Option ErrorData
  pub constraints : Option Constraints

-- `line["item"]`, with `item["externalIds"]["vendor"]` as `vendor`
pub record Item : Type 0 where
  pub id : String
  pub name : String
  pub vendor : String

pub record Line : Type 0 where
  pub id : String
  pub item : Item
  pub quantity : ℕ
  pub old_quantity : ℕ
  pub unit_pp : ℕ
  -- `line["subscription"]["id"]`; none where the line has no subscription.
  pub subscription_id : Option String

-- A subscription of the agreement, with the item ids of its lines.
pub record Subscription : Type 0 where
  pub id : String
  pub vendor : Option String
  pub item_ids : List String

pub record Order : Type 0 where
  pub id : String
  pub order_type : String
  pub product_id : String
  pub agreement_id : String
  pub lines : List Line
  pub ordering : List Parameter
  pub fulfillment : List Parameter
  pub subscriptions : List Subscription
  pub error : Option ErrorData
