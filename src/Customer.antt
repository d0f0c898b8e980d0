-- ===== src/Customer.antt =====
-- What the flows read of Adobe: the customer with its benefits and three-year commitment, and its
-- subscriptions. The lookups are those of adobe_vipm/utils.py and adobe_vipm/adobe/utils.py.
-- A date is the number of its day, so that the order of dates is the order of numbers.
use swo_adobe_vipm_extension.Base.{
  ℕ, String, Option, none, some, List, Bool, ◌==◌, ◌&&◌, ◌||◌, leb, if◌then◌else◌, find_first,
  starts_with,
}

pub record MinimumQuantity : Type 0 where
  pub offer_type : String
  pub quantity : ℕ

-- A commitment, or a request for one. An empty object is `none` where it stands.
pub record Commitment : Type 0 where
  pub status : String
  pub start_date : ℕ
  pub end_date : ℕ
  pub minimum_quantities : List MinimumQuantity

pub record Benefit : Type 0 where
  pub benefit_type : String
  pub commitment : Option Commitment
  pub commitment_request : Option Commitment
  pub recommitment_request : Option Commitment

pub record Customer : Type 0 where
  pub customer_id : String
  pub benefits : List Benefit
  pub coterm_date : Option ℕ
  pub global_sales_enabled : Bool

pub record AdobeSubscription : Type 0 where
  pub subscription_id : String
  pub offer_id : String
  pub status : String
  pub current_quantity : ℕ
  pub renewal_quantity : ℕ
  pub auto_renewal : Bool
  pub deployment_id : Option String

abbrev three_year_benefit : List Benefit → Option Benefit
three_year_benefit benefits =
    find_first (λ benefit. benefit.benefit_type == "THREE_YEAR_COMMIT") benefits

-- `get_3yc_commitment` of a transfer preview
unfoldable pub get_3yc_commitment_of_benefits : List Benefit → Option Commitment
get_3yc_commitment_of_benefits benefits = elim (three_year_benefit benefits) [
  | none ↦ none
  | some b ↦ b.commitment
]

-- `get_3yc_commitment`
unfoldable pub get_3yc_commitment : Customer → Option Commitment
get_3yc_commitment customer = elim (three_year_benefit customer.benefits) [
  | none ↦ none
  | some b ↦ b.commitment
]

-- `get_3yc_commitment_request`
unfoldable pub get_3yc_commitment_request : Customer → Bool → Option Commitment
get_3yc_commitment_request customer is_recommitment = elim (three_year_benefit customer.benefits) [
  | none ↦ none
  | some b ↦ if is_recommitment then b.recommitment_request else b.commitment_request
]

abbrev pub is_running : String → Bool
is_running status = status == "COMMITTED" || status == "ACTIVE"

-- `get_commitment_start_date`, on the day `today`
unfoldable pub get_commitment_start_date : ℕ → Customer → Option ℕ
unfolding get_3yc_commitment
get_commitment_start_date today customer = elim (get_3yc_commitment customer) [
  | none ↦ none
  | some c ↦ if is_running c.status && leb today c.end_date then some c.start_date else none
]

-- `get_item_by_partial_sku`; the code's `{}` for a missing item is `none`.
unfoldable pub get_item_by_partial_sku : List AdobeSubscription → String → Option AdobeSubscription
unfolding starts_with
get_item_by_partial_sku line_items sku =
    find_first (λ line_item. starts_with sku line_item.offer_id) line_items
