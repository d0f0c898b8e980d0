-- ===== src/Preview/Discounts.antt =====
-- `get_preview_order`: the order is previewed again without the discount codes that Adobe refuses, five
-- times at most. `api n payload` is Adobe's answer to the call number `n`, which may differ from an
-- earlier answer to the same payload.
use swo_adobe_vipm_extension.Base.{
  ℕ, zero, suc, ◌+◌, String, Option, none, some, List, [], ◌∷◌, ◌++◌, Bool, true, false, not, ◌==◌,
  if◌then◌else◌, keep, map, contains, find_first,
}
use swo_adobe_vipm_extension.Base.Int.{pos, eq_ℤ}
use swo_adobe_vipm_extension.Context.{
  Exception, key_error, type_error, attribute_error, adobe_api, adobe_http, adobe,
  product_not_found, authorization_not_found, reseller_not_found, index_error, Reply, ok, raises,
}
use swo_adobe_vipm_extension.Preview.{LineItem, Payload, FlexDiscount, ResponseItem, Response}
use swo_adobe_vipm_extension.Preview.Message.{line_item_number}

-- `set(codes)`
abbrev pub to_set : List String → List String
to_set [] = []
to_set (x ∷ xs) = if contains xs x then to_set xs else x ∷ to_set xs

abbrev pub failed_codes : List FlexDiscount → List String
failed_codes [] = []
failed_codes (fd ∷ fds) =
    if fd.result == "SUCCESS" then failed_codes fds else fd.code ∷ failed_codes fds

-- `_get_failed_discount_codes`
unfoldable pub get_failed_discount_codes : List ResponseItem → List String
get_failed_discount_codes [] = []
get_failed_discount_codes (item ∷ items) =
    failed_codes item.flex_discounts ++ get_failed_discount_codes items

-- A line item without the failed codes, by the set of its codes; an empty set is left as it is.
abbrev pub trim : List String → LineItem → List String → LineItem
trim failed item [] = item
trim failed item (c ∷ cs) = record item {
  flex_discount_codes = some (keep (λ code. not (contains failed code)) (c ∷ cs));
}

abbrev pub trim_present : List String → LineItem → Option (List String) → LineItem
trim_present failed item none = item
trim_present failed item (some codes) = trim failed item (to_set codes)

abbrev pub without_codes : List String → LineItem → LineItem
without_codes failed item = trim_present failed item item.flex_discount_codes

-- `_remove_failed_discount_codes`
unfoldable pub remove_failed_discount_codes : List String → Payload → Payload
remove_failed_discount_codes failed payload = record payload {
  line_items = map (without_codes failed) payload.line_items;
}

-- The codes of the line item that a message names.
abbrev codes_of_item : Option LineItem → Reply (List String)
codes_of_item none = raises type_error
codes_of_item (some item) = elim (item.flex_discount_codes) [
  | none ↦ raises (key_error "flexDiscountCodes")
  | some codes ↦ ok (to_set codes)
]

abbrev pub has_number : ℕ → LineItem → Bool
has_number n item = eq_ℤ item.ext_line_item_number (pos n)

abbrev codes_named : List String → Payload → Reply (List String)
codes_named [] payload = raises index_error
codes_named (detail ∷ details) payload = elim (line_item_number detail) [
  | none ↦ raises (adobe "Can't parse Adobe error message")
  | some n ↦ codes_of_item (find_first (has_number n) payload.line_items)
]

-- `_get_fail_discounts_for_cust_not_qualified`: `ex.code` is there for an `AdobeAPIError` only.
unfoldable pub get_fail_discounts_for_cust_not_qualified : Exception → Payload → Reply (List String)
unfolding line_item_number
get_fail_discounts_for_cust_not_qualified (adobe_api code message details) payload =
    if code == "2141" then codes_named details payload else raises (adobe_api code message details)
get_fail_discounts_for_cust_not_qualified (adobe_http status) payload = raises attribute_error
get_fail_discounts_for_cust_not_qualified (adobe message) payload = raises attribute_error
get_fail_discounts_for_cust_not_qualified (product_not_found message) payload =
    raises attribute_error
get_fail_discounts_for_cust_not_qualified (authorization_not_found message) payload =
    raises attribute_error
get_fail_discounts_for_cust_not_qualified (reseller_not_found message) payload =
    raises attribute_error
get_fail_discounts_for_cust_not_qualified ex payload = raises ex

-- `except AdobeError`
abbrev pub is_adobe_error : Exception → Bool
is_adobe_error (adobe_api _ _ _) = true
is_adobe_error (adobe_http _) = true
is_adobe_error (adobe _) = true
is_adobe_error (product_not_found _) = true
is_adobe_error (authorization_not_found _) = true
is_adobe_error (reseller_not_found _) = true
is_adobe_error _ = false

-- What the call leaves: its result, the payload, whose codes it has removed, and the number of calls.
pub record Previewed : Type 0 where
  pub reply : Reply (Option Response)
  pub payload : Payload
  pub requests : ℕ

abbrev pub with_last : Option Response → Reply (List String) → Reply (Option Response × List String)
with_last last (ok codes) = ok (last, codes)
with_last last (raises e) = raises e

module _ (api : ℕ → Payload → Reply Response) where
  -- The failed codes of one round, with the response where there is one, or what it raises.
  abbrev pub failed_of :
      Payload → Option Response → Reply Response → Reply (Option Response × List String)
  failed_of payload last (ok response) =
      ok (some response, get_failed_discount_codes response.line_items)
  failed_of payload last (raises ex) =
      if is_adobe_error ex
      then with_last last (get_fail_discounts_for_cust_not_qualified ex payload)
      else raises ex

  -- The end of a round: raise, stop at a round without failed codes, or go on without them.
  abbrev pub after_round :
      ℕ
      → Payload
      → (Option Response → Payload → Previewed)
      → Reply (Option Response × List String)
      → Previewed
  after_round n payload again (raises e) = record {
    reply = raises e;
    payload = payload;
    requests = n + 1;
  }
  after_round n payload again (ok (response, [])) = record {
    reply = ok response;
    payload = payload;
    requests = n + 1;
  }
  after_round n payload again (ok (response, c ∷ cs)) =
      again response (remove_failed_discount_codes (c ∷ cs) payload)

  -- The rounds that are left, the number of the next call, and `response_json` so far.
  unfoldable pub attempts : ℕ → ℕ → Option Response → Payload → Previewed
  attempts zero n last payload = record {
    reply = raises (adobe "After 5 attempts still finding failed discount codes");
    payload = payload;
    requests = n;
  }
  attempts (suc k) n last payload =
      after_round n payload (attempts k (n + 1)) (failed_of payload last (api n payload))

  unfoldable pub get_preview_order : Payload → Previewed
  unfolding attempts remove_failed_discount_codes get_failed_discount_codes
      get_fail_discounts_for_cust_not_qualified
  get_preview_order payload = attempts 5 0 none payload
