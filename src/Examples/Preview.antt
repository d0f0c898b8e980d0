-- ===== src/Examples/Preview.antt =====
-- The theorems on preview orders: Adobe refuses a discount once and accepts the order without it.
use swo_adobe_vipm_extension.Base.{ℕ, zero, suc, ◌≢◌, refl, String, some, none, [], ◌∷◌}
use swo_adobe_vipm_extension.Base.Int.{pos, ◌-ℤ◌}
use swo_adobe_vipm_extension.Params.{get_fulfillment_parameter}
use swo_adobe_vipm_extension.Context.{Context, Exception, Reply, ok, raises}
use swo_adobe_vipm_extension.Examples.Data.{
  upsize_line, new_line, the_table, the_subscription, context_of,
}
use swo_adobe_vipm_extension.Preview.{LineItem, Payload, Response}
use swo_adobe_vipm_extension.Preview.Discounts.{get_preview_order}
use swo_adobe_vipm_extension.Preview.Accepted.{IsAccepted, get_preview_order-IsAccepted}
use swo_adobe_vipm_extension.Preview.Shrinking.{IsTrimmedPayload, get_preview_order-IsTrimmed}
use swo_adobe_vipm_extension.Preview.Create.{Adobe, build_line_items}
use swo_adobe_vipm_extension.Preview.Requested.{IsRequested, build_line_items-IsRequested}

abbrev item : LineItem
item = record {
  ext_line_item_number = pos 3;
  offer_id = "77777777CA01A12";
  quantity = pos 4;
  flex_discount_codes = some ("SPRING" ∷ []);
  deployment_id = none;
  currency_code = none;
}

abbrev payload : Payload
payload = record {
  external_reference_id = "ORD-1";
  line_items = item ∷ [];
  currency_code = some "EUR";
}

abbrev answer : String → Response
answer result = record {
  external_reference_id = "ORD-1";
  line_items =
      record {
        offer_id = "77777777CA01A12";
        price = 10;
        flex_discounts = record { code = "SPRING"; result = result } ∷ [];
      }
      ∷ [];
}

abbrev api : ℕ → Payload → Reply Response
api zero p = ok (answer "REFUSED")
api (suc n) p = ok (answer "SUCCESS")

never_raises : (n : ℕ) (p : Payload) (ex : Exception) → api n p ≢ raises ex
never_raises zero p ex = λ e. cc
never_raises (suc n) p ex = λ e. cc

get_preview_order-IsAccepted_example :
    IsAccepted api 5 (get_preview_order api payload) (some (answer "SUCCESS"))
unfolding get_preview_order
get_preview_order-IsAccepted_example =
    get_preview_order-IsAccepted api payload (some (answer "SUCCESS"))
      (λ n p ex e. absurd (never_raises n p ex e)) refl

get_preview_order-IsTrimmed_example :
    IsTrimmedPayload payload (get_preview_order api payload).payload
get_preview_order-IsTrimmed_example = get_preview_order-IsTrimmed api payload

abbrev adobe : Adobe
adobe = record {
  currency = "EUR";
  get_flex_discounts = λ skus.
      ok (
        record { status = "ACTIVE"; code = "SPRING"; base_offer_ids = "77777777CA01A12" ∷ [] }
        ∷ []);
  get_subscriptions = ok (the_subscription ∷ []);
  preview = api;
}

abbrev change : Context
change = context_of [] (upsize_line ∷ []) (new_line ∷ [])

abbrev upsize_item : LineItem
upsize_item = record item {
  ext_line_item_number = pos 2;
  offer_id = "65304578CA01A12";
  quantity = pos 2;
  flex_discount_codes = none;
}

build_line_items-IsRequested_example : IsRequested the_table adobe change (item ∷ upsize_item ∷ [])
unfolding build_line_items get_fulfillment_parameter ◌-ℤ◌
build_line_items-IsRequested_example =
    build_line_items-IsRequested the_table adobe change (item ∷ upsize_item ∷ []) refl
