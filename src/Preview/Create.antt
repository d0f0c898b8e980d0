-- ===== src/Preview/Create.antt =====
-- `create_preview_order`: the payload of a preview order and its request. `get_subscriptions` and
-- `get_flex_discounts` are what Adobe answers to the calls that the payload needs.
use swo_adobe_vipm_extension.Base.{
  ℕ, String, Option, none, some, List, [], ◌∷◌, ◌++◌, if◌then◌else◌, map, is_blank,
}
use swo_adobe_vipm_extension.Order.{Line, Value, text}
use swo_adobe_vipm_extension.Customer.{AdobeSubscription}
use swo_adobe_vipm_extension.Catalog.{Product}
use swo_adobe_vipm_extension.Context.{Context, type_error, Reply, ok, raises, ◌>>=◌}
use swo_adobe_vipm_extension.Params.{get_value, get_fulfillment_parameter}
use swo_adobe_vipm_extension.Dict.{Dict}
use swo_adobe_vipm_extension.Preview.{LineItem, Payload, Response}
use swo_adobe_vipm_extension.Preview.Discounts.{get_preview_order}
use swo_adobe_vipm_extension.Preview.Lines.{
  FlexOffer, find_sku, get_flex_discounts_per_base_offer, get_subscriptions_for_offers,
  by_base_offer, process_new_lines, process_upsize_lines,
}

-- What the client asks Adobe, and its authorization's currency.
pub record Adobe : Type 0 where
  pub currency : String
  pub get_flex_discounts : List String → Reply (List FlexOffer)
  pub get_subscriptions : Reply (List AdobeSubscription)
  pub preview : ℕ → Payload → Reply Response

abbrev pub text_value : Value → Option String
text_value (text s) = some s
text_value _ = none

-- `get_deployment_id(context.order)`
abbrev pub deployment_id_of : Context → Option String
deployment_id_of context =
    text_value (get_value (get_fulfillment_parameter context.order "deploymentId"))

abbrev pub vendor_of : Line → String
vendor_of line = line.item.vendor

-- `_update_payload_by_deployment`
abbrev with_deployment : String → String → LineItem → LineItem
with_deployment currency id item = record item {
  deployment_id = some id;
  currency_code = some currency;
}

abbrev with_currency : String → Payload → Payload
with_currency currency payload = record payload { currency_code = some currency }

unfoldable pub update_payload_by_deployment : String → Option String → Payload → Payload
update_payload_by_deployment currency none payload = with_currency currency payload
update_payload_by_deployment currency (some id) payload =
    if is_blank id
    then with_currency currency payload
    else record payload { line_items = map (with_deployment currency id) payload.line_items }

module _ (table : List Product) (adobe : Adobe) (context : Context) where
  abbrev pub find_skus : List Line → Reply (List String)
  find_skus [] = ok []
  find_skus (line ∷ lines) = find_sku table context.market_segment line.item.vendor >>= λ sku.
      find_skus lines >>= λ skus. ok (sku ∷ skus)

  -- The upsize lines' items after `items`; Adobe is asked for the subscriptions only if there are any.
  unfoldable pub add_upsize_lines : Dict String → List Line → List LineItem → Reply (List LineItem)
  unfolding process_upsize_lines get_subscriptions_for_offers by_base_offer
  add_upsize_lines discounts [] items = ok items
  add_upsize_lines discounts (line ∷ lines) items = adobe.get_subscriptions >>= λ subscriptions.
      process_upsize_lines table context.market_segment discounts
        (by_base_offer (
          get_subscriptions_for_offers (map vendor_of (line ∷ lines)) (deployment_id_of context)
            subscriptions))
        (line ∷ lines) items

  abbrev pub payload_of : List LineItem → Payload
  payload_of items =
      update_payload_by_deployment adobe.currency (deployment_id_of context) (record {
        external_reference_id = context.order.id;
        line_items = items;
        currency_code = none;
      })

  abbrev pub items_with : Dict String → Reply (List LineItem)
  items_with discounts =
      process_new_lines table context.market_segment discounts context.new_lines []
      >>= add_upsize_lines discounts context.upsize_lines

  abbrev pub discounts_for : List String → Reply (Dict String)
  discounts_for skus = get_flex_discounts_per_base_offer (adobe.get_flex_discounts skus)

  -- The payload's line items, before the deployment is put on them.
  unfoldable pub build_line_items : Reply (List LineItem)
  unfolding process_new_lines add_upsize_lines get_flex_discounts_per_base_offer find_sku
  build_line_items =
      find_skus (context.upsize_lines ++ context.new_lines) >>= discounts_for >>= items_with

  -- The log line after the request reads the preview, which may be None.
  abbrev returned : Option Response → Reply (Option Response)
  returned none = raises type_error
  returned (some response) = ok (some response)

  abbrev pub request : List LineItem → Reply (Option Response)
  request [] = ok none
  request (item ∷ items) =
      (get_preview_order adobe.preview (payload_of (item ∷ items))).reply >>= returned

  unfoldable pub create_preview_order : Reply (Option Response)
  unfolding build_line_items get_preview_order update_payload_by_deployment
  create_preview_order = build_line_items >>= request
