-- ===== src/Preview/Lines.antt =====
-- The line items of a preview order: one for each new line, and one for each upsize line that Adobe's
-- subscription does not cover yet. `get_subscriptions` is Adobe's answer for the customer, and
-- `get_flex_discounts` its pages of discounts for the offers.
use Prim.Native.Char.{code}
use swo_adobe_vipm_extension.Base.{
  ℕ, ◌-◌, String, Option, none, some, List, [], ◌∷◌, ◌++◌, Bool, true, false, not, ◌==◌, ◌&&◌,
  if◌then◌else◌, keep, map, contains, eqb, ltb, is_blank, parse_int,
}
use swo_adobe_vipm_extension.Base.Int.{ℤ, pos, sub_ℕ, ◌-ℤ◌, leb_ℤ}
use swo_adobe_vipm_extension.Dict.{Dict, lookup, update}
use swo_adobe_vipm_extension.Order.{Line}
use swo_adobe_vipm_extension.Order.Lines.{get_partial_sku}
use swo_adobe_vipm_extension.Customer.{AdobeSubscription}
use swo_adobe_vipm_extension.Catalog.{Product, MarketSegment, get_adobe_product_by_marketplace_sku}
use swo_adobe_vipm_extension.Context.{
  value_error, adobe_api, product_not_found, create_preview, Reply, ok, raises, ◌>>=◌,
}
use swo_adobe_vipm_extension.Preview.{LineItem}

abbrev is_dash_free : String → Bool
is_dash_free String.[] = true
is_dash_free (String.◌∷◌ c s) = not (eqb (code c) 45) && is_dash_free s

-- `text.rsplit("-", maxsplit=1)[-1]`
abbrev after_last_dash : String → String
after_last_dash String.[] = String.[]
after_last_dash (String.◌∷◌ c s) =
    if is_dash_free (String.◌∷◌ c s)
    then String.◌∷◌ c s
    else if is_dash_free s
    then s
    else after_last_dash s

abbrev or_value_error : Option ℤ → Reply ℤ
or_value_error none = raises (value_error "int")
or_value_error (some n) = ok n

unfoldable pub to_adobe_line_id : String → Reply ℤ
unfolding parse_int
to_adobe_line_id mpt_line_id = or_value_error (parse_int (after_last_dash mpt_line_id))

abbrev sku_of : String → Option Product → Reply String
sku_of vendor none = raises (product_not_found vendor)
sku_of vendor (some product) = ok product.sku

abbrev pub same_deployment : Option String → Option String → Bool
same_deployment none none = true
same_deployment (some a) (some b) = a == b
same_deployment _ _ = false

-- `get_subscriptions_by_deployment` and `get_subscriptions_for_offers`, on all the subscriptions
unfoldable pub get_subscriptions_for_offers :
    List String → Option String → List AdobeSubscription → List AdobeSubscription
unfolding get_partial_sku
get_subscriptions_for_offers base_offer_ids deployment_id subscriptions =
    keep (λ sub. contains base_offer_ids (get_partial_sku sub.offer_id))
      (keep (λ sub. sub.status == "1000")
        (keep (λ sub. same_deployment sub.deployment_id deployment_id) subscriptions))

abbrev pub by_offer : AdobeSubscription → String × AdobeSubscription
by_offer sub = (sub.offer_id, sub)

abbrev pub by_partial : String × AdobeSubscription → String × AdobeSubscription
by_partial entry = (get_partial_sku entry.0, entry.1)

-- `map_by_base_offer_subscriptions`
unfoldable pub by_base_offer : List AdobeSubscription → Dict AdobeSubscription
unfolding get_partial_sku
by_base_offer subscriptions = update [] (map by_partial (update [] (map by_offer subscriptions)))

abbrev discount_codes : Option String → Option (List String)
discount_codes none = none
discount_codes (some c) = if is_blank c then none else some (c ∷ [])

-- `diff` of an upsize, and the quantity that is left to order.
abbrev pub covered : AdobeSubscription → ℕ
covered sub =
    if ltb sub.renewal_quantity sub.current_quantity
    then sub.current_quantity - sub.renewal_quantity
    else 0

abbrev pub missing : Line → AdobeSubscription → ℤ
missing line sub = sub_ℕ line.quantity line.old_quantity -ℤ pos (covered sub)

-- An active discount that `get_flex_discounts` lists.
pub record FlexOffer : Type 0 where
  pub status : String
  pub code : String
  pub base_offer_ids : List String

abbrev pairs_with : String → List String → List (String × String)
pairs_with v [] = []
pairs_with v (k ∷ ks) = (k, v) ∷ pairs_with v ks

unfoldable pub base_offers_with_discounts : Dict String → List FlexOffer → Dict String
base_offers_with_discounts d [] = d
base_offers_with_discounts d (fd ∷ fds) =
    base_offers_with_discounts
      (if fd.status == "ACTIVE" then update d (pairs_with fd.code fd.base_offer_ids) else d) fds

-- `get_flex_discounts_per_base_offer`: a country that is not the partner's has no discounts.
unfoldable pub get_flex_discounts_per_base_offer : Reply (List FlexOffer) → Reply (Dict String)
unfolding base_offers_with_discounts
get_flex_discounts_per_base_offer (ok offers) = ok (base_offers_with_discounts [] offers)
get_flex_discounts_per_base_offer (raises (adobe_api code message details)) =
    if code == "1178" then ok [] else raises (adobe_api code message details)
get_flex_discounts_per_base_offer (raises ex) = raises ex

module _ (table : List Product) (segment : MarketSegment) where
  unfoldable pub find_sku : String → Reply String
  unfolding get_adobe_product_by_marketplace_sku
  find_sku vendor = sku_of vendor (get_adobe_product_by_marketplace_sku table vendor segment)

  -- `_get_preview_order_line_item`, with the discount of the line's product
  unfoldable pub get_preview_order_line_item : Dict String → Line → ℤ → Reply LineItem
  unfolding find_sku to_adobe_line_id
  get_preview_order_line_item discounts line quantity = find_sku line.item.vendor >>= λ sku.
      to_adobe_line_id line.id >>= λ number. ok (record {
        ext_line_item_number = number;
        offer_id = sku;
        quantity = quantity;
        flex_discount_codes = discount_codes (lookup sku discounts);
        deployment_id = none;
        currency_code = none;
      })

  -- `_process_new_lines`, on the line items so far
  unfoldable pub process_new_lines : Dict String → List Line → List LineItem → Reply (List LineItem)
  unfolding get_preview_order_line_item
  process_new_lines discounts [] items = ok items
  process_new_lines discounts (line ∷ lines) items =
      get_preview_order_line_item discounts line (pos line.quantity) >>= λ item.
      process_new_lines discounts lines (items ++ item ∷ [])

  -- One round of the loop over the upsize lines, with the subscription of its SKU.
  abbrev pub add_upsize :
      Dict String → Line → List LineItem → Option AdobeSubscription → Reply (List LineItem)
  add_upsize discounts line items none = raises (create_preview line.item.vendor)
  add_upsize discounts line items (some sub) =
      if leb_ℤ (missing line sub) (pos 0)
      then ok items
      else get_preview_order_line_item discounts line (missing line sub) >>= λ item.
          ok (items ++ item ∷ [])

  -- `_process_upsize_lines`; its ProcessingUpsizeLinesError is an AdobeCreatePreviewError to the caller.
  unfoldable pub process_upsize_lines :
      Dict String → Dict AdobeSubscription → List Line → List LineItem → Reply (List LineItem)
  unfolding get_preview_order_line_item
  process_upsize_lines discounts subs [] items = ok items
  process_upsize_lines discounts subs (line ∷ lines) items =
      add_upsize discounts line items (lookup line.item.vendor subs) >>= λ next.
      process_upsize_lines discounts subs lines next
