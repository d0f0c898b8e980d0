-- ===== src/Transferring/Reseller.antt =====
-- The change of the reseller: the steps FetchResellerChangeData and ValidateResellerChange of
-- adobe_vipm/flows/helpers.py and AddResellerChangeLinesToOrder of the validation.
use swo_adobe_vipm_extension.Base.{
  ℕ, String, Option, none, some, List, [], ◌∷◌, map, Bool, true, false, not, ◌==◌, ◌&&◌, eqb, ltb,
  if◌then◌else◌, all, any, is_blank, length,
}
use swo_adobe_vipm_extension.Catalog.{MarketSegment}
use swo_adobe_vipm_extension.Context.{
  Context, Exception, adobe_api, adobe_http, key_error, type_error, Reply, ok, raises, handle_error,
}
use swo_adobe_vipm_extension.Customer.{Benefit, get_3yc_commitment_of_benefits}
use swo_adobe_vipm_extension.Dict.{Dict, lookup, update}
use swo_adobe_vipm_extension.Migration.{error_message}
use swo_adobe_vipm_extension.Order.{
  Order, Line, Item, Parameter, Value, text, ErrorData, reseller_change_preview,
  processing_transfer_lines, reseller_change_lines,
}
use swo_adobe_vipm_extension.Order.Lines.{
  get_partial_sku, line_pair, split_downsizes_upsizes_new, Split,
}
use swo_adobe_vipm_extension.Params.{get_value, get_ordering_parameter, set_order_error}
use swo_adobe_vipm_extension.Pipeline.Linear
use swo_adobe_vipm_extension.Pipeline.Linear.{Ends, stops, proceeds}
use swo_adobe_vipm_extension.Transferring.{
  TransferItem, Pricing, get_prices, exclude_items_with_deployment_id,
}
use swo_adobe_vipm_extension.Transferring.Government.{validate_government_lga_data}
use swo_adobe_vipm_extension.Transferring.Lines.{partial_skus, vendor_pair, new_line}

-- The preview of a change of the reseller: the day that its approval ends, benefits and items.
pub record ResellerTransfer : Type 0 where
  pub expiry : ℕ
  pub benefits : List Benefit
  pub line_items : List TransferItem

pub record ResellerContext : Type 0 where
  pub context : Context
  pub adobe_transfer : Option ResellerTransfer

-- `error_text` is the text of an `AdobeHttpError` that is no `AdobeAPIError`.
pub record Outside : Type 0 where
  pub pricing : Pricing
  pub seller_id : String
  pub segment_of : String → MarketSegment
  pub items_of : List String → List Item
  pub error_text : ℕ → String
  pub reseller_change_request : String → String → Value → Value → Reply ResellerTransfer

-- A value in a message; the code of a change is a text.
abbrev pub shown : Value → String
shown (text s) = s
shown _ = "None"

abbrev pub change_code : ResellerContext → Option Parameter
change_code r = get_ordering_parameter r.context.order "changeResellerCode"

abbrev pub has_customer : Option String → Bool
has_customer none = false
has_customer (some id) = not (is_blank id)

abbrev pub handled : Bool → ErrorData → ResellerContext → Ends ResellerContext Exception
handled is_validation error r =
    stops (record r { context = handle_error is_validation "changeResellerCode" error r.context })

abbrev pub refused_preview : Bool → String → ResellerContext → Ends ResellerContext Exception
refused_preview is_validation message r =
    handled is_validation (reseller_change_preview (shown (get_value (change_code r))) message) r

module _ (outside : Outside) (is_validation : Bool) where
  abbrev pub requested : ResellerContext → Reply ResellerTransfer → Ends ResellerContext Exception
  requested r (ok adobe_transfer) = proceeds (record r { adobe_transfer = some adobe_transfer })
  requested r (raises (adobe_api code message details)) =
      refused_preview is_validation (error_message code message details) r
  requested r (raises (adobe_http status)) =
      refused_preview is_validation (outside.error_text status) r
  requested r (raises e) = Linear.raises e r

  -- `FetchResellerChangeData`
  unfoldable pub fetch_reseller_change_data : ResellerContext → Ends ResellerContext Exception
  unfolding handle_error get_ordering_parameter
  fetch_reseller_change_data r =
      if has_customer r.context.adobe_customer_id
      then proceeds r
      else requested r (
          outside.reseller_change_request r.context.authorization_id outside.seller_id
            (get_value (change_code r))
            (get_value (get_ordering_parameter r.context.order "adobeCustomerAdminEmail")))

  abbrev pub check_expiry : ℕ → ResellerContext → Option Parameter → Ends ResellerContext Exception
  check_expiry expiry r none = Linear.raises (key_error "value") r
  check_expiry expiry r (some code) =
      if ltb expiry outside.pricing.today
      then refused_preview is_validation "Reseller change code has expired" r
      else proceeds r

  abbrev pub checked :
      ResellerTransfer → ResellerContext → Option ErrorData → Ends ResellerContext Exception
  checked transfer r (some error) = handled is_validation error r
  checked transfer r none = check_expiry transfer.expiry r (change_code r)

  abbrev pub validate_for :
      ResellerContext → Option ResellerTransfer → Ends ResellerContext Exception
  validate_for r none = Linear.raises type_error r
  validate_for r (some transfer) = checked transfer r (
      validate_government_lga_data (outside.segment_of r.context.order.product_id)
        transfer.benefits)

  -- `ValidateResellerChange`
  unfoldable pub validate_reseller_change : ResellerContext → Ends ResellerContext Exception
  unfolding handle_error validate_government_lga_data get_ordering_parameter
  validate_reseller_change r =
      if has_customer r.context.adobe_customer_id
      then proceeds r
      else validate_for r r.adobe_transfer

-- A pair of a vendor id and a quantity is among others.
abbrev pub occurs : List (String × ℕ) → String × ℕ → Bool
occurs pairs p = any (λ q. q.0 == p.0 && eqb q.1 p.1) pairs

-- `_transfer_order_lines_match`: the sets of the pairs are compared.
unfoldable pub transfer_order_lines_match : List Line → List Line → Bool
transfer_order_lines_match order_lines transfer_lines =
    eqb (length order_lines) (length transfer_lines)
    && (all (occurs (map line_pair transfer_lines)) (map line_pair order_lines)
        && all (occurs (map line_pair order_lines)) (map line_pair transfer_lines))

-- The lines of the transfer and the partial SKUs that the product does not have; no line is read where
-- there is such a SKU, so that none is built for it.
abbrev pub add_transfer_line :
    TransferItem → Dict ℕ → Option Item → List Line × List String → List Line × List String
add_transfer_line item prices none (lines, errors) = (lines, get_partial_sku item.offer_id ∷ errors)
add_transfer_line item prices (some mapped_item) (lines, errors) =
    (new_line mapped_item item prices ∷ lines, errors)

abbrev pub lines_of_items : Dict ℕ → Dict Item → List TransferItem → List Line × List String
lines_of_items prices items_map [] = ([], [])
lines_of_items prices items_map (item ∷ items) =
    add_transfer_line item prices (lookup (get_partial_sku item.offer_id) items_map)
      (lines_of_items prices items_map items)

module _ (outside : Outside) where
  -- `_get_order_lines_from_transfer`
  unfoldable pub get_order_lines_from_transfer : Order → ResellerTransfer → List Line × List String
  unfolding exclude_items_with_deployment_id get_partial_sku get_prices
      get_3yc_commitment_of_benefits
  get_order_lines_from_transfer order transfer =
      let items = exclude_items_with_deployment_id transfer.line_items in
      lines_of_items
        (get_prices outside.pricing (get_3yc_commitment_of_benefits transfer.benefits)
          (map (λ item. item.offer_id) items))
        (update [] (map vendor_pair (outside.items_of (partial_skus items)))) items

  abbrev pub concluded : Bool → Order → ResellerContext → ResellerContext
  concluded succeeded order r = record r {
    context = record (r.context) { order = order; validation_succeeded = succeeded };
  }

  abbrev pub split : ResellerContext → Split → ResellerContext
  split r s = record r {
    context = record (r.context) {
      validation_succeeded = true;
      downsize_lines = s.downsize_lines;
      upsize_lines = s.upsize_lines;
      new_lines = s.new_lines;
    };
  }

  abbrev pub split_lines : ResellerContext → Ends ResellerContext Exception
  split_lines r = proceeds (split r (split_downsizes_upsizes_new r.context.order.lines))

  -- By the lines of the transfer and those of the draft.
  abbrev pub compare_lines :
      ResellerContext → List Line → List Line → Ends ResellerContext Exception
  compare_lines r [] [] = stops (concluded false r.context.order r)
  compare_lines r [] (line ∷ lines) = split_lines r
  compare_lines r (t ∷ transfer_lines) [] =
      stops (concluded true (record (r.context.order) { lines = t ∷ transfer_lines }) r)
  compare_lines r (t ∷ transfer_lines) (line ∷ lines) =
      if transfer_order_lines_match (line ∷ lines) (t ∷ transfer_lines)
      then split_lines r
      else stops (concluded false (set_order_error r.context.order reseller_change_lines) r)

  abbrev pub add_found : ResellerContext → List Line × List String → Ends ResellerContext Exception
  add_found r (lines, []) = compare_lines r lines r.context.order.lines
  add_found r (lines, e ∷ errors) =
      stops (
        concluded false (set_order_error r.context.order (processing_transfer_lines (e ∷ errors)))
          r)

  abbrev pub add_for : ResellerContext → Option ResellerTransfer → Ends ResellerContext Exception
  add_for r none = Linear.raises type_error r
  add_for r (some transfer) = add_found r (get_order_lines_from_transfer r.context.order transfer)

  -- `AddResellerChangeLinesToOrder`
  unfoldable pub add_reseller_change_lines_to_order :
      ResellerContext → Ends ResellerContext Exception
  unfolding get_order_lines_from_transfer transfer_order_lines_match set_order_error
      split_downsizes_upsizes_new
  add_reseller_change_lines_to_order r = add_for r r.adobe_transfer
