-- ===== src/Purchase/Steps.antt =====
-- The other steps of a purchase's validation: `CheckPurchaseValidationEnabled` and
-- `ValidateQuantitiesLGA` of flows/validation/purchase.py, `ValidateDuplicateLines` and
-- `GetPreviewOrder` of flows/validation/shared.py. Each of them calls `next_step` last.
use swo_adobe_vipm_extension.Base.{
  ℕ, ◌+◌, String, Option, none, some, List, [], ◌∷◌, ◌++◌, Bool, true, false, not, ◌==◌,
  if◌then◌else◌, ltb, eqb, keep, map, all,
}
use swo_adobe_vipm_extension.Order.{
  Line, Subscription, ErrorData, duplicated_items, existing_items, lga_quantities, adobe_error,
}
use swo_adobe_vipm_extension.Params.{
  set_order_error, is_ordering_param_required, required_customer_params,
}
use swo_adobe_vipm_extension.Catalog.{Product, MarketSegment, large_government_agency}
use swo_adobe_vipm_extension.Context.{
  Context, Exception, adobe_api, product_not_found, create_preview, Reply, ok, raises, PreviewItem,
}
use swo_adobe_vipm_extension.Pipeline.Linear.{Ends, stops, proceeds}
use swo_adobe_vipm_extension.Pipeline.Linear
use swo_adobe_vipm_extension.Preview.{Response, ResponseItem}
use swo_adobe_vipm_extension.Preview.Create.{Adobe, create_preview_order}

-- `is_purchase_validation_enabled`
unfoldable pub is_purchase_validation_enabled : Context → Bool
unfolding is_ordering_param_required
is_purchase_validation_enabled context =
    all (is_ordering_param_required context.order) required_customer_params

unfoldable pub check_purchase_validation_enabled : Context → Ends Context Exception
unfolding is_purchase_validation_enabled
check_purchase_validation_enabled context =
    if not (is_purchase_validation_enabled context) then stops context else proceeds context

-- The order's error, with `validation_succeeded` reset.
abbrev pub refused : Context → ErrorData → Context
refused context error = record context {
  order = set_order_error context.order error;
  validation_succeeded = false;
}

-- `Counter(items)`: the items in the order of their first occurrence, with their counts.
abbrev pub count : String → List String → ℕ
count s [] = 0
count s (x ∷ xs) = if x == s then 1 + count s xs else count s xs

abbrev pub without : String → List String → List String
without s [] = []
without s (x ∷ xs) = let rest = without s xs in if x == s then rest else x ∷ rest

abbrev pub distinct : List String → List String
distinct [] = []
distinct (x ∷ xs) = x ∷ without x (distinct xs)

-- `[item for item, count in Counter(items).items() if count > 1]`
unfoldable pub duplicates : List String → List String
duplicates items = keep (λ item. ltb 1 (count item items)) (distinct items)

abbrev item_id : Line → String
item_id line = line.item.id

abbrev pub subscribed : List Subscription → List String
subscribed [] = []
subscribed (s ∷ subscriptions) = s.item_ids ++ subscribed subscriptions

abbrev pub ordered_items : Context → List String
ordered_items context = map item_id context.order.lines

abbrev pub existing_and_new : Context → List String
existing_and_new context =
    subscribed context.order.subscriptions
    ++ map item_id (keep (λ line. eqb line.old_quantity 0) context.order.lines)

abbrev pub by_existing : Context → List String → Ends Context Exception
by_existing context [] = proceeds context
by_existing context (d ∷ ds) = stops (refused context (existing_items (d ∷ ds)))

abbrev pub by_repeated : Context → List String → Ends Context Exception
by_repeated context [] = by_existing context (duplicates (existing_and_new context))
by_repeated context (d ∷ ds) = stops (refused context (duplicated_items (d ∷ ds)))

abbrev pub with_lines : Context → List Line → Ends Context Exception
with_lines context [] = proceeds context
with_lines context (line ∷ lines) = by_repeated context (duplicates (ordered_items context))

unfoldable pub validate_duplicate_lines : Context → Ends Context Exception
unfolding duplicates
validate_duplicate_lines context = with_lines context context.order.lines

abbrev pub total_quantity : List Line → ℕ
total_quantity [] = 0
total_quantity (line ∷ lines) = line.quantity + total_quantity lines

abbrev is_large : MarketSegment → Bool
is_large large_government_agency = true
is_large _ = false

abbrev pub check_quantity : Context → List Line → Ends Context Exception
check_quantity context [] = proceeds context
check_quantity context (line ∷ lines) =
    if ltb (total_quantity (line ∷ lines)) 100
    then stops (refused context lga_quantities)
    else proceeds context

-- `segment_of` is the configured segment of a product.
unfoldable pub validate_quantities_lga : (String → MarketSegment) → Context → Ends Context Exception
validate_quantities_lga segment_of context =
    if is_large (segment_of context.order.product_id)
    then check_quantity context context.new_lines
    else proceeds context

-- `except (AdobeAPIError, AdobeProductNotFoundError, AdobeCreatePreviewError)`
abbrev pub is_preview_error : Exception → Bool
is_preview_error (adobe_api _ _ _) = true
is_preview_error (product_not_found _) = true
is_preview_error (create_preview _) = true
is_preview_error _ = false

abbrev price_item : ResponseItem → PreviewItem
price_item item = record { offer_id = item.offer_id; price = item.price }

abbrev pub preview_of : Option Response → Option (List PreviewItem)
preview_of none = none
preview_of (some response) = some (map price_item response.line_items)

-- `str e` is the text of an exception.
module _ (table : List Product) (adobe : Adobe) (str : Exception → String) where
  abbrev pub with_preview : Context → Reply (Option Response) → Ends Context Exception
  with_preview context (ok response) =
      proceeds (record context { adobe_preview_order = preview_of response })
  with_preview context (raises e) =
      if is_preview_error e
      then stops (refused context (adobe_error (str e)))
      else Linear.raises e context

  abbrev pub by_changes : Context → List Line → List Line → Ends Context Exception
  by_changes context [] [] = proceeds context
  by_changes context _ _ = with_preview context (create_preview_order table adobe context)

  -- `GetPreviewOrder`
  unfoldable pub get_preview_order : Context → Ends Context Exception
  unfolding create_preview_order
  get_preview_order context = by_changes context context.upsize_lines context.new_lines
