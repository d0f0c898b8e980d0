-- ===== src/Returns/Steps.antt =====
-- The steps that look for orders to return: `ValidateDownsizes` of flows/validation/change.py, and
-- `GetReturnableOrders` and `ValidateReturnableOrders` of flows/fulfillment/change.py. Each of them
-- calls `next_step` last.
use swo_adobe_vipm_extension.Base.{
  ℕ, ◌+◌, ◌-◌, String, Option, none, some, List, [], ◌∷◌, ◌++◌, Bool, true, false, not, ◌&&◌, ◌==◌,
  if◌then◌else◌, leb, ltb, eqb, find_first, map, keep, length,
}
use swo_adobe_vipm_extension.Dict.{Dict, lookup, insert}
use swo_adobe_vipm_extension.Order.{
  Line, Subscription, DownsizeError, first_po, quantity, invalid_downsize_quantity,
  no_returnable_orders,
}
use swo_adobe_vipm_extension.Customer.{Customer}
use swo_adobe_vipm_extension.Returns.{AdobeOrder, Returnable}
use swo_adobe_vipm_extension.Returns.Orders.{get_returnable_orders_by_subscription_id}
use swo_adobe_vipm_extension.Returns.Quantities.{lookup_quantity, returnable_by_quantity}
use swo_adobe_vipm_extension.Params.{set_order_error}
use swo_adobe_vipm_extension.Context.{
  Context, Exception, key_error, attribute_error, Reply, ok, raises, ◌>>=◌, switch_order_to_failed,
}
use swo_adobe_vipm_extension.Pipeline.Linear.{Ends, stops, proceeds}
use swo_adobe_vipm_extension.Pipeline.Linear

-- The day on which the step runs, the day of a moment, and Adobe's orders for the customer in the
-- cancellation window that ends on a coterm date.
pub record Outside : Type 0 where
  pub today : ℕ
  pub day_of : ℕ → ℕ
  pub get_orders : String → Option String → ℕ → Reply (List AdobeOrder)

-- `is_within_coterm_window`, on the day `today`
abbrev pub is_within_coterm_window : ℕ → Customer → Bool
is_within_coterm_window today customer = elim (customer.coterm_date) [
  | none ↦ false
  | some coterm ↦ leb coterm (today + 13)
]

abbrev key {ℓ} : {A : Type ℓ} → String → Option A → Reply A
key name none = raises (key_error name)
key name (some a) = ok a

-- `get_subscription_by_line_subs_id`, which gives None where the agreement has no such subscription.
abbrev vendor_id : Option Subscription → Reply (Option String)
vendor_id none = ok none
vendor_id (some subscription) = elim (subscription.vendor) [
  | none ↦ raises (key_error "vendor")
  | some id ↦ ok (some id)
]

unfoldable pub get_subscription_by_line_subs_id : List Subscription → Line → Reply (Option String)
get_subscription_by_line_subs_id [] line = ok none
get_subscription_by_line_subs_id (s ∷ subscriptions) line =
    key "subscription" line.subscription_id >>= λ id.
    vendor_id (find_first (λ subscription. subscription.id == id) (s ∷ subscriptions))

-- The numbers in ascending order.
abbrev insert_sorted : ℕ → List ℕ → List ℕ
insert_sorted n [] = n ∷ []
insert_sorted n (m ∷ ms) = if ltb m n then m ∷ insert_sorted n ms else n ∷ m ∷ ms

abbrev sorted : List ℕ → List ℕ
sorted [] = []
sorted (n ∷ ns) = insert_sorted n (sorted ns)

abbrev max_of : List ℕ → ℕ
max_of [] = 0
max_of (n ∷ ns) = let m = max_of ns in if leb m n then n else m

-- An order of no subscription: none of Adobe's line items has it.
abbrev orders_of : List AdobeOrder → List String → Option String → List Returnable
orders_of orders returning none = []
orders_of orders returning (some id) = get_returnable_orders_by_subscription_id orders id returning

abbrev pub or_empty {ℓ} : {A : Type ℓ} → Option (List A) → List A
or_empty none = []
or_empty (some xs) = xs

abbrev pub is_found : Option (List Returnable) → Bool
is_found none = false
is_found (some []) = false
is_found (some (_ ∷ _)) = true

abbrev unmatched : Dict (Option (List Returnable)) → List String
unmatched [] = []
unmatched ((sku, none) ∷ d) = sku ∷ unmatched d
unmatched ((sku, some _) ∷ d) = unmatched d

module _ (outside : Outside) where
  -- The returnable orders of a downsize line.
  unfoldable pub returnable_of : Context → Customer → List String → Line → Reply (List Returnable)
  unfolding get_subscription_by_line_subs_id get_returnable_orders_by_subscription_id
  returnable_of context customer returning line =
      get_subscription_by_line_subs_id context.order.subscriptions line >>= λ subscription_id.
      key "cotermDate" customer.coterm_date >>= λ coterm.
      outside.get_orders context.authorization_id context.adobe_customer_id coterm >>= λ orders.
      ok (orders_of orders returning subscription_id)

  -- The error of a line whose delta no returnable orders add up to.
  abbrev downsize_error : Line → List Returnable → DownsizeError
  downsize_error line orders =
      let delta = line.old_quantity - line.quantity in
      let quantities =
        keep (λ q. not (eqb q line.old_quantity))
          (sorted (map {A = Returnable} (λ roi. roi.quantity) orders)) in
      let days = map {A = Returnable} (λ roi. outside.day_of roi.order.creation_date) orders in
      elim quantities [
        | [] ↦ first_po line.item.name delta line.quantity
        | q ∷ qs ↦
            quantity line.item.name delta (q ∷ qs) (ltb 1 (length (q ∷ qs))) (max_of days + 15)
      ]

  abbrev pub check_orders : Line → List Returnable → Option DownsizeError
  check_orders line [] = none
  check_orders line (roi ∷ rois) =
      elim (lookup_quantity (line.old_quantity - line.quantity)
        (returnable_by_quantity (roi ∷ rois))) [
          | none ↦ some (downsize_error line (roi ∷ rois))
          | some _ ↦ none
        ]

  abbrev pub invalid : Context → Context
  invalid context = record context { validation_succeeded = false }

  abbrev pub add_error :
      (Context → List DownsizeError → Ends Context Exception)
      → Context
      → List DownsizeError
      → Option DownsizeError
      → Ends Context Exception
  add_error rest context errors none = rest context errors
  add_error rest context errors (some e) = rest (invalid context) (errors ++ e ∷ [])

  -- One round of the loop, by the returnable orders of the line.
  abbrev pub check_line :
      (Context → List DownsizeError → Ends Context Exception)
      → Context
      → List DownsizeError
      → Line
      → Reply (List Returnable)
      → Ends Context Exception
  check_line rest context errors line (raises ex) = Linear.raises ex context
  check_line rest context errors line (ok orders) =
      add_error rest context errors (check_orders line orders)

  -- The loop of `ValidateDownsizes`, with the errors so far, and its end.
  unfoldable pub check_lines :
      Customer → List Line → Context → List DownsizeError → Ends Context Exception
  unfolding returnable_of returnable_by_quantity
  check_lines customer [] context [] = proceeds context
  check_lines customer [] context (e ∷ es) = stops (record context {
    order = set_order_error context.order (invalid_downsize_quantity (e ∷ es));
  })
  check_lines customer (line ∷ lines) context errors =
      check_line (check_lines customer lines) context errors line
        (returnable_of context customer [] line)

  abbrev pub downsizes_of : Context → Option Customer → Ends Context Exception
  downsizes_of context none = Linear.raises attribute_error context
  downsizes_of context (some customer) =
      if is_within_coterm_window outside.today customer
      then proceeds context
      else check_lines customer context.downsize_lines context []

  unfoldable pub validate_downsizes : Context → Ends Context Exception
  unfolding check_lines
  validate_downsizes context = downsizes_of context context.adobe_customer

  abbrev pub with_returnable : Context → String → Option (List Returnable) → Context
  with_returnable context sku found = record context {
    adobe_returnable_orders = insert sku found context.adobe_returnable_orders;
  }

  -- What a line adds to the map of the context.
  abbrev pub record_orders : Context → Line → List Returnable → Context
  record_orders context line [] = context
  record_orders context line (roi ∷ rois) =
      with_returnable context line.item.vendor
        (lookup_quantity (line.old_quantity - line.quantity) (returnable_by_quantity (roi ∷ rois)))

  abbrev pub collect_line :
      (Context → Ends Context Exception)
      → Context
      → Line
      → Reply (List Returnable)
      → Ends Context Exception
  collect_line rest context line (raises ex) = Linear.raises ex context
  collect_line rest context line (ok orders) = rest (record_orders context line orders)

  unfoldable pub collect_lines : Customer → List Line → Context → Ends Context Exception
  unfolding returnable_of returnable_by_quantity
  collect_lines customer [] context = proceeds context
  collect_lines customer (line ∷ lines) context =
      collect_line (collect_lines customer lines) context line (
        returnable_of context customer
          (or_empty (lookup line.item.vendor context.adobe_return_orders)) line)

  abbrev pub returnable_orders_of : Context → Option Customer → Ends Context Exception
  returnable_orders_of context none = Linear.raises attribute_error context
  returnable_orders_of context (some customer) =
      if is_within_coterm_window outside.today customer
      then proceeds context
      else collect_lines customer context.downsize_lines context

  -- `GetReturnableOrders`
  unfoldable pub get_returnable_orders : Context → Ends Context Exception
  unfolding collect_lines
  get_returnable_orders context = returnable_orders_of context context.adobe_customer

abbrev pub all_found : Dict (Option (List Returnable)) → Bool
all_found [] = true
all_found ((sku, found) ∷ d) = is_found found && all_found d

abbrev pub is_empty {ℓ} : {A : Type ℓ} → List A → Bool
is_empty [] = true
is_empty (x ∷ xs) = false

-- `ValidateReturnableOrders`; an empty map has no entry that is not found.
unfoldable pub validate_returnable_orders : Context → Ends Context Exception
unfolding switch_order_to_failed
validate_returnable_orders context =
    if not (all_found context.adobe_returnable_orders) && is_empty context.adobe_return_orders
    then stops (
        switch_order_to_failed (no_returnable_orders (unmatched context.adobe_returnable_orders))
          context)
    else proceeds context
