-- ===== src/Renewals.antt =====
-- The step UpdateRenewalQuantities of adobe_vipm/flows/fulfillment/change.py, and that for downsizes: the
-- renewal quantities of Adobe's subscriptions follow the lines, and are rolled back where Adobe
-- refuses one. Adobe's subscriptions are the dict of their renewal quantities.
pub mod Recorded
pub mod Restored
use swo_adobe_vipm_extension.Base.{
  ℕ, ◌+◌, String, Option, none, some, List, [], ◌∷◌, ◌++◌, map, Bool, true, false, ◌==◌, ◌&&◌, ◌||◌,
  eqb, ltb, if◌then◌else◌, any, find_first, is_some,
}
use swo_adobe_vipm_extension.Context.{Context, Exception, adobe_api, switch_order_to_failed}
use swo_adobe_vipm_extension.Dict.{Dict, lookup, insert}
use swo_adobe_vipm_extension.Order.{Line, invalid_renewal_state}
use swo_adobe_vipm_extension.Order.Lines.{get_partial_sku}
use swo_adobe_vipm_extension.Pipeline.Linear
use swo_adobe_vipm_extension.Pipeline.Linear.{Ends, stops, proceeds}

-- A subscription of the order, with its Adobe id and the ids of its lines and their items.
pub record OrderSubscription : Type 0 where
  pub id : String
  pub vendor : String
  pub lines : List (String × String)

-- `context.adobe_new_order`
pub record NewOrder : Type 0 where
  pub status : String
  pub offer_ids : List String

-- An entry of `context.updated`.
pub record Updated : Type 0 where
  pub vendor : String
  pub old_quantity : ℕ
  pub new_quantity : ℕ

-- What is told about subscriptions that could not be updated: one of them, or those of a rollback.
pub data NotUpdated : Type 0 where
  update_error : String → Exception → NotUpdated
  rollback_error : Exception → List Updated → NotUpdated

pub record ChangeContext : Type 0 where
  pub context : Context
  pub order_subscriptions : List OrderSubscription
  pub adobe_new_order : Option NewOrder
  pub quantities : Dict ℕ
  pub updated : List Updated
  pub error : Option Exception
  pub return_orders : ℕ
  pub notified : List NotUpdated

-- Adobe: why it refuses a quantity of a subscription, if it does; what a missing subscription raises; and
-- how the return of the new order fails, if it does.
pub record Outside : Type 0 where
  pub refusal : String → ℕ → Option Exception
  pub missing_error : String → Exception
  pub return_failure : Option Exception

abbrev pub Run : Type 0
Run = ChangeContext × Option Exception

-- `get_subscription_by_line_and_item_id`
unfoldable pub get_subscription_by_line_and_item_id :
    List OrderSubscription → String → String → Option OrderSubscription
get_subscription_by_line_and_item_id subscriptions item_id line_id =
    find_first
      (λ subscription. any (λ line. line.0 == line_id && line.1 == item_id) subscription.lines)
      subscriptions

-- `_is_invalid_renewal_state_ok`
unfoldable pub is_invalid_renewal_state_ok : Option NewOrder → Line → Bool
unfolding get_partial_sku
is_invalid_renewal_state_ok none line = true
is_invalid_renewal_state_ok (some new_order) line =
    if any (λ offer_id. get_partial_sku offer_id == line.item.vendor) new_order.offer_ids
    then new_order.status == "1000"
    else true

-- An error that leaves the line as updated.
unfoldable pub is_allowed : String → Option NewOrder → Line → ℕ → Bool
unfolding is_invalid_renewal_state_ok
is_allowed code new_order line old_quantity =
    (code == "3120"
      && (ltb old_quantity line.quantity && is_invalid_renewal_state_ok new_order line))
    || (code == "3123" && is_some new_order)

abbrev pub add_updated : OrderSubscription → ℕ → ℕ → ChangeContext → ChangeContext
add_updated sub old_quantity quantity c = record c {
  updated =
      c.updated
      ++ record { vendor = sub.vendor; old_quantity = old_quantity; new_quantity = quantity } ∷ [];
}

abbrev pub refuse_update : OrderSubscription → Exception → ChangeContext → ChangeContext
refuse_update sub e c = record c {
  error = some e;
  notified = c.notified ++ update_error sub.id e ∷ [];
}

abbrev pub set_renewal : String → ℕ → ChangeContext → ChangeContext
set_renewal vendor quantity c = record c { quantities = insert vendor quantity c.quantities }

module _ (outside : Outside) where
  abbrev pub answered : Line → OrderSubscription → ℕ → ChangeContext → Option Exception → Run
  answered line sub old_quantity c none =
      (add_updated sub old_quantity line.quantity (set_renewal sub.vendor line.quantity c), none)
  answered line sub old_quantity c (some (adobe_api code message details)) = (
    if is_allowed code c.adobe_new_order line old_quantity
        then add_updated sub old_quantity line.quantity c
        else refuse_update sub (adobe_api code message details) c,
    none,
  )
  answered line sub old_quantity c (some e) = (c, some e)

  abbrev pub with_subscription : Line → OrderSubscription → ChangeContext → Option ℕ → Run
  with_subscription line sub c none = (c, some (outside.missing_error sub.vendor))
  with_subscription line sub c (some old_quantity) =
      if eqb old_quantity line.quantity
      then (c, none)
      else answered line sub old_quantity c (outside.refusal sub.vendor line.quantity)

  abbrev pub for_subscription : Line → ChangeContext → Option OrderSubscription → Run
  for_subscription line c none = (c, none)
  for_subscription line c (some sub) = with_subscription line sub c (lookup sub.vendor c.quantities)

  -- `_update_line`
  unfoldable pub update_line : Line → ChangeContext → Run
  unfolding get_subscription_by_line_and_item_id is_allowed
  update_line line c =
      for_subscription line c
        (get_subscription_by_line_and_item_id c.order_subscriptions line.item.id line.id)

  abbrev pub go_on : (ChangeContext → Run) → Run → Run
  go_on rest (c, none) = rest c
  go_on rest (c, some e) = (c, some e)

  -- `_update_lines`: an error that Adobe gives for one line does not end the loop.
  abbrev pub update_lines : List Line → ChangeContext → Run
  update_lines [] c = (c, none)
  update_lines (line ∷ lines) c = go_on (update_lines lines) (update_line line c)

  -- The loop of `_rollback_updated_subscriptions`.
  abbrev pub restored : (ChangeContext → Run) → Updated → ChangeContext → Option Exception → Run
  restored rest u c none = rest (set_renewal u.vendor u.old_quantity c)
  restored rest u c (some e) = (c, some e)

  abbrev pub restore : List Updated → ChangeContext → Run
  restore [] c = (c, none)
  restore (u ∷ updated) c = restored (restore updated) u c (outside.refusal u.vendor u.old_quantity)

  abbrev pub return_new_order : ChangeContext → Option NewOrder → Option Exception → Run
  return_new_order c none failure = (c, none)
  return_new_order c (some new_order) none =
      (record c { return_orders = c.return_orders + 1 }, none)
  return_new_order c (some new_order) (some e) = (c, some e)

  -- The `except` of the rollback.
  abbrev pub rollback_handled : Run → ChangeContext
  rollback_handled (c, none) = c
  rollback_handled (c, some e) = record c {
    notified = c.notified ++ rollback_error e c.updated ∷ [];
  }

  -- `_rollback_updated_subscriptions`
  unfoldable pub rollback_updated_subscriptions : ChangeContext → ChangeContext
  rollback_updated_subscriptions c = rollback_handled (
      go_on (λ c1. return_new_order c1 c1.adobe_new_order outside.return_failure)
        (restore c.updated c))

  -- `_handle_subscription_update_error`
  abbrev pub fail_order_for : Exception → ChangeContext → ChangeContext
  fail_order_for (adobe_api code message details) c =
      if code == "3120" || code == "3119"
      then record c { context = switch_order_to_failed (invalid_renewal_state message) c.context }
      else c
  fail_order_for e c = c

  unfoldable pub handle_subscription_update_error : Exception → ChangeContext → ChangeContext
  unfolding rollback_updated_subscriptions switch_order_to_failed
  handle_subscription_update_error e c = fail_order_for e (rollback_updated_subscriptions c)

  abbrev pub by_error : ChangeContext → Option Exception → Ends ChangeContext Exception
  by_error c none = proceeds c
  by_error c (some e) = stops (handle_subscription_update_error e c)

  abbrev pub conclude : Run → Ends ChangeContext Exception
  conclude (c, none) = by_error c c.error
  conclude (c, some e) = Linear.raises e c

  -- `UpdateRenewalQuantities.__call__`, on the lines of the step; the step is made for each pipeline, so
  -- that its error is unset.
  unfoldable pub update_renewal_lines : List Line → ChangeContext → Ends ChangeContext Exception
  unfolding update_line handle_subscription_update_error
  update_renewal_lines lines c =
      conclude (update_lines lines (record c { updated = []; error = none }))

  unfoldable pub update_renewal_quantities : ChangeContext → Ends ChangeContext Exception
  unfolding update_renewal_lines
  update_renewal_quantities c =
      update_renewal_lines (c.context.upsize_lines ++ c.context.new_lines) c

  -- `UpdateRenewalQuantitiesDownsizes`
  unfoldable pub update_renewal_quantities_downsizes : ChangeContext → Ends ChangeContext Exception
  unfolding update_renewal_lines
  update_renewal_quantities_downsizes c = update_renewal_lines c.context.downsize_lines c
