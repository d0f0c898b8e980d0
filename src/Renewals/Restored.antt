-- ===== src/Renewals/Restored.antt =====
-- A rollback gives Adobe's subscriptions the renewal quantities that they had.
use swo_adobe_vipm_extension.Base.{
  ℕ, ◌≡◌, refl, ap, sym, ◌∙◌, String, Option, none, some, List, [], ◌∷◌, Bool, true, false, ◌==◌,
  ◌||◌, if◌then◌else◌, All,
}
use swo_adobe_vipm_extension.Context.{Exception, adobe_api, switch_order_to_failed}
use swo_adobe_vipm_extension.Dict.{Dict, lookup, update}
use swo_adobe_vipm_extension.Order.{Line, invalid_renewal_state}
use swo_adobe_vipm_extension.Order.Updated.{lookup-update}
use swo_adobe_vipm_extension.Pipeline.Linear
use swo_adobe_vipm_extension.Pipeline.Linear.{Ends, stops, proceeds}
use swo_adobe_vipm_extension.Renewals.{
  OrderSubscription, NewOrder, Updated, ChangeContext, Outside, Run, set_renewal, update_lines,
  restore, return_new_order, rollback_handled, rollback_updated_subscriptions, fail_order_for,
  handle_subscription_update_error, by_error, conclude, update_renewal_lines,
}
use swo_adobe_vipm_extension.Renewals.Recorded.{olds, AreDistinct, Inv, Fresh, update_lines-Inv}

-- The state that a step has stopped with.
abbrev pub stopped_with : ChangeContext → Ends ChangeContext Exception → ChangeContext
stopped_with c (stops c2) = c2
stopped_with c (proceeds c2) = c
stopped_with c (Linear.raises e c2) = c

module _ (subs : List OrderSubscription) (q0 : Dict ℕ) where
  module _ (outside : Outside)
      (accepts : (v : String) (n : ℕ) → lookup v q0 ≡ some n → outside.refusal v n ≡ none) where
    restore_lem :
        (updated : List Updated) (c : ChangeContext)
        → All (λ u. lookup u.vendor q0 ≡ some u.old_quantity) updated
        → restore outside updated c
          ≡ (record c { quantities = update c.quantities (olds updated) }, none)
    restore_lem [] c h = refl
    restore_lem (u ∷ updated) c h =
        rw (accepts u.vendor u.old_quantity h.0)
          (restore_lem updated (set_renewal u.vendor u.old_quantity c) h.1)

    return-quantities :
        (c : ChangeContext) (o : Option NewOrder) (f : Option Exception)
        → (rollback_handled outside (return_new_order outside c o f)).quantities ≡ c.quantities
    return-quantities c none f = refl
    return-quantities c (some x) none = refl
    return-quantities c (some x) (some e) = refl

    rollback-quantities :
        (c : ChangeContext) (k : String)
        → Inv subs q0 c
        → lookup k (rollback_updated_subscriptions outside c).quantities ≡ lookup k q0
    unfolding rollback_updated_subscriptions
    rollback-quantities c k h = rw (restore_lem c.updated c h.entries) (
        ap (lookup k) (
          return-quantities (record c { quantities = update c.quantities (olds c.updated) })
            c.adobe_new_order outside.return_failure)
        ∙ lookup-update k c.quantities (olds c.updated)
        ∙ h.back k)

    fail_order-quantities :
        (e : Exception) (c : ChangeContext) → (fail_order_for outside e c).quantities ≡ c.quantities
    fail_order-quantities (adobe_api code message details) c =
        by_test (code == "3120" || code == "3119")
      where
        by_test :
            (b : Bool)
            → (if b
                then record c {
                  context = switch_order_to_failed (invalid_renewal_state message) c.context;
                }
                else c).quantities
              ≡ c.quantities
        by_test true = refl
        by_test false = refl
    fail_order-quantities e c = refl

    by_error-quantities :
        (c c2 : ChangeContext) (o : Option Exception) (k : String)
        → Inv subs q0 c
        → by_error outside c o ≡ stops c2
        → lookup k c2.quantities ≡ lookup k q0
    unfolding handle_subscription_update_error
    by_error-quantities c c2 none k h e = cc
    by_error-quantities c c2 (some x) k h e =
        ap (λ r. lookup k (stopped_with c r).quantities) (sym e)
        ∙ ap (lookup k) (fail_order-quantities x (rollback_updated_subscriptions outside c))
        ∙ rollback-quantities c k h

-- If the step ends without `next_step`, because Adobe refused a line's quantity, then every subscription
-- at Adobe has the renewal quantity that it had before the step: no two of the step's lines being of
-- the same Adobe subscription, and Adobe accepting the quantities that its subscriptions had.
pub update_renewal_lines-stops :
    (outside : Outside) (lines : List Line) (c c2 : ChangeContext) (k : String)
    → AreDistinct c.order_subscriptions lines
    → ((v : String) (n : ℕ) → lookup v c.quantities ≡ some n → outside.refusal v n ≡ none)
    → update_renewal_lines outside lines c ≡ stops c2
    → lookup k c2.quantities ≡ lookup k c.quantities
unfolding update_renewal_lines
update_renewal_lines-stops outside lines c c2 k d accepts e =
    by_run (update_lines outside lines start)
      (update_lines-Inv c.order_subscriptions c.quantities outside lines start d
        (none_recorded lines) (record { same_subs = refl; back = λ k. refl; entries = tt }))
      e
  where
    start : ChangeContext
    start = record c { updated = []; error = none }

    none_recorded : (lines : List Line) → All (Fresh c.order_subscriptions c.quantities start) lines
    none_recorded [] = tt
    none_recorded (line ∷ lines) = (λ s f. refl, none_recorded lines)

    by_run :
        (r : Run)
        → Inv c.order_subscriptions c.quantities r.0
        → conclude outside r ≡ stops c2
        → lookup k c2.quantities ≡ lookup k c.quantities
    by_run (c1, none) h e =
        by_error-quantities c.order_subscriptions c.quantities outside accepts c1 c2 c1.error k h e
    by_run (c1, some x) h e = cc
