-- ===== src/Examples/Renewals.antt =====
-- Two upsizes, of which Adobe refuses the second.
use mathlib.Core.Path.{subst}
use swo_adobe_vipm_extension.Base.{
  ◌≡◌, refl, ap, none, some, List, [], ◌∷◌, ℕ, String, Option, ◌==◌, eqb, if◌then◌else◌, false,
  arith,
}
use swo_adobe_vipm_extension.Context.{adobe_api, adobe}
use swo_adobe_vipm_extension.Dict.{lookup}
use swo_adobe_vipm_extension.Order.{Line}
use swo_adobe_vipm_extension.Renewals.{
  OrderSubscription, ChangeContext, Outside, update_renewal_lines,
  get_subscription_by_line_and_item_id,
}
use swo_adobe_vipm_extension.Renewals.Restored.{stopped_with, update_renewal_lines-stops}
use swo_adobe_vipm_extension.Renewals.Recorded.{find}
use swo_adobe_vipm_extension.Examples.Data.{line_of, context_of}

abbrev lines : List Line
lines = line_of "ALI-1" "65304578CA" 5 9 ∷ line_of "ALI-2" "77777777CA" 2 6 ∷ []

abbrev start : ChangeContext
start = record {
  context = context_of [] lines [];
  order_subscriptions =
      record { id = "SUB-1"; vendor = "a-sub"; lines = ("ALI-1", "65304578CA") ∷ [] }
      ∷ record { id = "SUB-2"; vendor = "b-sub"; lines = ("ALI-2", "77777777CA") ∷ [] }
      ∷ [];
  adobe_new_order = none;
  quantities = ("a-sub", 5) ∷ ("b-sub", 2) ∷ [];
  updated = [];
  error = none;
  return_orders = 0;
  notified = [];
}

abbrev strict_adobe : Outside
strict_adobe = record {
  refusal =
      λ vendor quantity. if eqb quantity 6 then some (adobe_api "3119" "Inactive" []) else none;
  missing_error = λ vendor. adobe vendor;
  return_failure = none;
}

abbrev stopped_at : ChangeContext
stopped_at = stopped_with start (update_renewal_lines strict_adobe lines start)

accepts :
    (v : String) (n : ℕ) → lookup v start.quantities ≡ some n → strict_adobe.refusal v n ≡ none
accepts v n h = ground (arith, h)

abbrev vendor_of : Option OrderSubscription → String
vendor_of none = ""
vendor_of (some s) = s.vendor

distinct :
    (s s2 : OrderSubscription)
    → find start.order_subscriptions (line_of "ALI-1" "65304578CA" 5 9) ≡ some s
    → find start.order_subscriptions (line_of "ALI-2" "77777777CA" 2 6) ≡ some s2
    → s.vendor == s2.vendor ≡ false
unfolding get_subscription_by_line_and_item_id
distinct s s2 f g =
    subst (λ v. v == s2.vendor ≡ false) (ap vendor_of f)
      (subst (λ v. "a-sub" == v ≡ false) (ap vendor_of g) refl)

update_renewal_lines-stops_example :
    lookup "a-sub" stopped_at.quantities ≡ lookup "a-sub" start.quantities
unfolding update_renewal_lines
update_renewal_lines-stops_example =
    update_renewal_lines-stops strict_adobe lines start stopped_at "a-sub"
      ((distinct, tt), (tt, tt)) accepts refl
