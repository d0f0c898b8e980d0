-- ===== src/ThreeYc/Guarantees.antt =====
-- What the 3YC validation step guarantees.
use swo_adobe_vipm_extension.Base.{
  String, Option, none, some, List, [], ◌++◌, Bool, true, false, ◌==◌, ◌≡◌, ◌↔◌, refl, arith,
  eq_iff, All, Bool-cases, inl, inr, ◌⊎◌,
}
use swo_adobe_vipm_extension.Order.{CommitmentError}
use swo_adobe_vipm_extension.Customer.{Customer, Commitment, AdobeSubscription, is_running}
use swo_adobe_vipm_extension.Context.{Context, ok}
use swo_adobe_vipm_extension.Pipeline.Linear.{proceeds}
use swo_adobe_vipm_extension.ThreeYc.Minimum.{
  IsReached, validate_minimum_quantity, validate_minimum_quantity_iff,
  validate_items_in_subscriptions,
}
use swo_adobe_vipm_extension.ThreeYc.Listed.{HaveSubscriptions, validate_items_iff}
use swo_adobe_vipm_extension.ThreeYc.Lost.{ReachesCoterm, ReachesCoterm-iff}
use swo_adobe_vipm_extension.ThreeYc.Step.{
  Outside, commitment_of, is_over, is_pending, is_expired_or_rejected, counts_of, conclude,
  check_subscriptions, validate_commitment_requirements, validate_3yc_commitment,
}

running_status :
    (s : String)
    → is_running s ≡ true
    → (is_over s ≡ false) × (is_pending s ≡ false) × ((s == "REQUESTED") ≡ false)
running_status s h = elim (running_cases s h) [
  | inl e ↦ rw e (refl, refl, refl)
  | inr e ↦ rw e (refl, refl, refl)
]
  where
    running_cases : (s : String) → is_running s ≡ true → (s ≡ "COMMITTED") ⊎ (s ≡ "ACTIVE")
    running_cases s h = elim (Bool-cases (s == "COMMITTED")) [
      | inl e ↦ inl ((eq_iff s "COMMITTED").0 e)
      | inr e ↦ inr ((eq_iff s "ACTIVE").0 (ground arith))
    ]

conclude_iff :
    (v : Bool) (outside : Outside) (context : Context) (a b : Option CommitmentError)
    → ((elim a [
      | some error ↦ conclude v outside context (some error)
      | none ↦ conclude v outside context b
    ])
        ≡ proceeds context)
      ↔ ((a ≡ none) × (b ≡ none))
conclude_iff v outside context (some x) b = (λ h. cc, λ h. cc)
conclude_iff v outside context none (some y) = (λ h. cc, λ h. cc)
conclude_iff v outside context none none = (λ h. (refl, refl), λ h. refl)

check_subscriptions_iff :
    (v : Bool) (outside : Outside) (context : Context) (c : Commitment)
    (items : List AdobeSubscription)
    → (check_subscriptions v outside context c (ok items) ≡ proceeds context) ↔ (
        HaveSubscriptions (context.downsize_lines ++ context.upsize_lines) items
        × All (IsReached (counts_of v outside context items)) c.minimum_quantities)
check_subscriptions_iff v outside context c items =
    let m =
      validate_minimum_quantity_iff c.minimum_quantities (counts_of v outside context items) in
    let e =
      conclude_iff v outside context
        (validate_items_in_subscriptions (context.downsize_lines ++ context.upsize_lines) items)
        (validate_minimum_quantity c.minimum_quantities (counts_of v outside context items)) in
    let s = validate_items_iff (context.downsize_lines ++ context.upsize_lines) items in
    (λ h. (s.0 (e.0 h).0, m.0 (e.0 h).1), λ h. e.1 (s.1 h.0, m.1 h.1))

-- A running commitment, that is one in status COMMITTED or ACTIVE that does not end before the
-- customer's anniversary, is enforced: when no return order was placed and Adobe answers, the step
-- lets the order go on, unchanged, exactly if the quantities after the order reach every minimum of the
-- commitment and, unless Adobe has no subscription at all for the customer, every downsize and upsize
-- line has one whose offer starts with the line's SKU.
pub running_commitment_enforced :
    (v : Bool) (outside : Outside) (context : Context) (customer : Customer) (c : Commitment)
    (items : List AdobeSubscription)
    → context.adobe_return_orders ≡ []
    → context.adobe_customer ≡ some customer
    → commitment_of customer ≡ some c
    → is_running c.status ≡ true
    → ReachesCoterm customer c
    → outside.get_subscriptions context.authorization_id context.adobe_customer_id ≡ ok items
    → (validate_3yc_commitment v outside context ≡ proceeds context) ↔ (
        HaveSubscriptions (context.downsize_lines ++ context.upsize_lines) items
        × All (IsReached (counts_of v outside context items)) c.minimum_quantities)
unfolding validate_3yc_commitment validate_commitment_requirements is_expired_or_rejected
running_commitment_enforced v outside context customer c items hr hc hm hs he ho =
    let r = running_status c.status hs in
    let b = (ReachesCoterm-iff customer c).1 he in
    let e : validate_3yc_commitment v outside context
        ≡ check_subscriptions v outside context c (ok items) =
      ground (arith, r.0, r.1, r.2, b) in
    rw e (check_subscriptions_iff v outside context c items)
