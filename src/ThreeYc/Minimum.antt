-- ===== src/ThreeYc/Minimum.antt =====
-- `validate_minimum_quantity`, `validate_items_in_subscriptions` and
-- `validate_3yc_quantities_parameters` of `Validate3YCCommitment`.
use swo_adobe_vipm_extension.Base.{
  ℕ, ◌≡◌, ◌↔◌, Option, none, some, List, [], ◌∷◌, Bool, true, false, ◌&&◌, ◌||◌, ◌==◌, arith,
  if◌then◌else◌, eq_iff, any, All, any-false_iff, All-imp, All-zip, is_some,
}
use swo_adobe_vipm_extension.Base.Int.{ℤ, pos, ltb_ℤ, ◌≤ℤ◌}
use swo_adobe_vipm_extension.Order.{
  CommitmentError, item_not_found, licenses, consumables, below_consumables, generic, Line,
}
use swo_adobe_vipm_extension.Customer.{MinimumQuantity, AdobeSubscription, get_item_by_partial_sku}
use swo_adobe_vipm_extension.ThreeYc.Quantities.{Counts}

-- The local variables of `validate_minimum_quantity`.
record Flags : Type 0 where
  is_invalid_license_minimum : Bool
  is_invalid_consumable_minimum : Bool
  minimum_licenses : ℕ
  minimum_consumables : ℕ

abbrev license_below : Counts → MinimumQuantity → Bool
license_below counts mq = mq.offer_type == "LICENSE" && ltb_ℤ counts.licenses (pos mq.quantity)

abbrev consumables_below : Counts → MinimumQuantity → Bool
consumables_below counts mq =
    mq.offer_type == "CONSUMABLES" && ltb_ℤ counts.consumables (pos mq.quantity)

abbrev note_license : Counts → MinimumQuantity → Flags → Flags
note_license counts mq flags =
    if license_below counts mq
    then record flags { is_invalid_license_minimum = true; minimum_licenses = mq.quantity }
    else flags

abbrev note_consumables : Counts → MinimumQuantity → Flags → Flags
note_consumables counts mq flags =
    if consumables_below counts mq
    then record flags { is_invalid_consumable_minimum = true; minimum_consumables = mq.quantity }
    else flags

scan : Counts → List MinimumQuantity → Flags → Flags
scan counts [] flags = flags
scan counts (mq ∷ mqs) flags =
    scan counts mqs (note_consumables counts mq (note_license counts mq flags))

abbrev verdict : Counts → Flags → Option CommitmentError
verdict counts flags =
    if flags.is_invalid_consumable_minimum && flags.is_invalid_license_minimum
    then some (generic flags.minimum_licenses flags.minimum_consumables)
    else if flags.is_invalid_license_minimum
    then some (licenses counts.licenses (pos flags.minimum_licenses))
    else if flags.is_invalid_consumable_minimum
    then some (below_consumables counts.consumables flags.minimum_consumables)
    else none

abbrev clear : Flags
clear = record {
  is_invalid_license_minimum = false;
  is_invalid_consumable_minimum = false;
  minimum_licenses = 0;
  minimum_consumables = 0;
}

unfoldable pub validate_minimum_quantity : List MinimumQuantity → Counts → Option CommitmentError
unfolding scan
validate_minimum_quantity minimum_quantities counts =
    verdict counts (scan counts minimum_quantities clear)

scan-license :
    (counts : Counts) (mqs : List MinimumQuantity) (flags : Flags)
    → (scan counts mqs flags).is_invalid_license_minimum
      ≡ (flags.is_invalid_license_minimum || any (license_below counts) mqs)
unfolding scan
scan-license counts [] flags = ground arith
scan-license counts (mq ∷ mqs) flags =
    ground
      (arith, scan-license counts mqs (note_consumables counts mq (note_license counts mq flags)))

scan-consumables :
    (counts : Counts) (mqs : List MinimumQuantity) (flags : Flags)
    → (scan counts mqs flags).is_invalid_consumable_minimum
      ≡ (flags.is_invalid_consumable_minimum || any (consumables_below counts) mqs)
unfolding scan
scan-consumables counts [] flags = ground arith
scan-consumables counts (mq ∷ mqs) flags =
    ground (
      arith,
      scan-consumables counts mqs (note_consumables counts mq (note_license counts mq flags)),
    )

-- A minimum that the counts reach; a minimum for another offer type is always reached.
abbrev pub IsReached : Counts → MinimumQuantity → Type 0
IsReached counts mq =
    (mq.offer_type ≡ "LICENSE" → pos mq.quantity ≤ℤ counts.licenses)
    × (mq.offer_type ≡ "CONSUMABLES" → pos mq.quantity ≤ℤ counts.consumables)

IsReached-iff :
    (counts : Counts) (mq : MinimumQuantity)
    → ((license_below counts mq ≡ false) × (consumables_below counts mq ≡ false))
      ↔ IsReached counts mq
IsReached-iff counts mq = (
  λ h. (
    λ e. ground (arith, eq_iff mq.offer_type "LICENSE"),
    λ e. ground (arith, eq_iff mq.offer_type "CONSUMABLES"),
  ),
  λ h. (
    ground (arith, eq_iff mq.offer_type "LICENSE", h.0),
    ground (arith, eq_iff mq.offer_type "CONSUMABLES", h.1),
  ),
)

verdict_iff :
    (counts : Counts) (flags : Flags)
    → (verdict counts flags ≡ none)
      ↔ ((flags.is_invalid_license_minimum ≡ false) × (flags.is_invalid_consumable_minimum ≡ false))
verdict_iff counts flags = (λ h. (ground arith, ground arith), λ h. ground arith)

-- The minimum quantities of a commitment are accepted exactly if every one of them, in whatever number
-- and order Adobe lists them, is at most the count of its offer type.
pub validate_minimum_quantity_iff :
    (minimum_quantities : List MinimumQuantity) (counts : Counts)
    → (validate_minimum_quantity minimum_quantities counts ≡ none)
      ↔ All (IsReached counts) minimum_quantities
unfolding validate_minimum_quantity
validate_minimum_quantity_iff mqs counts =
    let v = verdict_iff counts (scan counts mqs clear) in
    let l = any-false_iff (license_below counts) mqs in
    let c = any-false_iff (consumables_below counts) mqs in
    (
      λ h.
          All-imp (λ mq. (IsReached-iff counts mq).0) mqs
            (All-zip _ _ mqs (l.0 (ground (arith, (v.0 h).0, scan-license counts mqs clear)))
              (c.0 (ground (arith, (v.0 h).1, scan-consumables counts mqs clear)))),
      λ h. v.1 (
        ground (
          arith,
          scan-license counts mqs clear,
          l.1 (All-imp (λ mq p. ((IsReached-iff counts mq).1 p).0) mqs h),
        ),
        ground (
          arith,
          scan-consumables counts mqs clear,
          c.1 (All-imp (λ mq p. ((IsReached-iff counts mq).1 p).1) mqs h),
        ),
      ),
    )

-- `validate_items_in_subscriptions`: the error for the first line that no subscription has.
abbrev pub first_missing : List AdobeSubscription → List Line → Option CommitmentError
first_missing items [] = none
first_missing items (line ∷ lines) =
    if is_some (get_item_by_partial_sku items line.item.vendor)
    then first_missing items lines
    else some (item_not_found line.item.vendor)

unfoldable pub validate_items_in_subscriptions :
    List Line → List AdobeSubscription → Option CommitmentError
validate_items_in_subscriptions lines [] = none
validate_items_in_subscriptions lines (item ∷ items) = first_missing (item ∷ items) lines

-- The comparisons of `validate_3yc_quantities_parameters`, with the minimums that the order asks for.
unfoldable pub below_parameters : Counts → ℤ → ℤ → Option CommitmentError
below_parameters counts minimum_licenses minimum_consumables =
    if ltb_ℤ counts.licenses minimum_licenses
    then some (licenses counts.licenses minimum_licenses)
    else if ltb_ℤ counts.consumables minimum_consumables
    then some (consumables counts.consumables minimum_consumables)
    else none
