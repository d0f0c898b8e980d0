-- ===== src/Availability/Sale.antt =====
-- The SKUs that are on sale for a customer: which rows of the price list count.
use mathlib.Core.List.{Memᴰ}
use swo_adobe_vipm_extension.Base.{
  ℕ, ◌≤◌, ◌<◌, ◌≡◌, ◌≢◌, ◌↔◌, refl, sym, ◌∙◌, inl, inr, String, Option, none, some, Bool, true,
  false, ◌==◌, ◌&&◌, if◌then◌else◌, leb, ltb, Bool-cases, any-true_iff, arith, eq_iff,
}
use swo_adobe_vipm_extension.Customer.{Commitment}
use swo_adobe_vipm_extension.Availability.{
  SkuPrice, Outside, is_open_until, is_current_price, is_start_price,
}
use swo_adobe_vipm_extension.Availability.Priced.{has_price}

-- A row that is open-ended or ends today or later.
abbrev pub IsCurrent : String → ℕ → SkuPrice → Type 0
IsCurrent currency today row =
    (row.currency ≡ currency) × ((u : ℕ) → row.valid_until ≡ some u → today ≤ u)

-- A row that is open-ended or was valid at the start.
abbrev pub IsAtStart : String → ℕ → SkuPrice → Type 0
IsAtStart currency start row =
    (row.currency ≡ currency)
    × ((u : ℕ) → row.valid_until ≡ some u → (row.valid_from ≤ start) × (start < u))

-- The row that a customer with a commitment in status COMMITTED needs, and the one that any other does.
pub data Counts (outside : Outside) (row : SkuPrice) : Option Commitment → Type 0 where
  at_start :
      {c : Commitment}
      → c.status ≡ "COMMITTED"
      → IsAtStart outside.currency c.start_date row
      → Counts outside row (some c)
  other_status :
      {c : Commitment}
      → c.status ≢ "COMMITTED"
      → IsCurrent outside.currency outside.today row
      → Counts outside row (some c)
  no_commitment : IsCurrent outside.currency outside.today row → Counts outside row none

-- Some row of the SKU counts.
abbrev pub IsOnSale : Outside → Option Commitment → String → Type 0
IsOnSale outside c sku =
    (row : SkuPrice) × Memᴰ row outside.rows × (row.partial_sku ≡ sku) × Counts outside row c

IsCurrent-iff :
    (currency : String) (today : ℕ) (row : SkuPrice)
    → (is_current_price currency today row ≡ true) ↔ IsCurrent currency today row
IsCurrent-iff currency today row = by_end row.valid_until
  where
    by_end :
        (end : Option ℕ)
        → ((row.currency == currency && is_open_until (leb today) end) ≡ true)
          ↔ ((row.currency ≡ currency) × ((u : ℕ) → end ≡ some u → today ≤ u))
    by_end none = (
      λ h. ((eq_iff row.currency currency).0 (ground arith), λ u e. cc),
      λ h. ground (arith, (eq_iff row.currency currency).1 h.0),
    )
    by_end (some x) = (
      λ h. ((eq_iff row.currency currency).0 (ground arith), λ u e. ground (arith, h, e)),
      λ h. ground (arith, (eq_iff row.currency currency).1 h.0, h.1 x refl),
    )

IsAtStart-iff :
    (currency : String) (start : ℕ) (row : SkuPrice)
    → (is_start_price currency start row ≡ true) ↔ IsAtStart currency start row
IsAtStart-iff currency start row = by_end row.valid_until
  where
    by_end :
        (end : Option ℕ)
        → ((row.currency == currency
              && is_open_until (λ until. leb row.valid_from start && ltb start until) end)
            ≡ true)
          ↔ ((row.currency ≡ currency)
              × ((u : ℕ) → end ≡ some u → (row.valid_from ≤ start) × (start < u)))
    by_end none = (
      λ h. ((eq_iff row.currency currency).0 (ground arith), λ u e. cc),
      λ h. ground (arith, (eq_iff row.currency currency).1 h.0),
    )
    by_end (some x) = (
      λ h. (
        (eq_iff row.currency currency).0 (ground arith),
        λ u e. (ground (arith, h, e), ground (arith, h, e)),
      ),
      λ h. ground (arith, (eq_iff row.currency currency).1 h.0, h.1 x refl),
    )

module _ (outside : Outside) where
  -- The test of the query that is sent for a customer.
  abbrev pub counts_for : Option Commitment → SkuPrice → Bool
  counts_for none = is_current_price outside.currency outside.today
  counts_for (some c) =
      if c.status == "COMMITTED"
      then is_start_price outside.currency c.start_date
      else is_current_price outside.currency outside.today

  abbrev pub is_priced : Option Commitment → String → Bool
  is_priced c vendor = has_price (counts_for c) outside.rows vendor

  Counts-iff :
      (c : Option Commitment) (row : SkuPrice) → (counts_for c row ≡ true) ↔ Counts outside row c
  Counts-iff none row =
      let i = IsCurrent-iff outside.currency outside.today row in
      (λ h. no_commitment (i.0 h), λ (h : Counts outside row none). i.1 (current h))
    where
      current : Counts outside row none → IsCurrent outside.currency outside.today row
      current (no_commitment h) = h
  Counts-iff (some c) row = elim (Bool-cases (c.status == "COMMITTED")) [
    | inl e ↦
        let i = IsAtStart-iff outside.currency c.start_date row in
        rw e (λ h. at_start ((eq_iff c.status "COMMITTED").0 e) (i.0 h), λ h. i.1 (started e h))
    | inr e ↦
        let i = IsCurrent-iff outside.currency outside.today row in
        rw e (
          λ h. other_status (λ k. cc (e, (eq_iff c.status "COMMITTED").1 k)) (i.0 h),
          λ h. i.1 (current e h),
        )
  ]
    where
      started :
          (c.status == "COMMITTED") ≡ true
          → Counts outside row (some c)
          → IsAtStart outside.currency c.start_date row
      started e (at_start k h) = h
      started e (other_status k h) = absurd (k ((eq_iff c.status "COMMITTED").0 e))

      current :
          (c.status == "COMMITTED") ≡ false
          → Counts outside row (some c)
          → IsCurrent outside.currency outside.today row
      current e (at_start k h) = absurd (no (sym e ∙ (eq_iff c.status "COMMITTED").1 k))
        where
          no : ¬ (false ≡ true)
          no f = cc
      current e (other_status k h) = h

  pub IsOnSale-iff :
      (c : Option Commitment) (sku : String) → (is_priced c sku ≡ true) ↔ IsOnSale outside c sku
  IsOnSale-iff c sku =
      let i =
        any-true_iff (λ (row : SkuPrice). counts_for c row && row.partial_sku == sku)
          outside.rows in
      (
        λ h.
            let m = i.0 h in
            (
              m.0,
              m.1,
              (eq_iff m.0.partial_sku sku).0 (ground (arith, m.2)),
              (Counts-iff c m.0).0 (ground (arith, m.2)),
            ),
        λ m. i.1 (
          m.0,
          m.1,
          ground (arith, (eq_iff m.0.partial_sku sku).1 m.2, (Counts-iff c m.0).1 m.3),
        ),
      )
