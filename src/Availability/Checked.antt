-- ===== src/Availability/Checked.antt =====
-- How an order may leave the check of its SKUs.
use mathlib.Core.Path.{subst}
use swo_adobe_vipm_extension.Base.{
  ℕ, contains, contains-keep, All-imp, ◌↔◌, false, ◌+◌, ◌<◌, ◌≡◌, refl, sym, ap, ◌∙◌, inl, inr,
  String, Option, none, some, List, [], ◌∷◌, map, Bool, true, not, ◌==◌, keep, All, Bool-cases,
  arith, eq_iff,
}
use swo_adobe_vipm_extension.Order.{sku_not_found, sku_availability}
use swo_adobe_vipm_extension.Customer.{Commitment, Customer, get_3yc_commitment}
use swo_adobe_vipm_extension.Catalog.{get_adobe_product_by_marketplace_sku}
use swo_adobe_vipm_extension.Context.{Context, Exception, attribute_error}
use swo_adobe_vipm_extension.Pipeline.Linear.{Ends, proceeds}
use swo_adobe_vipm_extension.Pipeline.Linear
use swo_adobe_vipm_extension.Availability.{
  SkuPrice, Outside, select_skus, Skus, skus_of, not_found, get_adobe_skus,
  get_skus_with_available_prices, get_skus_with_available_prices_3yc, changed_lines, refuse,
  by_missing, check_available, is_long, by_commitment, with_skus, validate_sku_availability,
}
use swo_adobe_vipm_extension.Availability.Priced.{
  AreKnown, has_price, missing_lem, own_skus, kept_nothing, vendor_of, IsFound, all_found, lacking,
  get_adobe_skus-IsFound,
}
use swo_adobe_vipm_extension.Availability.Sale.{IsOnSale, IsOnSale-iff, counts_for, is_priced}

-- The vendor ids of the lines of an order that changes.
abbrev pub ordered : Context → List String
ordered context = map vendor_of (changed_lines context)

-- What the step decides by: every line has a product, and the customer is there.
abbrev pub Asks : Outside → Context → Customer → Type 0
Asks outside context customer =
    AreKnown outside.products context.market_segment (changed_lines context)
    × (context.adobe_customer ≡ some customer)

-- A commitment in status COMMITTED that ends more than 365 days from now.
abbrev pub IsLong : Outside → Option Commitment → Type 0
IsLong outside found =
    (c : Commitment) × (found ≡ some c)
    × (c.status ≡ "COMMITTED")
    × (outside.today + 365 < c.end_date)

-- The ways for a context to leave the step.
pub data IsChecked (v : Bool) (outside : Outside) (context : Context)
    : Ends Context Exception → Type 0 where
  unknown_item :
      (vendor : String)
      → contains (ordered context) vendor ≡ true
      → get_adobe_product_by_marketplace_sku outside.products vendor context.market_segment ≡ none
      → IsChecked v outside context (refuse v outside context (sku_not_found vendor))
  no_customer :
      AreKnown outside.products context.market_segment (changed_lines context)
      → context.adobe_customer ≡ none
      → IsChecked v outside context (Linear.raises attribute_error context)
  long_commitment :
      (customer : Customer)
      → Asks outside context customer
      → IsLong outside (get_3yc_commitment customer)
      → IsChecked v outside context (proceeds context)
  on_sale :
      (customer : Customer)
      → Asks outside context customer
      → ¬ IsLong outside (get_3yc_commitment customer)
      → All (IsOnSale outside (get_3yc_commitment customer)) (ordered context)
      → IsChecked v outside context (proceeds context)
  some_expired :
      (customer : Customer) (sku : String) (expired available : List String)
      → Asks outside context customer
      → ¬ IsLong outside (get_3yc_commitment customer)
      → ((s : String)
          → (contains (sku ∷ expired) s ≡ true) ↔ (
              (contains (ordered context) s ≡ true)
              × ¬ IsOnSale outside (get_3yc_commitment customer) s))
      → IsChecked v outside context
          (refuse v outside context (sku_availability (sku ∷ expired) available))

abbrev status_in : Option Commitment → String
status_in none = ""
status_in (some c) = c.status

abbrev end_in : Option Commitment → ℕ
end_in none = 0
end_in (some c) = c.end_date

module _ (v : Bool) (outside : Outside) where
  -- What is kept are the SKUs that are not on sale.
  kept-IsOnSale :
      (c : Option Commitment) (skus : List String) (s : String)
      → (contains (keep (λ x. not (is_priced outside c x)) skus) s ≡ true)
        ↔ ((contains skus s ≡ true) × ¬ IsOnSale outside c s)
  kept-IsOnSale c skus s =
      let k = contains-keep (λ x. not (is_priced outside c x)) s skus in
      let i = IsOnSale-iff outside c s in
      (
        λ h.
            let unpriced : is_priced outside c s ≡ false = ground (arith, h, k) in
            (ground (arith, h, k), λ m. cc (unpriced, i.1 m)),
        λ h. elim (Bool-cases (is_priced outside c s)) [
          | inl e ↦ absurd (h.1 (i.0 e))
          | inr e ↦ ground (arith, k, h.0, e)
        ],
      )

  too_short :
      {n : ℕ} (c : Commitment)
      → is_long v outside c ≡ false
      → n ≡ c.end_date
      → ¬ (outside.today + 365 < n)
  too_short c l e h = ground (arith, l, e, h)

  module _ (context : Context) (customer : Customer) (asks : Asks outside context customer) where
    abbrev known : Option Commitment
    known = get_3yc_commitment customer

    by_missing-IsChecked :
        (available expired : List String)
        → ¬ IsLong outside known
        → keep (λ vendor. not (is_priced outside known vendor)) (ordered context) ≡ expired
        → IsChecked v outside context (by_missing v outside context available expired)
    by_missing-IsChecked available [] short k = on_sale customer asks short (
        All-imp (λ s. (IsOnSale-iff outside known s).0) (ordered context)
          (kept_nothing (is_priced outside known) _ k))
    by_missing-IsChecked available (sku ∷ expired) short k =
        some_expired customer sku expired available asks short (
          subst
            (λ (xs : List String).
              (s : String)
              → (contains xs s ≡ true)
                ↔ ((contains (ordered context) s ≡ true) × ¬ IsOnSale outside known s))
            k (kept-IsOnSale known (ordered context)))

    check_available-IsChecked :
        (p : SkuPrice → Bool)
        → ¬ IsLong outside known
        → counts_for outside known ≡ p
        → IsChecked v outside context (
            check_available v outside context
              (ordered context)
              (select_skus p outside.rows (ordered context)))
    check_available-IsChecked p short k =
        let skus = ordered context in
        by_missing-IsChecked (select_skus p outside.rows skus) _ short (
          ap (λ q. keep (λ x. not (has_price q outside.rows x)) skus) k
          ∙ sym (missing_lem p outside.rows skus skus (own_skus skus)))

    by_commitment-IsChecked :
        (c : Option Commitment)
        → known ≡ c
        → IsChecked v outside context (by_commitment v outside context (ordered context) c)
    unfolding get_skus_with_available_prices get_skus_with_available_prices_3yc
    by_commitment-IsChecked none k =
        check_available-IsChecked _ (λ l. cc (k, l.1)) (ap (counts_for outside) k)
    by_commitment-IsChecked (some c) k = elim (Bool-cases (c.status == "COMMITTED")) [
      | inl e ↦ elim (Bool-cases (is_long v outside c)) [
        | inl l ↦ rw (e, l) (long_commitment customer asks (c, k, (eq_iff _ _).0 e, ground arith))
        | inr l ↦
            rw (e, l)
              (check_available-IsChecked _ (λ m. too_short c l (ap end_in (sym m.1 ∙ k)) m.3)
                (ap (counts_for outside) k ∙ rw e refl))
      ]
      | inr e ↦ rw e (
          check_available-IsChecked _
            (λ m. cc (e, (eq_iff _ _).1 (ap status_in (sym k ∙ m.1) ∙ m.2)))
            (ap (counts_for outside) k ∙ rw e refl))
    ]

  with_skus-IsChecked :
      (context : Context) (skus : Skus) (customer : Option Customer)
      → IsFound outside.products context.market_segment (changed_lines context) skus
      → context.adobe_customer ≡ customer
      → IsChecked v outside context (with_skus v outside context skus customer)
  unfolding get_3yc_commitment
  with_skus-IsChecked context (not_found vendor) customer (lacking among e) h =
      unknown_item vendor among e
  with_skus-IsChecked context (skus_of skus) none (all_found k e) h = no_customer k h
  with_skus-IsChecked context (skus_of skus) (some customer) (all_found k e) h =
      rw e (by_commitment-IsChecked context customer (k, h) (get_3yc_commitment customer) refl)

  -- A context is refused if a changed line has an item without product. Else the step raises without a
  -- customer. Else the context goes on unchanged if the customer has a commitment in status COMMITTED that
  -- ends more than 365 days from now. Else it goes on unchanged if every changed line has its SKU on sale:
  -- with a commitment in status COMMITTED a row of the price list that is open-ended or was valid at its
  -- start, otherwise one that is open-ended or ends today or later, in the currency of the agreement.
  -- Else it is refused, with exactly the SKUs that are not on sale.
  pub validate_sku_availability-IsChecked :
      (context : Context)
      → IsChecked v outside context (validate_sku_availability v outside context)
  unfolding validate_sku_availability
  validate_sku_availability-IsChecked context =
      with_skus-IsChecked context
        (get_adobe_skus outside.products context.market_segment (changed_lines context))
        context.adobe_customer
        (get_adobe_skus-IsFound outside.products context.market_segment (changed_lines context))
        refl
