-- ===== src/ThreeYc/Totals.antt =====
-- `get_quantities` in closed form.
use swo_adobe_vipm_extension.Base.{
  ◌≡◌, refl, Option, none, some, List, [], ◌∷◌, ◌++◌, Bool, true, false, not, ◌&&◌, arith,
  if◌then◌else◌, keep,
}
use swo_adobe_vipm_extension.Base.Int.{ℤ, pos, ◌+ℤ◌, ◌-ℤ◌, int_laws, +ℤ_assoc, +ℤ_zero}
use swo_adobe_vipm_extension.Order.{Line}
use swo_adobe_vipm_extension.Order.Lines.{get_partial_sku, Split}
use swo_adobe_vipm_extension.Customer.{AdobeSubscription}
use swo_adobe_vipm_extension.Catalog.{Product, MarketSegment, is_consumable, is_license}
use swo_adobe_vipm_extension.ThreeYc.Quantities.{
  Counts, add_product, calculate_delta, signed_delta, product_of, count_subscriptions,
  process_lines_quantities, get_quantities,
}

-- A sum over the entries of a list that are selected.
abbrev pub total {ℓ} : {A : Type ℓ} → (A → Bool) → (A → ℤ) → List A → ℤ
total select amount [] = pos 0
total select amount (x ∷ xs) = (if select x then amount x else pos 0) +ℤ total select amount xs

total-append {ℓ} :
    {A : Type ℓ} (select : A → Bool) (amount : A → ℤ) (xs ys : List A)
    → total select amount (xs ++ ys) ≡ total select amount xs +ℤ total select amount ys
total-append select amount [] ys = omega int_laws
total-append select amount (x ∷ xs) ys = rw (total-append select amount xs ys) (omega int_laws)

abbrev pub counts_consumables : Option Product → Bool
counts_consumables none = false
counts_consumables (some p) = is_consumable p

abbrev pub counts_licenses : Option Product → Bool
counts_licenses none = false
counts_licenses (some p) = is_license p && not (is_consumable p)

abbrev pub change : Line → ℤ
change line = pos line.quantity -ℤ pos line.old_quantity

add_product-licenses :
    (p : Option Product) (delta : ℤ) (counts : Counts)
    → (add_product p delta counts).licenses
      ≡ counts.licenses +ℤ (if counts_licenses p then delta else pos 0)
add_product-licenses none delta counts = omega int_laws
add_product-licenses (some p) delta counts = ground (arith, +ℤ_zero counts.licenses)

add_product-consumables :
    (p : Option Product) (delta : ℤ) (counts : Counts)
    → (add_product p delta counts).consumables
      ≡ counts.consumables +ℤ (if counts_consumables p then delta else pos 0)
add_product-consumables none delta counts = omega int_laws
add_product-consumables (some p) delta counts = ground (arith, +ℤ_zero counts.consumables)

signed_delta-change :
    (line : Line) (d : Bool) → signed_delta (calculate_delta line d) d ≡ change line
signed_delta-change line true = omega int_laws
signed_delta-change line false = refl

module _ (table : List Product) (market_segment : MarketSegment)
    (selects : Option Product → Bool) where
  -- Whether the product of a subscription, or of an order line, is one that is counted.
  abbrev pub on_subscription : AdobeSubscription → Bool
  on_subscription s = selects (product_of table market_segment (get_partial_sku s.offer_id))

  abbrev pub on_line : Line → Bool
  on_line l = selects (product_of table market_segment l.item.vendor)

  -- The count after the order: the subscriptions that renew, and what each order line changes.
  abbrev pub expected : Split → List AdobeSubscription → ℤ
  expected lines items =
      total on_subscription (λ s. pos s.renewal_quantity) (keep (λ s. s.auto_renewal) items)
      +ℤ total on_line change (lines.downsize_lines ++ (lines.upsize_lines ++ lines.new_lines))

-- One of the two counts, with what selects the products that it counts.
record Count : Type 0 where
  of : Counts → ℤ
  selects : Option Product → Bool
  adds :
      (p : Option Product) (delta : ℤ) (counts : Counts)
      → of (add_product p delta counts) ≡ of counts +ℤ (if selects p then delta else pos 0)

module _ (table : List Product) (market_segment : MarketSegment) (c : Count) where
  count_subscriptions-total :
      (ss : List AdobeSubscription) (counts : Counts)
      → c.of (count_subscriptions table market_segment ss counts)
        ≡ c.of counts
          +ℤ total (on_subscription table market_segment c.selects) (λ s. pos s.renewal_quantity) ss
  count_subscriptions-total [] counts = omega int_laws
  count_subscriptions-total (s ∷ ss) counts =
      rw
        (count_subscriptions-total ss (
          add_product (product_of table market_segment (get_partial_sku s.offer_id))
            (pos s.renewal_quantity) counts))
        (rw c.adds (+ℤ_assoc (c.of counts) _ _))

  process_lines-total :
      (ls : List Line) (counts : Counts) (d : Bool)
      → c.of (process_lines_quantities table market_segment ls counts d)
        ≡ c.of counts +ℤ total (on_line table market_segment c.selects) change ls
  unfolding process_lines_quantities
  process_lines-total [] counts d = omega int_laws
  process_lines-total (l ∷ ls) counts d =
      rw
        (process_lines-total ls
          (add_product (product_of table market_segment l.item.vendor)
            (signed_delta (calculate_delta l d) d) counts)
          d)
        (rw (c.adds, signed_delta-change l d) (+ℤ_assoc (c.of counts) _ _))

  get_quantities-of :
      (lines : Split) (items : List AdobeSubscription)
      → c.of (record { licenses = pos 0; consumables = pos 0 }) ≡ pos 0
      → c.of (get_quantities table market_segment lines items)
        ≡ expected table market_segment c.selects lines items
  unfolding get_quantities
  get_quantities-of lines items z =
      let zero_counts : Counts = record { licenses = pos 0; consumables = pos 0 } in
      let active = keep (λ (s : AdobeSubscription). s.auto_renewal) items in
      let counted = count_subscriptions table market_segment active zero_counts in
      let lowered =
        process_lines_quantities table market_segment lines.downsize_lines counted true in
      rw
        (
          process_lines-total (lines.upsize_lines ++ lines.new_lines) lowered false,
          process_lines-total lines.downsize_lines counted true,
          count_subscriptions-total active zero_counts,
          z,
          total-append (on_line table market_segment c.selects) change lines.downsize_lines
              (lines.upsize_lines ++ lines.new_lines),
        )
        (omega int_laws)

abbrev the_licenses : Count
the_licenses = record {
  of = λ counts. counts.licenses;
  selects = counts_licenses;
  adds = add_product-licenses;
}

abbrev the_consumables : Count
the_consumables = record {
  of = λ counts. counts.consumables;
  selects = counts_consumables;
  adds = add_product-consumables;
}

-- The two counts that the validation compares are the renewal quantities of the subscriptions that
-- renew, plus for every order line the new quantity less the old one, each taken over the products of
-- the license type and of the consumable type: downsizes lower a count and upsizes and new lines
-- raise it, and a product of no 3YC type, or one that the SKU mapping lacks, changes neither.
pub get_quantities-totals :
    (table : List Product) (market_segment : MarketSegment) (lines : Split)
    (items : List AdobeSubscription)
    → let counts = get_quantities table market_segment lines items in
      (counts.licenses ≡ expected table market_segment counts_licenses lines items)
      × (counts.consumables ≡ expected table market_segment counts_consumables lines items)
get_quantities-totals table market_segment lines items = (
  get_quantities-of table market_segment the_licenses lines items refl,
  get_quantities-of table market_segment the_consumables lines items refl,
)
