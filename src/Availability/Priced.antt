-- ===== src/Availability/Priced.antt =====
-- The SKUs of the lines, and which of them a query finds.
use swo_adobe_vipm_extension.Base.{
  ◌≡◌, if◌then◌else◌, refl, ap, ◌∙◌, inl, inr, String, Option, none, some, List, [], ◌∷◌, map, Bool,
  true, false, not, ◌==◌, ◌&&◌, keep, find_first, any, contains, All, Bool-cases, arith, eq_refl,
  eq_iff,
}
use swo_adobe_vipm_extension.Order.{Line}
use swo_adobe_vipm_extension.Catalog.{
  Product, MarketSegment, airtable_segment, get_adobe_product_by_marketplace_sku,
}
use swo_adobe_vipm_extension.Availability.{
  SkuPrice, select_skus, Skus, skus_of, not_found, with_sku, get_adobe_skus,
}

-- Some row of the price list that passes is one of the SKU.
abbrev pub has_price : (SkuPrice → Bool) → List SkuPrice → String → Bool
has_price p rows sku = any (λ row. p row && row.partial_sku == sku) rows

module _ (p : SkuPrice → Bool) where
  -- The other SKUs of a query have no say in whether a SKU is found.
  contains-kept :
      (skus : List String) (sku : String) (rows : List SkuPrice)
      → contains skus sku ≡ true
      → contains
          (map
            (λ (row : SkuPrice). row.partial_sku)
            (keep (λ row. p row && contains skus row.partial_sku) rows))
          sku
        ≡ has_price p rows sku
  contains-kept skus sku [] h = refl
  contains-kept skus sku (row ∷ rows) h = elim (Bool-cases (row.partial_sku == sku)) [
    | inl e ↦
        let asked = ap (contains skus) ((eq_iff row.partial_sku sku).0 e) ∙ h in
        ground (arith, e, asked, contains-kept skus sku rows h)
    | inr e ↦ ground (arith, e, contains-kept skus sku rows h)
  ]

  select_skus-has_price :
      (skus : List String) (sku : String) (rows : List SkuPrice)
      → contains skus sku ≡ true
      → contains (select_skus p rows skus) sku ≡ has_price p rows sku
  select_skus-has_price [] sku rows h = cc
  select_skus-has_price (s ∷ skus) sku rows h = contains-kept (s ∷ skus) sku rows h

  pub missing_lem :
      (rows : List SkuPrice) (skus xs : List String)
      → All (λ x. contains skus x ≡ true) xs
      → keep (λ x. not (contains (select_skus p rows skus) x)) xs
        ≡ keep (λ x. not (has_price p rows x)) xs
  missing_lem rows skus [] h = refl
  missing_lem rows skus (x ∷ xs) h =
      rw (select_skus-has_price skus x rows h.0, missing_lem rows skus xs h.1) refl

more_skus :
    (s : String) (skus xs : List String)
    → All (λ x. contains skus x ≡ true) xs
    → All (λ x. contains (s ∷ skus) x ≡ true) xs
more_skus s skus [] h = tt
more_skus s skus (x ∷ xs) h = (ground (arith, h.0), more_skus s skus xs h.1)

pub own_skus : (skus : List String) → All (λ x. contains skus x ≡ true) skus
own_skus [] = tt
own_skus (s ∷ skus) = (ground (arith, eq_refl s), more_skus s skus skus (own_skus skus))

pub kept_nothing :
    (p : String → Bool) (xs : List String)
    → keep (λ x. not (p x)) xs ≡ []
    → All (λ x. p x ≡ true) xs
kept_nothing p [] h = tt
kept_nothing p (x ∷ xs) h = (ground arith, kept_nothing p xs (ground arith))

find_first-passed {ℓ} :
    {A : Type ℓ} (p : A → Bool) (xs : List A) (a : A) → find_first p xs ≡ some a → p a ≡ true
find_first-passed p [] a h = cc
find_first-passed p (x ∷ xs) a h = by_test (p x) refl h (find_first-passed p xs a)
  where
    by_test :
        (b : Bool)
        → p x ≡ b
        → (if b then some x else find_first p xs) ≡ some a
        → (find_first p xs ≡ some a → p a ≡ true)
        → p a ≡ true
    by_test true e k rest = cc
    by_test false e k rest = rest k

abbrev pub vendor_of : Line → String
vendor_of line = line.item.vendor

-- Every line has a product.
abbrev pub AreKnown : List Product → MarketSegment → List Line → Type 0
AreKnown products segment lines =
    All
      (λ line.
        (product : Product) × (get_adobe_product_by_marketplace_sku products (vendor_of line)
            segment
          ≡ some product))
      lines

module _ (products : List Product) (segment : MarketSegment) where
  -- Every line has a product, or the vendor id of some line has none.
  pub data IsFound (lines : List Line) : Skus → Type 0 where
    all_found :
        {skus : List String}
        → AreKnown products segment lines
        → skus ≡ map vendor_of lines
        → IsFound lines (skus_of skus)
    lacking :
        {vendor : String}
        → contains (map vendor_of lines) vendor ≡ true
        → get_adobe_product_by_marketplace_sku products vendor segment ≡ none
        → IsFound lines (not_found vendor)

  product-vendor :
      (vendor : String) (product : Product)
      → get_adobe_product_by_marketplace_sku products vendor segment ≡ some product
      → product.vendor_external_id ≡ vendor
  unfolding get_adobe_product_by_marketplace_sku
  product-vendor vendor product h = (eq_iff product.vendor_external_id vendor).0 (
      let among =
        find_first-passed
          (λ (p : Product). p.vendor_external_id == vendor && p.segment == airtable_segment segment)
          products product h in
      ground arith)

  with_sku-IsFound :
      (line : Line) (lines : List Line) (product : Option Product) (rest : Skus)
      → get_adobe_product_by_marketplace_sku products line.item.vendor segment ≡ product
      → IsFound lines rest
      → IsFound (line ∷ lines) (with_sku line.item.vendor product rest)
  with_sku-IsFound line lines none rest h found =
      lacking (ground (arith, eq_refl line.item.vendor)) h
  with_sku-IsFound line lines (some product) (skus_of skus) h (all_found k e) =
      all_found ((product, h), k) (rw (product-vendor line.item.vendor product h, e) refl)
  with_sku-IsFound line lines (some product) (not_found vendor) h (lacking among e) =
      lacking (ground (arith, among)) e

  pub get_adobe_skus-IsFound :
      (lines : List Line) → IsFound lines (get_adobe_skus products segment lines)
  unfolding get_adobe_skus
  get_adobe_skus-IsFound [] = all_found tt refl
  get_adobe_skus-IsFound (line ∷ lines) =
      with_sku-IsFound line lines
        (get_adobe_product_by_marketplace_sku products line.item.vendor segment)
        (get_adobe_skus products segment lines) refl (get_adobe_skus-IsFound lines)
