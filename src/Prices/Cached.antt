-- ===== src/Prices/Cached.antt =====
-- The cache of the three-year prices changes no price.
use swo_adobe_vipm_extension.Base.{
  ℕ, ◌≡◌, refl, ap, ◌∙◌, String, Option, none, some, List, [], ◌∷◌, Bool, true, ◌==◌, ◌&&◌,
  if◌then◌else◌, contains, is_some, arith, eq_iff, Bool-cases, inl, inr,
}
use swo_adobe_vipm_extension.Dict.{Dict, lookup, insert, lookup-insert}
use swo_adobe_vipm_extension.Prices.{
  PriceRow, Cache, set_default, add_rows, still_missing, find_cached_3yc_price, is_3yc_price,
  is_historical, select, with_cached, cached_prices, look_up_history, look_up,
}

-- The first price, else the second.
abbrev pub or_else : Option ℕ → Option ℕ → Option ℕ
or_else none b = b
or_else (some a) b = some a

-- The price of the first row of the SKU that a query selects.
abbrev pub first_price : (PriceRow → Bool) → String → List PriceRow → Option ℕ
first_price p s [] = none
first_price p s (row ∷ rows) =
    if p row && row.sku == s then some row.unit_pp else first_price p s rows

abbrev first_in : String → List PriceRow → Option ℕ
first_in s [] = none
first_in s (row ∷ rows) = if row.sku == s then some row.unit_pp else first_in s rows

default_lem :
    (s k : String) (v : ℕ) (d : Dict ℕ) (o : Option ℕ)
    → lookup k d ≡ o
    → (k == s ≡ true → lookup k d ≡ lookup s d)
    → lookup s (if is_some o then d else insert k v d)
      ≡ or_else (lookup s d) (if k == s then some v else none)
default_lem s k v d none f same = ground (arith, f, same, lookup-insert k s v d)
default_lem s k v d (some a) f same = ground (arith, f, same)

lookup-set_default :
    (s k : String) (v : ℕ) (d : Dict ℕ)
    → lookup s (set_default k v d) ≡ or_else (lookup s d) (if k == s then some v else none)
lookup-set_default s k v d =
    default_lem s k v d (lookup k d) refl (λ e. ap (λ y. lookup y d) ((eq_iff k s).0 e))

lookup-add_rows :
    (s : String) (items : List PriceRow) (d : Dict ℕ)
    → lookup s (add_rows items d) ≡ or_else (lookup s d) (first_in s items)
lookup-add_rows s [] d = ground arith
lookup-add_rows s (item ∷ items) d = ground (
  arith,
  lookup-add_rows s items (set_default item.sku item.unit_pp d),
  lookup-set_default s item.sku item.unit_pp d,
)

first_in-select :
    (s : String) (currency : String) (start : ℕ) (p : PriceRow → Bool) (table : List PriceRow)
    (skus : List String)
    → contains skus s ≡ true
    → first_in s (select currency start p table skus) ≡ first_price p s table
first_in-select s currency start p [] skus h = refl
first_in-select s currency start p (row ∷ rows) skus h = elim (Bool-cases (row.sku == s)) [
  | inl e ↦
      let same : contains skus row.sku ≡ true = ap (contains skus) ((eq_iff row.sku s).0 e) ∙ h in
      ground (arith, e, same, first_in-select s currency start p rows skus h)
  | inr e ↦ ground (arith, e, first_in-select s currency start p rows skus h)
]

pub contains-still_missing :
    (s : String) (prices : Dict ℕ) (skus : List String)
    → lookup s prices ≡ none
    → contains skus s ≡ true
    → contains (still_missing prices skus) s ≡ true
contains-still_missing s prices [] e h = cc
contains-still_missing s prices (x ∷ skus) e h = elim (Bool-cases (x == s)) [
  | inl f ↦
      let gone : lookup x prices ≡ none = ap (λ y. lookup y prices) ((eq_iff x s).0 f) ∙ e in
      ground (arith, f, gone)
  | inr f ↦ ground (arith, h, f, contains-still_missing s prices skus e)
]

lookup-with_cached :
    (s x currency : String) (start : ℕ) (o : Option ℕ) (d : Dict ℕ)
    → lookup s (with_cached currency start x o d)
      ≡ (if x == s then or_else o (lookup s d) else lookup s d)
lookup-with_cached s x currency start none d = ground arith
lookup-with_cached s x currency start (some v) d = ground (arith, lookup-insert x s v d)

pub lookup-cached_prices :
    (s currency : String) (start : ℕ) (cache : Cache) (skus : List String) (d : Dict ℕ)
    → lookup s (cached_prices currency start cache skus d) ≡ (
        if contains skus s
        then or_else (find_cached_3yc_price currency start cache s) (lookup s d)
        else lookup s d)
lookup-cached_prices s currency start cache [] d = refl
lookup-cached_prices s currency start cache (x ∷ skus) d =
    let o = find_cached_3yc_price currency start cache x in
    let next = lookup-with_cached s x currency start o d in
    let rest =
      lookup-cached_prices s currency start cache skus (with_cached currency start x o d) in
    elim (Bool-cases (x == s)) [
      | inl e ↦
          let same = ap (find_cached_3yc_price currency start cache) ((eq_iff x s).0 e) in
          ground (arith, e, next, rest, same)
      | inr e ↦ ground (arith, e, next, rest)
    ]

-- The price of the SKU in the table alone: that of the first row for the date, else the newest one.
abbrev pub table_price : String → ℕ → List PriceRow → String → Option ℕ
table_price currency start table s =
    or_else (first_price (is_3yc_price currency start) s table)
      (first_price (is_historical currency start) s table)

module _ (currency : String) (start : ℕ) (table : List PriceRow) (s : String) where
  history_lem :
      (prices : Dict ℕ) (skus : List String)
      → contains skus s ≡ true
      → lookup s (look_up_history currency start table prices skus)
        ≡ or_else (lookup s prices) (first_price (is_historical currency start) s table)
  history_lem prices [] h = cc
  history_lem prices (x ∷ skus) h =
      lookup-add_rows s (select currency start (is_historical currency start) table (x ∷ skus))
        prices
      ∙ ap (or_else (lookup s prices))
          (first_in-select s currency start (is_historical currency start) table (x ∷ skus) h)

  history_keeps :
      (prices : Dict ℕ) (skus : List String) (v : ℕ)
      → lookup s prices ≡ some v
      → lookup s (look_up_history currency start table prices skus) ≡ some v
  history_keeps prices [] v e = e
  history_keeps prices (x ∷ skus) v e =
      lookup-add_rows s (select currency start (is_historical currency start) table (x ∷ skus))
        prices
      ∙ ap
          (λ o.
            or_else o
              (first_in s (select currency start (is_historical currency start) table (x ∷ skus))))
          e

  pub look_up-keeps :
      (cache : Cache) (prices : Dict ℕ) (skus : List String) (v : ℕ)
      → lookup s prices ≡ some v
      → lookup s (look_up currency start table cache prices skus).0 ≡ some v
  look_up-keeps cache prices [] v e = e
  look_up-keeps cache prices (x ∷ skus) v e =
      let items = select currency start (is_3yc_price currency start) table (x ∷ skus) in
      history_keeps (add_rows items prices) (still_missing (add_rows items prices) (x ∷ skus)) v
        (lookup-add_rows s items prices ∙ ap (λ o. or_else o (first_in s items)) e)

  pub look_up-finds :
      (cache : Cache) (prices : Dict ℕ) (skus : List String)
      → lookup s prices ≡ none
      → contains skus s ≡ true
      → lookup s (look_up currency start table cache prices skus).0
        ≡ table_price currency start table s
  look_up-finds cache prices [] e h = cc
  look_up-finds cache prices (x ∷ skus) e h =
      let items = select currency start (is_3yc_price currency start) table (x ∷ skus) in
      let found = add_rows items prices in
      let first = first_price (is_3yc_price currency start) s table in
      let now : lookup s found ≡ first =
        lookup-add_rows s items prices
        ∙ ap (λ o. or_else o (first_in s items)) e
        ∙ first_in-select s currency start (is_3yc_price currency start) table (x ∷ skus) h in
      by_first found first now
    where
      by_first :
          (found : Dict ℕ) (first : Option ℕ)
          → lookup s found ≡ first
          → lookup s (look_up_history currency start table found (still_missing found (x ∷ skus)))
            ≡ or_else first (first_price (is_historical currency start) s table)
      by_first found (some v) now = history_keeps found (still_missing found (x ∷ skus)) v now
      by_first found none now =
          history_lem found (still_missing found (x ∷ skus))
            (contains-still_missing s found (x ∷ skus) now h)
          ∙ ap (λ o. or_else o (first_price (is_historical currency start) s table)) now
