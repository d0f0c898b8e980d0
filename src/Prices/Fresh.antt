-- ===== src/Prices/Fresh.antt =====
-- A cache that was filled from the price list, and the prices that it leads to.
use mathlib.Core.List.{Memᴰ}
use mathlib.Core.Path.{subst}
use swo_adobe_vipm_extension.Base.{
  keep-All, ℕ, ◌≡◌, refl, sym, ap, ◌∙◌, String, Option, none, some, List, [], ◌∷◌, ◌++◌, Bool, true,
  false, ◌==◌, ◌&&◌, if◌then◌else◌, find_first, contains, is_some, All, All-imp, arith, eq_iff,
  Bool-cases, inl, inr,
}
use swo_adobe_vipm_extension.Dict.{Dict, lookup, lookup-insert}
use swo_adobe_vipm_extension.Prices.{
  PriceRow, CachedPrice, Cache, entries, price_of_entry, store, store_rows, still_missing,
  entry_covers, find_cached_3yc_price, is_3yc_price, select, cached_prices, look_up,
  get_prices_for_3yc_skus,
}
use swo_adobe_vipm_extension.Prices.Cached.{
  first_price, table_price, lookup-cached_prices, contains-still_missing, look_up-keeps,
  look_up-finds,
}

-- The entry is a row of the price list with an end.
pub record IsFrom (table : List PriceRow) (s : String) (e : CachedPrice) : Type 0 where
  pub row : PriceRow
  pub listed : Memᴰ row table
  pub sku : row.sku ≡ s
  pub currency : row.currency ≡ e.currency
  pub from : row.valid_from ≡ e.valid_from
  pub until : row.valid_until ≡ some e.valid_until
  pub price : row.unit_pp ≡ e.unit_pp

abbrev pub IsCacheOf : List PriceRow → Cache → Type 0
IsCacheOf table cache = (s : String) → All (IsFrom table s) (entries (lookup s cache))

-- On a day that a row with an end covers, no row before it in the list gives the SKU another price.
abbrev pub IsConsistent : List PriceRow → Type 0
IsConsistent table =
    (currency : String) (start : ℕ) (row : PriceRow)
    → Memᴰ row table
    → is_some row.valid_until ≡ true
    → is_3yc_price currency start row ≡ true
    → first_price (is_3yc_price currency start) row.sku table ≡ some row.unit_pp

every_row : (rows : List PriceRow) → All (λ row. Memᴰ row rows) rows
every_row [] = tt
every_row (row ∷ rows) = (Memᴰ.head refl, All-imp (λ x m. Memᴰ.tail m) rows (every_row rows))

snoc-All :
    (P : CachedPrice → Type 0) (es : List CachedPrice) (e : CachedPrice)
    → All P es
    → P e
    → All P (es ++ e ∷ [])
snoc-All P [] e h p = (p, tt)
snoc-All P (x ∷ es) e h p = (h.0, snoc-All P es e h.1 p)

module _ (table : List PriceRow) where
  store-IsCacheOf :
      (item : PriceRow) (o : Option ℕ) (cache : Cache)
      → Memᴰ item table
      → item.valid_until ≡ o
      → IsCacheOf table cache
      → IsCacheOf table (store item o cache)
  store-IsCacheOf item none cache m e h = h
  store-IsCacheOf item (some until) cache m e h = λ s.
      subst (λ o. All (IsFrom table s) (entries o)) (sym (lookup-insert item.sku s _ cache))
        (by_sku s (item.sku == s) refl)
    where
      new : CachedPrice
      new = record {
        currency = item.currency;
        valid_from = item.valid_from;
        valid_until = until;
        unit_pp = item.unit_pp;
      }

      by_sku :
          (s : String) (b : Bool)
          → (item.sku == s) ≡ b
          → All (IsFrom table s) (
              entries
                (if b then some (entries (lookup item.sku cache) ++ new ∷ []) else lookup s cache))
      by_sku s false f = h s
      by_sku s true f =
          let same = (eq_iff item.sku s).0 f in
          snoc-All (IsFrom table s) (entries (lookup item.sku cache)) new
            (subst (λ k. All (IsFrom table s) (entries (lookup k cache))) (sym same) (h s))
            (record {
              row = item;
              listed = m;
              sku = same;
              currency = refl;
              from = refl;
              until = e;
              price = refl;
            })

  store_rows-IsCacheOf :
      (items : List PriceRow) (cache : Cache)
      → All (λ row. Memᴰ row table) items
      → IsCacheOf table cache
      → IsCacheOf table (store_rows items cache)
  store_rows-IsCacheOf [] cache m h = h
  store_rows-IsCacheOf (item ∷ items) cache m h =
      store_rows-IsCacheOf items (store item item.valid_until cache) m.1
        (store-IsCacheOf item item.valid_until cache m.0 refl h)

  look_up-IsCacheOf :
      (currency : String) (start : ℕ) (cache : Cache) (prices : Dict ℕ) (skus : List String)
      → IsCacheOf table cache
      → IsCacheOf table (look_up currency start table cache prices skus).1
  look_up-IsCacheOf currency start cache prices [] h = h
  look_up-IsCacheOf currency start cache prices (x ∷ skus) h =
      store_rows-IsCacheOf (select currency start (is_3yc_price currency start) table (x ∷ skus))
        cache
        (All-imp (λ row h. h.0)
          (select currency start (is_3yc_price currency start) table (x ∷ skus))
          (keep-All (λ row. Memᴰ row table)
            (λ row. is_3yc_price currency start row && contains (x ∷ skus) row.sku) table
            (every_row table)))
        h

  module _ (currency : String) (start : ℕ) (consistent : IsConsistent table) where
    entry-price :
        (s : String) (e : CachedPrice)
        → IsFrom table s e
        → entry_covers currency start e ≡ true
        → table_price currency start table s ≡ some e.unit_pp
    entry-price s e h c =
        let row_covers : is_3yc_price currency start h.row ≡ true =
          rw (h.currency, h.from, h.until) c in
        let first = consistent currency start h.row h.listed (ap is_some h.until) row_covers in
        let first_s : first_price (is_3yc_price currency start) s table ≡ some e.unit_pp =
          ap (λ k. first_price (is_3yc_price currency start) k table) (sym h.sku)
          ∙ first
          ∙ ap some h.price in
        rw first_s refl

    found-price :
        (s : String) (es : List CachedPrice) (v : ℕ)
        → All (IsFrom table s) es
        → price_of_entry (find_first (entry_covers currency start) es) ≡ some v
        → table_price currency start table s ≡ some v
    found-price s [] v h e = cc
    found-price s (x ∷ es) v h e = elim (Bool-cases (entry_covers currency start x)) [
      | inl f ↦ entry-price s x h.0 f ∙ ground (arith, e, f)
      | inr f ↦ found-price s es v h.1 (ground (arith, e, f))
    ]

    prices_lem :
        (cache : Cache) (skus : List String) (s : String) (found : Option ℕ)
        → IsCacheOf table cache
        → contains skus s ≡ true
        → find_cached_3yc_price currency start cache s ≡ found
        → lookup s
            (look_up currency start table cache
              (cached_prices currency start cache skus [])
              (still_missing (cached_prices currency start cache skus []) skus)).0
          ≡ table_price currency start table s
    unfolding find_cached_3yc_price
    prices_lem cache skus s none h c e =
        let prices = cached_prices currency start cache skus [] in
        let absent : lookup s prices ≡ none =
          lookup-cached_prices s currency start cache skus [] ∙ rw (c, e) refl in
        look_up-finds currency start table s cache prices (still_missing prices skus) absent
          (contains-still_missing s prices skus absent c)
    prices_lem cache skus s (some v) h c e =
        let prices = cached_prices currency start cache skus [] in
        let present : lookup s prices ≡ some v =
          lookup-cached_prices s currency start cache skus [] ∙ rw (c, e) refl in
        look_up-keeps currency start table s cache prices (still_missing prices skus) v present
        ∙ sym (found-price s (entries (lookup s cache)) v (h s) e)

-- With a cache of rows of the price list, and a price list in which no row gives a SKU another price
-- than an earlier one on a day that the row covers, the price of each SKU that is asked for is the
-- one of the price list alone, or missing where that has none: the first row for the start date,
-- else the newest row with an end. The cache that the call leaves is again one of rows of the list.
pub get_prices_for_3yc_skus-IsCacheOf :
    (table : List PriceRow) (cache : Cache) (currency : String) (start : ℕ) (skus : List String)
    → IsConsistent table
    → IsCacheOf table cache
    → ((s : String)
        → contains skus s ≡ true
        → lookup s (get_prices_for_3yc_skus currency start table cache skus).0
          ≡ table_price currency start table s)
      × IsCacheOf table (get_prices_for_3yc_skus currency start table cache skus).1
unfolding get_prices_for_3yc_skus
get_prices_for_3yc_skus-IsCacheOf table cache currency start skus consistent h =
    let prices = cached_prices currency start cache skus [] in
    (
      λ s c.
          prices_lem table currency start consistent cache skus s
            (find_cached_3yc_price currency start cache s) h c refl,
      look_up-IsCacheOf table currency start cache prices (still_missing prices skus) h,
    )
