-- ===== src/Prices.antt =====
-- The three-year prices of adobe_vipm/airtable/models.py, with their cache. The price list is the
-- table's rows in the order of the queries, newest `valid_until` first; a query selects rows of it.
pub mod Cached
pub mod Fresh
use swo_adobe_vipm_extension.Base.{
  ℕ, String, Option, none, some, List, [], ◌∷◌, ◌++◌, Bool, true, false, not, ◌==◌, ◌&&◌, leb, ltb,
  if◌then◌else◌, map, keep, find_first, contains, is_some,
}
use swo_adobe_vipm_extension.Dict.{Dict, lookup, insert, update}

-- A row; `valid_until` is none in the open-ended one.
pub record PriceRow : Type 0 where
  pub sku : String
  pub currency : String
  pub valid_from : ℕ
  pub valid_until : Option ℕ
  pub unit_pp : ℕ

-- An entry of `PRICELIST_CACHE`.
pub record CachedPrice : Type 0 where
  pub currency : String
  pub valid_from : ℕ
  pub valid_until : ℕ
  pub unit_pp : ℕ

abbrev pub Cache : Type 0
Cache = Dict (List CachedPrice)

abbrev pub entries : Option (List CachedPrice) → List CachedPrice
entries none = []
entries (some es) = es

abbrev pub price_of_entry : Option CachedPrice → Option ℕ
price_of_entry none = none
price_of_entry (some e) = some e.unit_pp

abbrev pub set_default : String → ℕ → Dict ℕ → Dict ℕ
set_default sku price prices =
    if is_some (lookup sku prices) then prices else insert sku price prices

-- `prices.setdefault` for each of the rows
abbrev pub add_rows : List PriceRow → Dict ℕ → Dict ℕ
add_rows [] prices = prices
add_rows (item ∷ items) prices = add_rows items (set_default item.sku item.unit_pp prices)

abbrev pub store : PriceRow → Option ℕ → Cache → Cache
store item none cache = cache
store item (some until) cache =
    insert item.sku
      (entries (lookup item.sku cache)
        ++ record {
          currency = item.currency;
          valid_from = item.valid_from;
          valid_until = until;
          unit_pp = item.unit_pp;
        }
          ∷ [])
      cache

-- The cache after `_collect_3yc_prices_from_items`; its prices are those of `add_rows`.
abbrev pub store_rows : List PriceRow → Cache → Cache
store_rows [] cache = cache
store_rows (item ∷ items) cache = store_rows items (store item item.valid_until cache)

abbrev pub still_missing : Dict ℕ → List String → List String
still_missing prices skus = keep (λ sku. not (is_some (lookup sku prices))) skus

module _ (currency : String) (start_date : ℕ) where
  abbrev pub entry_covers : CachedPrice → Bool
  entry_covers e =
      e.currency == currency && (leb e.valid_from start_date && ltb start_date e.valid_until)

  -- `_find_cached_3yc_price`; the default dict's empty list is not kept.
  unfoldable pub find_cached_3yc_price : Cache → String → Option ℕ
  find_cached_3yc_price cache sku =
      price_of_entry (find_first entry_covers (entries (lookup sku cache)))

  abbrev pub covers : ℕ → Option ℕ → Bool
  covers from none = true
  covers from (some until) = leb from start_date && ltb start_date until

  -- `_get_prices_3yc_for_skus_from_airtable`
  abbrev pub is_3yc_price : PriceRow → Bool
  is_3yc_price row = row.currency == currency && covers row.valid_from row.valid_until

  -- `_get_historical_prices_for_skus_from_airtable`
  abbrev pub is_historical : PriceRow → Bool
  is_historical row = row.currency == currency && is_some row.valid_until

  abbrev pub select : (PriceRow → Bool) → List PriceRow → List String → List PriceRow
  select p table skus = keep (λ row. p row && contains skus row.sku) table

  abbrev pub with_cached : String → Option ℕ → Dict ℕ → Dict ℕ
  with_cached sku none prices = prices
  with_cached sku (some price) prices = insert sku price prices

  abbrev pub cached_prices : Cache → List String → Dict ℕ → Dict ℕ
  cached_prices cache [] prices = prices
  cached_prices cache (sku ∷ skus) prices =
      cached_prices cache skus (with_cached sku (find_cached_3yc_price cache sku) prices)

  -- The two lookups in the table, each left out where nothing is missing.
  abbrev pub look_up_history : List PriceRow → Dict ℕ → List String → Dict ℕ
  look_up_history table prices [] = prices
  look_up_history table prices (sku ∷ skus) =
      add_rows (select is_historical table (sku ∷ skus)) prices

  abbrev pub look_up : List PriceRow → Cache → Dict ℕ → List String → Dict ℕ × Cache
  look_up table cache prices [] = (prices, cache)
  look_up table cache prices (sku ∷ skus) =
      let items = select is_3yc_price table (sku ∷ skus) in
      let found = add_rows items prices in
      (look_up_history table found (still_missing found (sku ∷ skus)), store_rows items cache)

  -- The prices, and the cache after the call.
  unfoldable pub get_prices_for_3yc_skus : List PriceRow → Cache → List String → Dict ℕ × Cache
  unfolding find_cached_3yc_price
  get_prices_for_3yc_skus table cache skus =
      let prices = cached_prices cache skus [] in
      look_up table cache prices (still_missing prices skus)

-- `_get_prices_for_skus_from_airtable`
abbrev pub is_open_ended : String → PriceRow → Bool
is_open_ended currency row = row.currency == currency && not (is_some row.valid_until)

abbrev pub price_pair : PriceRow → String × ℕ
price_pair item = (item.sku, item.unit_pp)

-- The prices without a commitment.
unfoldable pub get_prices_for_skus : String → List PriceRow → List String → Dict ℕ
get_prices_for_skus currency table [] = []
get_prices_for_skus currency table (sku ∷ skus) =
    let prices = update [] (
      map price_pair
        (keep (λ row. is_open_ended currency row && contains (sku ∷ skus) row.sku) table)) in
    look_up_history currency 0 table prices (still_missing prices (sku ∷ skus))
