-- ===== src/Examples/Prices.antt =====
-- The three-year price of a SKU that is cached, and of one that is not.
use mathlib.Core.List.{Memᴰ}
use mathlib.Core.List.Memᴰ
use swo_adobe_vipm_extension.Base.{
  ℕ, ◌≡◌, refl, String, none, some, List, [], ◌∷◌, Bool, true, contains, false, All, eq_iff, ◌==◌,
  if◌then◌else◌, ap, sym, ◌∙◌,
}
use swo_adobe_vipm_extension.Dict.{lookup}
use swo_adobe_vipm_extension.Prices.{
  PriceRow, CachedPrice, Cache, entries, is_3yc_price, get_prices_for_3yc_skus,
}
use swo_adobe_vipm_extension.Prices.Cached.{first_price, table_price}
use swo_adobe_vipm_extension.Prices.Fresh.{
  IsFrom, IsCacheOf, IsConsistent, get_prices_for_3yc_skus-IsCacheOf,
}

abbrev dated : PriceRow
dated = record { sku = "A"; currency = "EUR"; valid_from = 1; valid_until = some 100; unit_pp = 5 }

abbrev open_ended : PriceRow
open_ended = record {
  sku = "B";
  currency = "EUR";
  valid_from = 50;
  valid_until = none;
  unit_pp = 7;
}

abbrev prices : List PriceRow
prices = dated ∷ open_ended ∷ []

abbrev entry : CachedPrice
entry = record { currency = "EUR"; valid_from = 1; valid_until = 100; unit_pp = 5 }

abbrev cache : Cache
cache = ("A", entry ∷ []) ∷ []

covered_dated :
    (currency : String) (start : ℕ)
    → is_3yc_price currency start dated ≡ true
    → first_price (is_3yc_price currency start) "A" prices ≡ some 5
covered_dated currency start e = rw e refl

prices-IsConsistent : IsConsistent prices
prices-IsConsistent currency start row (Memᴰ.head f) ended e =
    let covered = covered_dated currency start (ap (is_3yc_price currency start) (sym f) ∙ e) in
    ap (λ (r : PriceRow). first_price (is_3yc_price currency start) r.sku prices) f
    ∙ covered
    ∙ ap (λ (r : PriceRow). some r.unit_pp) (sym f)
prices-IsConsistent currency start row (Memᴰ.tail (Memᴰ.head f)) ended e = cc
prices-IsConsistent currency start row (Memᴰ.tail (Memᴰ.tail m)) ended e = absurd (Memᴰ.not-nil m)

cache-IsCacheOf : IsCacheOf prices cache
cache-IsCacheOf s = by_sku ("A" == s) refl
  where
    by_sku :
        (b : Bool)
        → ("A" == s) ≡ b
        → All (IsFrom prices s) (entries (if b then some (entry ∷ []) else none))
    by_sku false e = tt
    by_sku true e = (
      record {
        row = dated;
        listed = Memᴰ.head refl;
        sku = (eq_iff "A" s).0 e;
        currency = refl;
        from = refl;
        until = refl;
        price = refl;
      },
      tt,
    )

get_prices_for_3yc_skus-IsCacheOf_example :
    ((s : String)
      → contains ("A" ∷ "B" ∷ []) s ≡ true
      → lookup s (get_prices_for_3yc_skus "EUR" 20 prices cache ("A" ∷ "B" ∷ [])).0
        ≡ table_price "EUR" 20 prices s)
    × IsCacheOf prices (get_prices_for_3yc_skus "EUR" 20 prices cache ("A" ∷ "B" ∷ [])).1
get_prices_for_3yc_skus-IsCacheOf_example =
    get_prices_for_3yc_skus-IsCacheOf prices cache "EUR" 20 ("A" ∷ "B" ∷ []) prices-IsConsistent
      cache-IsCacheOf
