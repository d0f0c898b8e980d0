-- ===== src/Order/Updated.antt =====
-- `has_order_line_updated` against an independent reading of the two quantity tables.
use swo_adobe_vipm_extension.Base.{
  ℕ, String, ◌≡◌, refl, ◌↔◌, Option, none, some, List, [], ◌∷◌, Bool, true, false, ◌==◌, not, arith,
  if◌then◌else◌, map, ◌∙◌,
}
use swo_adobe_vipm_extension.Dict.{Dict, lookup, insert, update, lookup-insert, update-IsDict}
use swo_adobe_vipm_extension.Dict.Equality.{dict_eq, dict_eq_iff}
use swo_adobe_vipm_extension.Order.{Line}
use swo_adobe_vipm_extension.Order.Lines.{AdobeItem, line_pair, item_pair, has_order_line_updated}

abbrev pub or_else : Option ℕ → Option ℕ → Option ℕ
or_else none o = o
or_else (some v) o = some v

-- The quantity of the last entry for a SKU.
abbrev pub last_quantity : String → List (String × ℕ) → Option ℕ
last_quantity k [] = none
last_quantity k ((j, v) ∷ pairs) = or_else (last_quantity k pairs) (if j == k then some v else none)

pub lookup-update :
    (k : String) (d : Dict ℕ) (pairs : List (String × ℕ))
    → lookup k (update d pairs) ≡ or_else (last_quantity k pairs) (lookup k d)
lookup-update k d [] = refl
lookup-update k d ((j, v) ∷ pairs) =
    lookup-update k (insert j v d) pairs ∙ ground (arith, lookup-insert j k v d)

not-false : (b : Bool) → (not b ≡ false) ↔ (b ≡ true)
not-false true = (λ _. refl, λ _. refl)
not-false false = (λ h. cc, λ h. cc)

-- The lines of an order count as unchanged exactly if, for every SKU, the quantity of the last order line
-- with that SKU and the quantity of the last Adobe item with that partial SKU are the same, or both
-- are missing: earlier lines or items of the same SKU are not compared.
pub has_order_line_updated_iff :
    (order_lines : List Line) (adobe_items : List AdobeItem)
    → (has_order_line_updated order_lines adobe_items ≡ false) ↔ (
        (k : String)
        → last_quantity k (map line_pair order_lines) ≡ last_quantity k (map item_pair adobe_items))
unfolding has_order_line_updated
has_order_line_updated_iff order_lines adobe_items =
    let ls = map line_pair order_lines in
    let is = map item_pair adobe_items in
    let e =
      dict_eq_iff (update [] ls) (update [] is) (update-IsDict [] ls tt) (update-IsDict [] is tt) in
    let n = not-false (dict_eq (update [] ls) (update [] is)) in
    (
      λ h k. ground (arith, e.0 (n.0 h) k, lookup-update k [] ls, lookup-update k [] is),
      λ h. n.1 (e.1 (λ k. ground (arith, h k, lookup-update k [] ls, lookup-update k [] is))),
    )
