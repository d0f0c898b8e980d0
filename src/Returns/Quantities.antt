-- ===== src/Returns/Quantities.antt =====
-- The map from a quantity to the returnable orders that make it up (`_get_returnable_by_quantity_map`
-- of flows/validation/change.py, and the same loops in `GetReturnableOrders` of
-- flows/fulfillment/change.py).
use swo_adobe_vipm_extension.Base.{
  ℕ, zero, suc, ◌+◌, Option, none, some, List, [], ◌∷◌, ◌++◌, map, eqb, length, if◌then◌else◌,
}
use swo_adobe_vipm_extension.Returns.{Returnable}

-- `itertools.combinations(xs, n)`, in its order
abbrev pub combinations {ℓ} : {A : Type ℓ} → List A → ℕ → List (List A)
combinations xs zero = [] ∷ []
combinations [] (suc n) = []
combinations (x ∷ xs) (suc n) = map (λ c. x ∷ c) (combinations xs n) ++ combinations xs (suc n)

-- `sum(line_item.quantity for line_item in sub)`
abbrev pub total : List Returnable → ℕ
total [] = 0
total (r ∷ rs) = r.quantity + total rs

-- A dict with numbers as keys.
abbrev pub QuantityMap : Type 0
QuantityMap = List (ℕ × List Returnable)

abbrev pub lookup_quantity : ℕ → QuantityMap → Option (List Returnable)
lookup_quantity k [] = none
lookup_quantity k ((j, v) ∷ d) = if eqb j k then some v else lookup_quantity k d

abbrev pub put : ℕ → List Returnable → QuantityMap → QuantityMap
put k v [] = (k, v) ∷ []
put k v ((j, w) ∷ d) = if eqb j k then (k, v) ∷ d else (j, w) ∷ put k v d

-- The inner loop: one entry for each combination, the last for its sum.
abbrev pub put_each : List (List Returnable) → QuantityMap → QuantityMap
put_each [] d = d
put_each (sub ∷ subs) d = put_each subs (put (total sub) sub d)

-- The outer loop, for the sizes from `n` down to 1.
abbrev pub put_sizes : List Returnable → ℕ → QuantityMap → QuantityMap
put_sizes returnable_orders zero d = d
put_sizes returnable_orders (suc n) d =
    put_sizes returnable_orders n (put_each (combinations returnable_orders (suc n)) d)

unfoldable pub returnable_by_quantity : List Returnable → QuantityMap
returnable_by_quantity returnable_orders = put_sizes returnable_orders (length returnable_orders) []
