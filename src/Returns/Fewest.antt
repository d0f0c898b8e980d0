-- ===== src/Returns/Fewest.antt =====
-- The map of the returnable orders gives a quantity the fewest orders that make it up.
use mathlib.Core.List.{Memᴰ}
use mathlib.Core.Path.{subst}
use swo_adobe_vipm_extension.Base.{
  ℕ, zero, suc, ◌≤◌, ◌<◌, ◌≡◌, ◌≢◌, refl, ◌∙◌, ◌⊎◌, inl, inr, Option, none, some, List, [], ◌∷◌,
  length, leb, Bool-cases, arith,
}
use swo_adobe_vipm_extension.Returns.{Returnable}
use swo_adobe_vipm_extension.Returns.Quantities.{
  combinations, total, QuantityMap, lookup_quantity, put_each, put_sizes, returnable_by_quantity,
}
use swo_adobe_vipm_extension.Returns.Choice.{
  IsPart, IsPart-length, combinations-IsPart, IsPart-combinations, Last, put_each-Last,
}

module _ (orders : List Returnable) (delta : ℕ) where
  -- A part of one to `n` orders that makes up the quantity.
  pub record Makes (n : ℕ) (sub : List Returnable) : Type 0 where
    pub part : IsPart sub orders
    pub nonempty : 0 < length sub
    pub size : length sub ≤ n
    pub sum : total sub ≡ delta

  pub record IsFewest (n : ℕ) (sub : List Returnable) : Type 0 where
    pub makes : Makes n sub
    pub fewest : (other : List Returnable) → Makes n other → length sub ≤ length other

  -- After the sizes from `n` down: the fewest orders, or what stood there where none make it up.
  abbrev Chosen : ℕ → QuantityMap → Option (List Returnable) → Type 0
  Chosen n d found =
      ((sub : List Returnable) × (found ≡ some sub) × IsFewest n sub)
      ⊎ ((other : List Returnable) → ¬ Makes n other) × (found ≡ lookup_quantity delta d)

  smaller :
      (n : ℕ) (other : List Returnable) → Makes (suc n) other → length other ≤ n → Makes n other
  smaller n other m h = record { part = m.part; nonempty = m.nonempty; size = h; sum = m.sum }

  larger : (n : ℕ) (other : List Returnable) → Makes n other → Makes (suc n) other
  larger n other m =
      let h = m.size in
      record { part = m.part; nonempty = m.nonempty; size = omega arith; sum = m.sum }

  -- A part of just that size is a combination of it.
  listed :
      (n : ℕ) (other : List Returnable)
      → Makes (suc n) other
      → ¬ (length other ≤ n)
      → Memᴰ other (combinations orders (suc n))
  listed n other m h =
      let size = m.size in
      let e : length other ≡ suc n = omega arith in
      subst (λ k. Memᴰ other (combinations orders k)) e (IsPart-combinations other m.part)

  Chosen-step :
      (n : ℕ) (d e : QuantityMap) (found : Option (List Returnable))
      → Last delta (combinations orders (suc n)) d (lookup_quantity delta e)
      → Chosen n e found
      → Chosen (suc n) d found
  Chosen-step n d e found last (inl (sub, same, h)) =
      let size = h.makes.size in
      inl (
        sub,
        same,
        record {
          makes = larger n sub h.makes;
          fewest = λ other m. elim (Bool-cases (leb (length other) n)) [
            | inl le ↦ h.fewest other (smaller n other m (ground arith))
            | inr gt ↦ ground arith
          ];
        },
      )
  Chosen-step n d e found (inl (c, mem, sum, same_c)) (inr (no_smaller, same)) =
      let (part, size) = combinations-IsPart orders (suc n) c mem in
      inl (
        c,
        same ∙ same_c,
        record {
          makes = record { part = part; nonempty = omega arith; size = omega arith; sum = sum };
          fewest = λ other m. elim (Bool-cases (leb (length other) n)) [
            | inl le ↦ absurd (no_smaller other (smaller n other m (ground arith)))
            | inr gt ↦ ground arith
          ];
        },
      )
  Chosen-step n d e found (inr (no_c, same_d)) (inr (no_smaller, same)) = inr (
    λ other m. elim (Bool-cases (leb (length other) n)) [
      | inl le ↦ no_smaller other (smaller n other m (ground arith))
      | inr gt ↦ no_c other (listed n other m (ground arith)) m.sum
    ],
    same ∙ same_d,
  )

  none_of_size : (other : List Returnable) → ¬ Makes 0 other
  none_of_size other m = let a = m.nonempty in let b = m.size in omega arith

  put_sizes-Chosen :
      (n : ℕ) (d : QuantityMap) → Chosen n d (lookup_quantity delta (put_sizes orders n d))
  put_sizes-Chosen zero d = inr (none_of_size, refl)
  put_sizes-Chosen (suc n) d =
      let e = put_each (combinations orders (suc n)) d in
      Chosen-step n d e (lookup_quantity delta (put_sizes orders (suc n) d))
        (put_each-Last delta (combinations orders (suc n)) d) (put_sizes-Chosen n e)

  -- The answer for a quantity, in terms of all the parts of the list.
  pub data Answer : Option (List Returnable) → Type 0 where
    impossible :
        ((other : List Returnable) → IsPart other orders → other ≢ [] → total other ≢ delta)
        → Answer none
    fewest_orders :
        (sub : List Returnable)
        → IsPart sub orders
        → 0 < length sub
        → total sub ≡ delta
        → ((other : List Returnable)
            → IsPart other orders
            → other ≢ []
            → total other ≡ delta
            → length sub ≤ length other)
        → Answer (some sub)

  part_of_size :
      (other : List Returnable)
      → IsPart other orders
      → other ≢ []
      → total other ≡ delta
      → Makes (length orders) other
  part_of_size [] part h sum = absurd (h refl)
  part_of_size (x ∷ other) part h sum = record {
    part = part;
    nonempty = omega arith;
    size = IsPart-length part;
    sum = sum;
  }

  Chosen-Answer :
      (found : Option (List Returnable)) → Chosen (length orders) [] found → Answer found
  Chosen-Answer none (inl (sub, same, h)) = cc
  Chosen-Answer (some s) (inl (sub, same, h)) =
      let e : sub ≡ s = cc in
      subst (λ o. Answer (some o)) e
        (fewest_orders sub h.makes.part h.makes.nonempty h.makes.sum
          (λ other part nonempty sum. h.fewest other (part_of_size other part nonempty sum)))
  Chosen-Answer none (inr (no_other, same)) =
      impossible (λ other part nonempty sum. no_other other (part_of_size other part nonempty sum))
  Chosen-Answer (some s) (inr (no_other, same)) = cc

-- The map of the returnable orders has an entry for a quantity exactly if some of the orders, each at
-- most once and at least one of them, add up to it; the entry is then such a choice of orders, and no
-- choice with that sum has fewer orders.
pub lookup-returnable_by_quantity :
    (orders : List Returnable) (delta : ℕ)
    → Answer orders delta (lookup_quantity delta (returnable_by_quantity orders))
unfolding returnable_by_quantity
lookup-returnable_by_quantity orders delta =
    Chosen-Answer orders delta (lookup_quantity delta (put_sizes orders (length orders) []))
      (put_sizes-Chosen orders delta (length orders) [])
