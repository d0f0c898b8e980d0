-- ===== src/Returns/Choice.antt =====
-- The orders that are chosen for a quantity, against the parts of the list of returnable orders.
use mathlib.Core.List.{Memᴰ}
use mathlib.Core.List.Memᴰ
use mathlib.Core.Path.{subst}
use swo_adobe_vipm_extension.Base.{
  ℕ, zero, suc, ◌≤◌, ◌≡◌, ◌≢◌, refl, sym, ap, ◌∙◌, ◌⊎◌, inl, inr, Option, some, List, [], ◌∷◌, map,
  eqb, length, if◌then◌else◌, Bool, true, false, arith,
}
use swo_adobe_vipm_extension.Returns.{Returnable}
use swo_adobe_vipm_extension.Returns.Quantities.{
  combinations, total, QuantityMap, lookup_quantity, put, put_each,
}

-- Some of the orders, each once, in their order.
pub data IsPart : List Returnable → List Returnable → Type 0 where
  done : IsPart [] []
  skip : {x : Returnable} {c xs : List Returnable} → IsPart c xs → IsPart c (x ∷ xs)
  take : {x : Returnable} {c xs : List Returnable} → IsPart c xs → IsPart (x ∷ c) (x ∷ xs)

nothing_IsPart : (xs : List Returnable) → IsPart [] xs
nothing_IsPart [] = done
nothing_IsPart (x ∷ xs) = skip (nothing_IsPart xs)

pub IsPart-length : {c xs : List Returnable} → IsPart c xs → length c ≤ length xs
IsPart-length done = omega arith
IsPart-length (skip h) = ground (arith, IsPart-length h)
IsPart-length (take h) = ground (arith, IsPart-length h)

combinations-cons :
    (x : Returnable) (xs : List Returnable) (n : ℕ) (c : List Returnable)
    → Memᴰ c (map (λ c. x ∷ c) (combinations xs n)) ⊎ Memᴰ c (combinations xs (suc n))
    → ((m : ℕ) (c : List Returnable) → Memᴰ c (combinations xs m) → IsPart c xs × (length c ≡ m))
    → IsPart c (x ∷ xs) × (length c ≡ suc n)
combinations-cons x xs n c (inl m) ih =
    let (b, mb, e) = Memᴰ.of_map (λ c. x ∷ c) (combinations xs n) m in
    let (part, len) = ih n b mb in
    (subst (λ d. IsPart d (x ∷ xs)) e (take part), rw (← e) (ap suc len))
combinations-cons x xs n c (inr m) ih = let (part, len) = ih (suc n) c m in (skip part, len)

pub combinations-IsPart :
    (xs : List Returnable) (n : ℕ) (c : List Returnable)
    → Memᴰ c (combinations xs n)
    → IsPart c xs × (length c ≡ n)
combinations-IsPart xs zero c m =
    let e = Memᴰ.eq_of_singleton m in
    (subst (λ d. IsPart d xs) (sym e) (nothing_IsPart xs), ap length e)
combinations-IsPart [] (suc n) c m = absurd (Memᴰ.not-nil m)
combinations-IsPart (x ∷ xs) (suc n) c m =
    combinations-cons x xs n c (Memᴰ.append_cases (map (λ c. x ∷ c) (combinations xs n)) m)
      (combinations-IsPart xs)

pub IsPart-combinations :
    (c : List Returnable) {xs : List Returnable} → IsPart c xs → Memᴰ c (combinations xs (length c))
IsPart-combinations [] h = Memᴰ.head refl
IsPart-combinations (y ∷ c) (skip {xs = xs} h) =
    Memᴰ.append_right (map (λ d. _ ∷ d) (combinations xs (length c)))
      (IsPart-combinations (y ∷ c) h)
IsPart-combinations (y ∷ c) (take {xs = xs} h) =
    Memᴰ.append_left (combinations xs (suc (length c)))
      (Memᴰ.map (λ d. y ∷ d) (IsPart-combinations c h))

lookup-put :
    (k j : ℕ) (v : List Returnable) (d : QuantityMap)
    → lookup_quantity k (put j v d) ≡ (if eqb j k then some v else lookup_quantity k d)
lookup-put k j v [] = refl
lookup-put k j v ((i, w) ∷ d) = ground (arith, lookup-put k j v d)

module _ (delta : ℕ) where
  -- The last combination of the sum, or none and the entry from before.
  abbrev pub Last : List (List Returnable) → QuantityMap → Option (List Returnable) → Type 0
  Last cs d found =
      ((c : List Returnable) × Memᴰ c cs × (total c ≡ delta) × (found ≡ some c))
      ⊎ ((c : List Returnable) → Memᴰ c cs → total c ≢ delta) × (found ≡ lookup_quantity delta d)

  Last-cons :
      (sub : List Returnable) (cs : List (List Returnable)) (d : QuantityMap)
      (found : Option (List Returnable)) (b : Bool)
      → eqb (total sub) delta ≡ b
      → Last cs (put (total sub) sub d) found
      → Last (sub ∷ cs) d found
  Last-cons sub cs d found b e (inl (c, m, sum, same)) = inl (c, Memᴰ.tail m, sum, same)
  Last-cons sub cs d found true e (inr (no_other, same)) =
      inl (sub, Memᴰ.head refl, ground arith, same ∙ lookup-put delta (total sub) sub d ∙ rw e refl)
  Last-cons sub cs d found false e (inr (no_other, same)) = inr (
    λ c m. elim (Memᴰ.cases_cons m) [
      | inl here ↦ rw here (ground arith)
      | inr there ↦ no_other c there
    ],
    same ∙ lookup-put delta (total sub) sub d ∙ rw e refl,
  )

  pub put_each-Last :
      (cs : List (List Returnable)) (d : QuantityMap)
      → Last cs d (lookup_quantity delta (put_each cs d))
  put_each-Last [] d = inr (λ c m. absurd (Memᴰ.not-nil m), refl)
  put_each-Last (sub ∷ cs) d =
      Last-cons sub cs d (lookup_quantity delta (put_each cs (put (total sub) sub d)))
        (eqb (total sub) delta) refl (put_each-Last cs (put (total sub) sub d))
