-- ===== src/Purchase/Duplicates.antt =====
-- The orders that `ValidateDuplicateLines` lets pass.
use mathlib.Core.Path.{subst}
use swo_adobe_vipm_extension.Base.{
  ◌≤◌, contains-keep, ◌≡◌, refl, String, List, [], ◌∷◌, Bool, true, false, ◌&&◌, not, ◌==◌, ltb,
  keep, contains, eq_iff, eq_refl, arith, Bool-cases, inl, inr, sym, ap, ◌∙◌, ◌↔◌,
}
use swo_adobe_vipm_extension.Order.{Line, duplicated_items, existing_items}
use swo_adobe_vipm_extension.Context.{Context, Exception}
use swo_adobe_vipm_extension.Pipeline.Linear.{Ends, stops, proceeds}
use swo_adobe_vipm_extension.Purchase.Steps.{
  count, without, distinct, duplicates, refused, ordered_items, existing_and_new, by_existing,
  by_repeated, with_lines, validate_duplicate_lines,
}

-- No item is listed twice.
abbrev pub NoDuplicates : List String → Type 0
NoDuplicates [] = Unit
NoDuplicates (x ∷ xs) = (contains xs x ≡ false) × NoDuplicates xs

contains-without :
    (x s : String) (xs : List String) → contains (without x xs) s ≡ (contains xs s && not (x == s))
contains-without x s [] = ground arith
contains-without x s (y ∷ xs) =
    ground (arith, eq_iff y x, eq_iff y s, eq_iff x s, contains-without x s xs)

contains-distinct : (s : String) (xs : List String) → contains (distinct xs) s ≡ contains xs s
contains-distinct s [] = refl
contains-distinct s (x ∷ xs) =
    ground (arith, contains-without x s (distinct xs), contains-distinct s xs)

count-absent : (s : String) (xs : List String) → contains xs s ≡ false → count s xs ≡ 0
count-absent s [] h = refl
count-absent s (x ∷ xs) h = ground (arith, count-absent s xs)

absent-count : (s : String) (xs : List String) → count s xs ≡ 0 → contains xs s ≡ false
absent-count s [] h = refl
absent-count s (x ∷ xs) h = ground (arith, absent-count s xs)

keep_nothing :
    (p : String → Bool) (xs : List String) (s : String)
    → keep p xs ≡ []
    → contains xs s ≡ true
    → p s ≡ false
keep_nothing p [] s h k = cc
keep_nothing p (x ∷ xs) s h k = elim (Bool-cases (p x)) [
  | inl e ↦ ground (arith, h, e)
  | inr e ↦ elim (Bool-cases (x == s)) [
    | inl f ↦ ap p (sym ((eq_iff x s).0 f)) ∙ e
    | inr f ↦ keep_nothing p xs s (ground (arith, h, e)) (ground (arith, k, f))
  ]
]

nothing_kept :
    (p : String → Bool) (xs : List String) → ((s : String) → p s ≡ false) → keep p xs ≡ []
nothing_kept p [] h = refl
nothing_kept p (x ∷ xs) h = ground (arith, h x, nothing_kept p xs h)

NoDuplicates-count : (xs : List String) → ((s : String) → count s xs ≤ 1) → NoDuplicates xs
NoDuplicates-count [] h = tt
NoDuplicates-count (x ∷ xs) h = (
  absent-count x xs (ground (arith, h x, eq_refl x)),
  NoDuplicates-count xs (λ s. ground (arith, h s)),
)

count-NoDuplicates : (s : String) (xs : List String) → NoDuplicates xs → count s xs ≤ 1
count-NoDuplicates s [] h = omega arith
count-NoDuplicates s (x ∷ xs) h = elim (Bool-cases (x == s)) [
  | inl e ↦ ground (arith, e, count-absent s xs (ap (contains xs) (sym ((eq_iff x s).0 e)) ∙ h.0))
  | inr e ↦ ground (arith, e, count-NoDuplicates s xs h.1)
]

counts_of_nothing : (xs : List String) → duplicates xs ≡ [] → (s : String) → count s xs ≤ 1
unfolding duplicates
counts_of_nothing xs h s = elim (Bool-cases (contains xs s)) [
  | inl e ↦
      let few =
        keep_nothing (λ item. ltb 1 (count item xs)) (distinct xs) s h
          (contains-distinct s xs ∙ e) in
      ground arith
  | inr e ↦ ground (arith, count-absent s xs e)
]

duplicates-NoDuplicates : (xs : List String) → (duplicates xs ≡ []) ↔ NoDuplicates xs
unfolding duplicates
duplicates-NoDuplicates xs = (
  λ h. NoDuplicates-count xs (counts_of_nothing xs h),
  λ h.
      nothing_kept (λ item. ltb 1 (count item xs)) (distinct xs)
        (λ s. ground (arith, count-NoDuplicates s xs h)),
)

-- The items are those that the list has more than once.
abbrev pub AreRepeated : List String → List String → Type 0
AreRepeated items xs = (s : String) → (contains items s ≡ true) ↔ (2 ≤ count s xs)

duplicates-AreRepeated : (xs : List String) → AreRepeated (duplicates xs) xs
unfolding duplicates
duplicates-AreRepeated xs s =
    let kept = contains-keep (λ item. ltb 1 (count item xs)) s (distinct xs) in
    let known = contains-distinct s xs in
    let absent = count-absent s xs in
    (λ h. ground (arith, kept), λ h. ground (arith, kept, known, absent))

-- How an order may leave the step.
pub data IsChecked (context : Context) : Ends Context Exception → Type 0 where
  no_lines : context.order.lines ≡ [] → IsChecked context (proceeds context)
  no_duplicates :
      ¬ (context.order.lines ≡ [])
      → NoDuplicates (ordered_items context)
      → NoDuplicates (existing_and_new context)
      → IsChecked context (proceeds context)
  ordered_twice :
      (items : List String)
      → ¬ (context.order.lines ≡ [])
      → ¬ NoDuplicates (ordered_items context)
      → AreRepeated items (ordered_items context)
      → IsChecked context (stops (refused context (duplicated_items items)))
  already_subscribed :
      (items : List String)
      → ¬ (context.order.lines ≡ [])
      → NoDuplicates (ordered_items context)
      → ¬ NoDuplicates (existing_and_new context)
      → AreRepeated items (existing_and_new context)
      → IsChecked context (stops (refused context (existing_items items)))

module _ (context : Context) where
  module _ (some_lines : ¬ (context.order.lines ≡ [])) where
    existing-IsChecked :
        (found : List String)
        → NoDuplicates (ordered_items context)
        → duplicates (existing_and_new context) ≡ found
        → IsChecked context (by_existing context found)
    existing-IsChecked [] h e =
        no_duplicates some_lines h ((duplicates-NoDuplicates (existing_and_new context)).0 e)
    existing-IsChecked (d ∷ ds) h e =
        already_subscribed (d ∷ ds) some_lines h
          (λ k. cc (e, (duplicates-NoDuplicates (existing_and_new context)).1 k))
          (subst (λ items. AreRepeated items (existing_and_new context)) e
            (duplicates-AreRepeated (existing_and_new context)))

    repeated-IsChecked :
        (found : List String)
        → duplicates (ordered_items context) ≡ found
        → IsChecked context (by_repeated context found)
    repeated-IsChecked [] e =
        existing-IsChecked (duplicates (existing_and_new context))
          ((duplicates-NoDuplicates (ordered_items context)).0 e) refl
    repeated-IsChecked (d ∷ ds) e =
        ordered_twice (d ∷ ds) some_lines
          (λ k. cc (e, (duplicates-NoDuplicates (ordered_items context)).1 k))
          (subst (λ items. AreRepeated items (ordered_items context)) e
            (duplicates-AreRepeated (ordered_items context)))

  lines-IsChecked :
      (lines : List Line)
      → context.order.lines ≡ lines
      → IsChecked context (with_lines context lines)
  lines-IsChecked [] e = no_lines e
  lines-IsChecked (line ∷ lines) e =
      repeated-IsChecked (λ k. cc (e, k)) (duplicates (ordered_items context)) refl

-- An order passes, unchanged, exactly if it has no lines, or no item stands on two of its lines and
-- none of its new lines is for an item of a subscription of the agreement (nor have two subscriptions
-- the same item). Else the step stops with the order's error set and the validation failed: the error has
-- the items on more than one line if there are any, else those that the items of the subscriptions and of
-- the new lines together have more than once.
pub validate_duplicate_lines-IsChecked :
    (context : Context) → IsChecked context (validate_duplicate_lines context)
unfolding validate_duplicate_lines
validate_duplicate_lines-IsChecked context = lines-IsChecked context context.order.lines refl
