-- ===== src/Base/Lists.antt =====
-- Lists: the Python idioms the program uses (`find_first`, comprehensions with a filter, `in`) and
-- predicates by recursion, which the tactics read.
use Prim.Native.Nat.{ℕ, suc}
use mathlib.Core.Path.{◌≡◌, refl, sym, ap, ◌∙◌}
use mathlib.Core.Logic.{inl, inr, ◌↔◌}
use mathlib.Core.Bool.{Bool, true, false, ◌||◌, ◌&&◌}
use mathlib.Core.List.{List, [], ◌∷◌, Memᴰ}
use mathlib.Core.List.Memᴰ
use mathlib.Core.Option.{Option, none, some}
use native.Mathlib.Omega.{arith}
use Prim.Native.String.{String}
use text.Mathlib.Text.{◌==◌}
use text.Mathlib.TextEquality.{eq_iff}
use swo_adobe_vipm_extension.Base.Tests.{Bool-cases, if◌then◌else◌}

module _ {ℓ} {A : Type ℓ} where
  abbrev pub length : List A → ℕ
  length [] = 0
  length (x ∷ xs) = suc (length xs)

  -- `find_first(p, xs)` of the platform's SDK: the first item that passes, or None.
  abbrev pub find_first : (A → Bool) → List A → Option A
  find_first p [] = none
  find_first p (x ∷ xs) = if p x then some x else find_first p xs

  -- `[x for x in xs if p(x)]`
  abbrev pub keep : (A → Bool) → List A → List A
  keep p [] = []
  keep p (x ∷ xs) = let rest = keep p xs in if p x then x ∷ rest else rest

  abbrev pub any : (A → Bool) → List A → Bool
  any p [] = false
  any p (x ∷ xs) = p x || any p xs

  abbrev pub all : (A → Bool) → List A → Bool
  all p [] = true
  all p (x ∷ xs) = p x && all p xs

  -- A change of the first item that passes; nothing where none does.
  abbrev pub update_first : (A → Bool) → (A → A) → List A → List A
  update_first p f [] = []
  update_first p f (x ∷ xs) = if p x then f x ∷ xs else x ∷ update_first p f xs

module _ {ℓ κ} {A : Type ℓ} where
  abbrev pub All : (A → Type κ) → List A → Type κ
  All P [] = Unit
  All P (x ∷ xs) = P x × All P xs

-- `s in xs`
abbrev pub contains : List String → String → Bool
contains [] s = false
contains (x ∷ xs) s = x == s || contains xs s

module _ {ℓ} {A : Type ℓ} where
  pub any-false_iff : (p : A → Bool) (xs : List A) → (any p xs ≡ false) ↔ All (λ x. p x ≡ false) xs
  any-false_iff p [] = (λ _. tt, λ _. refl)
  any-false_iff p (x ∷ xs) =
      let ih = any-false_iff p xs in
      (λ h. (ground arith, ih.0 (ground arith)), λ h. ground (arith, ih.1 h.1))

  pub All-imp {κ μ} :
      {P : A → Type κ} {Q : A → Type μ}
      → ((x : A) → P x → Q x)
      → (xs : List A) → All P xs
      → All Q xs
  All-imp f [] h = tt
  All-imp f (x ∷ xs) h = (f x h.0, All-imp f xs h.1)

  pub All-zip {κ μ} :
      (P : A → Type κ) (Q : A → Type μ) (xs : List A)
      → All P xs
      → All Q xs
      → All (λ x. P x × Q x) xs
  All-zip P Q [] h k = tt
  All-zip P Q (x ∷ xs) h k = ((h.0, k.0), All-zip P Q xs h.1 k.1)

  -- What is kept has passed the test.
  pub keep-All {κ} :
      (P : A → Type κ) (p : A → Bool) (xs : List A)
      → All P xs
      → All (λ x. P x × (p x ≡ true)) (keep p xs)
  keep-All P p [] h = tt
  keep-All P p (x ∷ xs) h = elim (Bool-cases (p x)) [
    | inl e ↦ rw e ((h.0, e), keep-All P p xs h.1)
    | inr e ↦ rw e (keep-All P p xs h.1)
  ]

pub contains-keep :
    (p : String → Bool) (s : String) (xs : List String)
    → contains (keep p xs) s ≡ (contains xs s && p s)
contains-keep p s [] = refl
contains-keep p s (x ∷ xs) = elim (Bool-cases (x == s)) [
  | inl e ↦ let same = ap p ((eq_iff x s).0 e) in ground (arith, e, same, contains-keep p s xs)
  | inr e ↦ ground (arith, e, contains-keep p s xs)
]

pub any-true_iff {ℓ} :
    {A : Type ℓ} (p : A → Bool) (xs : List A)
    → (any p xs ≡ true) ↔ ((x : A) × Memᴰ x xs × (p x ≡ true))
any-true_iff p [] = (λ h. cc, λ m. absurd (Memᴰ.not-nil m.1))
any-true_iff {A = A} p (x ∷ xs) = (
  λ h. elim (Bool-cases (p x)) [
    | inl e ↦ (x, Memᴰ.head refl, e)
    | inr e ↦
        let rest = (any-true_iff p xs).0 (ground (arith, h, e)) in
        (rest.0, Memᴰ.tail rest.1, rest.2)
  ],
  λ m. by_place m.0 m.1 m.2 (any-true_iff p xs).1,
)
  where
    by_place :
        (y : A)
        → Memᴰ y (x ∷ xs)
        → p y ≡ true
        → (((y : A) × Memᴰ y xs × (p y ≡ true)) → any p xs ≡ true)
        → (p x || any p xs) ≡ true
    by_place y (Memᴰ.head e) h ih = ground (arith, ap p (sym e) ∙ h)
    by_place y (Memᴰ.tail m) h ih = ground (arith, ih (y, m, h))
