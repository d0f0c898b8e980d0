-- ===== src/Returns/Members.antt =====
-- Membership in the candidates and in what is kept of a list.
use mathlib.Core.List.{Memᴰ}
use mathlib.Core.List.Memᴰ
use mathlib.Core.Path.{subst}
use swo_adobe_vipm_extension.Base.{
  ◌≡◌, ◌↔◌, sym, ap, ◌∙◌, inl, inr, String, Option, none, some, List, [], ◌∷◌, Bool, true, keep,
  Bool-cases,
}
use swo_adobe_vipm_extension.Returns.{AdobeOrder, OrderItem}
use swo_adobe_vipm_extension.Returns.Open.{Tested, candidates, Adds, adds, skips, Adds_lem}

pub Mem-keep {ℓ} :
    {A : Type ℓ} (p : A → Bool) (xs : List A) (x : A)
    → Memᴰ x (keep p xs) ↔ (Memᴰ x xs × (p x ≡ true))
Mem-keep p [] x = (λ m. absurd (Memᴰ.not-nil m), λ h. h.0)
Mem-keep p (y ∷ xs) x =
    let below = Mem-keep p xs x in
    elim (Bool-cases (p y)) [
      | inl e ↦ rw e (
        λ m. elim (Memᴰ.cases_cons m) [
          | inl f ↦ (Memᴰ.head f, ap p f ∙ e)
          | inr k ↦ let h = below.0 k in (Memᴰ.tail h.0, h.1)
        ],
        λ h. elim (Memᴰ.cases_cons h.0) [
          | inl f ↦ Memᴰ.head f
          | inr k ↦ Memᴰ.tail (below.1 (k, h.1))
        ],
      )
      | inr e ↦ rw e (
        λ m. let h = below.0 m in (Memᴰ.tail h.0, h.1),
        λ h. elim (Memᴰ.cases_cons h.0) [ inl f ↦ cc (e, ap p f, h.1) | inr k ↦ below.1 (k, h.1) ],
      )
    ]

module _ (s : String) (returning : List String) where
  pub candidates-Tested :
      (orders : List AdobeOrder) (x : AdobeOrder × OrderItem)
      → Memᴰ x (candidates s returning orders)
      → Memᴰ x.0 orders × Tested s returning x.0 x.1
  candidates-Tested [] x m = absurd (Memᴰ.not-nil m)
  candidates-Tested (order ∷ orders) x m =
      by_view (Adds_lem s returning order orders) (candidates-Tested orders x)
    where
      by_view :
          Adds s returning order orders
          → (Memᴰ x (candidates s returning orders) → Memᴰ x.0 orders × Tested s returning x.0 x.1)
          → Memᴰ x.0 (order ∷ orders) × Tested s returning x.0 x.1
      by_view (adds item h e) below = elim (Memᴰ.cases_cons (subst (Memᴰ x) e m)) [
        | inl f ↦ (
          Memᴰ.head (ap (λ (y : AdobeOrder × OrderItem). y.0) f),
          subst (λ (y : AdobeOrder × OrderItem). Tested s returning y.0 y.1) (sym f) h,
        )
        | inr k ↦ let r = below k in (Memᴰ.tail r.0, r.1)
      ]
      by_view (skips n e) below = let r = below (subst (Memᴰ x) e m) in (Memᴰ.tail r.0, r.1)

  Tested-same :
      (order : AdobeOrder) (a b : OrderItem)
      → Tested s returning order a
      → Tested s returning order b
      → a ≡ b
  Tested-same order a b h k = ap found (sym h.0 ∙ k.0)
    where
      found : Option OrderItem → OrderItem
      found none = a
      found (some item) = item

  pub Tested-candidates :
      (orders : List AdobeOrder) (order : AdobeOrder) (item : OrderItem)
      → Memᴰ order orders
      → Tested s returning order item
      → Memᴰ (order, item) (candidates s returning orders)
  Tested-candidates [] order item m t = absurd (Memᴰ.not-nil m)
  Tested-candidates (x ∷ orders) order item m t =
      by_view (Adds_lem s returning x orders) (λ k. Tested-candidates orders order item k t)
    where
      moved : order ≡ x → Tested s returning x item
      moved f = subst (λ o. Tested s returning o item) f t

      by_view :
          Adds s returning x orders
          → (Memᴰ order orders → Memᴰ (order, item) (candidates s returning orders))
          → Memᴰ (order, item) (candidates s returning (x ∷ orders))
      by_view (adds other h e) below =
          subst (Memᴰ (order, item)) (sym e) (elim (Memᴰ.cases_cons m) [
            | inl f ↦
                Memᴰ.head
                  (ap (λ o. (o, item)) f ∙ ap (λ i. (x, i)) (Tested-same x item other (moved f) h))
            | inr k ↦ Memᴰ.tail (below k)
          ])
      by_view (skips n e) below =
          subst (Memᴰ (order, item)) (sym e)
            (elim (Memᴰ.cases_cons m) [ inl f ↦ absurd (n item (moved f)) | inr k ↦ below k ])
