-- ===== src/ThreeYc/Listed.antt =====
-- What `validate_items_in_subscriptions` accepts.
use mathlib.Core.List.{Memᴰ}
use mathlib.Core.List.Memᴰ
use swo_adobe_vipm_extension.Base.{
  ◌≡◌, ◌↔◌, refl, sym, ap, ◌∙◌, inl, inr, String, Option, none, some, List, [], ◌∷◌, Bool, true,
  false, if◌then◌else◌, is_some, All, Bool-cases, starts_with,
}
use swo_adobe_vipm_extension.Order.{CommitmentError, Line}
use swo_adobe_vipm_extension.Customer.{AdobeSubscription, get_item_by_partial_sku}
use swo_adobe_vipm_extension.ThreeYc.Minimum.{first_missing, validate_items_in_subscriptions}

-- A subscription whose offer starts with the SKU.
abbrev pub HasItem : List AdobeSubscription → String → Type 0
HasItem items sku =
    (item : AdobeSubscription) × Memᴰ item items × (starts_with sku item.offer_id ≡ true)

-- There is no subscription at all, or one for the SKU of each line.
pub data HaveSubscriptions (lines : List Line) : List AdobeSubscription → Type 0 where
  no_subscriptions : HaveSubscriptions lines []
  one_each :
      {items : List AdobeSubscription}
      → All (λ (line : Line). HasItem items line.item.vendor) lines
      → HaveSubscriptions lines items

HasItem-found :
    (items : List AdobeSubscription) (sku : String)
    → is_some (get_item_by_partial_sku items sku) ≡ true
    → HasItem items sku
unfolding get_item_by_partial_sku
HasItem-found [] sku h = cc
HasItem-found (item ∷ items) sku h = elim (Bool-cases (starts_with sku item.offer_id)) [
  | inl e ↦ (item, Memᴰ.head refl, e)
  | inr e ↦
      let rest = HasItem-found items sku (sym (rw e refl) ∙ h) in (rest.0, Memᴰ.tail rest.1, rest.2)
]

found-HasItem :
    (items : List AdobeSubscription) (sku : String) (item : AdobeSubscription)
    → Memᴰ item items
    → starts_with sku item.offer_id ≡ true
    → is_some (get_item_by_partial_sku items sku) ≡ true
unfolding get_item_by_partial_sku
found-HasItem [] sku item m h = absurd (Memᴰ.not-nil m)
found-HasItem (x ∷ items) sku item (Memᴰ.head e) h =
    let first : starts_with sku x.offer_id ≡ true =
      ap (λ (s : AdobeSubscription). starts_with sku s.offer_id) (sym e) ∙ h in
    rw first refl
found-HasItem (x ∷ items) sku item (Memᴰ.tail m) h =
    let rest = found-HasItem items sku item m h in
    elim (Bool-cases (starts_with sku x.offer_id)) [ inl e ↦ rw e refl | inr e ↦ rw e rest ]

neither_missing :
    (b : Bool) (rest : Option CommitmentError) (error : CommitmentError)
    → (if b then rest else some error) ≡ none
    → (b ≡ true) × (rest ≡ none)
neither_missing true rest error h = (refl, h)
neither_missing false rest error h = cc

first_missing-All :
    (items : List AdobeSubscription) (lines : List Line)
    → (first_missing items lines ≡ none)
      ↔ All (λ (line : Line). HasItem items line.item.vendor) lines
first_missing-All items [] = (λ h. tt, λ h. refl)
first_missing-All items (line ∷ lines) =
    let ih = first_missing-All items lines in
    (
      λ h.
          let both =
            neither_missing (is_some (get_item_by_partial_sku items line.item.vendor)) _ _ h in
          (HasItem-found items line.item.vendor both.0, ih.0 both.1),
      λ h.
          let found = found-HasItem items line.item.vendor h.0.0 h.0.1 h.0.2 in rw found (ih.1 h.1),
    )

pub validate_items_iff :
    (lines : List Line) (items : List AdobeSubscription)
    → (validate_items_in_subscriptions lines items ≡ none) ↔ HaveSubscriptions lines items
unfolding validate_items_in_subscriptions
validate_items_iff lines [] = (λ h. no_subscriptions, λ h. refl)
validate_items_iff lines (item ∷ items) =
    let all = first_missing-All (item ∷ items) lines in
    (λ h. one_each (all.0 h), λ h. all.1 (each h))
  where
    each :
        HaveSubscriptions lines (item ∷ items)
        → All (λ (line : Line). HasItem (item ∷ items) line.item.vendor) lines
    each (one_each h) = h
