-- ===== src/Returns/Open.antt =====
-- The candidates of `get_returnable_orders_by_subscription_id`, against what they are meant to be.
use swo_adobe_vipm_extension.Base.{
  ◌≡◌, ◌⊎◌, refl, sym, ap, ◌∙◌, inl, inr, String, Option, none, some, List, [], ◌∷◌, Bool, true,
  false, ◌==◌, contains, keep, Bool-cases, eq_iff, arith,
}
use swo_adobe_vipm_extension.Returns.{AdobeOrder, OrderItem}
use swo_adobe_vipm_extension.Returns.Orders.{get_item_by_subscription_id, order_items, is_candidate}

-- The first item of the subscription.
pub data FirstItem (s : String) (item : OrderItem) : List OrderItem → Type 0 where
  here :
      {x : OrderItem} {items : List OrderItem}
      → x ≡ item
      → x.subscription_id ≡ s
      → FirstItem s item (x ∷ items)
  later :
      {x : OrderItem} {items : List OrderItem}
      → ¬ (x.subscription_id ≡ s)
      → FirstItem s item items
      → FirstItem s item (x ∷ items)

FirstItem-found :
    (s : String) (items : List OrderItem) (item : OrderItem)
    → get_item_by_subscription_id items s ≡ some item
    → FirstItem s item items
unfolding get_item_by_subscription_id
FirstItem-found s [] item h = cc
FirstItem-found s (x ∷ items) item h = elim (Bool-cases (x.subscription_id == s)) [
  | inl e ↦ here (ground (arith, h, e)) ((eq_iff x.subscription_id s).0 e)
  | inr e ↦
      later (λ k. cc (e, (eq_iff x.subscription_id s).1 k))
        (FirstItem-found s items item (sym (rw e refl) ∙ h))
]

found-FirstItem :
    (s : String) (items : List OrderItem) (item : OrderItem)
    → FirstItem s item items
    → get_item_by_subscription_id items s ≡ some item
unfolding get_item_by_subscription_id
found-FirstItem s [] item h = elim h [ ]
found-FirstItem s (x ∷ items) item (here e h) = rw ((eq_iff x.subscription_id s).1 h) (ap some e)
found-FirstItem s (x ∷ items) item (later n h) = elim (Bool-cases (x.subscription_id == s)) [
  | inl e ↦ absurd (n ((eq_iff x.subscription_id s).0 e))
  | inr e ↦ rw e (found-FirstItem s items item h)
]

-- The item of the subscription in an order that is being returned, or that is processed with the item.
pub record IsOpen (s : String) (returning : List String) (order : AdobeOrder) (item : OrderItem)
    : Type 0 where
  pub first : FirstItem s item order.line_items
  pub state :
      (contains returning order.order_id ≡ true)
      ⊎ ((order.status ≡ "1000") × (item.status ≡ "1000"))

module _ (s : String) (returning : List String) where
  -- The same as the code tests it.
  abbrev pub Tested : AdobeOrder → OrderItem → Type 0
  Tested order item =
      (get_item_by_subscription_id order.line_items s ≡ some item)
      × (is_candidate returning (order, item) ≡ true)

  pub Tested-IsOpen :
      (order : AdobeOrder) (item : OrderItem) → Tested order item → IsOpen s returning order item
  Tested-IsOpen order item h = record {
    first = FirstItem-found s order.line_items item h.0;
    state = elim (Bool-cases (contains returning order.order_id)) [
      | inl e ↦ inl e
      | inr e ↦
          let k = h.1 in
          inr (
            (eq_iff order.status "1000").0 (ground (arith, k, e)),
            (eq_iff item.status "1000").0 (ground (arith, k, e)),
          )
    ];
  }

  pub IsOpen-Tested :
      (order : AdobeOrder) (item : OrderItem) → IsOpen s returning order item → Tested order item
  IsOpen-Tested order item h = (found-FirstItem s order.line_items item h.first, by_state h.state)
    where
      by_state :
          (contains returning order.order_id ≡ true)
            ⊎ ((order.status ≡ "1000") × (item.status ≡ "1000"))
          → is_candidate returning (order, item) ≡ true
      by_state (inl e) = ground (arith, e)
      by_state (inr (e, f)) =
          ground (arith, (eq_iff order.status "1000").1 e, (eq_iff item.status "1000").1 f)

  abbrev pub candidates : List AdobeOrder → List (AdobeOrder × OrderItem)
  candidates orders = keep (is_candidate returning) (order_items orders s)

  -- An order adds its open item to the candidates, or nothing.
  pub data Adds (order : AdobeOrder) (orders : List AdobeOrder) : Type 0 where
    adds :
        (item : OrderItem)
        → Tested order item
        → candidates (order ∷ orders) ≡ (order, item) ∷ candidates orders
        → Adds order orders
    skips :
        ((item : OrderItem) → ¬ Tested order item)
        → candidates (order ∷ orders) ≡ candidates orders
        → Adds order orders

  pub Adds_lem : (order : AdobeOrder) (orders : List AdobeOrder) → Adds order orders
  Adds_lem order orders = by_item (get_item_by_subscription_id order.line_items s) refl
    where
      verdict : Option OrderItem → Bool
      verdict none = false
      verdict (some item) = is_candidate returning (order, item)

      by_item :
          (found : Option OrderItem)
          → get_item_by_subscription_id order.line_items s ≡ found
          → Adds order orders
      by_item none e = skips (λ item h. cc (e, h.0)) (rw e refl)
      by_item (some item) e = elim (Bool-cases (is_candidate returning (order, item))) [
        | inl f ↦ adds item (e, f) (rw e (rw f refl))
        | inr f ↦ skips (λ other h. cc (f, h.1, ap verdict (sym e ∙ h.0))) (rw e (rw f refl))
      ]
