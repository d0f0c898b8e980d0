-- ===== src/Returns/Eligible.antt =====
-- The orders that `get_returnable_orders_by_subscription_id` chooses.
use mathlib.Core.List.{Memᴰ}
use mathlib.Core.List.Memᴰ
use mathlib.Core.Path.{subst}
use swo_adobe_vipm_extension.Base.{
  ℕ, ◌≤◌, ◌≡◌, ◌↔◌, refl, sym, ap, ◌∙◌, inl, inr, String, Option, none, some, List, [], ◌∷◌, ◌==◌,
  leb, find_first, map, Bool-cases, arith, eq_iff,
}
use swo_adobe_vipm_extension.Returns.{AdobeOrder, OrderItem, Returnable}
use swo_adobe_vipm_extension.Returns.Orders.{
  is_renewal, since_renewal, info, get_returnable_orders_by_subscription_id,
}
use swo_adobe_vipm_extension.Returns.Open.{
  IsOpen, Tested-IsOpen, IsOpen-Tested, candidates, Adds, adds, skips, Adds_lem,
}
use swo_adobe_vipm_extension.Returns.Members.{Mem-keep, candidates-Tested, Tested-candidates}

module _ (s : String) (returning : List String) where
  -- A renewal order with an open item of the subscription.
  abbrev pub IsRenewed : AdobeOrder → Type 0
  IsRenewed order =
      (order.order_type ≡ "RENEWAL") × ((item : OrderItem) × IsOpen s returning order item)

  -- The first such order, if there is one, is not later than the moment.
  pub data IsRecent (moment : ℕ) : List AdobeOrder → Type 0 where
    no_renewal : IsRecent moment []
    passes :
        {order : AdobeOrder} {orders : List AdobeOrder}
        → ¬ IsRenewed order
        → IsRecent moment orders
        → IsRecent moment (order ∷ orders)
    renewed :
        {order : AdobeOrder} {orders : List AdobeOrder}
        → IsRenewed order
        → order.creation_date ≤ moment
        → IsRecent moment (order ∷ orders)

  -- One of Adobe's orders with its open item, whose quantity it has, and not older than a renewal.
  pub record IsReturnable (orders : List AdobeOrder) (r : Returnable) : Type 0 where
    pub listed : Memᴰ r.order orders
    pub open_item : IsOpen s returning r.order r.line
    pub quantity : r.quantity ≡ r.line.quantity
    pub recent : IsRecent r.order.creation_date orders

  -- No candidate is older than the first renewal among them.
  abbrev IsSince : ℕ → Option (AdobeOrder × OrderItem) → Type 0
  IsSince moment none = Unit
  IsSince moment (some renewal) = renewal.0.creation_date ≤ moment

  first_recent :
      {moment : ℕ} {order : AdobeOrder} {orders : List AdobeOrder}
      → IsRenewed order
      → IsRecent moment (order ∷ orders)
      → order.creation_date ≤ moment
  first_recent w (passes n r) = absurd (n w)
  first_recent w (renewed _ h) = h

  rest_recent :
      {moment : ℕ} {order : AdobeOrder} {orders : List AdobeOrder}
      → ¬ IsRenewed order
      → IsRecent moment (order ∷ orders)
      → IsRecent moment orders
  rest_recent n (passes _ r) = r
  rest_recent n (renewed w _) = absurd (n w)

  abbrev first_renewal : List AdobeOrder → Option (AdobeOrder × OrderItem)
  first_renewal orders = find_first is_renewal (candidates s returning orders)

  IsRecent-iff :
      (moment : ℕ) (orders : List AdobeOrder)
      → IsRecent moment orders ↔ IsSince moment (first_renewal orders)
  IsRecent-iff moment [] = (λ h. tt, λ h. no_renewal)
  IsRecent-iff moment (order ∷ orders) =
      by_view (Adds_lem s returning order orders) (IsRecent-iff moment orders)
    where
      unrenewed :
          ¬ IsRenewed order
          → first_renewal (order ∷ orders) ≡ first_renewal orders
          → (IsRecent moment orders ↔ IsSince moment (first_renewal orders))
          → IsRecent moment (order ∷ orders) ↔ IsSince moment (first_renewal (order ∷ orders))
      unrenewed n q below = (
        λ r. subst (IsSince moment) (sym q) (below.0 (rest_recent n r)),
        λ h. passes n (below.1 (subst (IsSince moment) q h)),
      )

      by_view :
          Adds s returning order orders
          → (IsRecent moment orders ↔ IsSince moment (first_renewal orders))
          → IsRecent moment (order ∷ orders) ↔ IsSince moment (first_renewal (order ∷ orders))
      by_view (adds item h e) below = elim (Bool-cases (order.order_type == "RENEWAL")) [
        | inl f ↦
            let w : IsRenewed order = (
              (eq_iff order.order_type "RENEWAL").0 f,
              (item, Tested-IsOpen s returning order item h),
            ) in
            let q : first_renewal (order ∷ orders) ≡ some (order, item) =
              ap (find_first is_renewal) e ∙ rw f refl in
            (
              λ r. subst (IsSince moment) (sym q) (first_recent w r),
              λ k. renewed w (subst (IsSince moment) q k),
            )
        | inr f ↦
            unrenewed (λ w. cc (f, (eq_iff order.order_type "RENEWAL").1 w.0))
              (ap (find_first is_renewal) e ∙ rw f refl) below
      ]
      by_view (skips n e) below =
          unrenewed (λ w. n w.1.0 (IsOpen-Tested s returning order w.1.0 w.1.1))
            (ap (find_first is_renewal) e) below

  Mem-IsSince :
      (found : Option (AdobeOrder × OrderItem)) (xs : List (AdobeOrder × OrderItem))
      (x : AdobeOrder × OrderItem)
      → Memᴰ x (since_renewal found xs) ↔ (Memᴰ x xs × IsSince x.0.creation_date found)
  Mem-IsSince none xs x = (λ m. (m, tt), λ h. h.0)
  Mem-IsSince (some renewal) xs x =
      let k =
        Mem-keep (λ (y : AdobeOrder × OrderItem). leb renewal.0.creation_date y.0.creation_date) xs
          x in
      (λ m. let h = k.0 m in (h.0, ground (arith, h.1)), λ h. k.1 (h.0, ground (arith, h.1)))

  -- An order can be returned, with its item of the subscription and that item's quantity, exactly if it is
  -- one of Adobe's orders and the item the first that it has for the subscription, if the order is being
  -- returned already or both it and the item are processed, and if the first renewal order that meets this
  -- too, where there is one, is not later.
  pub get_returnable_orders_by_subscription_id_iff :
      (orders : List AdobeOrder) (r : Returnable)
      → Memᴰ r (get_returnable_orders_by_subscription_id orders s returning) ↔ IsReturnable orders r
  unfolding get_returnable_orders_by_subscription_id
  get_returnable_orders_by_subscription_id_iff orders r = (chosen, returned)
    where
      all : List (AdobeOrder × OrderItem)
      all = since_renewal (first_renewal orders) (candidates s returning orders)

      returnable : (x : AdobeOrder × OrderItem) → Memᴰ x all → IsReturnable orders (info x)
      returnable (order, item) m =
          let h =
            (Mem-IsSince (first_renewal orders) (candidates s returning orders) (order, item)).0
              m in
          let t = candidates-Tested s returning orders (order, item) h.0 in
          record {
            listed = t.0;
            open_item = Tested-IsOpen s returning order item t.1;
            quantity = refl;
            recent = (IsRecent-iff order.creation_date orders).1 h.1;
          }

      chosen : Memᴰ r (map info all) → IsReturnable orders r
      chosen m =
          let x = Memᴰ.of_map info all m in subst (IsReturnable orders) x.2 (returnable x.0 x.1)

      returned : IsReturnable orders r → Memᴰ r (map info all)
      returned h =
          let t = IsOpen-Tested s returning r.order r.line h.open_item in
          let m =
            (Mem-IsSince (first_renewal orders) (candidates s returning orders) (r.order, r.line)).1
              (
                Tested-candidates s returning orders r.order r.line h.listed t,
                (IsRecent-iff r.order.creation_date orders).0 h.recent,
              ) in
          Memᴰ.cast (ap (λ q. record r { quantity = q }) h.quantity) (Memᴰ.map info m)
