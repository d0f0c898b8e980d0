-- ===== src/Preview/Ordered.antt =====
-- What a preview order asks for, in terms of the order's lines and Adobe's subscriptions.
use mathlib.Core.List.{Memᴰ}
use swo_adobe_vipm_extension.Base.{
  keep-All, ℕ, suc, ◌+◌, ◌-◌, ◌≤◌, ◌≡◌, refl, ap, String, Option, none, some, List, [], ◌∷◌, true,
  ◌==◌, keep, map, All, All-imp, arith, eq_iff,
}
use swo_adobe_vipm_extension.Base.Int.{pos}
use swo_adobe_vipm_extension.Dict.{Dict, lookup, update, insert}
use swo_adobe_vipm_extension.Order.{Line}
use swo_adobe_vipm_extension.Order.Lines.{get_partial_sku}
use swo_adobe_vipm_extension.Customer.{AdobeSubscription}
use swo_adobe_vipm_extension.Catalog.{Product, MarketSegment}
use swo_adobe_vipm_extension.Context.{ok}
use swo_adobe_vipm_extension.Preview.{LineItem}
use swo_adobe_vipm_extension.Preview.Lines.{
  same_deployment, get_subscriptions_for_offers, by_base_offer, by_offer, by_partial, find_sku,
  to_adobe_line_id,
}

-- The subscription is one of the customer's, active, of the deployment, and of the SKU.
pub record IsSource (subs : List AdobeSubscription) (deployment_id : Option String)
    (vendor : String) (sub : AdobeSubscription) : Type 0 where
  pub listed : Memᴰ sub subs
  pub active : sub.status ≡ "1000"
  pub deployment : sub.deployment_id ≡ deployment_id
  pub sku : get_partial_sku sub.offer_id ≡ vendor

module _ (table : List Product) (segment : MarketSegment) where
  -- The item has the line's number and the SKU that the table gives for it.
  pub record IsFor (line : Line) (item : LineItem) : Type 0 where
    pub number : to_adobe_line_id line.id ≡ ok item.ext_line_item_number
    pub offer : find_sku table segment line.item.vendor ≡ ok item.offer_id

  pub data News : List Line → List LineItem → Type 0 where
    no_news : News [] []
    new_item :
        {line : Line} {lines : List Line} {item : LineItem} {items : List LineItem}
        → IsFor line item
        → item.quantity ≡ pos line.quantity
        → News lines items
        → News (line ∷ lines) (item ∷ items)

  -- An upsize line counts what was paid for before it: its old quantity and what the subscription has
  -- beyond its renewal quantity.
  abbrev pub paid : Line → AdobeSubscription → ℕ
  paid line sub = line.old_quantity + (sub.current_quantity - sub.renewal_quantity)

  pub data Upsizes (IsFrom : String → AdobeSubscription → Type 0)
      : List Line → List LineItem → Type 0 where
    no_upsizes : Upsizes IsFrom [] []
    enough :
        {line : Line} {lines : List Line} {items : List LineItem} (sub : AdobeSubscription)
        → IsFrom line.item.vendor sub
        → line.quantity ≤ paid line sub
        → Upsizes IsFrom lines items
        → Upsizes IsFrom (line ∷ lines) items
    upsize_item :
        {line : Line} {lines : List Line} {item : LineItem} {items : List LineItem} (n : ℕ)
        (sub : AdobeSubscription)
        → IsFrom line.item.vendor sub
        → IsFor line item
        → item.quantity ≡ pos (suc n)
        → suc n + paid line sub ≡ line.quantity
        → Upsizes IsFrom lines items
        → Upsizes IsFrom (line ∷ lines) (item ∷ items)

-- The values of a dict, each under its key.
abbrev AllUnder : (String → AdobeSubscription → Type 0) → Dict AdobeSubscription → Type 0
AllUnder P [] = Unit
AllUnder P ((k, v) ∷ d) = P k v × AllUnder P d

module _ (P : String → AdobeSubscription → Type 0) where
  lookup-AllUnder :
      (d : Dict AdobeSubscription) (k : String) (v : AdobeSubscription)
      → AllUnder P d
      → lookup k d ≡ some v
      → P k v
  lookup-AllUnder [] k v h e = cc
  lookup-AllUnder ((j, w) ∷ d) k v h e = ground (arith, eq_iff j k, lookup-AllUnder d k v)

  insert-AllUnder :
      (k : String) (v : AdobeSubscription) (d : Dict AdobeSubscription)
      → P k v
      → AllUnder P d
      → AllUnder P (insert k v d)
  insert-AllUnder k v [] p h = (p, tt)
  insert-AllUnder k v ((j, w) ∷ d) p h = ground (arith, insert-AllUnder k v d p)

  update-AllUnder :
      (d pairs : Dict AdobeSubscription)
      → AllUnder P d
      → AllUnder P pairs
      → AllUnder P (update d pairs)
  update-AllUnder d [] h p = h
  update-AllUnder d ((k, v) ∷ pairs) h p =
      update-AllUnder (insert k v d) pairs (insert-AllUnder k v d p.0 h) p.1

subscriptions_listed : (subs : List AdobeSubscription) → All (λ sub. Memᴰ sub subs) subs
subscriptions_listed [] = tt
subscriptions_listed (s ∷ subs) =
    (Memᴰ.head refl, All-imp (λ x m. Memᴰ.tail m) subs (subscriptions_listed subs))

same_deployment_eq : (a b : Option String) → same_deployment a b ≡ true → a ≡ b
same_deployment_eq none none h = refl
same_deployment_eq none (some b) h = cc
same_deployment_eq (some a) none h = cc
same_deployment_eq (some a) (some b) h = ap some ((eq_iff a b).0 h)

module _ (all_subs : List AdobeSubscription) (deployment_id : Option String) where
  abbrev Source : String → AdobeSubscription → Type 0
  Source vendor sub = IsSource all_subs deployment_id vendor sub

  pub offers-IsSource :
      (base_offer_ids : List String)
      → All
          (λ sub. Source (get_partial_sku sub.offer_id) sub)
          (get_subscriptions_for_offers base_offer_ids deployment_id all_subs)
  unfolding get_subscriptions_for_offers
  offers-IsSource base_offer_ids =
      let of_deployment =
        λ (sub : AdobeSubscription). same_deployment sub.deployment_id deployment_id in
      let is_active = λ (sub : AdobeSubscription). sub.status == "1000" in
      All-imp
        (λ sub h. record {
          listed = h.0.0.0;
          active = (eq_iff sub.status "1000").0 h.0.1;
          deployment = same_deployment_eq sub.deployment_id deployment_id h.0.0.1;
          sku = refl;
        })
        (get_subscriptions_for_offers base_offer_ids deployment_id all_subs)
        (keep-All _ _ (keep is_active (keep of_deployment all_subs)) (
          keep-All _ _ (keep of_deployment all_subs)
            (keep-All _ _ all_subs (subscriptions_listed all_subs))))

  by_offer-AllUnder :
      (subs : List AdobeSubscription)
      → All (λ sub. Source (get_partial_sku sub.offer_id) sub) subs
      → AllUnder (λ k sub. Source (get_partial_sku k) sub) (map by_offer subs)
  by_offer-AllUnder [] h = tt
  by_offer-AllUnder (s ∷ subs) h = (h.0, by_offer-AllUnder subs h.1)

  by_partial-AllUnder :
      (d : Dict AdobeSubscription)
      → AllUnder (λ k sub. Source (get_partial_sku k) sub) d
      → AllUnder Source (map by_partial d)
  by_partial-AllUnder [] h = tt
  by_partial-AllUnder ((k, v) ∷ d) h = (h.0, by_partial-AllUnder d h.1)

  pub by_base_offer-IsSource :
      (subs : List AdobeSubscription) (vendor : String) (sub : AdobeSubscription)
      → All (λ sub. Source (get_partial_sku sub.offer_id) sub) subs
      → lookup vendor (by_base_offer subs) ≡ some sub
      → Source vendor sub
  unfolding by_base_offer
  by_base_offer-IsSource subs vendor sub h e =
      let by_id = update [] (map by_offer subs) in
      lookup-AllUnder Source (by_base_offer subs) vendor sub
        (update-AllUnder Source [] (map by_partial by_id) tt (
          by_partial-AllUnder by_id (
            update-AllUnder (λ k s. Source (get_partial_sku k) s) [] (map by_offer subs) tt
              (by_offer-AllUnder subs h))))
        e
