-- ===== src/Deployments/Recorded.antt =====
-- The loop over a deployment's subscriptions: those that are active are at the platform afterwards.
use mathlib.Core.Path.{subst}
use swo_adobe_vipm_extension.Base.{
  ℕ, ◌≡◌, refl, ◌∙◌, String, Option, none, some, List, [], ◌∷◌, ◌++◌, map, Bool, true, false, ◌==◌,
  ◌&&◌, ◌||◌, if◌then◌else◌, All, arith, eq_refl, Bool-cases, inl, inr,
}
use swo_adobe_vipm_extension.Context.{Exception, Reply, ok, raises}
use swo_adobe_vipm_extension.Customer.{AdobeSubscription}
use swo_adobe_vipm_extension.Dict.{Dict, lookup, update}
use swo_adobe_vipm_extension.Order.Lines.{get_partial_sku}
use swo_adobe_vipm_extension.Deployments.{World, Outside, ProductItem, Created}
use swo_adobe_vipm_extension.Deployments.Process.{
  Run, has, created_for, asset_created, create_gc_agreement_asset, subscription_created,
  create_gc_agreement_subscription, with_price, renewed, enabled, renew_and_create, with_item,
  is_active, process_subscription, go_on, process_subscriptions, with_items, item_pair,
  process_adobe_subscriptions_from_agreement,
}

abbrev pub is_recorded : String → World → String → Bool
is_recorded agreement_id w id = has agreement_id id w.assets || has agreement_id id w.subscriptions

-- Adobe answers to an update with the subscription that was updated.
abbrev pub KeepsIds : Outside → Type 0
KeepsIds outside =
    (s s2 : AdobeSubscription)
    → outside.enable_renewal s ≡ ok s2
    → s2.subscription_id ≡ s.subscription_id

has_snoc :
    (a id : String) (xs : List Created) (c : Created)
    → has a id (xs ++ c ∷ []) ≡ (has a id xs || (c.agreement_id == a && c.external_id == id))
has_snoc a id [] c = ground arith
has_snoc a id (x ∷ xs) c = ground (arith, has_snoc a id xs c)

module _ (outside : Outside) (agreement_id : String) where
  -- What was recorded still is, the row is as it was, and without an exception the subscription is too.
  pub record Grows (w : World) (id : String) (r : Run) : Type 0 where
    pub same_row : r.0.row ≡ w.row
    pub kept :
        (k : String) → is_recorded agreement_id w k ≡ true → is_recorded agreement_id r.0 k ≡ true
    pub recorded : r.1 ≡ none → is_recorded agreement_id r.0 id ≡ true

  raised-Grows : (w : World) (id : String) (e : Exception) → Grows w id (w, some e)
  raised-Grows w id e = record { same_row = refl; kept = λ k h. h; recorded = λ h. cc }

  known-Grows :
      (w : World) (id : String) → is_recorded agreement_id w id ≡ true → Grows w id (w, none)
  known-Grows w id h = record { same_row = refl; kept = λ k h. h; recorded = λ _. h }

  asset-Grows :
      (w : World) (s : AdobeSubscription) (item : ProductItem) (price : Option ℕ)
      → Grows w s.subscription_id (create_gc_agreement_asset outside agreement_id item s w price)
  unfolding create_gc_agreement_asset
  asset-Grows w s item price =
      by_reply (outside.create_asset (created_for agreement_id item s price))
    where
      c : Created
      c = created_for agreement_id item s price

      by_reply :
          (r : Reply {0} Unit)
          → Grows w s.subscription_id (asset_created outside agreement_id w c r)
      by_reply (raises e) = raised-Grows w s.subscription_id e
      by_reply (ok tt) = record {
        same_row = refl;
        kept = λ k h. ground (arith, h, has_snoc agreement_id k w.assets c);
        recorded = λ _. ground (
          arith,
          has_snoc agreement_id s.subscription_id w.assets c,
          eq_refl agreement_id,
          eq_refl s.subscription_id,
        );
      }

  subscription-Grows :
      (w : World) (s : AdobeSubscription) (item : ProductItem) (price : Option ℕ)
      → Grows w s.subscription_id
          (create_gc_agreement_subscription outside agreement_id item s w price)
  unfolding create_gc_agreement_subscription
  subscription-Grows w s item price =
      by_reply (outside.create_subscription (created_for agreement_id item s price))
    where
      c : Created
      c = created_for agreement_id item s price

      by_reply :
          (r : Reply {0} Unit)
          → Grows w s.subscription_id (subscription_created outside agreement_id w c r)
      by_reply (raises e) = raised-Grows w s.subscription_id e
      by_reply (ok tt) = record {
        same_row = refl;
        kept = λ k h. ground (arith, h, has_snoc agreement_id k w.subscriptions c);
        recorded = λ _. ground (
          arith,
          has_snoc agreement_id s.subscription_id w.subscriptions c,
          eq_refl agreement_id,
          eq_refl s.subscription_id,
        );
      }

  priced-Grows :
      (w : World) (id : String) (create : World → Option ℕ → Run) (r : Reply (Option ℕ))
      → ((price : Option ℕ) → Grows w id (create w price))
      → Grows w id (with_price outside agreement_id create w r)
  priced-Grows w id create (ok price) h = h price
  priced-Grows w id create (raises e) h = raised-Grows w id e

  renewed-Grows :
      (w : World) (s : AdobeSubscription) (item : ProductItem)
      → Grows w s.subscription_id (renewed outside agreement_id item w (ok s))
  renewed-Grows w s item =
      priced-Grows w s.subscription_id
        (create_gc_agreement_subscription outside agreement_id item s) (outside.price_of s)
        (subscription-Grows w s item)

  renew_and_create-Grows :
      (w : World) (s : AdobeSubscription) (item : ProductItem)
      → KeepsIds outside
      → Grows w s.subscription_id (renew_and_create outside agreement_id item s w)
  renew_and_create-Grows w s item keeps = by_test s.auto_renewal
    where
      by_reply :
          (r : Reply AdobeSubscription)
          → outside.enable_renewal s ≡ r
          → Grows w s.subscription_id (enabled outside agreement_id item w r)
      by_reply (raises e) f = raised-Grows w s.subscription_id e
      by_reply (ok s2) f =
          subst (λ id. Grows w id (enabled outside agreement_id item w (ok s2))) (keeps s s2 f)
            (let w2 : World = record w { renewals = w.renewals ++ s2.subscription_id ∷ [] } in
              let g = renewed-Grows w2 s2 item in
              record { same_row = g.same_row; kept = g.kept; recorded = g.recorded })

      by_test :
          (b : Bool)
          → Grows w s.subscription_id (
              if b
              then renewed outside agreement_id item w (ok s)
              else enabled outside agreement_id item w (outside.enable_renewal s))
      by_test true = renewed-Grows w s item
      by_test false = by_reply (outside.enable_renewal s) refl

  with_item-Grows :
      (w : World) (s : AdobeSubscription) (o : Option ProductItem)
      → KeepsIds outside
      → Grows w s.subscription_id (with_item outside agreement_id s w o)
  with_item-Grows w s none keeps = raised-Grows w s.subscription_id _
  with_item-Grows w s (some item) keeps =
      by_tests item.is_one_time (has agreement_id s.subscription_id w.assets) refl
        (has agreement_id s.subscription_id w.subscriptions) refl
    where
      by_tests :
          (b c : Bool)
          → has agreement_id s.subscription_id w.assets ≡ c
          → (d : Bool) → has agreement_id s.subscription_id w.subscriptions ≡ d
          → Grows w s.subscription_id (
              if b
              then if c
                then (w, none)
                else with_price outside agreement_id
                    (create_gc_agreement_asset outside agreement_id item s)
                    w
                    (outside.price_of s)
              else if d
              then (w, none)
              else renew_and_create outside agreement_id item s w)
      by_tests true true e d f = known-Grows w s.subscription_id (ground (arith, e))
      by_tests true false e d f =
          priced-Grows w s.subscription_id (create_gc_agreement_asset outside agreement_id item s)
            (outside.price_of s) (asset-Grows w s item)
      by_tests false c e true f = known-Grows w s.subscription_id (ground (arith, f))
      by_tests false c e false f = renew_and_create-Grows w s item keeps

  -- Every active subscription is recorded.
  abbrev pub AllRecorded : World → List AdobeSubscription → Type 0
  AllRecorded w subscriptions =
      All
        (λ s.
          is_active outside agreement_id s ≡ true
          → is_recorded agreement_id w s.subscription_id ≡ true)
        subscriptions

  -- The loop.
  pub record Loop (w : World) (subscriptions : List AdobeSubscription) (r : Run) : Type 0 where
    pub same_row : r.0.row ≡ w.row
    pub kept :
        (k : String) → is_recorded agreement_id w k ≡ true → is_recorded agreement_id r.0 k ≡ true
    pub recorded : r.1 ≡ none → AllRecorded r.0 subscriptions

  record OneStep (w : World) (s : AdobeSubscription) (r : Run) : Type 0 where
    same_row : r.0.row ≡ w.row
    kept :
        (k : String) → is_recorded agreement_id w k ≡ true → is_recorded agreement_id r.0 k ≡ true
    recorded :
        r.1 ≡ none
        → is_active outside agreement_id s ≡ true
        → is_recorded agreement_id r.0 s.subscription_id ≡ true

  process_subscription-OneStep :
      (items_map : Dict ProductItem) (s : AdobeSubscription) (w : World)
      → KeepsIds outside
      → OneStep w s (process_subscription outside agreement_id items_map s w)
  unfolding process_subscription
  process_subscription-OneStep items_map s w keeps =
      elim (Bool-cases (is_active outside agreement_id s)) [
        | inl e ↦ rw e (
            let g = with_item-Grows w s (lookup (get_partial_sku s.offer_id) items_map) keeps in
            record { same_row = g.same_row; kept = g.kept; recorded = λ n _. g.recorded n })
        | inr e ↦ rw e (record { same_row = refl; kept = λ k h. h; recorded = λ n h. cc })
      ]

  process_subscriptions-Loop :
      (items_map : Dict ProductItem) (subscriptions : List AdobeSubscription) (w : World)
      → KeepsIds outside
      → Loop w subscriptions (process_subscriptions outside agreement_id items_map subscriptions w)
  process_subscriptions-Loop items_map [] w keeps = record {
    same_row = refl;
    kept = λ k h. h;
    recorded = λ _. tt;
  }
  process_subscriptions-Loop items_map (s ∷ subscriptions) w keeps =
      by_run (process_subscription outside agreement_id items_map s w)
        (λ w1. process_subscriptions-Loop items_map subscriptions w1 keeps)
        (process_subscription-OneStep items_map s w keeps)
    where
      by_run :
          (r : Run)
          → ((w1 : World)
              → Loop w1 subscriptions
                  (process_subscriptions outside agreement_id items_map subscriptions w1))
          → OneStep w s r
          → Loop w (s ∷ subscriptions) (
              go_on outside agreement_id
                (process_subscriptions outside agreement_id items_map subscriptions)
                r)
      by_run (w1, some e) ih g = record { same_row = g.same_row; kept = g.kept; recorded = λ h. cc }
      by_run (w1, none) ih g =
          let l = ih w1 in
          record {
            same_row = l.same_row ∙ g.same_row;
            kept = λ k h. l.kept k (g.kept k h);
            recorded = λ n. (λ a. l.kept s.subscription_id (g.recorded refl a), l.recorded n);
          }

  pub process_adobe_subscriptions-Loop :
      (subscriptions : List AdobeSubscription) (w : World)
      → KeepsIds outside
      → Loop w subscriptions
          (process_adobe_subscriptions_from_agreement outside agreement_id subscriptions w)
  unfolding process_adobe_subscriptions_from_agreement
  process_adobe_subscriptions-Loop subscriptions w keeps =
      by_reply (outside.get_product_items (map (λ s. get_partial_sku s.offer_id) subscriptions))
    where
      by_reply :
          (r : Reply (List ProductItem))
          → Loop w subscriptions (with_items outside agreement_id subscriptions w r)
      by_reply (raises e) = record { same_row = refl; kept = λ k h. h; recorded = λ h. cc }
      by_reply (ok items) =
          process_subscriptions-Loop (update [] (map (item_pair outside agreement_id) items))
            subscriptions w keeps
