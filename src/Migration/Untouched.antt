-- ===== src/Migration/Untouched.antt =====
-- The parts of a poll that leave the table of transfers as it is, or a copy of a row as it is saved.
use swo_adobe_vipm_extension.Base.{
  lower_is, ◌≡◌, refl, Option, none, some, List, [], ◌∷◌, Bool, true, false, ◌==◌, if◌then◌else◌,
  inl, inr, Bool-cases,
}
use swo_adobe_vipm_extension.Context.{Reply, ok, raises, airtable_http}
use swo_adobe_vipm_extension.Customer.{Customer, AdobeSubscription, Commitment, MinimumQuantity}
use swo_adobe_vipm_extension.Migration.{Transfer, World, MainAgreement, Outside, notify}
use swo_adobe_vipm_extension.Migration.Check.{
  update_subscriptions, after_update, ensure_gc_main_agreement, save_gc_main_agreement,
  fill_commitment, fill_quantities, fill_quantity, fill_dates, has_gc_main_agreement,
  main_agreement_of,
}
use swo_adobe_vipm_extension.Migration.Polled.{IsCopy}

module _ (outside : Outside) where
  pub update_subscriptions-transfers :
      (t : Transfer) (subscriptions : List AdobeSubscription) (w : World)
      → (update_subscriptions outside t subscriptions w).0.transfers ≡ w.transfers
  update_subscriptions-transfers t [] w = refl
  update_subscriptions-transfers t (s ∷ subscriptions) w = elim (Bool-cases (s.status == "1000")) [
    | inl e ↦ rw e (
        by_reply (λ w1. update_subscriptions-transfers t subscriptions w1)
          (outside.update_subscription t.authorization_uk t.customer_id s.subscription_id))
    | inr e ↦ rw e (update_subscriptions-transfers t subscriptions w)
  ]
    where
      by_reply :
          ((w1 : World)
            → (update_subscriptions outside t subscriptions w1).0.transfers ≡ w1.transfers)
          → (r : Reply {0} Unit)
          → (after_update outside s.subscription_id
              (update_subscriptions outside t subscriptions)
              w
              r).0.transfers
            ≡ w.transfers
      by_reply ih (ok tt) = ih _
      by_reply ih (raises e) = refl

  pub save_gc_main_agreement-transfers :
      (a : MainAgreement) (w : World) (r : Reply {0} Unit)
      → (save_gc_main_agreement outside a w r).0.transfers ≡ w.transfers
  unfolding save_gc_main_agreement notify
  save_gc_main_agreement-transfers a w (ok tt) = refl
  save_gc_main_agreement-transfers a w (raises (airtable_http text)) = refl
  save_gc_main_agreement-transfers a w (raises e) = refl

  pub ensure_gc_main_agreement-transfers :
      (t : Transfer) (customer : Customer) (w : World)
      → (ensure_gc_main_agreement outside t customer w).0.transfers ≡ w.transfers
  unfolding ensure_gc_main_agreement
  ensure_gc_main_agreement-transfers t customer w =
      by_tests customer.global_sales_enabled
        (has_gc_main_agreement t.authorization_uk t.membership_id w)
    where
      by_tests :
          (b c : Bool)
          → (if b
              then if c
                then (w, none)
                else save_gc_main_agreement outside
                    (main_agreement_of t)
                    w
                    (outside.create_gc_main_agreement (main_agreement_of t))
              else (w, none)).0.transfers
            ≡ w.transfers
      by_tests true true = refl
      by_tests true false =
          save_gc_main_agreement-transfers (main_agreement_of t) w
            (outside.create_gc_main_agreement (main_agreement_of t))
      by_tests false c = refl

pub fill_quantity-IsCopy :
    (t t2 : Transfer) (mq : MinimumQuantity) → IsCopy t t2 → IsCopy t (fill_quantity mq t2)
unfolding fill_quantity lower_is
fill_quantity-IsCopy t t2 mq c =
    by_tests (lower_is mq.offer_type "license") (lower_is mq.offer_type "consumables")
  where
    by_tests :
        (b d : Bool)
        → IsCopy t (
            if b
            then record t2 { customer_benefits_3yc_minimum_quantity_license = some mq.quantity }
            else if d
            then record t2 { customer_benefits_3yc_minimum_quantity_consumables = some mq.quantity }
            else t2)
    by_tests true d = record { same = c.same; status = c.status; retry_count = c.retry_count }
    by_tests false true = record { same = c.same; status = c.status; retry_count = c.retry_count }
    by_tests false false = c

pub fill_quantities-IsCopy :
    (t t2 : Transfer) (mqs : List MinimumQuantity) → IsCopy t t2 → IsCopy t (fill_quantities mqs t2)
fill_quantities-IsCopy t t2 [] c = c
fill_quantities-IsCopy t t2 (mq ∷ mqs) c =
    fill_quantities-IsCopy t (fill_quantity mq t2) mqs (fill_quantity-IsCopy t t2 mq c)

pub fill_commitment-IsCopy :
    (t t2 : Transfer) (commitment : Option Commitment)
    → IsCopy t t2
    → IsCopy t (fill_commitment commitment t2)
unfolding fill_commitment
fill_commitment-IsCopy t t2 none c = c
fill_commitment-IsCopy t t2 (some x) c =
    fill_quantities-IsCopy t (fill_dates x t2) x.minimum_quantities
      (record { same = c.same; status = c.status; retry_count = c.retry_count })
