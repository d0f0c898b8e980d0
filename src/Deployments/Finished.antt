-- ===== src/Deployments/Finished.antt =====
-- What a run makes of a deployment.
use mathlib.Core.Path.{subst}
use swo_adobe_vipm_extension.Base.{
  ◌≡◌, refl, ap, sym, String, none, some, List, [], ◌∷◌, false, keep, is_blank,
}
use swo_adobe_vipm_extension.Context.{Reply, ok, raises}
use swo_adobe_vipm_extension.Customer.{AdobeSubscription}
use swo_adobe_vipm_extension.Deployments.{
  World, Outside, Deployment, Listing, Licensee, GlobalCustomer, Found, fail_row, get_authorization,
  get_price_list_id, get_listing, of_deployment, subscriptions_of,
  get_adobe_subscriptions_by_deployment,
}
use swo_adobe_vipm_extension.Deployments.Process.{
  Run, process_adobe_subscriptions_from_agreement, mark_created, completed, with_subscriptions,
  updated, with_agreement, with_deployments, with_customer, with_main_agreement, with_licensee,
  with_listing, with_price_list, with_authorization, handled, process_agreement_deployment,
}
use swo_adobe_vipm_extension.Deployments.Recorded.{
  KeepsIds, AllRecorded, Loop, process_adobe_subscriptions-Loop,
}
use swo_adobe_vipm_extension.Deployments.Failing.{
  Same, Step, found, failed, MayRaise, answered, get_authorization-Step, get_price_list_id-Step,
  get_listing-MayRaise, create_gc_agreement_deployment-Step,
}

module _ (outside : Outside) where
  -- The ends of a run, of the deployment `d`.
  pub data IsProcessed (d : Deployment) : World → Type 0 where
    not_created : {w : World} → w.saved.status ≡ "error" → IsProcessed d w
    nothing_to_create :
        {w : World} (authorization_id : String) (subscriptions : List AdobeSubscription)
        → outside.get_subscriptions authorization_id d.customer_id ≡ ok subscriptions
        → keep (of_deployment outside d.deployment_id) subscriptions ≡ []
        → w.row.status ≡ d.status
        → IsProcessed d w
    all_created :
        {w : World} (authorization_id agreement_id : String)
        (subscriptions : List AdobeSubscription)
        → outside.get_subscriptions authorization_id d.customer_id ≡ ok subscriptions
        → AllRecorded outside agreement_id w
            (keep (of_deployment outside d.deployment_id) subscriptions)
        → w.saved.status ≡ "created"
        → IsProcessed d w

  -- The same of a run that may have raised.
  abbrev RunProcessed : Deployment → Run → Type 0
  RunProcessed d (w, none) = IsProcessed d w
  RunProcessed d (w, some e) = Unit

  completed-RunProcessed :
      (d : Deployment) (w : World) (authorization_id agreement_id : String)
      (all subscriptions : List AdobeSubscription) (r : Run)
      → outside.get_subscriptions authorization_id d.customer_id ≡ ok all
      → keep (of_deployment outside d.deployment_id) all ≡ subscriptions
      → Loop outside agreement_id w subscriptions r
      → RunProcessed d (completed outside r)
  completed-RunProcessed d w a agreement_id all subscriptions (w1, some e) f k l = tt
  completed-RunProcessed d w a agreement_id all subscriptions (w1, none) f k l =
      all_created a agreement_id all f
        (subst (AllRecorded outside agreement_id (mark_created outside w1)) (sym k)
          (l.recorded refl))
        refl

  with_subscriptions-RunProcessed :
      (d : Deployment) (w : World) (a agreement_id : String) (r : Reply (List AdobeSubscription))
      → KeepsIds outside
      → Same d w
      → outside.get_subscriptions a d.customer_id ≡ r
      → RunProcessed d (with_subscriptions outside agreement_id (subscriptions_of outside w r))
  unfolding fail_row
  with_subscriptions-RunProcessed d w a agreement_id (raises e) keeps h f = not_created refl
  with_subscriptions-RunProcessed d w a agreement_id (ok all) keeps h f =
      by_kept (keep (of_deployment outside w.row.deployment_id) all)
        (ap (λ k. keep (of_deployment outside k.0) all) (sym h))
    where
      by_kept :
          (kept : List AdobeSubscription)
          → keep (of_deployment outside d.deployment_id) all ≡ kept
          → RunProcessed d (with_subscriptions outside agreement_id (w, some kept))
      by_kept [] k = nothing_to_create a all f k (ap (λ x. x.2) h)
      by_kept (s ∷ rest) k =
          completed-RunProcessed d w a agreement_id all (s ∷ rest)
            (process_adobe_subscriptions_from_agreement outside agreement_id (s ∷ rest) w) f k
            (process_adobe_subscriptions-Loop outside agreement_id (s ∷ rest) w keeps)

  updated-RunProcessed :
      (d : Deployment) (w : World) (a agreement_id : String) (r : Reply {0} Unit)
      → KeepsIds outside
      → Same d w
      → RunProcessed d (updated outside a agreement_id w r)
  unfolding get_adobe_subscriptions_by_deployment
  updated-RunProcessed d w a agreement_id (raises e) keeps h = tt
  updated-RunProcessed d w a agreement_id (ok tt) keeps h =
      with_subscriptions-RunProcessed d w a agreement_id
        (outside.get_subscriptions a w.row.customer_id) keeps h
        (ap (λ k. outside.get_subscriptions a k.1) (sym h))

  with_agreement-RunProcessed :
      (d : Deployment) (a : String) (c : GlobalCustomer) (f : Found String)
      → KeepsIds outside
      → Step String d f
      → RunProcessed d (with_agreement outside a c f)
  with_agreement-RunProcessed d a c (w, none) keeps (failed h) = not_created h
  with_agreement-RunProcessed d a c (w, some id) keeps (found h) =
      updated-RunProcessed d w a id (outside.update_agreement id c.customer_id) keeps h

  with_deployments-RunProcessed :
      (d : Deployment) (w : World) (a : String) (l : Listing) (licensee : Licensee)
      (c : GlobalCustomer) (r : Reply (List String))
      → KeepsIds outside
      → Same d w
      → RunProcessed d (with_deployments outside a l licensee c w r)
  with_deployments-RunProcessed d w a l licensee c (raises e) keeps h = tt
  with_deployments-RunProcessed d w a l licensee c (ok ds) keeps h =
      with_agreement-RunProcessed d a c _ keeps
        (create_gc_agreement_deployment-Step outside d w c ds l licensee h)

  with_customer-RunProcessed :
      (d : Deployment) (w : World) (a : String) (l : Listing) (licensee : Licensee)
      (r : Reply GlobalCustomer)
      → KeepsIds outside
      → Same d w
      → RunProcessed d (with_customer outside a l licensee w r)
  with_customer-RunProcessed d w a l licensee (raises e) keeps h = tt
  with_customer-RunProcessed d w a l licensee (ok c) keeps h =
      with_deployments-RunProcessed d w a l licensee c _ keeps h

  with_main_agreement-RunProcessed :
      (d : Deployment) (w : World) (a : String) (l : Listing) (licensee : Licensee)
      (r : Reply {0} Unit)
      → KeepsIds outside
      → Same d w
      → RunProcessed d (with_main_agreement outside a l licensee w r)
  with_main_agreement-RunProcessed d w a l licensee (raises e) keeps h = tt
  with_main_agreement-RunProcessed d w a l licensee (ok u) keeps h =
      with_customer-RunProcessed d w a l licensee (outside.get_customer a w.row.customer_id) keeps h

  with_licensee-RunProcessed :
      (d : Deployment) (w : World) (a : String) (l : Listing) (r : Reply Licensee)
      → KeepsIds outside
      → Same d w
      → RunProcessed d (with_licensee outside a l w r)
  with_licensee-RunProcessed d w a l (raises e) keeps h = tt
  with_licensee-RunProcessed d w a l (ok licensee) keeps h =
      with_main_agreement-RunProcessed d w a l licensee
        (outside.get_agreement w.row.main_agreement_id) keeps h

  with_listing-RunProcessed :
      (d : Deployment) (w : World) (a : String) (r : Reply (Found Listing))
      → KeepsIds outside
      → MayRaise outside d r
      → RunProcessed d (with_listing outside a r w)
  with_listing-RunProcessed d w a (raises e) keeps m = tt
  with_listing-RunProcessed d w a (ok (w1, none)) keeps (answered (failed h)) = not_created h
  with_listing-RunProcessed d w a (ok (w1, some l)) keeps (answered (found h)) =
      with_licensee-RunProcessed d (record w1 { row = record (w1.row) { listing_id = l.id } }) a l
        (outside.get_licensee w1.row.licensee_id) keeps h

  with_price_list-RunProcessed :
      (d : Deployment) (a : String) (f : Found String)
      → KeepsIds outside
      → Step String d f
      → RunProcessed d (with_price_list outside a f)
  with_price_list-RunProcessed d a (w, none) keeps (failed h) = not_created h
  with_price_list-RunProcessed d a (w, some p) keeps (found h) =
      with_listing-RunProcessed d w a (get_listing outside w a p) keeps
        (get_listing-MayRaise outside d w a p h)

  with_authorization-RunProcessed :
      (d : Deployment) (f : Found String)
      → KeepsIds outside
      → Step String d f
      → RunProcessed d (with_authorization outside f)
  with_authorization-RunProcessed d (w, none) keeps (failed h) = not_created h
  with_authorization-RunProcessed d (w, some a) keeps (found h) =
      with_price_list-RunProcessed d a (get_price_list_id outside w) keeps
        (get_price_list_id-Step outside d w h)

  handled-IsProcessed :
      (d : Deployment) (r : Run) → RunProcessed d r → IsProcessed d (handled outside r)
  unfolding fail_row
  handled-IsProcessed d (w, none) h = h
  handled-IsProcessed d (w, some e) h = not_created refl

  -- A run of a deployment with a licensee, whatever the platform and Adobe answer or raise, as long as
  -- Adobe answers to an update with the subscription that was updated: the saved status is `error`; or
  -- it is `created`, and then every active subscription that Adobe has for the deployment has an
  -- asset or a subscription in one and the same agreement; or Adobe has no subscription for the
  -- deployment, and its status is as it was.
  pub process_agreement_deployment-IsProcessed :
      (w : World)
      → KeepsIds outside
      → is_blank w.row.licensee_id ≡ false
      → IsProcessed w.row (process_agreement_deployment outside w)
  unfolding process_agreement_deployment
  process_agreement_deployment-IsProcessed w keeps licensed = rw licensed (
      handled-IsProcessed w.row (with_authorization outside (get_authorization outside w)) (
        with_authorization-RunProcessed w.row (get_authorization outside w) keeps
          (get_authorization-Step outside w.row w refl)))
