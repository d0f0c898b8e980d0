-- ===== src/Deployments/Failing.antt =====
-- A step of a run has a value, or has failed the row with its reason.
use swo_adobe_vipm_extension.Base.{
  ◌≡◌, refl, String, none, some, List, [], ◌∷◌, keep, is_blank, Bool-cases, inl, inr,
}
use swo_adobe_vipm_extension.Context.{Exception, Reply, ok, raises}
use swo_adobe_vipm_extension.Deployments.{
  World, NewAgreement, Outside, Deployment, Listing, Licensee, GlobalCustomer, PriceList, Problem,
  Found, fail_row, one_authorization, get_authorization, one_price_list, local_price_list,
  get_price_list_id, known_listing, created_listing, one_listing, get_listing, created_agreement,
  create_with_contact, create_gc_agreement_deployment, agreement_for,
}

-- What no step changes, up to a failure: the deployment, its customer and its status.
abbrev fixed : Deployment → String × String × String
fixed d = (d.deployment_id, d.customer_id, d.status)

abbrev pub Same : Deployment → World → Type 0
Same d w = fixed w.row ≡ fixed d

-- A step has a value and has changed nothing of that, or has failed the row.
pub data Step (A : Type 0) (d : Deployment) : Found A → Type 0 where
  found : {w : World} {a : A} → Same d w → Step A d (w, some a)
  failed : {w : World} → w.saved.status ≡ "error" → Step A d (w, none)

fail_row-Step :
    (A : Type 0) (d : Deployment) (reason : Problem) (w : World)
    → Step A d (fail_row reason w, none)
unfolding fail_row
fail_row-Step A d reason w = failed refl

module _ (outside : Outside) where
  pub get_authorization-Step :
      (d : Deployment) (w : World) → Same d w → Step String d (get_authorization outside w)
  unfolding get_authorization
  get_authorization-Step d w h = elim (Bool-cases (is_blank w.row.authorization_id)) [
    | inl e ↦ rw e (by_reply (outside.get_authorizations w.row))
    | inr e ↦ rw e (found h)
  ]
    where
      by_reply : (r : Reply (List String)) → Step String d (one_authorization outside w r)
      by_reply (raises e) = fail_row-Step String d _ w
      by_reply (ok []) = fail_row-Step String d _ w
      by_reply (ok (a ∷ [])) = found h
      by_reply (ok (a ∷ b ∷ rest)) = fail_row-Step String d _ w

  pub get_price_list_id-Step :
      (d : Deployment) (w : World) → Same d w → Step String d (get_price_list_id outside w)
  unfolding get_price_list_id
  get_price_list_id-Step d w h = elim (Bool-cases (is_blank w.row.price_list_id)) [
    | inl e ↦ rw e (by_reply (outside.get_price_lists w.row))
    | inr e ↦ rw e (found h)
  ]
    where
      by_local : (all ps : List PriceList) → Step String d (one_price_list outside w all ps)
      by_local all [] = fail_row-Step String d _ w
      by_local all (p ∷ []) = found h
      by_local all (p ∷ q ∷ rest) = fail_row-Step String d _ w

      by_reply : (r : Reply (List PriceList)) → Step String d (local_price_list outside w r)
      by_reply (raises e) = fail_row-Step String d _ w
      by_reply (ok price_lists) =
          by_local price_lists (keep (λ p. outside.is_local w.row p.vendor) price_lists)

  -- A step that may raise.
  pub data MayRaise (d : Deployment) : Reply (Found Listing) → Type 0 where
    raised : {e : Exception} → MayRaise d (raises e)
    answered : {f : Found Listing} → Step Listing d f → MayRaise d (ok f)

  pub get_listing-MayRaise :
      (d : Deployment) (w : World) (a p : String)
      → Same d w
      → MayRaise d (get_listing outside w a p)
  unfolding get_listing
  get_listing-MayRaise d w a p h = elim (Bool-cases (is_blank w.row.listing_id)) [
    | inl e ↦ rw e (by_listings (outside.get_listings w.row p a))
    | inr e ↦ rw e (by_listing (outside.get_listing_by_id w.row.listing_id))
  ]
    where
      by_listing : (r : Reply Listing) → MayRaise d (known_listing outside w r)
      by_listing (raises e) = raised
      by_listing (ok l) = answered (found h)

      by_created : (r : Reply Listing) → MayRaise d (created_listing outside w r)
      by_created (raises e) = answered (fail_row-Step Listing d _ w)
      by_created (ok l) = answered (found h)

      by_listings : (r : Reply (List Listing)) → MayRaise d (one_listing outside w a p r)
      by_listings (raises e) = answered (fail_row-Step Listing d _ w)
      by_listings (ok []) = by_created (outside.create_listing w.row a p)
      by_listings (ok (l ∷ [])) = answered (found h)
      by_listings (ok (l ∷ m ∷ rest)) = answered (fail_row-Step Listing d _ w)

  pub create_gc_agreement_deployment-Step :
      (d : Deployment) (w : World) (c : GlobalCustomer) (ds : List String) (l : Listing)
      (licensee : Licensee)
      → Same d w
      → Step String d (create_gc_agreement_deployment outside w c ds l licensee)
  unfolding create_gc_agreement_deployment
  create_gc_agreement_deployment-Step d w c ds l licensee h =
      elim (Bool-cases (is_blank w.row.agreement_id)) [
        | inl e ↦ rw e (by_contact c.contact_emails)
        | inr e ↦ rw e (found h)
      ]
    where
      by_reply :
          (a : NewAgreement) (r : Reply String) → Step String d (created_agreement outside w a r)
      by_reply a (raises e) = fail_row-Step String d _ w
      by_reply a (ok id) = found h

      by_contact :
          (emails : List String)
          → Step String d (create_with_contact outside w c emails ds l licensee)
      by_contact [] = fail_row-Step String d _ w
      by_contact (email ∷ rest) =
          by_reply (agreement_for outside w.row c email ds l licensee)
            (outside.create_agreement (agreement_for outside w.row c email ds l licensee))
