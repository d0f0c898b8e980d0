-- ===== src/Deployments.antt =====
-- adobe_vipm/flows/global_customer.py: the agreements of the deployments of a global customer. A
-- deployment is a row of the table in adobe_vipm/airtable/models.py; `row` is the copy that the
-- functions change, `saved` the row as it was last saved.
pub mod Process
pub mod Recorded
pub mod Failing
pub mod Finished
use swo_adobe_vipm_extension.Base.{
  ℕ, String, Option, none, some, List, [], ◌∷◌, ◌++◌, map, Bool, true, false, ◌==◌, ◌&&◌,
  if◌then◌else◌, keep, any, is_blank,
}
use swo_adobe_vipm_extension.Context.{Exception, index_error, Reply, ok, raises}
use swo_adobe_vipm_extension.Customer.{AdobeSubscription}

-- What `error_description` says.
pub data Problem : Type 0 where
  no_problem no_authorizations no_price_list : Problem
  getting_authorization getting_price_list getting_listings : Exception → Problem
  several_authorizations several_price_lists several_listings : List String → Problem
  creating_listing creating_agreement getting_subscriptions processing : Exception → Problem

-- The model class `GCAgreementDeployment`.
pub record Deployment : Type 0 where
  pub deployment_id : String
  pub main_agreement_id : String
  pub account_id : String
  pub seller_id : String
  pub product_id : String
  pub membership_id : String
  pub status : String
  pub customer_id : String
  pub deployment_currency : String
  pub deployment_country : String
  pub licensee_id : String
  pub agreement_id : String
  pub authorization_id : String
  pub price_list_id : String
  pub listing_id : String
  pub error_description : Problem

pub record PriceList : Type 0 where
  pub id : String
  pub vendor : String

pub record Listing : Type 0 where
  pub id : String
  pub product_name : String
  pub vendor_id : String

pub record Licensee : Type 0 where
  pub buyer_id : String
  pub account_name : String

-- What the agreement takes of Adobe's customer.
pub record GlobalCustomer : Type 0 where
  pub customer_id : String
  pub company_name : String
  pub contact_emails : List String

pub record ProductItem : Type 0 where
  pub id : String
  pub vendor : String
  pub is_one_time : Bool

-- The agreement that is created: the fields that say for whom and what it is.
pub record NewAgreement : Type 0 where
  pub listing_id : String
  pub product_id : String
  pub authorization_id : String
  pub client_id : String
  pub licensee_id : String
  pub buyer_id : String
  pub seller_id : String
  pub vendor_id : String
  pub external_id : String
  pub membership_id : String
  pub deployment_id : String
  pub company_name : String
  pub contact_email : String
  pub deployments : List String

-- An asset or a subscription that is created.
pub record Created : Type 0 where
  pub agreement_id : String
  pub external_id : String
  pub sku : String
  pub quantity : ℕ
  pub item_id : String
  pub price : Option ℕ

pub record World : Type 0 where
  pub row : Deployment
  pub saved : Deployment
  pub listings : List String
  pub agreements : List NewAgreement
  pub assets : List Created
  pub subscriptions : List Created
  pub renewals : List String

-- The platform and Adobe; an answer may be any exception. `is_local` tests the vendor id of a price list
-- for the region and the currency.
pub record Outside : Type 0 where
  pub get_authorizations : Deployment → Reply (List String)
  pub get_price_lists : Deployment → Reply (List PriceList)
  pub is_local : Deployment → String → Bool
  pub get_listing_by_id : String → Reply Listing
  pub get_listings : Deployment → String → String → Reply (List Listing)
  pub create_listing : Deployment → String → String → Reply Listing
  pub get_licensee : String → Reply Licensee
  pub get_agreement : String → Reply {0} Unit
  pub get_customer : String → String → Reply GlobalCustomer
  pub get_deployments : String → String → Reply (List String)
  pub create_agreement : NewAgreement → Reply String
  pub update_agreement : String → String → Reply {0} Unit
  pub get_subscriptions : String → String → Reply (List AdobeSubscription)
  pub get_product_items : List String → Reply (List ProductItem)
  pub price_of : AdobeSubscription → Reply (Option ℕ)
  pub enable_renewal : AdobeSubscription → Reply AdobeSubscription
  pub create_asset : Created → Reply {0} Unit
  pub create_subscription : Created → Reply {0} Unit

abbrev pub save : World → World
save w = record w { saved = w.row }

-- The status `error` with its description, saved.
unfoldable pub fail_row : Problem → World → World
fail_row problem w =
    save (record w { row = record (w.row) { status = "error"; error_description = problem } })

-- The world and the value, none where the caller returns.
abbrev pub Found : Type 0 → Type 0
Found A = World × Option A

module _ (outside : Outside) where
  -- `get_authorization`
  abbrev pub one_authorization : World → Reply (List String) → Found String
  one_authorization w (raises e) = (fail_row (getting_authorization e) w, none)
  one_authorization w (ok []) = (fail_row no_authorizations w, none)
  one_authorization w (ok (a ∷ [])) =
      (save (record w { row = record (w.row) { authorization_id = a } }), some a)
  one_authorization w (ok (a ∷ b ∷ rest)) =
      (fail_row (several_authorizations (a ∷ b ∷ rest)) w, none)

  unfoldable pub get_authorization : World → Found String
  unfolding fail_row
  get_authorization w =
      if is_blank w.row.authorization_id
      then one_authorization w (outside.get_authorizations w.row)
      else (w, some w.row.authorization_id)

  -- `get_price_list_id`
  abbrev pub one_price_list : World → List PriceList → List PriceList → Found String
  one_price_list w price_lists [] = (fail_row no_price_list w, none)
  one_price_list w price_lists (p ∷ []) =
      (save (record w { row = record (w.row) { price_list_id = p.id } }), some p.id)
  one_price_list w price_lists (p ∷ q ∷ rest) =
      (fail_row (several_price_lists (map (λ p. p.id) price_lists)) w, none)

  abbrev pub local_price_list : World → Reply (List PriceList) → Found String
  local_price_list w (raises e) = (fail_row (getting_price_list e) w, none)
  local_price_list w (ok price_lists) =
      one_price_list w price_lists (keep (λ p. outside.is_local w.row p.vendor) price_lists)

  unfoldable pub get_price_list_id : World → Found String
  unfolding fail_row
  get_price_list_id w =
      if is_blank w.row.price_list_id
      then local_price_list w (outside.get_price_lists w.row)
      else (w, some w.row.price_list_id)

  -- `get_listing`, which may raise where the id is known
  abbrev pub with_listing : World → Listing → Reply (Found Listing)
  with_listing w listing =
      ok (save (record w { row = record (w.row) { listing_id = listing.id } }), some listing)

  abbrev pub created_listing : World → Reply Listing → Reply (Found Listing)
  created_listing w (raises e) = ok (fail_row (creating_listing e) w, none)
  created_listing w (ok listing) =
      with_listing (record w { listings = w.listings ++ listing.id ∷ [] }) listing

  abbrev pub one_listing : World → String → String → Reply (List Listing) → Reply (Found Listing)
  one_listing w authorization_id price_list_id (raises e) =
      ok (fail_row (getting_listings e) w, none)
  one_listing w authorization_id price_list_id (ok []) =
      created_listing w (outside.create_listing w.row authorization_id price_list_id)
  one_listing w authorization_id price_list_id (ok (l ∷ [])) = with_listing w l
  one_listing w authorization_id price_list_id (ok (l ∷ m ∷ rest)) =
      ok (fail_row (several_listings (map (λ l. l.id) (l ∷ m ∷ rest))) w, none)

  abbrev pub known_listing : World → Reply Listing → Reply (Found Listing)
  known_listing w (ok listing) = ok (w, some listing)
  known_listing w (raises e) = raises e

  unfoldable pub get_listing : World → String → String → Reply (Found Listing)
  unfolding fail_row
  get_listing w authorization_id price_list_id =
      if is_blank w.row.listing_id
      then one_listing w authorization_id price_list_id
          (outside.get_listings w.row price_list_id authorization_id)
      else known_listing w (outside.get_listing_by_id w.row.listing_id)

  abbrev pub agreement_for :
      Deployment → GlobalCustomer → String → List String → Listing → Licensee → NewAgreement
  agreement_for d customer email deployments listing licensee = record {
    listing_id = d.listing_id;
    product_id = d.product_id;
    authorization_id = d.authorization_id;
    client_id = d.account_id;
    licensee_id = d.licensee_id;
    buyer_id = licensee.buyer_id;
    seller_id = d.seller_id;
    vendor_id = listing.vendor_id;
    external_id = customer.customer_id;
    membership_id = d.membership_id;
    deployment_id = d.deployment_id;
    company_name = customer.company_name;
    contact_email = email;
    deployments = deployments;
  }

  abbrev pub created_agreement : World → NewAgreement → Reply String → Found String
  created_agreement w agreement (raises e) = (fail_row (creating_agreement e) w, none)
  created_agreement w agreement (ok id) = (
    save (record w {
      row = record (w.row) { agreement_id = id };
      agreements = w.agreements ++ agreement ∷ [];
    }),
    some id,
  )

  abbrev pub create_with_contact :
      World → GlobalCustomer → List String → List String → Listing → Licensee → Found String
  create_with_contact w customer [] deployments listing licensee =
      (fail_row (creating_agreement index_error) w, none)
  create_with_contact w customer (email ∷ rest) deployments listing licensee =
      let agreement = agreement_for w.row customer email deployments listing licensee in
      created_agreement w agreement (outside.create_agreement agreement)

  -- `create_gc_agreement_deployment`
  unfoldable pub create_gc_agreement_deployment :
      World → GlobalCustomer → List String → Listing → Licensee → Found String
  unfolding fail_row
  create_gc_agreement_deployment w customer deployments listing licensee =
      if is_blank w.row.agreement_id
      then create_with_contact w customer customer.contact_emails deployments listing licensee
      else (w, some w.row.agreement_id)

  -- `get_adobe_subscriptions_by_deployment`
  abbrev pub of_deployment : String → AdobeSubscription → Bool
  of_deployment id s = elim (s.deployment_id) [ none ↦ id == "" | some d ↦ d == id ]

  abbrev pub subscriptions_of :
      World → Reply (List AdobeSubscription) → Found (List AdobeSubscription)
  subscriptions_of w (raises e) = (fail_row (getting_subscriptions e) w, none)
  subscriptions_of w (ok subscriptions) =
      (w, some (keep (of_deployment w.row.deployment_id) subscriptions))

  unfoldable pub get_adobe_subscriptions_by_deployment :
      World → String → Found (List AdobeSubscription)
  unfolding fail_row
  get_adobe_subscriptions_by_deployment w authorization_id =
      subscriptions_of w (outside.get_subscriptions authorization_id w.row.customer_id)
