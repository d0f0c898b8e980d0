-- ===== src/Examples/Deployments.antt =====
-- A deployment with one active subscription, whose agreement is created in one run.
use swo_adobe_vipm_extension.Base.{refl, sym, ap, String, some, [], ◌∷◌, true, false}
use swo_adobe_vipm_extension.Context.{Reply, ok, raises}
use swo_adobe_vipm_extension.Customer.{AdobeSubscription}
use swo_adobe_vipm_extension.Deployments.{World, Outside, Deployment, no_problem}
use swo_adobe_vipm_extension.Deployments.Process.{process_agreement_deployment}
use swo_adobe_vipm_extension.Deployments.Recorded.{KeepsIds}
use swo_adobe_vipm_extension.Deployments.Finished.{
  IsProcessed, process_agreement_deployment-IsProcessed,
}
use swo_adobe_vipm_extension.Examples.Data.{the_subscription}

abbrev pending : Deployment
pending = record {
  deployment_id = "";
  main_agreement_id = "AGR-1";
  account_id = "ACC-1";
  seller_id = "SEL-1";
  product_id = "PRD-1";
  membership_id = "M-1";
  status = "pending";
  customer_id = "a-customer";
  deployment_currency = "EUR";
  deployment_country = "DE";
  licensee_id = "LC-1";
  agreement_id = "";
  authorization_id = "";
  price_list_id = "";
  listing_id = "";
  error_description = no_problem;
}

abbrev before : World
before = record {
  row = pending;
  saved = pending;
  listings = [];
  agreements = [];
  assets = [];
  subscriptions = [];
  renewals = [];
}

abbrev platform : Outside
platform = record {
  get_authorizations = λ d. ok ("AUT-1" ∷ []);
  get_price_lists = λ d. ok (record { id = "PRC-1"; vendor = "emea-eur" } ∷ []);
  is_local = λ d vendor. true;
  get_listing_by_id = λ id. ok (record { id = id; product_name = "Adobe"; vendor_id = "VND-1" });
  get_listings = λ d p a. ok [];
  create_listing =
      λ d a p. ok (record { id = "LST-1"; product_name = "Adobe"; vendor_id = "VND-1" });
  get_licensee = λ id. ok (record { buyer_id = "BUY-1"; account_name = "ACME" });
  get_agreement = λ id. ok tt;
  get_customer = λ a c.
      ok (record {
        customer_id = c;
        company_name = "ACME";
        contact_emails = "ana@example.com" ∷ [];
      });
  get_deployments = λ a c. ok [];
  create_agreement = λ a. ok "AGR-2";
  update_agreement = λ a c. ok tt;
  get_subscriptions = λ a c. ok (the_subscription ∷ []);
  get_product_items =
      λ skus. ok (record { id = "ITM-1"; vendor = "65304578CA"; is_one_time = false } ∷ []);
  price_of = λ s. ok (some 10);
  enable_renewal = λ s. ok (record s { auto_renewal = true });
  create_asset = λ c. ok tt;
  create_subscription = λ c. ok tt;
}

abbrev id_of : Reply AdobeSubscription → String
id_of (ok s) = s.subscription_id
id_of (raises e) = ""

keeps : KeepsIds platform
keeps s s2 e = sym (ap id_of e)

process_agreement_deployment-IsProcessed_example :
    IsProcessed platform pending (process_agreement_deployment platform before)
process_agreement_deployment-IsProcessed_example =
    process_agreement_deployment-IsProcessed platform before keeps refl
