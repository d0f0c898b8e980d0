-- ===== src/Migration/Check.antt =====
-- `check_running_transfers_for_product`: the transfers that Adobe has been asked for are polled, and
-- completed with the customer's data.
use swo_adobe_vipm_extension.Base.{
  String, Option, none, some, List, [], ◌∷◌, ◌++◌, Bool, ◌==◌, ◌||◌, ◌&&◌, if◌then◌else◌, any,
  lower_is,
}
use swo_adobe_vipm_extension.Customer.{
  Customer, Commitment, MinimumQuantity, AdobeSubscription, get_3yc_commitment,
}
use swo_adobe_vipm_extension.Context.{
  adobe_api, authorization_not_found, airtable_http, index_error, Reply, ok, raises,
}
use swo_adobe_vipm_extension.Migration.{
  World, Transfer, MainAgreement, Outside, Profile, Address, Contact, AdobeTransfer,
  unexpected_status, error_text, save, notify, send_error, send_exception, check_retries,
  error_message, with_adobe_error, get_transfers_to_check,
}
use swo_adobe_vipm_extension.Migration.Start.{Run, each}

-- `d.get(key, "")`
abbrev pub or_blank : Option String → String
or_blank none = ""
or_blank (some s) = s

abbrev pub no_address : Address
no_address = record {
  address_line_1 = none;
  address_line_2 = none;
  city = none;
  region = none;
  postal_code = none;
  country = none;
  phone_number = none;
}

abbrev pub address_of : Option Address → Address
address_of none = no_address
address_of (some a) = a

unfoldable pub fill_company : Profile → Address → Transfer → Transfer
fill_company profile a transfer = record transfer {
  customer_company_name = profile.company_name;
  customer_preferred_language = profile.preferred_language;
  customer_address_address_line_1 = or_blank a.address_line_1;
  customer_address_address_line_2 = or_blank a.address_line_2;
  customer_address_city = or_blank a.city;
  customer_address_region = or_blank a.region;
  customer_address_postal_code = or_blank a.postal_code;
  customer_address_country = or_blank a.country;
  customer_address_phone_number = or_blank a.phone_number;
}

unfoldable pub fill_contact : Contact → Transfer → Transfer
fill_contact c transfer = record transfer {
  customer_contact_first_name = c.first_name;
  customer_contact_last_name = c.last_name;
  customer_contact_email = c.email;
  customer_contact_phone_number = c.phone_number;
}

-- An attribute that the model does not have is not a column.
unfoldable pub fill_quantity : MinimumQuantity → Transfer → Transfer
fill_quantity mq transfer =
    if lower_is mq.offer_type "license"
    then record transfer { customer_benefits_3yc_minimum_quantity_license = some mq.quantity }
    else if lower_is mq.offer_type "consumables"
    then record transfer { customer_benefits_3yc_minimum_quantity_consumables = some mq.quantity }
    else transfer

abbrev pub fill_quantities : List MinimumQuantity → Transfer → Transfer
fill_quantities [] transfer = transfer
fill_quantities (mq ∷ mqs) transfer = fill_quantities mqs (fill_quantity mq transfer)

abbrev pub fill_dates : Commitment → Transfer → Transfer
fill_dates c transfer = record transfer {
  customer_benefits_3yc_start_date = some c.start_date;
  customer_benefits_3yc_end_date = some c.end_date;
  customer_benefits_3yc_status = c.status;
}

unfoldable pub fill_commitment : Option Commitment → Transfer → Transfer
fill_commitment none transfer = transfer
fill_commitment (some c) transfer = fill_quantities c.minimum_quantities (fill_dates c transfer)

-- `fill_customer_data`
unfoldable pub fill_customer_data : Transfer → Profile → List Contact → Reply Transfer
unfolding fill_company fill_contact fill_commitment fill_quantity get_3yc_commitment lower_is
fill_customer_data transfer profile [] = raises index_error
fill_customer_data transfer profile (c ∷ contacts) = ok (
    fill_commitment (get_3yc_commitment profile.customer)
      (fill_contact c (fill_company profile (address_of profile.address) transfer)))

-- `get_gc_main_agreement`, as a test
abbrev pub has_gc_main_agreement : String → String → World → Bool
has_gc_main_agreement authorization_uk id w =
    any
      (λ a.
        a.authorization_uk == authorization_uk && (a.membership_id == id || a.customer_id == id))
      w.main_agreements

abbrev pub main_agreement_of : Transfer → MainAgreement
main_agreement_of t = record {
  membership_id = t.membership_id;
  transfer_id = t.transfer_id;
  customer_id = t.customer_id;
  status = "pending";
  authorization_uk = t.authorization_uk;
}

abbrev pub with_customer : String → Transfer → Transfer
with_customer customer_id t = record t { customer_id = customer_id }

module _ (outside : Outside) where
  -- The creation of the main agreement, with its `try`.
  unfoldable pub save_gc_main_agreement : MainAgreement → World → Reply {0} Unit → Run
  unfolding notify
  save_gc_main_agreement a w (ok tt) =
      (record w { main_agreements = w.main_agreements ++ a ∷ [] }, none)
  save_gc_main_agreement a w (raises (airtable_http text)) =
      (notify (send_error "Error saving Global Customer Main Agreement") w, none)
  save_gc_main_agreement a w (raises e) = (w, some e)

  unfoldable pub ensure_gc_main_agreement : Transfer → Customer → World → Run
  unfolding save_gc_main_agreement
  ensure_gc_main_agreement t customer w =
      if customer.global_sales_enabled
      then if has_gc_main_agreement t.authorization_uk t.membership_id w
        then (w, none)
        else save_gc_main_agreement (main_agreement_of t) w
            (outside.create_gc_main_agreement (main_agreement_of t))
      else (w, none)

  -- `_update_subscriptions`
  abbrev pub after_update : String → (World → Run) → World → Reply {0} Unit → Run
  after_update id rest w (ok tt) = rest (record w { not_renewed = w.not_renewed ++ id ∷ [] })
  after_update id rest w (raises e) = (w, some e)

  abbrev pub update_subscriptions : Transfer → List AdobeSubscription → World → Run
  update_subscriptions t [] w = (w, none)
  update_subscriptions t (s ∷ subscriptions) w =
      if s.status == "1000"
      then after_update s.subscription_id (update_subscriptions t subscriptions) w
          (outside.update_subscription t.authorization_uk t.customer_id s.subscription_id)
      else update_subscriptions t subscriptions w

  -- From `terminate_contract` on.
  unfoldable pub complete : Transfer → Bool × String → World → World
  unfolding save
  complete t (terminated, response) w =
      save
        (record t {
          nav_terminated = terminated;
          nav_error = if terminated then t.nav_error else response;
          status = "completed";
          updated_at = outside.now;
          completed_at = some outside.now;
        })
        w

  abbrev pub terminated_nav : Transfer → Bool × String
  terminated_nav t = outside.terminate_contract t.nav_cco

  unfoldable pub after_subscriptions : Transfer → Run → Run
  unfolding complete check_retries
  after_subscriptions t (w, none) = (complete t (terminated_nav t) w, none)
  after_subscriptions t (w, some (adobe_api code message details)) =
      (check_retries outside (with_adobe_error code (error_message code message details) t) w, none)
  after_subscriptions t (w, some e) = (w, some e)

  -- `client.get_subscriptions` is called outside of the `try`.
  unfoldable pub stop_renewals : Transfer → World → Reply (List AdobeSubscription) → Run
  unfolding after_subscriptions
  stop_renewals t w (ok subscriptions) =
      after_subscriptions t (update_subscriptions t subscriptions w)
  stop_renewals t w (raises e) = (w, some e)

  unfoldable pub after_agreement : Transfer → Run → Run
  unfolding stop_renewals complete
  after_agreement t (w, none) =
      if t.customer_benefits_3yc_status == "COMMITTED"
      then (complete t (terminated_nav t) w, none)
      else stop_renewals t w (outside.get_subscriptions t.authorization_uk t.customer_id)
  after_agreement t (w, some e) = (w, some e)

  unfoldable pub after_fill : World → Customer → Reply Transfer → Run
  unfolding after_agreement ensure_gc_main_agreement
  after_fill w customer (ok t) = after_agreement t (ensure_gc_main_agreement t customer w)
  after_fill w customer (raises e) = (w, some e)

  unfoldable pub after_customer : Transfer → World → Reply Profile → Run
  unfolding after_fill check_retries fill_customer_data
  after_customer t w (ok profile) =
      after_fill w profile.customer (fill_customer_data t profile profile.contacts)
  after_customer t w (raises (adobe_api code message details)) =
      (check_retries outside (with_adobe_error code (error_message code message details) t) w, none)
  after_customer t w (raises e) = (w, some e)

  unfoldable pub fail_unexpected : Transfer → String → World → World
  unfolding save notify
  fail_unexpected t status w = notify (send_exception "Unexpected status retrieving a transfer.") (
      save
        (record t {
          migration_error_description = unexpected_status status;
          status = "failed";
          updated_at = outside.now;
        })
        w)

  unfoldable pub fail_configuration : Transfer → String → World → World
  unfolding save
  fail_configuration t text w =
      save
        (record t {
          status = "failed";
          migration_error_description = error_text text;
          updated_at = outside.now;
        })
        w

  unfoldable pub after_transfer : Transfer → World → Reply AdobeTransfer → Run
  unfolding after_customer check_retries fail_unexpected fail_configuration
  after_transfer t w (ok adobe_transfer) =
      if adobe_transfer.status == "1002"
      then (check_retries outside t w, none)
      else if adobe_transfer.status == "1000"
      then after_customer (with_customer adobe_transfer.customer_id t) w
          (outside.get_customer t.authorization_uk adobe_transfer.customer_id)
      else (fail_unexpected t adobe_transfer.status w, none)
  after_transfer t w (raises (adobe_api code message details)) =
      (check_retries outside (with_adobe_error code (error_message code message details) t) w, none)
  after_transfer t w (raises (authorization_not_found text)) = (fail_configuration t text w, none)
  after_transfer t w (raises e) = (w, some e)

  unfoldable pub check_transfer : Transfer → World → Run
  unfolding after_transfer
  check_transfer t w =
      after_transfer t w (outside.get_transfer t.authorization_uk t.membership_id t.transfer_id)

  unfoldable pub check_running_transfers_for_product : World → Run
  unfolding check_transfer get_transfers_to_check
  check_running_transfers_for_product w = each check_transfer (get_transfers_to_check w) w
