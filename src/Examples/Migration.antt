-- ===== src/Examples/Migration.antt =====
-- One membership on its way: started, polled until it has settled, with Adobe's answers given.
use swo_adobe_vipm_extension.Base.{
  ℕ, ◌≡◌, refl, String, none, some, List, [], ◌∷◌, true, false, arith,
}
use swo_adobe_vipm_extension.Context.{ok, raises, transport}
use swo_adobe_vipm_extension.Migration.{
  Transfer, World, Outside, PreviewedOffer, no_description, default_max_reschedules,
}
use swo_adobe_vipm_extension.Migration.Start.{
  start_transfers_for_product, populate_offers_for_transfer,
}
use swo_adobe_vipm_extension.Migration.Check.{check_running_transfers_for_product}
use swo_adobe_vipm_extension.Migration.Table.{find_row}
use swo_adobe_vipm_extension.Migration.Started.{StartedRow, start_transfers_for_product-StartedRow}
use swo_adobe_vipm_extension.Migration.Edges.{
  PolledRow, check_running_transfers_for_product-PolledRow,
}
use swo_adobe_vipm_extension.Migration.Retries.{polls, IsSettled, polls-IsSettled}
use swo_adobe_vipm_extension.Migration.Offers.{populate_offers_for_transfer_twice}

abbrev pub member : String → Transfer
member status = record {
  record_id = "rec-1";
  membership_id = "M-1";
  authorization_uk = "AUT-1";
  seller_uk = "SEL-1";
  nav_cco = "CCO-1";
  transfer_id = "";
  customer_id = "";
  customer_company_name = "";
  customer_preferred_language = "";
  customer_address_address_line_1 = "";
  customer_address_address_line_2 = "";
  customer_address_city = "";
  customer_address_region = "";
  customer_address_postal_code = "";
  customer_address_country = "";
  customer_address_phone_number = "";
  customer_contact_first_name = "";
  customer_contact_last_name = "";
  customer_contact_email = "";
  customer_contact_phone_number = none;
  customer_benefits_3yc_start_date = none;
  customer_benefits_3yc_end_date = none;
  customer_benefits_3yc_status = "";
  customer_benefits_3yc_minimum_quantity_license = none;
  customer_benefits_3yc_minimum_quantity_consumables = none;
  adobe_error_code = "";
  adobe_error_description = "";
  retry_count = 0;
  reschedule_count = 0;
  nav_terminated = false;
  nav_error = "";
  status = status;
  migration_error_description = no_description;
  updated_at = 0;
  completed_at = none;
}

abbrev world : String → World
world status = record {
  transfers = member status ∷ [];
  offers = [];
  main_agreements = [];
  notifications = [];
  not_renewed = [];
}

abbrev items : List PreviewedOffer
items = record { offer_id = "65304578CA"; quantity = 3; renewal_date = 400 } ∷ []

abbrev slow_adobe : ℕ → Outside
slow_adobe now = record {
  now = now;
  max_retries = 2;
  max_reschedules = default_max_reschedules;
  preview_transfer = λ a m. ok (some items);
  create_transfer = λ a s r m. ok (some "TRA-1");
  get_transfer = λ a m t. ok (record { status = "1002"; customer_id = "" });
  get_customer = λ a c. raises (transport "get_customer");
  get_subscriptions = λ a c. ok [];
  update_subscription = λ a c s. ok tt;
  terminate_contract = λ c. (true, "");
  create_gc_main_agreement = λ a. ok tt;
}

check_running_transfers_for_product-PolledRow_example :
    PolledRow
      (slow_adobe 1)
      (member "running")
      (check_running_transfers_for_product (slow_adobe 1) (world "running")).1
      (find_row "rec-1"
        (check_running_transfers_for_product (slow_adobe 1) (world "running")).0.transfers)
check_running_transfers_for_product-PolledRow_example =
    check_running_transfers_for_product-PolledRow (slow_adobe 1) (world "running") "rec-1"
      (member "running") (refl, tt) refl

start_transfers_for_product-StartedRow_example :
    StartedRow
      (slow_adobe 1)
      (member "init")
      (start_transfers_for_product (slow_adobe 1) (world "init")).1
      (find_row "rec-1" (start_transfers_for_product (slow_adobe 1) (world "init")).0.transfers)
start_transfers_for_product-StartedRow_example =
    start_transfers_for_product-StartedRow (slow_adobe 1) (world "init") "rec-1" (member "init")
      (refl, tt) refl

polls-IsSettled_example :
    IsSettled
      (find_row "rec-1" (polls (slow_adobe 1 ∷ slow_adobe 2 ∷ []) (world "running")).0.transfers)
unfolding polls check_running_transfers_for_product
polls-IsSettled_example =
    polls-IsSettled 2 (slow_adobe 1 ∷ slow_adobe 2 ∷ []) (world "running") "rec-1"
      (member "running") (refl, (refl, tt)) (refl, tt) refl refl (omega arith) (omega arith) refl

populate_offers_for_transfer_twice_example :
    populate_offers_for_transfer
      (member "init")
      items
      (populate_offers_for_transfer (member "init") items (world "init"))
    ≡ populate_offers_for_transfer (member "init") items (world "init")
populate_offers_for_transfer_twice_example =
    populate_offers_for_transfer_twice (member "init") items (world "init")
