-- ===== src/Migration.antt =====
-- adobe_vipm/flows/migration.py with its tables in adobe_vipm/airtable/models.py: the transfers of
-- memberships to the marketplace. A transfer that a function holds is a copy of its row; `save`
-- writes the copy back. A saved column of a number is never blank.
pub mod Start
pub mod Check
pub mod Table
pub mod Loop
pub mod Polled
pub mod Untouched
pub mod Saved
pub mod Started
pub mod Edges
pub mod Retries
pub mod Offers
use swo_adobe_vipm_extension.Base.{
  ℕ, ◌+◌, String, Option, none, some, List, [], ◌∷◌, ◌++◌, map, Bool, true, false, ◌==◌, ◌||◌, ltb,
  if◌then◌else◌, any, keep, contains, is_blank, append_text, occurs_in_text, not,
}
use swo_adobe_vipm_extension.Customer.{Customer, AdobeSubscription}
use swo_adobe_vipm_extension.Context.{Exception, adobe_api, Reply}

-- What `migration_error_description` says.
pub data Description : Type 0 where
  no_description : Description
  max_retries_exceeded max_reschedules_exceeded : ℕ → Description
  transient_preview_error : Description
  preview_error creation_error : String → Description
  unexpected_status : String → Description
  error_text : String → Description

-- The model class `Transfer`.
pub record Transfer : Type 0 where
  pub record_id : String
  pub membership_id : String
  pub authorization_uk : String
  pub seller_uk : String
  pub nav_cco : String
  pub transfer_id : String
  pub customer_id : String
  pub customer_company_name : String
  pub customer_preferred_language : String
  pub customer_address_address_line_1 : String
  pub customer_address_address_line_2 : String
  pub customer_address_city : String
  pub customer_address_region : String
  pub customer_address_postal_code : String
  pub customer_address_country : String
  pub customer_address_phone_number : String
  pub customer_contact_first_name : String
  pub customer_contact_last_name : String
  pub customer_contact_email : String
  pub customer_contact_phone_number : Option String
  pub customer_benefits_3yc_start_date : Option ℕ
  pub customer_benefits_3yc_end_date : Option ℕ
  pub customer_benefits_3yc_status : String
  pub customer_benefits_3yc_minimum_quantity_license : Option ℕ
  pub customer_benefits_3yc_minimum_quantity_consumables : Option ℕ
  pub adobe_error_code : String
  pub adobe_error_description : String
  pub retry_count : ℕ
  pub reschedule_count : ℕ
  pub nav_terminated : Bool
  pub nav_error : String
  pub status : String
  pub migration_error_description : Description
  pub updated_at : ℕ
  pub completed_at : Option ℕ

-- The model class `Offer`, with the membership of its transfer.
pub record Offer : Type 0 where
  pub membership_id : String
  pub offer_id : String
  pub quantity : ℕ
  pub renewal_date : ℕ

-- What `create_gc_main_agreement` is given.
pub record MainAgreement : Type 0 where
  pub membership_id : String
  pub transfer_id : String
  pub customer_id : String
  pub status : String
  pub authorization_uk : String

-- A chat message, by its function and title.
pub data Notification : Type 0 where
  send_error send_warning send_exception : String → Notification

-- The tables of one product, and what has been sent: messages and subscriptions whose automatic
-- renewal was switched off.
pub record World : Type 0 where
  pub transfers : List Transfer
  pub offers : List Offer
  pub main_agreements : List MainAgreement
  pub notifications : List Notification
  pub not_renewed : List String

pub record PreviewedOffer : Type 0 where
  pub offer_id : String
  pub quantity : ℕ
  pub renewal_date : ℕ

pub record Address : Type 0 where
  pub address_line_1 : Option String
  pub address_line_2 : Option String
  pub city : Option String
  pub region : Option String
  pub postal_code : Option String
  pub country : Option String
  pub phone_number : Option String

pub record Contact : Type 0 where
  pub first_name : String
  pub last_name : String
  pub email : String
  pub phone_number : Option String

-- A customer of Adobe's with its company profile.
pub record Profile : Type 0 where
  pub customer : Customer
  pub company_name : String
  pub preferred_language : String
  pub address : Option Address
  pub contacts : List Contact

pub record AdobeTransfer : Type 0 where
  pub status : String
  pub customer_id : String

-- Adobe's client, the contracts of Navision, the settings and the clock. The arguments are in the order
-- of the source's. An empty answer to the first two is `none`.
pub record Outside : Type 0 where
  pub now : ℕ
  pub max_retries : ℕ
  pub max_reschedules : ℕ
  pub preview_transfer : String → String → Reply (Option (List PreviewedOffer))
  pub create_transfer : String → String → String → String → Reply (Option String)
  pub get_transfer : String → String → String → Reply AdobeTransfer
  pub get_customer : String → String → Reply Profile
  pub get_subscriptions : String → String → Reply (List AdobeSubscription)
  pub update_subscription : String → String → String → Reply {0} Unit
  pub terminate_contract : String → Bool × String
  pub create_gc_main_agreement : MainAgreement → Reply {0} Unit

-- The values where the settings have none.
abbrev pub default_max_retries : ℕ
default_max_retries = 15

abbrev pub default_max_reschedules : ℕ
default_max_reschedules = 60

abbrev pub save_row : Transfer → List Transfer → List Transfer
save_row t [] = []
save_row t (row ∷ rows) = if row.record_id == t.record_id then t ∷ rows else row ∷ save_row t rows

-- `transfer.save()`
unfoldable pub save : Transfer → World → World
save t w = record w { transfers = save_row t w.transfers }

unfoldable pub notify : Notification → World → World
notify n w = record w { notifications = w.notifications ++ n ∷ [] }

-- `get_transfers_to_process`
unfoldable pub get_transfers_to_process : World → List Transfer
get_transfers_to_process w = keep (λ t. t.status == "init" || t.status == "rescheduled") w.transfers

-- `get_transfers_to_check`
unfoldable pub get_transfers_to_check : World → List Transfer
get_transfers_to_check w = keep (λ t. t.status == "running") w.transfers

-- `get_offer_ids_by_membership_id`
unfoldable pub get_offer_ids_by_membership_id : String → World → List String
get_offer_ids_by_membership_id membership_id w =
    map (λ o. o.offer_id) (keep (λ o. o.membership_id == membership_id) w.offers)

-- `create_offers`
unfoldable pub create_offers : List Offer → World → World
create_offers offers w = record w { offers = w.offers ++ offers }

-- `check_retries`
unfoldable pub check_retries : Outside → Transfer → World → World
unfolding save notify
check_retries outside transfer w =
    if ltb (transfer.retry_count + 1) outside.max_retries
    then save (record transfer { retry_count = transfer.retry_count + 1; updated_at = outside.now })
        w
    else notify (send_error "Migration max retries exceeded.") (
        save
          (record transfer {
            retry_count = transfer.retry_count + 1;
            migration_error_description = max_retries_exceeded outside.max_retries;
            status = "failed";
            updated_at = outside.now;
          })
          w)

-- `check_reschedules`
unfoldable pub check_reschedules : Outside → Transfer → World → World
unfolding save notify
check_reschedules outside transfer w =
    if ltb (transfer.reschedule_count + 1) outside.max_reschedules
    then save
        (record transfer {
          reschedule_count = transfer.reschedule_count + 1;
          updated_at = outside.now;
        })
        w
    else notify (send_warning "Migration max reschedules exceeded.") (
        save
          (record transfer {
            reschedule_count = transfer.reschedule_count + 1;
            migration_error_description = max_reschedules_exceeded outside.max_reschedules;
            status = "failed";
            updated_at = outside.now;
          })
          w)

-- `handle_transfer_error`; the transfer comes with Adobe's error where there is one.
unfoldable pub handle_transfer_error : Outside → Transfer → String → Description → World → World
unfolding save notify
handle_transfer_error outside transfer title description w = notify (send_exception title) (
    save
      (record transfer {
        status = "failed";
        migration_error_description = description;
        updated_at = outside.now;
      })
      w)

abbrev join : List String → String
join [] = ""
join (s ∷ []) = s
join (s ∷ t ∷ rest) = append_text (append_text s ", ") (join (t ∷ rest))

-- `AdobeAPIError.__str__`
abbrev pub error_message : String → String → List String → String
error_message code message [] = append_text (append_text code " - ") message
error_message code message (d ∷ details) =
    append_text (append_text (append_text (append_text code " - ") message) ": ")
      (join (d ∷ details))

-- `RECOVERABLE_TRANSFER_ERRORS`
abbrev pub recoverable_transfer_errors : List String
recoverable_transfer_errors =
    "RETURNABLE_PURCHASE" ∷ "IN_WINDOW_NO_RENEWAL" ∷ "IN_WINDOW_PARTIAL_RENEWAL"
    ∷ "EXTENDED_TERM_3YC" ∷ []

unfoldable pub is_recoverable : String → Bool
unfolding occurs_in_text
is_recoverable text = any (λ error. occurs_in_text error text) recoverable_transfer_errors

-- The last error from Adobe.
abbrev pub with_adobe_error : String → String → Transfer → Transfer
with_adobe_error code text transfer = record transfer {
  adobe_error_code = code;
  adobe_error_description = text;
}
