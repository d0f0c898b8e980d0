-- ===== src/Transferring/Refused.antt =====
-- Memberships that the migration is moving, or has moved, are never validated.
use mathlib.Core.Path.{subst}
use swo_adobe_vipm_extension.Base.{
  ◌≡◌, ◌⊎◌, refl, ap, sym, String, Option, none, some, List, true, false, Bool-cases, inl, inr,
}
use swo_adobe_vipm_extension.Context.{Context, Exception, Reply, ok, raises, handle_error}
use swo_adobe_vipm_extension.Customer.{Customer}
use swo_adobe_vipm_extension.Migration.{Transfer}
use swo_adobe_vipm_extension.Order.{ErrorData, membership_id}
use swo_adobe_vipm_extension.Params.{get_value, get_ordering_parameter}
use swo_adobe_vipm_extension.Pipeline.Linear.{Ends, run-eq-run_linear}
use swo_adobe_vipm_extension.Pipeline.Stages.{
  EndsWith, stopped, proceeded, failed, Returns, Stages, closed, stage, run_linear-Returns,
}
use swo_adobe_vipm_extension.Preview.Discounts.{is_adobe_error}
use swo_adobe_vipm_extension.Routing.{is_migrate_customer}
use swo_adobe_vipm_extension.Transferring.{TransferItem, AdobeTransfer}
use swo_adobe_vipm_extension.Transferring.Government.{is_government, validate_government_lga_data}
use swo_adobe_vipm_extension.Transferring.Lines.{name_of}
use swo_adobe_vipm_extension.Transferring.Steps.{
  TransferContext, Outside, order_of, refused, refused_titled, ends_named, setup_transfer_context,
  fetched, ask_adobe, fetch_for, fetch_transfer_data, ends_agency, check_agency,
  validate_government_transfer, check_status, validate_transfer_status, transfer_steps,
  validate_transfer,
}

abbrev IsRefused : TransferContext → Type 0
IsRefused t = t.context.validation_succeeded ≡ false

abbrev pub IsClosed : Transfer → Type 0
IsClosed transfer = (transfer.status ≡ "running") ⊎ (transfer.status ≡ "synchronized")

abbrev Blocked : TransferContext → Type 0
Blocked t = (transfer : Transfer) × (t.transfer ≡ some (some transfer)) × IsClosed transfer

abbrev Step : Ends TransferContext Exception → Type 0
Step e = EndsWith IsRefused Blocked e

refused-IsRefused : (error : ErrorData) (t : TransferContext) → IsRefused (refused error t)
unfolding refused
refused-IsRefused error t = refl

refused_titled-EndsWith :
    (Next : TransferContext → Type 0) (details : String) (t : TransferContext)
    → EndsWith IsRefused Next (refused_titled details t)
unfolding refused_titled
refused_titled-EndsWith Next details t =
    by_name (name_of (get_ordering_parameter (order_of t) "membershipId"))
  where
    by_name : (r : Reply String) → EndsWith IsRefused Next (ends_named t details r)
    by_name (ok title) = stopped (refused-IsRefused (membership_id title details) t)
    by_name (raises e) = failed

module _ (outside : Outside) where
  fetched-Step :
      (t : TransferContext) (transfer : Transfer) (r : Reply (List TransferItem × AdobeTransfer))
      → Blocked t
      → Step (fetched outside t transfer r)
  fetched-Step t transfer (ok (subscriptions, adobe_transfer)) h = proceeded h
  fetched-Step t transfer (raises e) h = elim (Bool-cases (is_adobe_error e)) [
    | inl f ↦ rw f (stopped (refused-IsRefused _ t))
    | inr f ↦ rw f failed
  ]

  fetch_transfer_data-Step :
      (t : TransferContext) → Blocked t → Step (fetch_transfer_data outside t)
  unfolding fetch_transfer_data
  fetch_transfer_data-Step t (transfer, e, c) =
      subst (λ o. Step (fetch_for outside t o)) (sym e)
        (fetched-Step t transfer (ask_adobe outside transfer) (transfer, e, c))

  handle_error-IsRefused :
      (error : ErrorData) (c : Context)
      → (handle_error true "membershipId" error c).validation_succeeded ≡ false
  unfolding handle_error
  handle_error-IsRefused error c = refl

  check_agency-Step :
      (t : TransferContext) (r : Reply Customer) → Blocked t → Step (check_agency outside true t r)
  check_agency-Step t (raises e) h = failed
  check_agency-Step t (ok customer) h =
      by_error (
        validate_government_lga_data (outside.segment_of (order_of t).product_id) customer.benefits)
    where
      by_error : (o : Option ErrorData) → Step (ends_agency outside true t o)
      by_error none = proceeded h
      by_error (some error) = stopped (handle_error-IsRefused error t.context)

  validate_government_transfer-Step :
      (t : TransferContext) → Blocked t → Step (validate_government_transfer outside true t)
  unfolding validate_government_transfer
  validate_government_transfer-Step t h =
      elim (Bool-cases (is_government (outside.segment_of (order_of t).product_id))) [
        | inl e ↦ rw e (check_agency-Step t _ h)
        | inr e ↦ rw e (proceeded h)
      ]

  check_status-EndsWith :
      (t : TransferContext) (transfer : Transfer)
      → IsClosed transfer
      → EndsWith IsRefused (λ _. ⊥) (check_status t (some (some transfer)))
  check_status-EndsWith t transfer (inl e) =
      rw e (refused_titled-EndsWith (λ _. ⊥) "Migration in progress, retry later" t)
  check_status-EndsWith t transfer (inr e) =
      rw e (refused_titled-EndsWith (λ _. ⊥) "Membership has already been migrated" t)

  validate_transfer_status-EndsWith :
      (t : TransferContext) → Blocked t → EndsWith IsRefused (λ _. ⊥) (validate_transfer_status t)
  unfolding validate_transfer_status
  validate_transfer_status-EndsWith t (transfer, e, c) =
      subst (λ o. EndsWith IsRefused (λ _. ⊥) (check_status t o)) (sym e)
        (check_status-EndsWith t transfer c)

  setup_transfer_context-Step :
      (t : TransferContext) (transfer : Transfer)
      → is_migrate_customer (outside.with_agreement (order_of t)) ≡ true
      → outside.find_transfer
          (outside.with_agreement (order_of t)).product_id
          outside.authorization_id
          (get_value (get_ordering_parameter (outside.with_agreement (order_of t)) "membershipId"))
        ≡ some transfer
      → IsClosed transfer
      → Step (setup_transfer_context outside t)
  unfolding setup_transfer_context
  setup_transfer_context-Step t transfer m f c = proceeded (transfer, rw m (ap some f), c)

  -- The order is one of a migrating customer, whose transfer is running or synchronized.
  pub record IsMigrating (t : TransferContext) (transfer : Transfer) : Type 0 where
    pub migrates : is_migrate_customer (outside.with_agreement (order_of t)) ≡ true
    pub found :
        outside.find_transfer
          (outside.with_agreement (order_of t)).product_id
          outside.authorization_id
          (get_value (get_ordering_parameter (outside.with_agreement (order_of t)) "membershipId"))
        ≡ some transfer
    pub is_closed : IsClosed transfer

  steps-Stages :
      (start : TransferContext) (transfer : Transfer)
      → IsMigrating start transfer
      → Stages IsRefused (transfer_steps outside) (λ t. t ≡ start)
  steps-Stages start transfer m =
      stage
        (λ t same.
          subst (λ t. Step (setup_transfer_context outside t)) (sym same)
            (setup_transfer_context-Step start transfer m.migrates m.found m.is_closed))
        (stage fetch_transfer_data-Step (
          stage validate_government_transfer-Step (stage validate_transfer_status-EndsWith closed)))

  -- If the order is one of a migrating customer and Airtable has a transfer for its membership that is
  -- running or synchronized, then `validate_transfer` either raises or reports that the validation has
  -- not succeeded, whatever Adobe answers.
  pub validate_transfer-IsRefused :
      (t : TransferContext) (transfer : Transfer)
      → IsMigrating t transfer
      → Returns (λ c. c.context.validation_succeeded ≡ false) (validate_transfer outside t)
  unfolding validate_transfer
  validate_transfer-IsRefused t transfer m =
      subst (Returns IsRefused)
        (sym (
          run-eq-run_linear (transfer_steps outside) t
            (refl, (refl, (refl, (refl, (refl, (refl, (refl, tt)))))))))
        (run_linear-Returns (transfer_steps outside) (steps-Stages t transfer m) t refl)
