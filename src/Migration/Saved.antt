-- ===== src/Migration/Saved.antt =====
-- A poll of a transfer saves at most its row, in one of the ways of `Polled`.
use swo_adobe_vipm_extension.Base.{
  ◌≡◌, refl, ◌∙◌, none, some, List, [], ◌∷◌, Bool, true, false, ◌==◌, if◌then◌else◌, inl, inr,
  Bool-cases,
}
use swo_adobe_vipm_extension.Context.{adobe_api, authorization_not_found, Reply, ok, raises}
use swo_adobe_vipm_extension.Customer.{AdobeSubscription, get_3yc_commitment}
use swo_adobe_vipm_extension.Migration.{
  Transfer, World, Outside, Profile, Contact, AdobeTransfer, save, notify, check_retries,
  error_message, with_adobe_error,
}
use swo_adobe_vipm_extension.Migration.Start.{Run}
use swo_adobe_vipm_extension.Migration.Check.{
  check_transfer, after_transfer, after_customer, after_fill, after_agreement, stop_renewals,
  after_subscriptions, update_subscriptions, terminated_nav, fail_unexpected, fail_configuration,
  with_customer, ensure_gc_main_agreement, fill_customer_data, fill_commitment, fill_company,
  fill_contact, address_of,
}
use swo_adobe_vipm_extension.Migration.Loop.{wrote}
use swo_adobe_vipm_extension.Migration.Polled.{
  failed, IsCopy, Result, check_retries-Wrote, complete-Wrote, retries-Wrote, raised-Wrote,
}
use swo_adobe_vipm_extension.Migration.Untouched.{
  update_subscriptions-transfers, ensure_gc_main_agreement-transfers, fill_commitment-IsCopy,
}

module _ (outside : Outside) where
  after_subscriptions-Wrote :
      (t t2 : Transfer) (w : World) (r : Run)
      → IsCopy t t2
      → r.0.transfers ≡ w.transfers
      → Result outside t w.transfers (after_subscriptions outside t2 r)
  unfolding after_subscriptions
  after_subscriptions-Wrote t t2 w (w1, none) c same =
      complete-Wrote outside t t2 w w1 (terminated_nav outside t2) c same
  after_subscriptions-Wrote t t2 w (w1, some (adobe_api code message details)) c same =
      retries-Wrote outside t (with_adobe_error code (error_message code message details) t2) w w1
        (record { same = c.same; status = c.status; retry_count = c.retry_count }) same
  after_subscriptions-Wrote t t2 w (w1, some e) c same = raised-Wrote outside t w w1 _ same

  stop_renewals-Wrote :
      (t t2 : Transfer) (w w1 : World) (r : Reply (List AdobeSubscription))
      → IsCopy t t2
      → w1.transfers ≡ w.transfers
      → Result outside t w.transfers (stop_renewals outside t2 w1 r)
  unfolding stop_renewals
  stop_renewals-Wrote t t2 w w1 (ok subscriptions) c same =
      after_subscriptions-Wrote t t2 w (update_subscriptions outside t2 subscriptions w1) c
        (update_subscriptions-transfers outside t2 subscriptions w1 ∙ same)
  stop_renewals-Wrote t t2 w w1 (raises e) c same = raised-Wrote outside t w w1 e same

  after_agreement-Wrote :
      (t t2 : Transfer) (w : World) (r : Run)
      → IsCopy t t2
      → r.0.transfers ≡ w.transfers
      → Result outside t w.transfers (after_agreement outside t2 r)
  unfolding after_agreement
  after_agreement-Wrote t t2 w (w1, none) c same =
      elim (Bool-cases (t2.customer_benefits_3yc_status == "COMMITTED")) [
        | inl e ↦ rw e (complete-Wrote outside t t2 w w1 (terminated_nav outside t2) c same)
        | inr e ↦ rw e (
            stop_renewals-Wrote t t2 w w1
              (outside.get_subscriptions t2.authorization_uk t2.customer_id) c same)
      ]
  after_agreement-Wrote t t2 w (w1, some e) c same = raised-Wrote outside t w w1 e same

  after_fill-Wrote :
      (t t2 : Transfer) (w : World) (profile : Profile) (contacts : List Contact)
      → IsCopy t t2
      → Result outside t w.transfers
          (after_fill outside w profile.customer (fill_customer_data t2 profile contacts))
  unfolding after_fill fill_customer_data fill_company fill_contact
  after_fill-Wrote t t2 w profile [] c = raised-Wrote outside t w w _ refl
  after_fill-Wrote t t2 w profile (x ∷ contacts) c =
      after_agreement-Wrote t
        (fill_commitment (get_3yc_commitment profile.customer)
          (fill_contact x (fill_company profile (address_of profile.address) t2)))
        w
        (ensure_gc_main_agreement outside
          (fill_commitment (get_3yc_commitment profile.customer)
            (fill_contact x (fill_company profile (address_of profile.address) t2)))
          profile.customer w)
        (fill_commitment-IsCopy t
          (fill_contact x (fill_company profile (address_of profile.address) t2))
          (get_3yc_commitment profile.customer)
          (record { same = c.same; status = c.status; retry_count = c.retry_count }))
        (ensure_gc_main_agreement-transfers outside
          (fill_commitment (get_3yc_commitment profile.customer)
            (fill_contact x (fill_company profile (address_of profile.address) t2)))
          profile.customer w)

  after_customer-Wrote :
      (t t2 : Transfer) (w : World) (r : Reply Profile)
      → IsCopy t t2
      → Result outside t w.transfers (after_customer outside t2 w r)
  unfolding after_customer
  after_customer-Wrote t t2 w (ok profile) c = after_fill-Wrote t t2 w profile profile.contacts c
  after_customer-Wrote t t2 w (raises (adobe_api code message details)) c =
      check_retries-Wrote outside t (with_adobe_error code (error_message code message details) t2)
        w (record { same = c.same; status = c.status; retry_count = c.retry_count })
  after_customer-Wrote t t2 w (raises e) c = raised-Wrote outside t w w _ refl

  after_transfer-Wrote :
      (t : Transfer) (w : World) (r : Reply AdobeTransfer)
      → Result outside t w.transfers (after_transfer outside t w r)
  unfolding after_transfer fail_unexpected fail_configuration save notify
  after_transfer-Wrote t w (ok adobe_transfer) =
      by_tests (adobe_transfer.status == "1002") (adobe_transfer.status == "1000")
    where
      by_tests :
          (b c : Bool)
          → Result outside t w.transfers (
              if b
              then (check_retries outside t w, none)
              else if c
              then after_customer outside
                  (with_customer adobe_transfer.customer_id t)
                  w
                  (outside.get_customer t.authorization_uk adobe_transfer.customer_id)
              else (fail_unexpected outside t adobe_transfer.status w, none))
      by_tests true c =
          check_retries-Wrote outside t t w
            (record { same = refl; status = refl; retry_count = refl })
      by_tests false true =
          after_customer-Wrote t (with_customer adobe_transfer.customer_id t) w
            (outside.get_customer t.authorization_uk adobe_transfer.customer_id)
            (record { same = refl; status = refl; retry_count = refl })
      by_tests false false = wrote _ refl (failed (refl) refl refl) refl
  after_transfer-Wrote t w (raises (adobe_api code message details)) =
      check_retries-Wrote outside t (with_adobe_error code (error_message code message details) t) w
        (record { same = refl; status = refl; retry_count = refl })
  after_transfer-Wrote t w (raises (authorization_not_found text)) =
      wrote _ refl (failed (refl) refl refl) refl
  after_transfer-Wrote t w (raises e) = raised-Wrote outside t w w _ refl

  pub check_transfer-Wrote :
      (t : Transfer) (w : World) → Result outside t w.transfers (check_transfer outside t w)
  unfolding check_transfer
  check_transfer-Wrote t w =
      after_transfer-Wrote t w
        (outside.get_transfer t.authorization_uk t.membership_id t.transfer_id)
