-- ===== src/Migration/Started.antt =====
-- The start of the transfers: what becomes of a new or rescheduled transfer.
use swo_adobe_vipm_extension.Base.{
  ◌+◌, ◌<◌, ◌≤◌, ◌≡◌, ◌≢◌, refl, ap, ◌∙◌, String, Option, none, some, List, Bool, true, false, ◌==◌,
  ◌||◌, eq_iff, arith, keep, inl, inr, Bool-cases, ltb,
}
use swo_adobe_vipm_extension.Context.{
  Exception, adobe_api, authorization_not_found, reseller_not_found, Reply, ok, raises,
}
use swo_adobe_vipm_extension.Migration.{
  Transfer, World, Outside, PreviewedOffer, save_row, save, notify, check_reschedules,
  handle_transfer_error, get_transfers_to_process, is_recoverable, create_offers,
  transient_preview_error,
}
use swo_adobe_vipm_extension.Migration.Start.{
  Run, start_transfers_for_product, start_transfer, finish_preview, finish_creation,
  populate_offers_for_transfer, handle_preview_error, handle_configuration_error,
  handle_transfer_creation_error,
}
use swo_adobe_vipm_extension.Migration.Polled.{IsSame}
use swo_adobe_vipm_extension.Migration.Table.{find_row, IsTable, keep-IsTable, find_row-keep}
use swo_adobe_vipm_extension.Migration.Loop.{
  Wrote, untouched, wrote, Handled, moved, stayed, selected, unselected,
}

module _ (outside : Outside) where
  abbrev preview : Transfer → Reply (Option (List PreviewedOffer))
  preview t = outside.preview_transfer t.authorization_uk t.membership_id

  abbrev creation : Transfer → Reply (Option String)
  creation t = outside.create_transfer t.authorization_uk t.seller_uk t.record_id t.membership_id

  -- What the start of a transfer saves in its row.
  pub data Started (t t2 : Transfer) : Type 0 where
    created :
        IsSame t t2 → t2.status ≡ "running" → creation t ≡ ok (some t2.transfer_id) → Started t t2
    rescheduled :
        IsSame t t2
        → t2.status ≡ "rescheduled"
        → t2.reschedule_count ≡ t.reschedule_count + 1
        → t2.reschedule_count < outside.max_reschedules
        → Started t t2
    given_up :
        IsSame t t2
        → t2.status ≡ "failed"
        → t2.reschedule_count ≡ t.reschedule_count + 1
        → outside.max_reschedules ≤ t2.reschedule_count
        → Started t t2
    failed :
        IsSame t t2 → t2.status ≡ "failed" → t2.reschedule_count ≡ t.reschedule_count → Started t t2

  -- Why the start of a transfer may save nothing.
  pub data Skipped (t : Transfer) (e : Option Exception) : Type 0 where
    raised : e ≢ none → Skipped t e
    nothing_previewed : preview t ≡ ok none → Skipped t e
    nothing_created : creation t ≡ ok none → Skipped t e
    already_transferred :
        (message : String) (details : List String)
        → preview t ≡ raises (adobe_api "5118" message details)
        → Skipped t e

  abbrev Result : Transfer → List Transfer → Run → Type 0
  Result t before r = Wrote Started Skipped t before r

  check_reschedules-Wrote :
      (t t2 : Transfer) (w : World)
      → IsSame t t2
      → t2.status ≡ "rescheduled"
      → t2.reschedule_count ≡ t.reschedule_count
      → Result t w.transfers (check_reschedules outside t2 w, none)
  unfolding check_reschedules save notify
  check_reschedules-Wrote t t2 w same s n =
      elim (Bool-cases (ltb (t2.reschedule_count + 1) outside.max_reschedules)) [
        | inl e ↦ rw e (
            wrote _ (ap (λ x. x.0) same) (rescheduled same s (ground (arith, n)) (ground arith))
              refl)
        | inr e ↦ rw e (
            wrote _ (ap (λ x. x.0) same) (given_up same refl (ground (arith, n)) (ground arith))
              refl)
      ]

  handle_preview_error-Wrote :
      (t : Transfer) (w : World) (code message : String) (details : List String) (text : String)
      → preview t ≡ raises (adobe_api code message details)
      → Result t w.transfers (handle_preview_error outside t code text w, none)
  unfolding handle_preview_error handle_transfer_error save notify
  handle_preview_error-Wrote t w code message details text h = elim (Bool-cases (code == "5118")) [
    | inl e ↦
        (let same : code ≡ "5118" = ground (arith, eq_iff code "5118") in
          rw e (
            untouched
              (already_transferred message details
                (h ∙ ap (λ c. raises (adobe_api c message details)) same))
              refl))
    | inr e ↦ rw e (elim (Bool-cases (is_recoverable text)) [
      | inl f ↦ rw f (
          check_reschedules-Wrote t
            (record t {
              adobe_error_code = code;
              adobe_error_description = text;
              status = "rescheduled";
              migration_error_description = transient_preview_error;
            })
            w refl refl refl)
      | inr f ↦ rw f (wrote _ refl (failed refl refl refl) refl)
    ])
  ]

  finish_creation-Wrote :
      (t : Transfer) (before : List Transfer) (w : World) (r : Reply (Option String))
      → creation t ≡ r
      → w.transfers ≡ before
      → Result t before (finish_creation outside t w r)
  unfolding finish_creation handle_transfer_creation_error handle_configuration_error
      handle_transfer_error save notify
  finish_creation-Wrote t before w (ok none) h same = untouched (nothing_created h) same
  finish_creation-Wrote t before w (ok (some transfer_id)) h same =
      wrote (record t { transfer_id = transfer_id; status = "running"; updated_at = outside.now })
        refl (created refl refl h) (ap (save_row _) same)
  finish_creation-Wrote t before w (raises (adobe_api code message details)) h same =
      wrote _ refl (failed refl refl refl) (ap (save_row _) same)
  finish_creation-Wrote t before w (raises (reseller_not_found text)) h same =
      wrote _ refl (failed refl refl refl) (ap (save_row _) same)
  finish_creation-Wrote t before w (raises e) h same = untouched (raised (λ x. cc)) same

  populate_offers_for_transfer-transfers :
      (t : Transfer) (items : List PreviewedOffer) (w : World)
      → (populate_offers_for_transfer t items w).transfers ≡ w.transfers
  unfolding populate_offers_for_transfer create_offers
  populate_offers_for_transfer-transfers t items w = refl

  finish_preview-Wrote :
      (t : Transfer) (w : World) (r : Reply (Option (List PreviewedOffer)))
      → preview t ≡ r
      → Result t w.transfers (finish_preview outside t w r)
  unfolding finish_preview handle_configuration_error handle_transfer_error save notify
  finish_preview-Wrote t w (ok none) h = untouched (nothing_previewed h) refl
  finish_preview-Wrote t w (ok (some items)) h =
      finish_creation-Wrote t w.transfers (populate_offers_for_transfer t items w) (creation t) refl
        (populate_offers_for_transfer-transfers t items w)
  finish_preview-Wrote t w (raises (adobe_api code message details)) h =
      handle_preview_error-Wrote t w code message details _ h
  finish_preview-Wrote t w (raises (authorization_not_found text)) h =
      wrote _ refl (failed refl refl refl) refl
  finish_preview-Wrote t w (raises e) h = untouched (raised (λ x. cc)) refl

  start_transfer-Wrote :
      (t : Transfer) (w : World) → Result t w.transfers (start_transfer outside t w)
  unfolding start_transfer
  start_transfer-Wrote t w = finish_preview-Wrote t w (preview t) refl

  abbrev pub is_new : Transfer → Bool
  is_new t = t.status == "init" || t.status == "rescheduled"

  -- The row of `t` after the loop, which has ended with `e`.
  pub data StartedRow (t : Transfer) (e : Option Exception) : Option Transfer → Type 0 where
    started : (t2 : Transfer) → is_new t ≡ true → Started t t2 → StartedRow t e (some t2)
    skipped : is_new t ≡ true → Skipped t e → StartedRow t e (some t)
    not_new : is_new t ≡ false → StartedRow t e (some t)

  Handled-StartedRow :
      (t : Transfer) (e : Option Exception) (o : Option Transfer)
      → is_new t ≡ true
      → Handled Started Skipped t e o
      → StartedRow t e o
  Handled-StartedRow t e o h (moved t2 m) = started t2 h m
  Handled-StartedRow t e o h (stayed (inl s)) = skipped h (by_reason s)
    where
      by_reason : Skipped t none → Skipped t e
      by_reason (raised n) = absurd (n refl)
      by_reason (nothing_previewed h) = nothing_previewed h
      by_reason (nothing_created h) = nothing_created h
      by_reason (already_transferred m d h) = already_transferred m d h
  Handled-StartedRow t e o h (stayed (inr n)) = skipped h (raised n)

  -- After `start_transfers_for_product`, in a table with one row for each record: a new or
  -- rescheduled transfer has been created at Adobe and runs, or is rescheduled within the maximum of
  -- reschedules, or has failed; or its row is as it was, and then an exception has left the loop, or
  -- Adobe's preview or creation was empty, or Adobe says that the customer has been transferred
  -- already. Every other row is as it was.
  pub start_transfers_for_product-StartedRow :
      (w : World) (id : String) (t : Transfer)
      → IsTable w.transfers
      → find_row id w.transfers ≡ some t
      → StartedRow t
          (start_transfers_for_product outside w).1
          (find_row id (start_transfers_for_product outside w).0.transfers)
  unfolding start_transfers_for_product get_transfers_to_process
  start_transfers_for_product-StartedRow w id t u h = elim (Bool-cases (is_new t)) [
    | inl e ↦ Handled-StartedRow t _ _ e (
        selected Started Skipped (start_transfer outside) start_transfer-Wrote id
          (keep is_new w.transfers) w t (keep-IsTable is_new w.transfers u)
          (ground (arith, e, find_row-keep is_new id w.transfers t u h)) h)
    | inr e ↦
        rw
          (unselected Started Skipped (start_transfer outside) start_transfer-Wrote id
              (keep is_new w.transfers) w
              (ground (arith, e, find_row-keep is_new id w.transfers t u h))
            ∙ h)
          (not_new e)
  ]
