-- ===== src/Migration/Start.antt =====
-- `start_transfers_for_product`: every new or rescheduled transfer is previewed and then created.
use swo_adobe_vipm_extension.Base.{
  String, Option, none, some, List, [], ◌∷◌, map, ◌==◌, if◌then◌else◌, keep, contains, not,
}
use swo_adobe_vipm_extension.Context.{
  Exception, adobe_api, authorization_not_found, reseller_not_found, Reply, ok, raises,
}
use swo_adobe_vipm_extension.Migration.{
  World, Transfer, Offer, Outside, PreviewedOffer, transient_preview_error, preview_error,
  creation_error, error_text, save, check_reschedules, handle_transfer_error, error_message,
  is_recoverable, with_adobe_error, create_offers, get_offer_ids_by_membership_id,
  get_transfers_to_process,
}

-- The world that a call leaves, and the exception that leaves it.
abbrev pub Run : Type 0
Run = World × Option Exception

-- `populate_offers_for_transfer`
unfoldable pub new_offers : List String → Transfer → List PreviewedOffer → List Offer
new_offers existing_offers transfer items =
    map
      (λ i. record {
        membership_id = transfer.membership_id;
        offer_id = i.offer_id;
        quantity = i.quantity;
        renewal_date = i.renewal_date;
      })
      (keep (λ i. not (contains existing_offers i.offer_id)) items)

unfoldable pub populate_offers_for_transfer : Transfer → List PreviewedOffer → World → World
unfolding new_offers create_offers get_offer_ids_by_membership_id
populate_offers_for_transfer transfer items w =
    create_offers
      (new_offers (get_offer_ids_by_membership_id transfer.membership_id w) transfer items) w

module _ (outside : Outside) where
  -- `handle_preview_error`
  unfoldable pub handle_preview_error : Transfer → String → String → World → World
  unfolding check_reschedules handle_transfer_error is_recoverable
  handle_preview_error transfer code text w =
      if code == "5118"
      then w
      else if is_recoverable text
      then check_reschedules outside
          (record (with_adobe_error code text transfer) {
            status = "rescheduled";
            migration_error_description = transient_preview_error;
          })
          w
      else handle_transfer_error outside (with_adobe_error code text transfer)
          "Adobe error received during transfer preview." (preview_error transfer.membership_id) w

  -- `handle_preview_authorization_error`, `handle_transfer_reseller_error`
  unfoldable pub handle_configuration_error : Transfer → String → World → World
  unfolding handle_transfer_error
  handle_configuration_error transfer text w =
      handle_transfer_error outside transfer
        "Marketplace Platform configuration error during transfer." (error_text text) w

  -- `handle_transfer_creation_error`
  unfoldable pub handle_transfer_creation_error : Transfer → String → String → World → World
  unfolding handle_transfer_error
  handle_transfer_creation_error transfer code text w =
      handle_transfer_error outside (with_adobe_error code text transfer)
        "Adobe error received during transfer creation." (creation_error transfer.membership_id) w

  -- `process_transfer_creation`, and the end of the loop's body
  unfoldable pub finish_creation : Transfer → World → Reply (Option String) → Run
  unfolding save handle_transfer_creation_error handle_configuration_error
  finish_creation transfer w (ok none) = (w, none)
  finish_creation transfer w (ok (some transfer_id)) = (
    save
        (record transfer {
          transfer_id = transfer_id;
          status = "running";
          updated_at = outside.now;
        })
        w,
    none,
  )
  finish_creation transfer w (raises (adobe_api code message details)) =
      (handle_transfer_creation_error transfer code (error_message code message details) w, none)
  finish_creation transfer w (raises (reseller_not_found text)) =
      (handle_configuration_error transfer text w, none)
  finish_creation transfer w (raises e) = (w, some e)

  -- `process_transfer_preview`, and the loop's body from there
  unfoldable pub finish_preview : Transfer → World → Reply (Option (List PreviewedOffer)) → Run
  unfolding finish_creation populate_offers_for_transfer handle_preview_error
      handle_configuration_error
  finish_preview transfer w (ok none) = (w, none)
  finish_preview transfer w (ok (some items)) =
      finish_creation transfer (populate_offers_for_transfer transfer items w) (
        outside.create_transfer transfer.authorization_uk transfer.seller_uk transfer.record_id
          transfer.membership_id)
  finish_preview transfer w (raises (adobe_api code message details)) =
      (handle_preview_error transfer code (error_message code message details) w, none)
  finish_preview transfer w (raises (authorization_not_found text)) =
      (handle_configuration_error transfer text w, none)
  finish_preview transfer w (raises e) = (w, some e)

  unfoldable pub start_transfer : Transfer → World → Run
  unfolding finish_preview
  start_transfer transfer w =
      finish_preview transfer w
        (outside.preview_transfer transfer.authorization_uk transfer.membership_id)

-- A loop over transfers, which an exception leaves.
abbrev pub go_on : (World → Run) → Run → Run
go_on rest (w, none) = rest w
go_on rest (w, some e) = (w, some e)

abbrev pub each : (Transfer → World → Run) → List Transfer → World → Run
each body [] w = (w, none)
each body (t ∷ ts) w = go_on (each body ts) (body t w)

unfoldable pub start_transfers_for_product : Outside → World → Run
unfolding start_transfer get_transfers_to_process
start_transfers_for_product outside w = each (start_transfer outside) (get_transfers_to_process w) w
