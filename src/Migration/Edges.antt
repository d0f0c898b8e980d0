-- ===== src/Migration/Edges.antt =====
-- The statuses of a transfer: how one run over the table moves them.
use swo_adobe_vipm_extension.Base.{
  ◌≡◌, ◌≢◌, refl, ◌∙◌, String, Option, none, some, ◌==◌, eq_iff, arith, keep, inl, inr, Bool-cases,
}
use swo_adobe_vipm_extension.Context.{Exception}
use swo_adobe_vipm_extension.Migration.{Transfer, World, Outside, get_transfers_to_check}
use swo_adobe_vipm_extension.Migration.Check.{check_running_transfers_for_product, check_transfer}
use swo_adobe_vipm_extension.Migration.Table.{find_row, IsTable, keep-IsTable, find_row-keep}
use swo_adobe_vipm_extension.Migration.Loop.{
  Handled, moved, stayed, selected, unselected, each-IsTable,
}
use swo_adobe_vipm_extension.Migration.Polled.{Polled, NotDone}
use swo_adobe_vipm_extension.Migration.Saved.{check_transfer-Wrote}

module _ (outside : Outside) where
  -- The row of `t` after the loop, which has ended with `e`.
  pub data PolledRow (t : Transfer) (e : Option Exception) : Option Transfer → Type 0 where
    polled : (t2 : Transfer) → t.status ≡ "running" → Polled outside t t2 → PolledRow t e (some t2)
    held_up : t.status ≡ "running" → e ≢ none → PolledRow t e (some t)
    not_running : t.status ≢ "running" → PolledRow t e (some t)

  Handled-PolledRow :
      (t : Transfer) (e : Option Exception) (o : Option Transfer)
      → t.status ≡ "running"
      → Handled (Polled outside) NotDone t e o
      → PolledRow t e o
  Handled-PolledRow t e o h (moved t2 m) = polled t2 h m
  Handled-PolledRow t e o h (stayed (inl n)) = absurd (n refl)
  Handled-PolledRow t e o h (stayed (inr n)) = held_up h n

  pub check_running_transfers_for_product-IsTable :
      (w : World)
      → IsTable w.transfers
      → IsTable (check_running_transfers_for_product outside w).0.transfers
  unfolding check_running_transfers_for_product get_transfers_to_check
  check_running_transfers_for_product-IsTable w u =
      each-IsTable (Polled outside) NotDone (check_transfer outside) (check_transfer-Wrote outside)
        (keep (λ t. t.status == "running") w.transfers) w u

  -- After `check_running_transfers_for_product`, in a table with one row for each record: a row that
  -- was not running is as it was; a running one has been retried, or given up at the maximum of
  -- retries, or failed, or completed, and nothing else; unless an exception has left the loop,
  -- when it may also be as it was.
  pub check_running_transfers_for_product-PolledRow :
      (w : World) (id : String) (t : Transfer)
      → IsTable w.transfers
      → find_row id w.transfers ≡ some t
      → PolledRow t
          (check_running_transfers_for_product outside w).1
          (find_row id (check_running_transfers_for_product outside w).0.transfers)
  unfolding check_running_transfers_for_product get_transfers_to_check
  check_running_transfers_for_product-PolledRow w id t u h =
      elim (Bool-cases (t.status == "running")) [
        | inl e ↦ Handled-PolledRow t _ _ (ground (arith, eq_iff t.status "running")) (
            selected (Polled outside) NotDone (check_transfer outside)
              (check_transfer-Wrote outside) id (keep (λ t. t.status == "running") w.transfers) w t
              (keep-IsTable (λ t. t.status == "running") w.transfers u)
              (ground (arith, e, find_row-keep (λ t. t.status == "running") id w.transfers t u h))
              h)
        | inr e ↦
            rw
              (unselected (Polled outside) NotDone (check_transfer outside)
                  (check_transfer-Wrote outside) id (keep (λ t. t.status == "running") w.transfers)
                  w
                  (ground
                    (arith, e, find_row-keep (λ t. t.status == "running") id w.transfers t u h))
                ∙ h)
              (not_running (ground (arith, e, eq_iff t.status "running")))
      ]
