-- ===== src/Migration/Polled.antt =====
-- What a poll of a running transfer may save in its row, and the saves that end a poll.
use mathlib.Core.Path.{subst}
use swo_adobe_vipm_extension.Base.{
  ◌+◌, ◌<◌, ◌≤◌, ◌≡◌, ◌≢◌, refl, ap, String, Option, none, some, List, Bool, arith, inl, inr,
  Bool-cases, ltb,
}
use swo_adobe_vipm_extension.Context.{Exception}
use swo_adobe_vipm_extension.Migration.{
  Transfer, World, Outside, save_row, save, notify, check_retries,
}
use swo_adobe_vipm_extension.Migration.Start.{Run}
use swo_adobe_vipm_extension.Migration.Check.{complete}
use swo_adobe_vipm_extension.Migration.Loop.{Wrote, untouched, wrote}

-- What no run changes: the record, its membership, its authorization and its contract.
abbrev pub identity : Transfer → String × String × String × String
identity t = (t.record_id, t.membership_id, t.authorization_uk, t.nav_cco)

abbrev pub IsSame : Transfer → Transfer → Type 0
IsSame t t2 = identity t2 ≡ identity t

-- The state in the middle of a poll is a copy of the row's with customer data.
pub record IsCopy (t t2 : Transfer) : Type 0 where
  pub same : IsSame t t2
  pub status : t2.status ≡ t.status
  pub retry_count : t2.retry_count ≡ t.retry_count

abbrev pub NotDone : Transfer → Option Exception → Type 0
NotDone t e = e ≢ none

module _ (outside : Outside) where
  -- A poll of a running transfer.
  pub data Polled (t t2 : Transfer) : Type 0 where
    retried :
        IsSame t t2
        → t2.status ≡ t.status
        → t2.retry_count ≡ t.retry_count + 1
        → t2.retry_count < outside.max_retries
        → Polled t t2
    exhausted :
        IsSame t t2
        → t2.status ≡ "failed"
        → t2.retry_count ≡ t.retry_count + 1
        → outside.max_retries ≤ t2.retry_count
        → Polled t t2
    failed : IsSame t t2 → t2.status ≡ "failed" → t2.retry_count ≡ t.retry_count → Polled t t2
    completed :
        IsSame t t2
        → t2.status ≡ "completed"
        → t2.retry_count ≡ t.retry_count
        → t2.completed_at ≡ some outside.now
        → Polled t t2

  abbrev pub Result : Transfer → List Transfer → Run → Type 0
  Result t before r = Wrote Polled NotDone t before r

  pub check_retries-Wrote :
      (t t2 : Transfer) (w : World)
      → IsCopy t t2
      → Result t w.transfers (check_retries outside t2 w, none)
  unfolding check_retries save notify
  check_retries-Wrote t t2 w c = elim (Bool-cases (ltb (t2.retry_count + 1) outside.max_retries)) [
    | inl e ↦ rw e (
        wrote _ (ap (λ x. x.0) c.same)
          (retried c.same c.status (ground (arith, c.retry_count)) (ground arith)) refl)
    | inr e ↦ rw e (
        wrote _ (ap (λ x. x.0) c.same)
          (exhausted c.same refl (ground (arith, c.retry_count)) (ground arith)) refl)
  ]

  pub complete-Wrote :
      (t t2 : Transfer) (w w1 : World) (response : Bool × String)
      → IsCopy t t2
      → w1.transfers ≡ w.transfers
      → Result t w.transfers (complete outside t2 response w1, none)
  unfolding complete save
  complete-Wrote t t2 w w1 (terminated, response) c same =
      wrote _ (ap (λ x. x.0) c.same) (completed c.same refl c.retry_count refl)
        (ap (save_row _) same)

  pub retries-Wrote :
      (t t2 : Transfer) (w w1 : World)
      → IsCopy t t2
      → w1.transfers ≡ w.transfers
      → Result t w.transfers (check_retries outside t2 w1, none)
  retries-Wrote t t2 w w1 c same =
      subst (λ rows. Result t rows (check_retries outside t2 w1, none)) same
        (check_retries-Wrote t t2 w1 c)

  -- An exception leaves the row as it is.
  pub raised-Wrote :
      (t : Transfer) (w w1 : World) (e : Exception)
      → w1.transfers ≡ w.transfers
      → Result t w.transfers (w1, some e)
  raised-Wrote t w w1 e same = untouched (λ x. cc) same
