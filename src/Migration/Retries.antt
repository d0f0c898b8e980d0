-- ===== src/Migration/Retries.antt =====
-- The retries of a running transfer come to an end.
use swo_adobe_vipm_extension.Base.{
  ℕ, ◌+◌, ◌<◌, ◌≤◌, ◌≡◌, ◌≢◌, ◌⊎◌, refl, ap, ◌∙◌, sym, String, Option, none, some, List, [], ◌∷◌,
  true, false, ◌==◌, arith, inl, inr, All, length,
}
use swo_adobe_vipm_extension.Context.{Exception}
use swo_adobe_vipm_extension.Migration.{Transfer, World, Outside}
use swo_adobe_vipm_extension.Migration.Start.{Run, go_on}
use swo_adobe_vipm_extension.Migration.Check.{check_running_transfers_for_product}
use swo_adobe_vipm_extension.Migration.Table.{find_row, IsTable}
use swo_adobe_vipm_extension.Migration.Polled.{retried, exhausted, failed, completed}
use swo_adobe_vipm_extension.Migration.Edges.{
  PolledRow, polled, held_up, not_running, check_running_transfers_for_product-PolledRow,
  check_running_transfers_for_product-IsTable,
}

-- The runs of the command one after another, each with its own answers; an exception ends them.
unfoldable pub polls : List Outside → World → Run
polls [] w = (w, none)
polls (o ∷ os) w = go_on (polls os) (check_running_transfers_for_product o w)

-- A transfer that no run of the command looks at any more.
abbrev pub IsSettled : Option Transfer → Type 0
IsSettled o = (t : Transfer) × (o ≡ some t) × ((t.status ≡ "failed") ⊎ (t.status ≡ "completed"))

still :
    (o : Outside) (t : Transfer) (e : Option Exception) (row : Option Transfer)
    → t.status ≢ "running"
    → PolledRow o t e row
    → row ≡ some t
still o t e row h (polled t2 k m) = absurd (h k)
still o t e row h (held_up k n) = absurd (h k)
still o t e row h (not_running n) = refl

polls-still :
    (os : List Outside) (w : World) (id : String) (t : Transfer)
    → IsTable w.transfers
    → find_row id w.transfers ≡ some t
    → t.status ≢ "running"
    → find_row id (polls os w).0.transfers ≡ some t
unfolding polls
polls-still [] w id t u h n = h
polls-still (o ∷ os) w id t u h n =
    by_run (check_running_transfers_for_product o w) (λ w1 u1 h1. polls-still os w1 id t u1 h1 n)
      (check_running_transfers_for_product-IsTable o w u)
      (still o t _ _ n (check_running_transfers_for_product-PolledRow o w id t u h))
  where
    by_run :
        (r : Run)
        → ((w1 : World)
            → IsTable w1.transfers
            → find_row id w1.transfers ≡ some t
            → find_row id (polls os w1).0.transfers ≡ some t)
        → IsTable r.0.transfers
        → find_row id r.0.transfers ≡ some t
        → find_row id (go_on (polls os) r).0.transfers ≡ some t
    by_run (w1, some e) ih u k = k
    by_run (w1, none) ih u k = ih w1 u k

-- Of one poll of a running transfer: it has settled, or has one retry more.
data Next (m : ℕ) (t : Transfer) : Option Transfer → Type 0 where
  settled :
      (t2 : Transfer) → (t2.status ≡ "failed") ⊎ (t2.status ≡ "completed") → Next m t (some t2)
  again :
      (t2 : Transfer)
      → t2.status ≡ "running"
      → t2.retry_count ≡ t.retry_count + 1
      → t2.retry_count < m
      → Next m t (some t2)

PolledRow-Next :
    (o : Outside) (t : Transfer) (row : Option Transfer)
    → t.status ≡ "running"
    → PolledRow o t none row
    → Next o.max_retries t row
PolledRow-Next o t row h (polled t2 k (retried same s n m)) = again t2 (s ∙ h) n m
PolledRow-Next o t row h (polled t2 k (exhausted same s n m)) = settled t2 (inl s)
PolledRow-Next o t row h (polled t2 k (failed same s n)) = settled t2 (inl s)
PolledRow-Next o t row h (polled t2 k (completed same s n d)) = settled t2 (inr s)
PolledRow-Next o t row h (held_up k n) = absurd (n refl)
PolledRow-Next o t row h (not_running n) = absurd (n h)

unequal : false ≢ true
unequal h = cc

settled_status : (s : String) → (s ≡ "failed") ⊎ (s ≡ "completed") → s ≢ "running"
settled_status s (inl e) = λ h. unequal (ap (λ x. x == "running") (sym e ∙ h))
settled_status s (inr e) = λ h. unequal (ap (λ x. x == "running") (sym e ∙ h))

-- A transfer that is running with `r` retries, in a table with one row for each record, has failed or
-- completed after any runs of the command without an exception, at least one of them, whose number
-- is at least what `r` leaves of the maximum of retries, whatever Adobe answers.
pub polls-IsSettled :
    (m : ℕ) (os : List Outside) (w : World) (id : String) (t : Transfer)
    → All (λ o. o.max_retries ≡ m) os
    → IsTable w.transfers
    → find_row id w.transfers ≡ some t
    → t.status ≡ "running"
    → m ≤ length os + t.retry_count
    → 0 < length os
    → (polls os w).1 ≡ none
    → IsSettled (find_row id (polls os w).0.transfers)
unfolding polls
polls-IsSettled m [] w id t all_m u h s enough nonempty e = absurd (no_less nonempty)
  where
    no_less : ¬ (0 < 0)
    no_less = omega arith
polls-IsSettled m (o ∷ os) w id t all_m u h s enough nonempty e =
    by_run (check_running_transfers_for_product o w)
      (λ w1 t2 u1 h1 s1 n1. polls-IsSettled m os w1 id t2 all_m.1 u1 h1 s1 n1)
      (check_running_transfers_for_product-IsTable o w u)
      (check_running_transfers_for_product-PolledRow o w id t u h) e
  where
    by_row :
        (w1 : World) (row : Option Transfer)
        → find_row id w1.transfers ≡ row
        → ((t2 : Transfer)
            → find_row id w1.transfers ≡ some t2
            → t2.status ≡ "running"
            → m ≤ length os + t2.retry_count
            → 0 < length os
            → IsSettled (find_row id (polls os w1).0.transfers))
        → IsTable w1.transfers
        → Next o.max_retries t row
        → IsSettled (find_row id (polls os w1).0.transfers)
    by_row w1 row k ih u (settled t2 d) =
        (t2, polls-still os w1 id t2 u k (settled_status t2.status d), d)
    by_row w1 row k ih u (again t2 s2 n less) =
        ih t2 k s2 (ground (arith, all_m.0)) (ground (arith, all_m.0))

    by_run :
        (r : Run)
        → ((w1 : World) (t2 : Transfer)
            → IsTable w1.transfers
            → find_row id w1.transfers ≡ some t2
            → t2.status ≡ "running"
            → m ≤ length os + t2.retry_count
            → 0 < length os
            → (polls os w1).1 ≡ none
            → IsSettled (find_row id (polls os w1).0.transfers))
        → IsTable r.0.transfers
        → PolledRow o t r.1 (find_row id r.0.transfers)
        → (go_on (polls os) r).1 ≡ none
        → IsSettled (find_row id (go_on (polls os) r).0.transfers)
    by_run (w1, some ex) ih u p e = cc
    by_run (w1, none) ih u p e =
        by_row w1 (find_row id w1.transfers) refl (λ t2 h1 s1 n1 z. ih w1 t2 u h1 s1 n1 z e) u
          (PolledRow-Next o t _ s p)
