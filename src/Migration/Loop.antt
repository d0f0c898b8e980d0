-- ===== src/Migration/Loop.antt =====
-- A loop over the selected rows of the table, whose body saves at most the row that it is given: what
-- becomes of the row of every record.
use mathlib.Core.Path.{subst}
use swo_adobe_vipm_extension.Base.{
  ◌≡◌, ◌≢◌, ◌⊎◌, refl, sym, ap, ◌∙◌, String, Option, none, some, List, [], ◌∷◌, Bool, true, false,
  ◌==◌, eq_iff, arith, if◌then◌else◌, inl, inr, Bool-cases,
}
use swo_adobe_vipm_extension.Context.{Exception}
use swo_adobe_vipm_extension.Migration.{Transfer, World, save_row}
use swo_adobe_vipm_extension.Migration.Start.{Run, go_on, each}
use swo_adobe_vipm_extension.Migration.Table.{
  find_row, IsTable, save_row-IsTable, written, find_row-save_row,
}

-- `MovesTo` are the changes that the body saves, `Stays` its reasons to save nothing.
module _ (MovesTo : Transfer → Transfer → Type 0)
    (Stays : Transfer → Option Exception → Type 0) where
  pub data Wrote (t : Transfer) (before : List Transfer) (r : Run) : Type 0 where
    untouched : Stays t r.1 → r.0.transfers ≡ before → Wrote t before r
    wrote :
        (t2 : Transfer)
        → t2.record_id ≡ t.record_id
        → MovesTo t t2
        → r.0.transfers ≡ save_row t2 before
        → Wrote t before r

  -- The row of a selected transfer `t` after a loop that ends with `e`.
  pub data Handled (t : Transfer) (e : Option Exception) : Option Transfer → Type 0 where
    moved : (t2 : Transfer) → MovesTo t t2 → Handled t e (some t2)
    stayed : Stays t none ⊎ (e ≢ none) → Handled t e (some t)

  module _ (body : Transfer → World → Run)
      (body-Wrote : (t : Transfer) (w : World) → Wrote t w.transfers (body t w)) where
    other_row :
        (t : Transfer) (w : World) (r : Run) (id : String)
        → Wrote t w.transfers r
        → t.record_id == id ≡ false
        → find_row id r.0.transfers ≡ find_row id w.transfers
    other_row t w r id (untouched s same) h = ap (find_row id) same
    other_row t w r id (wrote t2 k m same) h =
        ap (find_row id) same
        ∙ find_row-save_row t2 id w.transfers
        ∙ not_written t2 id (find_row id w.transfers) (ap (λ x. x == id) k ∙ h)
      where
        not_written :
            (t2 : Transfer) (id : String) (o : Option Transfer)
            → t2.record_id == id ≡ false
            → written t2 id o ≡ o
        not_written t2 id none h = refl
        not_written t2 id (some row) h = ground arith

    pub unselected :
        (id : String) (ts : List Transfer) (w : World)
        → find_row id ts ≡ none
        → find_row id (each body ts w).0.transfers ≡ find_row id w.transfers
    unselected id [] w h = refl
    unselected id (t ∷ ts) w h =
        by_run (body t w) (λ w1. unselected id ts w1 (ground arith))
          (other_row t w (body t w) id (body-Wrote t w) (ground arith))
      where
        by_run :
            (r : Run)
            → ((w1 : World) → find_row id (each body ts w1).0.transfers ≡ find_row id w1.transfers)
            → find_row id r.0.transfers ≡ find_row id w.transfers
            → find_row id (go_on (each body ts) r).0.transfers ≡ find_row id w.transfers
        by_run (w1, some e) ih k = k
        by_run (w1, none) ih k = ih w1 ∙ k

    own_row :
        (t : Transfer) (w : World) (r : Run)
        → find_row t.record_id w.transfers ≡ some t
        → Wrote t w.transfers r
        → Handled t r.1 (find_row t.record_id r.0.transfers)
    own_row t w (w1, none) h (untouched s same) =
        rw (ap (find_row t.record_id) same ∙ h) (stayed (inl s))
    own_row t w (w1, some e) h (untouched s same) =
        rw (ap (find_row t.record_id) same ∙ h) (stayed (inr (λ x. cc)))
    own_row t w r h (wrote t2 k m same) =
        rw
          (ap (find_row t.record_id) same
            ∙ find_row-save_row t2 t.record_id w.transfers
            ∙ is_written (find_row t.record_id w.transfers) h)
          (moved t2 m)
      where
        is_written : (o : Option Transfer) → o ≡ some t → written t2 t.record_id o ≡ some t2
        is_written none h = cc
        is_written (some row) h = ground (arith, eq_iff t2.record_id t.record_id)

    -- The loop at the selected transfer itself, and at another one before it.
    own_turn :
        (t : Transfer) (ts : List Transfer) (r : Run)
        → find_row t.record_id ts ≡ none
        → Handled t r.1 (find_row t.record_id r.0.transfers)
        → Handled t
            (go_on (each body ts) r).1
            (find_row t.record_id (go_on (each body ts) r).0.transfers)
    own_turn t ts (w1, some e) h k = k
    own_turn t ts (w1, none) h k =
        rw (unselected t.record_id ts w1 h) (weaken (each body ts w1).1 k)
      where
        weaken : {o : Option Transfer} (e : Option Exception) → Handled t none o → Handled t e o
        weaken e (moved t2 m) = moved t2 m
        weaken e (stayed (inl s)) = stayed (inl s)
        weaken e (stayed (inr n)) = absurd (n refl)

    pub selected :
        (id : String) (ts : List Transfer) (w : World) (t : Transfer)
        → IsTable ts
        → find_row id ts ≡ some t
        → find_row id w.transfers ≡ some t
        → Handled t (each body ts w).1 (find_row id (each body ts w).0.transfers)
    selected id [] w t u h k = cc
    selected id (x ∷ ts) w t u h k = elim (Bool-cases (x.record_id == id)) [
      | inl own ↦
          (let same : x.record_id ≡ id = ground (arith, eq_iff x.record_id id) in
            let row : x ≡ t = head_row _ (x.record_id == id) own h in
            subst
              (λ y.
                Handled y (each body (x ∷ ts) w).1 (find_row id (each body (x ∷ ts) w).0.transfers))
              row
              (subst
                (λ j.
                  Handled x (each body (x ∷ ts) w).1
                    (find_row j (each body (x ∷ ts) w).0.transfers))
                same
                (own_turn x ts (body x w) u.0 (
                  own_row x w (body x w)
                    (ap (λ j. find_row j w.transfers) same ∙ k ∙ ap some (sym row))
                    (body-Wrote x w)))))
      | inr other ↦
          other_turn (body x w) (λ w1. selected id ts w1 t u.1 (ground arith))
            (other_row x w (body x w) id (body-Wrote x w) other ∙ k)
    ]
      where
        head_row :
            (o : Option Transfer) (b : Bool) → b ≡ true → (if b then some x else o) ≡ some t → x ≡ t
        head_row o true e h = cc
        head_row o false e h = cc

        other_turn :
            (r : Run)
            → ((w1 : World)
                → find_row id w1.transfers ≡ some t
                → Handled t (each body ts w1).1 (find_row id (each body ts w1).0.transfers))
            → find_row id r.0.transfers ≡ some t
            → Handled t
                (go_on (each body ts) r).1
                (find_row id (go_on (each body ts) r).0.transfers)
        other_turn (w1, some e) ih k = rw k (stayed (inr (λ x. cc)))
        other_turn (w1, none) ih k = ih w1 k

    Wrote-IsTable :
        (t : Transfer) (w : World) (r : Run)
        → Wrote t w.transfers r
        → IsTable w.transfers
        → IsTable r.0.transfers
    Wrote-IsTable t w r (untouched s same) u = subst IsTable (sym same) u
    Wrote-IsTable t w r (wrote t2 k m same) u =
        subst IsTable (sym same) (save_row-IsTable t2 w.transfers u)

    pub each-IsTable :
        (ts : List Transfer) (w : World)
        → IsTable w.transfers
        → IsTable (each body ts w).0.transfers
    each-IsTable [] w u = u
    each-IsTable (t ∷ ts) w u =
        by_run (body t w) (each-IsTable ts) (Wrote-IsTable t w (body t w) (body-Wrote t w) u)
      where
        by_run :
            (r : Run)
            → ((w1 : World) → IsTable w1.transfers → IsTable (each body ts w1).0.transfers)
            → IsTable r.0.transfers
            → IsTable (go_on (each body ts) r).0.transfers
        by_run (w1, some e) ih u = u
        by_run (w1, none) ih u = ih w1 u
