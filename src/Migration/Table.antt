-- ===== src/Migration/Table.antt =====
-- The table of transfers: a save changes one row, and a loop over saved transfers handles each row once.
use swo_adobe_vipm_extension.Base.{
  ◌≡◌, refl, String, Option, none, some, List, [], ◌∷◌, Bool, ◌==◌, eq_iff, arith, if◌then◌else◌,
  keep,
}
use swo_adobe_vipm_extension.Migration.{Transfer, save_row}

-- The row of a record.
abbrev pub find_row : String → List Transfer → Option Transfer
find_row id [] = none
find_row id (row ∷ rows) = if row.record_id == id then some row else find_row id rows

-- Every record has one row.
abbrev pub IsTable : List Transfer → Type 0
IsTable [] = Unit
IsTable (row ∷ rows) = (find_row row.record_id rows ≡ none) × IsTable rows

-- Where a saved transfer has a row, the row of a record is the saved transfer or what it was.
abbrev pub written : Transfer → String → Option Transfer → Option Transfer
written t id none = none
written t id (some row) = if t.record_id == id then some t else some row

pub find_row-save_row :
    (t : Transfer) (id : String) (rows : List Transfer)
    → find_row id (save_row t rows) ≡ written t id (find_row id rows)
find_row-save_row t id [] = refl
find_row-save_row t id (row ∷ rows) = ground (
  arith,
  eq_iff row.record_id t.record_id,
  eq_iff row.record_id id,
  eq_iff t.record_id id,
  find_row-save_row t id rows,
)

pub find_row_id :
    (id : String) (rows : List Transfer) (t : Transfer)
    → find_row id rows ≡ some t
    → t.record_id ≡ id
find_row_id id [] t h = cc
find_row_id id (row ∷ rows) t h = ground (arith, eq_iff row.record_id id, find_row_id id rows t)

pub save_row-IsTable :
    (t : Transfer) (rows : List Transfer) → IsTable rows → IsTable (save_row t rows)
save_row-IsTable t [] h = tt
save_row-IsTable t (row ∷ rows) h = ground (
  arith,
  eq_iff row.record_id t.record_id,
  find_row-save_row t row.record_id rows,
  eq_iff t.record_id row.record_id,
  save_row-IsTable t rows h.1,
)

-- A selection of a table is a table of rows with the same contents.
pub find_row-keep-none :
    (p : Transfer → Bool) (id : String) (rows : List Transfer)
    → find_row id rows ≡ none
    → find_row id (keep p rows) ≡ none
find_row-keep-none p id [] h = refl
find_row-keep-none p id (row ∷ rows) h = ground (arith, find_row-keep-none p id rows)

pub keep-IsTable :
    (p : Transfer → Bool) (rows : List Transfer) → IsTable rows → IsTable (keep p rows)
keep-IsTable p [] h = tt
keep-IsTable p (row ∷ rows) h =
    ground (arith, find_row-keep-none p row.record_id rows h.0, keep-IsTable p rows h.1)

pub find_row-keep :
    (p : Transfer → Bool) (id : String) (rows : List Transfer) (t : Transfer)
    → IsTable rows
    → find_row id rows ≡ some t
    → find_row id (keep p rows) ≡ (if p t then some t else none)
find_row-keep p id [] t h e = cc
find_row-keep p id (row ∷ rows) t h e =
    ground
      (arith, eq_iff row.record_id id, find_row-keep p id rows t h.1, find_row-keep-none p id rows)
