-- ===== src/Transferring/Matched.antt =====
-- The draft after `add_lines_to_order`: its lines are those of the membership's items.
use mathlib.Core.Path.{subst}
use swo_adobe_vipm_extension.Base.{
  ℕ, ◌≡◌, ◌≢◌, refl, ap, sym, ◌∙◌, String, Option, none, some, List, [], ◌∷◌, ◌++◌, map, Bool, true,
  false, ◌==◌, ◌||◌, if◌then◌else◌, keep, contains, update_first, is_some, find_first, All, All-imp,
  arith, eq_iff, Bool-cases, inl, inr,
}
use swo_adobe_vipm_extension.Context.{bind-ok, Reply, ok, raises}
use swo_adobe_vipm_extension.Dict.{Dict, lookup, insert, update, update-IsDict, IsDict}
use swo_adobe_vipm_extension.Dict.Entries.{lookup-All}
use swo_adobe_vipm_extension.Order.{Order, Line, Item}
use swo_adobe_vipm_extension.Order.Lines.{
  get_partial_sku, occurs_in, get_order_line_by_sku, has_order_line_updated, line_pair, item_pair,
}
use swo_adobe_vipm_extension.Order.Updated.{
  last_quantity, or_else, lookup-update, has_order_line_updated_iff,
}
use swo_adobe_vipm_extension.Params.{get_ordering_parameter}
use swo_adobe_vipm_extension.Transferring.{TransferItem}
use swo_adobe_vipm_extension.Transferring.Lines.{
  Added, put_line, new_line, set_quantity, update_order_lines, update_line, unknown_item,
  report_item, keep_valid, with_lines, partial_skus, as_items, name_of,
}

abbrev pub partial : TransferItem → String
partial a = get_partial_sku a.offer_id

-- A vendor id is a part of the partial SKU of an item only if it is the whole of it.
abbrev pub IsExact : List TransferItem → String → Type 0
IsExact adobe_items vendor =
    All (λ a. occurs_in vendor (partial a) ≡ (vendor == partial a)) adobe_items

put_line-insert :
    (item : Item) (a : TransferItem) (prices : Dict ℕ) (lines : List Line)
    → All (λ line. occurs_in line.item.vendor (partial a) ≡ (line.item.vendor == partial a)) lines
    → item.vendor ≡ partial a
    → map line_pair (put_line item a prices lines)
      ≡ insert (partial a) a.quantity (map line_pair lines)
unfolding put_line get_order_line_by_sku
put_line-insert item a prices [] h same = ap (λ v. (v, a.quantity) ∷ []) same
put_line-insert item a prices (line ∷ lines) h same =
    ground (
      arith,
      h.0,
      eq_iff line.item.vendor (partial a),
      put_line-insert item a prices lines h.1 same,
    )

abbrev pub AreExact : List TransferItem → List Line → Type 0
AreExact xs lines = All (λ line. IsExact xs line.item.vendor) lines

append-All :
    (P : Line → Type 0) (lines : List Line) (line : Line)
    → All P lines
    → P line
    → All P (lines ++ line ∷ [])
append-All P [] line h p = (p, tt)
append-All P (x ∷ lines) line h p = (h.0, append-All P lines line h.1 p)

update_first-All :
    (P : String → Type 0) (p : Line → Bool) (quantity : ℕ) (lines : List Line)
    → All (λ line. P line.item.vendor) lines
    → All (λ line. P line.item.vendor) (update_first p (set_quantity quantity) lines)
update_first-All P p quantity [] h = tt
update_first-All P p quantity (line ∷ lines) h = elim (Bool-cases (p line)) [
  | inl e ↦ rw e h
  | inr e ↦ rw e (h.0, update_first-All P p quantity lines h.1)
]

-- The vendor ids after a line is put are those of before and the item's.
put_line-All :
    (P : String → Type 0) (item : Item) (a : TransferItem) (prices : Dict ℕ) (lines : List Line)
    → All (λ line. P line.item.vendor) lines
    → P item.vendor
    → All (λ line. P line.item.vendor) (put_line item a prices lines)
unfolding put_line get_order_line_by_sku
put_line-All P item a prices lines h p =
    by_line (find_first (λ line. occurs_in line.item.vendor (partial a)) lines)
  where
    by_line :
        (o : Option Line)
        → All
            (λ line. P line.item.vendor)
            (elim o [
              | none ↦ lines ++ new_line item a prices ∷ []
              | some x ↦
                  update_first
                    (λ line. occurs_in line.item.vendor (partial a))
                    (set_quantity a.quantity)
                    lines
            ])
    by_line none = append-All (λ line. P line.item.vendor) lines (new_line item a prices) h p
    by_line (some x) = update_first-All P _ a.quantity lines h

-- An entry of the map of the product's items.
abbrev pub IsEntry : List TransferItem → String × Item → Type 0
IsEntry xs (k, item) = (item.vendor ≡ k) × IsExact xs item.vendor

-- The lines that the loop leaves, before it drops those that are not of the membership.
pub record Updated (xs : List TransferItem) (skus : List String) (order order2 : Order)
    : Type 0 where
  lines : List Line
  kept : order2.lines ≡ keep (λ line. contains skus line.item.vendor) lines
  table : map line_pair lines ≡ update (map line_pair order.lines) (map item_pair (as_items xs))

abbrev pub returned_flag : Reply Added → Bool
returned_flag (ok (flag, order)) = flag
returned_flag (raises e) = false

pub flags : true ≢ false
flags h = cc

unknown_item-true :
    (a : TransferItem) (order order2 : Order) → unknown_item a order ≢ ok (false, order2)
unfolding unknown_item report_item
unknown_item-true a order order2 h =
    let (title, _, f) =
      bind-ok (name_of (get_ordering_parameter order "membershipId")) (report_item a order)
        (false, order2) h in
    flags (ap returned_flag f)

-- The order that comes back.
abbrev pub returned_order : Order → Reply Added → Order
returned_order o (ok (flag, order)) = order
returned_order o (raises e) = o

rest_exact :
    (a : TransferItem) (xs : List TransferItem) (lines : List Line)
    → AreExact (a ∷ xs) lines
    → AreExact xs lines
rest_exact a xs lines = All-imp (λ line h. h.1) lines

pub update_order_lines-Updated :
    (xs : List TransferItem) (prices : Dict ℕ) (items_map : Dict Item) (skus : List String)
    (b : Bool) (order order2 : Order)
    → All (IsEntry xs) items_map
    → AreExact xs order.lines
    → update_order_lines xs prices items_map skus b order ≡ ok (false, order2)
    → Updated xs skus order order2
unfolding keep_valid
update_order_lines-Updated [] prices items_map skus b order order2 m x e = record {
  lines = order.lines;
  kept = ap (λ r. (returned_order order r).lines) (sym e);
  table = refl;
}
update_order_lines-Updated (a ∷ xs) prices items_map skus b order order2 m x e =
    by_item (lookup (partial a) items_map) refl
      (λ o.
        update_order_lines-Updated xs prices items_map skus b o order2
          (All-imp (λ p h. (h.0, h.1.1)) items_map m))
      e
  where
    by_item :
        (found : Option Item)
        → lookup (partial a) items_map ≡ found
        → ((o : Order)
            → AreExact xs o.lines
            → update_order_lines xs prices items_map skus b o ≡ ok (false, order2)
            → Updated xs skus o order2)
        → update_line (update_order_lines xs prices items_map skus b) a prices order found
          ≡ ok (false, order2)
        → Updated (a ∷ xs) skus order order2
    by_item none f ih e = absurd (unknown_item-true a order order2 e)
    by_item (some item) f ih e =
        let entry = lookup-All (IsEntry (a ∷ xs)) (partial a) items_map item m f in
        let r =
          ih (with_lines (put_line item a prices order.lines) order)
            (put_line-All (IsExact xs) item a prices order.lines (rest_exact a xs order.lines x)
              entry.1.1)
            e in
        record {
          lines = r.lines;
          kept = r.kept;
          table =
              r.table
              ∙ ap (λ d. update d (map item_pair (as_items xs)))
                  (put_line-insert item a prices order.lines (All-imp (λ line h. h.0) order.lines x)
                    entry.0);
        }

-- With one entry for a key, the last quantity is the entry's.
last_quantity-lookup : (k : String) (d : Dict ℕ) → IsDict d → last_quantity k d ≡ lookup k d
last_quantity-lookup k [] h = refl
last_quantity-lookup k ((j, v) ∷ d) h =
    ground (arith, eq_iff j k, last_quantity-lookup k d h.1, h.0)

lookup-keep :
    (skus : List String) (k : String) (lines : List Line)
    → lookup k (map line_pair (keep (λ line. contains skus line.item.vendor) lines))
      ≡ (if contains skus k then lookup k (map line_pair lines) else none)
lookup-keep skus k [] = ground arith
lookup-keep skus k (line ∷ lines) =
    ground (arith, eq_iff line.item.vendor k, lookup-keep skus k lines)

keep-IsDict :
    (skus : List String) (lines : List Line)
    → IsDict (map line_pair lines)
    → IsDict (map line_pair (keep (λ line. contains skus line.item.vendor) lines))
keep-IsDict skus [] h = tt
keep-IsDict skus (line ∷ lines) h = elim (Bool-cases (contains skus line.item.vendor)) [
  | inl e ↦ rw e (lookup-keep skus line.item.vendor lines ∙ rw e h.0, keep-IsDict skus lines h.1)
  | inr e ↦ rw e (keep-IsDict skus lines h.1)
]

-- A SKU has a last quantity exactly if it is one of the items'.
no_quantity :
    (k : String) (xs : List TransferItem)
    → contains (partial_skus xs) k ≡ is_some (last_quantity k (map item_pair (as_items xs)))
no_quantity k [] = refl
no_quantity k (a ∷ xs) =
    by_rest (partial a == k) (last_quantity k (map item_pair (as_items xs))) (no_quantity k xs)
  where
    by_rest :
        (b : Bool) (o : Option ℕ)
        → contains (partial_skus xs) k ≡ is_some o
        → (b || contains (partial_skus xs) k)
          ≡ is_some (or_else o (if b then some a.quantity else none))
    by_rest true none h = refl
    by_rest false none h = h
    by_rest true (some v) h = refl
    by_rest false (some v) h = h

-- After the update the lines of the order count as unchanged against the items.
pub Updated-has_order_line_updated :
    (xs : List TransferItem) (order order2 : Order)
    → IsDict (map line_pair order.lines)
    → Updated xs (partial_skus xs) order order2
    → has_order_line_updated order2.lines (as_items xs) ≡ false
Updated-has_order_line_updated xs order order2 h u =
    (has_order_line_updated_iff order2.lines (as_items xs)).1 (λ k.
      ap (λ lines. last_quantity k (map line_pair lines)) u.kept
      ∙ last_quantity-lookup k
          (map line_pair (keep (λ line. contains (partial_skus xs) line.item.vendor) u.lines))
          (keep-IsDict (partial_skus xs) u.lines lines-IsDict)
      ∙ lookup-keep (partial_skus xs) k u.lines
      ∙ by_quantity k (last_quantity k (map item_pair (as_items xs))) (no_quantity k xs) (
          ap (lookup k) u.table
          ∙ lookup-update k (map line_pair order.lines) (map item_pair (as_items xs))))
  where
    lines-IsDict : IsDict (map line_pair u.lines)
    lines-IsDict =
        subst IsDict (sym u.table)
          (update-IsDict (map line_pair order.lines) (map item_pair (as_items xs)) h)

    by_quantity :
        (k : String) (o : Option ℕ)
        → contains (partial_skus xs) k ≡ is_some o
        → lookup k (map line_pair u.lines) ≡ or_else o (lookup k (map line_pair order.lines))
        → (if contains (partial_skus xs) k then lookup k (map line_pair u.lines) else none) ≡ o
    by_quantity k none e f = rw e refl
    by_quantity k (some v) e f = rw e f
