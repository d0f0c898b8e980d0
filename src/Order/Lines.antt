-- ===== src/Order/Lines.antt =====
-- The order lines (adobe_vipm/flows/utils/order.py, adobe_vipm/utils.py): the split into downsizes,
-- upsizes and net new lines, the lookup of a line by a full SKU, and the comparison with Adobe items.
use mathlib.Core.List.{Perm, perm_middle, append_assoc}
use mathlib.Core.List.Perm
use swo_adobe_vipm_extension.Base.{
  ℕ, ◌<◌, ◌≤◌, String, ◌≡◌, Option, List, [], ◌∷◌, ◌++◌, Bool, ◌||◌, not, arith, if◌then◌else◌, ltb,
  starts_with, take_text, find_first, map, All, Bool-cases, inl, inr,
}
use swo_adobe_vipm_extension.Dict.{update}
use swo_adobe_vipm_extension.Dict.Equality.{dict_eq}
use swo_adobe_vipm_extension.Order.{Line}

pub record Split : Type 0 where
  pub downsize_lines : List Line
  pub upsize_lines : List Line
  pub new_lines : List Line

-- One round of the loop, on what the later rounds give.
abbrev add_line : Line → Split → Split
add_line line rest =
    if ltb line.quantity line.old_quantity
    then record rest { downsize_lines = line ∷ rest.downsize_lines }
    else if ltb 0 line.old_quantity
    then record rest { upsize_lines = line ∷ rest.upsize_lines }
    else record rest { new_lines = line ∷ rest.new_lines }

unfoldable pub split_downsizes_upsizes_new : List Line → Split
split_downsizes_upsizes_new [] = record { downsize_lines = []; upsize_lines = []; new_lines = [] }
split_downsizes_upsizes_new (line ∷ lines) = add_line line (split_downsizes_upsizes_new lines)

abbrev pub IsDownsize : Line → Type 0
IsDownsize line = line.quantity < line.old_quantity

abbrev pub IsUpsize : Line → Type 0
IsUpsize line = (0 < line.old_quantity) × (line.old_quantity ≤ line.quantity)

abbrev pub IsNew : Line → Type 0
IsNew line = line.old_quantity ≡ 0

pub record IsSplit (lines : List Line) (s : Split) : Type 0 where
  pub complete : Perm (s.downsize_lines ++ (s.upsize_lines ++ s.new_lines)) lines
  pub downsizes : All IsDownsize s.downsize_lines
  pub upsizes : All IsUpsize s.upsize_lines
  pub news : All IsNew s.new_lines

perm_last :
    (line : Line) (s : Split) (lines : List Line)
    → Perm (s.downsize_lines ++ (s.upsize_lines ++ s.new_lines)) lines
    → Perm (s.downsize_lines ++ (s.upsize_lines ++ line ∷ s.new_lines)) (line ∷ lines)
perm_last line s lines h = rw (← append_assoc) (
    Perm.trans (perm_middle (s.downsize_lines ++ s.upsize_lines) s.new_lines)
      (Perm.cons line (rw append_assoc h)))

add_line-IsSplit :
    (line : Line) (lines : List Line) (s : Split)
    → IsSplit lines s
    → IsSplit (line ∷ lines) (add_line line s)
add_line-IsSplit line lines s h = elim (Bool-cases (ltb line.quantity line.old_quantity)) [
  | inl e ↦ rw e (record {
    complete = Perm.cons line h.complete;
    downsizes = (ground arith, h.downsizes);
    upsizes = h.upsizes;
    news = h.news;
  })
  | inr e ↦ elim (Bool-cases (ltb 0 line.old_quantity)) [
    | inl f ↦
        rw (e, f)
          (record {
            complete =
                Perm.trans (perm_middle s.downsize_lines (s.upsize_lines ++ s.new_lines))
                  (Perm.cons line h.complete);
            downsizes = h.downsizes;
            upsizes = (ground arith, h.upsizes);
            news = h.news;
          })
    | inr f ↦
        rw (e, f)
          (record {
            complete = perm_last line s lines h.complete;
            downsizes = h.downsizes;
            upsizes = h.upsizes;
            news = (ground arith, h.news);
          })
  ]
]

-- Every line of an order is put into exactly one of the three lists, as often as the order has it: a
-- line whose quantity falls is a downsize, a line that had a quantity and keeps or raises it is an
-- upsize, and a line that had none is new.
pub split_downsizes_upsizes_new-IsSplit :
    (lines : List Line) → IsSplit lines (split_downsizes_upsizes_new lines)
unfolding split_downsizes_upsizes_new
split_downsizes_upsizes_new-IsSplit [] = record {
  complete = Perm.refl [];
  downsizes = tt;
  upsizes = tt;
  news = tt;
}
split_downsizes_upsizes_new-IsSplit (line ∷ lines) =
    add_line-IsSplit line lines (split_downsizes_upsizes_new lines)
      (split_downsizes_upsizes_new-IsSplit lines)

-- `vendor in sku`: the text occurs somewhere in the other.
unfoldable pub occurs_in : String → String → Bool
unfolding starts_with
occurs_in vendor String.[] = starts_with vendor String.[]
occurs_in vendor (String.◌∷◌ c sku) = starts_with vendor (String.◌∷◌ c sku) || occurs_in vendor sku

unfoldable pub get_order_line_by_sku : List Line → String → Option Line
unfolding occurs_in
get_order_line_by_sku lines sku = find_first (λ line. occurs_in line.item.vendor sku) lines

-- adobe_vipm/utils.py: `full_sku[:10]`
unfoldable pub get_partial_sku : String → String
unfolding take_text
get_partial_sku full_sku = take_text 10 full_sku

-- An item of a transfer or a subscription, with the field that `quantity_field` names.
pub record AdobeItem : Type 0 where
  pub offer_id : String
  pub quantity : ℕ

abbrev pub line_pair : Line → String × ℕ
line_pair line = (line.item.vendor, line.quantity)

abbrev pub item_pair : AdobeItem → String × ℕ
item_pair item = (get_partial_sku item.offer_id, item.quantity)

-- A dict comprehension keeps the last value of a key.
unfoldable pub has_order_line_updated : List Line → List AdobeItem → Bool
unfolding dict_eq
has_order_line_updated order_lines adobe_items =
    not (dict_eq (update [] (map line_pair order_lines)) (update [] (map item_pair adobe_items)))
