-- ===== src/Transferring/Products.antt =====
-- The product has the items of a transfer for which `_get_order_lines_from_transfer` reports no SKU.
use mathlib.Core.List.{Memᴰ}
use swo_adobe_vipm_extension.Base.{
  ◌≡◌, refl, String, ℕ, Option, none, some, List, [], ◌∷◌, map, All, All-imp,
}
use swo_adobe_vipm_extension.Dict.{Dict, lookup, update}
use swo_adobe_vipm_extension.Dict.Entries.{update-All, lookup-All}
use swo_adobe_vipm_extension.Order.{Order, Line, Item}
use swo_adobe_vipm_extension.Order.Lines.{get_partial_sku}
use swo_adobe_vipm_extension.Transferring.{TransferItem, exclude_items_with_deployment_id}
use swo_adobe_vipm_extension.Transferring.Lines.{vendor_pair, partial_skus}
use swo_adobe_vipm_extension.Transferring.Reseller.{
  ResellerTransfer, Outside, add_transfer_line, lines_of_items, get_order_lines_from_transfer,
}

-- One of the items has the SKU of the transfer's item.
abbrev pub HasItem : List Item → TransferItem → Type 0
HasItem items t = (i : Item) × Memᴰ i items × (i.vendor ≡ get_partial_sku t.offer_id)

abbrev IsEntry : List Item → String × Item → Type 0
IsEntry items (k, i) = Memᴰ i items × (i.vendor ≡ k)

all_listed : (items : List Item) → All (λ i. Memᴰ i items) items
all_listed [] = tt
all_listed (i ∷ items) = (Memᴰ.head refl, All-imp (λ j m. Memᴰ.tail m) items (all_listed items))

entries_lem :
    (items listed : List Item)
    → All (λ i. Memᴰ i items) listed
    → All (IsEntry items) (map vendor_pair listed)
entries_lem items [] h = tt
entries_lem items (i ∷ listed) h = ((h.0, refl), entries_lem items listed h.1)

no_error :
    (t : TransferItem) (prices : Dict ℕ) (found : Option Item) (rest : List Line × List String)
    → (add_transfer_line t prices found rest).1 ≡ []
    → ((i : Item) × (found ≡ some i)) × (rest.1 ≡ [])
no_error t prices none (lines, errors) h = cc
no_error t prices (some i) (lines, errors) h = ((i, refl), h)

no_errors :
    (prices : Dict ℕ) (items : List Item) (ts : List TransferItem)
    → (lines_of_items prices (update [] (map vendor_pair items)) ts).1 ≡ []
    → All (HasItem items) ts
no_errors prices items [] h = tt
no_errors prices items (t ∷ ts) h =
    let items_map = update [] (map vendor_pair items) in
    let both =
      no_error t prices (lookup (get_partial_sku t.offer_id) items_map)
        (lines_of_items prices items_map ts) h in
    let entry =
      lookup-All (IsEntry items) (get_partial_sku t.offer_id) items_map both.0.0
        (update-All (IsEntry items) [] (map vendor_pair items) tt
          (entries_lem items items (all_listed items)))
        both.0.1 in
    ((both.0.0, entry.0, entry.1), no_errors prices items ts both.1)

-- The items outside deployments.
abbrev pub outside_deployments : ResellerTransfer → List TransferItem
outside_deployments transfer = exclude_items_with_deployment_id transfer.line_items

pub no_errors-HasItem :
    (outside : Outside) (order : Order) (transfer : ResellerTransfer)
    → (get_order_lines_from_transfer outside order transfer).1 ≡ []
    → All
        (HasItem (outside.items_of (partial_skus (outside_deployments transfer))))
        (outside_deployments transfer)
unfolding get_order_lines_from_transfer
no_errors-HasItem outside order transfer h =
    no_errors _ (outside.items_of (partial_skus (outside_deployments transfer)))
      (outside_deployments transfer) h
