-- ===== src/Transferring/Added.antt =====
-- `add_lines_to_order` as a whole: a draft that it accepts has the lines of the membership.
use mathlib.Core.Path.{subst}
use swo_adobe_vipm_extension.Base.{
  ◌≡◌, ◌≢◌, refl, ap, sym, String, Option, List, [], ◌∷◌, map, Bool, true, false, not, ◌&&◌,
  if◌then◌else◌, keep, contains, All, All-imp, Bool-cases, inl, inr,
}
use swo_adobe_vipm_extension.Context.{Reply, ok}
use swo_adobe_vipm_extension.Customer.{Commitment}
use swo_adobe_vipm_extension.Dict.{IsDict}
use swo_adobe_vipm_extension.Dict.Entries.{update-All}
use swo_adobe_vipm_extension.Order.{Order, Item, updating_transfer_items}
use swo_adobe_vipm_extension.Order.Lines.{has_order_line_updated, line_pair}
use swo_adobe_vipm_extension.Params.{set_order_error}
use swo_adobe_vipm_extension.Transferring.{
  TransferItem, Pricing, get_prices, are_all_transferring_items_expired,
  is_transferring_item_expired,
}
use swo_adobe_vipm_extension.Transferring.Lines.{
  Added, map_items, vendor_pair, partial_skus, as_items, is_filled, get_updated_order_lines,
  handle_empty_adobe_items, non_expired, fail_validation_if_items_updated, add_items,
  add_lines_to_order,
}
use swo_adobe_vipm_extension.Transferring.Matched.{
  IsExact, AreExact, IsEntry, update_order_lines-Updated, Updated-has_order_line_updated, flags,
  returned_flag, returned_order,
}

kept-IsExact :
    (p : TransferItem → Bool) (xs : List TransferItem) (vendor : String)
    → IsExact xs vendor
    → IsExact (keep p xs) vendor
kept-IsExact p [] vendor h = tt
kept-IsExact p (x ∷ xs) vendor h = elim (Bool-cases (p x)) [
  | inl e ↦ rw e (h.0, kept-IsExact p xs vendor h.1)
  | inr e ↦ rw e (kept-IsExact p xs vendor h.1)
]

entries_of :
    (xs : List TransferItem) (p : Item → Bool) (items : List Item)
    → All (λ item. IsExact xs item.vendor) items
    → All (IsEntry xs) (map vendor_pair (keep p items))
entries_of xs p [] h = tt
entries_of xs p (item ∷ items) h = elim (Bool-cases (p item)) [
  | inl e ↦ rw e ((refl, h.0), entries_of xs p items h.1)
  | inr e ↦ rw e (entries_of xs p items h.1)
]

module _ (pricing : Pricing) where
  -- The lines of the order count as unchanged against the items, of which there are some.
  pub record HasLines (xs : List TransferItem) (order : Order) : Type 0 where
    pub filled : is_filled xs ≡ true
    pub same : has_order_line_updated order.lines (as_items xs) ≡ false

  pub data IsAdded (xs : List TransferItem) (order order2 : Order) : Type 0 where
    all_expired :
        are_all_transferring_items_expired pricing.today xs ≡ true
        → is_filled order.lines ≡ true
        → order2 ≡ order
        → IsAdded xs order order2
    revived :
        are_all_transferring_items_expired pricing.today xs ≡ true
        → HasLines xs order2
        → IsAdded xs order order2
    active : HasLines (non_expired pricing xs) order2 → IsAdded xs order order2

  abbrev Never : Reply Added → Order → Type 0
  Never r order2 = r ≡ ok (true, order2)

  get_updated_order_lines-HasLines :
      (xs : List TransferItem) (commitment : Option Commitment) (items : List Item) (b : Bool)
      (order order2 : Order)
      → IsDict (map line_pair order.lines)
      → All (λ item. IsExact xs item.vendor) items
      → AreExact xs order.lines
      → get_updated_order_lines pricing xs commitment items b order ≡ ok (false, order2)
      → has_order_line_updated order2.lines (as_items xs) ≡ false
  unfolding get_updated_order_lines map_items
  get_updated_order_lines-HasLines xs commitment items b order order2 d x y e =
      Updated-has_order_line_updated xs order order2 d (
        update_order_lines-Updated xs
          (get_prices pricing commitment (map (λ item. item.offer_id) xs))
          (map_items (partial_skus xs) items) (partial_skus xs) b order order2
          (update-All (IsEntry xs) [] _ tt
            (entries_of xs (λ item. contains (partial_skus xs) item.vendor) items x))
          y e)

  no_empty :
      (order order2 : Order) → ok (handle_empty_adobe_items pricing order) ≢ ok (false, order2)
  unfolding handle_empty_adobe_items
  no_empty order order2 h = flags (ap returned_flag h)

  add_items-HasLines :
      (commitment : Option Commitment) (items : List Item) (xs : List TransferItem) (b : Bool)
      (order order2 : Order)
      → IsDict (map line_pair order.lines)
      → All (λ item. IsExact xs item.vendor) items
      → AreExact xs order.lines
      → add_items pricing commitment items xs (b, order) ≡ ok (false, order2)
      → HasLines xs order2
  add_items-HasLines commitment items [] b order order2 d x y e = absurd (no_empty order order2 e)
  add_items-HasLines commitment items (a ∷ xs) b order order2 d x y e = record {
    filled = refl;
    same = get_updated_order_lines-HasLines (a ∷ xs) commitment items b order order2 d x y e;
  }

  -- The same where the order may have been given an error before.
  after_check-HasLines :
      (commitment : Option Commitment) (items : List Item) (xs : List TransferItem) (r : Added)
      (order order2 : Order)
      → r.1.lines ≡ order.lines
      → IsDict (map line_pair order.lines)
      → All (λ item. IsExact xs item.vendor) items
      → AreExact xs order.lines
      → add_items pricing commitment items xs r ≡ ok (false, order2)
      → HasLines xs order2
  after_check-HasLines commitment items xs (b, order1) order order2 same d x y e =
      add_items-HasLines commitment items xs b order1 order2
        (subst (λ lines. IsDict (map line_pair lines)) (sym same) d) x
        (subst (AreExact xs) (sym same) y) e

  fail_validation-lines :
      (xs : List TransferItem) (order : Order)
      → (fail_validation_if_items_updated pricing xs order).1.lines ≡ order.lines
  unfolding fail_validation_if_items_updated set_order_error
  fail_validation-lines xs order =
      by_test (is_filled order.lines && has_order_line_updated order.lines (as_items xs))
    where
      by_test :
          (b : Bool)
          → (if◌then◌else◌ {A = Added} b
              (true, set_order_error order updating_transfer_items)
              (false, order)).1.lines
            ≡ order.lines
      by_test true = refl
      by_test false = refl

  -- If `add_lines_to_order` ends without its error flag, in a draft with at most one line for each
  -- vendor id, and where the vendor ids of the lines and of the product's items are parts of the
  -- partial SKUs of Adobe's items only if they are the whole of them: then all of Adobe's items have
  -- expired and the draft, which has lines, is as it was; or its lines are unchanged against
  -- Adobe's items that have not expired, or against all of them where all have expired, so that a
  -- second validation finds nothing to update.
  pub add_lines_to_order-IsAdded :
      (items_of : List String → List Item) (xs : List TransferItem) (commitment : Option Commitment)
      (is_transferred : Bool) (order order2 : Order)
      → IsDict (map line_pair order.lines)
      → All (λ item. IsExact xs item.vendor) (items_of (partial_skus xs))
      → AreExact xs order.lines
      → add_lines_to_order pricing items_of xs commitment is_transferred order ≡ ok (false, order2)
      → IsAdded xs order order2
  unfolding add_lines_to_order
  add_lines_to_order-IsAdded items_of [] commitment is_transferred order order2 d x y e =
      absurd (no_empty order order2 e)
  add_lines_to_order-IsAdded items_of (a ∷ xs) commitment is_transferred order order2 d x y e =
      by_tests is_transferred (are_all_transferring_items_expired pricing.today (a ∷ xs)) refl
        (is_filled order.lines) refl e
    where
      is_active : TransferItem → Bool
      is_active item = not (is_transferring_item_expired pricing.today item)

      items : List Item
      items = items_of (partial_skus (a ∷ xs))

      active_exact : All (λ item. IsExact (non_expired pricing (a ∷ xs)) item.vendor) items
      active_exact = All-imp (λ item h. kept-IsExact is_active (a ∷ xs) item.vendor h) items x

      active_lines : AreExact (non_expired pricing (a ∷ xs)) order.lines
      active_lines =
          All-imp (λ line h. kept-IsExact is_active (a ∷ xs) line.item.vendor h) order.lines y

      by_tests :
          (transferred b : Bool)
          → are_all_transferring_items_expired pricing.today (a ∷ xs) ≡ b
          → (c : Bool) → is_filled order.lines ≡ c
          → (if transferred
              then if b
                then if c
                  then ok (false, order)
                  else add_items pricing commitment items (a ∷ xs) (false, order)
                else add_items pricing commitment items
                    (non_expired pricing (a ∷ xs))
                    (fail_validation_if_items_updated pricing (non_expired pricing (a ∷ xs)) order)
              else add_items pricing commitment items (non_expired pricing (a ∷ xs)) (false, order))
            ≡ ok (false, order2)
          → IsAdded (a ∷ xs) order order2
      by_tests true true f true g e = all_expired f g (ap (returned_order order) (sym e))
      by_tests true true f false g e =
          revived f (add_items-HasLines commitment items (a ∷ xs) false order order2 d x y e)
      by_tests true false f c g e = active (
          after_check-HasLines commitment items (non_expired pricing (a ∷ xs))
            (fail_validation_if_items_updated pricing (non_expired pricing (a ∷ xs)) order) order
            order2 (fail_validation-lines (non_expired pricing (a ∷ xs)) order) d active_exact
            active_lines e)
      by_tests false b f c g e = active (
          add_items-HasLines commitment items (non_expired pricing (a ∷ xs)) false order order2 d
            active_exact active_lines e)
