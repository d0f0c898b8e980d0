-- ===== src/Migration/Offers.antt =====
-- The offers of a transfer: those of a preview are listed once, however often it is taken.
use swo_adobe_vipm_extension.Base.{
  ◌≡◌, refl, ap, ◌∙◌, String, List, [], ◌∷◌, ◌++◌, map, Bool, true, false, ◌==◌, ◌||◌, eq_refl,
  arith, if◌then◌else◌, keep, All, All-imp, contains, not, Bool-cases, inl, inr,
}
use swo_adobe_vipm_extension.Migration.{
  Transfer, World, Offer, PreviewedOffer, create_offers, get_offer_ids_by_membership_id,
}
use swo_adobe_vipm_extension.Migration.Start.{populate_offers_for_transfer, new_offers}

abbrev ids_of : String → List Offer → List String
ids_of id offers = map (λ o. o.offer_id) (keep (λ o. o.membership_id == id) offers)

abbrev offer_of : Transfer → PreviewedOffer → Offer
offer_of t i = record {
  membership_id = t.membership_id;
  offer_id = i.offer_id;
  quantity = i.quantity;
  renewal_date = i.renewal_date;
}

contains-append :
    (xs ys : List String) (s : String) → contains (xs ++ ys) s ≡ (contains xs s || contains ys s)
contains-append [] ys s = refl
contains-append (x ∷ xs) ys s = ground (arith, contains-append xs ys s)

ids_of-append :
    (id : String) (xs ys : List Offer) → ids_of id (xs ++ ys) ≡ ids_of id xs ++ ids_of id ys
ids_of-append id [] ys = refl
ids_of-append id (x ∷ xs) ys = elim (Bool-cases (x.membership_id == id)) [
  | inl e ↦ rw e (ap (λ rest. x.offer_id ∷ rest) (ids_of-append id xs ys))
  | inr e ↦ rw e (ids_of-append id xs ys)
]

append-none : (xs : List Offer) → xs ++ [] ≡ xs
append-none [] = refl
append-none (x ∷ xs) = ap (λ rest. x ∷ rest) (append-none xs)

-- The offers of a transfer are those of its membership.
ids_of-offers :
    (t : Transfer) (items : List PreviewedOffer)
    → ids_of t.membership_id (map (offer_of t) items) ≡ map (λ i. i.offer_id) items
ids_of-offers t [] = refl
ids_of-offers t (i ∷ items) =
    rw (eq_refl t.membership_id) (ap (λ rest. i.offer_id ∷ rest) (ids_of-offers t items))

abbrev unknown : List String → PreviewedOffer → Bool
unknown existing i = not (contains existing i.offer_id)

abbrev ids : List PreviewedOffer → List String
ids items = map (λ i. i.offer_id) items

abbrev AllIn : List String → List PreviewedOffer → List PreviewedOffer → Type 0
AllIn existing new items =
    All (λ i. (contains existing i.offer_id || contains (ids new) i.offer_id) ≡ true) items

grow :
    (existing : List String) (b : Bool) (x : PreviewedOffer) (new items : List PreviewedOffer)
    → AllIn existing new items
    → AllIn existing (if b then x ∷ new else new) items
grow existing true x new items h = All-imp (λ i k. ground (arith, k)) items h
grow existing false x new items h = h

-- An item is known, or new and then among the new ones.
all_known :
    (existing : List String) (items : List PreviewedOffer)
    → AllIn existing (keep (unknown existing) items) items
all_known existing [] = tt
all_known existing (x ∷ items) = (
  head (contains existing x.offer_id),
  (grow existing (unknown existing x) x (keep (unknown existing) items) items
      (all_known existing items)),
)
  where
    head :
        (b : Bool)
        → (b
            || contains
                (ids (
                  if not b
                  then x ∷ keep (unknown existing) items
                  else keep (unknown existing) items))
                x.offer_id)
          ≡ true
    head true = refl
    head false = ground (arith, eq_refl x.offer_id)

keep-none :
    (known : List String) (items : List PreviewedOffer)
    → All (λ i. contains known i.offer_id ≡ true) items
    → keep (unknown known) items ≡ []
keep-none known [] h = refl
keep-none known (x ∷ items) h = ground (arith, h.0, keep-none known items h.1)

-- The ids after a first time.
abbrev known_after : Transfer → List PreviewedOffer → World → List String
known_after t items w =
    ids_of t.membership_id w.offers ++ ids (keep (unknown (ids_of t.membership_id w.offers)) items)

keep-known_after :
    (t : Transfer) (items : List PreviewedOffer) (w : World)
    → keep (unknown (known_after t items w)) items ≡ []
keep-known_after t items w = keep-none (known_after t items w) items (
    All-imp
      (λ i h.
        contains-append (ids_of t.membership_id w.offers)
          (ids (keep (unknown (ids_of t.membership_id w.offers)) items)) i.offer_id
        ∙ h)
      items (all_known (ids_of t.membership_id w.offers) items))

-- Listing the offers of a preview a second time adds nothing, as when a rescheduled transfer is
-- previewed again with the same items.
pub populate_offers_for_transfer_twice :
    (t : Transfer) (items : List PreviewedOffer) (w : World)
    → populate_offers_for_transfer t items (populate_offers_for_transfer t items w)
      ≡ populate_offers_for_transfer t items w
unfolding populate_offers_for_transfer create_offers get_offer_ids_by_membership_id new_offers
populate_offers_for_transfer_twice t items w =
    ap (λ offers. record w { offers = offers })
      (ap (λ known. now ++ map (offer_of t) (keep (unknown known) items)) same_ids
        ∙ ap (λ new. now ++ map (offer_of t) new) (keep-known_after t items w)
        ∙ append-none now)
  where
    now : List Offer
    now = w.offers ++ map (offer_of t) (keep (unknown (ids_of t.membership_id w.offers)) items)

    same_ids : ids_of t.membership_id now ≡ known_after t items w
    same_ids =
        ids_of-append t.membership_id w.offers
          (map (offer_of t) (keep (unknown (ids_of t.membership_id w.offers)) items))
        ∙ ap (λ rest. ids_of t.membership_id w.offers ++ rest)
            (ids_of-offers t (keep (unknown (ids_of t.membership_id w.offers)) items))
