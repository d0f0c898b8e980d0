-- ===== src/Preview/Shrinking.antt =====
-- What the retries of `get_preview_order` may change of an order.
use swo_adobe_vipm_extension.Base.{
  ℕ, zero, suc, ◌+◌, ◌≡◌, refl, String, Option, none, some, List, [], ◌∷◌, Bool, true, not, arith,
  map, keep, contains, ◌∙◌,
}
use swo_adobe_vipm_extension.Context.{Reply, ok, raises}
use swo_adobe_vipm_extension.Preview.{LineItem, Payload, Response}
use swo_adobe_vipm_extension.Preview.Discounts.{
  Previewed, failed_of, after_round, attempts, to_set, trim, trim_present, without_codes,
  remove_failed_discount_codes, get_preview_order,
}

abbrev pub codes_of : LineItem → List String
codes_of item = elim (item.flex_discount_codes) [ none ↦ [] | some codes ↦ codes ]

-- The same line, with no code that it did not have.
pub record IsTrimmed (before after : LineItem) : Type 0 where
  pub same_number : after.ext_line_item_number ≡ before.ext_line_item_number
  pub same_offer : after.offer_id ≡ before.offer_id
  pub same_quantity : after.quantity ≡ before.quantity
  pub same_deployment : after.deployment_id ≡ before.deployment_id
  pub same_currency : after.currency_code ≡ before.currency_code
  pub no_more_codes :
      (code : String)
      → contains (codes_of after) code ≡ true
      → contains (codes_of before) code ≡ true

abbrev pub AreTrimmed : List LineItem → List LineItem → Type 0
AreTrimmed [] [] = Unit
AreTrimmed (x ∷ xs) (y ∷ ys) = IsTrimmed x y × AreTrimmed xs ys
AreTrimmed _ _ = ⊥

pub record IsTrimmedPayload (before after : Payload) : Type 0 where
  pub same_reference : after.external_reference_id ≡ before.external_reference_id
  pub same_currency : after.currency_code ≡ before.currency_code
  pub lines : AreTrimmed before.line_items after.line_items

contains-keep :
    (p : String → Bool) (codes : List String) (code : String)
    → contains (keep p codes) code ≡ true
    → contains codes code ≡ true
contains-keep p [] code h = h
contains-keep p (c ∷ cs) code h = ground (arith, contains-keep p cs code)

contains-to_set :
    (codes : List String) (code : String)
    → contains (to_set codes) code ≡ true
    → contains codes code ≡ true
contains-to_set [] code h = h
contains-to_set (c ∷ cs) code h = ground (arith, contains-to_set cs code)

IsTrimmed-refl : (item : LineItem) → IsTrimmed item item
IsTrimmed-refl item = record {
  same_number = refl;
  same_offer = refl;
  same_quantity = refl;
  same_deployment = refl;
  same_currency = refl;
  no_more_codes = λ code h. h;
}

IsTrimmed-trans : (a b c : LineItem) → IsTrimmed a b → IsTrimmed b c → IsTrimmed a c
IsTrimmed-trans a b c h k = record {
  same_number = k.same_number ∙ h.same_number;
  same_offer = k.same_offer ∙ h.same_offer;
  same_quantity = k.same_quantity ∙ h.same_quantity;
  same_deployment = k.same_deployment ∙ h.same_deployment;
  same_currency = k.same_currency ∙ h.same_currency;
  no_more_codes = λ code e. h.no_more_codes code (k.no_more_codes code e);
}

AreTrimmed-refl : (xs : List LineItem) → AreTrimmed xs xs
AreTrimmed-refl [] = tt
AreTrimmed-refl (x ∷ xs) = (IsTrimmed-refl x, AreTrimmed-refl xs)

AreTrimmed-trans :
    (xs ys zs : List LineItem) → AreTrimmed xs ys → AreTrimmed ys zs → AreTrimmed xs zs
AreTrimmed-trans [] [] [] h k = tt
AreTrimmed-trans [] [] (z ∷ zs) h k = absurd k
AreTrimmed-trans [] (y ∷ ys) zs h k = absurd h
AreTrimmed-trans (x ∷ xs) [] zs h k = absurd h
AreTrimmed-trans (x ∷ xs) (y ∷ ys) [] h k = absurd k
AreTrimmed-trans (x ∷ xs) (y ∷ ys) (z ∷ zs) h k =
    (IsTrimmed-trans x y z h.0 k.0, AreTrimmed-trans xs ys zs h.1 k.1)

-- The codes that are kept, of the set of a line's codes.
trimmed_codes :
    (failed : List String) (item : LineItem) (codes set : List String)
    → item.flex_discount_codes ≡ some codes
    → to_set codes ≡ set
    → (code : String) → contains (keep (λ c. not (contains failed c)) set) code ≡ true
    → contains (codes_of item) code ≡ true
trimmed_codes failed item codes set e f code h =
    rw (e, codes_of)
      (contains-to_set codes code (rw f (contains-keep (λ c. not (contains failed c)) set code h)))

trim-IsTrimmed :
    (failed : List String) (item : LineItem) (codes set : List String)
    → item.flex_discount_codes ≡ some codes
    → to_set codes ≡ set
    → IsTrimmed item (trim failed item set)
trim-IsTrimmed failed item codes [] e f = IsTrimmed-refl item
trim-IsTrimmed failed item codes (c ∷ cs) e f = record {
  same_number = refl;
  same_offer = refl;
  same_quantity = refl;
  same_deployment = refl;
  same_currency = refl;
  no_more_codes = trimmed_codes failed item codes (c ∷ cs) e f;
}

trim_present-IsTrimmed :
    (failed : List String) (item : LineItem) (found : Option (List String))
    → item.flex_discount_codes ≡ found
    → IsTrimmed item (trim_present failed item found)
trim_present-IsTrimmed failed item none e = IsTrimmed-refl item
trim_present-IsTrimmed failed item (some codes) e =
    trim-IsTrimmed failed item codes (to_set codes) e refl

without_codes-AreTrimmed :
    (failed : List String) (items : List LineItem)
    → AreTrimmed items (map (without_codes failed) items)
without_codes-AreTrimmed failed [] = tt
without_codes-AreTrimmed failed (item ∷ items) = (
  trim_present-IsTrimmed failed item item.flex_discount_codes refl,
  without_codes-AreTrimmed failed items,
)

remove-IsTrimmed :
    (failed : List String) (payload : Payload)
    → IsTrimmedPayload payload (remove_failed_discount_codes failed payload)
unfolding remove_failed_discount_codes
remove-IsTrimmed failed payload = record {
  same_reference = refl;
  same_currency = refl;
  lines = without_codes-AreTrimmed failed payload.line_items;
}

payload_refl : (p : Payload) → IsTrimmedPayload p p
payload_refl p = record {
  same_reference = refl;
  same_currency = refl;
  lines = AreTrimmed-refl p.line_items;
}

payload_trans :
    (p q r : Payload) → IsTrimmedPayload p q → IsTrimmedPayload q r → IsTrimmedPayload p r
payload_trans p q r h k = record {
  same_reference = k.same_reference ∙ h.same_reference;
  same_currency = k.same_currency ∙ h.same_currency;
  lines = AreTrimmed-trans p.line_items q.line_items r.line_items h.lines k.lines;
}

module _ (api : ℕ → Payload → Reply Response) where
  round-IsTrimmed :
      (n : ℕ) (payload : Payload) (again : Option Response → Payload → Previewed)
      (x : Reply (Option Response × List String))
      → ((found : Option Response) (p : Payload) → IsTrimmedPayload p (again found p).payload)
      → IsTrimmedPayload payload (after_round api n payload again x).payload
  round-IsTrimmed n payload again (raises e) ih = payload_refl payload
  round-IsTrimmed n payload again (ok (response, [])) ih = payload_refl payload
  round-IsTrimmed n payload again (ok (response, c ∷ cs)) ih =
      let q = remove_failed_discount_codes (c ∷ cs) payload in
      payload_trans payload q (again response q).payload (remove-IsTrimmed (c ∷ cs) payload)
        (ih response q)

  attempts-IsTrimmed :
      (k n : ℕ) (last : Option Response) (payload : Payload)
      → IsTrimmedPayload payload (attempts api k n last payload).payload
  unfolding attempts
  attempts-IsTrimmed zero n last payload = payload_refl payload
  attempts-IsTrimmed (suc k) n last payload =
      round-IsTrimmed n payload (attempts api k (n + 1))
        (failed_of api payload last (api n payload)) (attempts-IsTrimmed k (n + 1))

-- Whatever Adobe answers and however the call ends, the payload that it leaves is the one it was given
-- but for discount codes: the same reference, currency and line items in the same order, each with its
-- number, offer, quantity and deployment, and on no line a code that it did not have.
pub get_preview_order-IsTrimmed :
    (api : ℕ → Payload → Reply Response) (payload : Payload)
    → IsTrimmedPayload payload (get_preview_order api payload).payload
unfolding get_preview_order
get_preview_order-IsTrimmed api payload = attempts-IsTrimmed api 5 0 none payload
