-- ===== src/Transferring/Compared.antt =====
-- What a draft with a change of the reseller looks like when its lines are accepted.
use mathlib.Core.Path.{subst}
use swo_adobe_vipm_extension.Base.{
  ℕ, ◌≡◌, ◌≢◌, refl, ap, sym, ◌∙◌, String, some, List, [], ◌∷◌, map, Bool, true, false, ◌==◌, ◌&&◌,
  eqb, eq_iff, All, if◌then◌else◌, all, any, length, arith, Bool-cases, inl, inr,
}
use swo_adobe_vipm_extension.Context.{Exception}
use swo_adobe_vipm_extension.Order.{Order, Line, reseller_change_lines}
use swo_adobe_vipm_extension.Order.Lines.{line_pair}
use swo_adobe_vipm_extension.Params.{set_order_error}
use swo_adobe_vipm_extension.Pipeline.Linear.{Ends, stops, proceeds, raises}
use swo_adobe_vipm_extension.Transferring.Lines.{partial_skus}
use swo_adobe_vipm_extension.Transferring.Products.{HasItem, outside_deployments, no_errors-HasItem}
use swo_adobe_vipm_extension.Transferring.Reseller.{
  ResellerContext, ResellerTransfer, Outside, occurs, transfer_order_lines_match,
  get_order_lines_from_transfer, compare_lines, add_found, add_for, split_lines, concluded,
  add_reseller_change_lines_to_order,
}

abbrev pub Pair : Type 0
Pair = String × ℕ

-- The same pairs occur in both, and there are as many lines.
pub record AgreeAsSets (xs ys : List Line) : Type 0 where
  pub same_length : length xs ≡ length ys
  pub same_pairs : (p : Pair) → occurs (map line_pair xs) p ≡ occurs (map line_pair ys) p

occurs_same : (ys : List Pair) (x p : Pair) → x.0 ≡ p.0 → x.1 ≡ p.1 → occurs ys x ≡ occurs ys p
occurs_same ys x p e f = λ i. any {A = Pair} (λ q. q.0 == e i && eqb q.1 (f i)) ys

occurs-all :
    (xs ys : List Pair) (p : Pair)
    → all (occurs ys) xs ≡ true
    → occurs xs p ≡ true
    → occurs ys p ≡ true
occurs-all [] ys p h k = cc
occurs-all (x ∷ xs) ys p h k = elim (Bool-cases (x.0 == p.0 && eqb x.1 p.1)) [
  | inl e ↦
      sym (occurs_same ys x p (ground (arith, e, eq_iff x.0 p.0)) (ground (arith, e)))
      ∙ ground (arith, h)
  | inr e ↦ occurs-all xs ys p (ground (arith, h)) (ground (arith, e, k))
]

same_truth : (a b : Bool) → (a ≡ true → b ≡ true) → (b ≡ true → a ≡ true) → a ≡ b
same_truth true b f g = sym (f refl)
same_truth false true f g = g refl
same_truth false false f g = refl

match-AgreeAsSets :
    (xs ys : List Line) → transfer_order_lines_match xs ys ≡ true → AgreeAsSets xs ys
unfolding transfer_order_lines_match
match-AgreeAsSets xs ys h = record {
  same_length = ground (arith, h);
  same_pairs = λ p.
      same_truth (occurs (map line_pair xs) p) (occurs (map line_pair ys) p)
        (occurs-all (map line_pair xs) (map line_pair ys) p (ground (arith, h)))
        (occurs-all (map line_pair ys) (map line_pair xs) p (ground (arith, h)));
}

module _ (outside : Outside) where
  -- The ways to accept the lines `lines` of a draft against those of a transfer; `c` is the context after.
  pub data IsAccepted (lines transfer_lines : List Line) (c : ResellerContext) : Type 0 where
    taken :
        lines ≡ []
        → transfer_lines ≢ []
        → c.context.order.lines ≡ transfer_lines
        → IsAccepted lines transfer_lines c
    nothing_transferred :
        transfer_lines ≡ []
        → lines ≢ []
        → c.context.order.lines ≡ lines
        → IsAccepted lines transfer_lines c
    agreed :
        AgreeAsSets lines transfer_lines
        → c.context.order.lines ≡ lines
        → IsAccepted lines transfer_lines c

  abbrev pub EndsIn : Ends ResellerContext Exception → ResellerContext → Type 0
  EndsIn (stops c) d = c ≡ d
  EndsIn (proceeds c) d = c ≡ d
  EndsIn (raises e c) d = ⊥

  lines_not_none : (x : Line) (xs : List Line) → (x ∷ xs) ≢ []
  lines_not_none x xs h = cc

  not_concluded :
      (order : Order) (r c : ResellerContext)
      → concluded outside false order r ≡ c
      → c.context.validation_succeeded ≢ true
  not_concluded order r c e h = no (ap (λ c. c.context.validation_succeeded) e ∙ h)
    where
      no : false ≢ true
      no h = cc

  compare_lines-IsAccepted :
      (r c : ResellerContext) (transfer_lines lines : List Line)
      → r.context.order.lines ≡ lines
      → EndsIn (compare_lines outside r transfer_lines lines) c
      → c.context.validation_succeeded ≡ true
      → IsAccepted lines transfer_lines c
  compare_lines-IsAccepted r c [] [] same e h = absurd (not_concluded r.context.order r c e h)
  compare_lines-IsAccepted r c [] (line ∷ lines) same e h =
      nothing_transferred refl (lines_not_none line lines)
        (sym (ap (λ c. c.context.order.lines) e) ∙ same)
  compare_lines-IsAccepted r c (t ∷ ts) [] same e h =
      taken refl (lines_not_none t ts) (sym (ap (λ c. c.context.order.lines) e))
  compare_lines-IsAccepted r c (t ∷ ts) (line ∷ lines) same e h =
      by_match (transfer_order_lines_match (line ∷ lines) (t ∷ ts)) refl e
    where
      by_match :
          (b : Bool)
          → transfer_order_lines_match (line ∷ lines) (t ∷ ts) ≡ b
          → EndsIn
              (if b
                then split_lines outside r
                else stops (
                    concluded outside false
                      (set_order_error r.context.order reseller_change_lines)
                      r))
              c
          → IsAccepted (line ∷ lines) (t ∷ ts) c
      by_match true f e =
          agreed (match-AgreeAsSets (line ∷ lines) (t ∷ ts) f)
            (sym (ap (λ c. c.context.order.lines) e) ∙ same)
      by_match false f e = absurd (not_concluded _ r c e h)

  -- If AddResellerChangeLinesToOrder ends, with or without `next_step`, and reports success, then the
  -- product has an item with the SKU of each of the transfer's items outside deployments, and: the draft had no lines
  -- and gets those of the transfer; or there are none of the transfer, and the draft keeps its own;
  -- or the draft keeps its lines, which are as many as the transfer's and have the same pairs of a
  -- vendor id and a quantity, not counting how often.
  pub add_reseller_change_lines_to_order-IsAccepted :
      (r c : ResellerContext) (transfer : ResellerTransfer)
      → r.adobe_transfer ≡ some transfer
      → EndsIn (add_reseller_change_lines_to_order outside r) c
      → c.context.validation_succeeded ≡ true
      → ((get_order_lines_from_transfer outside r.context.order transfer).1 ≡ [])
        × All
            (HasItem (outside.items_of (partial_skus (outside_deployments transfer))))
            (outside_deployments transfer)
        × IsAccepted r.context.order.lines
            (get_order_lines_from_transfer outside r.context.order transfer).0
            c
  unfolding add_reseller_change_lines_to_order
  add_reseller_change_lines_to_order-IsAccepted r c transfer f e h =
      let both =
        by_found (get_order_lines_from_transfer outside r.context.order transfer)
          (subst (λ o. EndsIn (add_for outside r o) c) f e) in
      (both.0, no_errors-HasItem outside r.context.order transfer both.0, both.1)
    where
      by_found :
          (found : List Line × List String)
          → EndsIn (add_found outside r found) c
          → (found.1 ≡ []) × IsAccepted r.context.order.lines found.0 c
      by_found (ts, []) e = (refl, compare_lines-IsAccepted r c ts r.context.order.lines refl e h)
      by_found (ts, x ∷ errors) e = absurd (not_concluded _ r c e h)
