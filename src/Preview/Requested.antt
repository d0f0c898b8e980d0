-- ===== src/Preview/Requested.antt =====
-- The line items of a preview order are those that the order's new and upsize lines call for.
use mathlib.Core.List.{append_assoc, append-nil}
use swo_adobe_vipm_extension.Base.{
  ℕ, suc, ◌+◌, ◌-◌, ◌≤◌, ◌≡◌, refl, ◌∙◌, String, Option, none, some, List, [], ◌∷◌, ◌++◌, Bool,
  true, false, if◌then◌else◌, map, arith, inl, inr, ◌⊎◌,
}
use swo_adobe_vipm_extension.Base.Int.{ℤ, pos, leb_ℤ, ◌-ℤ◌}
use swo_adobe_vipm_extension.Dict.{Dict, lookup}
use swo_adobe_vipm_extension.Order.{Line}
use swo_adobe_vipm_extension.Customer.{AdobeSubscription}
use swo_adobe_vipm_extension.Catalog.{Product, MarketSegment}
use swo_adobe_vipm_extension.Context.{Context, ok, ◌>>=◌, bind-ok}
use swo_adobe_vipm_extension.Preview.{LineItem}
use swo_adobe_vipm_extension.Preview.Lines.{
  get_subscriptions_for_offers, by_base_offer, missing, find_sku, to_adobe_line_id,
  get_preview_order_line_item, process_new_lines, add_upsize, process_upsize_lines,
}
use swo_adobe_vipm_extension.Preview.Create.{
  Adobe, vendor_of, deployment_id_of, add_upsize_lines, build_line_items, find_skus, discounts_for,
}
use swo_adobe_vipm_extension.Preview.Ordered.{
  IsSource, IsFor, News, no_news, new_item, Upsizes, no_upsizes, enough, upsize_item,
  offers-IsSource, by_base_offer-IsSource,
}

missing-enough :
    (line : Line) (sub : AdobeSubscription)
    → leb_ℤ (missing line sub) (pos 0) ≡ true
    → line.quantity ≤ line.old_quantity + (sub.current_quantity - sub.renewal_quantity)
unfolding ◌-ℤ◌
missing-enough line sub e = ground arith

missing-some :
    (line : Line) (sub : AdobeSubscription)
    → leb_ℤ (missing line sub) (pos 0) ≡ false
    → (n : ℕ) × (missing line sub ≡ pos (suc n))
      × (suc n + (line.old_quantity + (sub.current_quantity - sub.renewal_quantity))
          ≡ line.quantity)
unfolding ◌-ℤ◌
missing-some line sub e =
    let n =
      line.quantity - (line.old_quantity + (sub.current_quantity - sub.renewal_quantity)) - 1 in
    (n, ground arith, ground arith)

module _ (table : List Product) (segment : MarketSegment) (discounts : Dict String) where
  item-IsFor :
      (line : Line) (q : ℤ) (item : LineItem)
      → get_preview_order_line_item table segment discounts line q ≡ ok item
      → IsFor table segment line item × (item.quantity ≡ q)
  unfolding get_preview_order_line_item
  item-IsFor line q item e =
      let (sku, found, e') = bind-ok (find_sku table segment line.item.vendor) _ item e in
      let (number, read, e'') = bind-ok (to_adobe_line_id line.id) _ item e' in
      (record { number = read ∙ cc; offer = found ∙ cc }, cc)

  news_lem :
      (lines : List Line) (items out : List LineItem)
      → process_new_lines table segment discounts lines items ≡ ok out
      → (news : List LineItem) × (out ≡ items ++ news) × News table segment lines news
  unfolding process_new_lines
  news_lem [] items out e = ([], cc (append-nil items), no_news)
  news_lem (line ∷ lines) items out e =
      let (item, made, e') =
        bind-ok (get_preview_order_line_item table segment discounts line (pos line.quantity)) _ out
          e in
      let (news, same, rest) = news_lem lines (items ++ item ∷ []) out e' in
      let (for_line, quantity) = item-IsFor line (pos line.quantity) item made in
      (item ∷ news, same ∙ append_assoc items (item ∷ []) news, new_item for_line quantity rest)

  module _ (subs : Dict AdobeSubscription) (IsFrom : String → AdobeSubscription → Type 0)
      (from : (vendor : String) (sub : AdobeSubscription)
        → lookup vendor subs ≡ some sub
        → IsFrom vendor sub) where
    -- What the line items `out` add to `items`.
    abbrev Added : List Line → List LineItem → List LineItem → Type 0
    Added lines items out =
        (ups : List LineItem) × (out ≡ items ++ ups) × Upsizes table segment IsFrom lines ups

    sign_lem :
        (line : Line) (lines : List Line) (items next out : List LineItem) (sub : AdobeSubscription)
        (b : Bool)
        → lookup line.item.vendor subs ≡ some sub
        → leb_ℤ (missing line sub) (pos 0) ≡ b
        → (if b
            then ok items
            else get_preview_order_line_item table segment discounts line (missing line sub)
              >>= λ item. ok (items ++ item ∷ []))
          ≡ ok next
        → Added lines next out
        → Added (line ∷ lines) items out
    sign_lem line lines items next out sub true found sign e (ups, same, h) =
        (ups, cc, enough sub (from line.item.vendor sub found) (missing-enough line sub sign) h)
    sign_lem line lines items next out sub false found sign e (ups, same, h) =
        let (item, made, e') =
          bind-ok (get_preview_order_line_item table segment discounts line (missing line sub)) _
            next e in
        let (n, left, sum) = missing-some line sub sign in
        let (for_line, quantity) = item-IsFor line (missing line sub) item made in
        (
          item ∷ ups,
          cc (append_assoc items (item ∷ []) ups),
          upsize_item n sub (from line.item.vendor sub found) for_line (quantity ∙ left) sum h,
        )

    round_lem :
        (line : Line) (lines : List Line) (items next out : List LineItem)
        (found : Option AdobeSubscription)
        → lookup line.item.vendor subs ≡ found
        → add_upsize table segment discounts line items found ≡ ok next
        → Added lines next out
        → Added (line ∷ lines) items out
    round_lem line lines items next out none found e h = cc
    round_lem line lines items next out (some sub) found e h =
        sign_lem line lines items next out sub (leb_ℤ (missing line sub) (pos 0)) found refl e h

    upsizes_lem :
        (lines : List Line) (items out : List LineItem)
        → process_upsize_lines table segment discounts subs lines items ≡ ok out
        → Added lines items out
    unfolding process_upsize_lines
    upsizes_lem [] items out e = ([], cc (append-nil items), no_upsizes)
    upsizes_lem (line ∷ lines) items out e =
        let (next, round, rest) =
          bind-ok (add_upsize table segment discounts line items (lookup line.item.vendor subs)) _
            out e in
        round_lem line lines items next out (lookup line.item.vendor subs) refl round
          (upsizes_lem lines next out rest)

-- The items that the order's lines call for, with what Adobe has listed as the customer's subscriptions.
pub record IsRequested (table : List Product) (adobe : Adobe) (context : Context)
    (items : List LineItem) : Type 0 where
  pub news : List LineItem
  pub ups : List LineItem
  pub all_items : items ≡ news ++ ups
  pub news_called : News table context.market_segment context.new_lines news
  pub ups_called :
      (context.upsize_lines ≡ []) × (ups ≡ [])
      ⊎ (subs : List AdobeSubscription) × (adobe.get_subscriptions ≡ ok subs)
        × Upsizes table context.market_segment
            (IsSource subs (deployment_id_of context))
            context.upsize_lines
            ups

module _ (table : List Product) (adobe : Adobe) (context : Context) where
  abbrev UpsCalled : List Line → List LineItem → Type 0
  UpsCalled lines ups =
      (lines ≡ []) × (ups ≡ [])
      ⊎ (subs : List AdobeSubscription) × (adobe.get_subscriptions ≡ ok subs)
        × Upsizes table context.market_segment (IsSource subs (deployment_id_of context)) lines ups

  add_upsize_lines_lem :
      (discounts : Dict String) (lines : List Line) (items out : List LineItem)
      → add_upsize_lines table adobe context discounts lines items ≡ ok out
      → (ups : List LineItem) × (out ≡ items ++ ups) × UpsCalled lines ups
  unfolding add_upsize_lines
  add_upsize_lines_lem discounts [] items out e = ([], cc (append-nil items), inl (refl, refl))
  add_upsize_lines_lem discounts (line ∷ lines) items out e =
      let (subs, listed, e') = bind-ok adobe.get_subscriptions _ out e in
      let vendors = map vendor_of (line ∷ lines) in
      let offers = get_subscriptions_for_offers vendors (deployment_id_of context) subs in
      let (ups, same, h) =
        upsizes_lem table context.market_segment discounts (by_base_offer offers)
          (IsSource subs (deployment_id_of context))
          (λ vendor sub found.
            by_base_offer-IsSource subs (deployment_id_of context) offers vendor sub
              (offers-IsSource subs (deployment_id_of context) vendors) found)
          (line ∷ lines) items out e' in
      (ups, same, inr (subs, listed, h))

-- When the line items of a preview order are built, they are, in the order of the lines, one item for
-- each new line with the line's quantity, then one item for each upsize line whose quantity exceeds
-- what is paid for it already (its old quantity and what an active subscription of its SKU and
-- deployment has beyond its renewal quantity), with the positive difference as its quantity; the
-- other upsize lines have no item.
pub build_line_items-IsRequested :
    (table : List Product) (adobe : Adobe) (context : Context) (items : List LineItem)
    → build_line_items table adobe context ≡ ok items
    → IsRequested table adobe context items
unfolding build_line_items
build_line_items-IsRequested table adobe context items e =
    let skus = find_skus table adobe context (context.upsize_lines ++ context.new_lines) in
    let new_items = λ (discounts : Dict String).
      process_new_lines table context.market_segment discounts context.new_lines [] in
    let (discounts, _, e1) = bind-ok (skus >>= discounts_for table adobe context) _ items e in
    let (so_far, added, e2) = bind-ok (new_items discounts) _ items e1 in
    let (news, same, called) =
      news_lem table context.market_segment discounts context.new_lines [] so_far added in
    let (ups, all, ups_called) =
      add_upsize_lines_lem table adobe context discounts context.upsize_lines so_far items e2 in
    record { news = news; ups = ups; all_items = cc; news_called = called; ups_called = ups_called }
