-- ===== src/Deployments/Process.antt =====
-- `process_adobe_subscriptions_from_agreement` and `process_agreement_deployment`.
use swo_adobe_vipm_extension.Base.{
  ℕ, String, Option, none, some, List, [], ◌∷◌, ◌++◌, map, Bool, ◌==◌, ◌&&◌, if◌then◌else◌, any,
  is_blank,
}
use swo_adobe_vipm_extension.Context.{Exception, type_error, Reply, ok, raises}
use swo_adobe_vipm_extension.Customer.{AdobeSubscription}
use swo_adobe_vipm_extension.Dict.{Dict, lookup, update}
use swo_adobe_vipm_extension.Order.Lines.{get_partial_sku}
use swo_adobe_vipm_extension.Deployments.{
  World, Outside, Listing, Licensee, GlobalCustomer, ProductItem, Created, Found, processing,
  no_problem, save, fail_row, get_authorization, get_price_list_id, get_listing,
  create_gc_agreement_deployment, get_adobe_subscriptions_by_deployment,
}

abbrev pub Run : Type 0
Run = World × Option Exception

-- `get_agreement_asset_by_external_id`, `get_agreement_subscription_by_external_id`, as tests
abbrev pub has : String → String → List Created → Bool
has agreement_id external_id created =
    any (λ c. c.agreement_id == agreement_id && c.external_id == external_id) created

abbrev pub created_for : String → ProductItem → AdobeSubscription → Option ℕ → Created
created_for agreement_id item s price = record {
  agreement_id = agreement_id;
  external_id = s.subscription_id;
  sku = s.offer_id;
  quantity = s.current_quantity;
  item_id = item.id;
  price = price;
}

module _ (outside : Outside) (agreement_id : String) where
  -- `create_gc_agreement_asset`
  abbrev pub asset_created : World → Created → Reply {0} Unit → Run
  asset_created w c (ok tt) = (record w { assets = w.assets ++ c ∷ [] }, none)
  asset_created w c (raises e) = (w, some e)

  unfoldable pub create_gc_agreement_asset :
      ProductItem → AdobeSubscription → World → Option ℕ → Run
  create_gc_agreement_asset item s w price =
      asset_created w (created_for agreement_id item s price)
        (outside.create_asset (created_for agreement_id item s price))

  -- `create_gc_agreement_subscription`
  abbrev pub subscription_created : World → Created → Reply {0} Unit → Run
  subscription_created w c (ok tt) = (record w { subscriptions = w.subscriptions ++ c ∷ [] }, none)
  subscription_created w c (raises e) = (w, some e)

  unfoldable pub create_gc_agreement_subscription :
      ProductItem → AdobeSubscription → World → Option ℕ → Run
  create_gc_agreement_subscription item s w price =
      subscription_created w (created_for agreement_id item s price)
        (outside.create_subscription (created_for agreement_id item s price))

  abbrev pub with_price : (World → Option ℕ → Run) → World → Reply (Option ℕ) → Run
  with_price create w (ok price) = create w price
  with_price create w (raises e) = (w, some e)

  abbrev pub renewed : ProductItem → World → Reply AdobeSubscription → Run
  renewed item w (raises e) = (w, some e)
  renewed item w (ok s) =
      with_price (create_gc_agreement_subscription item s) w (outside.price_of s)

  abbrev pub enabled : ProductItem → World → Reply AdobeSubscription → Run
  enabled item w (raises e) = (w, some e)
  enabled item w (ok s) =
      renewed item (record w { renewals = w.renewals ++ s.subscription_id ∷ [] }) (ok s)

  -- With `enable_subscription_auto_renewal`.
  abbrev pub renew_and_create : ProductItem → AdobeSubscription → World → Run
  renew_and_create item s w =
      if s.auto_renewal then renewed item w (ok s) else enabled item w (outside.enable_renewal s)

  abbrev pub with_item : AdobeSubscription → World → Option ProductItem → Run
  with_item s w none = (w, some type_error)
  with_item s w (some item) =
      if item.is_one_time
      then if has agreement_id s.subscription_id w.assets
        then (w, none)
        else with_price (create_gc_agreement_asset item s) w (outside.price_of s)
      else if has agreement_id s.subscription_id w.subscriptions
      then (w, none)
      else renew_and_create item s w

  abbrev pub is_active : AdobeSubscription → Bool
  is_active s = s.status == "1000"

  unfoldable pub process_subscription : Dict ProductItem → AdobeSubscription → World → Run
  unfolding create_gc_agreement_asset create_gc_agreement_subscription get_partial_sku
  process_subscription items_map s w =
      if is_active s
      then with_item s w (lookup (get_partial_sku s.offer_id) items_map)
      else (w, none)

  abbrev pub go_on : (World → Run) → Run → Run
  go_on rest (w, none) = rest w
  go_on rest (w, some e) = (w, some e)

  abbrev pub process_subscriptions : Dict ProductItem → List AdobeSubscription → World → Run
  process_subscriptions items_map [] w = (w, none)
  process_subscriptions items_map (s ∷ subscriptions) w =
      go_on (process_subscriptions items_map subscriptions) (process_subscription items_map s w)

  abbrev pub item_pair : ProductItem → String × ProductItem
  item_pair item = (item.vendor, item)

  abbrev pub with_items : List AdobeSubscription → World → Reply (List ProductItem) → Run
  with_items subscriptions w (raises e) = (w, some e)
  with_items subscriptions w (ok items) =
      process_subscriptions (update [] (map item_pair items)) subscriptions w

  -- `process_adobe_subscriptions_from_agreement`
  unfoldable pub process_adobe_subscriptions_from_agreement : List AdobeSubscription → World → Run
  unfolding process_subscription get_partial_sku
  process_adobe_subscriptions_from_agreement subscriptions w =
      with_items subscriptions w
        (outside.get_product_items (map (λ s. get_partial_sku s.offer_id) subscriptions))

module _ (outside : Outside) where
  abbrev pub mark_created : World → World
  mark_created w =
      save
        (record w { row = record (w.row) { status = "created"; error_description = no_problem } })

  abbrev pub completed : Run → Run
  completed (w, none) = (mark_created w, none)
  completed (w, some e) = (w, some e)

  abbrev pub with_subscriptions : String → Found (List AdobeSubscription) → Run
  with_subscriptions agreement_id (w, none) = (w, none)
  with_subscriptions agreement_id (w, some []) = (w, none)
  with_subscriptions agreement_id (w, some (s ∷ rest)) =
      completed (process_adobe_subscriptions_from_agreement outside agreement_id (s ∷ rest) w)

  abbrev pub updated : String → String → World → Reply {0} Unit → Run
  updated authorization_id agreement_id w (raises e) = (w, some e)
  updated authorization_id agreement_id w (ok tt) =
      with_subscriptions agreement_id
        (get_adobe_subscriptions_by_deployment outside w authorization_id)

  abbrev pub with_agreement : String → GlobalCustomer → Found String → Run
  with_agreement authorization_id customer (w, none) = (w, none)
  with_agreement authorization_id customer (w, some id) =
      updated authorization_id id w (outside.update_agreement id customer.customer_id)

  abbrev pub with_deployments :
      String → Listing → Licensee → GlobalCustomer → World → Reply (List String) → Run
  with_deployments authorization_id listing licensee customer w (raises e) = (w, some e)
  with_deployments authorization_id listing licensee customer w (ok deployments) =
      with_agreement authorization_id customer
        (create_gc_agreement_deployment outside w customer deployments listing licensee)

  abbrev pub with_customer : String → Listing → Licensee → World → Reply GlobalCustomer → Run
  with_customer authorization_id listing licensee w (raises e) = (w, some e)
  with_customer authorization_id listing licensee w (ok customer) =
      with_deployments authorization_id listing licensee customer w
        (outside.get_deployments authorization_id w.row.customer_id)

  abbrev pub with_main_agreement : String → Listing → Licensee → World → Reply {0} Unit → Run
  with_main_agreement authorization_id listing licensee w (raises e) = (w, some e)
  with_main_agreement authorization_id listing licensee w (ok tt) =
      with_customer authorization_id listing licensee w
        (outside.get_customer authorization_id w.row.customer_id)

  abbrev pub with_licensee : String → Listing → World → Reply Licensee → Run
  with_licensee authorization_id listing w (raises e) = (w, some e)
  with_licensee authorization_id listing w (ok licensee) =
      with_main_agreement authorization_id listing licensee w
        (outside.get_agreement w.row.main_agreement_id)

  abbrev pub with_listing : String → Reply (Found Listing) → World → Run
  with_listing authorization_id (raises e) w = (w, some e)
  with_listing authorization_id (ok (w1, none)) w = (w1, none)
  with_listing authorization_id (ok (w1, some listing)) w =
      with_licensee authorization_id listing
        (record w1 { row = record (w1.row) { listing_id = listing.id } })
        (outside.get_licensee w1.row.licensee_id)

  abbrev pub with_price_list : String → Found String → Run
  with_price_list authorization_id (w, none) = (w, none)
  with_price_list authorization_id (w, some price_list_id) =
      with_listing authorization_id (get_listing outside w authorization_id price_list_id) w

  abbrev pub with_authorization : Found String → Run
  with_authorization (w, none) = (w, none)
  with_authorization (w, some authorization_id) =
      with_price_list authorization_id (get_price_list_id outside w)

  -- The `except` around it all.
  abbrev pub handled : Run → World
  handled (w, none) = w
  handled (w, some e) = fail_row (processing e) w

  -- `process_agreement_deployment`
  unfoldable pub process_agreement_deployment : World → World
  unfolding fail_row get_authorization get_price_list_id get_listing create_gc_agreement_deployment
      get_adobe_subscriptions_by_deployment process_adobe_subscriptions_from_agreement
  process_agreement_deployment w =
      if is_blank w.row.licensee_id
      then w
      else handled (with_authorization (get_authorization outside w))
