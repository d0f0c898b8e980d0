-- ===== src/ThreeYc/Effects.antt =====
-- The calls that the 3YC validation step sends, and when.
use mathlib.Core.Path.{subst}
use swo_adobe_vipm_extension.Base.{
  String, Option, none, some, List, [], ◌∷◌, ◌++◌, Bool, true, false, not, ◌&&◌, ◌==◌, ◌≡◌, ◌≢◌,
  refl, sym, ap, ◌∙◌, if◌then◌else◌, arith, eq_iff,
}
use swo_adobe_vipm_extension.Order.{
  CommitmentError, ErrorData, commitment_3yc_validation, commitment_3yc_expired,
}
use swo_adobe_vipm_extension.Dict.{Dict}
use swo_adobe_vipm_extension.Customer.{Customer, Commitment, AdobeSubscription}
use swo_adobe_vipm_extension.Context.{
  Context, Exception, Reply, ok, raises, switch_order_to_failed, switch_order_to_query,
  manage_order_error,
}
use swo_adobe_vipm_extension.Pipeline.Linear.{Ends, stops, proceeds}
use swo_adobe_vipm_extension.Pipeline.Linear
use swo_adobe_vipm_extension.ThreeYc.Minimum.{
  validate_minimum_quantity, validate_items_in_subscriptions,
}
use swo_adobe_vipm_extension.ThreeYc.Step.{
  Outside, commitment_of, is_pending, status_of, is_expired_or_rejected, ends_before_coterm,
  conclude, conclude_reply, counts_of, check_subscriptions, validate_commitment_requirements,
  with_customer, dispatch, validate_3yc_quantities_parameters, validate_3yc_commitment,
}
use swo_adobe_vipm_extension.ThreeYc.Lost.{IsLost, IsLost-test, ReachesCoterm, ReachesCoterm-iff}

-- No return order was placed, and the context has the customer with the commitment.
abbrev pub Holds : Context → Customer → Option Commitment → Type 0
Holds context customer c =
    (context.adobe_return_orders ≡ [])
    × (context.adobe_customer ≡ some customer)
    × (commitment_of customer ≡ c)

abbrev pub HasLostCommitment : Context → Type 0
HasLostCommitment context =
    (customer : Customer) × (c : Option Commitment) × Holds context customer c × IsLost context c

-- In processing, the customer has still to accept the commitment.
abbrev pub IsAsked : Bool → Context → Type 0
IsAsked v context =
    (v ≡ false)
    × ((customer : Customer) × (c : Commitment) × Holds context customer (some c)
        × (c.status ≡ "REQUESTED"))

-- The order's quantities count: no return order was placed, and there is no customer yet, or one
-- whose commitment is neither pending nor over and does not end before the anniversary.
pub data IsMeasured (context : Context) : Type 0 where
  new_customer :
      context.adobe_return_orders ≡ [] → context.adobe_customer ≡ none → IsMeasured context
  committed :
      (customer : Customer) (c : Commitment)
      → Holds context customer (some c)
      → c.status ≢ "REQUESTED"
      → c.status ≢ "ACCEPTED"
      → ¬ IsLost context (some c)
      → ReachesCoterm customer c
      → IsMeasured context

-- How an order may leave the step.
pub data IsReported (v : Bool) (context : Context) : Ends Context Exception → Type 0 where
  goes_on :
      ¬ HasLostCommitment context → ¬ IsAsked v context → IsReported v context (proceeds context)
  excepts : (e : Exception) → IsMeasured context → IsReported v context (Linear.raises e context)
  has_error :
      (error : CommitmentError)
      → IsMeasured context
      → IsReported v context
          (stops (manage_order_error v (commitment_3yc_validation error) context))
  lost_commitment :
      (customer : Customer) (c : Option Commitment)
      → Holds context customer c
      → IsLost context c
      → IsReported v context (
          stops (
            switch_order_to_failed
              (commitment_3yc_expired (elim c [ none ↦ none | some c ↦ some c.status ]))
              context))
  queried :
      IsAsked v context → IsReported v context (stops (switch_order_to_query "3ycAccept" context))

if-IsReported :
    (v : Bool) (context : Context) (b : Bool) (x y : Ends Context Exception)
    → (b ≡ true → IsReported v context x)
    → (b ≡ false → IsReported v context y)
    → IsReported v context (if b then x else y)
if-IsReported v context true x y h k = h refl
if-IsReported v context false x y h k = k refl

-- The commitment that a context has is one.
Holds-same :
    (context : Context) (a b : Customer) (c d : Option Commitment)
    → Holds context a c
    → Holds context b d
    → c ≡ d
Holds-same context a b c d h k = sym h.2 ∙ ap commitment_in (sym h.1 ∙ k.1) ∙ k.2
  where
    commitment_in : Option Customer → Option Commitment
    commitment_in none = none
    commitment_in (some customer) = commitment_of customer

measured-kept : (context : Context) → IsMeasured context → ¬ HasLostCommitment context
measured-kept context (new_customer r h) l = cc (h, l.2.1)
measured-kept context (committed customer c h _ _ f _) l =
    f (subst (IsLost context) (Holds-same context _ _ _ _ l.2 h) l.3)

measured-unasked : (v : Bool) (context : Context) → IsMeasured context → ¬ IsAsked v context
measured-unasked v context (new_customer r h) q = cc (h, q.1.2.1)
measured-unasked v context (committed customer c h f _ _ _) q =
    f (ap status_of (Holds-same context _ _ _ _ h q.1.2) ∙ q.1.3)

still_kept :
    {context : Context} {customer : Customer} {c : Option Commitment}
    → Holds context customer c
    → ¬ IsLost context c
    → ¬ HasLostCommitment context
still_kept {context} h kept l = kept (subst (IsLost context) (Holds-same context _ _ _ _ l.2 h) l.3)

module _ (v : Bool) (context : Context) (customer : Customer) where
  requested-IsAsked :
      (c : Option Commitment)
      → Holds context customer c
      → (status_of c == "REQUESTED" && not v) ≡ true
      → IsAsked v context
  requested-IsAsked none h e = cc
  requested-IsAsked (some c) h e =
      (ground arith, (customer, c, h, (eq_iff c.status "REQUESTED").0 (ground arith)))

  unrequested :
      (c : Option Commitment)
      → Holds context customer c
      → (status_of c == "REQUESTED" && not v) ≡ false
      → ¬ IsAsked v context
  unrequested c h e q =
      let asked : status_of c ≡ "REQUESTED" =
        ap status_of (Holds-same context _ _ _ _ h q.1.2) ∙ q.1.3 in
      let found = (eq_iff (status_of c) "REQUESTED").1 asked in
      let both : (status_of c == "REQUESTED" && not v) ≡ true = ground (arith, found, q.0) in
      cc (e, both)

module _ (v : Bool) (outside : Outside) (context : Context) where
  -- A measured order goes on, or is reported.
  measured-goes_on : IsMeasured context → IsReported v context (proceeds context)
  measured-goes_on m = goes_on (measured-kept context m) (measured-unasked v context m)

  conclude-IsReported :
      (error : Option CommitmentError)
      → IsMeasured context
      → IsReported v context (conclude v outside context error)
  conclude-IsReported none m = measured-goes_on m
  conclude-IsReported (some error) m = has_error error m

  conclude_reply-IsReported :
      (reply : Reply (Option CommitmentError))
      → IsMeasured context
      → IsReported v context (conclude_reply v outside context reply)
  conclude_reply-IsReported (ok error) m = conclude-IsReported error m
  conclude_reply-IsReported (raises e) m = excepts e m

  checked-IsReported :
      (c : Commitment) (reply : Reply (List AdobeSubscription))
      → IsMeasured context
      → IsReported v context (check_subscriptions v outside context c reply)
  checked-IsReported c (raises e) m = excepts e m
  checked-IsReported c (ok items) m =
      elim (validate_items_in_subscriptions (context.downsize_lines ++ context.upsize_lines) items)
        as (λ found. IsReported v context (elim found [
          | some error ↦ conclude v outside context (some error)
          | none ↦
              conclude v outside context
                (validate_minimum_quantity c.minimum_quantities (counts_of v outside context items))
        ])) [
          | some error ↦ conclude-IsReported (some error) m
          | none ↦
              conclude-IsReported
                (validate_minimum_quantity c.minimum_quantities (counts_of v outside context items))
                m
        ]

  required-IsReported :
      (customer : Customer) (c : Option Commitment)
      → Holds context customer c
      → ¬ IsLost context c
      → ¬ IsAsked v context
      → IsReported v context (validate_commitment_requirements v outside context customer c)
  unfolding validate_commitment_requirements
  required-IsReported customer none h kept unasked = goes_on (still_kept h kept) unasked
  required-IsReported customer (some c) h kept unasked =
      let checked =
        check_subscriptions v outside context c
          (outside.get_subscriptions context.authorization_id context.adobe_customer_id) in
      let rest : Ends Context Exception =
        if ends_before_coterm customer c then proceeds context else checked in
      let on : IsReported v context (proceeds context) = goes_on (still_kept h kept) unasked in
      if-IsReported v context (is_pending c.status) (proceeds context) rest (λ _. on)
        (λ e.
          if-IsReported v context (ends_before_coterm customer c) (proceeds context) checked
            (λ _. on)
            (λ f.
              checked-IsReported c
                (outside.get_subscriptions context.authorization_id context.adobe_customer_id)
                (committed customer c h (λ k. cc (e, ap is_pending k))
                  (λ k. cc (e, ap is_pending k)) kept ((ReachesCoterm-iff customer c).0 f))))

  with_customer-IsReported :
      (customer : Customer)
      → context.adobe_return_orders ≡ []
      → context.adobe_customer ≡ some customer
      → IsReported v context (with_customer v outside context customer)
  with_customer-IsReported customer r h =
      let c = commitment_of customer in
      let required = validate_commitment_requirements v outside context customer c in
      let failed : ErrorData =
        commitment_3yc_expired (elim c [ none ↦ none | some c ↦ some c.status ]) in
      let rest : Ends Context Exception =
        if is_expired_or_rejected c context
        then stops (switch_order_to_failed failed context)
        else required in
      if-IsReported v context (status_of c == "REQUESTED" && not v)
        (stops (switch_order_to_query "3ycAccept" context)) rest
        (λ e. queried (requested-IsAsked v context customer c (r, h, refl) e))
        (λ e.
          if-IsReported v context (is_expired_or_rejected c context)
            (stops (switch_order_to_failed failed context)) required
            (λ f. lost_commitment customer c (r, h, refl) ((IsLost-test context c).1 f))
            (λ f.
              required-IsReported customer c (r, h, refl) (λ l. cc (f, (IsLost-test context c).0 l))
                (unrequested v context customer c (r, h, refl) e)))

  dispatch-IsReported :
      (orders : Dict (List String)) (found : Option Customer)
      → context.adobe_return_orders ≡ orders
      → context.adobe_customer ≡ found
      → IsReported v context (dispatch v outside context orders found)
  dispatch-IsReported (o ∷ orders) found r h = goes_on (λ l. cc (r, l.2.0)) (λ q. cc (r, q.1.2.0))
  dispatch-IsReported [] none r h =
      conclude_reply-IsReported (validate_3yc_quantities_parameters v outside context)
        (new_customer r h)
  dispatch-IsReported [] (some customer) r h = with_customer-IsReported customer r h

-- The step, in either mode and whatever Adobe answers. With a customer and without return orders it
-- queries the order in processing if the customer has still to accept the commitment, and fails an
-- order, a draft also, at the platform if the commitment has ended or was rejected, or if there is none
-- and the order asks for one; no other order is queried, or failed with that error. It stops with another
-- error, of a draft or by failing the order, or passes an exception on, only without return orders, and if
-- there is no customer yet, or the commitment is neither pending nor over and does not end before the
-- customer's anniversary. Every order that it does not stop so goes on, with nothing changed and nothing
-- sent.
pub validate_3yc_commitment-IsReported :
    (v : Bool) (outside : Outside) (context : Context)
    → IsReported v context (validate_3yc_commitment v outside context)
unfolding validate_3yc_commitment
validate_3yc_commitment-IsReported v outside context =
    dispatch-IsReported v outside context context.adobe_return_orders context.adobe_customer refl
      refl
