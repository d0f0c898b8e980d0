-- ===== src/ThreeYc/Step.antt =====
-- `Validate3YCCommitment.__call__`: the step of the purchase, change and termination pipelines.
use swo_adobe_vipm_extension.Base.{
  String, Option, none, some, List, [], ◌∷◌, ◌++◌, Bool, false, not, ◌&&◌, ◌||◌, ◌==◌, ltb,
  if◌then◌else◌, is_blank, is_some, parse_int,
}
use swo_adobe_vipm_extension.Base.Int.{ℤ, pos, is_zero}
use swo_adobe_vipm_extension.Order.{
  Value, null, text, choices, CommitmentError, commitment_3yc_validation, commitment_3yc_expired,
}
use swo_adobe_vipm_extension.Order.Lines.{Split}
use swo_adobe_vipm_extension.Dict.{Dict}
use swo_adobe_vipm_extension.Customer.{
  Customer, Commitment, AdobeSubscription, get_3yc_commitment, get_3yc_commitment_request,
}
use swo_adobe_vipm_extension.Catalog.{Product}
use swo_adobe_vipm_extension.Context.{
  Context, Exception, value_error, type_error, Reply, ok, raises, ◌>>=◌, customer_data,
  switch_order_to_failed, switch_order_to_query, manage_order_error,
}
use swo_adobe_vipm_extension.Pipeline.Linear.{Ends, stops, proceeds, LinearStep}
use swo_adobe_vipm_extension.Pipeline.Linear
use swo_adobe_vipm_extension.ThreeYc.Quantities.{Counts, get_quantities}
use swo_adobe_vipm_extension.ThreeYc.Minimum.{
  validate_minimum_quantity, validate_items_in_subscriptions, below_parameters,
}

-- What the step asks of the outside: the rows of the SKU mapping, and the customer's subscriptions at
-- Adobe, which the call may fail to give.
pub record Outside : Type 0 where
  pub products : List Product
  pub get_subscriptions : String → Option String → Reply (List AdobeSubscription)

-- `_get_commitment`
unfoldable pub commitment_of : Customer → Option Commitment
unfolding get_3yc_commitment get_3yc_commitment_request
commitment_of customer = elim (get_3yc_commitment_request customer false) [
  | some c ↦ some c
  | none ↦ get_3yc_commitment customer
]

-- `commitment.get("status", "")`
abbrev pub status_of : Option Commitment → String
status_of none = ""
status_of (some c) = c.status

abbrev pub is_yes : Value → Bool
is_yes (choices (s ∷ [])) = s == "Yes"
is_yes _ = false

abbrev pub is_over : String → Bool
is_over status = status == "EXPIRED" || (status == "NONCOMPLIANT" || status == "DECLINED")

abbrev pub is_pending : String → Bool
is_pending status = status == "REQUESTED" || status == "ACCEPTED"

-- `_is_commitment_expired_or_rejected`
unfoldable pub is_expired_or_rejected : Option Commitment → Context → Bool
is_expired_or_rejected commitment context =
    is_over (status_of commitment)
    || (not (is_some commitment) && is_yes (customer_data context "3YC"))

-- `_validate_3yc_commitment_date_before_coterm_date`
unfoldable pub ends_before_coterm : Customer → Commitment → Bool
ends_before_coterm customer commitment = elim (customer.coterm_date) [
  | none ↦ false
  | some d ↦ ltb commitment.end_date d
]

-- `int(value or 0)`
abbrev pub int_value : Value → Reply ℤ
int_value null = ok (pos 0)
int_value (choices []) = ok (pos 0)
int_value (text s) =
    if is_blank s
    then ok (pos 0)
    else elim (parse_int s) [ none ↦ raises (value_error s) | some n ↦ ok n ]
int_value _ = raises type_error

abbrev pub lines_of : Context → Split
lines_of context = record {
  downsize_lines = context.downsize_lines;
  upsize_lines = context.upsize_lines;
  new_lines = context.new_lines;
}

module _ (is_validation : Bool) (outside : Outside) where
  abbrev pub counts_of : Context → List AdobeSubscription → Counts
  counts_of context items =
      get_quantities outside.products context.market_segment (lines_of context) items

  -- The end of a check that gives an error or none.
  abbrev pub conclude : Context → Option CommitmentError → Ends Context Exception
  conclude context none = proceeds context
  conclude context (some error) =
      stops (manage_order_error is_validation (commitment_3yc_validation error) context)

  abbrev pub conclude_reply : Context → Reply (Option CommitmentError) → Ends Context Exception
  conclude_reply context (ok error) = conclude context error
  conclude_reply context (raises e) = Linear.raises e context

  -- `validate_3yc_quantities_parameters`
  unfoldable pub validate_3yc_quantities_parameters : Context → Reply (Option CommitmentError)
  unfolding below_parameters get_quantities parse_int
  validate_3yc_quantities_parameters context =
      let counts = counts_of context [] in
      if is_zero counts.licenses && is_zero counts.consumables then ok none else (do
        minimum_licenses ← int_value (customer_data context "3YCLicenses")
        minimum_consumables ← int_value (customer_data context "3YCConsumables")
        ok (below_parameters counts minimum_licenses minimum_consumables))

  -- `_validate_items_in_subscriptions`, then `_validate_minimum_quantities`
  abbrev pub check_subscriptions :
      Context → Commitment → Reply (List AdobeSubscription) → Ends Context Exception
  check_subscriptions context commitment (raises e) = Linear.raises e context
  check_subscriptions context commitment (ok items) =
      elim (validate_items_in_subscriptions (context.downsize_lines ++ context.upsize_lines)
        items) [
          | some error ↦ conclude context (some error)
          | none ↦
              conclude context
                (validate_minimum_quantity commitment.minimum_quantities (counts_of context items))
        ]

  -- `_validate_commitment_requirements`
  unfoldable pub validate_commitment_requirements :
      Context → Customer → Option Commitment → Ends Context Exception
  validate_commitment_requirements context customer none = proceeds context
  validate_commitment_requirements context customer (some commitment) =
      if is_pending commitment.status
      then proceeds context
      else if ends_before_coterm customer commitment
      then proceeds context
      else check_subscriptions context commitment
          (outside.get_subscriptions context.authorization_id context.adobe_customer_id)

  -- With an Adobe customer.
  abbrev pub with_customer : Context → Customer → Ends Context Exception
  with_customer context customer =
      let commitment = commitment_of customer in
      if status_of commitment == "REQUESTED" && not is_validation
      then stops (switch_order_to_query "3ycAccept" context)
      else if is_expired_or_rejected commitment context
      then stops (
          switch_order_to_failed
            (commitment_3yc_expired (elim commitment [ none ↦ none | some c ↦ some c.status ]))
            context)
      else validate_commitment_requirements context customer commitment

  -- The early returns, by the return orders and the Adobe customer of the context.
  abbrev pub dispatch : Context → Dict (List String) → Option Customer → Ends Context Exception
  dispatch context (_ ∷ _) _ = proceeds context
  dispatch context [] none = conclude_reply context (validate_3yc_quantities_parameters context)
  dispatch context [] (some customer) = with_customer context customer

  unfoldable pub validate_3yc_commitment : Context → Ends Context Exception
  validate_3yc_commitment context =
      dispatch context context.adobe_return_orders context.adobe_customer
