-- ===== src/Purchase/Prepared.antt =====
-- What `PrepareCustomerData` makes of the parameters.
use mathlib.Core.Option
use swo_adobe_vipm_extension.Base.{
  String, ◌≡◌, refl, sym, ap, ◌∙◌, inl, inr, Option, none, some, [], ◌∷◌, ◌++◌, Bool, true, false,
  ◌==◌, ◌&&◌, if◌then◌else◌, Bool-cases, eq_iff, arith,
}
use swo_adobe_vipm_extension.Order.{Order, Parameter, Value, text, address, contact, Contact}
use swo_adobe_vipm_extension.Params.{
  get_value, get_ordering_parameter, update_ordering_parameter_value,
}
use swo_adobe_vipm_extension.Params.Laws.{get-modify_ordering}
use swo_adobe_vipm_extension.Context.{Context, Exception, update_parameters}
use swo_adobe_vipm_extension.Pipeline.Linear.{Ends, proceeds}
use swo_adobe_vipm_extension.Purchase.CustomerData.{is_falsy}
use swo_adobe_vipm_extension.Purchase.Prepare.{
  Licensee, Data, set_customer_data, lacks, contact_data, new_customer_data, with_data,
  prepare_customer_data,
}

-- The value of the licensee for a parameter, if it has one.
abbrev pub licensee_value : Licensee → String → Option Value
licensee_value licensee param =
    if "companyName" == param
    then some (text licensee.name)
    else if "address" == param
    then some (address licensee.located_at)
    else if "contact" == param
    then Option.map contact licensee.reached_by
    else none

-- A parameter without a value takes the value that there is for it.
abbrev pub filled : Option Value → Parameter → Parameter
filled none p = p
filled (some value) p = if is_falsy p.value then record p { value = value } else p

order-with_data :
    (v : Bool) (context : Context) (values : Data)
    → (with_data v context values).order ≡ set_customer_data context.order values
unfolding set_customer_data
order-with_data v context [] = refl
order-with_data v context (d ∷ values) = ground arith

get-update_value :
    (k j : String) (value : Value) (order : Order)
    → get_ordering_parameter (update_ordering_parameter_value order k value) j ≡ (
        if k == j
        then Option.map
            (λ (p : Parameter). record p { value = value })
            (get_ordering_parameter order j)
        else get_ordering_parameter order j)
unfolding update_ordering_parameter_value
get-update_value k j value order =
    get-modify_ordering k j (λ (p : Parameter). record p { value = value }) order (λ p. refl)

abbrev entry : Bool → String → Value → Data
entry b k value = if b then (k, value) ∷ [] else []

abbrev put : Bool → String → Value → Order → Order
put b k value order = if b then update_ordering_parameter_value order k value else order

set-entry :
    (b : Bool) (k : String) (value : Value) (order : Order) (values : Data)
    → set_customer_data order (entry b k value ++ values)
      ≡ set_customer_data (put b k value order) values
unfolding set_customer_data
set-entry true k value order values = refl
set-entry false k value order values = refl

abbrev refilled : Bool → Value → Option Parameter → Option Parameter
refilled b value o = if b then Option.map (λ (p : Parameter). record p { value = value }) o else o

get-put :
    (b : Bool) (k j : String) (value : Value) (order : Order)
    → get_ordering_parameter (put b k value order) j
      ≡ refilled (k == j && b) value (get_ordering_parameter order j)
get-put true k j value order = elim (Bool-cases (k == j)) [
  | inl e ↦ rw e (get-update_value k j value order ∙ rw e refl)
  | inr e ↦ rw e (get-update_value k j value order ∙ rw e refl)
]
get-put false k j value order = elim (Bool-cases (k == j)) [ inl e ↦ rw e refl | inr e ↦ rw e refl ]

set-last :
    (b : Bool) (k : String) (value : Value) (order : Order)
    → set_customer_data order (entry b k value) ≡ put b k value order
unfolding set_customer_data
set-last true k value order = refl
set-last false k value order = refl

refilled-filled :
    (b : Bool) (value : Value) (o : Option Parameter)
    → is_falsy (get_value o) ≡ b
    → refilled b value o ≡ Option.map (filled (some value)) o
refilled-filled true value none h = refl
refilled-filled false value none h = refl
refilled-filled true value (some p) h = rw h refl
refilled-filled false value (some p) h = rw h refl

filled-none : (o : Option Parameter) → Option.map (filled none) o ≡ o
filled-none none = refl
filled-none (some p) = refl

differs : (k l j : String) → (l == k) ≡ false → (k == j) ≡ true → (l == j) ≡ false
differs k l j h e = ap (λ s. l == s) (sym ((eq_iff k j).0 e)) ∙ h

module _ (licensee : Licensee) (context : Context) (j : String) where
  abbrev got : Option Parameter
  got = get_ordering_parameter context.order j

  own :
      (k : String) (value : Value)
      → (k == j) ≡ true
      → refilled (lacks context k) value got ≡ Option.map (filled (some value)) got
  own k value e = refilled-filled (lacks context k) value got (
      ap (λ s. is_falsy (get_value (get_ordering_parameter context.order s)))
        (sym ((eq_iff k j).0 e)))

  abbrev put_two : Order
  put_two =
      put (lacks context "address") "address" (address licensee.located_at)
        (put (lacks context "companyName") "companyName" (text licensee.name) context.order)

  -- The parameter after the writes, by the name of each.
  abbrev got_two : Option Parameter
  got_two =
      refilled ("address" == j && lacks context "address") (address licensee.located_at)
        (refilled ("companyName" == j && lacks context "companyName") (text licensee.name) got)

  get-put_two : get_ordering_parameter put_two j ≡ got_two
  get-put_two =
      get-put (lacks context "address") "address" j (address licensee.located_at)
        (put (lacks context "companyName") "companyName" (text licensee.name) context.order)
      ∙ ap (refilled ("address" == j && lacks context "address") (address licensee.located_at))
          (get-put (lacks context "companyName") "companyName" j (text licensee.name) context.order)

  -- The value that the licensee has, without a contact and with one.
  abbrev value_with : Option Contact → Option Value
  value_with r = licensee_value (record licensee { reached_by = r }) j

  refilled_two : got_two ≡ Option.map (filled (value_with none)) got
  refilled_two = elim (Bool-cases ("companyName" == j)) [
    | inl e ↦ rw (e, differs "companyName" "address" j refl e) (own "companyName" _ e)
    | inr e ↦ elim (Bool-cases ("address" == j)) [
      | inl f ↦ rw (e, f) (own "address" _ f)
      | inr f ↦ elim (Bool-cases ("contact" == j)) [
        | inl g ↦ rw (e, f, g) (sym (filled-none got))
        | inr g ↦ rw (e, f, g) (sym (filled-none got))
      ]
    ]
  ]

  refilled_three :
      (c : Contact)
      → refilled ("contact" == j && lacks context "contact") (contact c) got_two
        ≡ Option.map (filled (value_with (some c))) got
  refilled_three c = elim (Bool-cases ("companyName" == j)) [
    | inl e ↦
        rw (e, differs "companyName" "address" j refl e, differs "companyName" "contact" j refl e)
          (own "companyName" _ e)
    | inr e ↦ elim (Bool-cases ("address" == j)) [
      | inl f ↦ rw (e, f, differs "address" "contact" j refl f) (own "address" _ f)
      | inr f ↦ elim (Bool-cases ("contact" == j)) [
        | inl g ↦ rw (e, f, g) (own "contact" _ g)
        | inr g ↦ rw (e, f, g) (sym (filled-none got))
      ]
    ]
  ]

  set-put_two :
      (values : Data)
      → set_customer_data context.order (
          entry (lacks context "companyName") "companyName" (text licensee.name)
          ++ (entry (lacks context "address") "address" (address licensee.located_at) ++ values))
        ≡ set_customer_data put_two values
  set-put_two values =
      set-entry (lacks context "companyName") "companyName" (text licensee.name) context.order _
      ∙ set-entry (lacks context "address") "address" (address licensee.located_at) _ values

  get-set_customer_data :
      (r : Option Contact)
      → get_ordering_parameter (set_customer_data put_two (contact_data context r)) j
        ≡ Option.map (filled (value_with r)) got
  unfolding set_customer_data
  get-set_customer_data none = get-put_two ∙ refilled_two
  get-set_customer_data (some c) =
      ap (λ order. get_ordering_parameter order j)
        (set-last (lacks context "contact") "contact" (contact c) put_two)
      ∙ get-put (lacks context "contact") "contact" j (contact c) put_two
      ∙ ap (refilled ("contact" == j && lacks context "contact") (contact c)) get-put_two
      ∙ refilled_three c

-- The calls that the step sends: a draft, or a context that nothing changes in, sends none.
pub data Told (v : Bool) (before after : Context) : Type 0 where
  unchanged : after ≡ before → Told v before after
  draft : v ≡ true → after.calls ≡ before.calls → Told v before after
  told :
      v ≡ false
      → after.calls
        ≡ before.calls
          ++ update_parameters after.order.id after.order.ordering after.order.fulfillment ∷ []
      → Told v before after

with_data-Told :
    (v : Bool) (context : Context) (values : Data) → Told v context (with_data v context values)
unfolding set_customer_data
with_data-Told v context [] = unchanged refl
with_data-Told true context (d ∷ values) = draft refl refl
with_data-Told false context (d ∷ values) = told refl refl

pub data IsPrepared (v : Bool) (licensee : Licensee) (context : Context)
    : Ends Context Exception → Type 0 where
  goes_on :
      {prepared : Context}
      → Told v context prepared
      → ((j : String)
          → get_ordering_parameter prepared.order j
            ≡ Option.map
                (filled (licensee_value licensee j))
                (get_ordering_parameter context.order j))
      → IsPrepared v licensee context (proceeds prepared)

-- The step always goes on. Then every parameter of the ordering phase has the value that it had, or if
-- that was empty the licensee's, where there is one: its name, address and contact for the parameters
-- `companyName`, `address` and `contact`. If it is not a draft and anything was taken, the platform is told
-- all the parameters.
pub prepare_customer_data-IsPrepared :
    (v : Bool) (licensee : Licensee) (context : Context)
    → IsPrepared v licensee context (prepare_customer_data v licensee context)
unfolding prepare_customer_data
prepare_customer_data-IsPrepared v licensee context =
    goes_on (with_data-Told v context (new_customer_data licensee context)) (λ j.
      ap (λ order. get_ordering_parameter order j)
        (order-with_data v context (new_customer_data licensee context)
          ∙ set-put_two licensee context j (contact_data context licensee.reached_by))
      ∙ get-set_customer_data licensee context j licensee.reached_by)
