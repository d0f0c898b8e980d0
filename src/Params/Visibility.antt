-- ===== src/Params/Visibility.antt =====
-- `update_parameters_visibility`: which parameters an order form shows and requires.
use mathlib.Core.Option
use swo_adobe_vipm_extension.Base.{
  String, Bool, ◌≡◌, refl, Option, none, some, List, [], ◌∷◌, true, false, not, ◌==◌, eq_iff,
  contains, if◌then◌else◌, arith, ap, ◌∙◌,
}
use swo_adobe_vipm_extension.Order.{Order, Parameter, Constraints}
use swo_adobe_vipm_extension.Params.{
  get_ordering_parameter, modify_ordering, set_each, set_parameter_visible, set_parameter_hidden,
  get_value, agreement_kind, hidden_params, visible_params, optional_customer_params,
  update_parameters_visibility,
}
use swo_adobe_vipm_extension.Params.Laws.{get-modify_ordering}
use swo_adobe_vipm_extension.Params.Tables.{by_kind, type_of, constraints_for, by_kind_lem}

abbrev pub with_constraints : Option Constraints → Parameter → Parameter
with_constraints c p = record p { constraints = c }

-- A loop that writes the constraints `c k` to each parameter `k` of a list.
abbrev write : (String → Constraints) → Order → String → Order
write c order k = modify_ordering k (with_constraints (some (c k))) order

abbrev rewritten :
    (String → Constraints) → List String → String → Option Parameter → Option Parameter
rewritten c ks j found =
    if contains ks j then Option.map (with_constraints (some (c j))) found else found

rewritten_again :
    (c : String → Constraints) (ks : List String) (k j : String) (found : Option Parameter)
    → rewritten c ks j (if k == j then Option.map (with_constraints (some (c k))) found else found)
      ≡ rewritten c (k ∷ ks) j found
rewritten_again c ks k j none = ground arith
rewritten_again c ks k j (some p) = ground (arith, eq_iff k j)

get-set_each :
    (c : String → Constraints) (ks : List String) (j : String) (order : Order)
    → get_ordering_parameter (set_each (write c) ks order) j
      ≡ rewritten c ks j (get_ordering_parameter order j)
get-set_each c [] j order = refl
get-set_each c (k ∷ ks) j order =
    get-set_each c ks j (write c order k)
    ∙ ap (rewritten c ks j)
        (get-modify_ordering k j (with_constraints (some (c k))) order (λ p. refl))
    ∙ rewritten_again c ks k j (get_ordering_parameter order j)

if_twice :
    (h v : Bool) (c d : Constraints) (found : Option Parameter)
    → (if h
        then Option.map
            (with_constraints (some c))
            (if v then Option.map (with_constraints (some d)) found else found)
        else if v
        then Option.map (with_constraints (some d)) found
        else found)
      ≡ Option.map {A = Parameter}
          (λ p. with_constraints (if h then some c else if v then some d else p.constraints) p)
          found
if_twice h v c d none = ground arith
if_twice h v c d (some p) = ground arith

get-by_kind :
    (order : Order) (k : String)
    → get_ordering_parameter (update_parameters_visibility order) k
      ≡ Option.map
          (λ p. with_constraints (by_kind (agreement_kind order) k p.constraints) p)
          (get_ordering_parameter order k)
unfolding update_parameters_visibility set_parameter_visible set_parameter_hidden
get-by_kind order k =
    get-set_each (λ _. record { hidden = true; required = false })
      (hidden_params (agreement_kind order)) k
      (set_each set_parameter_visible (visible_params (agreement_kind order)) order)
    ∙ ap
        (rewritten (λ _. record { hidden = true; required = false })
          (hidden_params (agreement_kind order)) k)
        (get-set_each
          (λ j. record { hidden = false; required = not (contains optional_customer_params j) })
          (visible_params (agreement_kind order)) k order)
    ∙ if_twice (contains (hidden_params (agreement_kind order)) k)
        (contains (visible_params (agreement_kind order)) k)
        (record { hidden = true; required = false })
        (record { hidden = false; required = not (contains optional_customer_params k) })
        (get_ordering_parameter order k)

map_same :
    (f g : Parameter → Parameter)
    → ((p : Parameter) → f p ≡ g p)
    → (o : Option Parameter) → Option.map f o ≡ Option.map g o
map_same f g h none = refl
map_same f g h (some p) = ap some (h p)

-- Where the agreement type is, in letters of any case, one of new, migrate and transfer, a parameter of
-- the form that is for that type is shown, and required unless it is one of the three 3YC parameters; a
-- parameter that is for another of the types is hidden and not required. Every other parameter, and all
-- of them for any other agreement type, and all that is not constraints, is as before.
pub get-update_parameters_visibility :
    (order : Order) (k : String)
    → get_ordering_parameter (update_parameters_visibility order) k
      ≡ Option.map
          (λ p.
            with_constraints
              (constraints_for
                (type_of (get_value (get_ordering_parameter order "agreementType")))
                k
                p.constraints)
              p)
          (get_ordering_parameter order k)
unfolding agreement_kind
get-update_parameters_visibility order k =
    get-by_kind order k
    ∙ map_same _ _
        (λ p.
          ap (λ c. with_constraints c p)
            (by_kind_lem (get_value (get_ordering_parameter order "agreementType")) k
              p.constraints))
        (get_ordering_parameter order k)
