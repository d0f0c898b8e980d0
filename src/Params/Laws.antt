-- ===== src/Params/Laws.antt =====
-- A write to one parameter is seen by the lookup of that parameter and by no other.
use mathlib.Core.Option
use swo_adobe_vipm_extension.Base.{
  String, ◌≡◌, List, [], ◌∷◌, ◌==◌, eq_iff, find_first, update_first, if◌then◌else◌, arith,
}
use swo_adobe_vipm_extension.Order.{Order, Parameter}
use swo_adobe_vipm_extension.Params.{has_id, get_ordering_parameter, modify_ordering}

-- Writers keep the external id.
abbrev pub KeepsId : (Parameter → Parameter) → Type 0
KeepsId f = (p : Parameter) → (f p).external_id ≡ p.external_id

pub find_first-update_first :
    (k j : String) (f : Parameter → Parameter) (ps : List Parameter)
    → KeepsId f
    → find_first (has_id j) (update_first (has_id k) f ps)
      ≡ (if k == j then Option.map f (find_first (has_id j) ps) else find_first (has_id j) ps)
find_first-update_first k j f [] h = ground arith
find_first-update_first k j f (p ∷ ps) h = ground (
  arith,
  h p,
  eq_iff p.external_id k,
  eq_iff p.external_id j,
  eq_iff k j,
  find_first-update_first k j f ps h,
)

pub get-modify_ordering :
    (k j : String) (f : Parameter → Parameter) (order : Order)
    → KeepsId f
    → get_ordering_parameter (modify_ordering k f order) j ≡ (
        if k == j
        then Option.map f (get_ordering_parameter order j)
        else get_ordering_parameter order j)
unfolding get_ordering_parameter
get-modify_ordering k j f order h = find_first-update_first k j f order.ordering h
