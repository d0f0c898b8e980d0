-- ===== src/Params/Tables.antt =====
-- Which parameters of an order form each agreement type shows, against the tables of the code.
use mathlib.Core.Path.{subst}
use swo_adobe_vipm_extension.Base.{
  sym, ap, ◌∙◌, String, Bool-cases, inl, inr, All, find_first, lower_is, ◌||◌, ◌≡◌, refl, Option,
  none, some, List, [], ◌∷◌, true, false, not, ◌==◌, eq_iff, contains, if◌then◌else◌, arith,
}
use swo_adobe_vipm_extension.Order.{Constraints, Value, null, text, choices, address, contact}
use swo_adobe_vipm_extension.Params.{
  AgreementKind, new, migrate, transfer, other, agreement_text, hidden_params, visible_params,
  optional_customer_params,
}

-- The constraints by the tables of the code.
abbrev pub by_kind : AgreementKind → String → Option Constraints → Option Constraints
by_kind kind k old =
    if contains (hidden_params kind) k
    then some (record { hidden = true; required = false })
    else if contains (visible_params kind) k
    then some (record { hidden = false; required = not (contains optional_customer_params k) })
    else old

-- The agreement types.
abbrev types : List String
types = "new" ∷ "migrate" ∷ "transfer" ∷ []

-- The agreement type of an order, whatever the case of its letters.
abbrev pub type_of : Value → Option String
type_of (text s) = find_first (lower_is s) types
type_of _ = none

-- The agreement type that a parameter of the form is for.
abbrev pub home : String → Option String
home k =
    if contains ("companyName" ∷ "address" ∷ "contact" ∷ "companyAgencyType" ∷ []) k
      || contains ("3YC" ∷ "3YCLicenses" ∷ "3YCConsumables" ∷ []) k
    then some "new"
    else if "membershipId" == k
    then some "migrate"
    else if contains ("adobeCustomerAdminEmail" ∷ "changeResellerCode" ∷ []) k
    then some "transfer"
    else none

abbrev pub shown_for : String → String → String → Constraints
shown_for t k w =
    if w == t
    then record {
      hidden = false;
      required = not (contains ("3YC" ∷ "3YCLicenses" ∷ "3YCConsumables" ∷ []) k);
    }
    else record { hidden = true; required = false }

abbrev pub constraints_for : Option String → String → Option Constraints → Option Constraints
constraints_for none k old = old
constraints_for (some t) k old = elim (home k) [ none ↦ old | some w ↦ some (shown_for t k w) ]

abbrev kind_of : Option String → AgreementKind
kind_of none = other
kind_of (some t) = if t == "new" then new else if t == "migrate" then migrate else transfer

-- The two tables agree on a parameter.
abbrev Agree : String → Type 0
Agree k =
    (old : Option Constraints)
    → All (λ t. by_kind (kind_of (some t)) k old ≡ constraints_for (some t) k old) types

abbrev form : List String
form =
    "companyName" ∷ "address" ∷ "contact" ∷ "companyAgencyType" ∷ "3YC" ∷ "3YCLicenses"
    ∷ "3YCConsumables" ∷ "membershipId" ∷ "adobeCustomerAdminEmail" ∷ "changeResellerCode" ∷ []

form-Agree : All Agree form
form-Agree = (
  λ _. (refl, (refl, (refl, tt))),
  (
    λ _. (refl, (refl, (refl, tt))),
    (
      λ _. (refl, (refl, (refl, tt))),
      (
        λ _. (refl, (refl, (refl, tt))),
        (
          λ _. (refl, (refl, (refl, tt))),
          (
            λ _. (refl, (refl, (refl, tt))),
            (
              λ _. (refl, (refl, (refl, tt))),
              (
                λ _. (refl, (refl, (refl, tt))),
                (λ _. (refl, (refl, (refl, tt))), (λ _. (refl, (refl, (refl, tt))), tt)),
              ),
            ),
          ),
        ),
      ),
    ),
  ),
)

contains-none :
    (xs : List String) (k : String) → contains xs k ≡ false → All (λ x. (x == k) ≡ false) xs
contains-none [] k h = tt
contains-none (x ∷ xs) k h = (ground (arith, h), contains-none xs k (ground (arith, h)))

other-Agree : (k : String) → contains form k ≡ false → Agree k
other-Agree k h old = by_tests (contains-none form k h)
  where
    keeps : (t : String) → home k ≡ none → constraints_for (some t) k old ≡ old
    keeps t e = ap (λ m. elim m [ none ↦ old | some w ↦ some (shown_for t k w) ]) e

    by_tests :
        All (λ x. (x == k) ≡ false) form
        → All (λ t. by_kind (kind_of (some t)) k old ≡ constraints_for (some t) k old) types
    by_tests (a, (b, (c, (d, (e, (f, (g, (i, (j, (l, _)))))))))) =
        let homeless : home k ≡ none = ground (arith, a, b, c, d, e, f, g, i, j, l) in
        (
          rw (a, b, c, d, e, f, g, i, j, l) refl ∙ sym (keeps "new" homeless),
          (
            rw (a, b, c, d, e, f, g, i, j, l) refl ∙ sym (keeps "migrate" homeless),
            (rw (a, b, c, d, e, f, g, i, j, l) refl ∙ sym (keeps "transfer" homeless), tt),
          ),
        )

contains-All :
    (P : String → Type 0) (xs : List String) → All P xs → (k : String) → contains xs k ≡ true → P k
contains-All P [] h k e = cc
contains-All P (x ∷ xs) h k e = elim (Bool-cases (x == k)) [
  | inl f ↦ subst P ((eq_iff x k).0 f) h.0
  | inr f ↦ contains-All P xs h.1 k (ground (arith, e, f))
]

each-Agree : (k : String) → Agree k
each-Agree k = elim (Bool-cases (contains form k)) [
  | inl e ↦ contains-All Agree form form-Agree k e
  | inr e ↦ other-Agree k e
]

abbrev pub kind_in : Value → AgreementKind
unfolding lower_is
kind_in value =
    let s = agreement_text value in
    if lower_is s "new"
    then new
    else if lower_is s "migrate"
    then migrate
    else if lower_is s "transfer"
    then transfer
    else other

pub by_kind_lem :
    (value : Value) (k : String) (old : Option Constraints)
    → by_kind (kind_in value) k old ≡ constraints_for (type_of value) k old
unfolding lower_is
by_kind_lem null k old = refl
by_kind_lem (choices ss) k old = refl
by_kind_lem (address a) k old = refl
by_kind_lem (contact c) k old = refl
by_kind_lem (text s) k old =
    let agree = each-Agree k old in
    elim (Bool-cases (lower_is s "new")) [
      | inl e ↦ rw e agree.0
      | inr e ↦ elim (Bool-cases (lower_is s "migrate")) [
        | inl f ↦ rw (e, f) agree.1.0
        | inr f ↦ elim (Bool-cases (lower_is s "transfer")) [
          | inl g ↦ rw (e, f, g) agree.1.1.0
          | inr g ↦ rw (e, f, g) refl
        ]
      ]
    ]
