-- ===== src/ThreeYc/Lost.antt =====
-- The test for a commitment that has ended or was rejected, against what it is meant to find.
use swo_adobe_vipm_extension.Base.{
  false, [], ◌∷◌, ◌↔◌, ap, ◌≤◌, ltb, ℕ, Option, none, some, true, ◌==◌, ◌≡◌, ◌⊎◌, inl, inr, refl,
  arith, eq_iff, Bool-cases,
}
use swo_adobe_vipm_extension.Order.{Value, null, text, choices, address, contact}
use swo_adobe_vipm_extension.Customer.{Customer, Commitment}
use swo_adobe_vipm_extension.Context.{Context, customer_data}
use swo_adobe_vipm_extension.ThreeYc.Step.{
  is_over, is_yes, ends_before_coterm, is_expired_or_rejected,
}

-- The customer's commitment has ended or was rejected, or there is none although the order asks for one.
pub data IsLost (context : Context) : Option Commitment → Type 0 where
  ended :
      {c : Commitment}
      → (c.status ≡ "EXPIRED") ⊎ ((c.status ≡ "NONCOMPLIANT") ⊎ (c.status ≡ "DECLINED"))
      → IsLost context (some c)
  not_given : customer_data context "3YC" ≡ choices ("Yes" ∷ []) → IsLost context none

-- A status that the test takes for over.
over-IsLost :
    (context : Context) (c : Commitment) → is_over c.status ≡ true → IsLost context (some c)
over-IsLost context c h = elim (Bool-cases (c.status == "EXPIRED")) [
  | inl e ↦ ended (inl ((eq_iff c.status "EXPIRED").0 e))
  | inr e ↦ elim (Bool-cases (c.status == "NONCOMPLIANT")) [
    | inl f ↦ ended (inr (inl ((eq_iff c.status "NONCOMPLIANT").0 f)))
    | inr f ↦ ended (inr (inr ((eq_iff c.status "DECLINED").0 (ground arith))))
  ]
]

IsLost-over :
    (context : Context) (c : Commitment) → IsLost context (some c) → is_over c.status ≡ true
IsLost-over context c (ended (inl e)) = rw e refl
IsLost-over context c (ended (inr (inl e))) = rw e refl
IsLost-over context c (ended (inr (inr e))) = rw e refl

yes_lem : (value : Value) → is_yes value ≡ true → value ≡ choices ("Yes" ∷ [])
yes_lem null h = cc
yes_lem (text s) h = cc
yes_lem (choices []) h = cc
yes_lem (choices (s ∷ [])) h = ap (λ t. choices (t ∷ [])) ((eq_iff s "Yes").0 h)
yes_lem (choices (s ∷ t ∷ rest)) h = cc
yes_lem (address a) h = cc
yes_lem (contact c) h = cc

-- The test of the code, against what it is meant to find.
pub IsLost-test :
    (context : Context) (c : Option Commitment)
    → (IsLost context c → is_expired_or_rejected c context ≡ true)
      × (is_expired_or_rejected c context ≡ true → IsLost context c)
unfolding is_expired_or_rejected
IsLost-test context none =
    (by_wish, λ h. not_given (yes_lem (customer_data context "3YC") (ground arith)))
  where
    by_wish : IsLost context none → is_expired_or_rejected none context ≡ true
    by_wish (not_given h) = rw h refl
IsLost-test context (some c) =
    (λ l. ground (arith, IsLost-over context c l), λ h. over-IsLost context c (ground arith))

-- The commitment does not end before the customer's anniversary, where one is known.
abbrev pub ReachesCoterm : Customer → Commitment → Type 0
ReachesCoterm customer c = (d : ℕ) → customer.coterm_date ≡ some d → d ≤ c.end_date

pub ReachesCoterm-iff :
    (customer : Customer) (c : Commitment)
    → (ends_before_coterm customer c ≡ false) ↔ ReachesCoterm customer c
unfolding ends_before_coterm
ReachesCoterm-iff customer c = by_date customer.coterm_date
  where
    by_date :
        (date : Option ℕ)
        → ((elim date [ none ↦ false | some d ↦ ltb c.end_date d ]) ≡ false)
          ↔ ((d : ℕ) → date ≡ some d → d ≤ c.end_date)
    by_date none = (λ h d e. cc, λ h. refl)
    by_date (some x) = (λ h d e. ground (arith, h, e), λ h. ground (arith, h x refl))
