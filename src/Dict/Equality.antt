-- ===== src/Dict/Equality.antt =====
-- `d == e` on dicts of numbers: the same keys with the same values, in any order.
use swo_adobe_vipm_extension.Base.{
  ℕ, String, ◌≡◌, refl, ◌↔◌, Option, none, some, [], ◌∷◌, Bool, true, false, eq_iff, arith, eqb,
  ◌&&◌, sym, inl, inr, Option-cases, ◌∙◌,
}
use swo_adobe_vipm_extension.Dict.{Dict, lookup, IsDict}

abbrev pub holds : Option ℕ → ℕ → Bool
holds none v = false
holds (some w) v = eqb w v

-- Every entry of the first dict is one of the second.
unfoldable pub includes : Dict ℕ → Dict ℕ → Bool
includes [] e = true
includes ((k, v) ∷ d) e = holds (lookup k e) v && includes d e

unfoldable pub dict_eq : Dict ℕ → Dict ℕ → Bool
unfolding includes
dict_eq d e = includes d e && includes e d

includes-lookup :
    (d e : Dict ℕ) (k : String) (v : ℕ)
    → includes d e ≡ true
    → lookup k d ≡ some v
    → lookup k e ≡ some v
unfolding includes
includes-lookup [] e k v h p = cc
includes-lookup ((j, w) ∷ d) e k v h p = ground (arith, eq_iff j k, includes-lookup d e k v)

dict_eq-lookup : (d e : Dict ℕ) (k : String) → dict_eq d e ≡ true → lookup k d ≡ lookup k e
unfolding dict_eq
dict_eq-lookup d e k h = elim (Option-cases (lookup k d)) [
  | inr (v, p) ↦ p ∙ sym (includes-lookup d e k v (ground arith) p)
  | inl p ↦ elim (Option-cases (lookup k e)) [
    | inl q ↦ p ∙ sym q
    | inr (w, q) ↦ cc (includes-lookup e d k w (ground arith) q)
  ]
]

-- An entry of a dict is what its lookup gives.
abbrev AllIn : Dict ℕ → Dict ℕ → Type 0
AllIn [] e = Unit
AllIn ((k, v) ∷ d) e = (lookup k e ≡ some v) × AllIn d e

AllIn-cons :
    (d e : Dict ℕ) (k : String) (v : ℕ)
    → lookup k d ≡ none
    → IsDict d
    → AllIn d e
    → AllIn d ((k, v) ∷ e)
AllIn-cons [] e k v n s h = tt
AllIn-cons ((j, w) ∷ d) e k v n s h =
    (ground (arith, eq_iff k j, eq_iff j k), AllIn-cons d e k v (ground arith) s.1 h.1)

AllIn-self : (d : Dict ℕ) → IsDict d → AllIn d d
AllIn-self [] h = tt
AllIn-self ((k, v) ∷ d) h =
    (ground (arith, eq_iff k k), AllIn-cons d d k v h.0 h.1 (AllIn-self d h.1))

includes_of_AllIn :
    (d e e' : Dict ℕ) → ((k : String) → lookup k e ≡ lookup k e') → AllIn d e → includes d e' ≡ true
unfolding includes
includes_of_AllIn [] e e' same h = refl
includes_of_AllIn ((k, v) ∷ d) e e' same h =
    ground (arith, same k, includes_of_AllIn d e e' same h.1)

-- Two dicts are equal exactly if every lookup agrees.
pub dict_eq_iff :
    (d e : Dict ℕ)
    → IsDict d
    → IsDict e
    → (dict_eq d e ≡ true) ↔ ((k : String) → lookup k d ≡ lookup k e)
unfolding dict_eq
dict_eq_iff d e hd he = (
  λ h k. dict_eq-lookup d e k h,
  λ same. ground (
    arith,
    includes_of_AllIn d d e same (AllIn-self d hd),
    includes_of_AllIn e e d (λ k. sym (same k)) (AllIn-self e he),
  ),
)
