-- ===== src/Dict/Entries.antt =====
-- What holds of every entry of a dict.
use mathlib.Core.Path.{subst}
use swo_adobe_vipm_extension.Base.{
  ◌≡◌, refl, String, some, List, [], ◌∷◌, Bool, true, false, ◌==◌, eq_iff, arith, if◌then◌else◌,
  All, Bool-cases, inl, inr,
}
use swo_adobe_vipm_extension.Dict.{Dict, lookup, insert, update}

module _ {ℓ κ} {V : Type ℓ} (P : String × V → Type κ) where
  pub insert-All : (k : String) (v : V) (d : Dict V) → P (k, v) → All P d → All P (insert k v d)
  insert-All k v [] p h = (p, tt)
  insert-All k v ((j, w) ∷ d) p h = elim (Bool-cases (j == k)) [
    | inl e ↦ rw e (p, h.1)
    | inr e ↦ rw e (h.0, insert-All k v d p h.1)
  ]

  pub update-All :
      (d : Dict V) (pairs : List (String × V)) → All P d → All P pairs → All P (update d pairs)
  update-All d [] h k = h
  update-All d ((j, v) ∷ pairs) h k = update-All (insert j v d) pairs (insert-All j v d k.0 h) k.1

  pub lookup-All : (k : String) (d : Dict V) (v : V) → All P d → lookup k d ≡ some v → P (k, v)
  lookup-All k [] v h e = cc
  lookup-All k ((j, w) ∷ d) v h e = by_test (j == k) refl (lookup-All k d v h.1) e
    where
      by_test :
          (b : Bool)
          → (j == k) ≡ b
          → (lookup k d ≡ some v → P (k, v))
          → (if b then some w else lookup k d) ≡ some v
          → P (k, v)
      by_test true f ih g =
          let key : j ≡ k = ground (arith, f, eq_iff j k) in
          let value : w ≡ v = cc in subst (λ x. P (x, v)) key (subst (λ x. P (j, x)) value h.0)
      by_test false f ih g = ih g
