-- ===== src/Dict.antt =====
-- Python's `dict` with text keys: an association list in insertion order. A dict that the program
-- builds lists no key twice.
pub mod Equality
pub mod Entries
use swo_adobe_vipm_extension.Base.{
  String, ◌≡◌, refl, Option, none, some, List, [], ◌∷◌, Bool, true, false, ◌==◌, eq_iff, arith,
  if◌then◌else◌, is_some, map,
}

abbrev pub Dict {ℓ} : Type ℓ → Type ℓ
Dict V = List (String × V)

module _ {ℓ} {V : Type ℓ} where
  -- `d.get(k)`
  abbrev pub lookup : String → Dict V → Option V
  lookup k [] = none
  lookup k ((j, v) ∷ d) = if j == k then some v else lookup k d

  -- `d[k] = v`
  abbrev pub insert : String → V → Dict V → Dict V
  insert k v [] = (k, v) ∷ []
  insert k v ((j, w) ∷ d) = if j == k then (k, v) ∷ d else (j, w) ∷ insert k v d

  -- `d.update(pairs)`, `{**d, **pairs}`
  abbrev pub update : Dict V → List (String × V) → Dict V
  update d [] = d
  update d ((k, v) ∷ pairs) = update (insert k v d) pairs

  abbrev pub keys : Dict V → List String
  keys [] = []
  keys ((k, v) ∷ d) = k ∷ keys d

  -- No key is listed twice.
  abbrev pub IsDict : Dict V → Type ℓ
  IsDict [] = Unit
  IsDict ((k, v) ∷ d) = (lookup k d ≡ none) × IsDict d

  pub lookup-insert :
      (k j : String) (v : V) (d : Dict V)
      → lookup j (insert k v d) ≡ (if k == j then some v else lookup j d)
  lookup-insert k j v [] = refl
  lookup-insert k j v ((i, w) ∷ d) =
      ground (arith, eq_iff k j, eq_iff i k, eq_iff i j, lookup-insert k j v d)

  pub insert-IsDict : (k : String) (v : V) (d : Dict V) → IsDict d → IsDict (insert k v d)
  insert-IsDict k v [] h = (refl, tt)
  insert-IsDict k v ((j, w) ∷ d) h =
      ground (arith, eq_iff j k, eq_iff k j, lookup-insert k j v d, insert-IsDict k v d h.1)

  pub update-IsDict : (d : Dict V) (pairs : List (String × V)) → IsDict d → IsDict (update d pairs)
  update-IsDict d [] h = h
  update-IsDict d ((k, v) ∷ pairs) h = update-IsDict (insert k v d) pairs (insert-IsDict k v d h)
