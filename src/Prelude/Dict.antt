-- ===== src/Prelude/Dict.antt =====
-- Python's `dict` with text keys: an association list in insertion order, in which a write to a
-- key that is there keeps its place.
use Prim.Native.String.{String}
use mathlib.Core.Path.{◌≡◌, refl}
use mathlib.Core.Logic.{◌↔◌, ◌⊎◌, ◌≢◌}
use mathlib.Core.Option.{Option, none, some}
use mathlib.Core.List.{List, [], ◌∷◌}
use native.Mathlib.Omega.{arith}
use text.Mathlib.Text.{◌==◌}
use text.Mathlib.TextEquality.{eq_iff}
use text.Mathlib.TextPositions.{eq_refl}
use workfllow_execution.Prelude.Tests.{if◌then◌else◌}
use workfllow_execution.Prelude.Members.{◌∈◌}

module _ {ℓ} {V : Type ℓ} where
  unfoldable pub lookup : String → List (String × V) → Option V
  lookup k [] = none
  lookup k ((j, v) ∷ d) = if j == k then some v else lookup k d

  -- `d[k] = v`
  unfoldable pub insert : String → V → List (String × V) → List (String × V)
  insert k v [] = (k, v) ∷ []
  insert k v ((j, w) ∷ d) = if j == k then (j, v) ∷ d else (j, w) ∷ insert k v d

  unfoldable pub keys : List (String × V) → List String
  keys [] = []
  keys ((k, v) ∷ d) = k ∷ keys d

  pub lookup-insert :
      (k j : String) (v : V) (d : List (String × V))
      → lookup j (insert k v d) ≡ (if k == j then some v else lookup j d)
  unfolding lookup insert
  lookup-insert k j v [] = refl
  lookup-insert k j v ((i, w) ∷ d) =
      ground (arith, eq_iff k j, eq_iff i k, eq_iff i j, lookup-insert k j v d)

  pub lookup-insert_self :
      (k : String) (v : V) (d : List (String × V)) → lookup k (insert k v d) ≡ some v
  lookup-insert_self k v d = simp (lookup-insert, eq_refl)

  pub lookup-insert_ne :
      (k j : String) (v : V) (d : List (String × V)) → k ≢ j → lookup j (insert k v d) ≡ lookup j d
  lookup-insert_ne k j v d h = ground (arith, lookup-insert k j v d, eq_iff k j)

  -- A key is present exactly when looking it up finds a value.
  pub mem-keys : (k : String) (d : List (String × V)) → (k ∈ keys d) ↔ (lookup k d ≢ none)
  unfolding lookup keys
  mem-keys k [] = (λ h. absurd h, λ h. absurd (h refl))
  mem-keys k ((j, v) ∷ d) =
      (λ h. ground (arith, eq_iff j k, mem-keys k d), λ h. ground (arith, eq_iff j k, mem-keys k d))

  pub keys-insert :
      (k j : String) (v : V) (d : List (String × V))
      → (j ∈ keys (insert k v d)) ↔ ((j ≡ k) ⊎ (j ∈ keys d))
  unfolding insert keys
  keys-insert k j v [] = (λ h. h, λ h. h)
  keys-insert k j v ((i, w) ∷ d) = (
    λ h. ground (arith, eq_iff i k, keys-insert k j v d),
    λ h. ground (arith, eq_iff i k, keys-insert k j v d),
  )

  -- A Python dict has each key once.
  abbrev pub IsDict : List (String × V) → Type ℓ
  IsDict [] = Unit
  IsDict ((k, v) ∷ d) = (lookup k d ≡ none) × IsDict d

  pub insert-IsDict :
      (k : String) (v : V) (d : List (String × V)) → IsDict d → IsDict (insert k v d)
  unfolding insert lookup
  insert-IsDict k v [] h = (refl, tt)
  insert-IsDict k v ((j, w) ∷ d) h =
      ground (arith, insert-IsDict k v d h.1, lookup-insert k j v d, eq_iff j k, eq_iff k j)
