-- ===== src/Prelude/Members.antt =====
-- Python sets of texts as lists, and membership.
use Prim.Native.String.{String}
use mathlib.Core.Path.{◌≡◌}
use mathlib.Core.Logic.{◌↔◌, ◌⊎◌, inr}
use mathlib.Core.Bool.{Bool, true, false, ◌||◌}
use mathlib.Core.List.{List, [], ◌∷◌, ◌++◌}
use native.Mathlib.Omega.{arith}
use text.Mathlib.Text.{◌==◌}
use text.Mathlib.TextEquality.{eq_iff}

infix 40 ◌∈◌
abbrev pub ◌∈◌ : {A : Type 0} → A → List A → Type 0
x ∈ [] = ⊥
x ∈ y ∷ ys = (x ≡ y) ⊎ (x ∈ ys)

-- `x in xs`
abbrev pub contains : List String → String → Bool
contains [] x = false
contains (y ∷ ys) x = (x == y) || contains ys x

pub contains_iff : (xs : List String) (x : String) → (contains xs x ≡ true) ↔ (x ∈ xs)
contains_iff [] x = (λ h. cc, λ h. absurd h)
contains_iff (y ∷ ys) x =
    (ground (arith, eq_iff x y, contains_iff ys x), ground (arith, eq_iff x y, contains_iff ys x))

module _ {A : Type 0} where
  pub mem-append : (x : A) (xs ys : List A) → (x ∈ xs ++ ys) ↔ ((x ∈ xs) ⊎ (x ∈ ys))
  mem-append x [] ys = (λ h. inr h, λ h. ground arith)
  mem-append x (y ∷ xs) ys =
      (λ h. ground (arith, mem-append x xs ys), λ h. ground (arith, mem-append x xs ys))
