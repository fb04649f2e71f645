-- ===== src/Definition/Aggregation/Order.antt =====
-- The loop of Python's `min` and `max`, which `compute_table_aggregation` of
-- app/domain/definitions/table_fields.py calls, over any comparison.
use workfllow_execution.Prelude.{Bool, true, false, if◌then◌else◌, Bool-cases, ◌≡◌, refl, sym}
use workfllow_execution.Prelude.{inl, inr, ◌∈◌, List, [], ◌∷◌}
use mathlib.Core.Path.{subst}

-- `less` orders the values, as `<` does with those that are no NaN.
pub record AreOrdered {F : Type 0} (less : F → F → Bool) (values : List F) : Type 0 where
  pub asymmetric : (x y : F) → x ∈ values → y ∈ values → less x y ≡ true → less y x ≡ false
  pub transitive :
      (x y z : F)
      → x ∈ values
      → y ∈ values
      → z ∈ values
      → less y x ≡ false
      → less z y ≡ false
      → less z x ≡ false

pub flipped :
    {F : Type 0} {less : F → F → Bool} {values : List F}
    → AreOrdered less values
    → AreOrdered (λ x y. less y x) values
flipped o = record {
  asymmetric = λ x y h k. o.asymmetric y x k h;
  transitive = λ x y z hx hy hz e e'. o.transitive z y x hz hy hx e' e;
}

module _ {F : Type 0} (less : F → F → Bool) where
  -- No value comes before `x`.
  unfoldable pub IsFirst : F → List F → Type 0
  IsFirst x values = (y : F) → y ∈ values → less y x ≡ false

  unfoldable pub best_from : F → List F → F
  best_from x [] = x
  best_from x (y ∷ ys) = best_from (if less y x then y else x) ys

  -- `r` is one of the values, and neither `x` nor what stands behind it comes before it.
  abbrev pub IsBest : List F → F → F → List F → Type 0
  IsBest values r x xs = (r ∈ values) × IsFirst r (x ∷ xs)

  module _ (values : List F) (o : AreOrdered less values) where
    irreflexive : (x : F) → x ∈ values → less x x ≡ false
    irreflexive x h = elim (Bool-cases (less x x)) [ inl e ↦ o.asymmetric x x h h e | inr e ↦ e ]

    IsBest-extend :
        (r x y z : F) (ys : List F)
        → z ∈ values
        → less x z ≡ false
        → less y z ≡ false
        → x ∈ values
        → y ∈ values
        → IsBest values r z ys
        → IsBest values r x (y ∷ ys)
    unfolding IsFirst
    IsBest-extend r x y z ys hz e e' hx hy (m, first) = (m, go)
      where
        go : (v : F) → v ∈ x ∷ y ∷ ys → less v r ≡ false
        go v (inl h) =
            subst (λ w. less w r ≡ false) (sym h)
              (o.transitive r z x m hz hx (first z (inl refl)) e)
        go v (inr (inl h)) =
            subst (λ w. less w r ≡ false) (sym h)
              (o.transitive r z y m hz hy (first z (inl refl)) e')
        go v (inr (inr h)) = first v (inr h)

    pub best_from-IsBest :
        (x : F) (xs : List F)
        → x ∈ values
        → ((y : F) → y ∈ xs → y ∈ values)
        → IsBest values (best_from x xs) x xs
    unfolding best_from IsFirst
    best_from-IsBest x [] h k = (h, only)
      where
        only : (y : F) → y ∈ x ∷ [] → less y x ≡ false
        only y (inl e) = subst (λ w. less w x ≡ false) (sym e) (irreflexive x h)
        only y (inr m) = absurd m
    best_from-IsBest x (y ∷ ys) h k =
        let hy : y ∈ values = k y (inl refl) in
        elim (Bool-cases (less y x)) [
          | inl e ↦ rw e (
              IsBest-extend _ x y y ys hy (o.asymmetric y x hy h e) (irreflexive y hy) h hy
                (best_from-IsBest y ys hy (λ z m. k z (inr m))))
          | inr e ↦ rw e (
              IsBest-extend _ x y x ys h (irreflexive x h) e h hy
                (best_from-IsBest x ys h (λ z m. k z (inr m))))
        ]
