-- ===== src/Definition/Aggregation/Bounds.antt =====
-- What an aggregation of a column can be, for `compute_table_aggregation` of
-- app/domain/definitions/table_fields.py.
use workfllow_execution.Prelude.{
  ℕ, ◌≤◌, suc, length, if◌then◌else◌, ◌∙◌, false, ap, String, ◌==◌, eq_iff, true, false, ◌≡◌,
}
use workfllow_execution.Prelude.{
  refl, sym, ◌≢◌, ◌⊎◌, Bool-cases, Option-cases, arith, inl, inr, ◌∈◌,
}
use workfllow_execution.Prelude.{some, List, [], ◌∷◌}
use mathlib.Core.Path.{subst}
use workfllow_execution.Json.{pos, Json, Dict, Python, null, bool, int, float, str, arr, obj}
use workfllow_execution.Definition.{get_in}
use workfllow_execution.Definition.Aggregation.Order.{
  AreOrdered, flipped, IsFirst, IsBest, best_from, best_from-IsBest,
}
use workfllow_execution.Definition.Aggregation.{
  Floats, parse_numeric, numeric_values, is_non_empty, count_non_empty, min_from, max_from,
  aggregate, compute_table_aggregation,
}

is_not : (s t : String) → (s == t) ≡ false → s ≢ t
is_not s t h = ground (arith, eq_iff s t)

false-true : false ≢ true
false-true h = absurd (cc)

module _ {F : Type 0} ⦃py : Python F⦄ ⦃fl : Floats F⦄ where
  parse_numeric-non_empty : (v : Json F) (x : F) → parse_numeric v ≡ some x → is_non_empty v ≡ true
  parse_numeric-non_empty null x e = absurd (cc)
  parse_numeric-non_empty (bool b) x e = refl
  parse_numeric-non_empty (int n) x e = refl
  parse_numeric-non_empty (float y) x e = refl
  parse_numeric-non_empty (str s) x e =
      ground (arith, e, eq_iff s "", eq_iff (fl.strip s) "", fl.strip-empty)
  parse_numeric-non_empty (arr xs) x e = refl
  parse_numeric-non_empty (obj fs) x e = refl

  not_null : (v : Json F) → is_non_empty v ≡ true → v ≢ null
  not_null v e h = absurd (false-true (ap is_non_empty (sym h) ∙ e))

  not_blank : (v : Json F) → is_non_empty v ≡ true → v ≢ str ""
  not_blank v e h = absurd (false-true (ap is_non_empty (sym h) ∙ e))

  is_blank : (v : Json F) → is_non_empty v ≡ false → (v ≡ null) ⊎ (v ≡ str "")
  is_blank null e = inl refl
  is_blank (bool b) e = absurd (cc)
  is_blank (int n) e = absurd (cc)
  is_blank (float y) e = absurd (cc)
  is_blank (str s) e = elim (Bool-cases (s == "")) [
    | inl h ↦ inr (ap str ((eq_iff s "").0 h))
    | inr h ↦ absurd (cc)
  ]
  is_blank (arr xs) e = absurd (cc)
  is_blank (obj fs) e = absurd (cc)

  module _ (column_id : String) where
    numeric_values-le :
        (rows : List (Dict F))
        → length (numeric_values rows column_id) ≤ count_non_empty rows column_id
    unfolding numeric_values count_non_empty
    numeric_values-le [] = omega arith
    numeric_values-le (row ∷ rows) = elim (Option-cases (parse_numeric (get_in row column_id))) [
      | inl e ↦ rw (e, length) (ground (arith, numeric_values-le rows))
      | inr (x, e) ↦
          rw (e, length, parse_numeric-non_empty (get_in row column_id) x e)
            (omega (arith, numeric_values-le rows))
    ]

    -- How many rows have an entry in the column that is neither None nor the empty text.
    pub data Entries : List (Dict F) → ℕ → Type 0 where
      none_left : Entries [] 0
      blank :
          {row : Dict F} {rows : List (Dict F)} {n : ℕ}
          → (get_in row column_id ≡ null) ⊎ (get_in row column_id ≡ str "")
          → Entries rows n
          → Entries (row ∷ rows) n
      entry :
          {row : Dict F} {rows : List (Dict F)} {n : ℕ}
          → get_in row column_id ≢ null
          → get_in row column_id ≢ str ""
          → Entries rows n
          → Entries (row ∷ rows) (suc n)

    count_non_empty-Entries : (rows : List (Dict F)) → Entries rows (count_non_empty rows column_id)
    unfolding count_non_empty
    count_non_empty-Entries [] = none_left
    count_non_empty-Entries (row ∷ rows) = elim (Bool-cases (is_non_empty (get_in row column_id))) [
      | inl e ↦ rw e (entry (not_null _ e) (not_blank _ e) (count_non_empty-Entries rows))
      | inr e ↦ rw e (blank (is_blank _ e) (count_non_empty-Entries rows))
    ]

  min_from-best : (x : F) (xs : List F) → best_from fl.less x xs ≡ min_from x xs
  unfolding min_from best_from
  min_from-best x [] = refl
  min_from-best x (y ∷ ys) = min_from-best (if fl.less y x then y else x) ys

  max_from-best : (x : F) (xs : List F) → best_from (λ y z. fl.less z y) x xs ≡ max_from x xs
  unfolding max_from best_from
  max_from-best x [] = refl
  max_from-best x (y ∷ ys) = max_from-best (if fl.less x y then y else x) ys

  min_from-IsBest :
      (x : F) (xs : List F)
      → AreOrdered fl.less (x ∷ xs)
      → IsBest fl.less (x ∷ xs) (min_from x xs) x xs
  min_from-IsBest x xs o =
      subst (λ r. IsBest fl.less (x ∷ xs) r x xs) (min_from-best x xs)
        (best_from-IsBest fl.less (x ∷ xs) o x xs (inl refl) (λ y m. inr m))

  max_from-IsBest :
      (x : F) (xs : List F)
      → AreOrdered fl.less (x ∷ xs)
      → IsBest (λ y z. fl.less z y) (x ∷ xs) (max_from x xs) x xs
  max_from-IsBest x xs o =
      subst (λ r. IsBest (λ y z. fl.less z y) (x ∷ xs) r x xs) (max_from-best x xs)
        (best_from-IsBest (λ y z. fl.less z y) (x ∷ xs) (flipped o) x xs (inl refl) (λ y m. inr m))

  -- The values that an operation may yield on a column of some rows.
  pub data IsAggregate (rows : List (Dict F)) (column_id operation : String) : Json F → Type 0 where
    counted :
        {n : ℕ}
        → operation ≡ "count"
        → Entries column_id rows n
        → length (numeric_values rows column_id) ≤ n
        → IsAggregate rows column_id operation (int (pos n))
    no_values :
        operation ≢ "count"
        → numeric_values rows column_id ≡ []
        → IsAggregate rows column_id operation null
    summed :
        operation ≡ "sum"
        → numeric_values rows column_id ≢ []
        → IsAggregate rows column_id operation (float (fl.sum (numeric_values rows column_id)))
    least :
        {x : F}
        → operation ≡ "min"
        → x ∈ numeric_values rows column_id
        → IsFirst fl.less x (numeric_values rows column_id)
        → IsAggregate rows column_id operation (float x)
    greatest :
        {x : F}
        → operation ≡ "max"
        → x ∈ numeric_values rows column_id
        → IsFirst (λ y z. fl.less z y) x (numeric_values rows column_id)
        → IsAggregate rows column_id operation (float x)
    averaged :
        operation ≡ "avg"
        → numeric_values rows column_id ≢ []
        → IsAggregate rows column_id operation (
            float (
              fl.divide
                (fl.sum (numeric_values rows column_id))
                (length (numeric_values rows column_id))))
    unknown :
        operation ≢ "count"
        → operation ≢ "sum"
        → operation ≢ "min"
        → operation ≢ "max"
        → operation ≢ "avg"
        → IsAggregate rows column_id operation null

  some_values : {values xs : List F} → {x : F} → values ≡ x ∷ xs → values ≢ []
  some_values e none = absurd (cc)

  aggregate-IsAggregate :
      (rows : List (Dict F)) (column_id operation : String) (values : List F)
      → numeric_values rows column_id ≡ values
      → AreOrdered fl.less values
      → operation ≢ "count"
      → IsAggregate rows column_id operation (aggregate values operation)
  aggregate-IsAggregate rows column_id operation [] e o other = no_values other e
  aggregate-IsAggregate rows column_id operation (x ∷ xs) e o other =
      elim (Bool-cases (operation == "sum")) [
        | inl h ↦ rw h (rw (sym e) (summed ((eq_iff operation "sum").0 h) (some_values e)))
        | inr not_sum ↦ rw not_sum (elim (Bool-cases (operation == "min")) [
          | inl h ↦ rw h (
              let (m, first) = min_from-IsBest x xs o in
              least ((eq_iff operation "min").0 h)
                (subst (λ (vs : List F). min_from x xs ∈ vs) (sym e) m)
                (subst (IsFirst fl.less (min_from x xs)) (sym e) first))
          | inr not_min ↦ rw not_min (elim (Bool-cases (operation == "max")) [
            | inl h ↦ rw h (
                let (m, first) = max_from-IsBest x xs o in
                greatest ((eq_iff operation "max").0 h)
                  (subst (λ (vs : List F). max_from x xs ∈ vs) (sym e) m)
                  (subst (IsFirst (λ y z. fl.less z y) (max_from x xs)) (sym e) first))
            | inr not_max ↦ rw not_max (elim (Bool-cases (operation == "avg")) [
              | inl h ↦ rw h (
                  subst
                    (λ (vs : List F).
                      IsAggregate rows column_id operation
                        (float (fl.divide (fl.sum vs) (length vs))))
                    e (averaged ((eq_iff operation "avg").0 h) (some_values e)))
              | inr not_avg ↦ rw not_avg (
                  unknown other (is_not operation "sum" not_sum) (is_not operation "min" not_min)
                    (is_not operation "max" not_max) (is_not operation "avg" not_avg))
            ])
          ])
        ])
      ]

  -- Counting a column gives the number of its entries that are neither None nor the empty text, no
  -- fewer than its numeric values. Without numeric values every other operation gives none. With
  -- some, if `<` orders them, the minimum is one of them that none is less than, and the maximum
  -- one that is less than none; the sum and the average are those of all of them, and an operation
  -- of another name gives none.
  pub compute_table_aggregation_lem :
      (rows : List (Dict F)) (column_id operation : String)
      → AreOrdered fl.less (numeric_values rows column_id)
      → IsAggregate rows column_id operation (compute_table_aggregation rows column_id operation)
  unfolding compute_table_aggregation
  compute_table_aggregation_lem rows column_id operation o =
      elim (Bool-cases (operation == "count")) [
        | inl h ↦ rw h (
            counted ((eq_iff operation "count").0 h) (count_non_empty-Entries column_id rows)
              (numeric_values-le column_id rows))
        | inr h ↦ rw h (
            aggregate-IsAggregate rows column_id operation (numeric_values rows column_id) refl o
              (is_not operation "count" h))
      ]
