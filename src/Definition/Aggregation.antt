-- ===== src/Definition/Aggregation.antt =====
-- The aggregations of a table column: `compute_table_aggregation` of
-- app/domain/definitions/table_fields.py and what it calls.
pub mod Order
pub mod Bounds
pub mod Outputs
use workfllow_execution.Prelude.{ℕ, suc, length, String, ◌==◌, Bool, true, false, ◌≡◌}
use workfllow_execution.Prelude.{if◌then◌else◌, Option, none, some, List, [], ◌∷◌}
use workfllow_execution.Json.{ℤ, pos, Json, Dict, Python, null, bool, int, float, str}
use workfllow_execution.Definition.{get_in}

-- Python's `sum`, `/` by a length and `<` on floats, `str.strip`, and `float` of a text with
-- none for a ValueError.
pub record Floats (F : Type 0) : Type 0 where
  pub sum : List F → F
  pub divide : F → ℕ → F
  pub less : F → F → Bool
  pub strip : String → String
  pub parse : String → Option F
  pub strip-empty : strip "" ≡ ""

module _ {F : Type 0} ⦃py : Python F⦄ ⦃fl : Floats F⦄ where
  abbrev pub parse_numeric : Json F → Option F
  parse_numeric (int n) = some (py.of_int n)
  parse_numeric (float x) = some x
  parse_numeric (str s) = if fl.strip s == "" then none else fl.parse (fl.strip s)
  parse_numeric _ = none

  unfoldable pub numeric_values : List (Dict F) → String → List F
  numeric_values [] column_id = []
  numeric_values (row ∷ rows) column_id =
      let rest = numeric_values rows column_id in
      elim (parse_numeric (get_in row column_id)) [ none ↦ rest | some x ↦ x ∷ rest ]

  -- `value is not None and value != ""`
  abbrev pub is_non_empty : Json F → Bool
  is_non_empty null = false
  is_non_empty (str s) = if s == "" then false else true
  is_non_empty _ = true

  unfoldable pub count_non_empty : List (Dict F) → String → ℕ
  count_non_empty [] column_id = 0
  count_non_empty (row ∷ rows) column_id =
      let rest = count_non_empty rows column_id in
      if is_non_empty (get_in row column_id) then suc rest else rest

  -- `min` and `max` of a list with a first value: a later one is taken when it compares strictly.
  unfoldable pub min_from : F → List F → F
  min_from x [] = x
  min_from x (y ∷ ys) = min_from (if fl.less y x then y else x) ys

  unfoldable pub max_from : F → List F → F
  max_from x [] = x
  max_from x (y ∷ ys) = max_from (if fl.less x y then y else x) ys

  abbrev pub aggregate : List F → String → Json F
  aggregate [] operation = null
  aggregate (x ∷ xs) operation =
      if operation == "sum"
      then float (fl.sum (x ∷ xs))
      else (if operation == "min"
          then float (min_from x xs)
          else (if operation == "max"
              then float (max_from x xs)
              else (if operation == "avg"
                  then float (fl.divide (fl.sum (x ∷ xs)) (length (x ∷ xs)))
                  else null)))

  unfoldable pub compute_table_aggregation : List (Dict F) → String → String → Json F
  compute_table_aggregation rows column_id operation =
      if operation == "count"
      then int (pos (count_non_empty rows column_id))
      else aggregate (numeric_values rows column_id) operation
