-- ===== src/Definition/Aggregation/Outputs.antt =====
-- The outputs of a table task: `build_table_task_outputs` of
-- app/domain/definitions/table_fields.py.
use workfllow_execution.Prelude.{String, ◌==◌, ◌≡◌, refl, ap, ◌∙◌, arith}
use workfllow_execution.Prelude.{Option-cases, inl, inr, if◌then◌else◌}
use workfllow_execution.Prelude.{Option, none, some, List, [], ◌∷◌, lookup, insert, lookup-insert}
use workfllow_execution.Json.{Json, Items, Fields, Dict, Python, str, arr, obj, nil, cons, end}
use workfllow_execution.Json.{field}
use workfllow_execution.Definition.{get_in}
use workfllow_execution.Definition.Fields.{table_rows_input_key}
use workfllow_execution.Definition.Aggregation.{Floats, compute_table_aggregation}

module _ {F : Type 0} where
  abbrev as_fields : Dict F → Fields F
  as_fields [] = end
  as_fields ((k, v) ∷ d) = field k v (as_fields d)

  -- Rows as a value.
  abbrev pub items_of : List (Dict F) → Items F
  items_of [] = nil
  items_of (row ∷ rows) = cons (obj (as_fields row)) (items_of rows)

  -- A text that is not empty.
  abbrev pub filled : Json F → Option String
  filled (str s) = if s == "" then none else some s
  filled _ = none

  -- The id, column and operation of an aggregation that has all three.
  abbrev pub as_aggregation : Dict F → Option (String × (String × String))
  as_aggregation aggregation = elim (filled (get_in aggregation "id")) [
    | none ↦ none
    | some i ↦ elim (filled (get_in aggregation "columnId")) [
      | none ↦ none
      | some c ↦ elim (filled (get_in aggregation "operation")) [
        | none ↦ none
        | some o ↦ some (i, (c, o))
      ]
    ]
  ]

  -- The column and operation of the last complete aggregation with an id.
  abbrev pub last_of : List (Dict F) → String → Option (String × String)
  last_of [] k = none
  last_of (a ∷ rest) k = elim (last_of rest k) [
    | some co ↦ some co
    | none ↦ elim (as_aggregation a) [
      | none ↦ none
      | some (i, co) ↦ if i == k then some co else none
    ]
  ]

module _ {F : Type 0} ⦃py : Python F⦄ ⦃fl : Floats F⦄ where
  abbrev pub put_aggregation : List (Dict F) → Option (String × (String × String)) → Dict F → Dict F
  put_aggregation rows none outputs = outputs
  put_aggregation rows (some (i, (c, o))) outputs =
      insert i (compute_table_aggregation rows c o) outputs

  pub put_aggregations : List (Dict F) → List (Dict F) → Dict F → Dict F
  put_aggregations rows [] outputs = outputs
  put_aggregations rows (a ∷ rest) outputs =
      put_aggregations rows rest (put_aggregation rows (as_aggregation a) outputs)

  unfoldable pub build_table_task_outputs : Dict F → List (Dict F) → List (Dict F) → Dict F
  unfolding put_aggregations
  build_table_task_outputs header rows aggregations =
      put_aggregations rows aggregations (insert table_rows_input_key (arr (items_of rows)) header)

  abbrev computed : List (Dict F) → Option (String × String) → Option (Json F) → Option (Json F)
  computed rows none before = before
  computed rows (some (c, o)) before = some (compute_table_aggregation rows c o)

  lookup-put_aggregations :
      (rows aggregations : List (Dict F)) (outputs : Dict F) (k : String)
      → lookup k (put_aggregations rows aggregations outputs)
        ≡ computed rows (last_of aggregations k) (lookup k outputs)
  unfolding put_aggregations
  lookup-put_aggregations rows [] outputs k = refl
  lookup-put_aggregations rows (a ∷ rest) outputs k =
      lookup-put_aggregations rows rest (put_aggregation rows (as_aggregation a) outputs) k
      ∙ (elim (Option-cases (last_of rest k)) [
        | inr ((c, o), e) ↦ rw e refl
        | inl e ↦ rw e (elim (Option-cases (as_aggregation a)) [
          | inl e' ↦ rw e' refl
          | inr ((i, (c, o)), e') ↦
              rw e' (ground (arith, lookup-insert i k (compute_table_aggregation rows c o) outputs))
        ])
      ])

  -- An output holds the value of the last complete aggregation with its id. Without one, "rows"
  -- holds the rows, and every other output what the header holds.
  pub build_table_task_outputs_lem :
      (header : Dict F) (rows aggregations : List (Dict F)) (k : String)
      → lookup k (build_table_task_outputs header rows aggregations)
        ≡ computed rows
            (last_of aggregations k)
            (if "rows" == k then some (arr (items_of rows)) else lookup k header)
  unfolding build_table_task_outputs
  build_table_task_outputs_lem header rows aggregations k =
      lookup-put_aggregations rows aggregations
        (insert table_rows_input_key (arr (items_of rows)) header) k
      ∙ ap (computed rows (last_of aggregations k))
          (lookup-insert "rows" k (arr (items_of rows)) header)
