-- ===== src/Definition/Output.antt =====
-- `validate_declared_output` of app/domain/definitions/output_fields.py.
pub mod Numeric
use workfllow_execution.Prelude.{String, ◌==◌, eq_iff, ◌≡◌, refl, ◌⊎◌, inl, inr, Bool, true, false}
use workfllow_execution.Prelude.{◌||◌, if◌then◌else◌, Bool-cases, Option-cases, arith}
use workfllow_execution.Prelude.{Option, none, some, List, [], ◌∷◌, ◌∈◌, lookup, insert}
use workfllow_execution.Prelude.{lookup-insert}
use workfllow_execution.Errors.{Result, ok, err, ◌>>=◌, type_error, bind-eq-ok}
use workfllow_execution.Json.{Json, Dict, Python, null, str, arr, obj, entries, get, get_or, truthy}
use workfllow_execution.Json.{end, str_eq_any, dict?}
use workfllow_execution.Definition.{OutputDecl, get_in, is_text, in_table_kinds, declared_output}
use workfllow_execution.Definition.Fields.{loop_over, or_list}
use workfllow_execution.Validation.{Issue}

abbrev pub issue : String → String → List Issue
issue code at = record { issue_code = code; at_field = at; names = [] } ∷ []

abbrev pub is_numeric : String → Bool
is_numeric s = s == "sum" || (s == "min" || (s == "max" || s == "avg"))

module _ {F : Type 0} where
  -- `row.get("id") == output_id`
  abbrev pub has_id : Json F → String → Bool
  has_id (obj fs) id = is_text (get_in (entries fs) "id") id
  has_id _ id = false

  -- `next(... for row in aggregations if ...)`
  pub aggregation_of : List (Json F) → String → Option (Json F)
  aggregation_of [] id = none
  aggregation_of (x ∷ xs) id = if has_id x id then some x else aggregation_of xs id

  -- A list or a dict has no hash, so the test of membership raises TypeError on it.
  abbrev pub operation_issues : Json F → Result (List Issue)
  operation_issues (str s) =
      ok (if is_numeric s then [] else issue "INVALID_OUTPUT_AGGREGATION_OP" "output.id")
  operation_issues (arr xs) = err type_error
  operation_issues (obj fs) = err type_error
  operation_issues _ = ok (issue "INVALID_OUTPUT_AGGREGATION_OP" "output.id")

  abbrev pub aggregation_issues : Option (Json F) → Result (List Issue)
  aggregation_issues none = ok (issue "UNKNOWN_OUTPUT_AGGREGATION" "output.id")
  aggregation_issues (some x) = get x "operation" >>= operation_issues

  abbrev pub field_issues : Option (Json F) → Result (List Issue)
  field_issues none = ok (issue "UNKNOWN_OUTPUT_FIELD" "output.id")
  field_issues (some x) = get x "type" >>= λ t.
      ok (if is_text t "number" then [] else issue "INVALID_OUTPUT_FIELD_TYPE" "output.id")

module _ {F : Type 0} ⦃py : Python F⦄ where
  -- `if isinstance(field, dict) and field.get("id"): field_by_id[str(field["id"])] = field`
  abbrev pub file_field : Dict F → Json F → Dict F
  file_field d (obj fs) =
      if truthy (get_in (entries fs) "id")
      then insert (py.to_str (get_in (entries fs) "id")) (obj fs) d
      else d
  file_field d _ = d

  pub field_by_id : Dict F → List (Json F) → Dict F
  field_by_id d [] = d
  field_by_id d (x ∷ xs) = field_by_id (file_field d x) xs

  abbrev pub row_issues : String → List (Json F) → Result (List Issue)
  row_issues id aggregations = aggregation_issues (aggregation_of aggregations id)

  -- `definition_json.get("form", {})`
  abbrev pub form_of : Dict F → Json F
  form_of definition = elim (lookup "form" definition) [ none ↦ obj end | some form ↦ form ]

  abbrev pub listed_issues : String → List (Json F) → Result (List Issue)
  listed_issues id fields = field_issues (lookup id (field_by_id [] fields))

  abbrev pub fields_issues : String → Json F → Result (List Issue)
  fields_issues id fields = loop_over (or_list fields) >>= listed_issues id

  abbrev pub reference_issues : Dict F → String → Result (List Issue)
  reference_issues definition id = in_table_kinds (get_in definition "baseKind") >>= λ is_one.
      if is_one
      then loop_over (or_list (get_in definition "aggregations")) >>= row_issues id
      else get (form_of definition) "fields" >>= fields_issues id

  abbrev pub id_issues : Dict F → Json F → Result (List Issue)
  id_issues definition (str s) =
      if s == "" then ok (issue "MISSING_OUTPUT_ID" "output.id") else reference_issues definition s
  id_issues definition _ = ok (issue "MISSING_OUTPUT_ID" "output.id")

  abbrev pub output_issues : Dict F → Json F → Result (List Issue)
  output_issues definition null = ok []
  output_issues definition (obj fs) = id_issues definition (get_in (entries fs) "id")
  output_issues definition _ = ok (issue "INVALID_OUTPUT" "output")

  unfoldable pub validate_declared_output : Dict F → Result (List Issue)
  unfolding aggregation_of field_by_id
  validate_declared_output definition = output_issues definition (get_in definition "output")
