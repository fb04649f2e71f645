-- ===== src/Definition/Fields.antt =====
-- The ids that the inputs and outputs of a node's tasks may name, of output_fields.py,
-- table_fields.py and config_table_fields.py in app/domain/definitions. A set of ids is a list.
use workfllow_execution.Prelude.{String, if◌then◌else◌}
use workfllow_execution.Prelude.{Option, none, some, List, [], ◌∷◌, ◌++◌, map, lookup}
use workfllow_execution.Errors.{Result, ok, ◌>>=◌}
use workfllow_execution.Json.{Json, Dict, Python, str, arr, obj, entries, get, truthy}
use workfllow_execution.Json.{nil, end}
use workfllow_execution.Executor.{iterate}
use workfllow_execution.Definition.{OutputDecl, get_in, is_text, declared_table_output}
use workfllow_execution.Definition.{user_input_declared_output}
use workfllow_execution.Definition.Columns.{table_column_input_key}

-- `TABLE_ROWS_INPUT_KEY`
abbrev pub table_rows_input_key : String
table_rows_input_key = "rows"

abbrev pub decl_ids : Option OutputDecl → List String
decl_ids none = []
decl_ids (some decl) = decl.id ∷ []

module _ {F : Type 0} where
  -- What a loop runs over that passes over what is no dict, as the characters of a text are.
  abbrev pub loop_over : Json F → Result (List (Json F))
  loop_over (str s) = ok []
  loop_over x = iterate x

  -- `config_table_section`
  abbrev pub config_table_section : Dict F → Json F
  config_table_section definition = elim (get_in definition "configTable") [
    | obj fs ↦ obj fs
    | _ ↦ obj end
  ]

module _ {F : Type 0} ⦃py : Python F⦄ where
  -- `x or {}` and `x or []`
  abbrev pub or_dict : Json F → Json F
  or_dict x = if truthy x then x else obj end

  abbrev pub or_list : Json F → Json F
  or_list x = if truthy x then x else arr nil

  -- `for x in d.get(key) or []`
  pub each_in : Json F → String → Result (List (Json F))
  each_in d key = get d key >>= λ xs. loop_over (or_list xs)

  -- `if isinstance(x, dict) and x.get("id"): add(str(x["id"]))`
  abbrev pub id_of : Json F → List String
  id_of (obj fs) =
      if truthy (get_in (entries fs) "id") then py.to_str (get_in (entries fs) "id") ∷ [] else []
  id_of _ = []

  pub ids_of : List (Json F) → List String
  ids_of [] = []
  ids_of (x ∷ xs) = id_of x ++ ids_of xs

  -- `if isinstance(x, dict) and "id" in x: add(str(x["id"]))`
  abbrev given_id : Json F → List String
  given_id (obj fs) = elim (lookup "id" (entries fs)) [ none ↦ [] | some v ↦ py.to_str v ∷ [] ]
  given_id _ = []

  given_ids : List (Json F) → List String
  given_ids [] = []
  given_ids (x ∷ xs) = given_id x ++ given_ids xs

  -- `_collect_user_input_input_field_ids`
  pub collect_user_input_input_field_ids : Dict F → Result (List String)
  unfolding given_ids each_in
  collect_user_input_input_field_ids definition = do
    fields ← each_in (or_dict (get_in definition "form")) "fields"
    ok (given_ids fields)

  -- `_collect_user_input_output_field_ids`
  pub collect_user_input_output_field_ids : Dict F → Result (List String)
  unfolding given_ids each_in user_input_declared_output
  collect_user_input_output_field_ids definition = do
    fields ← each_in (or_dict (get_in definition "form")) "fields"
    ok (given_ids fields ++ decl_ids (user_input_declared_output definition))

  pub collect_table_input_field_ids : Dict F → Result (List String)
  unfolding ids_of each_in
  collect_table_input_field_ids definition = do
    header ← each_in (or_dict (get_in definition "table")) "headerFields"
    columns ← each_in (or_dict (get_in definition "table")) "columns"
    ok (ids_of header ++ (map table_column_input_key (ids_of columns) ++ table_rows_input_key ∷ []))

  pub collect_table_output_field_ids : Dict F → Result (List String)
  unfolding ids_of each_in declared_table_output
  collect_table_output_field_ids definition = do
    header ← each_in (or_dict (get_in definition "table")) "headerFields"
    aggregations ← loop_over (or_list (get_in definition "aggregations"))
    ok (
        ids_of header
        ++ (ids_of aggregations
            ++ (table_rows_input_key ∷ decl_ids (declared_table_output definition))))

  -- The fields of the column mappings that have an id.
  abbrev mapped_field : Json F → List (Json F)
  mapped_field (obj fs) = get_in (entries fs) "field" ∷ []
  mapped_field _ = []

  mapped_fields : List (Json F) → List (Json F)
  mapped_fields [] = []
  mapped_fields (x ∷ xs) = mapped_field x ++ mapped_fields xs

  abbrev with_id : Json F → List (Json F)
  with_id (obj fs) = if truthy (get_in (entries fs) "id") then obj fs ∷ [] else []
  with_id _ = []

  pub all_with_id : List (Json F) → List (Json F)
  all_with_id [] = []
  all_with_id (x ∷ xs) = with_id x ++ all_with_id xs

  pub collect_config_table_columns : Dict F → Result (List (Json F))
  unfolding mapped_fields all_with_id each_in
  collect_config_table_columns definition = do
    mappings ← each_in (config_table_section definition) "columnMappings"
    extra ← each_in (config_table_section definition) "extraColumns"
    ok (all_with_id (mapped_fields mappings) ++ all_with_id extra)

  pub collect_config_table_extra_columns : Dict F → Result (List (Json F))
  unfolding all_with_id each_in
  collect_config_table_extra_columns definition = do
    extra ← each_in (config_table_section definition) "extraColumns"
    ok (all_with_id extra)

  pub collect_config_table_query_inputs : Dict F → Result (List (Json F))
  unfolding all_with_id each_in
  collect_config_table_query_inputs definition = do
    inputs ← each_in (config_table_section definition) "queryInputs"
    ok (all_with_id inputs)

  pub collect_config_table_input_field_ids : Dict F → Result (List String)
  unfolding collect_config_table_query_inputs collect_config_table_extra_columns ids_of
  collect_config_table_input_field_ids definition = do
    inputs ← collect_config_table_query_inputs definition
    extra ← collect_config_table_extra_columns definition
    ok (ids_of inputs ++ (map table_column_input_key (ids_of extra) ++ table_rows_input_key ∷ []))

  pub collect_config_table_output_field_ids : Dict F → Result (List String)
  unfolding collect_config_table_columns ids_of declared_table_output
  collect_config_table_output_field_ids definition = do
    columns ← collect_config_table_columns definition
    aggregations ← loop_over (or_list (get_in definition "aggregations"))
    ok (
        table_rows_input_key
        ∷ (ids_of columns ++ (ids_of aggregations ++ decl_ids (declared_table_output definition))))

  unfoldable pub collect_input_field_ids : Dict F → Result (List String)
  unfolding collect_table_input_field_ids collect_config_table_input_field_ids
      collect_user_input_input_field_ids
  collect_input_field_ids definition =
      if is_text (get_in definition "baseKind") "table"
      then collect_table_input_field_ids definition
      else if is_text (get_in definition "baseKind") "configTable"
      then collect_config_table_input_field_ids definition
      else collect_user_input_input_field_ids definition

  unfoldable pub collect_output_field_ids : Dict F → Result (List String)
  unfolding collect_table_output_field_ids collect_config_table_output_field_ids
      collect_user_input_output_field_ids
  collect_output_field_ids definition =
      if is_text (get_in definition "baseKind") "table"
      then collect_table_output_field_ids definition
      else if is_text (get_in definition "baseKind") "configTable"
      then collect_config_table_output_field_ids definition
      else collect_user_input_output_field_ids definition
