-- ===== src/Definition.antt =====
-- The output declaration of a node definition, of app/domain/definitions/output_fields.py and
-- table_fields.py. A definition is a dict.
pub mod Columns
pub mod Fields
pub mod Output
pub mod Aggregation
use workfllow_execution.Prelude.{String, ◌==◌, Bool, false, ◌||◌, if◌then◌else◌}
use workfllow_execution.Prelude.{Option, none, some, lookup}
use workfllow_execution.Errors.{Result, ok, err, ◌>>=◌, type_error}
use workfllow_execution.Json.{Json, Dict, Python, null, str, arr, obj, entries, number?}

-- `OutputDecl`: the keys "id" and "label".
pub record OutputDecl : Type 0 where
  pub id : String
  pub label : String

module _ {F : Type 0} where
  -- `d.get(key)`
  abbrev pub get_in : Dict F → String → Json F
  get_in d key = elim (lookup key d) [ none ↦ null | some v ↦ v ]

  abbrev pub is_text : Json F → String → Bool
  is_text (str s) t = s == t
  is_text _ t = false

  -- `label if isinstance(label, str) and label else output_id`
  abbrev pub label_or : Json F → String → String
  label_or (str s) id = if s == "" then id else s
  label_or _ id = id

  abbrev pub decl_of : Json F → Json F → Option OutputDecl
  decl_of (str s) label =
      if s == "" then none else some (record { id = s; label = label_or label s })
  decl_of _ label = none

  abbrev pub output_of : Json F → Option OutputDecl
  output_of (obj fs) = decl_of (get_in (entries fs) "id") (get_in (entries fs) "label")
  output_of _ = none

  -- `_user_input_declared_output`
  pub user_input_declared_output : Dict F → Option OutputDecl
  user_input_declared_output definition = output_of (get_in definition "output")

  pub declared_table_output : Dict F → Option OutputDecl
  declared_table_output definition = output_of (get_in definition "output")

  abbrev pub is_table : Json F → Bool
  is_table kind = is_text kind "table" || is_text kind "configTable"

  -- `kind in {"table", "configTable"}`: a list or a dict has no hash.
  abbrev pub in_table_kinds : Json F → Result Bool
  in_table_kinds (arr xs) = err type_error
  in_table_kinds (obj fs) = err type_error
  in_table_kinds kind = ok (is_table kind)

  unfoldable pub declared_output : Dict F → Result (Option OutputDecl)
  unfolding user_input_declared_output declared_table_output
  declared_output definition = in_table_kinds (get_in definition "baseKind") >>= λ is_one.
      ok
        (if is_one then declared_table_output definition else user_input_declared_output definition)

module _ {F : Type 0} ⦃py : Python F⦄ where
  abbrev numeric_output : Option OutputDecl → Dict F → Option F
  numeric_output none outputs = none
  numeric_output (some decl) outputs = number? (get_in outputs decl.id)

  -- `_user_input_cost_contribution`, `table_cost_contribution`
  pub user_input_cost_contribution : Dict F → Dict F → Option F
  unfolding user_input_declared_output
  user_input_cost_contribution definition outputs =
      numeric_output (user_input_declared_output definition) outputs

  pub table_cost_contribution : Dict F → Dict F → Option F
  unfolding declared_table_output
  table_cost_contribution definition outputs =
      numeric_output (declared_table_output definition) outputs

  unfoldable pub cost_contribution : Dict F → Dict F → Option F
  unfolding user_input_cost_contribution table_cost_contribution
  cost_contribution definition outputs =
      if is_table (get_in definition "baseKind")
      then table_cost_contribution definition outputs
      else user_input_cost_contribution definition outputs
