-- ===== src/Executor.antt =====
-- `BaseNodeExecutor` of app/domain/executors/base.py and `ExecutionContext` of
-- app/domain/ports/executors.py. `locked_input_keys` is a set.
pub mod UserInput
use text.Mathlib.Text.{starts_with}
use workfllow_execution.Prelude.{ℕ, String, ◌==◌, Bool, true, false, not, if◌then◌else◌}
use workfllow_execution.Prelude.{Option, none, some, List, [], ◌∷◌, lookup, insert}
use workfllow_execution.Errors.{Result, ok, err, ◌>>=◌, ◌>>◌, type_error, field_validation, map_ok}
use workfllow_execution.Json.{
  Json, Dict, Python, null, str, arr, obj, items, entries, subscript, get_or, truthy, eq,
}
use workfllow_execution.Json.{Items, Fields, nil, end, field}
use workfllow_execution.Definition.{get_in}

pub record ExecutionContext (F : Type 0) : Type 0 where
  pub workflow_node_instance_id : String
  pub workflow_node_id : String
  pub node_definition_version_id : String
  pub base_kind : Json F
  pub definition_json : Dict F
  pub resolved_inputs : Dict F
  pub locked_input_keys : List String
  pub execution_number : ℕ
  pub seed_defaults : Dict F

module _ {F : Type 0} where
  -- `{**a, **b}`
  pub merge : Dict F → Dict F → Dict F
  merge a [] = a
  merge a ((k, v) ∷ b) = merge (insert k v a) b

  -- `definition.get(key, default)`
  abbrev pub get_in_or : Dict F → String → Json F → Json F
  get_in_or d key default = elim (lookup key d) [ none ↦ default | some v ↦ v ]

  abbrev key_list : List (String × Json F) → List (Json F)
  key_list [] = []
  key_list ((k, v) ∷ d) = str k ∷ key_list d

  -- What a `for` loop runs over. The characters of a text are no dicts, and the body raises
  -- TypeError on the first.
  abbrev pub iterate : Json F → Result (List (Json F))
  iterate (arr xs) = ok (items xs)
  iterate (obj fs) = ok (key_list (entries fs))
  iterate (str s) = if s == "" then ok [] else err type_error
  iterate _ = err type_error

  -- `_form_fields`
  unfoldable pub form_fields : ExecutionContext F → Result (Json F)
  form_fields context =
      get_or (get_in_or context.definition_json "form" (obj end)) "fields" (arr nil)

  -- `_strip_internal_keys`
  unfoldable pub strip_internal_keys : Dict F → Dict F
  strip_internal_keys [] = []
  strip_internal_keys ((k, v) ∷ d) =
      let rest = strip_internal_keys d in if starts_with k "__" then rest else (k, v) ∷ rest

-- `if errors: raise FieldValidationError`
abbrev pub reject_any : List String → Result (Unit {0})
reject_any [] = ok tt
reject_any (key ∷ keys) = err field_validation

-- `except FieldValidationError: raise; except Exception as exc: raise FieldValidationError`
abbrev pub as_field_error : Result (Unit {0}) → Result (Unit {0})
as_field_error (ok u) = ok u
as_field_error (err e) = err field_validation

module _ {F : Type 0} ⦃py : Python F⦄ where
  -- The default of a field: the resolved input, or else the seed.
  abbrev add_default : ExecutionContext F → String → Dict F → Dict F
  add_default context id defaults = elim (lookup id context.resolved_inputs) [
    | some v ↦ insert id v defaults
    | none ↦ elim (lookup id context.seed_defaults) [
      | some v ↦ insert id v defaults
      | none ↦ defaults
    ]
  ]

  field_defaults : ExecutionContext F → List (Json F) → Dict F → Result (Dict F)
  field_defaults context [] defaults = ok defaults
  field_defaults context (f ∷ fields) defaults = subscript f "id" >>= λ id.
      field_defaults context fields (add_default context (py.to_str id) defaults)

  unfoldable pub prepare : ExecutionContext F → Result (Dict F)
  unfolding field_defaults merge form_fields
  prepare context = do
    fields ← form_fields context
    if not (truthy fields)
        then ok (merge (merge [] context.seed_defaults) context.resolved_inputs)
        else (do list ← iterate fields; field_defaults context list [])

  -- `_validate_locked_inputs`: the keys that the submission changed.
  pub changed_locks : ExecutionContext F → Dict F → List String → List String
  changed_locks context outputs [] = []
  changed_locks context outputs (key ∷ keys) =
      let rest = changed_locks context outputs keys in
      elim (lookup key context.resolved_inputs) [
        | none ↦ rest
        | some expected ↦ if eq (get_in outputs key) expected then rest else key ∷ rest
      ]

  unfoldable pub validate_locked_inputs : ExecutionContext F → Dict F → Result (Unit {0})
  unfolding changed_locks
  validate_locked_inputs context outputs =
      reject_any (changed_locks context outputs context.locked_input_keys)

  -- The template method, with the two steps that a subclass overrides.
  unfoldable pub run :
      (ExecutionContext F → Dict F → Result (Unit {0}))
      → (ExecutionContext F → Dict F → Result (Dict F))
      → ExecutionContext F
      → Dict F
      → Result (Dict F)
  unfolding merge
  run validate_outputs complete context outputs = do
    defaults ← prepare context
    let merged = merge defaults outputs
    as_field_error (validate_outputs context merged)
    complete context merged
