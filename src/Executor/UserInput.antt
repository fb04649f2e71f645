-- ===== src/Executor/UserInput.antt =====
-- `UserInputExecutor` of app/domain/executors/user_input.py. The `FormFieldValidator` that it is
-- given is a parameter: the fields, the values and the cross-field constraints.
pub mod Locked
use workfllow_execution.Prelude.{String, Bool, true, false, Option, none, some, List, [], ◌∷◌}
use workfllow_execution.Prelude.{lookup}
use workfllow_execution.Errors.{Result, ok, err, ◌>>=◌, ◌>>◌, field_validation}
use workfllow_execution.Json.{Json, Dict, Python, null, obj, get, is_none, number?}
use workfllow_execution.Json.{Fields, end}
use workfllow_execution.Definition.{OutputDecl, declared_output, get_in}
use workfllow_execution.Executor.{
  ExecutionContext, get_in_or, form_fields, strip_internal_keys, validate_locked_inputs, run,
}

abbrev pub FormFieldValidator : Type 0 → Type 0
FormFieldValidator F = Json F → Dict F → Json F → Result (Unit {0})

module _ {F : Type 0} ⦃py : Python F⦄ where
  -- A declared output has to be a number, and not None.
  abbrev pub require_number : Option F → Result (Unit {0})
  require_number none = err field_validation
  require_number (some x) = ok tt

  abbrev pub check_output : Option OutputDecl → Dict F → Result (Unit {0})
  check_output none outputs = ok tt
  check_output (some decl) outputs = require_number (number? (get_in outputs decl.id))

  -- `_validate_declared_output`
  unfoldable pub validate_declared_output : ExecutionContext F → Dict F → Result (Unit {0})
  validate_declared_output context outputs =
      declared_output context.definition_json >>= λ declared. check_output declared outputs

  module _ (validate_form : FormFieldValidator F) where
    -- `form = definition.get("form", {})`, with its fields and its "crossFieldConstraints"
    unfoldable pub validate_outputs : ExecutionContext F → Dict F → Result (Unit {0})
    validate_outputs context outputs = do
      let clean_outputs = strip_internal_keys outputs
      validate_locked_inputs context clean_outputs
      fields ← form_fields context
      constraints ← get (get_in_or context.definition_json "form" (obj end)) "crossFieldConstraints"
      validate_form fields clean_outputs constraints
      validate_declared_output context clean_outputs

    unfoldable pub complete : ExecutionContext F → Dict F → Result (Dict F)
    complete context outputs = ok (strip_internal_keys outputs)

    unfoldable pub user_input : ExecutionContext F → Dict F → Result (Dict F)
    unfolding run validate_outputs complete
    user_input context outputs = run validate_outputs complete context outputs
