-- ===== src/Executor/UserInput/Locked.antt =====
-- A locked input keeps the value that was resolved for it, or the submission is refused.
use workfllow_execution.Prelude.{String, true, ◌≡◌, refl, ap, arith, ◌∈◌, inl, inr}
use workfllow_execution.Prelude.{
  Option, none, some, List, [], ◌∷◌, lookup, Bool-cases, if◌then◌else◌, sym, ◌∙◌,
}
use mathlib.Core.Path.{subst}
use workfllow_execution.Errors.{◌>>=◌, Result, ok, err, bind-eq-ok, ok-injective}
use workfllow_execution.Json.{Json, Dict, Python, eq}
use workfllow_execution.Definition.{OutputDecl, declared_output, get_in}
use workfllow_execution.Json.{number?, get, obj}
use workfllow_execution.Json.{end}
use workfllow_execution.Executor.{
  ExecutionContext, strip_internal_keys, changed_locks, reject_any, as_field_error, merge, prepare,
  form_fields, get_in_or, validate_locked_inputs, run,
}
use workfllow_execution.Executor.UserInput.{
  FormFieldValidator, validate_outputs, complete, user_input, validate_declared_output,
  require_number, check_output,
}

reject-ok : (keys : List String) (u : Unit {0}) → reject_any keys ≡ ok u → keys ≡ []
reject-ok [] u h = refl
reject-ok (k ∷ ks) u h = absurd (cc)

as_field_error-ok : (r : Result (Unit {0})) (u : Unit {0}) → as_field_error r ≡ ok u → r ≡ ok u
as_field_error-ok (ok x) u h = refl
as_field_error-ok (err e) u h = absurd (cc)

module _ {F : Type 0} ⦃py : Python F⦄ where
  -- The test of one key, on the value that was resolved for it.
  lock_kept :
      (o : Option (Json F)) (x v : Json F) (k : String) (rest : List String)
      → elim o [ none ↦ rest | some w ↦ if eq x w then rest else k ∷ rest ] ≡ []
      → (rest ≡ []) × (o ≡ some v → eq x v ≡ true)
  lock_kept none x v k rest h = (h, λ e. absurd (cc))
  lock_kept (some w) x v k rest h = elim (Bool-cases (eq x w)) [
    | inl t ↦ (ground (arith, h, t), λ e. ground (arith, e, t))
    | inr f ↦ absurd (ground (arith, h, f))
  ]

  none-changed :
      (context : ExecutionContext F) (outputs : Dict F) (keys : List String) (key : String)
      (v : Json F)
      → changed_locks context outputs keys ≡ []
      → key ∈ keys
      → lookup key context.resolved_inputs ≡ some v
      → eq (get_in outputs key) v ≡ true
  unfolding changed_locks
  none-changed context outputs [] key v h m e = absurd m
  none-changed context outputs (k ∷ keys) key v h m e =
      let (rest, here) =
        lock_kept (lookup k context.resolved_inputs) (get_in outputs k) v k
          (changed_locks context outputs keys) h in
      elim m [
        | inl s ↦
            subst (λ x. eq (get_in outputs x) v ≡ true) (sym s)
              (here (ap (λ x. lookup x context.resolved_inputs) (sym s) ∙ e))
        | inr later ↦ none-changed context outputs keys key v rest later e
      ]

  abbrev Accepted : ExecutionContext F → Dict F → Type 0
  Accepted context final =
      ((key : String) (v : Json F)
        → key ∈ context.locked_input_keys
        → lookup key context.resolved_inputs ≡ some v
        → eq (get_in final key) v ≡ true)
      × ((decl : OutputDecl)
          → declared_output context.definition_json ≡ ok (some decl)
          → (x : F) × (number? (get_in final decl.id) ≡ some x))

  some-number : (o : Option F) (u : Unit {0}) → require_number o ≡ ok u → (x : F) × (o ≡ some x)
  some-number none u h = absurd (cc)
  some-number (some x) u h = (x, refl)

  declared-number :
      (context : ExecutionContext F) (outputs : Dict F) (u : Unit {0}) (decl : OutputDecl)
      → validate_declared_output context outputs ≡ ok u
      → declared_output context.definition_json ≡ ok (some decl)
      → (x : F) × (number? (get_in outputs decl.id) ≡ some x)
  unfolding validate_declared_output
  declared-number context outputs u decl h e =
      some-number (number? (get_in outputs decl.id)) u
        (subst (λ o. (o >>= λ declared. check_output declared outputs) ≡ ok u) e h)

  module _ (validate_form : FormFieldValidator F) where
    user_input-Accepted :
        (context : ExecutionContext F) (outputs final : Dict F)
        → user_input validate_form context outputs ≡ ok final
        → Accepted context final
    unfolding user_input run validate_outputs complete validate_locked_inputs
    user_input-Accepted context outputs final h =
        let (defaults, hd, h1) = bind-eq-ok (prepare context) _ h in
        let merged = merge defaults outputs in
        let (u, hv, h2) =
          bind-eq-ok (as_field_error (validate_outputs validate_form context merged))
            (λ _. complete validate_form context merged) h1 in
        let v0 = as_field_error-ok (validate_outputs validate_form context merged) u hv in
        let clean = strip_internal_keys merged in
        let (u1, locked, v1) = bind-eq-ok (validate_locked_inputs context clean) _ v0 in
        let (fields, hf, v2) = bind-eq-ok (form_fields context) _ v1 in
        let (constraints, hc, v3) =
          bind-eq-ok
            (get (get_in_or context.definition_json "form" (obj end)) "crossFieldConstraints") _
            v2 in
        let (u2, hform, v4) =
          bind-eq-ok (validate_form fields clean constraints)
            (λ _. validate_declared_output context clean) v3 in
        subst (λ d. Accepted context d) (ok-injective h2)
          (
            λ key w m e.
                none-changed context clean context.locked_input_keys key w (reject-ok _ u1 locked) m
                  e,
            λ decl e. declared-number context clean u decl v4 e,
          )

    -- A submission that is accepted leaves each locked input with a value equal to the one that
    -- was resolved for it.
    pub user_input-locked :
        (context : ExecutionContext F) (outputs final : Dict F) (key : String) (v : Json F)
        → user_input validate_form context outputs ≡ ok final
        → key ∈ context.locked_input_keys
        → lookup key context.resolved_inputs ≡ some v
        → eq (get_in final key) v ≡ true
    user_input-locked context outputs final key v h m e =
        (user_input-Accepted context outputs final h).0 key v m e

    -- A submission that is accepted has a number under the id of the declared output, where the
    -- definition declares one.
    pub user_input-declared :
        (context : ExecutionContext F) (outputs final : Dict F) (decl : OutputDecl)
        → user_input validate_form context outputs ≡ ok final
        → declared_output context.definition_json ≡ ok (some decl)
        → (x : F) × (number? (get_in final decl.id) ≡ some x)
    user_input-declared context outputs final decl h e =
        (user_input-Accepted context outputs final h).1 decl e
