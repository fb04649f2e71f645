-- ===== src/Orchestrator/Lifecycle/Changes.antt =====
-- When a change of the workflow's status is refused.
use workfllow_execution.Prelude.{
  ℕ, String, Bool, true, false, ◌≡◌, refl, ap, sym, ◌∙◌, ◌⊎◌, inl, inr, Bool-cases,
}
use workfllow_execution.Prelude.{Option, none, some}
use workfllow_execution.Errors.{Error, Result, ok, err, invalid_transition, version_conflict}
use workfllow_execution.Action
use workfllow_execution.Status.{WorkflowStatus}
use workfllow_execution.Status.WorkflowMachine.{transition}
use workfllow_execution.Json.{Python}
use workfllow_execution.Events.{EventType}
use workfllow_execution.Tables.{Tables, WorkflowInstance}
use workfllow_execution.Tables.Instances.{
  require_workflow_instance, update_workflow_status, conflicts,
}
use workfllow_execution.Orchestrator.{Services}
use workfllow_execution.Orchestrator.Lifecycle.{
  change_workflow_status, pause_workflow, cancel_workflow,
}

-- What an instance says against a change of its status: the machine speaks first.
abbrev refusal : Result WorkflowStatus → Bool → Option Error
refusal (err e) stale = some e
refusal (ok s) true = some version_conflict
refusal (ok s) false = none

none-some : {A : Type 0} {a : A} → none ≡ some a → ⊥
none-some h = absurd (cc)

Result-cases : {A : Type 0} (r : Result A) → ((a : A) × (r ≡ ok a)) ⊎ ((e : Error) × (r ≡ err e))
Result-cases (ok a) = inl (a, refl)
Result-cases (err e) = inr (e, refl)

some-injective : {A : Type 0} {a b : A} → some a ≡ some b → a ≡ b
some-injective h = cc

refusal-err : {r : Result WorkflowStatus} (b : Bool) {e : Error} → r ≡ err e → refusal r b ≡ some e
refusal-err b h = rw h

refusal-ok :
    {r : Result WorkflowStatus} {b : Bool} {s : WorkflowStatus}
    → r ≡ ok s
    → b ≡ true
    → refusal r b ≡ some version_conflict
refusal-ok h c = rw (h, c)

refusal-none :
    {r : Result WorkflowStatus} {b : Bool} {s : WorkflowStatus}
    → r ≡ ok s
    → b ≡ false
    → refusal r b ≡ none
refusal-none h c = rw (h, c)

module _ {F : Type 0} ⦃py : Python F⦄ (services : Services F) where
  refused_cases :
      (target : WorkflowStatus) (t : EventType) (expected : Option ℕ) (reason : Option String)
      (db : Tables F) (i : WorkflowInstance F)
      → db.instance_row ≡ some i
      → ((e : Error)
          → transition i.status target ≡ err e
          → change_workflow_status services target t expected reason db ≡ (err e, db))
        × ((s : WorkflowStatus)
            → transition i.status target ≡ ok s
            → conflicts expected i.current_revision ≡ true
            → change_workflow_status services target t expected reason db
              ≡ (err version_conflict, db))
  unfolding change_workflow_status require_workflow_instance update_workflow_status Action.run
  refused_cases target t expected reason db i row = (λ e h. rw (row, h), λ s h c. rw (row, h, c))

  -- A change of the status that the machine does not allow, or that a client asks for with another
  -- revision in mind, is refused with the error of that case, and the tables stay as they are.
  change_refused :
      (target : WorkflowStatus) (t : EventType) (expected : Option ℕ) (reason : Option String)
      (db : Tables F) (i : WorkflowInstance F) (e : Error)
      → db.instance_row ≡ some i
      → refusal (transition i.status target) (conflicts expected i.current_revision) ≡ some e
      → change_workflow_status services target t expected reason db ≡ (err e, db)
  change_refused target t expected reason db i e row h =
      let (stopped, stale) = refused_cases target t expected reason db i row in
      elim (Result-cases (transition i.status target)) [
        | inr (x, no_step) ↦
            stopped x no_step
            ∙ ap (λ y. (err y, db)) (some-injective (sym (refusal-err _ no_step) ∙ h))
        | inl (s, step) ↦ elim (Bool-cases (conflicts expected i.current_revision)) [
          | inl c ↦
              stale s step c ∙ ap (λ y. (err y, db)) (some-injective (sym (refusal-ok step c) ∙ h))
          | inr c ↦ absurd (none-some (sym (refusal-none step c) ∙ h))
        ]
      ]

  -- A completed instance is neither paused nor cancelled: both requests raise the error of an
  -- invalid transition and leave the tables as they are.
  pub completed_lem :
      (expected : Option ℕ) (reason : Option String) (db : Tables F) (i : WorkflowInstance F)
      → db.instance_row ≡ some i
      → i.status ≡ WorkflowStatus.completed
      → (pause_workflow services expected db ≡ (err invalid_transition, db))
        × (cancel_workflow services expected reason db ≡ (err invalid_transition, db))
  unfolding pause_workflow cancel_workflow transition
  completed_lem expected reason db i row done = (
    change_refused _ _ expected none db i invalid_transition row (rw done),
    change_refused _ _ expected reason db i invalid_transition row (rw done),
  )
