-- ===== src/Orchestrator/Submit/Guards.antt =====
-- When a submission is refused, and what an accepted one shows of the state before it.
use workfllow_execution.Prelude.{ℕ, String, Bool, true, false, ◌≡◌, inl, inr}
use workfllow_execution.Prelude.{Option, none, some, Bool-cases, Option-cases, ap, sym, ◌∙◌}
use workfllow_execution.Errors.{
  Error, Result, ok, err, invalid_transition, version_conflict, not_found,
}
use workfllow_execution.Action
use workfllow_execution.Action.{Action, proceed, raise, when, ◌>>=◌, ◌>>◌}
use workfllow_execution.Status.{WorkflowStatus, workflow_eq}
use workfllow_execution.Json.{Dict, Python}
use workfllow_execution.Tables.{Tables, WorkflowInstance}
use workfllow_execution.Tables.Instances.{require_workflow_instance, conflicts}
use workfllow_execution.Orchestrator.{Services}
use workfllow_execution.Orchestrator.Submit.{admit, submit_node_outputs}

refused : {A : Type 0} {r : Result A} {a : A} (e : Error) → r ≡ err e → r ≡ ok a → ⊥
refused e h k = absurd (cc)

none-some : {A : Type 0} {a : A} → none ≡ some a → ⊥
none-some h = absurd (cc)

some-injective : {A : Type 0} {a b : A} → some a ≡ some b → a ≡ b
some-injective h = cc

-- What the row of the instance says against a submission.
abbrev pub refusal_running : Bool → Bool → Option Error
refusal_running false stale = some invalid_transition
refusal_running true true = some version_conflict
refusal_running true false = none

abbrev pub refusal : {F : Type 0} → Option ℕ → Option (WorkflowInstance F) → Option Error
refusal expected none = some not_found
refusal expected (some i) =
    refusal_running (workflow_eq i.status WorkflowStatus.running)
      (conflicts expected i.current_revision)

module _ {F : Type 0} ⦃py : Python F⦄ (services : Services F) where
  module _ (id : String) (outputs : Dict F) (by : Option String) (expected : Option ℕ)
      (db : Tables F) where
    refused_cases :
        (db.instance_row ≡ none
          → submit_node_outputs services id outputs by expected db ≡ (err not_found, db))
        × ((i : WorkflowInstance F)
            → db.instance_row ≡ some i
            → workflow_eq i.status WorkflowStatus.running ≡ false
            → submit_node_outputs services id outputs by expected db ≡ (err invalid_transition, db))
        × ((i : WorkflowInstance F)
            → db.instance_row ≡ some i
            → workflow_eq i.status WorkflowStatus.running ≡ true
            → conflicts expected i.current_revision ≡ true
            → submit_node_outputs services id outputs by expected db ≡ (err version_conflict, db))
    unfolding submit_node_outputs admit require_workflow_instance Action.run
    refused_cases = (λ h. rw h, λ i h r. rw (h, r), λ i h r c. rw (h, r, c))

    none-refusal :
        (i : WorkflowInstance F)
        → db.instance_row ≡ some i
        → workflow_eq i.status WorkflowStatus.running ≡ true
        → conflicts expected i.current_revision ≡ false
        → refusal expected db.instance_row ≡ none
    none-refusal i row r c = rw (row, r, c)

    -- The error of a case is the one that `refusal` names.
    same_error :
        {x : Error} (e : Error) (o : Option Error)
        → submit_node_outputs services id outputs by expected db ≡ (err x, db)
        → o ≡ some x
        → o ≡ some e
        → submit_node_outputs services id outputs by expected db ≡ (err e, db)
    same_error e o h p q = h ∙ ap (λ y. (err y, db)) (some-injective (sym p ∙ q))

    -- Without a row of the instance, while the instance does not run, and when the client expects
    -- another revision, a submission is refused with the error of that case, and the tables stay
    -- as they are.
    pub submit_refused :
        (e : Error)
        → refusal expected db.instance_row ≡ some e
        → submit_node_outputs services id outputs by expected db ≡ (err e, db)
    submit_refused e h =
        let (missing, stopped, stale) = refused_cases in
        elim (Option-cases db.instance_row) [
          | inl row ↦ same_error e _ (missing row) (rw row) h
          | inr (i, row) ↦ elim (Bool-cases (workflow_eq i.status WorkflowStatus.running)) [
            | inr r ↦ same_error e _ (stopped i row r) (rw (row, r)) h
            | inl r ↦ elim (Bool-cases (conflicts expected i.current_revision)) [
              | inl c ↦ same_error e _ (stale i row r c) (rw (row, r, c)) h
              | inr c ↦ absurd (none-some (sym (none-refusal i row r c) ∙ h))
            ]
          ]
        ]
