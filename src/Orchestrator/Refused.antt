-- ===== src/Orchestrator/Refused.antt =====
-- Requests that raise and leave the tables as they are, whatever else is wrong with them.
use workfllow_execution.Prelude.{ℕ, String, Bool, true, ◌≡◌, ◌≢◌, sym, ap, ◌∙◌, arith}
use workfllow_execution.Prelude.{Option, none, some, lookup, inl, inr}
use workfllow_execution.Action.{◌>>◌}
use workfllow_execution.Action.Gives.{Any, Gives-lift, Gives-check}
use workfllow_execution.Action.Refuses.{
  Refuses, Refuses-raise, Refuses-check, Refuses-bind, Refuses-then, Refuses-after,
}
use workfllow_execution.Status.{NodeStatus, WorkflowStatus}
use workfllow_execution.Json.{Dict, Python}
use workfllow_execution.Events.{EventType}
use workfllow_execution.Tables.{Tables, WorkflowInstance, NodeInstance}
use workfllow_execution.Tables.Instances.{update_workflow_status, conflicts}
use workfllow_execution.Orchestrator.{Services}
use workfllow_execution.Orchestrator.Lifecycle.{
  change_workflow_status, pause_workflow, resume_workflow, cancel_workflow,
}
use workfllow_execution.Orchestrator.Reopen.{reopen_from_task}
use workfllow_execution.Orchestrator.Submit.{submit_node_outputs}
use workfllow_execution.Orchestrator.Submit.Accepted.{Gives-instance, Gives-Admits, IsCurrent}
use workfllow_execution.Orchestrator.Invariant.Runs.{Request, perform}

some-injective : {A : Type 0} {a b : A} → some a ≡ some b → a ≡ b
some-injective h = cc

-- The revision that a client names with a request.
abbrev pub expected_of : {F : Type 0} → Request F → Option ℕ
expected_of (Request.submit id outputs by expected) = expected
expected_of (Request.pause expected) = expected
expected_of (Request.resume expected) = expected
expected_of (Request.cancel expected reason) = expected
expected_of (Request.reopen id reason expected target) = expected
expected_of (Request.invalidate id reason) = none

module _ {F : Type 0} ⦃py : Python F⦄ (services : Services F) (db : Tables F) where
  -- A submission for a task that is not PENDING raises and leaves the tables as they are.
  pub submit_not_pending :
      (id : String) (outputs : Dict F) (by : Option String) (expected : Option ℕ) (n : NodeInstance)
      → lookup id db.node_instances ≡ some n
      → n.status ≢ NodeStatus.pending
      → Refuses db (submit_node_outputs services id outputs by expected)
  unfolding submit_node_outputs
  submit_not_pending id outputs by expected n row other =
      Refuses-after db _ _ (Gives-instance services db) (λ i _.
        Refuses-after db _ _ (Gives-Admits services db i id expected)
          (λ r (runs, agrees, found, pends).
            absurd (other (ap (λ x. x.status) (some-injective (sym row ∙ found)) ∙ pends))))

  module _ (i : WorkflowInstance F) (row : db.instance_row ≡ some i) (r : ℕ)
      (stale : r ≢ i.current_revision) where
    conflicting :
        (j : WorkflowInstance F)
        → db.instance_row ≡ some j
        → conflicts (some r) j.current_revision ≡ true
    conflicting j e =
        ground (arith, stale, ap (λ x. x.current_revision) (some-injective (sym row ∙ e)))

    Refuses-update :
        (j : WorkflowInstance F) (s : WorkflowStatus)
        → db.instance_row ≡ some j
        → Refuses db (update_workflow_status j s (some r))
    unfolding update_workflow_status
    Refuses-update j s e = rw (conflicting j e) (Refuses-raise db _)

    Refuses-change :
        (s : WorkflowStatus) (t : EventType) (reason : Option String)
        → Refuses db (change_workflow_status services s t (some r) reason)
    unfolding change_workflow_status ◌>>◌
    Refuses-change s t reason = Refuses-after db _ _ (Gives-instance services db) (λ j e.
        Refuses-after db {Q = Any} _ _ (Gives-lift _ (λ a h. tt))
          (λ _ _. Refuses-bind db _ _ (Refuses-update j s e)))

    Refuses-reopen :
        (id reason : String) (target : Bool)
        → Refuses db (reopen_from_task services id reason (some r) target)
    unfolding reopen_from_task ◌>>◌
    Refuses-reopen id reason target = Refuses-after db _ _ (Gives-instance services db) (λ j e.
        Refuses-after db _ _ (Gives-check _ _)
          (λ _ _. Refuses-bind db _ _ (Refuses-check db _ _ (conflicting j e))))

    outdated :
        (j : WorkflowInstance F)
        → db.instance_row ≡ some j
        → IsCurrent (some r) j.current_revision
        → ⊥
    outdated j e (inl h) = absurd (cc)
    outdated j e (inr h) =
        stale (some-injective h ∙ ap (λ x. x.current_revision) (some-injective (sym e ∙ row)))

    Refuses-submit :
        (id : String) (outputs : Dict F) (by : Option String)
        → Refuses db (submit_node_outputs services id outputs by (some r))
    unfolding submit_node_outputs
    Refuses-submit id outputs by = Refuses-after db _ _ (Gives-instance services db) (λ j e.
        Refuses-after db _ _ (Gives-Admits services db j id (some r))
          (λ a (runs, agrees, found, pends). absurd (outdated j e agrees)))

    -- No request of a client that expects another revision than the instance has changes anything:
    -- it raises and leaves the tables as they are.
    pub stale_refused :
        (request : Request F) → expected_of request ≡ some r → Refuses db (perform services request)
    unfolding perform pause_workflow resume_workflow cancel_workflow
    stale_refused (Request.submit id outputs by expected) h =
        rw h (Refuses-then db _ _ (Refuses-submit id outputs by))
    stale_refused (Request.pause expected) h = rw h (Refuses-then db _ _ (Refuses-change _ _ none))
    stale_refused (Request.resume expected) h =
        rw h (Refuses-then db _ _ (Refuses-bind db _ _ (Refuses-change _ _ none)))
    stale_refused (Request.cancel expected reason) h =
        rw h (Refuses-then db _ _ (Refuses-change _ _ reason))
    stale_refused (Request.reopen id reason expected target) h =
        rw h (Refuses-then db _ _ (Refuses-reopen id reason target))
    stale_refused (Request.invalidate id reason) h = absurd (cc)
