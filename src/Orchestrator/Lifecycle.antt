-- ===== src/Orchestrator/Lifecycle.antt =====
-- `WorkflowOrchestrator.pause_workflow`, `resume_workflow` and `cancel_workflow`.
pub mod Changes
use workfllow_execution.Prelude.{ℕ, String, ◌==◌, Bool, true, false, not, ◌&&◌, if◌then◌else◌}
use workfllow_execution.Prelude.{Option, none, some, insert}
use workfllow_execution.Action.{Action, pure, lift, ◌>>=◌, ◌>>◌}
use workfllow_execution.Status.{WorkflowStatus, workflow_eq}
use workfllow_execution.Status.WorkflowMachine.{transition}
use workfllow_execution.Json.{Dict, Python, str}
use workfllow_execution.Events.{EventType, Payload}
use workfllow_execution.Tables.{Tables, WorkflowInstance}
use workfllow_execution.Tables.Instances.{
  require_workflow_instance, update_workflow_status, save_metadata,
}
use workfllow_execution.Orchestrator.{Services, emit, load_graph, advance}

module _ {F : Type 0} ⦃py : Python F⦄ (services : Services F) where
  -- The reason without blanks around it, and None for an empty one.
  abbrev pub cleaned : Option String → Option String
  cleaned none = none
  cleaned (some reason) = let text = services.strip reason in if text == "" then none else some text

  -- The reason of a cancellation is kept on the instance.
  unfoldable pub keep_reason :
      WorkflowStatus → Option String → WorkflowInstance F → Action (Tables F) (WorkflowInstance F)
  keep_reason target none instance' = pure instance'
  keep_reason target (some reason) instance' =
      if workflow_eq target WorkflowStatus.cancelled
      then save_metadata instance'
          (insert "terminationReason" (str reason) instance'.instance_metadata)
      else pure instance'

  -- `_change_workflow_status`
  unfoldable pub change_workflow_status :
      WorkflowStatus → EventType → Option ℕ → Option String → Action (Tables F) (WorkflowInstance F)
  unfolding keep_reason
  change_workflow_status target event_type expected_revision reason = do
    instance' ← require_workflow_instance
    lift (transition instance'.status target)
    changed ← update_workflow_status instance' target expected_revision
    emit services event_type (Payload.status_changed instance'.status target (cleaned reason)) none
    keep_reason target (cleaned reason) changed

  unfoldable pub pause_workflow : Option ℕ → Action (Tables F) (WorkflowInstance F)
  unfolding change_workflow_status
  pause_workflow expected_revision =
      change_workflow_status WorkflowStatus.paused EventType.workflow_paused expected_revision none

  unfoldable pub resume_workflow : Option ℕ → Action (Tables F) (WorkflowInstance F)
  unfolding change_workflow_status
  resume_workflow expected_revision = do
    instance' ←
        change_workflow_status WorkflowStatus.running EventType.workflow_resumed expected_revision
          none
    graph ← load_graph services instance'
    advance services instance' graph

  unfoldable pub cancel_workflow : Option ℕ → Option String → Action (Tables F) (WorkflowInstance F)
  unfolding change_workflow_status
  cancel_workflow expected_revision reason =
      change_workflow_status WorkflowStatus.cancelled EventType.workflow_cancelled expected_revision
        reason
