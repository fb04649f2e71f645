-- ===== src/Orchestrator/Reopen.antt =====
-- `WorkflowOrchestrator.reopen_from_task`, `invalidate_downstream` and
-- `_invalidate_downstream_nodes`: the tasks after an edited one are to be done again.
use workfllow_execution.Prelude.{ℕ, String, Bool, true, false, not, ◌||◌, if◌then◌else◌}
use workfllow_execution.Prelude.{Option, none, some, List, [], ◌∷◌, ◌++◌, lookup}
use workfllow_execution.Errors.{invalid_transition, version_conflict}
use workfllow_execution.Errors.{node_execution}
use workfllow_execution.Action.{Action, pure, raise, lift, when, ◌>>=◌, ◌>>◌}
use workfllow_execution.Status.{NodeStatus, WorkflowStatus, node_eq, workflow_eq}
use workfllow_execution.Status.WorkflowMachine.{transition}
use workfllow_execution.Json.{Python}
use workfllow_execution.Events.{EventType, Payload}
use workfllow_execution.Graph.{GraphNode, is_task, require_node}
use workfllow_execution.Graph.Downstream.{downstream_task_nodes}
use workfllow_execution.Tables.{Tables, WorkflowInstance, NodeInstance}
use workfllow_execution.Tables.Instances.{
  require_workflow_instance, list_node_instances, require_node_instance_by_graph_id,
  update_node_status, update_workflow_status, increment_revision, conflicts,
}
use workfllow_execution.Orchestrator.{
  Services, emit, load_graph, by_graph_id, sync_current_total_metadata, advance,
}

-- `status in {PENDING, RUNNING, COMPLETED}`
abbrev pub may_invalidate : NodeStatus → Bool
may_invalidate s =
    node_eq s NodeStatus.pending || node_eq s NodeStatus.running || node_eq s NodeStatus.completed

abbrev pub is_empty : List NodeInstance → Bool
is_empty [] = true
is_empty (n ∷ ns) = false

module _ {F : Type 0} ⦃py : Python F⦄ (services : Services F) where
  unfoldable pub invalidate_one :
      String → String → GraphNode → NodeInstance → Action (Tables F) NodeInstance
  invalidate_one workflow_node_id reason graph_node node_instance = do
    changed ← update_node_status node_instance NodeStatus.invalidated
    emit services EventType.node_invalidated
        (Payload.invalidated node_instance.id graph_node.id reason (some workflow_node_id)) none
    pure changed

  -- A task without a row, or one that was not begun, is passed over.
  unfoldable pub invalidate_row :
      String → String → GraphNode → Option NodeInstance → Action (Tables F) (List NodeInstance)
  unfolding invalidate_one
  invalidate_row workflow_node_id reason graph_node none = pure []
  invalidate_row workflow_node_id reason graph_node (some node_instance) =
      if may_invalidate node_instance.status
      then (do
        changed ← invalidate_one workflow_node_id reason graph_node node_instance
        pure (changed ∷ []))
      else pure []

  -- The loop over the tasks downstream.
  unfoldable pub invalidate_all :
      String
      → String
      → List (String × NodeInstance)
      → List GraphNode
      → Action (Tables F) (List NodeInstance)
  unfolding invalidate_row
  invalidate_all workflow_node_id reason rows [] = pure []
  invalidate_all workflow_node_id reason rows (graph_node ∷ graph_nodes) = do
    changed ← invalidate_row workflow_node_id reason graph_node (lookup graph_node.id rows)
    others ← invalidate_all workflow_node_id reason rows graph_nodes
    pure (changed ++ others)

  -- `_invalidate_downstream_nodes`
  unfoldable pub invalidate_downstream_nodes :
      String → String → Action (Tables F) (List NodeInstance)
  unfolding invalidate_all
  invalidate_downstream_nodes workflow_node_id reason = do
    instance' ← require_workflow_instance
    graph ← load_graph services instance'
    nodes ← list_node_instances
    downstream ← lift (downstream_task_nodes graph workflow_node_id)
    invalidate_all workflow_node_id reason (by_graph_id nodes) downstream

  -- The edited task itself: a completed one becomes pending, without a NODE_READY event.
  unfoldable pub reopen_target_node : String → String → Action (Tables F) (List NodeInstance)
  reopen_target_node workflow_node_id reason = do
    target ← require_node_instance_by_graph_id workflow_node_id
    if node_eq target.status NodeStatus.completed
        then (do
          changed ← update_node_status target NodeStatus.pending
          emit services EventType.node_invalidated
              (Payload.invalidated target.id workflow_node_id reason none) none
          pure (changed ∷ []))
        else if node_eq target.status NodeStatus.pending
            || node_eq target.status NodeStatus.invalidated
        then pure []
        else raise invalid_transition

  -- The instance runs again, or its revision counts the change.
  unfoldable pub reopen_instance :
      WorkflowInstance F → List NodeInstance → Action (Tables F) (WorkflowInstance F)
  reopen_instance instance' affected =
      if workflow_eq instance'.status WorkflowStatus.completed
      then (do
        lift (transition instance'.status WorkflowStatus.running)
        update_workflow_status instance' WorkflowStatus.running none)
      else if is_empty affected
      then pure instance'
      else increment_revision instance' none

  unfoldable pub reopen_from_task :
      String → String → Option ℕ → Bool → Action (Tables F) (List NodeInstance)
  unfolding invalidate_downstream_nodes reopen_target_node reopen_instance
  reopen_from_task workflow_node_id reason expected_revision reopen_target = do
    instance' ← require_workflow_instance
    when
        (not (
          workflow_eq instance'.status WorkflowStatus.running
          || workflow_eq instance'.status WorkflowStatus.completed))
        (raise invalid_transition)
    when (conflicts expected_revision instance'.current_revision) (raise version_conflict)
    graph ← load_graph services instance'
    graph_node ← lift (require_node graph workflow_node_id)
    when (not (is_task graph_node)) (raise node_execution)
    first ← (if reopen_target then reopen_target_node workflow_node_id reason else pure [])
    later ← invalidate_downstream_nodes workflow_node_id reason
    let affected = first ++ later
    reopened ← reopen_instance instance' affected
    when (not (is_empty affected)) (do
      synced ← sync_current_total_metadata services reopened
      advance services synced graph
      pure tt)
    pure affected

  unfoldable pub invalidate_downstream : String → String → Action (Tables F) (List NodeInstance)
  unfolding reopen_from_task
  invalidate_downstream workflow_node_id reason =
      reopen_from_task workflow_node_id reason none false
