-- ===== src/Orchestrator.antt =====
-- `WorkflowOrchestrator` of app/application/executions/orchestrator.py: the parts that its
-- operations share. An object of the session that an operation holds is a value here, and what a
-- repository call makes of it is bound again. One session at a time runs an operation, so no
-- other one commits events meanwhile.
pub mod Inputs
pub mod Invariant
pub mod Submit
pub mod Lifecycle
pub mod Reopen
pub mod Seeds
pub mod Start
pub mod Refused
use workfllow_execution.Prelude.{ℕ, String, ◌==◌, Bool, true, false, not, ◌||◌, if◌then◌else◌}
use workfllow_execution.Prelude.{Option, none, some, List, [], ◌∷◌, lookup, insert}
use workfllow_execution.Errors.{Result, node_execution, key_error}
use workfllow_execution.Action.{
  Action, pure, raise, lift, query, write, found, when, for_each, ◌>>=◌, ◌>>◌,
}
use workfllow_execution.Status.{NodeStatus, WorkflowStatus, node_eq, workflow_eq}
use workfllow_execution.Status.WorkflowMachine.{transition}
use workfllow_execution.Json.{Json, Dict, Python, null, float}
use workfllow_execution.Events.{EventType, Payload}
use workfllow_execution.Events.State.{WorkflowState}
use workfllow_execution.Events.Store.{Hashing, append}
use workfllow_execution.Executor.{ExecutionContext}
use workfllow_execution.Graph.Parse.{from_definition_json}
use workfllow_execution.Graph.{GraphNode, WorkflowGraph}
use workfllow_execution.Scheduler.{Statuses, ready_task_nodes, all_tasks_completed}
use workfllow_execution.Tables.{Tables, WorkflowInstance, NodeInstance}
use workfllow_execution.Tables.Instances.{
  list_node_instances, update_node_status, update_workflow_status, save_metadata,
}
use workfllow_execution.Tables.Projections.{get_workflow_state}

-- What the orchestrator is given: the hashing of events, the lookups of
-- pinned versions, and the executors by base kind, each with its `run`.
pub record Services (F : Type 0) : Type 0 where
  pub hashing : Hashing F
  pub workflow_definition_version : String → Option (Json F)
  pub node_definition_version : String → Option (Dict F)
  pub executor : Json F → Result (ExecutionContext F → Dict F → Result (Dict F))
  -- `str.strip`
  pub strip : String → String

-- `{node.workflow_node_id: node.status for node in nodes}`, into the dict so far
pub add_statuses : Statuses → List NodeInstance → Statuses
add_statuses d [] = d
add_statuses d (n ∷ ns) = add_statuses (insert n.workflow_node_id n.status d) ns

unfoldable pub statuses_of : List NodeInstance → Statuses
unfolding add_statuses insert
statuses_of nodes = add_statuses [] nodes

-- `{node.workflow_node_id: node for node in nodes}`, into the dict so far
pub add_by_id : List (String × NodeInstance) → List NodeInstance → List (String × NodeInstance)
add_by_id d [] = d
add_by_id d (n ∷ ns) = add_by_id (insert n.workflow_node_id n d) ns

unfoldable pub by_graph_id : List NodeInstance → List (String × NodeInstance)
unfolding add_by_id insert
by_graph_id nodes = add_by_id [] nodes

module _ {F : Type 0} ⦃py : Python F⦄ (services : Services F) where
  -- `self._events.append(...)`
  unfoldable pub emit : EventType → Payload F → Option String → Action (Tables F) Unit
  emit event_type payload created_by =
      append services.hashing [] event_type payload created_by >> pure tt

  unfoldable pub pinned_graph :
      WorkflowInstance F → Option (Json F) → Action (Tables F) WorkflowGraph
  pinned_graph instance' (some json) = lift (from_definition_json json)
  pinned_graph instance' none = do
    json ←
        found (services.workflow_definition_version instance'.workflow_definition_version_id)
          node_execution
    lift (from_definition_json json)

  -- `_load_graph`
  unfoldable pub load_graph : WorkflowInstance F → Action (Tables F) WorkflowGraph
  unfolding pinned_graph
  load_graph instance' = do snapshot ← query (λ db. db.snapshot); pinned_graph instance' snapshot

  abbrev rounded_total : Option (WorkflowState F) → Json F
  rounded_total none = null
  rounded_total (some state) = elim state.total [ none ↦ null | some x ↦ float (py.round2 x) ]

  -- `_sync_current_total_metadata`
  unfoldable pub sync_current_total_metadata :
      WorkflowInstance F → Action (Tables F) (WorkflowInstance F)
  sync_current_total_metadata instance' = do
    state ← get_workflow_state
    save_metadata instance'
        (insert "currentTotal" (rounded_total state) instance'.instance_metadata)

  -- The body of the loop over the tasks that may start, on the row as it is then.
  unfoldable pub make_ready : GraphNode → Action (Tables F) Unit
  make_ready graph_node = do
    row ← query (λ db. lookup graph_node.id db.node_instances)
    node_instance ← found row key_error
    when
        (node_eq node_instance.status NodeStatus.invalidated
          || node_eq node_instance.status NodeStatus.waiting)
        (update_node_status node_instance NodeStatus.pending
          >> emit EventType.node_ready
              (Payload.ready node_instance.id graph_node.id
                node_instance.node_definition_version_id)
              none)

  -- The second half of `_advance`: the workflow is over when all of its tasks are.
  unfoldable pub finish :
      WorkflowInstance F → WorkflowGraph → Action (Tables F) (WorkflowInstance F)
  finish instance' graph = do
    nodes ← list_node_instances
    if all_tasks_completed graph (statuses_of nodes)
        then (do
          lift (transition instance'.status WorkflowStatus.completed)
          changed ← update_workflow_status instance' WorkflowStatus.completed none
          emit EventType.workflow_completed
              (Payload.status_changed WorkflowStatus.running WorkflowStatus.completed none) none
          pure changed)
        else pure instance'

  -- `_advance`
  unfoldable pub advance :
      WorkflowInstance F → WorkflowGraph → Action (Tables F) (WorkflowInstance F)
  unfolding make_ready finish
  advance instance' graph =
      if not (workflow_eq instance'.status WorkflowStatus.running) then pure instance' else (do
        node_instances ← list_node_instances
        ready ← lift (ready_task_nodes graph (statuses_of node_instances))
        for_each ready make_ready
        finish instance' graph)
