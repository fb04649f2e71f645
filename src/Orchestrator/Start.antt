-- ===== src/Orchestrator/Start.antt =====
-- `WorkflowOrchestrator.start_workflow` with the builder of
-- app/application/executions/instance_builder.py. The metadata are those that the value object
-- stores, and the ids that the database draws are arguments.
pub mod Begun
use workfllow_execution.Prelude.{ℕ, String, Option, none, some, List, [], ◌∷◌, lookup}
use workfllow_execution.Errors.{Result, ok, err, key_error, assertion_error}
use workfllow_execution.Action.{Action, pure, raise, lift, found, for_each, ◌>>=◌, ◌>>◌}
use workfllow_execution.Status.{WorkflowStatus}
use workfllow_execution.Status.WorkflowMachine.{transition}
use workfllow_execution.Json.{Json, Dict, Python}
use workfllow_execution.Events.{EventType, Payload}
use workfllow_execution.Graph.{GraphNode, WorkflowGraph, task_nodes}
use workfllow_execution.Graph.Parse.{from_definition_json}
use workfllow_execution.Catalog.{VersionRow, Shelf, pin_version, pin_latest_versions}
use workfllow_execution.Tables.{Tables, WorkflowInstance}
use workfllow_execution.Tables.Instances.{create_workflow_instance, create_node_instance}
use workfllow_execution.Tables.Instances.{update_workflow_status}
use workfllow_execution.Orchestrator.{Services, emit, sync_current_total_metadata, advance}
use workfllow_execution.Orchestrator.Seeds.{seeds_from}

-- What a client asks for, and the id of the new row.
pub record StartRequest (F : Type 0) : Type 0 where
  pub id : String
  pub name : String
  pub workflow_definition_id : String
  pub version : Option ℕ
  pub created_by : Option String
  pub metadata : Dict F

-- `[task_node.node_definition_id for task_node in graph.task_nodes if ... is not None]`
pub pinned_ids : List GraphNode → List String
pinned_ids [] = []
pinned_ids (n ∷ ns) = elim n.node_definition_id [
  | none ↦ pinned_ids ns
  | some d ↦ d ∷ pinned_ids ns
]

module _ {F : Type 0} ⦃py : Python F⦄ where
  -- The row of a task, with the pinned version of its definition.
  unfoldable pub add_node :
      (String → String) → List (String × VersionRow (Dict F)) → GraphNode → Action (Tables F) Unit
  add_node new_id pinned task_node = do
    definition ← found task_node.node_definition_id assertion_error
    version ← found (lookup definition pinned) key_error
    create_node_instance (new_id task_node.id) task_node.id version.id >> pure tt

  -- `WorkflowInstanceBuilder.build`
  unfoldable pub build :
      Shelf (Json F)
      → Shelf (Dict F)
      → (String → String)
      → StartRequest F
      → Dict F
      → Action (Tables F) (WorkflowInstance F × VersionRow (Json F) × WorkflowGraph)
  unfolding add_node pinned_ids
  build workflows nodes new_id r seeds = do
    workflow_version ← lift (pin_version r.workflow_definition_id r.version workflows)
    graph ← lift (from_definition_json workflow_version.definition_json)
    instance' ←
        create_workflow_instance r.id r.name r.workflow_definition_id workflow_version.id
          r.created_by r.metadata seeds
    pinned ← lift (pin_latest_versions (pinned_ids (task_nodes graph)) nodes)
    for_each (task_nodes graph) (add_node new_id pinned)
    pure (instance', workflow_version, graph)

  module _ (services : Services F) where
    -- The second half: the event, and the workflow at work.
    unfoldable pub launch :
        StartRequest F
        → WorkflowInstance F
        → VersionRow (Json F)
        → WorkflowGraph
        → Action (Tables F) (WorkflowInstance F)
    launch r instance' workflow_version graph = do
      emit services EventType.workflow_started
          (Payload.started r.workflow_definition_id workflow_version.id
            (some workflow_version.definition_json))
          r.created_by
      lift (transition instance'.status WorkflowStatus.running)
      running ← update_workflow_status instance' WorkflowStatus.running none
      advanced ← advance services running graph
      sync_current_total_metadata services advanced

    unfoldable pub start_workflow :
        Shelf (Json F)
        → Shelf (Dict F)
        → (String → String)
        → StartRequest F
        → Option (Tables F)
        → Action (Tables F) (WorkflowInstance F)
    unfolding build launch
    start_workflow workflows nodes new_id r seed_source = do
      seeds ←
          lift (seeds_from services.node_definition_version r.workflow_definition_id seed_source)
      built ← build workflows nodes new_id r seeds
      launch r built.0 built.1 built.2
