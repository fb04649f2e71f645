-- ===== src/Orchestrator/Submit.antt =====
-- `WorkflowOrchestrator.submit_node_outputs`: a task is run on what its user entered.
pub mod Guards
pub mod Accepted
use workfllow_execution.Prelude.{ℕ, ◌+◌, String, Bool, true, false, not, if◌then◌else◌}
use workfllow_execution.Prelude.{Option, none, some, List, [], lookup}
use workfllow_execution.Errors.{Result, invalid_transition, version_conflict, node_execution}
use workfllow_execution.Errors.{upstream_not_ready, key_error}
use workfllow_execution.Action.{Action, pure, raise, lift, query, found, when, ◌>>=◌, ◌>>◌}
use workfllow_execution.Status.{NodeStatus, WorkflowStatus, ExecutionStatus, node_eq, workflow_eq}
use workfllow_execution.Json.{Json, Dict, Python, obj, entries, subscript}
use workfllow_execution.Events.{EventType, Payload}
use workfllow_execution.Definition.{cost_contribution}
use workfllow_execution.Executor.{ExecutionContext}
use workfllow_execution.Graph.{GraphNode, WorkflowGraph, is_task, require_node}
use workfllow_execution.Tables.{Tables, WorkflowInstance, NodeInstance}
use workfllow_execution.Tables.Instances.{
  require_workflow_instance, require_node_instance_by_graph_id, update_node_status,
  create_node_execution, conflicts,
}
use workfllow_execution.Orchestrator.{
  Services, emit, load_graph, sync_current_total_metadata, advance,
}
use workfllow_execution.Orchestrator.Inputs.{ResolvedNodeInputs, resolve}

-- `SeedDefaultsMemento.from_storage(raw).for_node(workflow_node_id)`
abbrev pub dict_or_empty : {F : Type 0} → Option (Json F) → Dict F
dict_or_empty (some (obj fs)) = entries fs
dict_or_empty _ = []

unfoldable pub seeds_for_node : {F : Type 0} → Dict F → String → Dict F
seeds_for_node raw workflow_node_id = dict_or_empty (lookup workflow_node_id raw)

module _ {F : Type 0} ⦃py : Python F⦄ (services : Services F) where
  -- The method up to the lookup of the node instance: what has to hold before anything is written.
  unfoldable pub admit :
      WorkflowInstance F
      → String
      → Option ℕ
      → Action (Tables F) (WorkflowGraph × GraphNode × NodeInstance)
  admit instance' workflow_node_id expected_revision = do
    when (not (workflow_eq instance'.status WorkflowStatus.running)) (raise invalid_transition)
    when (conflicts expected_revision instance'.current_revision) (raise version_conflict)
    graph ← load_graph services instance'
    graph_node ← lift (require_node graph workflow_node_id)
    when (not (is_task graph_node)) (raise node_execution)
    node_instance ← require_node_instance_by_graph_id workflow_node_id
    when (not (node_eq node_instance.status NodeStatus.pending)) (raise upstream_not_ready)
    pure (graph, graph_node, node_instance)

  -- The context that the executor is run with.
  unfoldable pub build_context :
      WorkflowInstance F
      → NodeInstance
      → Dict F
      → ResolvedNodeInputs F
      → Action (Tables F) (ExecutionContext F)
  unfolding seeds_for_node
  build_context instance' node_instance definition_json resolved = do
    base_kind ← found (lookup "baseKind" definition_json) key_error
    pure (record {
      workflow_node_instance_id = node_instance.id;
      workflow_node_id = node_instance.workflow_node_id;
      node_definition_version_id = node_instance.node_definition_version_id;
      base_kind = base_kind;
      definition_json = definition_json;
      resolved_inputs = resolved.values;
      locked_input_keys = resolved.locked_keys;
      execution_number = node_instance.current_execution + 1;
      seed_defaults = seeds_for_node instance'.seed_defaults_json node_instance.workflow_node_id;
    })

  -- From the start of the execution to the event of its completion.
  unfoldable pub execute :
      NodeInstance
      → ExecutionContext F
      → (ExecutionContext F → Dict F → Result (Dict F))
      → Dict F
      → Option String
      → Action (Tables F) NodeInstance
  execute node_instance context run outputs executed_by = do
    started ← update_node_status node_instance NodeStatus.running
    emit services EventType.node_started
        (Payload.node_started started.id context.workflow_node_id context.execution_number)
        executed_by
    final_outputs ← lift (run context outputs)
    counted ←
        create_node_execution started context.resolved_inputs final_outputs
          ExecutionStatus.completed executed_by
    finished ← update_node_status counted NodeStatus.completed
    emit services EventType.node_completed
        (Payload.completed finished.id context.workflow_node_id finished.current_execution
          final_outputs (cost_contribution context.definition_json final_outputs))
        executed_by
    pure finished

  unfoldable pub submit_node_outputs :
      String → Dict F → Option String → Option ℕ → Action (Tables F) NodeInstance
  unfolding admit build_context execute
  submit_node_outputs workflow_node_id outputs executed_by expected_revision = do
    instance' ← require_workflow_instance
    admitted ← admit instance' workflow_node_id expected_revision
    let (graph, graph_node, node_instance) = admitted
    definition_json ←
        found (services.node_definition_version node_instance.node_definition_version_id)
          node_execution
    resolved ← query (λ db. resolve db graph_node instance'.instance_metadata)
    resolved_inputs ← lift resolved
    context ← build_context instance' node_instance definition_json resolved_inputs
    run ← lift (services.executor context.base_kind)
    finished ← execute node_instance context run outputs executed_by
    synced ← sync_current_total_metadata services instance'
    advance services synced graph
    pure finished
