-- ===== src/Tables/Instances.antt =====
-- `InstanceRepository` of app/infrastructure/db/repositories/instances.py.
use workfllow_execution.Prelude.{ℕ, ◌+◌, String, Bool, false, not, nat_eq, if◌then◌else◌}
use workfllow_execution.Prelude.{Option, none, some, List, [], ◌∷◌, ◌++◌, lookup, insert}
use workfllow_execution.Errors.{not_found, version_conflict}
use workfllow_execution.Action.{Action, pure, raise, lift, query, write, found, ◌>>=◌, ◌>>◌}
use workfllow_execution.Status.{NodeStatus, WorkflowStatus, ExecutionStatus, workflow_eq}
use workfllow_execution.Status.NodeMachine.{transition}
use workfllow_execution.Json.{Json, Dict}
use workfllow_execution.Tables.{Tables, WorkflowInstance, NodeInstance, NodeExecution}

abbrev pub rows : List (String × NodeInstance) → List NodeInstance
rows [] = []
rows ((k, n) ∷ d) = n ∷ rows d

-- `expected_revision is not None and instance.current_revision != expected_revision`
abbrev pub conflicts : Option ℕ → ℕ → Bool
conflicts none current = false
conflicts (some expected) current = not (nat_eq current expected)

module _ {F : Type 0} where
  unfoldable pub create_workflow_instance :
      String
      → String
      → String
      → String
      → Option String
      → Dict F
      → Dict F
      → Action (Tables F) (WorkflowInstance F)
  create_workflow_instance id name definition_id version_id created_by metadata seed_defaults =
      let instance' : WorkflowInstance F = record {
        id = id;
        name = name;
        workflow_definition_id = definition_id;
        workflow_definition_version_id = version_id;
        status = WorkflowStatus.pending;
        current_revision = 1;
        created_by = created_by;
        instance_metadata = metadata;
        seed_defaults_json = seed_defaults;
        completed_at = none;
      } in
      write (λ db. record db { instance_row = some instance' }) >> pure instance'

  unfoldable pub create_snapshot : Json F → Action (Tables F) Unit
  create_snapshot json = write (λ db. record db { snapshot = some json })

  unfoldable pub create_node_instance : String → String → String → Action (Tables F) NodeInstance
  create_node_instance id workflow_node_id version_id =
      let node_instance : NodeInstance = record {
        id = id;
        workflow_node_id = workflow_node_id;
        node_definition_version_id = version_id;
        status = NodeStatus.waiting;
        current_execution = 0;
      } in
      write (λ db. record db {
        node_instances = insert workflow_node_id node_instance db.node_instances;
      })
      >> pure node_instance

  unfoldable pub require_workflow_instance : Action (Tables F) (WorkflowInstance F)
  require_workflow_instance = do o ← query (λ db. db.instance_row); found o not_found

  unfoldable pub list_node_instances : Action (Tables F) (List NodeInstance)
  list_node_instances = query (λ db. rows db.node_instances)

  unfoldable pub require_node_instance_by_graph_id : String → Action (Tables F) NodeInstance
  require_node_instance_by_graph_id node_id = do
    o ← query (λ db. lookup node_id db.node_instances)
    found o not_found

  -- The row of a node instance is written back.
  unfoldable pub save_node : NodeInstance → Tables F → Tables F
  save_node n db = record db { node_instances = insert n.workflow_node_id n db.node_instances }

  unfoldable pub save_instance : WorkflowInstance F → Tables F → Tables F
  save_instance i db = record db { instance_row = some i }

  unfoldable pub update_node_status : NodeInstance → NodeStatus → Action (Tables F) NodeInstance
  unfolding save_node
  update_node_status node_instance status = do
    lift (transition node_instance.status status)
    write (save_node (record node_instance { status = status }))
    pure (record node_instance { status = status })

  unfoldable pub create_node_execution :
      NodeInstance
      → Dict F
      → Dict F
      → ExecutionStatus
      → Option String
      → Action (Tables F) NodeInstance
  unfolding save_node
  create_node_execution node_instance inputs outputs status executed_by =
      let number = node_instance.current_execution + 1 in
      let row : NodeExecution F = record {
        workflow_node_instance_id = node_instance.id;
        execution_number = number;
        inputs_json = inputs;
        outputs_json = outputs;
        status = status;
        executed_by = executed_by;
      } in
      let counted : NodeInstance = record node_instance { current_execution = number } in
      write (save_node counted)
      >> (write (λ db. record db { executions = db.executions ++ row ∷ [] }) >> pure counted)

  unfoldable pub update_workflow_status :
      WorkflowInstance F → WorkflowStatus → Option ℕ → Action (Tables F) (WorkflowInstance F)
  unfolding save_instance
  update_workflow_status instance' status expected_revision =
      if conflicts expected_revision instance'.current_revision then raise version_conflict else (do
        now ← query (λ db. db.now)
        let changed : WorkflowInstance F = record instance' {
          status = status;
          current_revision = instance'.current_revision + 1;
          completed_at =
              if workflow_eq status WorkflowStatus.completed
              then some now
              else instance'.completed_at;
        }
        write (save_instance changed)
        pure changed)

  unfoldable pub increment_revision :
      WorkflowInstance F → Option ℕ → Action (Tables F) (WorkflowInstance F)
  unfolding save_instance
  increment_revision instance' expected_revision =
      if conflicts expected_revision instance'.current_revision then raise version_conflict else (do
        let changed : WorkflowInstance F = record instance' {
          current_revision = instance'.current_revision + 1;
        }
        write (save_instance changed)
        pure changed)

  -- `instance.instance_metadata = meta; flag_modified(...); flush()`
  unfoldable pub save_metadata :
      WorkflowInstance F → Dict F → Action (Tables F) (WorkflowInstance F)
  unfolding save_instance
  save_metadata instance' meta = do
    let changed : WorkflowInstance F = record instance' { instance_metadata = meta }
    write (save_instance changed)
    pure changed
