-- ===== src/Tables.antt =====
-- The rows of one workflow instance (app/infrastructure/db/models/instances.py, events.py and
-- projections.py) and the three repositories over them. Every query of the engine's operations
-- on an instance names that instance, so the tables of the model hold its rows only.
pub mod Instances
pub mod Projections
use workfllow_execution.Prelude.{ℕ, String, Option, none, some, List, []}
use workfllow_execution.Status.{NodeStatus, WorkflowStatus, ExecutionStatus}
use workfllow_execution.Json.{Json, Dict}
use workfllow_execution.Events.{StoredEvent}
use workfllow_execution.Events.State.{WorkflowState}

pub record WorkflowInstance (F : Type 0) : Type 0 where
  pub id : String
  pub name : String
  pub workflow_definition_id : String
  pub workflow_definition_version_id : String
  pub status : WorkflowStatus
  pub current_revision : ℕ
  pub created_by : Option String
  pub instance_metadata : Dict F
  pub seed_defaults_json : Dict F
  pub completed_at : Option ℕ

pub record NodeInstance : Type 0 where
  pub id : String
  pub workflow_node_id : String
  pub node_definition_version_id : String
  pub status : NodeStatus
  pub current_execution : ℕ

pub record NodeExecution (F : Type 0) : Type 0 where
  pub workflow_node_instance_id : String
  pub execution_number : ℕ
  pub inputs_json : Dict F
  pub outputs_json : Dict F
  pub status : ExecutionStatus
  pub executed_by : Option String

-- `node_instances` is keyed by the node id of the graph, which is unique within an instance, and
-- `node_projections` by the id of the node instance. `now` is what the clock shows.
pub record Tables (F : Type 0) : Type 0 where
  pub instance_row : Option (WorkflowInstance F)
  pub node_instances : List (String × NodeInstance)
  pub executions : List (NodeExecution F)
  pub snapshot : Option (Json F)
  pub events : List (StoredEvent F)
  pub projection : Option (WorkflowState F)
  pub node_projections : List (String × Dict F)
  pub now : ℕ
