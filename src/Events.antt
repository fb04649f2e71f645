-- ===== src/Events.antt =====
-- The events of an instance: app/domain/events/types.py, payloads.py and stored_event.py. A
-- payload is a data type with a constructor for each payload class; `payload["key"]` and
-- `payload.get("key")` are the functions below it.
pub mod State
pub mod Store
pub mod Append
pub mod Rebuild
use workfllow_execution.Prelude.{ℕ, String, Bool, true, false, Option, none, some, List, []}
use workfllow_execution.Errors.{Result, ok, err, key_error}
use workfllow_execution.Status.{WorkflowStatus}
use workfllow_execution.Json.{Json, Dict}

pub data EventType : Type 0 where
  workflow_started workflow_paused workflow_resumed : EventType
  workflow_completed workflow_cancelled : EventType
  node_ready node_started node_completed node_failed node_invalidated : EventType

abbrev pub event_eq : EventType → EventType → Bool
event_eq EventType.workflow_started EventType.workflow_started = true
event_eq EventType.workflow_paused EventType.workflow_paused = true
event_eq EventType.workflow_resumed EventType.workflow_resumed = true
event_eq EventType.workflow_completed EventType.workflow_completed = true
event_eq EventType.workflow_cancelled EventType.workflow_cancelled = true
event_eq EventType.node_ready EventType.node_ready = true
event_eq EventType.node_started EventType.node_started = true
event_eq EventType.node_completed EventType.node_completed = true
event_eq EventType.node_failed EventType.node_failed = true
event_eq EventType.node_invalidated EventType.node_invalidated = true
event_eq _ _ = false

pub data Payload (F : Type 0) : Type 0 where
  -- definition id, definition version id, snapshot_json
  started : String → String → Option (Json F) → Payload F
  -- from_status, to_status, reason
  status_changed : WorkflowStatus → WorkflowStatus → Option String → Payload F
  -- node instance id, node id, node definition version id
  ready : String → String → String → Payload F
  -- node instance id, node id, execution number
  node_started : String → String → ℕ → Payload F
  -- node instance id, node id, execution number, outputs, cost contribution
  completed : String → String → ℕ → Dict F → Option F → Payload F
  -- node instance id, node id, execution number, error message, error code
  failed : String → String → ℕ → String → Option String → Payload F
  -- node instance id, node id, reason, upstream node id
  invalidated : String → String → String → Option String → Payload F

module _ {F : Type 0} where
  -- payload["workflow_definition_id"], payload["workflow_definition_version_id"]
  abbrev pub definition_id : Payload F → Result String
  definition_id (started d v snapshot) = ok d
  definition_id _ = err key_error

  abbrev pub definition_version_id : Payload F → Result String
  definition_version_id (started d v snapshot) = ok v
  definition_version_id _ = err key_error

  -- payload.get("snapshot_json")
  abbrev pub snapshot_json : Payload F → Option (Json F)
  snapshot_json (started d v snapshot) = snapshot
  snapshot_json _ = none

  -- payload["workflow_node_instance_id"]
  abbrev pub node_instance_id : Payload F → Result String
  node_instance_id (ready i n v) = ok i
  node_instance_id (node_started i n k) = ok i
  node_instance_id (completed i n k outputs cost) = ok i
  node_instance_id (failed i n k message code) = ok i
  node_instance_id (invalidated i n reason upstream) = ok i
  node_instance_id _ = err key_error

  -- payload["workflow_node_id"]
  abbrev pub node_id : Payload F → Result String
  node_id (ready i n v) = ok n
  node_id (node_started i n k) = ok n
  node_id (completed i n k outputs cost) = ok n
  node_id (failed i n k message code) = ok n
  node_id (invalidated i n reason upstream) = ok n
  node_id _ = err key_error

  -- payload.get("execution_number")
  abbrev pub execution_number : Payload F → Option ℕ
  execution_number (node_started i n k) = some k
  execution_number (completed i n k outputs cost) = some k
  execution_number (failed i n k message code) = some k
  execution_number _ = none

  -- payload.get("outputs", {})
  abbrev pub outputs : Payload F → Dict F
  outputs (completed i n k out cost) = out
  outputs _ = []

  -- payload.get("cost_contribution")
  abbrev pub cost_contribution : Payload F → Option F
  cost_contribution (completed i n k out cost) = cost
  cost_contribution _ = none

  -- payload.get("error_message")
  abbrev pub error_message : Payload F → Option String
  error_message (failed i n k message code) = some message
  error_message _ = none

  -- payload.get("reason")
  abbrev pub reason : Payload F → Option String
  reason (status_changed from to why) = why
  reason (invalidated i n why upstream) = some why
  reason _ = none

-- `WorkflowEvent` and `StoredEvent`, less the id of the row and of the instance.
pub record StoredEvent (F : Type 0) : Type 0 where
  pub sequence_number : ℕ
  pub event_type : EventType
  pub payload : Payload F
  pub previous_hash : Option String
  pub current_hash : Option String
  pub created_by : Option String
