-- ===== src/Orchestrator/Invariant.antt =====
-- What an invariant of the tables has to satisfy for every operation of the orchestrator to keep
-- it: the interface between the operations and what is to be shown of them.
pub mod Rows
pub mod Operations
pub mod Requests
pub mod Runs
pub mod Logged
pub mod Lifecycles
use workfllow_execution.Prelude.{
  ℕ, ◌+◌, String, Bool, true, ◌≡◌, Option, some, List, ◌∷◌, ◌++◌, [], All,
}
use workfllow_execution.Errors.{ok}
use workfllow_execution.Action.Gives.{Gives, Any}
use workfllow_execution.Status.{NodeStatus, WorkflowStatus}
use workfllow_execution.Status.NodeMachine
use workfllow_execution.Status.WorkflowMachine
use workfllow_execution.Json.{Dict, Python}
use workfllow_execution.Events.{EventType, Payload}
use workfllow_execution.Events.Store.{Hashing, append}
use workfllow_execution.Events.State.Accepts.{fits}
use workfllow_execution.Tables.{Tables, WorkflowInstance, NodeInstance, NodeExecution}
use workfllow_execution.Tables.Instances.{rows, save_node, save_instance}

-- `Holds` is the invariant; `Instance` and `Node` are what it says of the rows that are read, and
-- what the operations keep of the objects they hold. `Counted` is what is known of a task whose
-- execution has just been counted, which is when it may become COMPLETED.
pub record Invariant {F : Type 0} ⦃py : Python F⦄ (hashing : Hashing F) : Type 1 where
  pub Holds : Tables F → Type 0
  pub Instance : WorkflowInstance F → Type 0
  pub Node : NodeInstance → Type 0
  pub Counted : NodeInstance → Type 0
  pub instance_read :
      (db : Tables F) (i : WorkflowInstance F) → Holds db → db.instance_row ≡ some i → Instance i
  pub nodes_read : (db : Tables F) → Holds db → All Node (rows db.node_instances)
  pub node_saved : (n : NodeInstance) (db : Tables F) → Node n → Holds db → Holds (save_node n db)
  pub instance_saved :
      (i : WorkflowInstance F) (db : Tables F) → Instance i → Holds db → Holds (save_instance i db)
  pub execution_saved :
      (e : NodeExecution F) (db : Tables F)
      → Holds db
      → Holds (record db { executions = db.executions ++ e ∷ [] })
  pub appended :
      (t : EventType) (p : Payload F) (by : Option String)
      → fits t p ≡ true
      → Gives Holds Any (append hashing [] t p by)
  pub node_changed :
      (n : NodeInstance) (s u : NodeStatus)
      → Node n
      → NodeMachine.transition n.status s ≡ ok u
      → (s ≡ NodeStatus.completed → Counted n)
      → Node (record n { status = s })
  pub node_counted :
      (n : NodeInstance)
      → Node n
      → Node (record n { current_execution = n.current_execution + 1 })
        × Counted (record n { current_execution = n.current_execution + 1 })
  pub instance_changed :
      (i : WorkflowInstance F) (s u : WorkflowStatus) (done : Option ℕ)
      → Instance i
      → WorkflowMachine.transition i.status s ≡ ok u
      → Instance
          (record i { status = s; current_revision = i.current_revision + 1; completed_at = done })
  pub instance_counted :
      (i : WorkflowInstance F)
      → Instance i
      → Instance (record i { current_revision = i.current_revision + 1 })
  pub instance_noted :
      (i : WorkflowInstance F) (metadata : Dict F)
      → Instance i
      → Instance (record i { instance_metadata = metadata })
