-- ===== src/Status.antt =====
-- The statuses of app/domain/enums.py and the two lifecycle tables of app/domain/state.
pub mod NodeMachine
pub mod WorkflowMachine
use workfllow_execution.Prelude.{◌≡◌, ◌↔◌, Bool, true, false, arith}

pub data NodeStatus : Type 0 where
  waiting pending running completed invalidated failed : NodeStatus

pub data WorkflowStatus : Type 0 where
  pending running paused completed cancelled : WorkflowStatus

pub data ExecutionStatus : Type 0 where
  running completed failed : ExecutionStatus

-- `==` on the enumerations
abbrev pub node_eq : NodeStatus → NodeStatus → Bool
node_eq NodeStatus.waiting NodeStatus.waiting = true
node_eq NodeStatus.pending NodeStatus.pending = true
node_eq NodeStatus.running NodeStatus.running = true
node_eq NodeStatus.completed NodeStatus.completed = true
node_eq NodeStatus.invalidated NodeStatus.invalidated = true
node_eq NodeStatus.failed NodeStatus.failed = true
node_eq _ _ = false

abbrev pub workflow_eq : WorkflowStatus → WorkflowStatus → Bool
workflow_eq WorkflowStatus.pending WorkflowStatus.pending = true
workflow_eq WorkflowStatus.running WorkflowStatus.running = true
workflow_eq WorkflowStatus.paused WorkflowStatus.paused = true
workflow_eq WorkflowStatus.completed WorkflowStatus.completed = true
workflow_eq WorkflowStatus.cancelled WorkflowStatus.cancelled = true
workflow_eq _ _ = false

abbrev pub execution_eq : ExecutionStatus → ExecutionStatus → Bool
execution_eq ExecutionStatus.running ExecutionStatus.running = true
execution_eq ExecutionStatus.completed ExecutionStatus.completed = true
execution_eq ExecutionStatus.failed ExecutionStatus.failed = true
execution_eq _ _ = false

pub node_eq_iff : (a b : NodeStatus) → (node_eq a b ≡ true) ↔ (a ≡ b)
node_eq_iff a b = (ground arith, ground arith)

pub workflow_eq_iff : (a b : WorkflowStatus) → (workflow_eq a b ≡ true) ↔ (a ≡ b)
workflow_eq_iff a b = (ground arith, ground arith)
