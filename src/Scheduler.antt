-- ===== src/Scheduler.antt =====
-- `GraphScheduler` of app/application/executions/scheduler.py: which tasks may start.
pub mod Ready
pub mod Progress
use workfllow_execution.Prelude.{String, Bool, true, false, not, ◌&&◌, ◌||◌, if◌then◌else◌}
use workfllow_execution.Prelude.{Option, none, some, List, [], ◌∷◌, contains, lookup}
use workfllow_execution.Errors.{Result, ok, err, ◌>>=◌}
use workfllow_execution.Status.{NodeStatus, node_eq}
use workfllow_execution.Graph.{GraphNode, WorkflowGraph, is_task, task_nodes, predecessors}
use workfllow_execution.Graph.{require_node}

-- A dict from node ids to statuses.
abbrev pub Statuses : Type 0
Statuses = List (String × NodeStatus)

-- `{node_id for node_id, status in node_statuses.items() if status == COMPLETED}`
pub completed_ids : Statuses → List String
completed_ids [] = []
completed_ids ((k, s) ∷ d) =
    if node_eq s NodeStatus.completed then k ∷ completed_ids d else completed_ids d

-- `node_statuses.get(node_id, WAITING)`
abbrev pub status_or_waiting : Statuses → String → NodeStatus
status_or_waiting d k = elim (lookup k d) [ none ↦ NodeStatus.waiting | some s ↦ s ]

abbrev is_completed : Option NodeStatus → Bool
is_completed none = false
is_completed (some s) = node_eq s NodeStatus.completed

abbrev pub may_start : NodeStatus → Bool
may_start s = node_eq s NodeStatus.waiting || node_eq s NodeStatus.invalidated

module _ (g : WorkflowGraph) where
  all_satisfied : List String → List String → Result Bool
  all_satisfied completed [] = ok true
  all_satisfied completed (p ∷ ps) =
      let rest = all_satisfied completed ps in
      require_node g p >>= λ predecessor.
      if is_task predecessor && not (contains completed p) then ok false else rest

  pub predecessors_satisfied : String → List String → Result Bool
  unfolding all_satisfied
  predecessors_satisfied node_id completed = all_satisfied completed (predecessors g node_id)

  ready_among : Statuses → List GraphNode → Result (List GraphNode)
  ready_among statuses [] = ok []
  ready_among statuses (node ∷ nodes) =
      let rest = ready_among statuses nodes in
      if may_start (status_or_waiting statuses node.id)
      then (do
        satisfied ← predecessors_satisfied node.id (completed_ids statuses)
        ready ← rest
        ok (if satisfied then node ∷ ready else ready))
      else rest

  unfoldable pub ready_task_nodes : Statuses → Result (List GraphNode)
  unfolding ready_among predecessors_satisfied completed_ids
  ready_task_nodes statuses = ready_among statuses (task_nodes g)

  all_completed : Statuses → List GraphNode → Bool
  all_completed statuses [] = true
  all_completed statuses (node ∷ nodes) =
      is_completed (lookup node.id statuses) && all_completed statuses nodes

  unfoldable pub all_tasks_completed : Statuses → Bool
  unfolding all_completed
  all_tasks_completed statuses = all_completed statuses (task_nodes g)
