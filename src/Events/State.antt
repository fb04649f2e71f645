-- ===== src/Events/State.antt =====
-- app/application/events/handlers/workflow_state.py: the reducer of the workflow projection.
pub mod Total
pub mod Accepts
use workfllow_execution.Prelude.{ℕ, String, Bool, true, false, not, if◌then◌else◌}
use workfllow_execution.Prelude.{Option, none, some, List, [], ◌∷◌, lookup, insert}
use workfllow_execution.Errors.{Result, ok, err, ◌>>=◌, map_ok}
use workfllow_execution.Status.{NodeStatus, WorkflowStatus, node_eq}
use workfllow_execution.Json.{Dict, Python}
use workfllow_execution.Events
use workfllow_execution.Events.{EventType, Payload, StoredEvent}

-- The dict of one node in the projection; an absent key is `none`.
pub record NodeState (F : Type 0) : Type 0 where
  pub workflow_node_id : Option String
  pub workflow_node_instance_id : Option String
  pub status : Option NodeStatus
  pub execution_number : Option ℕ
  pub outputs : Option (Dict F)
  pub cost_contribution : Option F
  pub error_message : Option String
  pub reason : Option String

pub record WorkflowState (F : Type 0) : Type 0 where
  pub status : WorkflowStatus
  pub last_sequence : ℕ
  pub nodes : List (String × NodeState F)
  pub total : Option F
  pub workflow_definition_id : Option String
  pub workflow_definition_version_id : Option String

-- A key whose new value is None keeps its old one.
abbrev updated {ℓ} : {A : Type ℓ} → Option A → Option A → Option A
updated none old = old
updated (some v) old = some v

abbrev counts_of : Option NodeStatus → Bool
counts_of none = false
counts_of (some s) = node_eq s NodeStatus.completed

module _ {F : Type 0} where
  abbrev pub empty_node : NodeState F
  empty_node = record {
    workflow_node_id = none;
    workflow_node_instance_id = none;
    status = none;
    execution_number = none;
    outputs = none;
    cost_contribution = none;
    error_message = none;
    reason = none;
  }

  abbrev pub initial_workflow_state : WorkflowState F
  initial_workflow_state = record {
    status = WorkflowStatus.pending;
    last_sequence = 0;
    nodes = [];
    total = none;
    workflow_definition_id = none;
    workflow_definition_version_id = none;
  }

  -- `dict(nodes.get(workflow_node_id, {}))`
  abbrev pub node_or_empty : List (String × NodeState F) → String → NodeState F
  node_or_empty nodes id = elim (lookup id nodes) [ none ↦ empty_node | some n ↦ n ]

  -- The keyword arguments of `_upsert_node_state` for each type of event.
  abbrev pub ready_update : String → NodeState F
  ready_update i = record empty_node {
    workflow_node_instance_id = some i;
    status = some NodeStatus.pending;
  }

  abbrev pub started_update : String → Payload F → NodeState F
  started_update i p = record empty_node {
    workflow_node_instance_id = some i;
    status = some NodeStatus.running;
    execution_number = Events.execution_number p;
  }

  abbrev pub completed_update : String → Payload F → NodeState F
  completed_update i p = record empty_node {
    workflow_node_instance_id = some i;
    status = some NodeStatus.completed;
    execution_number = Events.execution_number p;
    outputs = some (Events.outputs p);
    cost_contribution = Events.cost_contribution p;
  }

  abbrev pub failed_update : String → Payload F → NodeState F
  failed_update i p = record empty_node {
    workflow_node_instance_id = some i;
    status = some NodeStatus.failed;
    execution_number = Events.execution_number p;
    error_message = Events.error_message p;
  }

  -- `_upsert_node_state`; the fields of `updates` are its keyword arguments.
  pub upsert_node_state : String → NodeState F → WorkflowState F → WorkflowState F
  upsert_node_state id updates state =
      let old = node_or_empty state.nodes id in
      let new : NodeState F = record {
        workflow_node_id = some id;
        workflow_node_instance_id =
            updated updates.workflow_node_instance_id old.workflow_node_instance_id;
        status = updated updates.status old.status;
        execution_number = updated updates.execution_number old.execution_number;
        outputs = updated updates.outputs old.outputs;
        cost_contribution = updated updates.cost_contribution old.cost_contribution;
        error_message = updated updates.error_message old.error_message;
        reason = updated updates.reason old.reason;
      } in
      record state { nodes = insert id new state.nodes }

  -- `_invalidate_node_state`
  pub invalidate_node_state : String → String → Option String → WorkflowState F → WorkflowState F
  invalidate_node_state id instance_id reason state =
      let old = node_or_empty state.nodes id in
      let new = record old {
        workflow_node_id = some id;
        workflow_node_instance_id = some instance_id;
        status = some NodeStatus.invalidated;
        reason = updated reason old.reason;
        outputs = none;
        cost_contribution = none;
      } in
      record state { nodes = insert id new state.nodes }

  -- `node.get("status") == "COMPLETED"`
  abbrev pub counts : NodeState F → Bool
  counts n = counts_of n.status

module _ {F : Type 0} ⦃py : Python F⦄ where
  -- The sum so far, and whether a contribution was found.
  abbrev add_contribution : NodeState F → F × Bool → F × Bool
  add_contribution n (total, found) =
      if counts n
      then elim n.cost_contribution [ none ↦ (total, found) | some c ↦ (py.add total c, true) ]
      else (total, found)

  pub sum_contributions : List (String × NodeState F) → F × Bool → F × Bool
  sum_contributions [] acc = acc
  sum_contributions ((k, n) ∷ nodes) acc = sum_contributions nodes (add_contribution n acc)

  abbrev rounded : F × Bool → Option F
  rounded (total, found) = if found then some (py.round2 total) else none

  -- The total that the node states of a projection give.
  unfoldable pub total_of : List (String × NodeState F) → Option F
  unfolding sum_contributions
  total_of nodes = rounded (sum_contributions nodes (py.zero_float, false))

  -- `_recompute_total`
  pub recompute_total : WorkflowState F → WorkflowState F
  unfolding total_of
  recompute_total state = record state { total = total_of state.nodes }

  -- One branch of the reducer for each type of event, on the state with the new `last_sequence`.
  pub apply_event : EventType → Payload F → WorkflowState F → Result (WorkflowState F)
  unfolding upsert_node_state invalidate_node_state recompute_total
  apply_event EventType.workflow_started p s = do
    d ← Events.definition_id p
    v ← Events.definition_version_id p
    ok (record s {
      status = WorkflowStatus.running;
      workflow_definition_id = some d;
      workflow_definition_version_id = some v;
    })
  apply_event EventType.workflow_paused p s = ok (record s { status = WorkflowStatus.paused })
  apply_event EventType.workflow_resumed p s = ok (record s { status = WorkflowStatus.running })
  apply_event EventType.workflow_completed p s = ok (record s { status = WorkflowStatus.completed })
  apply_event EventType.workflow_cancelled p s = ok (record s { status = WorkflowStatus.cancelled })
  apply_event EventType.node_ready p s = do
    n ← Events.node_id p
    i ← Events.node_instance_id p
    ok (upsert_node_state n (ready_update i) s)
  apply_event EventType.node_started p s = do
    n ← Events.node_id p
    i ← Events.node_instance_id p
    ok (upsert_node_state n (started_update i p) s)
  apply_event EventType.node_completed p s = do
    i ← Events.node_instance_id p
    n ← Events.node_id p
    ok (recompute_total (upsert_node_state n (completed_update i p) s))
  apply_event EventType.node_failed p s = do
    n ← Events.node_id p
    i ← Events.node_instance_id p
    ok (upsert_node_state n (failed_update i p) s)
  apply_event EventType.node_invalidated p s = do
    n ← Events.node_id p
    i ← Events.node_instance_id p
    ok (recompute_total (invalidate_node_state n i (Events.reason p) s))

  unfoldable pub apply_workflow_projection_event :
      WorkflowState F → StoredEvent F → Result (WorkflowState F)
  unfolding apply_event
  apply_workflow_projection_event state event =
      apply_event event.event_type event.payload
        (record state { last_sequence = event.sequence_number })
