-- ===== src/Tests/Log.antt =====
-- Runs of the event log and of the graph at concrete inputs.
use workfllow_execution.Prelude.{
  ℕ, ◌+◌, ◌⊎◌, String, true, ◌≡◌, ◌≢◌, refl, ap, ◌∙◌, ◌↔◌, ◌∈◌, inl, inr, contains,
}
use workfllow_execution.Prelude.{
  Option, none, some, List, [], ◌∷◌, length, ◌++◌, lookup, insert, arith, if◌then◌else◌, IsDict,
}
use mathlib.Core.Path.{subst}
use workfllow_execution.Errors.{ok, err, key_error}
use workfllow_execution.Status.{NodeStatus, WorkflowStatus}
use workfllow_execution.Status.NodeMachine
use workfllow_execution.Status.WorkflowMachine
use workfllow_execution.Events.{EventType, Payload, StoredEvent}
use workfllow_execution.Events.State.{
  initial_workflow_state, WorkflowState, apply_workflow_projection_event,
}
use workfllow_execution.Events.State.Total.{apply-IsTotal, IsTotal}
use workfllow_execution.Events.Store.{append, dispatch, default_registry, hash_of}
use workfllow_execution.Events.Append.{latest}
use workfllow_execution.Events.Store.Dispatch.{
  dispatch-project, views, Views, after, project, project_nodes,
}
use workfllow_execution.Events.Rebuild.{rebuild}
use workfllow_execution.Events.Rebuild.Log.{IsLogged, replay}
use workfllow_execution.Events.Rebuild.Exact.{rebuild_lem}
use workfllow_execution.Events.Rebuild.Appended.{append_lem, append_retry, new_event}
use workfllow_execution.Events.Rebuild.Chain.{append-Chained, Chained}
use workfllow_execution.Graph.{
  NodeKind, WorkflowGraph, GraphNode, make_graph, successors, predecessors, get_node, is_task,
  task_nodes, neighbours,
}
use workfllow_execution.Graph.Edges.{successors_and_predecessors, heads_at, ids}
use workfllow_execution.Graph.Walk.{Reach, worklist_lem, Visits, worklist, rounds}
use workfllow_execution.Graph.Downstream.{
  downstream_task_nodes_missing, downstream_task_nodes_lem, downstream_task_nodes, Downstream,
}
use workfllow_execution.Scheduler.{Statuses, ready_task_nodes, all_tasks_completed}
use workfllow_execution.Scheduler.Ready.{ready_task_nodes_lem, all_tasks_completed_lem, IsReady}
use workfllow_execution.Tables.{Tables}
use workfllow_execution.Tests.{numbers, node, nodes, edge, edges, line, tables_in, hashing, entered}

abbrev begun : Payload ℕ
begun = Payload.node_started "a" "a" 1

abbrev empty : Tables ℕ
empty = tables_in WorkflowStatus.running

empty-IsLogged : IsLogged empty
unfolding replay
empty-IsLogged = record { numbered = tt; replayed = refl }

-- One event is stored.
abbrev one_event : Tables ℕ
one_event = (append hashing [] EventType.node_started begun none empty).1

one_event-IsLogged : IsLogged one_event
one_event-IsLogged =
    (append_lem hashing EventType.node_started begun none empty empty-IsLogged refl).2

append_lem_example :
    ((append hashing [] EventType.node_started begun none empty).0
      ≡ ok (new_event hashing EventType.node_started begun none empty))
    × ((append hashing [] EventType.node_started begun none empty).1.events
        ≡ empty.events ++ new_event hashing EventType.node_started begun none empty ∷ [])
    × IsLogged (append hashing [] EventType.node_started begun none empty).1
append_lem_example = append_lem hashing EventType.node_started begun none empty empty-IsLogged refl

rebuild_lem_example :
    ((rebuild one_event).0 ≡ ok (length one_event.events))
    × (views (rebuild one_event).1 ≡ views one_event)
    × ((rebuild one_event).1.events ≡ one_event.events)
rebuild_lem_example = rebuild_lem one_event one_event-IsLogged

append-Chained_example :
    ((append hashing [] EventType.node_started begun none empty).0
      ≡ ok (new_event hashing EventType.node_started begun none empty))
    × Chained hashing none (append hashing [] EventType.node_started begun none empty).1.events
append-Chained_example =
    append-Chained hashing EventType.node_started begun none empty refl empty-IsLogged refl tt

abbrev rival : StoredEvent ℕ
rival = record {
  sequence_number = 1;
  event_type = EventType.node_started;
  payload = begun;
  previous_hash = none;
  current_hash = some "other";
  created_by = none;
}

append_retry_example :
    (e : StoredEvent ℕ) × ((append hashing
        ((rival ∷ []) ∷ [])
        EventType.node_started
        begun
        none
        empty).0
      ≡ ok e)
    × (e.sequence_number ≡ length empty.events + 2)
    × (e.previous_hash ≡ hash_of (latest empty.events))
    × (e.current_hash
        ≡ some (
            hashing.compute_event_hash e.previous_hash
              (length empty.events + 1)
              EventType.node_started
              begun))
append_retry_example =
    append_retry hashing EventType.node_started begun none rival empty empty-IsLogged refl refl refl

from-b : (y : String) → y ∈ successors line "b" → (y ≡ "b") ⊎ (y ≡ "out")
unfolding make_graph successors
from-b y (inl h) = inr h
from-b y (inr h) = absurd h

from-out : (y : String) → y ∈ successors line "out" → ⊥
unfolding make_graph successors
from-out y h = h

-- From the first task a walk meets the second one and the end.
Downstream-a : (x : String) → Downstream line "a" x → (x ≡ "b") ⊎ (x ≡ "out")
unfolding make_graph successors
Downstream-a x (Reach.seed (inl h)) = inl h
Downstream-a x (Reach.seed (inr h)) = absurd h
Downstream-a y (Reach.step {x} r h) = elim (Downstream-a x r) [
  | inl b ↦ from-b y (subst (λ z. y ∈ successors line z) b h)
  | inr o ↦ absurd (from-out y (subst (λ z. y ∈ successors line z) o h))
]

found-b : get_node line "b" ≡ some (node "b" NodeKind.task)
unfolding make_graph get_node
found-b = refl

found-out : get_node line "out" ≡ some (node "out" NodeKind.end)
unfolding make_graph get_node
found-out = refl

none-some : {A : Type 0} {o : Option A} {a : A} → o ≡ some a → o ≢ none
none-some h e = absurd (cc)

Downstream-known : (x : String) → Downstream line "a" x → get_node line x ≢ none
Downstream-known x r = elim (Downstream-a x r) [
  | inl b ↦ none-some (ap (get_node line) b ∙ found-b)
  | inr o ↦ none-some (ap (get_node line) o ∙ found-out)
]

downstream_task_nodes_lem_example :
    (tasks : List GraphNode) × (downstream_task_nodes line "a" ≡ ok tasks)
    × ((n : GraphNode)
        → (n ∈ tasks) ↔ (
            (x : String) × Downstream line "a" x × (get_node line x ≡ some n) × (is_task n ≡ true)))
downstream_task_nodes_lem_example = downstream_task_nodes_lem line "a" Downstream-known

-- A graph with an edge to an id that is no node.
abbrev broken : WorkflowGraph
broken = make_graph none (node "a" NodeKind.task ∷ []) (edge "a" "x" ∷ [])

to-x : "x" ∈ successors broken "a"
unfolding make_graph successors
to-x = inl refl

no-x : get_node broken "x" ≡ none
unfolding make_graph get_node
no-x = refl

downstream_task_nodes_missing_example : downstream_task_nodes broken "a" ≡ err key_error
downstream_task_nodes_missing_example =
    downstream_task_nodes_missing broken "a" "x" (Reach.seed to-x) no-x

worklist_lem_example :
    Visits line.adjacency
      ("a" ∷ [])
      (worklist (neighbours line.adjacency) (rounds line.adjacency ("a" ∷ [])) ("a" ∷ []) [])
worklist_lem_example =
    worklist_lem line.adjacency ("a" ∷ []) (rounds line.adjacency ("a" ∷ [])) (omega arith)

successors_and_predecessors_example :
    (successors line "a" ≡ (
      if contains (ids nodes) "a" then heads_at (λ e. e.source) (λ e. e.target) "a" edges else []))
    × (predecessors line "a" ≡ (
        if contains (ids nodes) "a"
        then heads_at (λ e. e.target) (λ e. e.source) "a" edges
        else []))
successors_and_predecessors_example = successors_and_predecessors (some "line") nodes edges "a"

found-a : get_node line "a" ≡ some (node "a" NodeKind.task)
unfolding make_graph get_node
found-a = refl

all_tasks_completed_lem_example :
    (all_tasks_completed line [] ≡ true)
    ↔ ((n : GraphNode) → n ∈ task_nodes line → lookup n.id [] ≡ some NodeStatus.completed)
all_tasks_completed_lem_example = all_tasks_completed_lem line []

-- A task becomes pending and is invalidated.
set_aside : NodeMachine.Avoiding NodeStatus.running NodeStatus.waiting NodeStatus.invalidated
unfolding NodeMachine.transition
set_aside =
    NodeMachine.Avoiding.next NodeStatus.invalidated
      (NodeMachine.Avoiding.next NodeStatus.pending (NodeMachine.Avoiding.here (λ e. absurd (cc)))
        refl (λ e. absurd (cc)))
      refl (λ e. absurd (cc))

Avoiding-uncompleted_example : NodeStatus.invalidated ≢ NodeStatus.completed
Avoiding-uncompleted_example =
    NodeMachine.Avoiding-uncompleted NodeStatus.waiting NodeStatus.invalidated (λ e. absurd (cc))
      set_aside

is_terminal-Steps_example : (WorkflowMachine.is_terminal WorkflowStatus.completed ≡ true) ↔ (
    (t : WorkflowStatus)
    → WorkflowMachine.Steps WorkflowStatus.completed t
    → t ≡ WorkflowStatus.completed)
is_terminal-Steps_example = WorkflowMachine.is_terminal-Steps WorkflowStatus.completed

cancelled-Steps_example : WorkflowStatus.cancelled ≡ WorkflowStatus.cancelled
cancelled-Steps_example = WorkflowMachine.cancelled-Steps WorkflowMachine.Steps.here

abbrev paid : Payload ℕ
paid = Payload.completed "a" "a" 1 entered (some 5)

abbrev payment : StoredEvent ℕ
payment = record {
  sequence_number = 1;
  event_type = EventType.node_completed;
  payload = paid;
  previous_hash = none;
  current_hash = none;
  created_by = none;
}

abbrev after_payment : WorkflowState ℕ
after_payment = elim (apply_workflow_projection_event initial_workflow_state payment) [
  | ok s ↦ s
  | err e ↦ initial_workflow_state
]

initial-IsTotal : IsTotal {F = ℕ} initial_workflow_state
initial-IsTotal = refl

apply-IsTotal_example : IsTotal after_payment
unfolding apply_workflow_projection_event
apply-IsTotal_example =
    apply-IsTotal initial_workflow_state after_payment payment initial-IsTotal tt refl

abbrev paid_views : Views ℕ
paid_views = record { projection = some after_payment; node_projections = ("a", entered) ∷ [] }

payment-project : project payment (views empty) ≡ ok paid_views
unfolding project project_nodes apply_workflow_projection_event insert
payment-project = refl

dispatch-project_example :
    dispatch default_registry payment empty ≡ (ok tt, after payment paid_views empty)
dispatch-project_example = dispatch-project payment empty paid_views payment-project

-- The first task is done, the second one waits.
abbrev halfway : Statuses
halfway = ("a", NodeStatus.completed) ∷ ("b", NodeStatus.waiting) ∷ []

halfway-IsDict : IsDict halfway
unfolding lookup
halfway-IsDict = (refl, (refl, tt))

in-before : (p : String) → p ∈ predecessors line "a" → get_node line p ≢ none
unfolding make_graph predecessors get_node
in-before p (inl h) = none-some (ap (get_node line) h ∙ refl)
in-before p (inr h) = absurd h

a-before : (p : String) → p ∈ predecessors line "b" → get_node line p ≢ none
unfolding make_graph predecessors
a-before p (inl h) = none-some (ap (get_node line) h ∙ found-a)
a-before p (inr h) = absurd h

line-known :
    (n : GraphNode) (p : String)
    → n ∈ task_nodes line
    → p ∈ predecessors line n.id
    → get_node line p ≢ none
unfolding make_graph
line-known n p (inl h) q = in-before p (subst (λ m. p ∈ predecessors line m.id) h q)
line-known n p (inr (inl h)) q = a-before p (subst (λ m. p ∈ predecessors line m.id) h q)
line-known n p (inr (inr h)) q = absurd h

ready_task_nodes_lem_example :
    (ready : List GraphNode) × (ready_task_nodes line halfway ≡ ok ready)
    × ((n : GraphNode) → (n ∈ ready) ↔ ((n ∈ task_nodes line) × IsReady line halfway n))
ready_task_nodes_lem_example = ready_task_nodes_lem line halfway halfway-IsDict line-known
