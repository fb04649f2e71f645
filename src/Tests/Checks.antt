-- ===== src/Tests/Checks.antt =====
-- The checks of definitions, on a line of two tasks and on a circle.
use workfllow_execution.Prelude.{
  ℕ, zero, suc, ◌+◌, String, ◌==◌, Bool, if◌then◌else◌, true, false, ◌≡◌, refl, ap, ◌≢◌, ◌↔◌,
}
use workfllow_execution.Prelude.{
  inl, inr, Option, none, some, List, [], ◌∷◌, ◌∈◌, lookup, insert, ◌⊎◌,
}
use workfllow_execution.Errors.{ok}
use workfllow_execution.Status.{NodeStatus}
use workfllow_execution.Json.{Dict, float, int, pos, str, obj, arr, field, end, cons, nil}
use workfllow_execution.Graph.{NodeKind, GraphNode, Adjacency, make_graph, neighbours}
use workfllow_execution.Graph.{add_edges, append_to}
use workfllow_execution.Graph.Parse.Print.{Binding, upstream}
use workfllow_execution.Graph.Walk.{worklist, rounds}
use workfllow_execution.Scheduler.{Statuses, ready_task_nodes}
use workfllow_execution.Scheduler.Ready.{MayStart}
use workfllow_execution.Scheduler.{all_tasks_completed}
use workfllow_execution.Scheduler.Progress.{Uncompleted, ready_task_nodes-validated}
use workfllow_execution.Definition.{OutputDecl, declared_output, is_table, get_in}
use workfllow_execution.Definition.Columns.{
  table_column_input_key, parse_table_column_input_key, parse-table_column_input_key,
}
use workfllow_execution.Definition.Aggregation.{
  Floats, numeric_values, count_non_empty, max_from, compute_table_aggregation,
}
use workfllow_execution.Definition.Aggregation.Order.{AreOrdered}
use workfllow_execution.Definition.Aggregation.Bounds.{IsAggregate, compute_table_aggregation_lem}
use workfllow_execution.Definition.Aggregation.Outputs.{
  build_table_task_outputs, build_table_task_outputs_lem,
}
use workfllow_execution.Definition.Output.{validate_declared_output}
use workfllow_execution.Definition.Output.Numeric.{NamesRow, NamesField}
use workfllow_execution.Definition.Output.Numeric.{validate_declared_output-numeric}
use workfllow_execution.Validation.{WorkflowNode, Workflow, is_task}
use workfllow_execution.Validation.Topology.{validate_graph_topology, find_cycle_nodes}
use workfllow_execution.Validation.Topology.{reachable_from}
use workfllow_execution.Validation.Topology.Acyclic.{Finds, find_cycle_nodes_lem}
use workfllow_execution.Validation.Topology.Shape.{IsSound}
use workfllow_execution.Validation.Topology.Verdict.{Verdict, validate_graph_topology_lem}
use workfllow_execution.Validation.Wiring.{FieldSets, validate_input_wiring}
use workfllow_execution.Validation.Wiring.Wired.{IsWired, validate_input_wiring_lem}
use workfllow_execution.Validation.Pipeline.{IsValid, validate_workflow_definition}
use workfllow_execution.Validation.Pipeline.{validate_workflow_definition_lem}
use workfllow_execution.Tests.{numbers, nodes, edges}

abbrev circle : Adjacency
circle = ("a", "b" ∷ []) ∷ ("b", "a" ∷ []) ∷ []

find_cycle_nodes_lem_example : Finds circle (find_cycle_nodes circle)
find_cycle_nodes_lem_example = find_cycle_nodes_lem circle

-- The second task takes an output of the first.
abbrev input : Binding
input = record { input_key = "cost"; locked = false; source = upstream "a" "cost" }

abbrev step : String → NodeKind → Option String → List Binding → WorkflowNode
step id kind definition inputs = record {
  id = id;
  kind = kind;
  node_definition_id = definition;
  label = none;
  name = none;
  inputs = some inputs;
}

abbrev pub workflow : Workflow
workflow = record {
  id = "w";
  slug = some "line";
  metadata_keys = [];
  nodes =
      step "in" NodeKind.start none []
      ∷ step "a" NodeKind.task (some "t") []
      ∷ step "b" NodeKind.task (some "t") (input ∷ [])
      ∷ step "out" NodeKind.end none []
      ∷ [];
  edges = edges;
}

abbrev pub in_order : List String → List String
in_order xs = xs

pub in_order-same : (xs : List String) (x : String) → (x ∈ in_order xs) ↔ (x ∈ xs)
in_order-same xs x = (λ h. h, λ h. h)

abbrev pub stripped : String → String
stripped s = s

pub defined :
    (n : WorkflowNode) → n ∈ workflow.nodes → is_task n ≡ true → n.node_definition_id ≢ none
defined n (inl e) t = absurd (cc (ap is_task e))
defined n (inr (inl e)) t = λ h. absurd (cc (ap (λ (k : WorkflowNode). k.node_definition_id) e))
defined n (inr (inr (inl e))) t =
    λ h. absurd (cc (ap (λ (k : WorkflowNode). k.node_definition_id) e))
defined n (inr (inr (inr (inl e)))) t = absurd (cc (ap is_task e))
defined n (inr (inr (inr (inr h)))) t = absurd h

validate_graph_topology_lem_example :
    Verdict (IsSound workflow) (validate_graph_topology in_order workflow)
validate_graph_topology_lem_example = validate_graph_topology_lem in_order in_order-same workflow

abbrev sets : FieldSets
sets = ("t", "cost" ∷ []) ∷ []

validate_input_wiring_lem_example :
    Verdict
      (IsWired stripped sets sets workflow)
      (validate_input_wiring stripped sets sets workflow)
validate_input_wiring_lem_example = validate_input_wiring_lem stripped sets sets workflow defined

validate_workflow_definition_lem_example :
    Verdict
      (IsValid in_order stripped ("t" ∷ []) sets none workflow)
      (validate_workflow_definition in_order stripped ("t" ∷ []) sets none workflow)
validate_workflow_definition_lem_example =
    validate_workflow_definition_lem in_order stripped ("t" ∷ []) sets none workflow in_order-same
      defined

passes : validate_graph_topology in_order workflow ≡ some []
unfolding validate_graph_topology reachable_from find_cycle_nodes worklist rounds lookup insert
    neighbours add_edges append_to
passes = refl

-- The first task is done.
abbrev statuses : Statuses
statuses = ("a", NodeStatus.completed) ∷ ("b", NodeStatus.waiting) ∷ []

idle :
    (n : GraphNode)
    → Uncompleted (make_graph (some "line") nodes edges) statuses n
    → MayStart statuses n.id
unfolding make_graph lookup
idle n (inl e, o) = absurd (o (ap (λ (k : GraphNode). lookup k.id statuses) e))
idle n (inr (inl e), o) = inr (inl (ap (λ (k : GraphNode). lookup k.id statuses) e))
idle n (inr (inr h), o) = absurd h

ready_task_nodes-validated_example :
    (n : GraphNode) × (ready : List GraphNode) × (ready_task_nodes
        (make_graph (some "line") nodes edges)
        statuses
      ≡ ok ready)
    × (n ∈ ready)
unfolding lookup all_tasks_completed make_graph
ready_task_nodes-validated_example =
    ready_task_nodes-validated in_order in_order-same workflow (some "line") nodes refl passes
      statuses (refl, (refl, tt)) idle refl

-- A form with one field for a number.
abbrev pub form_definition : Dict ℕ
form_definition =
    ("baseKind", str "userInput")
    ∷ ("output", obj (field "id" (str "cost") end))
    ∷ (
      "form",
      obj (
          field "fields"
            (arr (cons (obj (field "id" (str "cost") (field "type" (str "number") end))) nil)) end),
    )
    ∷ []

abbrev cost : OutputDecl
cost = record { id = "cost"; label = "cost" }

declares : declared_output form_definition ≡ ok (some cost)
unfolding declared_output lookup
declares = refl

declares_well : validate_declared_output form_definition ≡ ok []
unfolding validate_declared_output lookup insert
declares_well = refl

validate_declared_output-numeric_example :
    ((is_table (get_in form_definition "baseKind") ≡ true) × NamesRow form_definition "cost")
    ⊎ ((is_table (get_in form_definition "baseKind") ≡ false) × NamesField form_definition "cost")
validate_declared_output-numeric_example =
    validate_declared_output-numeric form_definition cost declares declares_well

parse-table_column_input_key_example :
    parse_table_column_input_key (table_column_input_key "price") ≡ some "price"
parse-table_column_input_key_example = parse-table_column_input_key "price" (λ e. absurd (cc))

abbrev total : List ℕ → ℕ
total [] = 0
total (x ∷ xs) = x + total xs

abbrev under : ℕ → ℕ → Bool
under x zero = false
under zero (suc y) = true
under (suc x) (suc y) = under x y

instance abbrev floats : Floats ℕ
floats = record {
  sum = total;
  divide = λ x n. x;
  less = under;
  strip = λ s. s;
  parse = λ s. if s == "7" then some 7 else none;
  strip-empty = refl;
}

-- The prices 3, 7, blank and 5.
abbrev priced : List (Dict ℕ)
priced =
    (("price", float 3) ∷ [])
    ∷ (("price", str "7") ∷ [])
    ∷ (("price", str "") ∷ [])
    ∷ (("price", int (pos 5)) ∷ [])
    ∷ []

under-asymmetric : (x y : ℕ) → under x y ≡ true → under y x ≡ false
under-asymmetric x zero e = absurd (cc)
under-asymmetric zero (suc y) e = refl
under-asymmetric (suc x) (suc y) e = under-asymmetric x y e

under-transitive : (x y z : ℕ) → under y x ≡ false → under z y ≡ false → under z x ≡ false
under-transitive zero y z e e' = refl
under-transitive (suc x) zero z e e' = absurd (cc)
under-transitive (suc x) (suc y) zero e e' = absurd (cc)
under-transitive (suc x) (suc y) (suc z) e e' = under-transitive x y z e e'

under-orders : (values : List ℕ) → AreOrdered under values
under-orders values = record {
  asymmetric = λ x y _ _ e. under-asymmetric x y e;
  transitive = λ x y z _ _ _ e e'. under-transitive x y z e e';
}

compute_table_aggregation_lem_example : IsAggregate priced "price" "max" (float 7)
unfolding compute_table_aggregation numeric_values count_non_empty max_from lookup
compute_table_aggregation_lem_example =
    compute_table_aggregation_lem priced "price" "max" (under-orders _)

-- The aggregation "top" is given twice, and the operation of the second is kept.
abbrev top : String → Dict ℕ
top operation = ("id", str "top") ∷ ("columnId", str "price") ∷ ("operation", str operation) ∷ []

build_table_task_outputs_lem_example :
    lookup "top" (build_table_task_outputs [] priced (top "sum" ∷ top "max" ∷ []))
    ≡ some (compute_table_aggregation priced "price" "max")
unfolding lookup
build_table_task_outputs_lem_example =
    build_table_task_outputs_lem [] priced (top "sum" ∷ top "max" ∷ []) "top"
