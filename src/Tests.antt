-- ===== src/Tests.antt =====
-- Concrete data: a workflow of two tasks one after the other, and an instance of it. Floating-point
-- numbers are natural numbers here.
pub mod Log
pub mod Engine
pub mod Checks
pub mod Versions
use workfllow_execution.Prelude.{ℕ, ◌+◌, nat_eq, String, Bool, true, false, not, ◌≡◌, refl}
use workfllow_execution.Prelude.{Option, none, some, List, [], ◌∷◌}
use workfllow_execution.Errors.{ok}
use workfllow_execution.Status.{NodeStatus, WorkflowStatus}
use workfllow_execution.Json.{Json, Dict, Python, ℤ, pos, negsuc, str, obj, float, field}
use workfllow_execution.Json.{Fields, end}
use workfllow_execution.Events.Store.{Hashing}
use workfllow_execution.Executor.{ExecutionContext}
use workfllow_execution.Graph.Parse.Print.{Node, definition_json}
use workfllow_execution.Graph.{GraphNode, GraphEdge, WorkflowGraph, NodeKind, make_graph}
use workfllow_execution.Orchestrator.{Services}
use workfllow_execution.Tables.{Tables, WorkflowInstance, NodeInstance}

abbrev natural : ℤ → ℕ
natural (pos n) = n
natural (negsuc n) = 0

abbrev text_of : Json ℕ → String
text_of (str s) = s
text_of _ = ""

instance abbrev pub numbers : Python ℕ
numbers = record {
  zero_float = 0;
  add = λ x y. x + y;
  round2 = λ x. x;
  of_int = natural;
  float_eq = nat_eq;
  float_eq_int = λ x n. nat_eq x (natural n);
  is_nonzero = λ x. not (nat_eq x 0);
  to_str = text_of;
  to_str-str = λ s. refl;
}

abbrev definition_for : NodeKind → Option String
definition_for NodeKind.task = some "t"
definition_for _ = none

abbrev pub node : String → NodeKind → GraphNode
node id kind = record {
  id = id;
  kind = kind;
  node_definition_id = definition_for kind;
  label = none;
  inputs = [];
}

abbrev pub edge : String → String → GraphEdge
edge source target = record { id = "e"; source = source; target = target }

abbrev pub nodes : List GraphNode
nodes =
    node "in" NodeKind.start
    ∷ node "a" NodeKind.task
    ∷ node "b" NodeKind.task
    ∷ node "out" NodeKind.end
    ∷ []

abbrev pub edges : List GraphEdge
edges = edge "in" "a" ∷ edge "a" "b" ∷ edge "b" "out" ∷ []

-- The nodes as a client writes them.
abbrev pub drafts : List Node
drafts = Node.start "in" ∷ Node.task "a" "t" [] ∷ Node.task "b" "t" [] ∷ Node.end_of "out" ∷ []

abbrev pub line : WorkflowGraph
line = make_graph (some "line") nodes edges

abbrev pub row : String → NodeStatus → NodeInstance
row id status = record {
  id = id;
  workflow_node_id = id;
  node_definition_version_id = "v";
  status = status;
  current_execution = 0;
}

abbrev pub instance_in : WorkflowStatus → WorkflowInstance ℕ
instance_in status = record {
  id = "i";
  name = "n";
  workflow_definition_id = "d";
  workflow_definition_version_id = "dv";
  status = status;
  current_revision = 1;
  created_by = none;
  instance_metadata = [];
  seed_defaults_json = [];
  completed_at = none;
}

-- The first task may be done, and no event is stored.
abbrev pub tables_in : WorkflowStatus → Tables ℕ
tables_in status = record {
  instance_row = some (instance_in status);
  node_instances = ("a", row "a" NodeStatus.pending) ∷ ("b", row "b" NodeStatus.waiting) ∷ [];
  executions = [];
  snapshot = some (definition_json "line" drafts edges);
  events = [];
  projection = none;
  node_projections = [];
  now = 7;
}

abbrev pub definition : Dict ℕ
definition = ("baseKind", str "userInput") ∷ ("output", obj (field "id" (str "cost") end)) ∷ []

abbrev pub hashing : Hashing ℕ
hashing = record { hash_chain_enabled = true; compute_event_hash = λ previous n t p. "hash" }

abbrev pub services : Services ℕ
services = record {
  hashing = hashing;
  workflow_definition_version = λ id. none;
  node_definition_version = λ id. some definition;
  executor = λ kind. ok (λ context outputs. ok outputs);
  strip = λ s. s;
}

abbrev pub entered : Dict ℕ
entered = ("cost", float 5) ∷ []

abbrev pub context : ExecutionContext ℕ
context = record {
  workflow_node_instance_id = "a";
  workflow_node_id = "a";
  node_definition_version_id = "v";
  base_kind = str "userInput";
  definition_json = definition;
  resolved_inputs = ("rate", float 3) ∷ [];
  locked_input_keys = "rate" ∷ [];
  execution_number = 1;
  seed_defaults = [];
}
