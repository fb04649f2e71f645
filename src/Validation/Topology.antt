-- ===== src/Validation/Topology.antt =====
-- app/domain/validation/graph.py: the shape of a workflow. A set of ids is a list here; in which
-- order Python runs over one is the parameter `set_order`.
pub mod Cycles
pub mod Search
pub mod Acyclic
pub mod Shape
pub mod Verdict
use workfllow_execution.Prelude.{ℕ, zero, suc, length, nat_eq, String, ◌==◌, Bool, true, false, not}
use workfllow_execution.Prelude.{if◌then◌else◌, Option, none, some, List, [], ◌∷◌, ◌++◌, keep, map}
use workfllow_execution.Prelude.{contains, lookup, insert, keys}
use workfllow_execution.Graph.{NodeKind, GraphEdge, Adjacency, neighbours, append_to, add_edges}
use workfllow_execution.Graph.Walk.{worklist, rounds}
use workfllow_execution.Validation.{Issue, WorkflowNode, Workflow, of_kind, task_nodes, node_ids}

-- The three sets that `visit` writes to.
pub record Dfs : Type 0 where
  pub visited : List String
  pub stack : List String
  pub cycle_nodes : List String

-- `stack.remove(node_id)`
abbrev pub discard : String → List String → List String
discard x xs = keep (λ y. not (y == x)) xs

-- `cycle_nodes.add(...)` and `return True`
abbrev pub mark : List String → Dfs → Option (Bool × Dfs)
mark xs s = some (true, record s { cycle_nodes = xs ++ s.cycle_nodes })

-- After the visit of a neighbor: a cycle below is one here too.
pub follow : String → (Dfs → Option (Bool × Dfs)) → Option (Bool × Dfs) → Option (Bool × Dfs)
follow node rest none = none
follow node rest (some (true, s)) = mark (node ∷ []) s
follow node rest (some (false, s)) = rest s

-- The loop over the neighbors of a node.
pub scan : (String → Dfs → Option (Bool × Dfs)) → String → List String → Dfs → Option (Bool × Dfs)
unfolding follow
scan visit node [] s = some (false, record s { stack = discard node s.stack })
scan visit node (n ∷ ns) s = elim (contains s.visited n) [
  | false ↦ follow node (scan visit node ns) (visit n s)
  | true ↦ elim (contains s.stack n) [
    | true ↦ mark (node ∷ n ∷ []) s
    | false ↦ scan visit node ns s
  ]
]

module _ (adjacency : Adjacency) where
  -- The fuel bounds the depth; `none` is a run out of it.
  pub visit : ℕ → String → Dfs → Option (Bool × Dfs)
  unfolding scan
  visit zero node s = none
  visit (suc fuel) node s =
      scan (visit fuel) node (neighbours adjacency node)
        (record s { visited = node ∷ s.visited; stack = node ∷ s.stack })

  abbrev pub next_root : (Dfs → Option Dfs) → Option (Bool × Dfs) → Option Dfs
  next_root rest none = none
  next_root rest (some (b, s)) = rest s

  pub visit_all : ℕ → List String → Dfs → Option Dfs
  unfolding visit
  visit_all fuel [] s = some s
  visit_all fuel (x ∷ xs) s = elim (contains s.visited x) [
    | true ↦ visit_all fuel xs s
    | false ↦ next_root (visit_all fuel xs) (visit fuel x s)
  ]

  abbrev pub no_dfs : Dfs
  no_dfs = record { visited = []; stack = []; cycle_nodes = [] }

  abbrev pub found_nodes : Option Dfs → Option (List String)
  found_nodes none = none
  found_nodes (some s) = some s.cycle_nodes

  -- `_find_cycle_nodes`
  unfoldable pub find_cycle_nodes : Option (List String)
  unfolding visit_all keys
  find_cycle_nodes = found_nodes (visit_all (suc (length adjacency)) (keys adjacency) no_dfs)

  -- `_reachable_from`
  unfoldable pub reachable_from : String → Option (List String)
  reachable_from start_id =
      worklist (neighbours adjacency) (rounds adjacency (start_id ∷ [])) (start_id ∷ []) []

abbrev pub issue : String → String → List String → List Issue
issue code at names = record { issue_code = code; at_field = at; names = names } ∷ []

abbrev pub unless_known : List String → String → String → List Issue
unless_known ids edge x =
    if contains ids x then [] else issue "INVALID_EDGE" "edges" (edge ∷ x ∷ [])

pub edge_issues : List String → List GraphEdge → List Issue
edge_issues ids [] = []
edge_issues ids (e ∷ es) =
    unless_known ids e.id e.source ++ (unless_known ids e.id e.target ++ edge_issues ids es)

-- `{node_id: [] for node_id in node_ids}`, into the dict so far
pub empty_adjacency : Adjacency → List String → Adjacency
empty_adjacency d [] = d
empty_adjacency d (x ∷ xs) = empty_adjacency (insert x [] d) xs

abbrev pub missing : List String → List String → List String
missing ids reachable = keep (λ x. not (contains reachable x)) ids

-- One issue that names the ids, if there are any.
abbrev pub issue_if_any : String → String → List String → List Issue
issue_if_any code at [] = []
issue_if_any code at (x ∷ xs) = issue code at (x ∷ xs)

abbrev pub ids : List WorkflowNode → List String
ids nodes = map (λ n. n.id) nodes

abbrev pub bind : {A B : Type 0} → Option A → (A → Option B) → Option B
bind none f = none
bind (some a) f = f a

module _ (set_order : List String → List String) where
  abbrev pub build_adjacency : Workflow → Adjacency
  build_adjacency workflow =
      add_edges (λ e. e.source) (λ e. e.target) (empty_adjacency [] (set_order (node_ids workflow)))
        workflow.edges

  -- The checks that need one start node.
  abbrev pub reach_issues : Workflow → List WorkflowNode → Option (List Issue)
  reach_issues workflow (start ∷ []) =
      bind (reachable_from (build_adjacency workflow) start.id) (λ reachable. some (
        issue_if_any "UNREACHABLE_NODES" "nodes" (missing (node_ids workflow) reachable)
        ++ issue_if_any "UNREACHABLE_END_NODE" "nodes"
            (missing (ids (of_kind NodeKind.end workflow)) reachable)))
  reach_issues workflow _ = some []

  abbrev pub start_issues : List WorkflowNode → List Issue
  start_issues (start ∷ []) = []
  start_issues _ = issue "INVALID_START_NODE" "nodes" []

  abbrev pub end_issues : List WorkflowNode → List Issue
  end_issues [] = issue "MISSING_END_NODE" "nodes" []
  end_issues (n ∷ ns) = []

  abbrev pub shape_issues : Workflow → Option (List Issue)
  shape_issues workflow =
      bind (reach_issues workflow (of_kind NodeKind.start workflow)) (λ unreached.
        bind (find_cycle_nodes (build_adjacency workflow)) (λ cycle. some (
          edge_issues (node_ids workflow) workflow.edges
          ++ (start_issues (of_kind NodeKind.start workflow)
              ++ (end_issues (of_kind NodeKind.end workflow)
                  ++ (unreached ++ issue_if_any "CYCLIC_GRAPH" "edges" cycle))))))

  unfoldable pub validate_graph_topology : Workflow → Option (List Issue)
  unfolding edge_issues empty_adjacency
  validate_graph_topology workflow = elim workflow.nodes [
    | [] ↦ some (issue "EMPTY_GRAPH" "nodes" [])
    | n ∷ ns ↦ shape_issues workflow
  ]

-- A task without a definition fails the assertion, which is `none` here.
abbrev pub unless_published : List String → WorkflowNode → Option (List Issue)
unless_published published node = elim node.node_definition_id [
  | none ↦ none
  | some d ↦ some (
      if contains published d
      then []
      else issue "UNKNOWN_NODE_DEFINITION" "nodes" (node.id ∷ d ∷ []))
]

-- The issues of each in turn.
unfoldable pub for_all : {A : Type 0} → (A → Option (List Issue)) → List A → Option (List Issue)
for_all f [] = some []
for_all f (x ∷ xs) = bind (f x) (λ issues. bind (for_all f xs) (λ rest. some (issues ++ rest)))

unfoldable pub validate_node_references : List String → Workflow → Option (List Issue)
unfolding for_all
validate_node_references published workflow =
    for_all (unless_published published) (task_nodes workflow)
