-- ===== src/Graph.antt =====
-- `WorkflowGraph` of app/domain/graph/workflow_graph.py: the nodes and edges of a definition and
-- the two adjacency dicts that `__post_init__` builds. Sets of node ids are lists of texts.
pub mod Parse
pub mod Edges
pub mod Nodes
pub mod Walk
pub mod Downstream
use workfllow_execution.Prelude.{ℕ, nat_eq, length, String, ◌==◌, ◌≡◌, Bool, true, false}
use workfllow_execution.Prelude.{if◌then◌else◌, Option, none, some, List, [], ◌∷◌, ◌++◌, map}
use workfllow_execution.Prelude.{lookup, insert, keep}
use workfllow_execution.Errors.{Result, ok, err, or_raise, key_error, value_error}

pub data NodeKind : Type 0 where
  start task end : NodeKind

pub data InputSourceKind : Type 0 where
  upstream metadata : InputSourceKind

pub record GraphInputBinding : Type 0 where
  pub input_key : String
  pub kind : InputSourceKind
  pub source_node_id : Option String
  pub output_key : Option String
  pub metadata_key : Option String
  pub locked : Bool

pub record GraphNode : Type 0 where
  pub id : String
  pub kind : NodeKind
  pub node_definition_id : Option String
  pub label : Option String
  pub inputs : List GraphInputBinding

pub record GraphEdge : Type 0 where
  pub id : String
  pub source : String
  pub target : String

-- A dict from node ids to lists of node ids.
abbrev pub Adjacency : Type 0
Adjacency = List (String × List String)

pub record WorkflowGraph : Type 0 where
  pub nodes : List GraphNode
  pub edges : List GraphEdge
  pub description : Option String
  pub nodes_by_id : List (String × GraphNode)
  pub adjacency : Adjacency
  pub reverse_adjacency : Adjacency

abbrev pub kind_eq : NodeKind → NodeKind → Bool
kind_eq NodeKind.start NodeKind.start = true
kind_eq NodeKind.task NodeKind.task = true
kind_eq NodeKind.end NodeKind.end = true
kind_eq _ _ = false

abbrev pub is_task : GraphNode → Bool
is_task node = kind_eq node.kind NodeKind.task

-- `{node.id: node for node in nodes}`, into the dict of the nodes before
pub index_nodes : List (String × GraphNode) → List GraphNode → List (String × GraphNode)
index_nodes d [] = d
index_nodes d (n ∷ ns) = index_nodes (insert n.id n d) ns

-- `{node.id: [] for node in nodes}`
pub empty_lists : Adjacency → List GraphNode → Adjacency
empty_lists d [] = d
empty_lists d (n ∷ ns) = empty_lists (insert n.id [] d) ns

-- `if key in d: d[key].append(value)`
unfoldable pub append_to : String → String → Adjacency → Adjacency
append_to key value [] = []
append_to key value ((k, vs) ∷ d) =
    if k == key then (k, vs ++ value ∷ []) ∷ d else (k, vs) ∷ append_to key value d

-- The loop over the edges, for one of the two dicts: `tail` is the end of an edge at which it is
-- filed and `head` the other.
unfoldable pub add_edges :
    (GraphEdge → String) → (GraphEdge → String) → Adjacency → List GraphEdge → Adjacency
add_edges tail head d [] = d
add_edges tail head d (e ∷ es) = add_edges tail head (append_to (tail e) (head e) d) es

-- The constructor with `__post_init__`.
unfoldable pub make_graph : Option String → List GraphNode → List GraphEdge → WorkflowGraph
unfolding index_nodes empty_lists append_to add_edges lookup insert
make_graph description nodes edges = record {
  nodes = nodes;
  edges = edges;
  description = description;
  nodes_by_id = index_nodes [] nodes;
  adjacency = add_edges (λ e. e.source) (λ e. e.target) (empty_lists [] nodes) edges;
  reverse_adjacency = add_edges (λ e. e.target) (λ e. e.source) (empty_lists [] nodes) edges;
}

-- `d.get(key, ())`
unfoldable pub neighbours : Adjacency → String → List String
neighbours d key = elim (lookup key d) [ none ↦ [] | some vs ↦ vs ]

unfoldable pub get_node : WorkflowGraph → String → Option GraphNode
get_node g node_id = lookup node_id g.nodes_by_id

unfoldable pub require_node : WorkflowGraph → String → Result GraphNode
unfolding get_node
require_node g node_id = or_raise (get_node g node_id) key_error

abbrev the_start : List GraphNode → Result GraphNode
the_start [] = err value_error
the_start (n ∷ []) = ok n
the_start (n ∷ m ∷ ns) = err value_error

unfoldable pub start_node : WorkflowGraph → Result GraphNode
start_node g = the_start (keep (λ n. kind_eq n.kind NodeKind.start) g.nodes)

abbrev pub end_nodes : WorkflowGraph → List GraphNode
end_nodes g = keep (λ n. kind_eq n.kind NodeKind.end) g.nodes

abbrev pub task_nodes : WorkflowGraph → List GraphNode
task_nodes g = keep is_task g.nodes

unfoldable pub successors : WorkflowGraph → String → List String
unfolding neighbours
successors g node_id = neighbours g.adjacency node_id

unfoldable pub predecessors : WorkflowGraph → String → List String
unfolding neighbours
predecessors g node_id = neighbours g.reverse_adjacency node_id
