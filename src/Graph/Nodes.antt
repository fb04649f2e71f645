-- ===== src/Graph/Nodes.antt =====
-- Looking a node up by its id.
use workfllow_execution.Prelude.{String, eq_iff, ◌≡◌}
use workfllow_execution.Prelude.{Option, none, some, List, [], ◌∷◌, arith}
use workfllow_execution.Prelude.{lookup, insert, lookup-insert, ◌∈◌, ◌⊎◌, inl, inr, ◌≢◌}
use workfllow_execution.Graph.Edges.{ids}
use workfllow_execution.Errors.{ok, err, key_error}
use workfllow_execution.Graph.{GraphNode, GraphEdge, WorkflowGraph, index_nodes, make_graph}
use workfllow_execution.Graph.{get_node, require_node}

module _ (g : WorkflowGraph) (node_id : String) where
  pub require_node-some :
      (n : GraphNode) → get_node g node_id ≡ some n → require_node g node_id ≡ ok n
  unfolding require_node
  require_node-some n e = rw e

  pub require_node-none : get_node g node_id ≡ none → require_node g node_id ≡ err key_error
  unfolding require_node
  require_node-none e = rw e

-- A dict of nodes that files each node under its id.
abbrev IsIndex : List (String × GraphNode) → Type 0
IsIndex d = (x : String) (n : GraphNode) → lookup x d ≡ some n → n.id ≡ x

index_nodes-IsIndex :
    (d : List (String × GraphNode)) (ns : List GraphNode) → IsIndex d → IsIndex (index_nodes d ns)
unfolding index_nodes
index_nodes-IsIndex d [] i = i
index_nodes-IsIndex d (m ∷ ns) i =
    index_nodes-IsIndex (insert m.id m d) ns
      (λ x n e. ground (arith, lookup-insert m.id x m d, eq_iff m.id x, i x n))

-- A node that is found under an id has that id.
pub get_node-id :
    (description : Option String) (ns : List GraphNode) (es : List GraphEdge) (x : String)
    (n : GraphNode)
    → get_node (make_graph description ns es) x ≡ some n
    → n.id ≡ x
unfolding make_graph get_node
get_node-id description ns es x n e = index_nodes-IsIndex [] ns (λ y m h. absurd (cc)) x n e

-- What is found in the index of a list is in the list.
index_nodes-mem :
    (d : List (String × GraphNode)) (ns : List GraphNode) (x : String) (n : GraphNode)
    → lookup x (index_nodes d ns) ≡ some n
    → (n ∈ ns) ⊎ (lookup x d ≡ some n)
unfolding index_nodes
index_nodes-mem d [] x n e = inr e
index_nodes-mem d (m ∷ ns) x n e =
    ground (arith, index_nodes-mem (insert m.id m d) ns x n e, lookup-insert m.id x m d)

index_nodes-found :
    (d : List (String × GraphNode)) (ns : List GraphNode) (x : String)
    → (x ∈ ids ns) ⊎ (lookup x d ≢ none)
    → lookup x (index_nodes d ns) ≢ none
unfolding index_nodes
index_nodes-found d [] x h = ground arith
index_nodes-found d (m ∷ ns) x h =
    index_nodes-found (insert m.id m d) ns x
      (ground (arith, lookup-insert m.id x m d, eq_iff m.id x))

module _ (description : Option String) (ns : List GraphNode) (es : List GraphEdge)
    (x : String) where
  pub get_node-mem : (n : GraphNode) → get_node (make_graph description ns es) x ≡ some n → n ∈ ns
  unfolding make_graph get_node lookup
  get_node-mem n e = elim (index_nodes-mem [] ns x n e) [ inl h ↦ h | inr h ↦ absurd (cc) ]

  pub get_node-found : x ∈ ids ns → get_node (make_graph description ns es) x ≢ none
  unfolding make_graph get_node
  get_node-found h = index_nodes-found [] ns x (inl h)
