-- ===== src/Graph/Edges.antt =====
-- What the adjacency dicts of a graph hold: the edges of each node, in their order.
use workfllow_execution.Prelude.{String, ◌==◌, eq_iff, ◌≡◌, refl, sym, ap, inl, inr}
use workfllow_execution.Prelude.{if◌then◌else◌, Bool-cases, Option, none, some}
use workfllow_execution.Prelude.{List, [], ◌∷◌, ◌++◌, contains, arith}
use workfllow_execution.Prelude.{lookup, insert, lookup-insert}
use mathlib.Core.List.{append_assoc, append-nil}
use workfllow_execution.Graph.{GraphNode, GraphEdge, Adjacency, make_graph}
use workfllow_execution.Graph.{empty_lists, append_to, add_edges, neighbours}
use workfllow_execution.Graph.{successors, predecessors}

-- The other ends of the edges filed at a node, in the order of the edges.
abbrev pub heads_at :
    (GraphEdge → String) → (GraphEdge → String) → String → List GraphEdge → List String
heads_at tail head key [] = []
heads_at tail head key (e ∷ es) =
    if tail e == key then head e ∷ heads_at tail head key es else heads_at tail head key es

-- The node ids.
abbrev pub ids : List GraphNode → List String
ids [] = []
ids (n ∷ ns) = n.id ∷ ids ns

abbrev pub extend : Option (List String) → List String → Option (List String)
extend none ws = none
extend (some vs) ws = some (vs ++ ws)

lookup-append_to :
    (key value k : String) (d : Adjacency)
    → lookup k (append_to key value d)
      ≡ (if key == k then extend (lookup k d) (value ∷ []) else lookup k d)
unfolding lookup append_to
lookup-append_to key value k [] = ground arith
lookup-append_to key value k ((j, vs) ∷ d) =
    ground (arith, eq_iff j key, eq_iff j k, eq_iff key k, lookup-append_to key value k d)

extend-nil : (o : Option (List String)) → extend o [] ≡ o
extend-nil none = refl
extend-nil (some vs) = ap some (append-nil vs)

extend-extend :
    (o : Option (List String)) (vs ws : List String) → extend (extend o vs) ws ≡ extend o (vs ++ ws)
extend-extend none vs ws = refl
extend-extend (some us) vs ws = ap some (append_assoc us vs ws)

module _ (tail head : GraphEdge → String) where
  pub lookup-add_edges :
      (k : String) (d : Adjacency) (es : List GraphEdge)
      → lookup k (add_edges tail head d es) ≡ extend (lookup k d) (heads_at tail head k es)
  unfolding add_edges
  lookup-add_edges k d [] = sym (extend-nil (lookup k d))
  lookup-add_edges k d (e ∷ es) =
      rw (lookup-add_edges k (append_to (tail e) (head e) d) es, lookup-append_to)
        (elim (Bool-cases (tail e == k)) [
          | inl same ↦ rw same (extend-extend (lookup k d) (head e ∷ []) (heads_at tail head k es))
          | inr other ↦ rw other
        ])

lookup-empty_lists :
    (k : String) (d : Adjacency) (ns : List GraphNode)
    → lookup k (empty_lists d ns) ≡ (if contains (ids ns) k then some [] else lookup k d)
unfolding empty_lists
lookup-empty_lists k d [] = refl
lookup-empty_lists k d (n ∷ ns) = ground (
  arith,
  lookup-empty_lists k (insert n.id [] d) ns,
  lookup-insert n.id k [] d,
  eq_iff n.id k,
  eq_iff k n.id,
)

-- Filing the edges of a list: the other ends at a node, and nothing at what is no node.
module _ (tail head : GraphEdge → String) where
  neighbours-add_edges :
      (k : String) (ns : List GraphNode) (es : List GraphEdge)
      → neighbours (add_edges tail head (empty_lists [] ns) es) k
        ≡ (if contains (ids ns) k then heads_at tail head k es else [])
  unfolding neighbours lookup
  neighbours-add_edges k ns es =
      rw
        (
          lookup-add_edges tail head k (empty_lists [] ns) es,
          lookup-empty_lists k [] ns,
          neighbours,
        )
        (ground arith)

-- The successors of a node are the targets of its edges, in the order of the edges, and the
-- predecessors are the sources of the edges into it; what is no node of the graph has neither.
pub successors_and_predecessors :
    (description : Option String) (ns : List GraphNode) (es : List GraphEdge) (k : String)
    → let g = make_graph description ns es in
      (successors g k
        ≡ (if contains (ids ns) k then heads_at (λ e. e.source) (λ e. e.target) k es else []))
      × (predecessors g k
          ≡ (if contains (ids ns) k then heads_at (λ e. e.target) (λ e. e.source) k es else []))
unfolding make_graph successors predecessors
successors_and_predecessors description ns es k = (
  neighbours-add_edges (λ e. e.source) (λ e. e.target) k ns es,
  neighbours-add_edges (λ e. e.target) (λ e. e.source) k ns es,
)
