-- ===== src/Validation/Backwards.antt =====
-- Walks against the edges of a `WorkflowGraph` whose edges are all between its nodes.
use workfllow_execution.Prelude.{String, eq_iff, ◌≡◌, refl, sym, ap, ◌∙◌, ◌≢◌, ◌↔◌, inl, inr}
use workfllow_execution.Prelude.{Bool-cases, arith}
use workfllow_execution.Prelude.{Option, List, [], ◌∷◌, contains, contains_iff, ◌∈◌}
use workfllow_execution.Prelude.{All, if◌then◌else◌}
use mathlib.Core.Path.{subst}
use workfllow_execution.Graph.{GraphNode, GraphEdge, WorkflowGraph}
use workfllow_execution.Graph.{make_graph, successors, predecessors}
use workfllow_execution.Graph.{neighbours}
use workfllow_execution.Graph.Edges.{heads_at, ids, successors_and_predecessors}
use workfllow_execution.Validation.Topology.Cycles.{Ends, Trail, edge, onward}
use workfllow_execution.Validation.Topology.Acyclic.{Ends-acyclic, find_cycle_nodes_lem}
use workfllow_execution.Validation.Topology.Shape.{Known}

module _ (tail head : GraphEdge → String) where
  pub heads_at-flip :
      (x y : String) (es : List GraphEdge)
      → y ∈ heads_at tail head x es
      → x ∈ heads_at head tail y es
  heads_at-flip x y [] h = h
  heads_at-flip x y (e ∷ es) h =
      ground (arith, eq_iff (tail e) x, eq_iff (head e) y, heads_at-flip x y es)

sources-known :
    (x y : String) (xs : List String) (es : List GraphEdge)
    → All (Known xs) es
    → y ∈ heads_at (λ e. e.target) (λ e. e.source) x es
    → y ∈ xs
sources-known x y xs [] k h = absurd h
sources-known x y xs (e ∷ es) (k, ks) h =
    ground (arith, k.0, eq_iff e.target x, sources-known x y xs es ks)

-- A walk with one more edge in front.
pub Trail-cons :
    {next : String → List String} {x y z : String} → y ∈ next x → Trail next y z → Trail next x z
Trail-cons h (edge h') = onward (edge h) h'
Trail-cons h (onward p h') = onward (Trail-cons h p) h'

Trail-flip :
    {next back : String → List String}
    → ((x y : String) → y ∈ back x → x ∈ next y)
    → {x y : String} → Trail back x y
    → Trail next y x
Trail-flip f (edge {x} {y} h) = edge (f x y h)
Trail-flip f (onward {x} {y} {z} p h) = Trail-cons (f y z h) (Trail-flip f p)

module _ (description : Option String) (ns : List GraphNode) (es : List GraphEdge)
    (known : All (Known (ids ns)) es) where
  abbrev g : WorkflowGraph
  g = make_graph description ns es

  pub successors-heads_at :
      (x : String) → x ∈ ids ns → successors g x ≡ heads_at (λ e. e.source) (λ e. e.target) x es
  successors-heads_at x h =
      (successors_and_predecessors description ns es x).0
      ∙ ap (λ b. if b then heads_at (λ e. e.source) (λ e. e.target) x es else [])
          ((contains_iff (ids ns) x).1 h)

  predecessors-heads_at :
      (x y : String) → y ∈ predecessors g x → y ∈ heads_at (λ e. e.target) (λ e. e.source) x es
  predecessors-heads_at x y h =
      let e = (successors_and_predecessors description ns es x).1 in
      let h' = subst (λ zs. y ∈ zs) e h in
      elim (Bool-cases (contains (ids ns) x)) [
        | inl there ↦ rw there at h'
        | inr gone ↦ absurd (rw gone at h')
      ]

  pub predecessor-known : (x y : String) → y ∈ predecessors g x → y ∈ ids ns
  predecessor-known x y h = sources-known x y (ids ns) es known (predecessors-heads_at x y h)

  predecessors-flip : (x y : String) → y ∈ predecessors g x → x ∈ successors g y
  predecessors-flip x y h =
      subst (λ zs. x ∈ zs) (sym (successors-heads_at y (predecessor-known x y h)))
        (heads_at-flip (λ e. e.target) (λ e. e.source) x y es (predecessors-heads_at x y h))

  -- Backwards all walks end as well, as the search for cycles shows of the reversed graph.
  pub predecessors-Ends :
      ((x : String) → Ends (successors g) x) → (x : String) → Ends (predecessors g) x
  unfolding predecessors neighbours
  predecessors-Ends ends =
      let (found, e, empty, some_found) = find_cycle_nodes_lem g.reverse_adjacency in
      decide found empty some_found
    where
      decide :
          (found : List String)
          → ((found ≡ []) ↔ ((x : String) → Ends (predecessors g) x))
          → ((found ≢ []) ↔ ((x : String) × Trail (predecessors g) x x))
          → (x : String) → Ends (predecessors g) x
      decide [] empty cyclic = empty.0 refl
      decide (y ∷ ys) empty cyclic =
          let (x, p) = cyclic.0 (λ e. absurd (cc)) in
          absurd (Ends-acyclic (ends x) (Trail-flip predecessors-flip p))
