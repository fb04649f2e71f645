-- ===== src/Validation/Topology/Shape.antt =====
-- The issues of `validate_graph_topology`, against what a workflow's shape should be.
use workfllow_execution.Prelude.{String, eq_iff, ◌≡◌, refl, sym, ap, ◌∙◌, ◌≢◌, ◌↔◌}
use workfllow_execution.Prelude.{inl, inr, Bool, true, false, Bool-cases}
use workfllow_execution.Prelude.{arith, if◌then◌else◌, none, some, List, [], ◌∷◌, ◌++◌}
use workfllow_execution.Prelude.{keep, All, ◌∈◌, contains, contains_iff, lookup, insert}
use workfllow_execution.Prelude.{lookup-insert}
use workfllow_execution.Graph.{NodeKind, GraphEdge, Adjacency, neighbours}
use workfllow_execution.Graph.Edges.{heads_at, extend, lookup-add_edges}
use workfllow_execution.Graph.Walk.{Reach}
use workfllow_execution.Validation.{WorkflowNode, Workflow, of_kind, node_ids}
use workfllow_execution.Validation.Topology.{unless_known, edge_issues, empty_adjacency, missing}
use workfllow_execution.Validation.Topology.{issue_if_any, ids, build_adjacency}
use workfllow_execution.Validation.Topology.Cycles.{Ends}

-- The targets of the edges from an id.
abbrev pub targets : Workflow → String → List String
targets w x = heads_at (λ e. e.source) (λ e. e.target) x w.edges

abbrev pub Known : List String → GraphEdge → Type 0
Known xs e = (e.source ∈ xs) × (e.target ∈ xs)

-- A workflow that can be run from its start to an end.
pub record IsSound (w : Workflow) : Type 0 where
  pub edges_known : All (Known (node_ids w)) w.edges
  pub one_start : (s : WorkflowNode) × (of_kind NodeKind.start w ≡ s ∷ [])
  pub some_end : of_kind NodeKind.end w ≢ []
  pub reached :
      (s : WorkflowNode)
      → of_kind NodeKind.start w ≡ s ∷ []
      → (x : String) → x ∈ node_ids w
      → Reach (targets w) (s.id ∷ []) x
  pub acyclic : (x : String) → Ends (targets w) x

pub append-empty : {A : Type 0} (xs ys : List A) → (xs ++ ys ≡ []) ↔ ((xs ≡ []) × (ys ≡ []))
append-empty [] ys = (λ e. (refl, e), λ h. h.1)
append-empty (x ∷ xs) ys = (λ e. absurd (cc), λ h. absurd (cc))

unless_known-empty : (xs : List String) (edge x : String) → (unless_known xs edge x ≡ []) ↔ (x ∈ xs)
unless_known-empty xs edge x =
    (λ e. ground (arith, contains_iff xs x), λ h. ground (arith, contains_iff xs x))

pub edge_issues-empty :
    (xs : List String) (es : List GraphEdge) → (edge_issues xs es ≡ []) ↔ All (Known xs) es
unfolding edge_issues
edge_issues-empty xs [] = (λ _. tt, λ _. refl)
edge_issues-empty xs (e ∷ es) = ground (
  arith,
  append-empty (unless_known xs e.id e.source) (unless_known xs e.id e.target ++ edge_issues xs es),
  append-empty (unless_known xs e.id e.target) (edge_issues xs es),
  unless_known-empty xs e.id e.source,
  unless_known-empty xs e.id e.target,
  edge_issues-empty xs es,
)

pub issue_if_any-empty :
    (code at : String) (xs : List String) → (issue_if_any code at xs ≡ []) ↔ (xs ≡ [])
issue_if_any-empty code at [] = (λ _. refl, λ _. refl)
issue_if_any-empty code at (x ∷ xs) = (λ e. absurd (cc), λ e. absurd (cc))

pub missing-empty : (xs ys : List String) → (missing xs ys ≡ []) ↔ ((x : String) → x ∈ xs → x ∈ ys)
missing-empty [] ys = (λ _ x h. absurd h, λ _. refl)
missing-empty (z ∷ xs) ys = elim (Bool-cases (contains ys z)) [
  | inl old ↦ rw old (
    (λ e x h. elim h [
      | inl e' ↦ rw e' ((contains_iff ys z).0 old)
      | inr h' ↦ (missing-empty xs ys).0 e x h'
    ]),
    λ f. (missing-empty xs ys).1 (λ x h. f x (inr h)),
  )
  | inr new ↦
      rw new ((λ e. absurd (cc)), λ f. absurd (ground (arith, contains_iff ys z, f z (inl refl))))
]

-- A kept node has one of the ids.
pub ids-keep :
    (p : WorkflowNode → Bool) (ns : List WorkflowNode) (x : String)
    → x ∈ ids (keep p ns)
    → x ∈ ids ns
ids-keep p [] x h = h
ids-keep p (n ∷ ns) x h = ground (arith, ids-keep p ns x)

lookup-empty_adjacency :
    (k : String) (d : Adjacency) (xs : List String)
    → lookup k (empty_adjacency d xs) ≡ (if contains xs k then some [] else lookup k d)
unfolding empty_adjacency
lookup-empty_adjacency k d [] = refl
lookup-empty_adjacency k d (x ∷ xs) = ground (
  arith,
  lookup-empty_adjacency k (insert x [] d) xs,
  lookup-insert x k [] d,
  eq_iff x k,
  eq_iff k x,
)

-- Without edges from an id there are no targets.
pub heads_at-none :
    (x : String) (xs : List String) (es : List GraphEdge)
    → All (Known xs) es
    → contains xs x ≡ false
    → heads_at (λ e. e.source) (λ e. e.target) x es ≡ []
heads_at-none x xs [] h new = refl
heads_at-none x xs (e ∷ es) (k, h) new =
    ground (arith, eq_iff e.source x, contains_iff xs x, k.0, heads_at-none x xs es h new)

neighbours-extend :
    (x : String) (d : Adjacency) (b : Bool) (hs : List String)
    → lookup x d ≡ extend (if b then some [] else none) hs
    → (b ≡ false → hs ≡ [])
    → neighbours d x ≡ hs
unfolding neighbours
neighbours-extend x d true hs e h = rw (neighbours, e)
neighbours-extend x d false hs e h = rw (neighbours, e) (sym (h refl))

module _ (set_order : List String → List String)
    (same : (xs : List String) (x : String) → (x ∈ set_order xs) ↔ (x ∈ xs)) where
  contains-set_order : (xs : List String) (x : String) → contains (set_order xs) x ≡ contains xs x
  contains-set_order xs x = elim (Bool-cases (contains xs x)) [
    | inl e ↦ (contains_iff (set_order xs) x).1 ((same xs x).1 ((contains_iff xs x).0 e)) ∙ sym e
    | inr e ↦ elim (Bool-cases (contains (set_order xs) x)) [
      | inl e' ↦
          absurd (ground (arith, contains_iff (set_order xs) x, contains_iff xs x, same xs x))
      | inr e' ↦ e' ∙ sym e
    ]
  ]

  -- The adjacency of a workflow whose edges are all known.
  pub neighbours-targets :
      (w : Workflow)
      → All (Known (node_ids w)) w.edges
      → (x : String) → neighbours (build_adjacency set_order w) x ≡ targets w x
  unfolding lookup
  neighbours-targets w h x =
      neighbours-extend x (build_adjacency set_order w) (contains (node_ids w) x) (targets w x)
        (lookup-add_edges (λ e. e.source) (λ e. e.target) x
            (empty_adjacency [] (set_order (node_ids w))) w.edges
          ∙ ap (λ o. extend o (targets w x))
              (lookup-empty_adjacency x [] (set_order (node_ids w))
                ∙ ap (λ b. if b then some [] else none) (contains-set_order (node_ids w) x)))
        (heads_at-none x (node_ids w) w.edges h)
