-- ===== src/Scheduler/Progress.antt =====
-- A workflow that passed the checks of its shape always has a task that may start, until all are
-- completed: app/domain/validation/graph.py together with the scheduler.
use workfllow_execution.Prelude.{String, ◌≡◌, refl, sym, ap, ◌∙◌, ◌≢◌, ◌↔◌, ◌⊎◌, inl, inr}
use workfllow_execution.Prelude.{Bool, true, false, Bool-cases, Option-cases, arith}
use workfllow_execution.Prelude.{Option, none, some, List, [], ◌∷◌, contains, contains_iff, ◌∈◌}
use workfllow_execution.Prelude.{All, keep, lookup, IsDict, if◌then◌else◌}
use mathlib.Core.Path.{subst, fun_ext}
use workfllow_execution.Errors.{ok}
use workfllow_execution.Status.{NodeStatus}
use workfllow_execution.Graph.{GraphNode, GraphEdge, WorkflowGraph, is_task, task_nodes}
use workfllow_execution.Graph.{make_graph, get_node, successors, predecessors}
use workfllow_execution.Graph.Edges.{ids, successors_and_predecessors}
use workfllow_execution.Graph.Nodes.{get_node-id, get_node-mem, get_node-found}
use workfllow_execution.Scheduler.{Statuses, ready_task_nodes}
use workfllow_execution.Scheduler.{all_tasks_completed}
use workfllow_execution.Scheduler.Ready.{MayStart, Satisfied, IsReady, ready_task_nodes_lem}
use workfllow_execution.Scheduler.Ready.{all_tasks_completed_lem}
use workfllow_execution.Validation.{Workflow, node_ids}
use workfllow_execution.Validation.Backwards.{
  successors-heads_at, predecessor-known, predecessors-Ends,
}
use workfllow_execution.Validation.Topology.{validate_graph_topology}
use workfllow_execution.Validation.Topology.Cycles.{Ends, done}
use workfllow_execution.Validation.Topology.Shape.{Known, heads_at-none, targets, IsSound}
use workfllow_execution.Validation.Topology.Verdict.{validate_graph_topology_lem}

completed-cases :
    (o : Option NodeStatus) → (o ≡ some NodeStatus.completed) ⊎ (o ≢ some NodeStatus.completed)
completed-cases none = inr (λ e. absurd (cc))
completed-cases (some NodeStatus.completed) = inl refl
completed-cases (some NodeStatus.pending) = inr (λ e. absurd (cc))
completed-cases (some NodeStatus.running) = inr (λ e. absurd (cc))
completed-cases (some NodeStatus.waiting) = inr (λ e. absurd (cc))
completed-cases (some NodeStatus.failed) = inr (λ e. absurd (cc))
completed-cases (some NodeStatus.invalidated) = inr (λ e. absurd (cc))

keep-mem :
    (p : GraphNode → Bool) (n : GraphNode) (ns : List GraphNode)
    → n ∈ ns
    → p n ≡ true
    → n ∈ keep p ns
keep-mem p n [] h e = h
keep-mem p n (m ∷ ns) h e = elim h [
  | inl same ↦ rw (sym same, e) (inl refl)
  | inr later ↦ ground (arith, keep-mem p n ns later e)
]

-- A task that is not completed, and that nothing keeps from starting.
abbrev CanStart : WorkflowGraph → Statuses → Type 0
CanStart g statuses = (n : GraphNode) × (n ∈ task_nodes g) × IsReady g statuses n

abbrev pub Uncompleted : WorkflowGraph → Statuses → GraphNode → Type 0
Uncompleted g statuses n = (n ∈ task_nodes g) × (lookup n.id statuses ≢ some NodeStatus.completed)

module _ (description : Option String) (ns : List GraphNode) (es : List GraphEdge)
    (known : All (Known (ids ns)) es) where
  abbrev g : WorkflowGraph
  g = make_graph description ns es

  -- A predecessor that is a task and holds its successors up.
  abbrev Blocks : Statuses → List String → Type 0
  Blocks statuses ps =
      (p : String) × (p ∈ ps)
      × (m : GraphNode) × (get_node g p ≡ some m)
      × (is_task m ≡ true)
      × (lookup p statuses ≢ some NodeStatus.completed)

  Satisfied-cases :
      (statuses : Statuses) (ps : List String) → Satisfied g statuses ps ⊎ Blocks statuses ps
  Satisfied-cases statuses [] = inl (λ p m h. absurd h)
  Satisfied-cases statuses (p ∷ ps) = elim (Satisfied-cases statuses ps) [
    | inr (q, h, m, found, t, o) ↦ inr (q, inr h, m, found, t, o)
    | inl fine ↦ elim (completed-cases (lookup p statuses)) [
      | inl done_ ↦ inl (λ q m h found t. elim h [
        | inl same ↦ rw same done_
        | inr later ↦ fine q m later found t
      ])
      | inr open_ ↦ elim (Option-cases (get_node g p)) [
        | inl gone ↦ inl (λ q m h found t. elim h [
          | inl same ↦ absurd (cc (ap (get_node g) same))
          | inr later ↦ fine q m later found t
        ])
        | inr (m, found) ↦ elim (Bool-cases (is_task m)) [
          | inl t ↦ inr (p, inl refl, m, found, t, open_)
          | inr f ↦ inl (λ q m' h found' t. elim h [
            | inl same ↦ absurd (ground (arith, ap (get_node g) same, found', found, f, t))
            | inr later ↦ fine q m' later found' t
          ])
        ]
      ]
    ]
  ]

  module _ (statuses : Statuses)
      (idle : (n : GraphNode) → Uncompleted g statuses n → MayStart statuses n.id) where
    -- Back from an uncompleted task, along uncompleted predecessors.
    back :
        (x : String) (n : GraphNode)
        → Ends (predecessors g) x
        → n.id ≡ x
        → Uncompleted g statuses n
        → CanStart g statuses
    unfolding make_graph
    back x n (done f) e u = elim (Satisfied-cases statuses (predecessors g x)) [
      | inl fine ↦
          (n, u.0, (idle n u, subst (λ y. Satisfied g statuses (predecessors g y)) (sym e) fine))
      | inr (p, h, m, found, t, open_) ↦
          let same : m.id ≡ p = get_node-id description ns es p m found in
          back p m (f p h) same (
            keep-mem is_task m ns (get_node-mem description ns es p m found) t,
            λ c. open_ (subst (λ y. lookup y statuses ≡ some NodeStatus.completed) same c),
          )
    ]

completed-all-cases :
    (statuses : Statuses) (ts : List GraphNode)
    → ((n : GraphNode) → n ∈ ts → lookup n.id statuses ≡ some NodeStatus.completed)
      ⊎ ((n : GraphNode) × (n ∈ ts) × (lookup n.id statuses ≢ some NodeStatus.completed))
completed-all-cases statuses [] = inl (λ n h. absurd h)
completed-all-cases statuses (t ∷ ts) = elim (completed-all-cases statuses ts) [
  | inr (n, h, o) ↦ inr (n, inr h, o)
  | inl all ↦ elim (completed-cases (lookup t.id statuses)) [
    | inl c ↦ inl (λ n h. elim h [
      | inl same ↦ ap (λ (k : GraphNode). lookup k.id statuses) same ∙ c
      | inr later ↦ all n later
    ])
    | inr o ↦ inr (t, inl refl, o)
  ]
]

module _ (set_order : List String → List String)
    (same : (xs : List String) (x : String) → (x ∈ set_order xs) ↔ (x ∈ xs)) (w : Workflow)
    (description : Option String) (ns : List GraphNode) (e : ids ns ≡ node_ids w)
    (passed : validate_graph_topology set_order w ≡ some []) where
  sound : IsSound w
  sound =
      let (issues, r, verdict) = validate_graph_topology_lem set_order same w in
      verdict.0 (ground (arith, passed, r))

  known : All (Known (ids ns)) w.edges
  known = subst (λ xs. All (Known xs) w.edges) (sym e) (sound.edges_known)

  successors-targets : successors (make_graph description ns w.edges) ≡ targets w
  successors-targets = fun_ext (λ x. elim (Bool-cases (contains (ids ns) x)) [
    | inl there ↦
        successors-heads_at description ns w.edges known x ((contains_iff (ids ns) x).0 there)
    | inr gone ↦
        (successors_and_predecessors description ns w.edges x).0
        ∙ ap (λ b. if b then targets w x else []) gone
        ∙ sym (heads_at-none x (ids ns) w.edges known gone)
  ])

  CanStart-validated :
      (statuses : Statuses)
      → ((n : GraphNode)
          → Uncompleted (make_graph description ns w.edges) statuses n
          → MayStart statuses n.id)
      → all_tasks_completed (make_graph description ns w.edges) statuses ≡ false
      → CanStart (make_graph description ns w.edges) statuses
  CanStart-validated statuses idle unfinished =
      let g = make_graph description ns w.edges in
      elim (completed-all-cases statuses (task_nodes g)) [
        | inl all ↦ absurd (ground (arith, unfinished, (all_tasks_completed_lem g statuses).1 all))
        | inr (n, h, o) ↦
            back description ns w.edges known statuses idle n.id n
              (predecessors-Ends description ns w.edges known
                (subst (λ next. (x : String) → Ends next x) (sym successors-targets)
                  (sound.acyclic))
                n.id)
              refl (h, o)
      ]

  -- In a workflow that passed the checks of its shape, with a graph of the same nodes and edges:
  -- while some task is not completed, and each such task is waiting, invalidated or without a
  -- status, the scheduler returns and calls at least one task ready.
  pub ready_task_nodes-validated :
      (statuses : Statuses)
      → IsDict statuses
      → ((n : GraphNode)
          → Uncompleted (make_graph description ns w.edges) statuses n
          → MayStart statuses n.id)
      → all_tasks_completed (make_graph description ns w.edges) statuses ≡ false
      → (n : GraphNode) × (ready : List GraphNode) × (ready_task_nodes
            (make_graph description ns w.edges)
            statuses
          ≡ ok ready)
        × (n ∈ ready)
  ready_task_nodes-validated statuses d idle unfinished =
      let g = make_graph description ns w.edges in
      let (n, h, r) = CanStart-validated statuses idle unfinished in
      let (ready, runs, among) = ready_task_nodes_lem g statuses d (λ m p _ h'.
        get_node-found description ns w.edges p
          (predecessor-known description ns w.edges known m.id p h')) in
      (n, ready, runs, (among n).1 (h, r))
