-- ===== src/Scheduler/Ready.antt =====
-- The tasks that the scheduler calls ready are those whose predecessors allow it.
use workfllow_execution.Prelude.{String, eq_iff, ◌≡◌, refl, ◌↔◌, ◌≢◌, inl, inr, arith}
use workfllow_execution.Prelude.{Bool, true, false, not, ◌&&◌, Bool-cases, Option-cases}
use workfllow_execution.Prelude.{Option, none, some, ◌⊎◌, List, [], ◌∷◌, contains, ◌∈◌}
use workfllow_execution.Prelude.{lookup, IsDict}
use mathlib.Core.Path.{ap, sym, subst, ◌∙◌}
use workfllow_execution.Errors.{ok}
use workfllow_execution.Status.{NodeStatus}
use workfllow_execution.Graph.{GraphNode, WorkflowGraph, is_task, task_nodes, predecessors}
use workfllow_execution.Graph.{get_node}
use workfllow_execution.Graph.Nodes.{require_node-some}
use workfllow_execution.Scheduler.{
  Statuses, completed_ids, status_or_waiting, may_start, all_satisfied, predecessors_satisfied,
  ready_among, ready_task_nodes, all_completed, all_tasks_completed,
}

-- The set of completed ids of a dict: an id is in it exactly when its status is COMPLETED.
contains-completed_ids :
    (k : String) (d : Statuses)
    → IsDict d
    → (contains (completed_ids d) k ≡ true) ↔ (lookup k d ≡ some NodeStatus.completed)
unfolding completed_ids lookup
contains-completed_ids k [] h = (λ e. cc, λ e. cc)
contains-completed_ids k ((j, s) ∷ d) h = (
  ground (arith, contains-completed_ids k d h.1, eq_iff j k, eq_iff k j, h.0),
  ground (arith, contains-completed_ids k d h.1, eq_iff j k, eq_iff k j, h.0),
)

-- The task has no status, or waits, or is invalidated.
abbrev pub MayStart : Statuses → String → Type 0
MayStart statuses k =
    (lookup k statuses ≡ none)
    ⊎ (lookup k statuses ≡ some NodeStatus.waiting)
    ⊎ (lookup k statuses ≡ some NodeStatus.invalidated)

starts :
    (o : Option NodeStatus)
    → (may_start (elim o [ none ↦ NodeStatus.waiting | some s ↦ s ]) ≡ true)
      ↔ ((o ≡ none) ⊎ (o ≡ some NodeStatus.waiting) ⊎ (o ≡ some NodeStatus.invalidated))
starts none = (λ e. inl refl, λ h. refl)
starts (some s) = (ground arith, ground arith)

may_start_lem :
    (statuses : Statuses) (k : String)
    → (may_start (status_or_waiting statuses k) ≡ true) ↔ MayStart statuses k
may_start_lem statuses k = starts (lookup k statuses)

module _ (g : WorkflowGraph) where
  -- Every predecessor that is a task has the status COMPLETED.
  abbrev pub Satisfied : Statuses → List String → Type 0
  Satisfied statuses ps =
      (p : String) (m : GraphNode)
      → p ∈ ps
      → get_node g p ≡ some m
      → is_task m ≡ true
      → lookup p statuses ≡ some NodeStatus.completed

  all_satisfied_lem :
      (statuses : Statuses) (ps : List String)
      → IsDict statuses
      → ((p : String) → p ∈ ps → get_node g p ≢ none)
      → (b : Bool) × (all_satisfied g (completed_ids statuses) ps ≡ ok b)
        × ((b ≡ true) ↔ Satisfied statuses ps)
  unfolding all_satisfied
  all_satisfied_lem statuses [] d known = (true, refl, (λ _ p m h. absurd h, λ _. refl))
  all_satisfied_lem statuses (p ∷ ps) d known = elim (Option-cases (get_node g p)) [
    | inl gone ↦ absurd (known p (inl refl) gone)
    | inr (m, found) ↦
        let done = contains-completed_ids p statuses d in
        let rest = all_satisfied_lem statuses ps d (λ q h. known q (inr h)) in
        elim (Bool-cases (is_task m && not (contains (completed_ids statuses) p))) [
          | inl waits ↦ (
            false,
            rw (require_node-some g p m found, waits),
            (λ e. cc, λ all. ground (arith, all p m (inl refl) found, done)),
          )
          | inr fine ↦ (
            rest.0,
            rw (require_node-some g p m found, fine) rest.1,
            (
              λ e q n h found' task. elim h [
                | inl same ↦ ground (arith, done, same, ap (get_node g) same)
                | inr later ↦ (rest.2.0 e) q n later found' task
              ],
              λ all. rest.2.1 (λ q n h. all q n (inr h)),
            ),
          )
        ]
  ]

  -- The node is a waiting or invalidated task, or one with no status, and its predecessors that
  -- are tasks are completed.
  abbrev pub IsReady : Statuses → GraphNode → Type 0
  IsReady statuses n = MayStart statuses n.id × Satisfied statuses (predecessors g n.id)

  module _ (statuses : Statuses) (d : IsDict statuses) where
    predecessors_satisfied_lem :
        (n : GraphNode)
        → ((p : String) → p ∈ predecessors g n.id → get_node g p ≢ none)
        → (b : Bool) × (predecessors_satisfied g n.id (completed_ids statuses) ≡ ok b)
          × ((b ≡ true) ↔ Satisfied statuses (predecessors g n.id))
    unfolding predecessors_satisfied
    predecessors_satisfied_lem n known = all_satisfied_lem statuses (predecessors g n.id) d known

    ready_among_lem :
        (ns : List GraphNode)
        → ((n : GraphNode) (p : String) → n ∈ ns → p ∈ predecessors g n.id → get_node g p ≢ none)
        → (ready : List GraphNode) × (ready_among g statuses ns ≡ ok ready)
          × ((n : GraphNode) → (n ∈ ready) ↔ ((n ∈ ns) × IsReady statuses n))
    unfolding ready_among
    ready_among_lem [] known = ([], refl, λ n. (λ h. absurd h, λ h. absurd h.0))
    ready_among_lem (n ∷ ns) known =
        let (ready, runs, among) = ready_among_lem ns (λ m p h. known m p (inr h)) in
        let (b, tests, means) = predecessors_satisfied_lem n (λ p. known n p (inl refl)) in
        elim (Bool-cases (may_start (status_or_waiting statuses n.id))) [
          | inr off ↦ (
            ready,
            rw off runs,
            λ m. (
              λ h. let t = (among m).0 h in (inr t.0, t.1),
              λ (h, t). elim h [
                | inl same ↦ absurd (no_start m n same off ((may_start_lem statuses m.id).1 t.0))
                | inr later ↦ (among m).1 (later, t)
              ],
            ),
          )
          | inl on ↦ elim (Bool-cases b) [
            | inl good ↦ (
              n ∷ ready,
              rw (on, tests, runs, good),
              λ m. (
                λ h. elim h [
                  | inl same ↦ (
                    inl same,
                    subst (IsReady statuses) (sym same)
                        ((may_start_lem statuses n.id).0 on, means.0 good),
                  )
                  | inr later ↦ let t = (among m).0 later in (inr t.0, t.1)
                ],
                λ (h, t). elim h [ inl same ↦ inl same | inr later ↦ inr ((among m).1 (later, t)) ],
              ),
            )
            | inr bad ↦ (
              ready,
              rw (on, tests, runs, bad),
              λ m. (
                λ h. let t = (among m).0 h in (inr t.0, t.1),
                λ (h, t). elim h [
                  | inl same ↦ let s = subst (IsReady statuses) same t in absurd (cc (means.1 s.1))
                  | inr later ↦ (among m).1 (later, t)
                ],
              ),
            )
          ]
        ]
      where
        no_start :
            (m n : GraphNode)
            → m ≡ n
            → may_start (status_or_waiting statuses n.id) ≡ false
            → may_start (status_or_waiting statuses m.id) ≡ true
            → ⊥
        no_start m n same off on =
            cc (ap (λ (k : GraphNode). may_start (status_or_waiting statuses k.id)) same)

  -- If every predecessor of a task is a node of the graph, then the scheduler returns, and the
  -- tasks that it calls ready are the tasks of the graph that are waiting, invalidated or without
  -- a status, and whose predecessors that are tasks are all completed.
  pub ready_task_nodes_lem :
      (statuses : Statuses)
      → IsDict statuses
      → ((n : GraphNode) (p : String)
          → n ∈ task_nodes g
          → p ∈ predecessors g n.id
          → get_node g p ≢ none)
      → (ready : List GraphNode) × (ready_task_nodes g statuses ≡ ok ready)
        × ((n : GraphNode) → (n ∈ ready) ↔ ((n ∈ task_nodes g) × IsReady statuses n))
  unfolding ready_task_nodes
  ready_task_nodes_lem statuses d known = ready_among_lem statuses d (task_nodes g) known

  all_completed_lem :
      (statuses : Statuses) (ns : List GraphNode)
      → (all_completed g statuses ns ≡ true)
        ↔ ((n : GraphNode) → n ∈ ns → lookup n.id statuses ≡ some NodeStatus.completed)
  unfolding all_completed
  all_completed_lem statuses [] = (λ _ n h. absurd h, λ _. refl)
  all_completed_lem statuses (m ∷ ns) = (
    λ e n h. elim h [
      | inl same ↦ ap (λ (k : GraphNode). lookup k.id statuses) same ∙ ground arith
      | inr later ↦ (all_completed_lem statuses ns).0 (ground arith) n later
    ],
    λ all.
        ground (arith, all m (inl refl), (all_completed_lem statuses ns).1 (λ n h. all n (inr h))),
  )

  -- The scheduler sees all tasks completed exactly when each task of the graph is.
  pub all_tasks_completed_lem :
      (statuses : Statuses)
      → (all_tasks_completed g statuses ≡ true)
        ↔ ((n : GraphNode) → n ∈ task_nodes g → lookup n.id statuses ≡ some NodeStatus.completed)
  unfolding all_tasks_completed
  all_tasks_completed_lem statuses = all_completed_lem statuses (task_nodes g)
