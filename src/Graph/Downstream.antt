-- ===== src/Graph/Downstream.antt =====
-- `downstream_task_nodes` of workflow_graph.py: the tasks that a walk along the edges meets.
use workfllow_execution.Prelude.{ℕ, zero, suc, String, ◌≡◌, refl, sym, ap, ◌∙◌, ◌↔◌, inl, inr}
use workfllow_execution.Prelude.{true, if◌then◌else◌, Bool-cases, Option-cases, arith}
use workfllow_execution.Prelude.{none, some, List, [], ◌∷◌, ◌++◌, contains, ◌∈◌, mem-append}
use workfllow_execution.Prelude.{◌≢◌}
use mathlib.Core.Path.{subst}
use native.Mathlib.Nat.{le_refl}
use mathlib.Core.List.{append-nil, append_assoc}
use workfllow_execution.Errors.{Result, ok, err, ◌>>=◌, stuck, key_error}
use workfllow_execution.Graph.{
  GraphNode, WorkflowGraph, is_task, get_node, require_node, successors,
}
use workfllow_execution.Graph.{neighbours}
use workfllow_execution.Graph.Nodes.{require_node-some, require_node-none}
use workfllow_execution.Graph.Walk.{worklist, rounds, Reach, worklist_lem}

abbrev add_task : GraphNode → List GraphNode → List GraphNode
add_task node tasks = if is_task node then tasks ++ node ∷ [] else tasks

module _ (g : WorkflowGraph) where
  pub downstream_loop : ℕ → List String → List String → List GraphNode → Result (List GraphNode)
  downstream_loop fuel [] visited tasks = ok tasks
  downstream_loop zero (current ∷ queue) visited tasks = err stuck
  downstream_loop (suc fuel) (current ∷ queue) visited tasks =
      let skip = downstream_loop fuel queue visited tasks in
      let visit = require_node g current >>= λ node.
      downstream_loop fuel (queue ++ successors g current) (visited ++ current ∷ [])
        (add_task node tasks) in
      if contains visited current then skip else visit

  unfoldable pub downstream_task_nodes : String → Result (List GraphNode)
  unfolding downstream_loop rounds
  downstream_task_nodes node_id =
      downstream_loop (rounds g.adjacency (successors g node_id)) (successors g node_id) [] []

  -- The task with an id, if the graph has a node of that id that is one.
  abbrev task_at : String → List GraphNode
  task_at x = elim (get_node g x) [ none ↦ [] | some n ↦ if is_task n then n ∷ [] else [] ]

  abbrev tasks_at : List String → List GraphNode
  tasks_at [] = []
  tasks_at (x ∷ xs) = task_at x ++ tasks_at xs

  tasks_at-append : (xs ys : List String) → tasks_at (xs ++ ys) ≡ tasks_at xs ++ tasks_at ys
  tasks_at-append [] ys = refl
  tasks_at-append (x ∷ xs) ys =
      rw (tasks_at-append xs ys) (sym (append_assoc (task_at x) (tasks_at xs) (tasks_at ys)))

  task_at_lem :
      (x : String) (n : GraphNode)
      → get_node g x ≡ some n
      → task_at x ≡ (if is_task n then n ∷ [] else [])
  task_at_lem x n e = ground arith

  add_task-append :
      (n : GraphNode) (ts : List GraphNode)
      → add_task n ts ≡ ts ++ ((if is_task n then n ∷ [] else []) ++ [])
  add_task-append n ts = elim (Bool-cases (is_task n)) [
    | inl t ↦ rw t
    | inr t ↦ rw t (sym (append-nil ts))
  ]

  add_task-tasks_at :
      (x : String) (n : GraphNode) (v : List String)
      → get_node g x ≡ some n
      → add_task n (tasks_at v) ≡ tasks_at (v ++ x ∷ [])
  add_task-tasks_at x n v e =
      add_task-append n (tasks_at v)
      ∙ sym (tasks_at-append v (x ∷ []) ∙ ap (λ ts. tasks_at v ++ (ts ++ [])) (task_at_lem x n e))

  worklist-extends :
      (fuel : ℕ) (queue visited out : List String) (x : String)
      → worklist (successors g) fuel queue visited ≡ some out
      → x ∈ visited
      → x ∈ out
  unfolding worklist
  worklist-extends fuel [] visited out x e h = subst (λ (o : List String). x ∈ o) (ground arith) h
  worklist-extends zero (c ∷ queue) visited out x e h = absurd (cc)
  worklist-extends (suc fuel) (c ∷ queue) visited out x e h =
      elim (Bool-cases (contains visited c)) [
        | inl old ↦ worklist-extends fuel queue visited out x (rw old at e) h
        | inr new ↦
            worklist-extends fuel (queue ++ successors g c) (visited ++ c ∷ []) out x (rw new at e)
              ((mem-append x visited (c ∷ [])).1 (inl h))
      ]

  downstream_loop-ok :
      (fuel : ℕ) (queue visited out : List String)
      → worklist (successors g) fuel queue visited ≡ some out
      → ((x : String) → x ∈ out → get_node g x ≢ none)
      → downstream_loop fuel queue visited (tasks_at visited) ≡ ok (tasks_at out)
  unfolding worklist downstream_loop
  downstream_loop-ok fuel [] visited out e known = ap (λ o. ok (tasks_at o)) (ground arith)
  downstream_loop-ok zero (c ∷ queue) visited out e known = absurd (cc)
  downstream_loop-ok (suc fuel) (c ∷ queue) visited out e known =
      elim (Bool-cases (contains visited c)) [
        | inl old ↦ rw old (downstream_loop-ok fuel queue visited out (rw old at e) known)
        | inr new ↦
            let rest : worklist (successors g) fuel (queue ++ successors g c) (visited ++ c ∷ [])
                ≡ some out =
              rw new at e in
            elim (Option-cases (get_node g c)) [
              | inl gone ↦ absurd (
                  known c
                    (worklist-extends fuel (queue ++ successors g c) (visited ++ c ∷ []) out c rest
                      ((mem-append c visited (c ∷ [])).1 (inr (inl refl))))
                    gone)
              | inr (n, e') ↦
                  rw (new, require_node-some g c n e')
                    (ap (downstream_loop fuel (queue ++ successors g c) (visited ++ c ∷ []))
                        (add_task-tasks_at c n visited e')
                      ∙ downstream_loop-ok fuel (queue ++ successors g c) (visited ++ c ∷ []) out
                          rest known)
            ]
      ]

  -- A visited id that is no node ends the walk with a KeyError.
  downstream_loop-err :
      (fuel : ℕ) (queue visited out : List String) (tasks : List GraphNode) (x : String)
      → worklist (successors g) fuel queue visited ≡ some out
      → ((y : String) → y ∈ visited → get_node g y ≢ none)
      → x ∈ out
      → get_node g x ≡ none
      → downstream_loop fuel queue visited tasks ≡ err key_error
  unfolding worklist downstream_loop
  downstream_loop-err fuel [] visited out tasks x e known h gone =
      absurd (known x (subst (λ (o : List String). x ∈ o) (ground arith) h) gone)
  downstream_loop-err zero (c ∷ queue) visited out tasks x e known h gone = absurd (cc)
  downstream_loop-err (suc fuel) (c ∷ queue) visited out tasks x e known h gone =
      elim (Bool-cases (contains visited c)) [
        | inl old ↦
            rw old (downstream_loop-err fuel queue visited out tasks x (rw old at e) known h gone)
        | inr new ↦ elim (Option-cases (get_node g c)) [
          | inl gone' ↦ rw (new, require_node-none g c gone')
          | inr (n, e') ↦
              rw (new, require_node-some g c n e')
                (downstream_loop-err fuel (queue ++ successors g c) (visited ++ c ∷ []) out
                  (add_task n tasks) x (rw new at e) (grown c n e') h gone)
        ]
      ]
    where
      grown :
          (c : String) (n : GraphNode)
          → get_node g c ≡ some n
          → (y : String) → y ∈ visited ++ c ∷ []
          → get_node g y ≢ none
      grown c n e' y m = elim ((mem-append y visited (c ∷ [])).0 m) [
        | inl old ↦ known y old
        | inr (inl same) ↦ λ none'. cc
        | inr (inr nowhere) ↦ absurd nowhere
      ]

  mem-task_at :
      (n : GraphNode) (x : String)
      → (n ∈ task_at x) ↔ ((get_node g x ≡ some n) × (is_task n ≡ true))
  mem-task_at n x = elim (Option-cases (get_node g x)) [
    | inl gone ↦ (λ h. ground arith, λ h. cc)
    | inr (m, found) ↦ (λ h. ground arith, λ h. ground arith)
  ]

  mem-tasks_at :
      (n : GraphNode) (xs : List String)
      → (n ∈ tasks_at xs) ↔ ((x : String) × (x ∈ xs) × (get_node g x ≡ some n) × (is_task n ≡ true))
  mem-tasks_at n [] = (λ h. absurd h, λ h. absurd h.1)
  mem-tasks_at n (x ∷ xs) = (
    λ h. elim ((mem-append n (task_at x) (tasks_at xs)).0 h) [
      | inl here ↦ let t = (mem-task_at n x).0 here in (x, inl refl, t.0, t.1)
      | inr later ↦ let t = (mem-tasks_at n xs).0 later in (t.0, inr t.1, t.2, t.3)
    ],
    λ (y, m, found, task). (mem-append n (task_at x) (tasks_at xs)).1 (elim m [
      | inl same ↦ inl ((mem-task_at n x).1 (subst (λ z. get_node g z ≡ some n) same found, task))
      | inr later ↦ inr ((mem-tasks_at n xs).1 (y, later, found, task))
    ]),
  )

  -- The ids that a walk along one or more edges from a node meets.
  abbrev pub Downstream : String → String → Type 0
  Downstream node_id x = Reach (successors g) (successors g node_id) x

  Walked : (node_id : String) → Type 0
  Walked node_id =
      (out : List String) × (worklist (successors g) (rounds g.adjacency (successors g node_id))
          (successors g node_id) []
        ≡ some out)
      × ((x : String) → (x ∈ out) ↔ Downstream node_id x)

  walk : (node_id : String) → Walked node_id
  unfolding Walked successors
  walk node_id =
      worklist_lem g.adjacency (neighbours g.adjacency node_id)
        (rounds g.adjacency (neighbours g.adjacency node_id)) (le_refl _)

  -- If every id downstream of a node is a node, the walk ends and its result is the tasks among
  -- them, and no other node.
  pub downstream_task_nodes_lem :
      (node_id : String)
      → ((x : String) → Downstream node_id x → get_node g x ≢ none)
      → (tasks : List GraphNode) × (downstream_task_nodes node_id ≡ ok tasks)
        × ((n : GraphNode)
            → (n ∈ tasks) ↔ (
                (x : String) × Downstream node_id x × (get_node g x ≡ some n) × (is_task n ≡ true)))
  unfolding downstream_task_nodes Walked
  downstream_task_nodes_lem node_id known =
      let (out, ends, reached) = walk node_id in
      (
        tasks_at out,
        downstream_loop-ok (rounds g.adjacency (successors g node_id)) (successors g node_id) [] out
            ends (λ x m. known x ((reached x).0 m)),
        λ n. (
          λ h. let t = (mem-tasks_at n out).0 h in (t.0, (reached t.0).0 t.1, t.2, t.3),
          λ (x, r, found, task). (mem-tasks_at n out).1 (x, (reached x).1 r, found, task),
        ),
      )

  -- If an id downstream of a node is no node, the walk ends with a KeyError.
  pub downstream_task_nodes_missing :
      (node_id x : String)
      → Downstream node_id x
      → get_node g x ≡ none
      → downstream_task_nodes node_id ≡ err key_error
  unfolding downstream_task_nodes Walked
  downstream_task_nodes_missing node_id x r gone =
      let (out, ends, reached) = walk node_id in
      downstream_loop-err (rounds g.adjacency (successors g node_id)) (successors g node_id) [] out
        [] x ends (λ y m. absurd m) ((reached x).1 r) gone
