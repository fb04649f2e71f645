-- ===== src/Validation/Topology/Verdict.antt =====
-- `validate_graph_topology` returns, and has no issue exactly with a workflow of sound shape.
use workfllow_execution.Prelude.{String, ◌≡◌, refl, sym, ◌≢◌, ◌↔◌, ◌⊎◌, inl, inr}
use workfllow_execution.Prelude.{Option, some, List, [], ◌∷◌, ◌++◌, All, ◌∈◌}
use mathlib.Core.Path.{subst, fun_ext}
use native.Mathlib.Nat.{le_refl}
use workfllow_execution.Graph.{NodeKind, neighbours}
use workfllow_execution.Graph.Walk.{Reach, rounds, worklist_lem}
use workfllow_execution.Validation.{Issue, WorkflowNode, Workflow, of_kind, node_ids}
use workfllow_execution.Validation.Topology.{edge_issues, missing, issue, issue_if_any, ids}
use workfllow_execution.Validation.Topology.{build_adjacency, reachable_from}
use workfllow_execution.Validation.Topology.{reach_issues, start_issues, end_issues, shape_issues}
use workfllow_execution.Validation.Topology.{validate_graph_topology}
use workfllow_execution.Validation.Topology.Cycles.{Ends}
use workfllow_execution.Validation.Topology.Acyclic.{find_cycle_nodes_lem}
use workfllow_execution.Validation.Topology.Shape.{IsSound, Known, targets, append-empty, ids-keep}
use workfllow_execution.Validation.Topology.Shape.{edge_issues-empty, issue_if_any-empty}
use workfllow_execution.Validation.Topology.Shape.{missing-empty, neighbours-targets}

-- The check returns a list, that is empty exactly if P.
abbrev pub Verdict : Type 0 → Option (List Issue) → Type 0
Verdict P r = (issues : List Issue) × (r ≡ some issues) × ((issues ≡ []) ↔ P)

List-cases : {A : Type 0} (xs : List A) → (xs ≡ []) ⊎ ((y : A) × (ys : List A) × (xs ≡ y ∷ ys))
List-cases [] = inl refl
List-cases (y ∷ ys) = inr (y, ys, refl)

module _ (set_order : List String → List String)
    (same : (xs : List String) (x : String) → (x ∈ set_order xs) ↔ (x ∈ xs)) where
  -- All ids are reached from the one start, if there is one.
  abbrev Reached : Workflow → List WorkflowNode → Type 0
  Reached w (s ∷ []) =
      (x : String) → x ∈ node_ids w → Reach (neighbours (build_adjacency set_order w)) (s.id ∷ []) x
  Reached w _ = Unit

  reach_issues-Verdict :
      (w : Workflow) (starts : List WorkflowNode)
      → Verdict (Reached w starts) (reach_issues set_order w starts)
  unfolding reachable_from
  reach_issues-Verdict w [] = ([], refl, (λ _. tt, λ _. refl))
  reach_issues-Verdict w (s ∷ t ∷ rest) = ([], refl, (λ _. tt, λ _. refl))
  reach_issues-Verdict w (s ∷ []) =
      let d = build_adjacency set_order w in
      let (out, e, visits) = worklist_lem d (s.id ∷ []) (rounds d (s.id ∷ [])) (le_refl _) in
      let nodes_missing = missing (node_ids w) out in
      let ends_missing = missing (ids (of_kind NodeKind.end w)) out in
      rw (e, Verdict)
        (
          issue_if_any "UNREACHABLE_NODES" "nodes" nodes_missing
              ++ issue_if_any "UNREACHABLE_END_NODE" "nodes" ends_missing,
          refl,
          (
            λ h x m. (visits x).0 (
                (missing-empty (node_ids w) out).0
                  ((issue_if_any-empty _ _ nodes_missing).0 ((append-empty _ _).0 h).0) x m),
            λ f. (append-empty _ _).1 (
              (issue_if_any-empty _ _ nodes_missing).1
                  ((missing-empty (node_ids w) out).1 (λ x m. (visits x).1 (f x m))),
              (issue_if_any-empty _ _ ends_missing).1 (
                  (missing-empty (ids (of_kind NodeKind.end w)) out).1
                    (λ x m. (visits x).1 (f x (ids-keep _ w.nodes x m)))),
            ),
          ),
        )

  start_issues-empty :
      (starts : List WorkflowNode)
      → (start_issues set_order starts ≡ []) ↔ ((s : WorkflowNode) × (starts ≡ s ∷ []))
  start_issues-empty [] = (λ e. absurd (cc), λ (s, e). absurd (cc))
  start_issues-empty (s ∷ []) = (λ _. (s, refl), λ _. refl)
  start_issues-empty (s ∷ t ∷ rest) = (λ e. absurd (cc), λ (s', e). absurd (cc))

  end_issues-empty : (ends : List WorkflowNode) → (end_issues set_order ends ≡ []) ↔ (ends ≢ [])
  end_issues-empty [] = (λ e. absurd (cc), λ h. absurd (h refl))
  end_issues-empty (n ∷ ns) = (λ _ e. absurd (cc), λ _. refl)

  -- With known edges both adjacencies are the same.
  same-targets :
      (w : Workflow)
      → All (Known (node_ids w)) w.edges
      → neighbours (build_adjacency set_order w) ≡ targets w
  same-targets w h = fun_ext (neighbours-targets set_order same w h)

  IsSound-from :
      (w : Workflow)
      → All (Known (node_ids w)) w.edges
      → (s : WorkflowNode) × (of_kind NodeKind.start w ≡ s ∷ [])
      → of_kind NodeKind.end w ≢ []
      → Reached w (of_kind NodeKind.start w)
      → ((x : String) → Ends (neighbours (build_adjacency set_order w)) x)
      → IsSound w
  IsSound-from w known one some_end reached acyclic = record {
    edges_known = known;
    one_start = one;
    some_end = some_end;
    reached = λ s e x h.
        subst (λ next. Reach next (s.id ∷ []) x) (same-targets w known)
          (subst (Reached w) e reached x h);
    acyclic = λ x. subst (λ next. Ends next x) (same-targets w known) (acyclic x);
  }

  IsSound-Reached : (w : Workflow) → IsSound w → Reached w (of_kind NodeKind.start w)
  IsSound-Reached w i =
      let (s, e) = i.one_start in
      subst (Reached w) (sym e) (λ x h.
        subst (λ next. Reach next (s.id ∷ []) x) (sym (same-targets w i.edges_known))
          (i.reached s e x h))

  shape_issues-Verdict : (w : Workflow) → Verdict (IsSound w) (shape_issues set_order w)
  shape_issues-Verdict w =
      let starts = of_kind NodeKind.start w in
      let (unreached, e, u) = reach_issues-Verdict w starts in
      let (cycle, e', c, _) = find_cycle_nodes_lem (build_adjacency set_order w) in
      let a1 = append-empty (edge_issues (node_ids w) w.edges) (
        start_issues set_order starts
        ++ (end_issues set_order (of_kind NodeKind.end w)
            ++ (unreached ++ issue_if_any "CYCLIC_GRAPH" "edges" cycle))) in
      let a2 = append-empty (start_issues set_order starts) (
        end_issues set_order (of_kind NodeKind.end w)
        ++ (unreached ++ issue_if_any "CYCLIC_GRAPH" "edges" cycle)) in
      let a3 =
        append-empty (end_issues set_order (of_kind NodeKind.end w))
          (unreached ++ issue_if_any "CYCLIC_GRAPH" "edges" cycle) in
      let a4 = append-empty unreached (issue_if_any "CYCLIC_GRAPH" "edges" cycle) in
      let known = edge_issues-empty (node_ids w) w.edges in
      let one = start_issues-empty starts in
      let ends = end_issues-empty (of_kind NodeKind.end w) in
      let any = issue_if_any-empty "CYCLIC_GRAPH" "edges" cycle in
      rw (e, e', Verdict)
        (
          _,
          refl,
          (
            λ h.
                let (h1, r1) = a1.0 h in
                let (h2, r2) = a2.0 r1 in
                let (h3, r3) = a3.0 r2 in
                let (h4, h5) = a4.0 r3 in
                IsSound-from w (known.0 h1) (one.0 h2) (ends.0 h3) (u.0 h4) (c.0 (any.0 h5)),
            λ i. a1.1 (
              known.1 i.edges_known,
              a2.1 (
                one.1 i.one_start,
                a3.1 (
                  ends.1 i.some_end,
                  a4.1 (
                    u.1 (IsSound-Reached w i),
                    any.1 (
                        c.1 (λ x.
                          subst (λ next. Ends next x) (sym (same-targets w i.edges_known))
                            (i.acyclic x))),
                  ),
                ),
              ),
            ),
          ),
        )

  topology_empty :
      (w : Workflow)
      → w.nodes ≡ []
      → validate_graph_topology set_order w ≡ some (issue "EMPTY_GRAPH" "nodes" [])
  unfolding validate_graph_topology
  topology_empty w e = rw e refl

  topology_some :
      (w : Workflow) (n : WorkflowNode) (ns : List WorkflowNode)
      → w.nodes ≡ n ∷ ns
      → validate_graph_topology set_order w ≡ shape_issues set_order w
  unfolding validate_graph_topology
  topology_some w n ns e = rw e refl

  -- The checks of the shape return a list of issues, whatever the order in which Python runs over
  -- a set. The list is empty exactly if all ends of edges are nodes, there is one start node and at
  -- least one end node, all nodes are reached from the start, and all walks end.
  pub validate_graph_topology_lem :
      (w : Workflow) → Verdict (IsSound w) (validate_graph_topology set_order w)
  validate_graph_topology_lem w = elim (List-cases w.nodes) [
    | inl e ↦ (
      issue "EMPTY_GRAPH" "nodes" [],
      topology_empty w e,
      (λ e'. absurd (cc), λ i. absurd (no_start e i)),
    )
    | inr (n, ns, e) ↦
        subst (Verdict (IsSound w)) (sym (topology_some w n ns e)) (shape_issues-Verdict w)
  ]
    where
      no_start : w.nodes ≡ [] → IsSound w → ⊥
      no_start e i = let e' : [] ≡ i.one_start.0 ∷ [] = rw e at i.one_start.1 in absurd (cc)
