-- ===== src/Validation/Wiring/Ancestors.antt =====
-- `_ancestors_by_node` of input_wiring.py files under each node the nodes with a walk to it.
use workfllow_execution.Prelude.{String, ◌==◌, ◌≡◌, refl, sym, ◌∙◌, ◌↔◌, ◌⊎◌, inl, inr}
use workfllow_execution.Prelude.{str-cases, arith, if◌then◌else◌, some}
use workfllow_execution.Prelude.{List, [], ◌∷◌, ◌++◌, ◌∈◌, lookup, insert, lookup-insert}
use mathlib.Core.Path.{subst}
use mathlib.Core.List.{append_assoc, append-nil}
use native.Mathlib.Nat.{le_refl}
use workfllow_execution.Graph.{GraphEdge, Adjacency, neighbours}
use workfllow_execution.Graph.Edges.{heads_at}
use workfllow_execution.Graph.Walk.{Reach, seed, step, rounds, worklist_lem}
use workfllow_execution.Validation.{WorkflowNode, Workflow, node_ids}
use workfllow_execution.Validation.Backwards.{heads_at-flip, Trail-cons}
use workfllow_execution.Validation.Topology.{ids}
use workfllow_execution.Validation.Topology.Cycles.{Trail, edge, onward}
use workfllow_execution.Validation.Topology.Shape.{targets}
use workfllow_execution.Validation.Wiring.{incoming, seen_from, ancestors_into, ancestors_by_node}

neighbours-insert :
    (k x : String) (v : List String) (d : Adjacency)
    → neighbours (insert k v d) x ≡ (if k == x then v else neighbours d x)
unfolding neighbours
neighbours-insert k x v d = ground (arith, lookup-insert k x v d)

-- The sources of the edges into an id, in the order of the edges.
neighbours-incoming :
    (d : Adjacency) (es : List GraphEdge) (x : String)
    → neighbours (incoming d es) x ≡ neighbours d x ++ heads_at (λ e. e.target) (λ e. e.source) x es
unfolding incoming
neighbours-incoming d [] x = sym (append-nil (neighbours d x))
neighbours-incoming d (e ∷ es) x =
    let d' = insert e.target (neighbours d e.target ++ e.source ∷ []) d in
    neighbours-incoming d' es x ∙ elim (str-cases e.target x) [
      | inl (same, t) ↦
          rw (neighbours-insert, t, same)
            (append_assoc (neighbours d x) (e.source ∷ [])
              (heads_at (λ e. e.target) (λ e. e.source) x es))
      | inr (other, f) ↦ rw (neighbours-insert, f)
    ]

module _ {next back : String → List String}
    (flip : (x y : String) → (y ∈ back x) ↔ (x ∈ next y)) where
  Reach-Trail : {n y : String} → Reach back (back n) y → Trail next y n
  Reach-Trail {n} (seed {x} h) = edge ((flip n x).0 h)
  Reach-Trail {n} (step {x} {y} r h) = Trail-cons ((flip x y).0 h) (Reach-Trail r)

  Reach-back : {n y z : String} → Trail next y z → Reach back (back n) z → Reach back (back n) y
  Reach-back (edge {x} {y} h) r = step r ((flip y x).1 h)
  Reach-back (onward {x} {y} {z} p h) r = Reach-back p (step r ((flip z y).1 h))

  Trail-Reach : {n y : String} → Trail next y n → Reach back (back n) y
  Trail-Reach (edge {x} {y} h) = seed ((flip y x).1 h)
  Trail-Reach (onward {x} {y} {z} p h) = Reach-back p (seed ((flip z y).1 h))

module _ (w : Workflow) where
  -- The ids filed under an id are those with a walk to it.
  abbrev pub IsFiled : List (String × List String) → String → Type 0
  IsFiled found x = (y : String) → (y ∈ neighbours found x) ↔ Trail (targets w) y x

  incoming-flip : (x y : String) → (y ∈ neighbours (incoming [] w.edges) x) ↔ (x ∈ targets w y)
  unfolding neighbours lookup
  incoming-flip x y = (
    λ h.
        heads_at-flip (λ e. e.target) (λ e. e.source) x y w.edges
          (subst (λ zs. y ∈ zs) (neighbours-incoming [] w.edges x) h),
    λ h.
        subst (λ zs. y ∈ zs) (sym (neighbours-incoming [] w.edges x))
          (heads_at-flip (λ e. e.source) (λ e. e.target) y x w.edges h),
  )

  seen_from-Trail :
      (n : String)
      → (seen : List String) × (seen_from (incoming [] w.edges) n ≡ some seen)
        × ((y : String) → (y ∈ seen) ↔ Trail (targets w) y n)
  seen_from-Trail n =
      let d = incoming [] w.edges in
      let (seen, e, visits) =
        worklist_lem d (neighbours d n) (rounds d (neighbours d n)) (le_refl _) in
      (
        seen,
        e,
        λ y. (
          λ h. Reach-Trail incoming-flip ((visits y).0 h),
          λ p. (visits y).1 (Trail-Reach incoming-flip p),
        ),
      )

  ancestors_into-IsFiled :
      (found : List (String × List String)) (ns : List WorkflowNode)
      → (out : List (String × List String)) × (ancestors_into (incoming [] w.edges) found ns
          ≡ some out)
        × ((x : String) → (x ∈ ids ns) ⊎ IsFiled found x → IsFiled out x)
  unfolding ancestors_into
  ancestors_into-IsFiled found [] = (found, refl, λ x h. elim h [ inl m ↦ absurd m | inr f ↦ f ])
  ancestors_into-IsFiled found (n ∷ ns) =
      let (seen, e, means) = seen_from-Trail n.id in
      let (out, e', filed) = ancestors_into-IsFiled (insert n.id seen found) ns in
      (
        out,
        rw e e',
        λ x h. elim (str-cases n.id x) [
          | inl (same, t) ↦ filed x (
              inr (λ y.
                rw (neighbours-insert, t)
                  (subst (λ z. (y ∈ seen) ↔ Trail (targets w) y z) same (means y))))
          | inr (other, f) ↦ elim h [
            | inl (inl e2) ↦ absurd (other (sym e2))
            | inl (inr m) ↦ filed x (inl m)
            | inr g ↦ filed x (inr (λ y. rw (neighbours-insert, f) (g y)))
          ]
        ],
      )

  pub ancestors_by_node-IsFiled :
      (out : List (String × List String)) × (ancestors_by_node w ≡ some out)
      × ((x : String) → x ∈ node_ids w → IsFiled out x)
  unfolding ancestors_by_node
  ancestors_by_node-IsFiled =
      let (out, e, filed) = ancestors_into-IsFiled [] w.nodes in (out, e, λ x h. filed x (inl h))
