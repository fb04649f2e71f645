-- ===== src/Validation/Wiring/Wired.antt =====
-- `validate_input_wiring` returns, and has no issue exactly when each input of each task is fed.
use workfllow_execution.Prelude.{String, ◌==◌, eq_iff, ◌≡◌, refl, sym, ap, ◌≢◌, ◌↔◌, ◌⊎◌}
use workfllow_execution.Prelude.{inl, inr, Bool, true, false, Bool-cases, Option-cases, arith}
use workfllow_execution.Prelude.{Option, none, some, List, [], ◌∷◌, ◌++◌, ◌∈◌}
use workfllow_execution.Prelude.{contains, contains_iff, lookup, insert, lookup-insert, keep}
use mathlib.Core.Path.{subst}
use workfllow_execution.Graph.{neighbours}
use workfllow_execution.Graph.Parse.Print.{Source, Binding, upstream, metadata}
use workfllow_execution.Validation.{Issue, WorkflowNode, Workflow, task_nodes, is_task}
use workfllow_execution.Validation.Topology.{issue, bind, for_all, ids}
use workfllow_execution.Validation.Topology.Cycles.{Trail}
use workfllow_execution.Validation.Topology.Shape.{targets, append-empty}
use workfllow_execution.Validation.Topology.Verdict.{Verdict}
use workfllow_execution.Validation.Wiring.{FieldSets, fields_of, or_empty, index_by_id, unless}
use workfllow_execution.Validation.Wiring.{
  key_issues, upstream_output_issues, allowed_metadata_keys,
}
use workfllow_execution.Validation.Wiring.{
  cleaned_key, metadata_issues, upstream_issues, source_issues,
}
use workfllow_execution.Validation.Wiring.{input_issues}
use workfllow_execution.Validation.Wiring.{inputs_of, node_issues, validate_input_wiring}
use workfllow_execution.Validation.Wiring.Ancestors.{ancestors_by_node-IsFiled}

-- Two checks after each other.
pub bind-Verdict :
    {P Q : Type 0} (a b : Option (List Issue))
    → Verdict P a
    → Verdict Q b
    → Verdict (P × Q) (bind a (λ issues. bind b (λ rest. some (issues ++ rest))))
bind-Verdict a b (xs, e, p) (ys, e', q) =
    rw (e, e', Verdict)
      (
        xs ++ ys,
        refl,
        (
          λ h. let (h1, h2) = (append-empty xs ys).0 h in (p.0 h1, q.0 h2),
          λ h. (append-empty xs ys).1 (p.1 h.0, q.1 h.1),
        ),
      )

pub Verdict-map : {P Q : Type 0} {r : Option (List Issue)} → P ↔ Q → Verdict P r → Verdict Q r
Verdict-map h (xs, e, p) = (xs, e, (λ m. h.0 (p.0 m), λ q. p.1 (h.1 q)))

pub for_all-Verdict :
    {A : Type 0} (P : A → Type 0) (f : A → Option (List Issue)) (xs : List A)
    → ((x : A) → x ∈ xs → Verdict (P x) (f x))
    → Verdict ((x : A) → x ∈ xs → P x) (for_all f xs)
unfolding for_all
for_all-Verdict P f [] h = ([], refl, (λ _ x m. absurd m, λ _. refl))
for_all-Verdict P f (y ∷ ys) h =
    Verdict-map
      (
        λ p x m. elim m [ inl e ↦ subst P (sym e) p.0 | inr m' ↦ p.1 x m' ],
        λ p. (p y (inl refl), λ x m. p x (inr m)),
      )
      (bind-Verdict (f y) (for_all f ys) (h y (inl refl))
        (for_all-Verdict P f ys (λ x m. h x (inr m))))

unless-Verdict :
    (b : Bool) (code at : String) (names : List String)
    → Verdict (b ≡ true) (some (unless b (issue code at names)))
unless-Verdict true code at names = ([], refl, (λ _. refl, λ _. refl))
unless-Verdict false code at names =
    (issue code at names, refl, (λ e. absurd (cc), λ e. absurd (cc)))

-- A check that fails, for something that does not hold.
pub issue-Verdict :
    {P : Type 0} (code at : String) (names : List String)
    → (P → ⊥)
    → Verdict P (some (issue code at names))
issue-Verdict code at names h = (issue code at names, refl, (λ e. absurd (cc), λ p. absurd (h p)))

index_by_id-mem :
    (d : List (String × WorkflowNode)) (ns : List WorkflowNode) (x : String) (n : WorkflowNode)
    → lookup x (index_by_id d ns) ≡ some n
    → (n ∈ ns) ⊎ (lookup x d ≡ some n)
unfolding index_by_id
index_by_id-mem d [] x n e = inr e
index_by_id-mem d (m ∷ ns) x n e =
    ground (arith, index_by_id-mem (insert m.id m d) ns x n e, lookup-insert m.id x m d)

index_by_id-found :
    (ns : List WorkflowNode) (x : String) (n : WorkflowNode)
    → lookup x (index_by_id [] ns) ≡ some n
    → n ∈ ns
unfolding lookup
index_by_id-found ns x n e = elim (index_by_id-mem [] ns x n e) [ inl h ↦ h | inr h ↦ absurd (cc) ]

ids-mem : (n : WorkflowNode) (ns : List WorkflowNode) → n ∈ ns → n.id ∈ ids ns
ids-mem n [] h = h
ids-mem n (m ∷ ns) (inl e) = inl (ap (λ (k : WorkflowNode). k.id) e)
ids-mem n (m ∷ ns) (inr h) = inr (ids-mem n ns h)

pub task_nodes-mem : (n : WorkflowNode) (ns : List WorkflowNode) → n ∈ keep is_task ns → n ∈ ns
task_nodes-mem n [] h = h
task_nodes-mem n (m ∷ ns) h = ground (arith, task_nodes-mem n ns)

definition-same :
    {o : Option WorkflowNode} {m n : WorkflowNode} {c d : String}
    → o ≡ some m
    → o ≡ some n
    → m.node_definition_id ≡ some c
    → n.node_definition_id ≡ some d
    → d ≡ c
definition-same {o} {m} {n} e e' f f' =
    let same : m ≡ n = cc in cc (ap (λ (k : WorkflowNode). k.node_definition_id) same)

module _ (strip : String → String) (output_fields input_fields : FieldSets) (w : Workflow) where
  -- What a source names is there for the node.
  abbrev pub IsSupplied : WorkflowNode → Source → Type 0
  IsSupplied node (metadata key) =
      (cleaned_key strip key ≢ "") × (cleaned_key strip key ∈ allowed_metadata_keys strip w)
  IsSupplied node (upstream from output) =
      (m : WorkflowNode) × (lookup from (index_by_id [] w.nodes) ≡ some m)
      × (is_task m ≡ true)
      × Trail (targets w) from node.id
      × ((d : String) × (m.node_definition_id ≡ some d) × (output ∈ fields_of output_fields d))

  abbrev pub IsFed : WorkflowNode → Binding → Type 0
  IsFed node input =
      (input.input_key ∈ fields_of input_fields (or_empty node.node_definition_id))
      × IsSupplied node input.source

  -- Each input of each task has a field of its name, and a source.
  abbrev pub IsWired : Type 0
  IsWired =
      (node : WorkflowNode)
      → node ∈ task_nodes w
      → (input : Binding) → input ∈ inputs_of strip output_fields input_fields w node
      → IsFed node input

  pub contains-Verdict :
      (xs : List String) (x code at : String) (names : List String)
      → Verdict (x ∈ xs) (some (unless (contains xs x) (issue code at names)))
  contains-Verdict xs x code at names =
      Verdict-map (contains_iff xs x) (unless-Verdict (contains xs x) code at names)

  metadata-Verdict :
      (node : WorkflowNode) (input_key key : String)
      → Verdict (IsSupplied node (metadata key)) (some (metadata_issues strip w node input_key key))
  metadata-Verdict node input_key key = elim (Bool-cases (cleaned_key strip key == "")) [
    | inl e ↦
        rw (e, Verdict)
          (issue-Verdict "EMPTY_METADATA_KEY" "nodes" _
            (λ h. h.0 ((eq_iff (cleaned_key strip key) "").0 e)))
    | inr e ↦
        rw (e, Verdict)
          (Verdict-map
            (λ h. (λ e'. absurd (ground (arith, eq_iff (cleaned_key strip key) "")), h), λ h. h.1)
            (contains-Verdict (allowed_metadata_keys strip w) (cleaned_key strip key) _ _ _))
  ]

  -- The checks of a task that was found, whose ancestors are known.
  output-Verdict :
      (node m : WorkflowNode) (ancestors : List String) (input_key from output : String)
      → lookup from (index_by_id [] w.nodes) ≡ some m
      → (is_task m ≡ true → m.node_definition_id ≢ none)
      → (from ∈ ancestors) ↔ Trail (targets w) from node.id
      → Verdict
          (IsSupplied node (upstream from output))
          (upstream_output_issues output_fields ancestors node input_key from output m)
  output-Verdict node m ancestors input_key from output found has_definition means =
      elim (Bool-cases (is_task m)) [
        | inr f ↦
            rw (f, Verdict)
              (issue-Verdict "INVALID_UPSTREAM_NODE_KIND" "nodes" _
                (λ (m', e, t, p, d). absurd (ground (arith, e, found, t, f))))
        | inl t ↦ elim (Bool-cases (contains ancestors from)) [
          | inr no_path ↦
              rw (t, no_path, Verdict)
                (issue-Verdict "UPSTREAM_NOT_ANCESTOR" "nodes" _ (λ (m', e, t', p, d).
                  absurd (ground (arith, contains_iff ancestors from, means.1 p))))
          | inl on_path ↦ elim (Option-cases m.node_definition_id) [
            | inl gone ↦ absurd (has_definition t gone)
            | inr (d, e) ↦
                rw (t, on_path, e, Verdict)
                  (Verdict-map
                    (
                      λ h. (
                        m,
                        found,
                        t,
                        means.0 ((contains_iff ancestors from).0 on_path),
                        (d, e, h),
                      ),
                      λ (m', e', t', p, (d', e2, h)).
                          subst (λ z. output ∈ fields_of output_fields z)
                            (definition-same found e' e e2) h,
                    )
                    (contains-Verdict (fields_of output_fields d) output _ _ _))
          ]
        ]
      ]

  -- As the schema of the payload has it for tasks.
  module _
      (defined : (n : WorkflowNode)
        → n ∈ w.nodes
        → is_task n ≡ true
        → n.node_definition_id ≢ none) where
    upstream-Verdict :
        (node : WorkflowNode) (ancestors : List String) (input_key from output : String)
        (o : Option WorkflowNode)
        → lookup from (index_by_id [] w.nodes) ≡ o
        → (from ∈ ancestors) ↔ Trail (targets w) from node.id
        → Verdict
            (IsSupplied node (upstream from output))
            (upstream_issues output_fields ancestors node input_key from output o)
    upstream-Verdict node ancestors input_key from output none e means =
        issue-Verdict "INVALID_UPSTREAM_NODE" "nodes" _
          (λ (m', e', t, p, d). absurd (ground (arith, e, e')))
    upstream-Verdict node ancestors input_key from output (some m) e means =
        output-Verdict node m ancestors input_key from output e
          (defined m (index_by_id-found w.nodes from m e)) means

    source-Verdict :
        (node : WorkflowNode) (ancestors : List String) (input_key : String) (source : Source)
        → ((from : String) → (from ∈ ancestors) ↔ Trail (targets w) from node.id)
        → Verdict
            (IsSupplied node source)
            (source_issues strip output_fields input_fields w ancestors node input_key source)
    source-Verdict node ancestors input_key (metadata key) means =
        metadata-Verdict node input_key key
    source-Verdict node ancestors input_key (upstream from output) means =
        upstream-Verdict node ancestors input_key from output (lookup from (index_by_id [] w.nodes))
          refl (means from)

    input-Verdict :
        (node : WorkflowNode) (ancestors : List String) (input : Binding)
        → ((from : String) → (from ∈ ancestors) ↔ Trail (targets w) from node.id)
        → Verdict
            (IsFed node input)
            (input_issues strip output_fields input_fields w ancestors node input)
    input-Verdict node ancestors input means =
        bind-Verdict (some (key_issues input_fields node input))
          (source_issues strip output_fields input_fields w ancestors node input.input_key
            input.source)
          (contains-Verdict (fields_of input_fields (or_empty node.node_definition_id))
            input.input_key _ _ _)
          (source-Verdict node ancestors input.input_key input.source means)

    -- In a workflow whose tasks name a definition, the checks of the inputs return a list of
    -- issues. It is empty exactly if each input of each task has a field of its name, and either a
    -- metadata key that is allowed, or an output that the definition of a task before it has, where
    -- before means that a walk along the edges leads from there to the task.
    pub validate_input_wiring_lem :
        Verdict IsWired (validate_input_wiring strip output_fields input_fields w)
    unfolding validate_input_wiring
    validate_input_wiring_lem =
        let (ancestors, e, filed) = ancestors_by_node-IsFiled w in
        rw (e, Verdict)
          (for_all-Verdict
            (λ node.
              (input : Binding)
              → input ∈ inputs_of strip output_fields input_fields w node
              → IsFed node input)
            (node_issues strip output_fields input_fields w ancestors) (task_nodes w)
            (λ node h.
              for_all-Verdict (IsFed node)
                (input_issues strip output_fields input_fields w (neighbours ancestors node.id)
                  node)
                (inputs_of strip output_fields input_fields w node)
                (λ input _.
                  input-Verdict node (neighbours ancestors node.id) input
                    (filed node.id (ids-mem node w.nodes (task_nodes-mem node w.nodes h))))))
