-- ===== src/Validation/Pipeline.antt =====
-- app/domain/validation/pipeline.py: all checks of a workflow, one after the other.
use mathlib.Core.Path.{subst}
use workfllow_execution.Prelude.{keep, sym, ap, ◌∙◌, inl, inr, Bool-cases}
use workfllow_execution.Prelude.{String, ◌≡◌, ◌≢◌, ◌↔◌, true, Option-cases}
use workfllow_execution.Prelude.{Option, none, some, List, [], ◌∷◌, ◌++◌, ◌∈◌, contains, arith}
use workfllow_execution.Validation.{Issue, WorkflowNode, Workflow, task_nodes, is_task}
use workfllow_execution.Validation.Topology.{bind, issue, unless_published, validate_graph_topology}
use workfllow_execution.Validation.Topology.{validate_node_references}
use workfllow_execution.Validation.Topology.Shape.{IsSound}
use workfllow_execution.Validation.Topology.Verdict.{Verdict, validate_graph_topology_lem}
use workfllow_execution.Validation.Wiring.{FieldSets, unless, validate_input_wiring}
use workfllow_execution.Validation.Wiring.Wired.{
  IsWired, bind-Verdict, Verdict-map, for_all-Verdict,
}
use workfllow_execution.Validation.Wiring.Wired.{contains-Verdict, task_nodes-mem}
use workfllow_execution.Validation.Wiring.Wired.{validate_input_wiring_lem}

-- `node_input_fields or node_output_fields`
abbrev or_outputs : Option FieldSets → FieldSets → FieldSets
or_outputs none outputs = outputs
or_outputs (some []) outputs = outputs
or_outputs (some (x ∷ xs)) outputs = x ∷ xs

task_nodes-task :
    (n : WorkflowNode) (ns : List WorkflowNode) → n ∈ keep is_task ns → is_task n ≡ true
task_nodes-task n [] h = absurd h
task_nodes-task n (m ∷ ns) h = elim (Bool-cases (is_task m)) [
  | inl t ↦ elim (rw t at h) as (λ _. is_task n ≡ true) [
    | inl e ↦ ap is_task e ∙ t
    | inr later ↦ task_nodes-task n ns later
  ]
  | inr f ↦ task_nodes-task n ns (rw f at h)
]

module _ (set_order : List String → List String) (strip : String → String) (published : List String)
    (output_fields : FieldSets) (input_fields : Option FieldSets) (workflow : Workflow) where
  unfoldable pub validate_workflow_definition : Option (List Issue)
  validate_workflow_definition = bind (validate_graph_topology set_order workflow) (λ topology.
      bind
        (bind (validate_node_references published workflow) (λ references.
          bind
            (validate_input_wiring strip output_fields (or_outputs input_fields output_fields)
              workflow)
            (λ wiring. some (references ++ wiring))))
        (λ rest. some (topology ++ rest)))

  -- The definition that each task names is published.
  abbrev pub IsReferenced : Type 0
  IsReferenced =
      (n : WorkflowNode)
      → n ∈ task_nodes workflow
      → (d : String) × (n.node_definition_id ≡ some d) × (d ∈ published)

  abbrev pub IsValid : Type 0
  IsValid =
      IsSound workflow
      × (IsReferenced
          × IsWired strip output_fields (or_outputs input_fields output_fields) workflow)

  unless_published-some :
      (n : WorkflowNode) (d : String)
      → n.node_definition_id ≡ some d
      → unless_published published n
        ≡ some (
            unless (contains published d) (issue "UNKNOWN_NODE_DEFINITION" "nodes" (n.id ∷ d ∷ [])))
  unless_published-some n d e = rw e (ground arith)

  reference-Verdict :
      (n : WorkflowNode)
      → n.node_definition_id ≢ none
      → Verdict
          ((d : String) × (n.node_definition_id ≡ some d) × (d ∈ published))
          (unless_published published n)
  reference-Verdict n h = elim (Option-cases n.node_definition_id) [
    | inl gone ↦ absurd (h gone)
    | inr (d, e) ↦
        subst (Verdict ((c : String) × (n.node_definition_id ≡ some c) × (c ∈ published)))
          (sym (unless_published-some n d e))
          (Verdict-map (λ m. (d, e, m), λ (c, e', m). subst (λ z. z ∈ published) (cc) m)
            (contains-Verdict strip [] [] workflow published d _ _ _))
  ]

  -- If the sets of Python keep what is in them, and the tasks of the workflow name definitions,
  -- then the checks return, and there is no issue exactly if the shape is sound, each task names a
  -- published definition, and each input of each task is fed.
  pub validate_workflow_definition_lem :
      ((xs : List String) (x : String) → (x ∈ set_order xs) ↔ (x ∈ xs))
      → ((n : WorkflowNode) → n ∈ workflow.nodes → is_task n ≡ true → n.node_definition_id ≢ none)
      → Verdict IsValid validate_workflow_definition
  unfolding validate_workflow_definition validate_node_references
  validate_workflow_definition_lem same defined =
      bind-Verdict (validate_graph_topology set_order workflow) _
        (validate_graph_topology_lem set_order same workflow)
        (bind-Verdict (validate_node_references published workflow) _
          (for_all-Verdict _ (unless_published published) (task_nodes workflow) (λ n h.
            reference-Verdict n
              (defined n (task_nodes-mem n workflow.nodes h) (task_nodes-task n workflow.nodes h))))
          (validate_input_wiring_lem strip output_fields (or_outputs input_fields output_fields)
            workflow defined))
