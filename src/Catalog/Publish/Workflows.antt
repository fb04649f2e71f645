-- ===== src/Catalog/Publish/Workflows.antt =====
-- `publish_workflow`: only a valid workflow gets into the tables.
use workfllow_execution.Prelude.{String, ◌≡◌, refl, ap, ◌≢◌, ◌↔◌, true}
use workfllow_execution.Prelude.{Option, none, some, List, [], ◌∷◌, ◌∈◌}
use workfllow_execution.Errors.{Result, ok, err}
use workfllow_execution.Json.{Dict, Python}
use workfllow_execution.Catalog.{Shelf, pin_version}
use workfllow_execution.Catalog.Numbered.{IsNumbered}
use workfllow_execution.Catalog.Publish.{
  Publication, Draws, Published, Catalog, with_workflows, on_workflows,
}
use workfllow_execution.Catalog.Publish.{after}
use workfllow_execution.Catalog.Publish.{unless_issues, required_slug, TaskFields}
use workfllow_execution.Catalog.Publish.{resolve_task_node_fields, with_slug, publish_checked}
use workfllow_execution.Catalog.Publish.{publish_workflow}
use workfllow_execution.Catalog.Publish.Taken.{publish_checked-IsNumbered}
use workfllow_execution.Catalog.Publish.Results.{IsStored, IsKept, publish_checked-IsStored}
use workfllow_execution.Catalog.Publish.Results.{publish_checked-IsKept}
use workfllow_execution.Validation.{Issue, WorkflowNode, Workflow, is_task}
use workfllow_execution.Validation.Topology.Verdict.{Verdict}
use workfllow_execution.Validation.Pipeline.{IsValid, validate_workflow_definition}
use workfllow_execution.Validation.Pipeline.{validate_workflow_definition_lem}

module _ {F : Type 0} ⦃py : Python F⦄ (set_order : List String → List String)
    (strip : String → String) (workflow : Workflow) (p : Publication (Dict F))
    (s : Catalog (Dict F)) where
  -- The workflow fits the definitions of the nodes that are published.
  abbrev pub IsFit : Type 0
  IsFit =
      (fields : TaskFields) × (resolve_task_node_fields workflow s.nodes ≡ ok fields)
      × IsValid set_order strip fields.published fields.outputs (some fields.inputs) workflow

  -- A publication with a result had a workflow that fits, and stored it; one without has changed
  -- nothing.
  abbrev pub Outcome : Result (Published (Dict F)) × Catalog (Dict F) → Type 0
  Outcome (err e, t) = t ≡ s
  Outcome (ok (d, v), t) =
      IsFit
      × (t.nodes ≡ s.nodes)
      × IsNumbered t.workflows
      × ((v.definition_json ≡ p.json) × (pin_version p.id none t.workflows ≡ ok v))

module _ {F : Type 0} ⦃py : Python F⦄ (set_order : List String → List String)
    (strip : String → String)
    (same : (xs : List String) (x : String) → (x ∈ set_order xs) ↔ (x ∈ xs)) (workflow : Workflow)
    (defined : (n : WorkflowNode)
      → n ∈ workflow.nodes
      → is_task n ≡ true
      → n.node_definition_id ≢ none)
    (draws : Draws) (p : Publication (Dict F)) (s : Catalog (Dict F)) where
  Outcome-stored :
      (slug : String)
      → IsFit set_order strip workflow p s
      → (r : Result (Published (Dict F)) × Shelf (Dict F)) → IsNumbered r.1
      → IsStored (with_slug slug p) r
      → IsKept s.workflows r
      → Outcome set_order strip workflow p s (with_workflows s r)
  Outcome-stored slug fit (ok (d, v), t) numbered stored kept = (fit, refl, numbered, stored)
  Outcome-stored slug fit (err e, t) numbered stored kept =
      ap (λ w. record s { workflows = w }) kept

  Outcome-issues :
      (slug : String) (fields : TaskFields)
      → resolve_task_node_fields workflow s.nodes ≡ ok fields
      → IsNumbered s.workflows
      → p.id ≢ ""
      → (r : Option (List Issue))
      → Verdict
          (IsValid set_order strip fields.published fields.outputs (some fields.inputs) workflow)
          r
      → Outcome set_order strip workflow p s
          (unless_issues r (on_workflows (publish_checked draws (with_slug slug p))) s)
  Outcome-issues slug fields resolved numbered given none (issues, e, means) = refl
  Outcome-issues slug fields resolved numbered given (some []) (issues, e, means) =
      Outcome-stored slug (fields, resolved, means.0 (cc))
        (publish_checked draws (with_slug slug p) s.workflows)
        (publish_checked-IsNumbered draws (with_slug slug p) s.workflows numbered)
        (publish_checked-IsStored draws (with_slug slug p) s.workflows numbered given)
        (publish_checked-IsKept draws (with_slug slug p) s.workflows)
  Outcome-issues slug fields resolved numbered given (some (i ∷ is)) (issues, e, means) = refl

  Outcome-fields :
      (slug : String)
      → IsNumbered s.workflows
      → p.id ≢ ""
      → (r : Result TaskFields) → resolve_task_node_fields workflow s.nodes ≡ r
      → Outcome set_order strip workflow p s (
          after r
            (λ fields.
              unless_issues
                (validate_workflow_definition set_order strip fields.published fields.outputs
                  (some fields.inputs)
                  workflow)
                (on_workflows (publish_checked draws (with_slug slug p))))
            s)
  Outcome-fields slug numbered given (err e) resolved = refl
  Outcome-fields slug numbered given (ok fields) resolved =
      Outcome-issues slug fields resolved numbered given _ (
        validate_workflow_definition_lem set_order strip fields.published fields.outputs
          (some fields.inputs) workflow same defined)

  Outcome-slug :
      IsNumbered s.workflows
      → p.id ≢ ""
      → (r : Result String)
      → Outcome set_order strip workflow p s (
          after r
            (λ slug. after (resolve_task_node_fields workflow s.nodes) (λ fields.
              unless_issues
                (validate_workflow_definition set_order strip fields.published fields.outputs
                  (some fields.inputs)
                  workflow)
                (on_workflows (publish_checked draws (with_slug slug p)))))
            s)
  Outcome-slug numbered given (err e) = refl
  Outcome-slug numbered given (ok slug) =
      Outcome-fields slug numbered given (resolve_task_node_fields workflow s.nodes) refl

  -- Let the sets of Python keep what is in them, the tasks of a workflow name definitions, its id
  -- not be empty, and the versions of the workflows be numbered. If the workflow is published, then
  -- it is valid against the field ids of the published node definitions, the node definitions are
  -- untouched, the versions are numbered still, and pinning the latest version of the workflow
  -- gives the version that came back, with the JSON of the payload. If the publication raises, then
  -- nothing is changed.
  pub publish_workflow-Outcome :
      IsNumbered s.workflows
      → p.id ≢ ""
      → Outcome set_order strip workflow p s (publish_workflow set_order strip draws p workflow s)
  unfolding publish_workflow
  publish_workflow-Outcome numbered given =
      Outcome-slug numbered given (required_slug strip workflow)
