-- ===== src/Catalog/Publish.antt =====
-- `DefinitionIngestService` of app/application/definitions/ingest.py: a definition is taken up once
-- it passed its checks, under a slug that no other definition has.
pub mod Workflows
pub mod Taken
pub mod Results
pub mod Kept
use workfllow_execution.Prelude.{ℕ, suc, String, ◌==◌, Bool, true, false, ◌||◌, if◌then◌else◌}
use workfllow_execution.Prelude.{Option, none, some, List, [], ◌∷◌, ◌++◌, insert}
use workfllow_execution.Errors.{Error, Result, ok, err, ◌>>=◌, or_raise, not_found, duplicate_slug}
use workfllow_execution.Errors.{validation_error, value_error, stuck}
use workfllow_execution.Action.{Action}
use workfllow_execution.Json.{Dict, Python}
use workfllow_execution.Definition.Fields.{collect_input_field_ids, collect_output_field_ids}
use workfllow_execution.Catalog.{DefinitionRow, VersionRow, Shelf, by_id, by_slug}
use workfllow_execution.Catalog.{create_definition, publish_version, version_at, version_or_latest}
use workfllow_execution.Catalog.{get_published_with_latest_versions}
use workfllow_execution.Validation.{Issue, WorkflowNode, Workflow, task_nodes}
use workfllow_execution.Validation.Wiring.{FieldSets}
use workfllow_execution.Validation.Pipeline.{validate_workflow_definition}

-- `existing.name = ...`, `existing.slug = ...` and `existing.status = ...`
pub rename : String → String → String → String → List DefinitionRow → List DefinitionRow
rename i name slug status [] = []
rename i name slug status (d ∷ ds) =
    (if d.id == i then record d { name = name; slug = slug; status = status } else d)
    ∷ rename i name slug status ds

-- What a payload says of the definition: the id, the name, the slug, the status and the JSON to
-- store, with the user. `to_stored_json` is a dump of the payload.
pub record Publication (J : Type 0) : Type 0 where
  pub id : String
  pub name : String
  pub slug : String
  pub status : String
  pub json : J
  pub created_by : Option String

-- Two draws of `uuid4()`.
pub record Draws : Type 0 where
  pub definition : String
  pub version : String

abbrev pub Published : Type 0 → Type 0
Published J = DefinitionRow × VersionRow J

-- `slug_owner is not None and slug_owner.id != existing.id`
abbrev pub owned_by_other : DefinitionRow → Option DefinitionRow → Bool
owned_by_other existing none = false
owned_by_other existing (some owner) = if owner.id == existing.id then false else true

module _ {J : Type 0} where
  abbrev pub renamed : Publication J → String → Shelf J → Shelf J
  renamed p i s = record s { definitions = rename i p.name p.slug p.status s.definitions }

  -- The definition as the session has it after the flush.
  abbrev pub updated_row : Publication J → DefinitionRow → DefinitionRow
  updated_row p d = record d {
    name = p.name;
    slug = p.slug;
    status = p.status;
    latest_version = suc d.latest_version;
  }

  -- A flush that fails rolls the new names back as well.
  abbrev pub or_rolled_back :
      Publication J
      → DefinitionRow
      → Shelf J
      → Result (VersionRow J) × Shelf J
      → Result (Published J) × Shelf J
  or_rolled_back p d s (ok v, t) = (ok (updated_row p d, v), t)
  or_rolled_back p d s (err e, t) = (err e, s)

  abbrev pub publish_renamed :
      Draws → Publication J → DefinitionRow → Action (Shelf J) (Published J)
  publish_renamed draws p existing s =
      or_rolled_back p existing s
        (publish_version draws.version existing.id p.json p.created_by (renamed p existing.id s))

  -- `_publish_existing_node`, `_publish_existing_workflow`
  pub publish_existing : Draws → Publication J → DefinitionRow → Action (Shelf J) (Published J)
  unfolding rename
  publish_existing draws p existing s =
      if existing.slug == p.slug
      then publish_renamed draws p existing s
      else if owned_by_other existing (by_slug p.slug s.definitions)
      then (err duplicate_slug, s)
      else publish_renamed draws p existing s

  abbrev pub create_unless_owned :
      Draws → Publication J → Option DefinitionRow → Action (Shelf J) (Published J)
  create_unless_owned draws p (some owner) s = (err duplicate_slug, s)
  create_unless_owned draws p none s =
      create_definition draws.definition draws.version (some p.id) p.name p.slug p.status p.json
        p.created_by s

  abbrev pub publish_found :
      Draws → Publication J → Option DefinitionRow → Action (Shelf J) (Published J)
  publish_found draws p (some existing) s = publish_existing draws p existing s
  publish_found draws p none s = create_unless_owned draws p (by_slug p.slug s.definitions) s

  -- The end of `publish_node` and of `publish_workflow`.
  unfoldable pub publish_checked : Draws → Publication J → Action (Shelf J) (Published J)
  unfolding publish_existing
  publish_checked draws p s = publish_found draws p (by_id p.id s.definitions) s

  -- `get_node_by_slug`, `get_workflow_by_slug`
  unfoldable pub get_by_slug : String → Option ℕ → Shelf J → Result (Published J)
  get_by_slug slug version s = do
    d ← or_raise (by_slug slug s.definitions) not_found
    v ← or_raise (version_at d.id (version_or_latest version d) s.versions) not_found
    ok (d, v)

-- The tables of definitions.
pub record Catalog (J : Type 0) : Type 0 where
  pub nodes : Shelf J
  pub workflows : Shelf J

module _ {J : Type 0} where
  abbrev pub with_workflows : {A : Type 0} → Catalog J → Result A × Shelf J → Result A × Catalog J
  with_workflows s (r, t) = (r, record s { workflows = t })

  abbrev pub on_workflows : {A : Type 0} → Action (Shelf J) A → Action (Catalog J) A
  on_workflows m s = with_workflows s (m s.workflows)

  -- A check that raises ends the method.
  abbrev pub after : {A B : Type 0} → Result A → (A → Action (Catalog J) B) → Action (Catalog J) B
  after (err e) f s = (err e, s)
  after (ok a) f s = f a s

  -- `if issues: raise ValidationError`. What the checks do not return is a failed assertion.
  abbrev pub unless_issues :
      {A : Type 0} → Option (List Issue) → Action (Catalog J) A → Action (Catalog J) A
  unless_issues none m s = (err stuck, s)
  unless_issues (some []) m s = m s
  unless_issues (some (i ∷ is)) m s = (err validation_error, s)

-- The definitions that the tasks name.
definition_ids : List WorkflowNode → List String
definition_ids [] = []
definition_ids (n ∷ ns) = elim n.node_definition_id [
  | none ↦ definition_ids ns
  | some d ↦ d ∷ definition_ids ns
]

-- `required_slug`
abbrev pub required_slug : (String → String) → Workflow → Result String
required_slug strip workflow = elim workflow.slug [
  | none ↦ err value_error
  | some s ↦ if s == "" || strip s == "" then err value_error else ok (strip s)
]

pub record TaskFields : Type 0 where
  pub published : List String
  pub outputs : FieldSets
  pub inputs : FieldSets

module _ {F : Type 0} ⦃py : Python F⦄ where
  field_sets :
      TaskFields → List (String × (DefinitionRow × VersionRow (Dict F))) → Result TaskFields
  field_sets fields [] = ok fields
  field_sets fields ((i, (d, v)) ∷ rest) = do
    outputs ← collect_output_field_ids v.definition_json
    inputs ← collect_input_field_ids v.definition_json
    field_sets
        (record {
          published = fields.published ++ i ∷ [];
          outputs = insert i outputs fields.outputs;
          inputs = insert i inputs fields.inputs;
        })
        rest

  -- `_resolve_task_node_fields`
  pub resolve_task_node_fields : Workflow → Shelf (Dict F) → Result TaskFields
  unfolding field_sets definition_ids
  resolve_task_node_fields workflow nodes =
      field_sets (record { published = []; outputs = []; inputs = [] })
        (get_published_with_latest_versions (definition_ids (task_nodes workflow)) nodes)

  -- What a payload stores, under the slug without the spaces around it.
  abbrev pub with_slug : String → Publication (Dict F) → Publication (Dict F)
  with_slug slug p = record p { slug = slug }

  unfoldable pub publish_workflow :
      (List String → List String)
      → (String → String)
      → Draws
      → Publication (Dict F)
      → Workflow
      → Action (Catalog (Dict F)) (Published (Dict F))
  unfolding resolve_task_node_fields publish_checked
  publish_workflow set_order strip draws p workflow s =
      after (required_slug strip workflow)
        (λ slug. after (resolve_task_node_fields workflow s.nodes) (λ fields.
          unless_issues
            (validate_workflow_definition set_order strip fields.published fields.outputs
              (some fields.inputs) workflow)
            (on_workflows (publish_checked draws (with_slug slug p)))))
        s
