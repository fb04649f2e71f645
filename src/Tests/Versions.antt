-- ===== src/Tests/Versions.antt =====
-- A definition that is published twice, and a workflow that uses it.
use workfllow_execution.Prelude.{
  ℕ, String, ◌≡◌, refl, ap, ◌==◌, eq_iff, true, false, ◌≢◌, inl, inr, none, some, [], ◌∷◌, ◌∈◌,
}
use workfllow_execution.Errors.{ok}
use workfllow_execution.Json.{Dict, Json, str}
use workfllow_execution.Catalog.{DefinitionRow, VersionRow, Shelf, by_id, by_slug, version_at}
use workfllow_execution.Catalog.{
  distinct, distinct_versions, taken, version_taken, create_definition, publish_version,
  pin_version, next_version,
}
use workfllow_execution.Catalog.Numbered.{IsNumbered}
use workfllow_execution.Catalog.Versions.{create_definition-IsNumbered, pin-publish_version}
use workfllow_execution.Catalog.Publish.{Publication, Draws, Catalog, publish_checked}
use workfllow_execution.Catalog.Publish.{publish_workflow}
use workfllow_execution.Catalog.Publish.Taken.{publish_checked-IsNumbered}
use workfllow_execution.Catalog.Publish.Kept.{publish_checked-keeps}
use workfllow_execution.Catalog.Publish.Workflows.{Outcome, publish_workflow-Outcome}
use workfllow_execution.Tests.{numbers, services, drafts, edges, entered}
use workfllow_execution.Graph.Parse.Print.{definition_json}
use workfllow_execution.Events.Rebuild.Log.{IsLogged}
use workfllow_execution.Tables.{Tables}
use workfllow_execution.Orchestrator.Start.{StartRequest, start_workflow}
use workfllow_execution.Orchestrator.Invariant.Logged.Started.{no_tables, start_workflow-IsLogged}
use workfllow_execution.Orchestrator.Invariant.Runs.{Request, here, next, perform}
use workfllow_execution.Tests.Checks.{form_definition, workflow, in_order, in_order-same, stripped}
use workfllow_execution.Tests.Checks.{defined}

abbrev empty : Shelf (Dict ℕ)
empty = record { definitions = []; versions = [] }

empty-IsNumbered : IsNumbered empty
unfolding version_at by_id distinct distinct_versions
empty-IsNumbered = record {
  distinct_ids = refl;
  distinct_numbers = refl;
  numbered = λ d n h. absurd h;
  owned = λ i n h. absurd (h refl);
}

abbrev payload : Publication (Dict ℕ)
payload = record {
  id = "t";
  name = "Task";
  slug = "task";
  status = "published";
  json = form_definition;
  created_by = none;
}

abbrev draws : String → Draws
draws version = record { definition = "d"; version = version }

-- The first publication.
abbrev stored : Shelf (Dict ℕ)
stored = (publish_checked (draws "v1") payload empty).1

stored-IsNumbered : IsNumbered stored
stored-IsNumbered = publish_checked-IsNumbered (draws "v1") payload empty empty-IsNumbered

publish_checked-IsNumbered_example : IsNumbered (publish_checked (draws "v2") payload stored).1
publish_checked-IsNumbered_example =
    publish_checked-IsNumbered (draws "v2") payload stored stored-IsNumbered

abbrev first : VersionRow (Dict ℕ)
first = record {
  id = "v1";
  definition_id = "t";
  version = 1;
  definition_json = form_definition;
  created_by = none;
}

abbrev the_definition : DefinitionRow
the_definition = record {
  id = "t";
  name = "Task";
  slug = "task";
  status = "published";
  latest_version = 1;
}

stored-first : version_at "t" 1 stored.versions ≡ some first
unfolding publish_checked create_definition version_at by_id by_slug taken version_taken distinct
    distinct_versions
stored-first = refl

publish_checked-keeps_example :
    version_at "t" 1 (publish_checked (draws "v2") payload stored).1.versions ≡ some first
publish_checked-keeps_example =
    publish_checked-keeps (draws "v2") payload stored "t" 1 first stored-first

abbrev one : Shelf (Dict ℕ)
one = record { definitions = the_definition ∷ []; versions = first ∷ [] }

one-IsNumbered : IsNumbered one
unfolding create_definition distinct distinct_versions taken version_taken
one-IsNumbered =
    create_definition-IsNumbered empty "d" "v1" "Task" "task" "published" (some "t") form_definition
      none empty-IsNumbered

different : (x : String) → x ≡ "v1" → x ≢ "v2"
different x e h =
    let yes_ : (x == "v2") ≡ true = (eq_iff x "v2").1 h in
    let no_ : (x == "v2") ≡ false = rw e refl in absurd (cc)

new_id : (w : VersionRow (Dict ℕ)) → w ∈ first ∷ [] → w.id ≢ "v2"
new_id w (inl e) h =
    let old : w.id ≡ "v1" = ap (λ (v : VersionRow (Dict ℕ)). v.id) e in different w.id old h
new_id w (inr m) h = absurd m

pin-publish_version_example :
    ((publish_version "v2" "t" form_definition none one).0
      ≡ ok (next_version "v2" the_definition form_definition none))
    × (pin_version "t" none (publish_version "v2" "t" form_definition none one).1
        ≡ ok (next_version "v2" the_definition form_definition none))
unfolding by_id
pin-publish_version_example =
    pin-publish_version one "v2" "t" form_definition none the_definition one-IsNumbered refl new_id

abbrev catalog : Catalog (Dict ℕ)
catalog = record { nodes = one; workflows = empty }

abbrev line_payload : Publication (Dict ℕ)
line_payload = record {
  id = "w";
  name = "Line";
  slug = "line";
  status = "published";
  json = ("description", str "line") ∷ [];
  created_by = none;
}

publish_workflow-Outcome_example :
    Outcome in_order stripped workflow line_payload catalog
      (publish_workflow in_order stripped (draws "wv1") line_payload workflow catalog)
publish_workflow-Outcome_example =
    publish_workflow-Outcome in_order stripped in_order-same workflow defined (draws "wv1")
      line_payload catalog empty-IsNumbered (λ e. absurd (cc))

-- The line of two tasks, started and then sent the outputs of its first task.
abbrev lines : Shelf (Json ℕ)
lines = record {
  definitions =
      record { id = "w"; name = "Line"; slug = "line"; status = "published"; latest_version = 1 }
      ∷ [];
  versions =
      record {
        id = "wv";
        definition_id = "w";
        version = 1;
        definition_json = definition_json "line" drafts edges;
        created_by = none;
      }
      ∷ [];
}

abbrev asked : StartRequest ℕ
asked = record {
  id = "i";
  name = "n";
  workflow_definition_id = "w";
  version = none;
  created_by = none;
  metadata = [];
}

abbrev begun : Tables ℕ
begun = (start_workflow services lines one (λ id. id) asked none (no_tables 7)).1

abbrev submission : Request ℕ
submission = Request.submit "a" entered none none

start_workflow-IsLogged_example : IsLogged (perform services submission begun).1
start_workflow-IsLogged_example =
    start_workflow-IsLogged services lines one (λ id. id) asked none 7
      (perform services submission begun).1 (next submission here)
