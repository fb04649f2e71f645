-- ===== src/Catalog.antt =====
-- `DefinitionRepository` of app/infrastructure/db/repositories/definitions.py. The tables of node
-- and of workflow definitions have the same columns and the same methods: a `Shelf` is either pair
-- of tables, definitions and their versions, and `J` is what a version stores. The dates are left
-- out, and a draw of `uuid4()` is an argument.
pub mod Rows
pub mod Numbered
pub mod Versions
pub mod Publish
use workfllow_execution.Prelude.{ℕ, suc, nat_eq, String, ◌==◌, Bool, true, false, not, ◌&&◌, ◌||◌}
use workfllow_execution.Prelude.{if◌then◌else◌, Option, none, some, List, [], ◌∷◌, ◌++◌, map}
use workfllow_execution.Prelude.{contains, insert, keep, lookup}
use workfllow_execution.Errors.{Error, not_found, duplicate_slug, integrity_error, Result, ok, err}
use workfllow_execution.Errors.{or_raise, ◌>>=◌}
use workfllow_execution.Action.{Action}

-- `NodeDefinition`, `WorkflowDefinition`
pub record DefinitionRow : Type 0 where
  pub id : String
  pub name : String
  pub slug : String
  pub status : String
  pub latest_version : ℕ

-- `NodeDefinitionVersion`, `WorkflowDefinitionVersion`
pub record VersionRow (J : Type 0) : Type 0 where
  pub id : String
  pub definition_id : String
  pub version : ℕ
  pub definition_json : J
  pub created_by : Option String

pub record Shelf (J : Type 0) : Type 0 where
  pub definitions : List DefinitionRow
  pub versions : List (VersionRow J)

unfoldable pub by_id : String → List DefinitionRow → Option DefinitionRow
by_id i [] = none
by_id i (d ∷ ds) = if d.id == i then some d else by_id i ds

unfoldable pub by_slug : String → List DefinitionRow → Option DefinitionRow
by_slug s [] = none
by_slug s (d ∷ ds) = if d.slug == s then some d else by_slug s ds

-- The unique columns: another definition with the id or the slug.
unfoldable pub taken : DefinitionRow → List DefinitionRow → Bool
taken d [] = false
taken d (e ∷ es) = (e.id == d.id || e.slug == d.slug) || taken d es

unfoldable pub distinct : List DefinitionRow → Bool
distinct [] = true
distinct (d ∷ ds) = not (taken d ds) && distinct ds

-- `definition.latest_version = version`
unfoldable pub set_latest : String → ℕ → List DefinitionRow → List DefinitionRow
set_latest i n [] = []
set_latest i n (d ∷ ds) =
    (if d.id == i then record d { latest_version = n } else d) ∷ set_latest i n ds

-- `version if version is not None else definition.latest_version`
abbrev pub version_or_latest : Option ℕ → DefinitionRow → ℕ
version_or_latest none d = d.latest_version
version_or_latest (some n) d = n

-- `get_node_definitions_by_ids`: the rows with one of the ids.
pub rows_of : List String → List DefinitionRow → List DefinitionRow
rows_of ids [] = []
rows_of ids (d ∷ ds) = if contains ids d.id then d ∷ rows_of ids ds else rows_of ids ds

-- `definition_id or str(uuid4())`
abbrev pub id_or : String → Option String → String
id_or uuid none = uuid
id_or uuid (some i) = if i == "" then uuid else i

abbrev pub new_definition : String → String → String → String → DefinitionRow
new_definition i name slug status = record {
  id = i;
  name = name;
  slug = slug;
  status = status;
  latest_version = 1;
}

module _ {J : Type 0} where
  abbrev pub is_version : String → ℕ → VersionRow J → Bool
  is_version i n v = v.definition_id == i && nat_eq v.version n

  unfoldable pub version_at : String → ℕ → List (VersionRow J) → Option (VersionRow J)
  version_at i n [] = none
  version_at i n (v ∷ vs) = if is_version i n v then some v else version_at i n vs

  -- Another version with the id, or of the definition with the number.
  unfoldable pub version_taken : VersionRow J → List (VersionRow J) → Bool
  version_taken v [] = false
  version_taken v (w ∷ ws) =
      (w.id == v.id || is_version v.definition_id v.version w) || version_taken v ws

  unfoldable pub distinct_versions : List (VersionRow J) → Bool
  distinct_versions [] = true
  distinct_versions (v ∷ vs) = not (version_taken v vs) && distinct_versions vs

  -- The constraints of the tables.
  abbrev pub is_consistent : Shelf J → Bool
  is_consistent s = distinct s.definitions && distinct_versions s.versions

  -- `session.flush()` of the pending rows of `after`. One that fails rolls them back.
  abbrev pub flush : {A : Type 0} → Error → A → Shelf J → Action (Shelf J) A
  flush e a after s = if is_consistent after then (ok a, after) else (err e, s)

  abbrev pub add_version : VersionRow J → Shelf J → Shelf J
  add_version v s = record s { versions = s.versions ++ v ∷ [] }

  abbrev pub add_definition : DefinitionRow → Shelf J → Shelf J
  add_definition d s = record s { definitions = s.definitions ++ d ∷ [] }

  abbrev pub first_version : String → String → J → Option String → VersionRow J
  first_version uuid i json created_by = record {
    id = uuid;
    definition_id = i;
    version = 1;
    definition_json = json;
    created_by = created_by;
  }

  abbrev pub add_first :
      DefinitionRow → VersionRow J → Action (Shelf J) (DefinitionRow × VersionRow J)
  add_first d v s = flush duplicate_slug (d, v) (add_version v (add_definition d s)) s

  -- `create_node_definition`, `create_workflow_definition`; the first two arguments are drawn.
  unfoldable pub create_definition :
      String
      → String
      → Option String
      → String
      → String
      → String
      → J
      → Option String
      → Action (Shelf J) (DefinitionRow × VersionRow J)
  unfolding distinct distinct_versions
  create_definition uuid version_uuid definition_id name slug status json created_by =
      add_first (new_definition (id_or uuid definition_id) name slug status)
        (first_version version_uuid (id_or uuid definition_id) json created_by)

  -- The version that a publication adds to a definition.
  abbrev pub next_version : String → DefinitionRow → J → Option String → VersionRow J
  next_version uuid d json created_by = record {
    id = uuid;
    definition_id = d.id;
    version = suc d.latest_version;
    definition_json = json;
    created_by = created_by;
  }

  abbrev pub publish_next :
      String → J → Option String → Option DefinitionRow → Action (Shelf J) (VersionRow J)
  publish_next uuid json created_by none s = (err not_found, s)
  publish_next uuid json created_by (some d) s =
      flush integrity_error (next_version uuid d json created_by)
        (add_version (next_version uuid d json created_by)
          (record s { definitions = set_latest d.id (suc d.latest_version) s.definitions }))
        s

  -- `publish_node_version`, `publish_workflow_version`
  unfoldable pub publish_version :
      String → String → J → Option String → Action (Shelf J) (VersionRow J)
  unfolding by_id set_latest
  publish_version uuid definition_id json created_by s =
      publish_next uuid json created_by (by_id definition_id s.definitions) s

  -- `pin_node_version`, `pin_workflow_version`
  unfoldable pub pin_version : String → Option ℕ → Shelf J → Result (VersionRow J)
  unfolding by_id version_at
  pin_version definition_id version s = do
    d ← or_raise (by_id definition_id s.definitions) not_found
    or_raise (version_at definition_id (version_or_latest version d) s.versions) not_found

  -- The published ones of the definitions with their latest versions, under their ids.
  pub resolve_latest :
      List (VersionRow J) → List DefinitionRow → List (String × (DefinitionRow × VersionRow J))
  resolve_latest vs [] = []
  resolve_latest vs (d ∷ ds) =
      let rest = resolve_latest vs ds in
      if d.status == "published"
      then (elim (version_at d.id d.latest_version vs) [
        | none ↦ rest
        | some v ↦ (d.id, (d, v)) ∷ rest
      ])
      else rest

  -- `get_published_node_definitions_with_latest_versions`. In which order the rows come from a
  -- select without `order by` is left open by the database, and is that of the table here.
  unfoldable pub get_published_with_latest_versions :
      List String → Shelf J → List (String × (DefinitionRow × VersionRow J))
  unfolding rows_of resolve_latest version_at
  get_published_with_latest_versions ids s = resolve_latest s.versions (rows_of ids s.definitions)

  -- The loop of `pin_latest_node_versions` over the ids: `dict.fromkeys` passes over repetitions,
  -- which come to the same versions.
  pub pin_all :
      Shelf J → List (String × VersionRow J) → List String → Result (List (String × VersionRow J))
  pin_all s pinned [] = ok pinned
  pin_all s pinned (i ∷ is) = do
    d ← or_raise (by_id i s.definitions) not_found
    v ← or_raise (version_at d.id d.latest_version s.versions) not_found
    pin_all s (insert i v pinned) is

  unfoldable pub pin_latest_versions : List String → Shelf J → Result (List (String × VersionRow J))
  unfolding pin_all by_id version_at
  pin_latest_versions ids s = pin_all s [] ids
