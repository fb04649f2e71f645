-- ===== src/Orchestrator/Seeds.antt =====
-- The defaults that a new instance takes from an earlier one: `SeedDefaultsMementoBuilder` of
-- app/application/executions/seed_memento.py, with app/domain/seed/field_classifier.py.
use workfllow_execution.Prelude.{ltb, String, ◌==◌, Bool, true, false, not, ◌&&◌}
use workfllow_execution.Prelude.{if◌then◌else◌, Option, none, some, List, [], ◌∷◌, ◌++◌}
use workfllow_execution.Prelude.{contains, lookup, insert}
use text.Mathlib.Text.{starts_with}
use workfllow_execution.Errors.{Result, ok, err, ◌>>=◌, or_raise, not_found, validation_error}
use workfllow_execution.Status.{ExecutionStatus}
use workfllow_execution.Json.{Json, Dict, Python, arr, obj, items, entries, get, get_or}
use workfllow_execution.Json.{truthy, Fields, field, end, nil}
use workfllow_execution.Definition.{get_in}
use workfllow_execution.Definition.Fields.{or_dict, or_list}
use workfllow_execution.Tables.{Tables, NodeInstance, NodeExecution}
use workfllow_execution.Tables.Instances.{rows}

abbrev is_done : ExecutionStatus → Bool
is_done ExecutionStatus.completed = true
is_done _ = false

-- `{node.id: node for node in node_instances}`, read at one id: the last one wins.
node_of : List NodeInstance → String → Option NodeInstance
node_of [] id = none
node_of (n ∷ ns) id = elim (node_of ns id) [
  | none ↦ if n.id == id then some n else none
  | some m ↦ some m
]

-- `next(n for n in node_instances if n.workflow_node_id == workflow_node_id)`
first_of : List NodeInstance → String → Option NodeInstance
first_of [] id = none
first_of (n ∷ ns) id = if n.workflow_node_id == id then some n else first_of ns id

module _ {F : Type 0} where
  abbrev is_later : NodeExecution F → Option (NodeExecution F) → Bool
  is_later e none = true
  is_later e (some current) = ltb current.execution_number e.execution_number

  abbrev note :
      NodeExecution F
      → Option NodeInstance
      → List (String × NodeExecution F)
      → List (String × NodeExecution F)
  note e none latest = latest
  note e (some n) latest =
      if is_later e (lookup n.workflow_node_id latest)
      then insert n.workflow_node_id e latest
      else latest

  -- `_latest_completed_by_node`
  pub latest_completed_by_node :
      List NodeInstance
      → List (String × NodeExecution F)
      → List (NodeExecution F)
      → List (String × NodeExecution F)
  unfolding node_of
  latest_completed_by_node nodes latest [] = latest
  latest_completed_by_node nodes latest (e ∷ es) =
      latest_completed_by_node nodes
        (if is_done e.status
          then note e (node_of nodes e.workflow_node_instance_id) latest
          else latest)
        es

module _ {F : Type 0} ⦃py : Python F⦄ where
  -- `StaticFieldClassifier.is_static`, of a dict
  abbrev pub is_static : Dict F → Bool
  is_static d = not (truthy (get_in d "calculation")) && not (truthy (get_in d "remoteSource"))

  abbrev static_id : Json F → List String
  static_id (obj fs) = elim (lookup "id" (entries fs)) [
    | none ↦ []
    | some v ↦ if is_static (entries fs) then py.to_str v ∷ [] else []
  ]
  static_id _ = []

  pub static_ids : List (Json F) → List String
  static_ids [] = []
  static_ids (x ∷ xs) = static_id x ++ static_ids xs

  pub keep_static : List String → Dict F → Dict F
  keep_static ids [] = []
  keep_static ids ((k, v) ∷ d) =
      let rest = keep_static ids d in
      if contains ids k && not (starts_with k "__") then (k, v) ∷ rest else rest

  -- `filter_static_outputs`, with the one classifier that there is
  unfoldable pub filter_static_outputs : Dict F → List (Json F) → Dict F
  unfolding static_ids keep_static
  filter_static_outputs outputs fields = keep_static (static_ids fields) outputs

  -- `x if isinstance(x, list) else []`
  abbrev list_or_empty : Json F → List (Json F)
  list_or_empty (arr xs) = items xs
  list_or_empty _ = []

  abbrev with_rows : Json F → Dict F → Dict F
  with_rows (arr xs) seeded = insert "rows" (arr xs) seeded
  with_rows _ seeded = seeded

  -- `_static_table_defaults`
  unfoldable pub static_table_defaults : Dict F → Dict F → Result (Dict F)
  static_table_defaults definition outputs = do
    header ← get (or_dict (get_in definition "table")) "headerFields"
    ok (
        with_rows (get_in outputs "rows")
          (filter_static_outputs outputs (list_or_empty (or_list header))))

  abbrev seeds_of_list : Dict F → Json F → Dict F
  seeds_of_list outputs (arr xs) = filter_static_outputs outputs (items xs)
  seeds_of_list outputs _ = []

  -- `str(definition_json.get("baseKind") or "")`
  abbrev kind_text : Dict F → String
  kind_text definition =
      if truthy (get_in definition "baseKind") then py.to_str (get_in definition "baseKind") else ""

  -- `_static_defaults_for_definition`
  unfoldable pub static_defaults_for_definition : Dict F → Dict F → Result (Dict F)
  unfolding static_table_defaults
  static_defaults_for_definition definition outputs =
      if kind_text definition == "table" then static_table_defaults definition outputs else (do
        fields ←
            get_or (elim (lookup "form" definition) [ none ↦ obj end | some form ↦ form ]) "fields"
              (arr nil)
        ok (seeds_of_list outputs fields))

  abbrev to_fields : Dict F → Fields F
  to_fields [] = end
  to_fields ((k, v) ∷ d) = field k v (to_fields d)

  module _ (definition_version : String → Option (Dict F)) where
    -- The defaults of one node, if its definition is known.
    abbrev node_seeds : String → NodeExecution F → Option NodeInstance → Dict F → Result (Dict F)
    node_seeds id e none seeds = ok seeds
    node_seeds id e (some n) seeds = elim (definition_version n.node_definition_version_id) [
      | none ↦ ok seeds
      | some definition ↦ static_defaults_for_definition definition e.outputs_json >>= λ d.
          ok (insert id (obj (to_fields d)) seeds)
    ]

    pub seeds_of : List NodeInstance → Dict F → List (String × NodeExecution F) → Result (Dict F)
    unfolding first_of
    seeds_of nodes seeds [] = ok seeds
    seeds_of nodes seeds ((id, e) ∷ rest) =
        node_seeds id e (first_of nodes id) seeds >>= λ more. seeds_of nodes more rest

    -- `build`, over the tables of the source instance
    unfoldable pub build_seeds : Tables F → Result (Dict F)
    unfolding seeds_of latest_completed_by_node
    build_seeds source = do
      i ← or_raise source.instance_row not_found
      seeds_of (rows source.node_instances) []
          (latest_completed_by_node (rows source.node_instances) [] source.executions)

    -- The seeds of `start_workflow`, for the tables of the instance to take them from, if any.
    unfoldable pub seeds_from : String → Option (Tables F) → Result (Dict F)
    seeds_from workflow_definition_id none = ok []
    seeds_from workflow_definition_id (some source) = do
      i ← or_raise source.instance_row not_found
      if i.workflow_definition_id == workflow_definition_id
          then build_seeds source
          else err validation_error
