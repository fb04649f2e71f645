-- ===== src/Orchestrator/Inputs.antt =====
-- `GraphInputBinder` of app/application/executions/input_binder.py, `UpstreamInputResolver` of
-- upstream_resolver.py beside it and `DbNodeProjectionReader` of
-- app/infrastructure/executions/projection_reader.py: where the inputs of a task come from.
pub mod Locked
use workfllow_execution.Prelude.{String, ◌==◌, Bool, if◌then◌else◌}
use workfllow_execution.Prelude.{Option, none, some, List, [], ◌∷◌, lookup, insert}
use workfllow_execution.Errors.{Result, ok, err, ◌>>=◌, or_raise, input_resolution}
use workfllow_execution.Status.{NodeStatus, node_eq}
use workfllow_execution.Json.{Json, Dict}
use workfllow_execution.Graph.{GraphNode, GraphInputBinding, InputSourceKind}
use workfllow_execution.Tables.{Tables, NodeInstance}
use workfllow_execution.Tables.Projections.{values_of}

-- `ResolvedNodeInputs`
pub record ResolvedNodeInputs (F : Type 0) : Type 0 where
  pub values : Dict F
  pub locked_keys : List String

abbrev text_or_empty : Option String → String
text_or_empty none = ""
text_or_empty (some s) = s

-- `not binding.source_node_id or not binding.output_key`
abbrev is_blank : Option String → Bool
is_blank o = text_or_empty o == ""

module _ {F : Type 0} where
  abbrev not_empty : Option (Dict F) → Option (Dict F)
  not_empty none = none
  not_empty (some []) = none
  not_empty (some (kv ∷ d)) = some (kv ∷ d)

  abbrev completed_only : Option NodeInstance → Option (Dict F) → Option (Dict F)
  completed_only none values = none
  completed_only (some n) values =
      if node_eq n.status NodeStatus.completed then not_empty values else none

  -- `DbNodeProjectionReader.get_node_values`
  unfoldable pub get_node_values : Tables F → String → Option (Dict F)
  get_node_values db node_id =
      let row = lookup node_id db.node_instances in
      completed_only row (values_of row db.node_projections)

  -- `UpstreamInputResolver.resolve`
  unfoldable pub resolve_upstream : Tables F → String → String → Result (Json F)
  unfolding get_node_values
  resolve_upstream db source_node_id output_key =
      or_raise (get_node_values db source_node_id) input_resolution >>= λ values.
      or_raise (lookup output_key values) input_resolution

  resolve_binding : Tables F → Dict F → GraphInputBinding → Result (Json F)
  unfolding resolve_upstream
  resolve_binding db metadata binding = elim binding.kind [
    | InputSourceKind.metadata ↦
        or_raise (lookup (text_or_empty binding.metadata_key) metadata) input_resolution
    | InputSourceKind.upstream ↦
        if is_blank binding.source_node_id
        then err input_resolution
        else if is_blank binding.output_key
        then err input_resolution
        else resolve_upstream db (text_or_empty binding.source_node_id)
            (text_or_empty binding.output_key)
  ]

  abbrev pub add_binding : GraphInputBinding → Json F → ResolvedNodeInputs F → ResolvedNodeInputs F
  add_binding binding value resolved = record {
    values = insert binding.input_key value resolved.values;
    locked_keys =
        if binding.locked then binding.input_key ∷ resolved.locked_keys else resolved.locked_keys;
  }

  resolve_bindings :
      Tables F
      → Dict F
      → List GraphInputBinding
      → ResolvedNodeInputs F
      → Result (ResolvedNodeInputs F)
  resolve_bindings db metadata [] resolved = ok resolved
  resolve_bindings db metadata (binding ∷ bindings) resolved =
      resolve_binding db metadata binding >>= λ value.
      resolve_bindings db metadata bindings (add_binding binding value resolved)

  -- `GraphInputBinder.resolve`
  unfoldable pub resolve : Tables F → GraphNode → Dict F → Result (ResolvedNodeInputs F)
  unfolding resolve_bindings resolve_binding insert
  resolve db graph_node metadata =
      resolve_bindings db metadata graph_node.inputs (record { values = []; locked_keys = [] })
