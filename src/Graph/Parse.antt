-- ===== src/Graph/Parse.antt =====
-- The constructors of the graph from stored JSON, in app/domain/graph/workflow_graph.py:
-- `from_dict` of bindings, nodes and edges, and `WorkflowGraph.from_definition_json`.
pub mod Print
use workfllow_execution.Prelude.{String, ◌==◌, Bool, true, false, not, ◌&&◌, if◌then◌else◌}
use workfllow_execution.Prelude.{Option, none, some, List, [], ◌∷◌}
use workfllow_execution.Errors.{Error, Result, ok, err, ◌>>=◌, ◌>>◌, type_error, value_error}
use workfllow_execution.Errors.{attribute_error}
use workfllow_execution.Json.{Json, Python, str, bool, arr, obj, get, get_or, subscript, truthy}
use workfllow_execution.Json.{Items, Fields, nil, end}
use workfllow_execution.Executor.{iterate}
use workfllow_execution.Graph.{
  GraphInputBinding, GraphNode, GraphEdge, WorkflowGraph, InputSourceKind, NodeKind, make_graph,
  kind_eq,
}

-- `kind not in {"start", "task", "end"}` for a text
abbrev kind_named : String → Result NodeKind
kind_named s =
    if s == "start"
    then ok NodeKind.start
    else if s == "task"
    then ok NodeKind.task
    else if s == "end"
    then ok NodeKind.end
    else err value_error

module _ {F : Type 0} where
  -- A list or a dict has no hash, so the test of membership raises TypeError on it.
  abbrev node_kind : Json F → Result NodeKind
  node_kind (str s) = kind_named s
  node_kind (arr xs) = err type_error
  node_kind (obj fs) = err type_error
  node_kind _ = err value_error

  abbrev is_text : Json F → String → Bool
  is_text (str s) t = s == t
  is_text _ t = false

  -- `label if isinstance(label, str) and label else None`
  abbrev text_label : Json F → Option String
  text_label (str s) = if s == "" then none else some s
  text_label _ = none

  -- A description of another type is kept as it is by the code, which reads it nowhere.
  abbrev text_description : Json F → Option String
  text_description (str s) = some s
  text_description _ = none

  -- What a loop over a value runs over. On a text the body raises `e` for the first character.
  abbrev each : Error → Json F → Result (List (Json F))
  each e (str s) = if s == "" then ok [] else err e
  each e x = iterate x

module _ {F : Type 0} {A : Type 0} where
  -- `tuple(f(x) for x in xs)`
  pub parse_all : (Json F → Result A) → List (Json F) → Result (List A)
  parse_all f [] = ok []
  parse_all f (x ∷ xs) = do a ← f x; rest ← parse_all f xs; ok (a ∷ rest)

module _ {F : Type 0} ⦃py : Python F⦄ where
  -- `str(data[key])`
  abbrev text_at : Json F → String → Result String
  text_at data' key = subscript data' key >>= λ v. ok (py.to_str v)

  abbrev upstream_from : Json F → String → Bool → Result GraphInputBinding
  upstream_from source input_key locked = do
    node ← text_at source "sourceNodeId"
    output ← text_at source "outputKey"
    ok (record {
      input_key = input_key;
      kind = InputSourceKind.upstream;
      source_node_id = some node;
      output_key = some output;
      metadata_key = none;
      locked = locked;
    })

  abbrev metadata_from : Json F → String → Bool → Result GraphInputBinding
  metadata_from source input_key locked = do
    key ← text_at source "key"
    ok (record {
      input_key = input_key;
      kind = InputSourceKind.metadata;
      source_node_id = none;
      output_key = none;
      metadata_key = some key;
      locked = locked;
    })

  unfoldable pub binding_from_dict : Json F → Result GraphInputBinding
  binding_from_dict data' = do
    source ← get_or data' "source" (obj end)
    kind ← get source "kind"
    locked ← get_or data' "locked" (bool false)
    input_key ← text_at data' "inputKey"
    if is_text kind "upstream"
        then upstream_from source input_key (truthy locked)
        else if is_text kind "metadata"
        then metadata_from source input_key (truthy locked)
        else err value_error

  unfoldable pub node_from_dict : Json F → Result GraphNode
  unfolding parse_all binding_from_dict
  node_from_dict data' = do
    raw_kind ← subscript data' "kind"
    kind ← node_kind raw_kind
    raw_inputs ← get data' "inputs"
    list ← each attribute_error (if truthy raw_inputs then raw_inputs else arr nil)
    inputs ← parse_all binding_from_dict list
    definition ← get data' "nodeDefinitionId"
    let missing = kind_eq kind NodeKind.task && not (truthy definition)
    -- The message of the error reads the id.
    id ← text_at data' "id"
    (if missing then err value_error else ok tt)
    label ← get data' "label"
    name ← get data' "name"
    ok (record {
      id = id;
      kind = kind;
      node_definition_id = if truthy definition then some (py.to_str definition) else none;
      label = text_label (if truthy label then label else name);
      inputs = inputs;
    })

  unfoldable pub edge_from_dict : Json F → Result GraphEdge
  edge_from_dict data' = do
    id ← text_at data' "id"
    source ← text_at data' "source"
    target ← text_at data' "target"
    ok (record { id = id; source = source; target = target })

  unfoldable pub from_definition_json : Json F → Result WorkflowGraph
  unfolding parse_all node_from_dict edge_from_dict
  from_definition_json data' = do
    raw_nodes ← get_or data' "nodes" (arr nil)
    node_list ← each type_error raw_nodes
    nodes ← parse_all node_from_dict node_list
    raw_edges ← get_or data' "edges" (arr nil)
    edge_list ← each type_error raw_edges
    edges ← parse_all edge_from_dict edge_list
    description ← get data' "description"
    ok (make_graph (text_description description) nodes edges)
