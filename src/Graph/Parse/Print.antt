-- ===== src/Graph/Parse/Print.antt =====
-- Definitions as a client writes them, their JSON, and the graphs that they mean: the parser reads
-- each one as what it means.
use workfllow_execution.Prelude.{String, ◌==◌, Bool, false, ◌≡◌, refl, ap, All}
use workfllow_execution.Prelude.{none, some, List, [], ◌∷◌, map, lookup}
use workfllow_execution.Errors.{ok}
use workfllow_execution.Json.{Json, Python, str, bool, arr, obj, items}
use workfllow_execution.Json.{Items, nil, cons, end, field}
use workfllow_execution.Graph.{
  GraphInputBinding, GraphNode, GraphEdge, InputSourceKind, NodeKind, make_graph,
}
use workfllow_execution.Graph.Parse.{
  binding_from_dict, node_from_dict, edge_from_dict, from_definition_json, parse_all,
}

pub data Source : Type 0 where
  upstream : String → String → Source
  metadata : String → Source

pub record Binding : Type 0 where
  pub input_key : String
  pub locked : Bool
  pub source : Source

pub data Node : Type 0 where
  start end_of : String → Node
  -- id, definition, inputs
  task : String → String → List Binding → Node

-- The graph side.
unfoldable pub meant_source : String → Bool → Source → GraphInputBinding
meant_source key locked (Source.upstream node output) = record {
  input_key = key;
  kind = InputSourceKind.upstream;
  source_node_id = some node;
  output_key = some output;
  metadata_key = none;
  locked = locked;
}
meant_source key locked (Source.metadata name) = record {
  input_key = key;
  kind = InputSourceKind.metadata;
  source_node_id = none;
  output_key = none;
  metadata_key = some name;
  locked = locked;
}

abbrev pub meant_binding : Binding → GraphInputBinding
meant_binding b = meant_source b.input_key b.locked b.source

abbrev plain : String → NodeKind → GraphNode
plain id kind = record {
  id = id;
  kind = kind;
  node_definition_id = none;
  label = none;
  inputs = [];
}

unfoldable pub meant_node : Node → GraphNode
meant_node (Node.start id) = plain id NodeKind.start
meant_node (Node.end_of id) = plain id NodeKind.end
meant_node (Node.task id definition inputs) = record {
  id = id;
  kind = NodeKind.task;
  node_definition_id = some definition;
  label = none;
  inputs = map meant_binding inputs;
}

module _ {F : Type 0} where
  -- The JSON side.
  abbrev array : List (Json F) → Items F
  array [] = nil
  array (x ∷ xs) = cons x (array xs)

  source_json : Source → Json F
  source_json (Source.upstream node output) = obj (
      field "kind" (str "upstream")
        (field "sourceNodeId" (str node) (field "outputKey" (str output) end)))
  source_json (Source.metadata name) =
      obj (field "kind" (str "metadata") (field "key" (str name) end))

  binding_json : Binding → Json F
  binding_json b = obj (
      field "inputKey" (str b.input_key)
        (field "locked" (bool b.locked) (field "source" (source_json b.source) end)))

  node_json : Node → Json F
  unfolding binding_json source_json
  node_json (Node.start id) = obj (field "id" (str id) (field "kind" (str "start") end))
  node_json (Node.end_of id) = obj (field "id" (str id) (field "kind" (str "end") end))
  node_json (Node.task id definition inputs) = obj (
      field "id" (str id) (
        field "kind" (str "task") (
          field "nodeDefinitionId" (str definition)
            (field "inputs" (arr (array (map binding_json inputs))) end))))

  edge_json : GraphEdge → Json F
  edge_json e =
      obj
        (field "id" (str e.id) (field "source" (str e.source) (field "target" (str e.target) end)))

  unfoldable pub definition_json : String → List Node → List GraphEdge → Json F
  unfolding node_json edge_json
  definition_json description nodes edges = obj (
      field "description" (str description) (
        field "nodes" (arr (array (map node_json nodes)))
          (field "edges" (arr (array (map edge_json edges))) end)))

  items-array : (xs : List (Json F)) → items (array xs) ≡ xs
  items-array [] = refl
  items-array (x ∷ xs) = ap (λ r. x ∷ r) (items-array xs)

-- A task names its definition.
abbrev pub IsNamed : Node → Type 0
IsNamed (Node.task id definition inputs) = (definition == "") ≡ false
IsNamed _ = Unit

module _ (F : Type 0) ⦃py : Python F⦄ where
  source-roundtrip :
      (key : String) (locked : Bool) (s : Source)
      → binding_from_dict {F = F}
          (binding_json (record { input_key = key; locked = locked; source = s }))
        ≡ ok (meant_source key locked s)
  unfolding binding_from_dict binding_json source_json meant_source lookup
  source-roundtrip key locked (Source.upstream node output) =
      simp (py.to_str-str key, py.to_str-str node, py.to_str-str output)
  source-roundtrip key locked (Source.metadata name) = simp (py.to_str-str key, py.to_str-str name)

  bindings-roundtrip :
      (bs : List Binding)
      → parse_all (binding_from_dict {F = F}) (map binding_json bs) ≡ ok (map meant_binding bs)
  unfolding parse_all
  bindings-roundtrip [] = refl
  bindings-roundtrip (b ∷ bs) =
      rw (source-roundtrip b.input_key b.locked b.source, bindings-roundtrip bs)

  node-roundtrip : (n : Node) → IsNamed n → node_from_dict {F = F} (node_json n) ≡ ok (meant_node n)
  unfolding node_from_dict node_json meant_node lookup parse_all
  node-roundtrip (Node.start id) h = simp (py.to_str-str id)
  node-roundtrip (Node.end_of id) h = simp (py.to_str-str id)
  node-roundtrip (Node.task id definition []) h = rw (py.to_str-str id, py.to_str-str definition, h)
  node-roundtrip (Node.task id definition (b ∷ bs)) h = rw (
    items-array (map (binding_json {F = F}) bs),
    source-roundtrip b.input_key b.locked b.source,
    bindings-roundtrip bs,
    py.to_str-str id,
    py.to_str-str definition,
    h,
  )

  nodes-roundtrip :
      (ns : List Node)
      → All IsNamed ns
      → parse_all (node_from_dict {F = F}) (map node_json ns) ≡ ok (map meant_node ns)
  unfolding parse_all
  nodes-roundtrip [] h = refl
  nodes-roundtrip (n ∷ ns) h = rw (node-roundtrip n h.0, nodes-roundtrip ns h.1)

  edges-roundtrip :
      (es : List GraphEdge) → parse_all (edge_from_dict {F = F}) (map edge_json es) ≡ ok es
  unfolding parse_all edge_from_dict edge_json lookup
  edges-roundtrip [] = refl
  edges-roundtrip (e ∷ es) =
      rw (py.to_str-str e.id, py.to_str-str e.source, py.to_str-str e.target, edges-roundtrip es)

  -- If each task names its definition, then the JSON of a definition is read as the graph of the
  -- nodes and edges that it means.
  pub from_definition_json-definition_json :
      (description : String) (ns : List Node) (es : List GraphEdge)
      → All IsNamed ns
      → from_definition_json (definition_json {F = F} description ns es)
        ≡ ok (make_graph (some description) (map meant_node ns) es)
  unfolding from_definition_json definition_json lookup
  from_definition_json-definition_json description ns es h = rw (
    items-array (map (node_json {F = F}) ns),
    nodes-roundtrip ns h,
    items-array (map (edge_json {F = F}) es),
    edges-roundtrip es,
  )
