-- ===== src/Validation/Wiring.antt =====
-- app/domain/validation/input_wiring.py: where the inputs of a task may come from. `strip` is
-- Python's `str.strip`, and `none` is a failed assertion.
pub mod Ancestors
pub mod Wired
use workfllow_execution.Prelude.{String, ◌==◌, Bool, true, false, if◌then◌else◌}
use workfllow_execution.Prelude.{Option, none, some, List, [], ◌∷◌, ◌++◌, keep, map, contains}
use workfllow_execution.Prelude.{lookup, insert, not}
use workfllow_execution.Graph.{NodeKind, GraphEdge, Adjacency, neighbours}
use workfllow_execution.Graph.Walk.{worklist, rounds}
use workfllow_execution.Graph.Parse.Print.{Source, Binding, upstream, metadata}
use workfllow_execution.Validation.{Issue, WorkflowNode, Workflow, task_nodes, is_task}
use workfllow_execution.Validation.Topology.{issue, bind, for_all}

-- A dict from the ids of node definitions to sets of field ids.
abbrev pub FieldSets : Type 0
FieldSets = List (String × List String)

-- `incoming[edge.target].append(edge.source)` over the edges, on a defaultdict
pub incoming : Adjacency → List GraphEdge → Adjacency
incoming d [] = d
incoming d (e ∷ es) = incoming (insert e.target (neighbours d e.target ++ e.source ∷ []) d) es

-- The walk back from a node.
abbrev pub seen_from : Adjacency → String → Option (List String)
seen_from d x = worklist (neighbours d) (rounds d (neighbours d x)) (neighbours d x) []

pub ancestors_into :
    Adjacency
    → List (String × List String)
    → List WorkflowNode
    → Option (List (String × List String))
ancestors_into d found [] = some found
ancestors_into d found (n ∷ ns) =
    bind (seen_from d n.id) (λ seen. ancestors_into d (insert n.id seen found) ns)

-- `_ancestors_by_node`
unfoldable pub ancestors_by_node : Workflow → Option (List (String × List String))
unfolding incoming ancestors_into
ancestors_by_node workflow = ancestors_into (incoming [] workflow.edges) [] workflow.nodes

-- `{node.id: node for node in workflow.nodes}`
pub index_by_id : List (String × WorkflowNode) → List WorkflowNode → List (String × WorkflowNode)
index_by_id d [] = d
index_by_id d (n ∷ ns) = index_by_id (insert n.id n d) ns

abbrev pub fields_of : FieldSets → String → List String
fields_of sets d = neighbours sets d

abbrev pub or_empty : Option String → String
or_empty none = ""
or_empty (some s) = s

abbrev pub unless : Bool → List Issue → List Issue
unless true issues = []
unless false issues = issues

-- `SYSTEM_METADATA_KEYS`
abbrev pub system_metadata_keys : List String
system_metadata_keys =
    "rfqId" ∷ "estimateRevision" ∷ "estimatedBy" ∷ "runName" ∷ "currentTotal" ∷ []

-- `UNKNOWN_INPUT_KEY`
abbrev pub key_issues : FieldSets → WorkflowNode → Binding → List Issue
key_issues input_fields node input =
    unless (contains (fields_of input_fields (or_empty node.node_definition_id)) input.input_key) (
      issue "UNKNOWN_INPUT_KEY" "nodes"
        (node.id ∷ input.input_key ∷ or_empty node.node_definition_id ∷ []))

-- The last checks of an upstream source, of a node that was found.
abbrev pub upstream_output_issues :
    FieldSets
    → List String
    → WorkflowNode
    → String
    → String
    → String
    → WorkflowNode
    → Option (List Issue)
upstream_output_issues output_fields ancestors node input_key from output source =
    if is_task source
    then (if contains ancestors from
        then (elim source.node_definition_id [
          | none ↦ none
          | some d ↦ some (
              unless (contains (fields_of output_fields d) output)
                (issue "UNKNOWN_OUTPUT_KEY" "nodes" (node.id ∷ input_key ∷ from ∷ output ∷ d ∷ [])))
        ])
        else some (issue "UPSTREAM_NOT_ANCESTOR" "nodes" (node.id ∷ input_key ∷ from ∷ [])))
    else some (issue "INVALID_UPSTREAM_NODE_KIND" "nodes" (node.id ∷ from ∷ []))

abbrev pub upstream_issues :
    FieldSets
    → List String
    → WorkflowNode
    → String
    → String
    → String
    → Option WorkflowNode
    → Option (List Issue)
upstream_issues output_fields ancestors node input_key from output none =
    some (issue "INVALID_UPSTREAM_NODE" "nodes" (node.id ∷ input_key ∷ from ∷ []))
upstream_issues output_fields ancestors node input_key from output (some source) =
    upstream_output_issues output_fields ancestors node input_key from output source

module _ (strip : String → String) where
  -- `metadata_field_keys`
  abbrev pub metadata_field_keys : Workflow → List String
  metadata_field_keys workflow = keep (λ k. not (k == "")) (map strip workflow.metadata_keys)

  -- `_allowed_metadata_keys`
  abbrev pub allowed_metadata_keys : Workflow → List String
  allowed_metadata_keys workflow = system_metadata_keys ++ metadata_field_keys workflow

  -- `source.key.strip() if source.key else ""`
  abbrev pub cleaned_key : String → String
  cleaned_key key = if key == "" then "" else strip key

  abbrev pub metadata_issues : Workflow → WorkflowNode → String → String → List Issue
  metadata_issues workflow node input_key key =
      if cleaned_key key == ""
      then issue "EMPTY_METADATA_KEY" "nodes" (node.id ∷ input_key ∷ [])
      else unless (contains (allowed_metadata_keys workflow) (cleaned_key key))
          (issue "UNKNOWN_METADATA_KEY" "nodes" (node.id ∷ input_key ∷ cleaned_key key ∷ []))

  module _ (output_fields input_fields : FieldSets) (workflow : Workflow) where
    -- The schema of the payload leaves no third kind of source.
    abbrev pub source_issues : List String → WorkflowNode → String → Source → Option (List Issue)
    source_issues ancestors node input_key (metadata key) =
        some (metadata_issues workflow node input_key key)
    source_issues ancestors node input_key (upstream from output) =
        upstream_issues output_fields ancestors node input_key from output
          (lookup from (index_by_id [] workflow.nodes))

    abbrev pub input_issues : List String → WorkflowNode → Binding → Option (List Issue)
    input_issues ancestors node input =
        bind (source_issues ancestors node input.input_key input.source)
          (λ issues. some (key_issues input_fields node input ++ issues))

    abbrev pub inputs_of : WorkflowNode → List Binding
    inputs_of node = elim node.inputs [ none ↦ [] | some inputs ↦ inputs ]

    abbrev pub node_issues : List (String × List String) → WorkflowNode → Option (List Issue)
    node_issues ancestors node =
        for_all (input_issues (neighbours ancestors node.id) node) (inputs_of node)

    unfoldable pub validate_input_wiring : Option (List Issue)
    unfolding for_all index_by_id
    validate_input_wiring =
        bind (ancestors_by_node workflow)
          (λ ancestors. for_all (node_issues ancestors) (task_nodes workflow))
