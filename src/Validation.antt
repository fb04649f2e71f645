-- ===== src/Validation.antt =====
-- What a definition has to satisfy before it is published: app/domain/validation, over the payload
-- of app/modules/definitions/schemas/workflows.py.
pub mod Topology
pub mod Backwards
pub mod Wiring
pub mod Pipeline
use workfllow_execution.Prelude.{String, ◌==◌, Bool, true, false, not, ◌&&◌, if◌then◌else◌}
use workfllow_execution.Prelude.{Option, none, some, List, [], ◌∷◌, keep, map}
use workfllow_execution.Errors.{Result, ok, err, value_error}
use workfllow_execution.Graph.{NodeKind, GraphEdge, kind_eq}
use workfllow_execution.Graph.Parse.Print.{Binding}

-- `ValidationIssue`: the code, the field and the ids that the details name, in no special order.
pub record Issue : Type 0 where
  pub issue_code : String
  pub at_field : String
  pub names : List String

-- `WorkflowNode`, less its position on the canvas.
pub record WorkflowNode : Type 0 where
  pub id : String
  pub kind : NodeKind
  pub node_definition_id : Option String
  pub label : Option String
  pub name : Option String
  pub inputs : Option (List Binding)

-- `WorkflowDefinitionIngest`: what the checks read. Of the metadata fields they read the keys.
pub record Workflow : Type 0 where
  pub id : String
  pub slug : Option String
  pub metadata_keys : List String
  pub nodes : List WorkflowNode
  pub edges : List GraphEdge

abbrev is_blank : Option String → Bool
is_blank none = true
is_blank (some s) = s == ""

abbrev name_label : WorkflowNode → Option String
name_label node = if is_blank node.label && not (is_blank node.name) then node.name else node.label

-- `WorkflowNode.validate_kind_requirements`
unfoldable pub validate_kind_requirements : WorkflowNode → Result WorkflowNode
validate_kind_requirements node = elim node.kind [
  | NodeKind.task ↦
      if is_blank node.node_definition_id
      then err value_error
      else ok (record node { label = name_label node })
  | _ ↦ if is_blank node.node_definition_id then ok node else err value_error
]

abbrev pub is_task : WorkflowNode → Bool
is_task node = kind_eq node.kind NodeKind.task

abbrev pub of_kind : NodeKind → Workflow → List WorkflowNode
of_kind kind workflow = keep (λ n. kind_eq n.kind kind) workflow.nodes

-- `task_nodes`
abbrev pub task_nodes : Workflow → List WorkflowNode
task_nodes workflow = keep is_task workflow.nodes

abbrev pub node_ids : Workflow → List String
node_ids workflow = map (λ n. n.id) workflow.nodes
