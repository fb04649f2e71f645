-- ===== src/Tables/Projections.antt =====
-- `ProjectionRepository` of app/infrastructure/db/repositories/projections.py.
use workfllow_execution.Prelude.{String, Option, none, some, List, [], lookup, insert}
use workfllow_execution.Action.{Action, query, write}
use workfllow_execution.Json.{Dict}
use workfllow_execution.Events.State.{WorkflowState}
use workfllow_execution.Tables.{Tables, NodeInstance}

module _ {F : Type 0} where
  unfoldable pub get_workflow_state : Action (Tables F) (Option (WorkflowState F))
  get_workflow_state = query (λ db. db.projection)

  unfoldable pub upsert_workflow_projection : WorkflowState F → Action (Tables F) Unit
  upsert_workflow_projection state = write (λ db. record db { projection = some state })

  unfoldable pub delete_projections_for_instance : Action (Tables F) Unit
  delete_projections_for_instance =
      write (λ db. record db { projection = none; node_projections = [] })

  -- The join of the node instances with their projections.
  abbrev pub values_of : Option NodeInstance → List (String × Dict F) → Option (Dict F)
  values_of none projections = none
  values_of (some n) projections = lookup n.id projections

  unfoldable pub get_node_values_by_graph_id : String → Action (Tables F) (Option (Dict F))
  get_node_values_by_graph_id node_id =
      query (λ db. values_of (lookup node_id db.node_instances) db.node_projections)

  -- A row that is there is emptied; no row is made.
  abbrev pub cleared : String → List (String × Dict F) → List (String × Dict F)
  cleared id projections = elim (lookup id projections) [
    | none ↦ projections
    | some v ↦ insert id [] projections
  ]

  unfoldable pub clear_node_projection : String → Action (Tables F) Unit
  clear_node_projection id =
      write (λ db. record db { node_projections = cleared id db.node_projections })

  unfoldable pub upsert_node_projection : String → Dict F → Action (Tables F) Unit
  upsert_node_projection id values =
      write (λ db. record db { node_projections = insert id values db.node_projections })
