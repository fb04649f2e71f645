-- ===== src/Events/Store.antt =====
-- `EventStore`, `EventHandlerRegistry` and the three handlers of app/application/events: an
-- appended event goes to every handler of its type, in the order of their registration.
pub mod Dispatch
pub mod Aside
use workfllow_execution.Prelude.{ℕ, String, Bool, true, false, ◌||◌, if◌then◌else◌}
use workfllow_execution.Prelude.{Option, none, some, List, [], ◌∷◌, ◌++◌}
use workfllow_execution.Action.{Action, pure, lift, query, when, for_each, ◌>>=◌, ◌>>◌}
use workfllow_execution.Json.{Json, Python, truthy}
use workfllow_execution.Events
use workfllow_execution.Events.{EventType, Payload, StoredEvent, event_eq}
use workfllow_execution.Events.State.{
  WorkflowState, initial_workflow_state, apply_workflow_projection_event,
}
use workfllow_execution.Events.Append.{append_event, get_next_sequence_number, get_latest_event}
use workfllow_execution.Tables.{Tables}
use workfllow_execution.Tables.Instances.{create_snapshot}
use workfllow_execution.Tables.Projections.{
  get_workflow_state, upsert_workflow_projection, clear_node_projection, upsert_node_projection,
}

pub record Handler (F : Type 0) : Type 0 where
  pub handles : List EventType
  pub handle : StoredEvent F → Action (Tables F) Unit

-- The handlers in the order of their registration.
abbrev pub Registry : Type 0 → Type 0
Registry F = List (Handler F)

abbrev handles_type : List EventType → EventType → Bool
handles_type [] t = false
handles_type (u ∷ us) t = event_eq t u || handles_type us t

module _ {F : Type 0} where
  unfoldable pub register : Handler F → Registry F → Registry F
  register handler registry = registry ++ handler ∷ []

  unfoldable pub dispatch : Registry F → StoredEvent F → Action (Tables F) Unit
  dispatch registry event =
      for_each registry
        (λ handler. when (handles_type handler.handles event.event_type) (handler.handle event))

-- The hash of an event, and whether the chain is kept. The code takes the SHA-256 of a canonical
-- JSON text of the four fields.
pub record Hashing (F : Type 0) : Type 0 where
  pub hash_chain_enabled : Bool
  pub compute_event_hash : Option String → ℕ → EventType → Payload F → String

module _ {F : Type 0} ⦃py : Python F⦄ where
  abbrev pub state_or_initial : Option (WorkflowState F) → WorkflowState F
  state_or_initial none = initial_workflow_state
  state_or_initial (some s) = s

  -- `WorkflowProjectionHandler`
  handle_workflow : StoredEvent F → Action (Tables F) Unit
  handle_workflow event = do
    current ← get_workflow_state
    updated ← lift (apply_workflow_projection_event (state_or_initial current) event)
    upsert_workflow_projection updated

  abbrev workflow_handler : Handler F
  workflow_handler = record {
    handles =
        EventType.workflow_started ∷ EventType.workflow_paused ∷ EventType.workflow_resumed
        ∷ EventType.workflow_completed ∷ EventType.workflow_cancelled ∷ EventType.node_ready
        ∷ EventType.node_started ∷ EventType.node_completed ∷ EventType.node_failed
        ∷ EventType.node_invalidated ∷ [];
    handle = handle_workflow;
  }

  -- `WorkflowNodeProjectionHandler`
  handle_node : StoredEvent F → Action (Tables F) Unit
  handle_node event = do
    id ← lift (Events.node_instance_id event.payload)
    if event_eq event.event_type EventType.node_invalidated
        then clear_node_projection id
        else upsert_node_projection id (Events.outputs event.payload)

  abbrev node_handler : Handler F
  node_handler = record {
    handles = EventType.node_completed ∷ EventType.node_invalidated ∷ [];
    handle = handle_node;
  }

  -- `WorkflowSnapshotHandler`
  save_first : Option (Json F) → Json F → Action (Tables F) Unit
  save_first none json = create_snapshot json
  save_first (some old) json = pure tt

  save_snapshot : Option (Json F) → Action (Tables F) Unit
  unfolding save_first
  save_snapshot none = pure tt
  save_snapshot (some json) =
      when (truthy json) (do old ← query (λ db. db.snapshot); save_first old json)

  handle_snapshot : StoredEvent F → Action (Tables F) Unit
  unfolding save_snapshot
  handle_snapshot event = save_snapshot (Events.snapshot_json event.payload)

  abbrev snapshot_handler : Handler F
  snapshot_handler = record { handles = EventType.workflow_started ∷ []; handle = handle_snapshot }

  -- `create_default_event_handler_registry`
  unfoldable pub default_registry : Registry F
  unfolding register handle_workflow handle_node handle_snapshot
  default_registry =
      register snapshot_handler (register node_handler (register workflow_handler []))

  abbrev pub hash_of : Option (StoredEvent F) → Option String
  hash_of none = none
  hash_of (some e) = e.current_hash

  -- `EventStore.append`, with the events that other sessions commit meanwhile.
  unfoldable pub append :
      Hashing F
      → List (List (StoredEvent F))
      → EventType
      → Payload F
      → Option String
      → Action (Tables F) (StoredEvent F)
  append hashing rivals event_type payload created_by = do
    sequence_number ← get_next_sequence_number
    latest ← get_latest_event
    let on = hashing.hash_chain_enabled
    let previous : Option String = if on then hash_of latest else none
    let current : Option String =
        if on
        then some (hashing.compute_event_hash previous sequence_number event_type payload)
        else none
    stored ← append_event rivals (some sequence_number) (record {
      sequence_number = sequence_number;
      event_type = event_type;
      payload = payload;
      previous_hash = previous;
      current_hash = current;
      created_by = created_by;
    })
    dispatch default_registry stored
    pure stored
