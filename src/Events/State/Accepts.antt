-- ===== src/Events/State/Accepts.antt =====
-- The reducer takes every event whose payload has the class that the engine sends with its type.
use workfllow_execution.Prelude.{Bool, true, false, ◌≡◌, refl}
use workfllow_execution.Errors.{ok}
use workfllow_execution.Json.{Python}
use workfllow_execution.Events.{EventType, Payload, StoredEvent}
use workfllow_execution.Events.State.{WorkflowState, apply_event, apply_workflow_projection_event}

-- The payload has the class that the code uses with this type of event.
abbrev pub fits : {F : Type 0} → EventType → Payload F → Bool
fits EventType.workflow_started (Payload.started d v s) = true
fits EventType.workflow_paused (Payload.status_changed a b r) = true
fits EventType.workflow_resumed (Payload.status_changed a b r) = true
fits EventType.workflow_completed (Payload.status_changed a b r) = true
fits EventType.workflow_cancelled (Payload.status_changed a b r) = true
fits EventType.node_ready (Payload.ready i n v) = true
fits EventType.node_started (Payload.node_started i n k) = true
fits EventType.node_completed (Payload.completed i n k o c) = true
fits EventType.node_failed (Payload.failed i n k m c) = true
fits EventType.node_invalidated (Payload.invalidated i n r u) = true
fits _ _ = false

module _ {F : Type 0} ⦃py : Python F⦄ where
  accepts :
      (t : EventType) (p : Payload F) (s : WorkflowState F)
      → fits t p ≡ true
      → (s' : WorkflowState F) × (apply_event t p s ≡ ok s')
  unfolding apply_event
  accepts EventType.workflow_started (Payload.started d v x) s h = (_, refl)
  accepts EventType.workflow_paused (Payload.status_changed a b r) s h = (_, refl)
  accepts EventType.workflow_resumed (Payload.status_changed a b r) s h = (_, refl)
  accepts EventType.workflow_completed (Payload.status_changed a b r) s h = (_, refl)
  accepts EventType.workflow_cancelled (Payload.status_changed a b r) s h = (_, refl)
  accepts EventType.node_ready (Payload.ready i n v) s h = (_, refl)
  accepts EventType.node_started (Payload.node_started i n k) s h = (_, refl)
  accepts EventType.node_completed (Payload.completed i n k o c) s h = (_, refl)
  accepts EventType.node_failed (Payload.failed i n k m c) s h = (_, refl)
  accepts EventType.node_invalidated (Payload.invalidated i n r u) s h = (_, refl)
  accepts _ _ s h = absurd (cc)

  pub apply-fits :
      (s : WorkflowState F) (e : StoredEvent F)
      → fits e.event_type e.payload ≡ true
      → (s' : WorkflowState F) × (apply_workflow_projection_event s e ≡ ok s')
  unfolding apply_workflow_projection_event
  apply-fits s e h =
      accepts e.event_type e.payload (record s { last_sequence = e.sequence_number }) h
