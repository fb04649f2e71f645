-- ===== src/Events/Store/Dispatch.antt =====
-- What the dispatch of an event does to the two projections, as a function of them alone.
use workfllow_execution.Prelude.{
  ℕ, String, true, ◌≡◌, refl, ap, inl, inr, Bool-cases, Option-cases, arith,
}
use workfllow_execution.Prelude.{if◌then◌else◌, Option, none, some, List, [], insert}
use workfllow_execution.Errors.{Result, ok, ◌>>=◌, bind-eq-ok, ok-injective}
use workfllow_execution.Action
use workfllow_execution.Action.{◌>>◌, pure}
use workfllow_execution.Json.{Json, Dict, Python, truthy}
use workfllow_execution.Events
use workfllow_execution.Events.{EventType, Payload, StoredEvent, event_eq}
use workfllow_execution.Events.State.{WorkflowState, apply_workflow_projection_event}
use workfllow_execution.Events.State.Accepts.{fits, apply-fits}
use workfllow_execution.Events.Store.{
  dispatch, default_registry, state_or_initial, handle_workflow, handle_node, handle_snapshot,
}
use workfllow_execution.Tables.{Tables}
use workfllow_execution.Tables.Instances.{create_snapshot}
use workfllow_execution.Tables.Projections.{
  cleared, get_workflow_state, upsert_workflow_projection, clear_node_projection,
  upsert_node_projection,
}

-- The read models of an instance.
pub record Views (F : Type 0) : Type 0 where
  pub projection : Option (WorkflowState F)
  pub node_projections : List (String × Dict F)

module _ {F : Type 0} where
  abbrev pub no_views : Views F
  no_views = record { projection = none; node_projections = [] }

  abbrev pub views : Tables F → Views F
  views db = record { projection = db.projection; node_projections = db.node_projections }

  unfoldable pub project_nodes :
      EventType → Payload F → List (String × Dict F) → Result (List (String × Dict F))
  project_nodes EventType.node_completed p nodes = do
    id ← Events.node_instance_id p
    ok (insert id (Events.outputs p) nodes)
  project_nodes EventType.node_invalidated p nodes = do
    id ← Events.node_instance_id p
    ok (cleared id nodes)
  project_nodes _ p nodes = ok nodes

  nodes-fits :
      (t : EventType) (p : Payload F) (nodes : List (String × Dict F))
      → fits t p ≡ true
      → (out : List (String × Dict F)) × (project_nodes t p nodes ≡ ok out)
  unfolding project_nodes
  nodes-fits EventType.node_completed (Payload.completed i n k o c) nodes h = (_, refl)
  nodes-fits EventType.node_invalidated (Payload.invalidated i n r u) nodes h = (_, refl)
  nodes-fits EventType.node_completed _ nodes h = absurd (cc)
  nodes-fits EventType.node_invalidated _ nodes h = absurd (cc)
  nodes-fits _ p nodes h = (nodes, refl)

module _ {F : Type 0} ⦃py : Python F⦄ where
  unfoldable pub project : StoredEvent F → Views F → Result (Views F)
  project e v = do
    state ← apply_workflow_projection_event (state_or_initial v.projection) e
    nodes ← project_nodes e.event_type e.payload v.node_projections
    ok (record { projection = some state; node_projections = nodes })

  handle_workflow_lem :
      (e : StoredEvent F) (db : Tables F) (s : WorkflowState F)
      → apply_workflow_projection_event (state_or_initial db.projection) e ≡ ok s
      → handle_workflow e db ≡ (ok tt, record db { projection = some s })
  unfolding handle_workflow get_workflow_state upsert_workflow_projection Action.run
  handle_workflow_lem e db s h = rw h

  handle_node_lem :
      (e : StoredEvent F) (db : Tables F) (id : String)
      → Events.node_instance_id e.payload ≡ ok id
      → handle_node e db ≡ (
        ok tt,
        record db {
          node_projections =
              if event_eq e.event_type EventType.node_invalidated
              then cleared id db.node_projections
              else insert id (Events.outputs e.payload) db.node_projections;
        },
      )
  unfolding handle_node clear_node_projection upsert_node_projection Action.run
  handle_node_lem e db id h = elim (Bool-cases (event_eq e.event_type EventType.node_invalidated)) [
    | inl y ↦ rw (h, y)
    | inr n ↦ rw (h, n)
  ]

  -- The first snapshot stays.
  abbrev saved : Option (Json F) → Option (Json F) → Option (Json F)
  saved none s = s
  saved (some j) none = if truthy j then some j else none
  saved (some j) (some s) = some s

  handle_snapshot_lem :
      (e : StoredEvent F) (db : Tables F)
      → handle_snapshot e db
        ≡ (ok tt, record db { snapshot = saved (Events.snapshot_json e.payload) db.snapshot })
  unfolding handle_snapshot create_snapshot Action.run
  handle_snapshot_lem e db = elim (Option-cases (Events.snapshot_json e.payload)) [
    | inl no_json ↦ rw no_json
    | inr (j, is_json) ↦ rw is_json (elim (Bool-cases (truthy j)) [
      | inl kept ↦ elim (Option-cases db.snapshot) [
        | inl first ↦ ground arith
        | inr old ↦ ground arith
      ]
      | inr empty ↦ ground arith
    ])
  ]

  -- The snapshot after an event.
  pub snapshot_after : StoredEvent F → Option (Json F) → Option (Json F)
  snapshot_after e s =
      if event_eq e.event_type EventType.workflow_started
      then saved (Events.snapshot_json e.payload) s
      else s

  -- The tables after an event.
  abbrev pub after : StoredEvent F → Views F → Tables F → Tables F
  after e v db = record db {
    projection = v.projection;
    node_projections = v.node_projections;
    snapshot = snapshot_after e db.snapshot;
  }

  abbrev event :
      ℕ → EventType → Payload F → Option String → Option String → Option String → StoredEvent F
  event n t p h c b = record {
    sequence_number = n;
    event_type = t;
    payload = p;
    previous_hash = h;
    current_hash = c;
    created_by = b;
  }

  abbrev done : StoredEvent F → Tables F → Views F → Result (Unit {0}) × Tables F
  done e db v = (ok tt, after e v db)

  result :
      (e : StoredEvent F) (db : Tables F) {w v : Views F} → ok w ≡ ok v → done e db w ≡ done e db v
  result e db h = ap (done e db) (ok-injective h)

  dispatch_fields :
      (n : ℕ) (t : EventType) (p : Payload F) (h c b : Option String) (db : Tables F) (v : Views F)
      → project (event n t p h c b) (views db) ≡ ok v
      → dispatch default_registry (event n t p h c b) db ≡ (ok tt, after (event n t p h c b) v db)
  unfolding project project_nodes snapshot_after dispatch default_registry Action.run
  dispatch_fields n EventType.workflow_started p h c b db v e =
      let ev = event n EventType.workflow_started p h c b in
      let (s, es, e1) =
        bind-eq-ok (apply_workflow_projection_event (state_or_initial db.projection) ev) _ e in
      rw
        (handle_workflow_lem ev db s es, handle_snapshot_lem ev (record db { projection = some s }))
        (result ev db e1)
  dispatch_fields n EventType.node_completed p h c b db v e =
      let ev = event n EventType.node_completed p h c b in
      let (s, es, e1) =
        bind-eq-ok (apply_workflow_projection_event (state_or_initial db.projection) ev) _ e in
      let (nodes, en, e2) =
        bind-eq-ok (project_nodes EventType.node_completed p db.node_projections) _ e1 in
      let (id, ei, e3) = bind-eq-ok (Events.node_instance_id p) _ en in
      rw
        (
          handle_workflow_lem ev db s es,
          handle_node_lem ev (record db { projection = some s }) id ei,
        )
        (rw (ok-injective e3) (result ev db e2))
  dispatch_fields n EventType.node_invalidated p h c b db v e =
      let ev = event n EventType.node_invalidated p h c b in
      let (s, es, e1) =
        bind-eq-ok (apply_workflow_projection_event (state_or_initial db.projection) ev) _ e in
      let (nodes, en, e2) =
        bind-eq-ok (project_nodes EventType.node_invalidated p db.node_projections) _ e1 in
      let (id, ei, e3) = bind-eq-ok (Events.node_instance_id p) _ en in
      rw
        (
          handle_workflow_lem ev db s es,
          handle_node_lem ev (record db { projection = some s }) id ei,
        )
        (rw (ok-injective e3) (result ev db e2))
  dispatch_fields n t p h c b db v e =
      let ev = event n t p h c b in
      let (s, es, e1) =
        bind-eq-ok (apply_workflow_projection_event (state_or_initial db.projection) ev) _ e in
      rw (handle_workflow_lem ev db s es) (result ev db e1)

  -- Where `project` succeeds, the dispatch of an event to the default handlers returns, has that
  -- effect on the two projections, may set the snapshot and changes nothing else.
  pub dispatch-project :
      (e : StoredEvent F) (db : Tables F) (v : Views F)
      → project e (views db) ≡ ok v
      → dispatch default_registry e db ≡ (ok tt, after e v db)
  dispatch-project e db v h =
      dispatch_fields e.sequence_number e.event_type e.payload e.previous_hash e.current_hash
        e.created_by db v h

  -- Every event whose payload has the class of its type can be projected.
  pub project-fits :
      (e : StoredEvent F) (v : Views F)
      → fits e.event_type e.payload ≡ true
      → (w : Views F) × (project e v ≡ ok w)
  unfolding project
  project-fits e v h =
      let (s, hs) = apply-fits (state_or_initial v.projection) e h in
      let (nodes, hn) = nodes-fits e.event_type e.payload v.node_projections h in
      (record { projection = some s; node_projections = nodes }, rw (hs, hn))
