-- ===== src/Events/Store/Aside.antt =====
-- What `append` keeps of the tables besides the log, the projections and the snapshot.
use workfllow_execution.Prelude.{ℕ, zero, suc, ◌≡◌, refl, String, Option, none, some, List}
use workfllow_execution.Action
use workfllow_execution.Action.{Action, for_each}
use workfllow_execution.Action.Gives.{
  Gives, Any, Gives-pure, Gives-raise, Gives-lift, Gives-query, Gives-write, Gives-bind, Gives-then,
  Gives-if, Gives-when,
}
use workfllow_execution.Json.{Json, Dict, Python, truthy}
use workfllow_execution.Events
use workfllow_execution.Events.{EventType, Payload, StoredEvent}
use workfllow_execution.Events.State.{WorkflowState}
use workfllow_execution.Events.Append.{
  append_event, append_rounds, get_next_sequence_number, get_latest_event, sequence_or_next,
}
use workfllow_execution.Events.Store.{
  Hashing, append, dispatch, register, default_registry, handle_workflow, handle_node,
  handle_snapshot, save_snapshot, save_first,
}
use workfllow_execution.Tables.{Tables}
use workfllow_execution.Tables.Instances.{create_snapshot}
use workfllow_execution.Tables.Projections.{
  get_workflow_state, upsert_workflow_projection, clear_node_projection, upsert_node_projection,
}

-- A predicate that the log and the projections do not enter, and that a first snapshot keeps.
pub record IsAside {F : Type 0} (P : Tables F → Type 0) : Type 0 where
  pub log : (db : Tables F) (es : List (StoredEvent F)) → P db → P (record db { events = es })
  pub state :
      (db : Tables F) (s : Option (WorkflowState F)) → P db → P (record db { projection = s })
  pub values :
      (db : Tables F) (vs : List (String × Dict F)) → P db → P (record db { node_projections = vs })
  pub first_snapshot :
      (db : Tables F) (json : Json F)
      → db.snapshot ≡ none
      → P db
      → P (record db { snapshot = some json })

module _ {F : Type 0} ⦃py : Python F⦄ {P : Tables F → Type 0} (aside : IsAside P) where
  sequence-Aside : (n : Option ℕ) → Gives P Any (sequence_or_next n)
  unfolding sequence_or_next get_next_sequence_number
  sequence-Aside none = Gives-query _ (λ _ _. tt)
  sequence-Aside (some n) = Gives-pure n tt

  append_rounds-Aside :
      (k : ℕ) (rivals : List (List (StoredEvent F))) (n : Option ℕ) (draft : StoredEvent F)
      → Gives P Any (append_rounds k rivals n draft)
  unfolding append_rounds
  append_rounds-Aside zero rivals n draft = Gives-raise _
  append_rounds-Aside (suc k) rivals n draft = Gives-bind {Q = Any} _ _ (sequence-Aside n) (λ i _.
      Gives-then _ _ (Gives-write _ (λ db h. aside.log db _ h)) (
        Gives-bind {Q = Any} _ _ (Gives-query _ (λ _ _. tt)) (λ taken _.
          Gives-if taken _ _ (append_rounds-Aside k _ none draft)
            (Gives-then _ _ (Gives-write _ (λ db h. aside.log db _ h)) (Gives-pure _ tt)))))

  append_event-Aside :
      (rivals : List (List (StoredEvent F))) (n : Option ℕ) (draft : StoredEvent F)
      → Gives P Any (append_event rivals n draft)
  unfolding append_event
  append_event-Aside rivals n draft = append_rounds-Aside 3 rivals n draft

  handle_workflow-Aside : (e : StoredEvent F) → Gives P Any (handle_workflow e)
  unfolding handle_workflow get_workflow_state upsert_workflow_projection
  handle_workflow-Aside e = Gives-bind {Q = Any} _ _ (Gives-query _ (λ _ _. tt)) (λ s _.
      Gives-bind {Q = Any} _ _ (Gives-lift _ (λ _ _. tt))
        (λ t _. Gives-write _ (λ db h. aside.state db _ h)))

  handle_node-Aside : (e : StoredEvent F) → Gives P Any (handle_node e)
  unfolding handle_node clear_node_projection upsert_node_projection
  handle_node-Aside e = Gives-bind {Q = Any} _ _ (Gives-lift _ (λ _ _. tt)) (λ id _.
      Gives-if _ _ _ (Gives-write _ (λ db h. aside.values db _ h))
        (Gives-write _ (λ db h. aside.values db _ h)))

  kept-first :
      (o : Option (Json F)) (json : Json F) (db : Tables F)
      → db.snapshot ≡ o
      → P db
      → P (save_first o json db).1
  unfolding save_first create_snapshot Action.run
  kept-first none json db e h = aside.first_snapshot db json e h
  kept-first (some old) json db e h = h

  -- The snapshot is written only where there is none.
  save_snapshot-Aside : (o : Option (Json F)) → Gives P Any (save_snapshot o)
  unfolding save_snapshot Action.run
  save_snapshot-Aside none = Gives-pure tt tt
  save_snapshot-Aside (some json) =
      Gives-when (truthy json) _
        (record { kept = λ db h. kept-first db.snapshot json db refl h; given = λ _ _ _ _. tt })

  handle_snapshot-Aside : (e : StoredEvent F) → Gives P Any (handle_snapshot e)
  unfolding handle_snapshot
  handle_snapshot-Aside e = save_snapshot-Aside (Events.snapshot_json e.payload)

  dispatch-Aside : (e : StoredEvent F) → Gives P Any (dispatch default_registry e)
  unfolding dispatch default_registry register for_each
  dispatch-Aside e = Gives-then _ _ (Gives-when _ _ (handle_workflow-Aside e)) (
      Gives-then _ _ (Gives-when _ _ (handle_node-Aside e))
        (Gives-then _ _ (Gives-when _ _ (handle_snapshot-Aside e)) (Gives-pure tt tt)))

  -- Whatever the event is, and whatever rivals commit meanwhile.
  pub append-Aside :
      (hashing : Hashing F) (rivals : List (List (StoredEvent F))) (t : EventType) (p : Payload F)
      (by : Option String)
      → Gives P Any (append hashing rivals t p by)
  unfolding append get_next_sequence_number get_latest_event
  append-Aside hashing rivals t p by = Gives-bind {Q = Any} _ _ (Gives-query _ (λ _ _. tt)) (λ n _.
      Gives-bind {Q = Any} _ _ (Gives-query _ (λ _ _. tt)) (λ l _.
        Gives-bind {Q = Any} _ _ (append_event-Aside rivals _ _)
          (λ e _. Gives-then _ _ (dispatch-Aside e) (Gives-pure e tt))))
