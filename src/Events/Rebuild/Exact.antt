-- ===== src/Events/Rebuild/Exact.antt =====
-- A rebuild of the read models changes nothing that the log did not say.
use workfllow_execution.Prelude.{length, none, List, [], keep, ◌≡◌, refl, ap, ◌∙◌}
use workfllow_execution.Errors.{ok}
use workfllow_execution.Action
use workfllow_execution.Action.{Action, for_each, pure, then-ok, ◌>>◌}
use workfllow_execution.Json.{Python}
use workfllow_execution.Events.{StoredEvent}
use workfllow_execution.Events.Append.{list_events, by_sequence, is_after}
use workfllow_execution.Events.Store.{dispatch, default_registry}
use workfllow_execution.Events.Store.Dispatch.{views}
use workfllow_execution.Events.Rebuild.{rebuild}
use workfllow_execution.Events.Rebuild.Log.{
  IsLogged, Numbered, for_each-replay, by_sequence-Numbered, keep-all,
}
use workfllow_execution.Tables.{Tables}
use workfllow_execution.Tables.Projections.{delete_projections_for_instance}

module _ {F : Type 0} ⦃py : Python F⦄ where
  -- The tables with no projections, the handlers' loop and what follows it.
  abbrev emptied : Tables F → Tables F
  emptied db = record db { projection = none; node_projections = [] }

  abbrev resend : List (StoredEvent F) → Action (Tables F) Unit
  resend es = for_each es (dispatch default_registry)

  abbrev list_all : Tables F → List (StoredEvent F)
  list_all db = by_sequence (keep (is_after none) db.events)

  resend_all : (db : Tables F) → Numbered 0 db.events → list_all db ≡ db.events
  resend_all db n = ap by_sequence (keep-all db.events) ∙ by_sequence-Numbered 0 db.events n

  rebuild-resend :
      (db : Tables F)
      → Numbered 0 db.events
      → rebuild db ≡ (resend db.events >> pure (length db.events)) (emptied db)
  unfolding rebuild list_events delete_projections_for_instance Action.run
  rebuild-resend db n = ap (λ es. (resend es >> pure (length es)) (emptied db)) (resend_all db n)

  -- If the log is numbered without gaps and the projections are its replay, a rebuild returns the
  -- number of events, and leaves the projections and the log as they are.
  pub rebuild_lem :
      (db : Tables F)
      → IsLogged db
      → ((rebuild db).0 ≡ ok (length db.events))
        × (views (rebuild db).1 ≡ views db)
        × ((rebuild db).1.events ≡ db.events)
  unfolding Action.pure
  rebuild_lem db i =
      let run = for_each-replay db.events (emptied db) (views db) i.replayed in
      rw
        (rebuild-resend db i.numbered
          ∙ then-ok (resend db.events) (pure (length db.events)) (emptied db) tt run.returned)
        (refl, run.viewed, run.kept)
