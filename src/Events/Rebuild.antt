-- ===== src/Events/Rebuild.antt =====
-- `ProjectionRebuilder` of app/application/events/rebuilder.py, and the invariant of the log that
-- makes a rebuild harmless.
pub mod Log
pub mod Exact
pub mod Appended
pub mod Chain
use workfllow_execution.Prelude.{ℕ, length, Option, none}
use workfllow_execution.Action.{Action, pure, for_each, ◌>>=◌, ◌>>◌}
use workfllow_execution.Json.{Python}
use workfllow_execution.Events.Append.{list_events}
use workfllow_execution.Events.Store.{dispatch, default_registry}
use workfllow_execution.Tables.{Tables}
use workfllow_execution.Tables.Projections.{delete_projections_for_instance}

module _ {F : Type 0} ⦃py : Python F⦄ where
  unfoldable pub rebuild : Action (Tables F) ℕ
  rebuild = do
    delete_projections_for_instance
    events ← list_events none
    for_each events (dispatch default_registry)
    pure (length events)
