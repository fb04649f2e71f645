-- ===== src/Orchestrator/Invariant/Logged/Started.antt =====
-- A workflow that is started has a log from its first event on.
use workfllow_execution.Prelude.{ℕ, String, refl, Option, none, []}
use workfllow_execution.Json.{Json, Dict, Python}
use workfllow_execution.Events.Rebuild.Log.{IsLogged}
use workfllow_execution.Catalog.{Shelf}
use workfllow_execution.Tables.{Tables}
use workfllow_execution.Orchestrator.{Services}
use workfllow_execution.Orchestrator.Start.{StartRequest, start_workflow}
use workfllow_execution.Orchestrator.Invariant.Logged.{Continues, continues_invariant}
use workfllow_execution.Orchestrator.Start.Begun.{Gives-start_workflow}
use workfllow_execution.Events.Rebuild.Log.{replay}
use workfllow_execution.Orchestrator.Invariant.Runs.{Runs, Runs-Holds}

-- Nothing is in the tables of an instance before it is started.
abbrev pub no_tables : {F : Type 0} → ℕ → Tables F
no_tables now = record {
  instance_row = none;
  node_instances = [];
  executions = [];
  snapshot = none;
  events = [];
  projection = none;
  node_projections = [];
  now = now;
}

empty-IsLogged : {F : Type 0} ⦃py : Python F⦄ (now : ℕ) → IsLogged (no_tables {F = F} now)
unfolding replay
empty-IsLogged now = record { numbered = tt; replayed = refl }

module _ {F : Type 0} ⦃py : Python F⦄ (services : Services F) (workflows : Shelf (Json F))
    (nodes : Shelf (Dict F)) (new_id : String → String) (r : StartRequest F)
    (source : Option (Tables F)) (now : ℕ) where
  begun-Continues :
      Continues
        (no_tables now)
        (start_workflow services workflows nodes new_id r source (no_tables now)).1
  unfolding continues_invariant
  begun-Continues =
      (Gives-start_workflow services (continues_invariant services.hashing (no_tables now))
          (λ i e. tt) (λ n e. tt) workflows nodes new_id r source).kept
        (no_tables now) (record { logged = empty-IsLogged now; later = []; continued = refl })

  -- From the start of a workflow on, whether the start succeeds or raises, and after any sequence
  -- of requests to it, those that fail included: the sequence numbers of the log have no gaps, and
  -- the projections are the replay of the log.
  pub start_workflow-IsLogged :
      (d : Tables F)
      → Runs services (start_workflow services workflows nodes new_id r source (no_tables now)).1 d
      → IsLogged d
  unfolding continues_invariant
  start_workflow-IsLogged d p =
      let c =
        Runs-Holds services (continues_invariant services.hashing (no_tables now)) begun-Continues
          p in
      c.logged
