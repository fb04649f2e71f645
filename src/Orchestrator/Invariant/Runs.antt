-- ===== src/Orchestrator/Invariant/Runs.antt =====
-- The requests that a client can make on an instance, one after the other.
use workfllow_execution.Prelude.{ℕ, String, Bool, false, Option, none}
use workfllow_execution.Action.{Action, pure, ◌>>◌}
use workfllow_execution.Action.Gives.{Gives, Any, Gives-pure, Gives-then}
use workfllow_execution.Json.{Dict, Python}
use workfllow_execution.Tables.{Tables}
use workfllow_execution.Orchestrator.{Services}
use workfllow_execution.Orchestrator.Submit.{submit_node_outputs}
use workfllow_execution.Orchestrator.Lifecycle.{pause_workflow, resume_workflow, cancel_workflow}
use workfllow_execution.Orchestrator.Reopen.{reopen_from_task, invalidate_downstream}
use workfllow_execution.Orchestrator.Invariant.{Invariant}
use workfllow_execution.Orchestrator.Invariant.Requests.{
  Gives-submit, Gives-pause, Gives-resume, Gives-cancel, Gives-reopen,
}

pub data Request (F : Type 0) : Type 0 where
  submit : String → Dict F → Option String → Option ℕ → Request F
  pause resume : Option ℕ → Request F
  cancel : Option ℕ → Option String → Request F
  reopen : String → String → Option ℕ → Bool → Request F
  invalidate : String → String → Request F

module _ {F : Type 0} ⦃py : Python F⦄ (services : Services F) where
  unfoldable pub perform : Request F → Action (Tables F) Unit
  perform (Request.submit id outputs by expected) =
      submit_node_outputs services id outputs by expected >> pure tt
  perform (Request.pause expected) = pause_workflow services expected >> pure tt
  perform (Request.resume expected) = resume_workflow services expected >> pure tt
  perform (Request.cancel expected reason) = cancel_workflow services expected reason >> pure tt
  perform (Request.reopen id reason expected target) =
      reopen_from_task services id reason expected target >> pure tt
  perform (Request.invalidate id reason) = invalidate_downstream services id reason >> pure tt

  -- The tables after a sequence of requests. A request that fails may leave what it wrote before,
  -- or nothing, when its session is rolled back.
  pub data Runs (db : Tables F) : Tables F → Type 0 where
    here : Runs db db
    next : {d : Tables F} (r : Request F) → Runs db d → Runs db (perform r d).1

  module _ (inv : Invariant services.hashing) where
    Gives-perform : (r : Request F) → Gives inv.Holds Any (perform r)
    unfolding perform invalidate_downstream
    Gives-perform (Request.submit id outputs by expected) =
        Gives-then _ _ (Gives-submit services inv id outputs by expected) (Gives-pure tt tt)
    Gives-perform (Request.pause expected) =
        Gives-then _ _ (Gives-pause services inv expected) (Gives-pure tt tt)
    Gives-perform (Request.resume expected) =
        Gives-then _ _ (Gives-resume services inv expected) (Gives-pure tt tt)
    Gives-perform (Request.cancel expected reason) =
        Gives-then _ _ (Gives-cancel services inv expected reason) (Gives-pure tt tt)
    Gives-perform (Request.reopen id reason expected target) =
        Gives-then _ _ (Gives-reopen services inv id reason expected target) (Gives-pure tt tt)
    Gives-perform (Request.invalidate id reason) =
        Gives-then _ _ (Gives-reopen services inv id reason none false) (Gives-pure tt tt)

    -- An invariant that holds at first holds after every sequence of requests.
    pub Runs-Holds : {db d : Tables F} → inv.Holds db → Runs db d → inv.Holds d
    Runs-Holds h here = h
    Runs-Holds h (next {d} r p) = (Gives-perform r).kept d (Runs-Holds h p)
