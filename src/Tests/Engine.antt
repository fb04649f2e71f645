-- ===== src/Tests/Engine.antt =====
-- Requests at concrete inputs.
use workfllow_execution.Prelude.{ℕ, true, ◌≡◌, refl, ap, inl}
use workfllow_execution.Prelude.{none, some, [], ◌∷◌, lookup, insert, map}
use workfllow_execution.Errors.{ok, err, invalid_transition, version_conflict}
use workfllow_execution.Action
use workfllow_execution.Status.{WorkflowStatus, NodeStatus}
use workfllow_execution.Json.{Dict, float, eq, number?}
use workfllow_execution.Definition.{get_in, declared_output}
use workfllow_execution.Executor.{
  prepare, form_fields, strip_internal_keys, run, validate_locked_inputs,
}
use workfllow_execution.Executor.UserInput.{user_input, validate_declared_output}
use workfllow_execution.Executor.UserInput.Locked.{user_input-locked, user_input-declared}
use workfllow_execution.Events.Rebuild.Log.{IsLogged, replay}
use workfllow_execution.Graph.Parse.{from_definition_json}
use workfllow_execution.Graph.Parse.Print.{
  definition_json, meant_node, from_definition_json-definition_json,
}
use workfllow_execution.Graph.{NodeKind, make_graph, require_node}
use workfllow_execution.Prelude.{◌≢◌}
use workfllow_execution.Graph.{GraphNode, InputSourceKind}
use workfllow_execution.Orchestrator.Submit.{submit_node_outputs}
use workfllow_execution.Orchestrator.Submit.Guards.{submit_refused}
use workfllow_execution.Orchestrator.Submit.Accepted.{Admits, finished, submit_ok}
use workfllow_execution.Orchestrator.Refused.{submit_not_pending, stale_refused}
use workfllow_execution.Action.Refuses.{Refuses}
use workfllow_execution.Orchestrator.Lifecycle.{pause_workflow, cancel_workflow}
use workfllow_execution.Orchestrator.Lifecycle.Changes.{completed_lem}
use workfllow_execution.Orchestrator.Invariant.Runs.{Request, Runs, perform}
use workfllow_execution.Orchestrator.Invariant.Logged.{Continues, Runs-Continues}
use workfllow_execution.Orchestrator.Invariant.Lifecycles.{Later, Runs-Later, Runs-cancelled}
use workfllow_execution.Tables.{Tables, WorkflowInstance, NodeInstance}
use workfllow_execution.Tables.Instances.{
  rows, require_workflow_instance, require_node_instance_by_graph_id, update_node_status,
  create_node_execution, save_metadata, list_node_instances, update_workflow_status,
}
use workfllow_execution.Tables.Projections.{
  get_workflow_state, get_node_values_by_graph_id, upsert_workflow_projection,
  upsert_node_projection, clear_node_projection,
}
use workfllow_execution.Orchestrator.{
  load_graph, emit, sync_current_total_metadata, advance, by_graph_id, statuses_of,
}
use workfllow_execution.Orchestrator.Inputs.{ResolvedNodeInputs, resolve}
use workfllow_execution.Orchestrator.Inputs.Locked.{resolve-locked}
use workfllow_execution.Events.Append.{append_event, get_next_sequence_number, get_latest_event}
use workfllow_execution.Events.Store.{append, dispatch, default_registry, register}
use workfllow_execution.Events.State.{apply_workflow_projection_event}
use workfllow_execution.Scheduler.{ready_task_nodes, all_tasks_completed}
use workfllow_execution.Status.NodeMachine
use workfllow_execution.Definition.{cost_contribution}
use workfllow_execution.Graph.{get_node, predecessors}
use workfllow_execution.Tests.{
  numbers, node, drafts, edges, row, instance_in, tables_in, services, entered, context,
}

abbrev running : Tables ℕ
running = tables_in WorkflowStatus.running

running-IsLogged : IsLogged running
unfolding replay
running-IsLogged = record { numbered = tt; replayed = refl }

abbrev first_submission : Request ℕ
first_submission = Request.submit "a" entered none (some 1)

abbrev submitted : Tables ℕ
submitted = (perform services first_submission running).1

Runs-Continues_example : Continues running submitted
Runs-Continues_example =
    Runs-Continues services running submitted running-IsLogged
      (Runs.next first_submission Runs.here)

Runs-Later_example :
    Later (instance_in WorkflowStatus.running) (rows running.node_instances) submitted
Runs-Later_example =
    Runs-Later services running submitted (instance_in WorkflowStatus.running) refl
      (Runs.next first_submission Runs.here)

abbrev cancelled : Tables ℕ
cancelled = tables_in WorkflowStatus.cancelled

-- A submission to a cancelled instance changes nothing.
nothing-changed : (perform services first_submission cancelled).1 ≡ cancelled
unfolding perform Action.run
nothing-changed =
    rw (submit_refused services "a" entered none (some 1) cancelled invalid_transition refl)

Runs-cancelled_example : WorkflowStatus.cancelled ≡ WorkflowStatus.cancelled
Runs-cancelled_example =
    Runs-cancelled services cancelled (perform services first_submission cancelled).1
      (instance_in WorkflowStatus.cancelled) (instance_in WorkflowStatus.cancelled) refl refl
      (Runs.next first_submission Runs.here) (ap (λ d. d.instance_row) nothing-changed)

submit_refused_example :
    submit_node_outputs services "a" entered none (some 2) running ≡ (err version_conflict, running)
submit_refused_example =
    submit_refused services "a" entered none (some 2) running version_conflict refl

from_definition_json-definition_json_example :
    from_definition_json (definition_json {F = ℕ} "line" drafts edges)
    ≡ ok (make_graph (some "line") (map meant_node drafts) edges)
from_definition_json-definition_json_example =
    from_definition_json-definition_json ℕ "line" drafts edges (tt, (refl, (refl, (tt, tt))))

submit_not_pending_example :
    Refuses running (submit_node_outputs services "b" entered none (some 1))
unfolding lookup
submit_not_pending_example =
    submit_not_pending services running "b" entered none (some 1) (row "b" NodeStatus.waiting) refl
      (λ e. absurd (cc))

stale_refused_example : Refuses running (perform services (Request.pause (some 2)))
stale_refused_example =
    stale_refused services running (instance_in WorkflowStatus.running) refl 2 (λ e. absurd (cc))
      (Request.pause (some 2)) refl

abbrev over : Tables ℕ
over = tables_in WorkflowStatus.completed

completed_lem_example :
    (pause_workflow services none over ≡ (err invalid_transition, over))
    × (cancel_workflow services none none over ≡ (err invalid_transition, over))
completed_lem_example =
    completed_lem services none none over (instance_in WorkflowStatus.completed) refl refl

-- The rate is locked, the cost is entered.
abbrev accepted : Dict ℕ
accepted = ("rate", float 3) ∷ ("cost", float 5) ∷ []

entered-accepted : user_input (λ fields values constraints. ok tt) context entered ≡ ok accepted
unfolding user_input run prepare form_fields strip_internal_keys lookup insert eq declared_output
    validate_locked_inputs validate_declared_output
entered-accepted = refl

user_input-locked_example : eq (get_in accepted "rate") (float 3) ≡ true
unfolding lookup
user_input-locked_example =
    user_input-locked (λ fields values constraints. ok tt) context entered accepted "rate" (float 3)
      entered-accepted (inl refl) refl

user_input-declared_example : (x : ℕ) × (number? (get_in accepted "cost") ≡ some x)
unfolding lookup declared_output
user_input-declared_example =
    user_input-declared (λ fields values constraints. ok tt) context entered accepted
      (record { id = "cost"; label = "cost" }) entered-accepted refl

abbrev done_a : NodeInstance
done_a = record (row "a" NodeStatus.completed) { current_execution = 1 }

submitted-ok : (submit_node_outputs services "a" entered none (some 1) running).0 ≡ ok done_a
unfolding submit_node_outputs from_definition_json definition_json Action.run
    require_workflow_instance load_graph require_node_instance_by_graph_id update_node_status
    create_node_execution save_metadata list_node_instances update_workflow_status
    get_workflow_state get_node_values_by_graph_id emit sync_current_total_metadata advance
    by_graph_id statuses_of ready_task_nodes all_tasks_completed resolve make_graph get_node
    require_node append append_event dispatch default_registry register get_next_sequence_number
    get_latest_event apply_workflow_projection_event upsert_workflow_projection
    upsert_node_projection clear_node_projection lookup insert NodeMachine.transition
    cost_contribution predecessors
submitted-ok = refl

submit_ok_example :
    (i : WorkflowInstance ℕ) × (before : NodeInstance) × (running.instance_row ≡ some i)
    × Admits services running i "a" (some 1) before
    × (done_a ≡ finished before)
submit_ok_example = submit_ok services running "a" entered none (some 1) done_a submitted-ok

-- A task that takes a rate from the metadata of the instance and locks it.
abbrev bound : GraphNode
bound = record (node "a" NodeKind.task) {
  inputs =
      record {
        input_key = "rate";
        kind = InputSourceKind.metadata;
        source_node_id = none;
        output_key = none;
        metadata_key = some "base";
        locked = true;
      }
      ∷ [];
}

abbrev bound_inputs : ResolvedNodeInputs ℕ
bound_inputs = record { values = ("rate", float 3) ∷ []; locked_keys = "rate" ∷ [] }

bound-resolved : resolve running bound (("base", float 3) ∷ []) ≡ ok bound_inputs
unfolding resolve lookup insert
bound-resolved = refl

resolve-locked_example : lookup "rate" bound_inputs.values ≢ none
resolve-locked_example =
    resolve-locked running bound (("base", float 3) ∷ []) bound_inputs "rate" bound-resolved
      (inl refl)
