-- ===== src/Orchestrator/Invariant/Operations.antt =====
-- Every operation of the orchestrator keeps an invariant that the repository's methods and the
-- event store keep.
use workfllow_execution.Prelude.{String, true, ◌≡◌, refl}
use workfllow_execution.Prelude.{Option, none, some}
use workfllow_execution.Errors.{ok}
use workfllow_execution.Action.{◌>>◌}
use workfllow_execution.Action.Gives.{
  Gives, Any, Gives-pure, Gives-lift, Gives-query, Gives-bind, Gives-then, Gives-if, Gives-when,
  Gives-found, Gives-for_each,
}
use workfllow_execution.Status.{NodeStatus, WorkflowStatus}
use workfllow_execution.Status.WorkflowMachine
use workfllow_execution.Json.{Json, Python}
use workfllow_execution.Events.{EventType, Payload}
use workfllow_execution.Events.State.Accepts.{fits}
use workfllow_execution.Graph.{GraphNode, WorkflowGraph}
use workfllow_execution.Tables.{WorkflowInstance}
use workfllow_execution.Tables.Projections.{get_workflow_state}
use workfllow_execution.Orchestrator.{
  Services, emit, load_graph, pinned_graph, sync_current_total_metadata, make_ready, finish,
  advance,
}
use workfllow_execution.Orchestrator.Invariant.{Invariant}
use workfllow_execution.Orchestrator.Invariant.Rows.{
  Gives-lookup, Gives-list_node_instances, Gives-update_node_status, Gives-update_workflow_status,
  Gives-save_metadata,
}

module _ {F : Type 0} ⦃py : Python F⦄ (services : Services F) where
  module _ (inv : Invariant services.hashing) where
    pub Gives-emit :
        (t : EventType) (p : Payload F) (by : Option String)
        → fits t p ≡ true
        → Gives inv.Holds Any (emit services t p by)
    unfolding emit
    Gives-emit t p by h = Gives-then _ _ (inv.appended t p by h) (Gives-pure tt tt)

    Gives-pinned_graph :
        (i : WorkflowInstance F) (o : Option (Json F))
        → Gives inv.Holds Any (pinned_graph services i o)
    unfolding pinned_graph
    Gives-pinned_graph i none =
        Gives-bind {Q = Any} _ _ (Gives-found _ _ (λ a e. tt)) (λ json _. Gives-lift _ (λ a e. tt))
    Gives-pinned_graph i (some json) = Gives-lift _ (λ a e. tt)

    pub Gives-load_graph : (i : WorkflowInstance F) → Gives inv.Holds Any (load_graph services i)
    unfolding load_graph
    Gives-load_graph i =
        Gives-bind _ _ (Gives-query {Q = Any} _ (λ db h. tt)) (λ o _. Gives-pinned_graph i o)

    pub Gives-sync :
        (i : WorkflowInstance F)
        → inv.Instance i
        → Gives inv.Holds inv.Instance (sync_current_total_metadata services i)
    unfolding sync_current_total_metadata get_workflow_state
    Gives-sync i h =
        Gives-bind _ _ (Gives-query {Q = Any} _ (λ db k. tt))
          (λ state _. Gives-save_metadata inv i _ h)

    Gives-make_ready : (g : GraphNode) → Gives inv.Holds Any (make_ready services g)
    unfolding make_ready
    Gives-make_ready g = Gives-bind _ _ (Gives-lookup inv g.id) (λ row q.
        Gives-bind _ _ (Gives-found row _ q) (λ n h. Gives-when _ _ (
          Gives-then _ _ (Gives-update_node_status inv n NodeStatus.pending h (λ e. absurd (cc)))
            (Gives-emit _ _ _ refl))))

    Gives-finish :
        (i : WorkflowInstance F) (g : WorkflowGraph)
        → inv.Instance i
        → Gives inv.Holds inv.Instance (finish services i g)
    unfolding finish ◌>>◌
    Gives-finish i g h = Gives-bind _ _ (Gives-list_node_instances inv) (λ nodes _.
        Gives-if _ _ _
          (Gives-bind _ _
            (Gives-lift
              {Q = λ u. WorkflowMachine.transition i.status WorkflowStatus.completed ≡ ok u} _
              (λ u e. e))
            (λ u e.
              Gives-bind _ _ (Gives-update_workflow_status inv i _ u none h e) (λ changed k.
                Gives-bind _ _ (Gives-emit _ _ _ refl) (λ _ _. Gives-pure changed k))))
          (Gives-pure i h))

    pub Gives-advance :
        (i : WorkflowInstance F) (g : WorkflowGraph)
        → inv.Instance i
        → Gives inv.Holds inv.Instance (advance services i g)
    unfolding advance
    Gives-advance i g h = Gives-if _ _ _ (Gives-pure i h) (
        Gives-bind _ _ (Gives-list_node_instances inv) (λ nodes a.
          Gives-bind {Q = Any} _ _ (Gives-lift _ (λ r e. tt)) (λ ready _.
            Gives-then _ _ (Gives-for_each ready _ Gives-make_ready) (Gives-finish i g h))))
