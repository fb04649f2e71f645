-- ===== src/Orchestrator/Invariant/Requests.antt =====
-- The requests on an instance, each of which keeps every invariant of the orchestrator.
use workfllow_execution.Prelude.{ℕ, String, Bool, true, ◌≡◌, refl}
use workfllow_execution.Prelude.{Option, none, some, List, [], ◌∷◌, ◌++◌, All, lookup}
use workfllow_execution.Errors.{Result, ok}
use workfllow_execution.Action.{◌>>◌}
use workfllow_execution.Action.Gives.{
  Gives, Any, Gives-pure, Gives-raise, Gives-lift, Gives-query, Gives-bind, Gives-then, Gives-if,
  Gives-when, Gives-guard, Gives-found,
}
use workfllow_execution.Status.{WorkflowStatus}
use workfllow_execution.Status.WorkflowMachine
use workfllow_execution.Json.{Dict, Python}
use workfllow_execution.Events.{EventType, Payload}
use workfllow_execution.Events.State.Accepts.{fits}
use workfllow_execution.Executor.{ExecutionContext}
use workfllow_execution.Graph.{GraphNode}
use workfllow_execution.Tables.{WorkflowInstance, NodeInstance}
use workfllow_execution.Tables.Instances.{rows}
use workfllow_execution.Orchestrator.{Services, by_graph_id}
use workfllow_execution.Orchestrator.Inputs.{ResolvedNodeInputs}
use workfllow_execution.Orchestrator.Submit.{admit, build_context, execute, submit_node_outputs}
use workfllow_execution.Orchestrator.Lifecycle.{
  keep_reason, change_workflow_status, pause_workflow, resume_workflow, cancel_workflow,
}
use workfllow_execution.Orchestrator.Reopen.{
  invalidate_one, invalidate_row, invalidate_all, invalidate_downstream_nodes, reopen_target_node,
  reopen_instance, reopen_from_task,
}
use workfllow_execution.Orchestrator.Invariant.{Invariant}
use workfllow_execution.Orchestrator.Invariant.Rows.{
  All-lookup, All-by_graph_id, Gives-require_workflow_instance, Gives-list_node_instances,
  Gives-require_node_instance, Gives-update_node_status, Gives-create_node_execution,
  Gives-update_workflow_status, Gives-increment_revision, Gives-save_metadata,
}
use workfllow_execution.Orchestrator.Invariant.Operations.{
  Gives-emit, Gives-load_graph, Gives-sync, Gives-advance,
}

module _ {F : Type 0} ⦃py : Python F⦄ (services : Services F) where
  module _ (inv : Invariant services.hashing) where
    Gives-admit :
        (i : WorkflowInstance F) (id : String) (expected : Option ℕ)
        → Gives inv.Holds (λ r. inv.Node r.2) (admit services i id expected)
    unfolding admit
    Gives-admit i id expected = Gives-then _ _ (Gives-guard _ _) (
        Gives-then _ _ (Gives-guard _ _) (
          Gives-bind _ _ (Gives-load_graph services inv i) (λ graph _.
            Gives-bind {Q = Any} _ _ (Gives-lift _ (λ a e. tt)) (λ node _.
              Gives-then _ _ (Gives-guard _ _) (
                Gives-bind _ _ (Gives-require_node_instance inv id)
                  (λ n h. Gives-then _ _ (Gives-guard _ _) (Gives-pure _ h)))))))

    Gives-build_context :
        (i : WorkflowInstance F) (n : NodeInstance) (d : Dict F) (r : ResolvedNodeInputs F)
        → Gives inv.Holds Any (build_context services i n d r)
    unfolding build_context
    Gives-build_context i n d r =
        Gives-bind {Q = Any} _ _ (Gives-found _ _ (λ a e. tt)) (λ kind _. Gives-pure _ tt)

    Gives-execute :
        (n : NodeInstance) (context : ExecutionContext F)
        (run : ExecutionContext F → Dict F → Result (Dict F)) (outputs : Dict F)
        (by : Option String)
        → inv.Node n
        → Gives inv.Holds inv.Node (execute services n context run outputs by)
    unfolding execute
    Gives-execute n context run outputs by h =
        Gives-bind _ _ (Gives-update_node_status inv n _ h (λ e. absurd (cc))) (λ m k.
          Gives-then _ _ (Gives-emit services inv _ _ _ refl) (
            Gives-bind {Q = Any} _ _ (Gives-lift _ (λ a e. tt)) (λ final _.
              Gives-bind _ _ (Gives-create_node_execution inv m _ final _ by k) (λ c q.
                Gives-bind _ _ (Gives-update_node_status inv c _ q.0 (λ _. q.1)) (λ done r.
                  Gives-then _ _ (Gives-emit services inv _ _ _ refl) (Gives-pure done r))))))

    pub Gives-submit :
        (id : String) (outputs : Dict F) (by : Option String) (expected : Option ℕ)
        → Gives inv.Holds inv.Node (submit_node_outputs services id outputs by expected)
    unfolding submit_node_outputs
    Gives-submit id outputs by expected =
        Gives-bind _ _ (Gives-require_workflow_instance inv) (λ i hi.
          Gives-bind _ _ (Gives-admit i id expected) (λ r hn.
            Gives-bind {Q = Any} _ _ (Gives-found _ _ (λ a e. tt)) (λ d _.
              Gives-bind {Q = Any} _ _ (Gives-query _ (λ a e. tt)) (λ q _.
                Gives-bind {Q = Any} _ _ (Gives-lift _ (λ a e. tt)) (λ inputs _.
                  Gives-bind _ _ (Gives-build_context i r.2 d inputs) (λ context _.
                    Gives-bind {Q = Any} _ _ (Gives-lift _ (λ a e. tt)) (λ run _.
                      Gives-bind _ _ (Gives-execute r.2 context run outputs by hn) (λ done hd.
                        Gives-bind _ _ (Gives-sync services inv i hi) (λ synced hs.
                          Gives-then _ _ (Gives-advance services inv synced r.0 hs)
                            (Gives-pure done hd))))))))))

    Gives-keep_reason :
        (t : WorkflowStatus) (reason : Option String) (i : WorkflowInstance F)
        → inv.Instance i
        → Gives inv.Holds inv.Instance (keep_reason services t reason i)
    unfolding keep_reason
    Gives-keep_reason t none i h = Gives-pure i h
    Gives-keep_reason t (some reason) i h =
        Gives-if _ _ _ (Gives-save_metadata inv i _ h) (Gives-pure i h)

    Gives-change_workflow_status :
        (t : WorkflowStatus) (e : EventType) (expected : Option ℕ) (reason : Option String)
        → ((s : WorkflowStatus) (c : Option String)
            → fits {F = F} e (Payload.status_changed s t c) ≡ true)
        → Gives inv.Holds inv.Instance (change_workflow_status services t e expected reason)
    unfolding change_workflow_status ◌>>◌
    Gives-change_workflow_status t e expected reason fit =
        Gives-bind _ _ (Gives-require_workflow_instance inv) (λ i h.
          Gives-bind _ _
            (Gives-lift {Q = λ u. WorkflowMachine.transition i.status t ≡ ok u} _ (λ u q. q))
            (λ u q.
              Gives-bind _ _ (Gives-update_workflow_status inv i t u expected h q) (λ changed k.
                Gives-bind _ _ (Gives-emit services inv _ _ _ (fit _ _))
                  (λ _ _. Gives-keep_reason t _ changed k))))

    pub Gives-pause :
        (expected : Option ℕ) → Gives inv.Holds inv.Instance (pause_workflow services expected)
    unfolding pause_workflow
    Gives-pause expected = Gives-change_workflow_status _ _ expected none (λ s c. refl)

    pub Gives-resume :
        (expected : Option ℕ) → Gives inv.Holds inv.Instance (resume_workflow services expected)
    unfolding resume_workflow
    Gives-resume expected =
        Gives-bind _ _ (Gives-change_workflow_status _ _ expected none (λ s c. refl)) (λ i h.
          Gives-bind _ _ (Gives-load_graph services inv i)
            (λ g _. Gives-advance services inv i g h))

    pub Gives-cancel :
        (expected : Option ℕ) (reason : Option String)
        → Gives inv.Holds inv.Instance (cancel_workflow services expected reason)
    unfolding cancel_workflow
    Gives-cancel expected reason = Gives-change_workflow_status _ _ expected reason (λ s c. refl)

    Gives-invalidate_row :
        (id reason : String) (g : GraphNode) (o : Option NodeInstance)
        → ((n : NodeInstance) → o ≡ some n → inv.Node n)
        → Gives inv.Holds Any (invalidate_row services id reason g o)
    unfolding invalidate_row invalidate_one
    Gives-invalidate_row id reason g none h = Gives-pure _ tt
    Gives-invalidate_row id reason g (some n) h =
        Gives-if _ _ _
          (Gives-bind {Q = Any} _ _
            (Gives-bind _ _ (Gives-update_node_status inv n _ (h n refl) (λ e. absurd (cc)))
              (λ m k. Gives-then _ _ (Gives-emit services inv _ _ _ refl) (Gives-pure m tt)))
            (λ m _. Gives-pure _ tt))
          (Gives-pure _ tt)

    Gives-invalidate_all :
        (id reason : String) (nodes : List (String × NodeInstance)) (gs : List GraphNode)
        → All inv.Node (rows nodes)
        → Gives inv.Holds Any (invalidate_all services id reason nodes gs)
    unfolding invalidate_all
    Gives-invalidate_all id reason nodes [] a = Gives-pure _ tt
    Gives-invalidate_all id reason nodes (g ∷ gs) a =
        Gives-bind _ _
          (Gives-invalidate_row id reason g (lookup g.id nodes)
            (λ n e. All-lookup inv.Node nodes g.id n a e))
          (λ changed _.
            Gives-bind _ _ (Gives-invalidate_all id reason nodes gs a)
              (λ others _. Gives-pure _ tt))

    Gives-invalidate_downstream_nodes :
        (id reason : String) → Gives inv.Holds Any (invalidate_downstream_nodes services id reason)
    unfolding invalidate_downstream_nodes
    Gives-invalidate_downstream_nodes id reason =
        Gives-bind _ _ (Gives-require_workflow_instance inv) (λ i h.
          Gives-bind _ _ (Gives-load_graph services inv i) (λ g _.
            Gives-bind _ _ (Gives-list_node_instances inv) (λ ns a.
              Gives-bind {Q = Any} _ _ (Gives-lift _ (λ r e. tt)) (λ gs _.
                Gives-invalidate_all id reason (by_graph_id ns) gs
                  (All-by_graph_id inv.Node ns a)))))

    Gives-reopen_target_node :
        (id reason : String) → Gives inv.Holds Any (reopen_target_node services id reason)
    unfolding reopen_target_node
    Gives-reopen_target_node id reason = Gives-bind _ _ (Gives-require_node_instance inv id) (λ n h.
        Gives-if _ _ _
          (Gives-bind _ _ (Gives-update_node_status inv n _ h (λ e. absurd (cc)))
            (λ m k. Gives-then _ _ (Gives-emit services inv _ _ _ refl) (Gives-pure _ tt)))
          (Gives-if _ _ _ (Gives-pure _ tt) (Gives-raise _)))

    Gives-reopen_instance :
        (i : WorkflowInstance F) (affected : List NodeInstance)
        → inv.Instance i
        → Gives inv.Holds inv.Instance (reopen_instance services i affected)
    unfolding reopen_instance ◌>>◌
    Gives-reopen_instance i affected h =
        Gives-if _ _ _
          (Gives-bind _ _
            (Gives-lift {Q = λ u. WorkflowMachine.transition i.status WorkflowStatus.running ≡ ok u}
              _ (λ u q. q))
            (λ u q. Gives-update_workflow_status inv i _ u none h q))
          (Gives-if _ _ _ (Gives-pure i h) (Gives-increment_revision inv i none h))

    pub Gives-reopen :
        (id reason : String) (expected : Option ℕ) (target : Bool)
        → Gives inv.Holds Any (reopen_from_task services id reason expected target)
    unfolding reopen_from_task
    Gives-reopen id reason expected target =
        Gives-bind _ _ (Gives-require_workflow_instance inv) (λ i h.
          Gives-then _ _ (Gives-guard _ _) (
            Gives-then _ _ (Gives-guard _ _) (
              Gives-bind _ _ (Gives-load_graph services inv i) (λ g _.
                Gives-bind {Q = Any} _ _ (Gives-lift _ (λ a e. tt)) (λ node _.
                  Gives-then _ _ (Gives-guard _ _) (
                    Gives-bind {Q = Any} _ _
                      (Gives-if target _ _ (Gives-reopen_target_node id reason) (Gives-pure _ tt))
                      (λ first _.
                        Gives-bind _ _ (Gives-invalidate_downstream_nodes id reason) (λ later _.
                          Gives-bind _ _ (Gives-reopen_instance i (first ++ later) h) (λ j k.
                            Gives-then _ _
                              (Gives-when _ _ (
                                Gives-bind _ _ (Gives-sync services inv j k) (λ synced s.
                                  Gives-then _ _ (Gives-advance services inv synced g s)
                                    (Gives-pure tt tt))))
                              (Gives-pure _ tt))))))))))
