-- ===== src/Orchestrator/Submit/Accepted.antt =====
-- What a submission that is accepted has found, and what it returns.
use workfllow_execution.Prelude.{ℕ, ◌+◌, String, Bool, true, false, not, ◌≡◌, refl, sym, ap}
use workfllow_execution.Prelude.{◌∙◌, ◌⊎◌, inl, inr, Option, none, some, lookup, arith}
use workfllow_execution.Errors.{Result, ok}
use workfllow_execution.Action.{◌>>◌}
use workfllow_execution.Action.Gives.{
  Gives, Any, Always, Gives-Any, Gives-pure, Gives-lift, Gives-query, Gives-bind, Gives-then,
  Gives-found, Gives-check, bind-returned,
}
use workfllow_execution.Status.{
  NodeStatus, WorkflowStatus, ExecutionStatus, node_eq_iff, workflow_eq_iff,
}
use workfllow_execution.Json.{Json, Dict, Python}
use workfllow_execution.Executor.{ExecutionContext}
use workfllow_execution.Tables.{Tables, WorkflowInstance, NodeInstance}
use workfllow_execution.Tables.Instances.{
  require_workflow_instance, require_node_instance_by_graph_id, update_node_status,
  create_node_execution, conflicts,
}
use workfllow_execution.Orchestrator.{Services, load_graph, pinned_graph}
use workfllow_execution.Orchestrator.Submit.{admit, execute, submit_node_outputs}

-- A client names no revision, or the one that it is.
abbrev pub IsCurrent : Option ℕ → ℕ → Type 0
IsCurrent expected current = (expected ≡ none) ⊎ (expected ≡ some current)

not-false : (b : Bool) → not b ≡ false → b ≡ true
not-false true h = refl
not-false false h = absurd (cc)

conflicts-IsCurrent :
    (expected : Option ℕ) (current : ℕ)
    → conflicts expected current ≡ false
    → IsCurrent expected current
conflicts-IsCurrent none current h = inl refl
conflicts-IsCurrent (some e) current h = inr (ap some (ground arith))

module _ {F : Type 0} where
  Gives-status :
      (n : NodeInstance) (s : NodeStatus)
      → Gives {S = Tables F} Always (λ m. m ≡ record n { status = s }) (update_node_status n s)
  unfolding update_node_status
  Gives-status n s = Gives-then _ _ Gives-Any (Gives-then _ _ Gives-Any (Gives-pure _ refl))

  Gives-count :
      (n : NodeInstance) (inputs outputs : Dict F) (s : ExecutionStatus) (by : Option String)
      → Gives Always
          (λ m. m ≡ record n { current_execution = n.current_execution + 1 })
          (create_node_execution n inputs outputs s by)
  unfolding create_node_execution
  Gives-count n inputs outputs s by =
      Gives-then _ _ Gives-Any (Gives-then _ _ Gives-Any (Gives-pure _ refl))

-- The task after one more execution.
abbrev pub finished : NodeInstance → NodeInstance
finished n = record n { status = NodeStatus.completed; current_execution = n.current_execution + 1 }

module _ {F : Type 0} ⦃py : Python F⦄ (services : Services F) where
  Gives-finished :
      (n : NodeInstance) (context : ExecutionContext F)
      (run : ExecutionContext F → Dict F → Result (Dict F)) (outputs : Dict F) (by : Option String)
      → Gives Always (λ m. m ≡ finished n) (execute services n context run outputs by)
  unfolding execute
  Gives-finished n context run outputs by = Gives-bind _ _ (Gives-status n _) (λ m e.
      Gives-then _ _ Gives-Any (
        Gives-bind _ _ Gives-Any (λ final _. Gives-bind _ _ (Gives-count m _ final _ by) (λ c e'.
          Gives-bind _ _ (Gives-status c _) (λ done e''. Gives-then _ _ Gives-Any (
            Gives-pure done (
              e''
              ∙ ap (λ (x : NodeInstance). record x { status = NodeStatus.completed })
                  (e'
                    ∙ ap
                        (λ (x : NodeInstance). record x {
                          current_execution = x.current_execution + 1;
                        })
                        e))))))))

  module _ (db : Tables F) where
    abbrev Unchanged : Tables F → Type 0
    Unchanged d = d ≡ db

    Gives-pinned_graph :
        (i : WorkflowInstance F) (o : Option (Json F))
        → Gives Unchanged Any (pinned_graph services i o)
    unfolding pinned_graph
    Gives-pinned_graph i none =
        Gives-bind {Q = Any} _ _ (Gives-found _ _ (λ a e. tt)) (λ json _. Gives-lift _ (λ a e. tt))
    Gives-pinned_graph i (some json) = Gives-lift _ (λ a e. tt)

    Gives-graph : (i : WorkflowInstance F) → Gives Unchanged Any (load_graph services i)
    unfolding load_graph
    Gives-graph i =
        Gives-bind _ _ (Gives-query {Q = Any} _ (λ d h. tt)) (λ o _. Gives-pinned_graph i o)

    pub Gives-instance : Gives Unchanged (λ i. db.instance_row ≡ some i) require_workflow_instance
    unfolding require_workflow_instance
    Gives-instance =
        Gives-bind _ _
          (Gives-query {Q = λ o. o ≡ db.instance_row} _ (λ d h. ap (λ x. x.instance_row) h))
          (λ o q. Gives-found o _ (λ i e. sym q ∙ e))

    Gives-row :
        (id : String)
        → Gives Unchanged
            (λ n. lookup id db.node_instances ≡ some n)
            (require_node_instance_by_graph_id id)
    unfolding require_node_instance_by_graph_id
    Gives-row id =
        Gives-bind _ _
          (Gives-query {Q = λ o. o ≡ lookup id db.node_instances} _
            (λ d h. ap (λ x. lookup id x.node_instances) h))
          (λ o q. Gives-found o _ (λ n e. sym q ∙ e))

    -- The tests of a submission, on the tables.
    abbrev pub Admits : WorkflowInstance F → String → Option ℕ → NodeInstance → Type 0
    Admits i id expected n =
        (i.status ≡ WorkflowStatus.running)
        × IsCurrent expected i.current_revision
        × (lookup id db.node_instances ≡ some n)
        × (n.status ≡ NodeStatus.pending)

    pub Gives-Admits :
        (i : WorkflowInstance F) (id : String) (expected : Option ℕ)
        → Gives Unchanged (λ r. Admits i id expected r.2) (admit services i id expected)
    unfolding admit ◌>>◌
    Gives-Admits i id expected = Gives-bind _ _ (Gives-check _ _) (λ _ runs.
        Gives-bind _ _ (Gives-check _ _) (λ _ agrees. Gives-bind _ _ (Gives-graph i) (λ graph _.
          Gives-bind {Q = Any} _ _ (Gives-lift _ (λ a e. tt)) (λ node _.
            Gives-bind _ _ (Gives-check _ _) (λ _ _. Gives-bind _ _ (Gives-row id) (λ n found.
              Gives-bind _ _ (Gives-check _ _) (λ _ pends. Gives-pure _ (
                (workflow_eq_iff _ _).0 (not-false _ runs),
                conflicts-IsCurrent _ _ agrees,
                found,
                (node_eq_iff _ _).0 (not-false _ pends),
              ))))))))

    -- A submission is accepted only while the instance runs, with the revision that the client
    -- expects if it names one, for a task that is PENDING; and it returns that task, COMPLETED and
    -- with one execution more.
    pub submit_ok :
        (id : String) (outputs : Dict F) (by : Option String) (expected : Option ℕ)
        (n : NodeInstance)
        → (submit_node_outputs services id outputs by expected db).0 ≡ ok n
        → (i : WorkflowInstance F) × (before : NodeInstance) × (db.instance_row ≡ some i)
          × Admits i id expected before
          × (n ≡ finished before)
    unfolding submit_node_outputs
    submit_ok id outputs by expected n h =
        let (i, e, h1) = bind-returned _ _ db n h in
        let row = Gives-instance.given db refl i e in
        let (r, e1, h2) = bind-returned _ _ _ n h1 in
        let same = Gives-instance.kept db refl in
        (
          i,
          r.2,
          row,
          (Gives-Admits i id expected).given _ same r e1,
          (Gives-bind {P = Always} {Q = Any} _ _ Gives-Any (λ d _.
                Gives-bind {Q = Any} _ _ Gives-Any (λ q _.
                  Gives-bind {Q = Any} _ _ Gives-Any (λ inputs _.
                    Gives-bind {Q = Any} _ _ Gives-Any (λ context _.
                      Gives-bind {Q = Any} _ _ Gives-Any (λ run _.
                        Gives-bind _ _ (Gives-finished r.2 context run outputs by) (λ done k.
                          Gives-bind {Q = Any} _ _ Gives-Any
                            (λ synced _. Gives-then _ _ Gives-Any (Gives-pure done k))))))))).given
              _ tt n h2,
        )
