-- ===== src/Orchestrator/Start/Begun.antt =====
-- The start of a workflow keeps the invariants of the orchestrator.
use workfllow_execution.Prelude.{String, ◌≡◌, refl, Option, none, List}
use workfllow_execution.Errors.{ok}
use workfllow_execution.Action.{◌>>◌}
use workfllow_execution.Action.Gives.{
  Gives, Any, Gives-pure, Gives-lift, Gives-write, Gives-bind, Gives-then, Gives-found,
  Gives-for_each,
}
use workfllow_execution.Status.{NodeStatus, WorkflowStatus}
use workfllow_execution.Status.WorkflowMachine
use workfllow_execution.Json.{Json, Dict, Python}
use workfllow_execution.Graph.{GraphNode, WorkflowGraph}
use workfllow_execution.Catalog.{VersionRow, Shelf}
use workfllow_execution.Tables.{Tables, WorkflowInstance, NodeInstance}
use workfllow_execution.Tables.Instances.{create_workflow_instance, create_node_instance}
use workfllow_execution.Tables.Instances.{save_node, save_instance}
use workfllow_execution.Events.Store.{Hashing}
use workfllow_execution.Orchestrator.{Services}
use workfllow_execution.Orchestrator.Start.{StartRequest, add_node, build, launch, start_workflow}
use workfllow_execution.Orchestrator.Invariant.{Invariant}
use workfllow_execution.Orchestrator.Invariant.Rows.{Gives-update_workflow_status}
use workfllow_execution.Orchestrator.Invariant.Operations.{Gives-emit, Gives-sync, Gives-advance}

module _ {F : Type 0} ⦃py : Python F⦄ {hashing : Hashing F} (inv : Invariant hashing)
    (new_instance : (i : WorkflowInstance F) → i.status ≡ WorkflowStatus.pending → inv.Instance i)
    (new_node : (n : NodeInstance) → n.status ≡ NodeStatus.waiting → inv.Node n) where
  Gives-create_workflow_instance :
      (id name definition version : String) (by : Option String) (metadata seeds : Dict F)
      → Gives inv.Holds inv.Instance
          (create_workflow_instance id name definition version by metadata seeds)
  unfolding create_workflow_instance save_instance
  Gives-create_workflow_instance id name definition version by metadata seeds =
      Gives-then _ _ (Gives-write _ (λ db h. inv.instance_saved _ db (new_instance _ refl) h))
        (Gives-pure _ (new_instance _ refl))

  Gives-create_node_instance :
      (id node version : String) → Gives inv.Holds inv.Node (create_node_instance id node version)
  unfolding create_node_instance save_node
  Gives-create_node_instance id node version =
      Gives-then _ _ (Gives-write _ (λ db h. inv.node_saved _ db (new_node _ refl) h))
        (Gives-pure _ (new_node _ refl))

  Gives-add_node :
      (new_id : String → String) (pinned : List (String × VersionRow (Dict F))) (n : GraphNode)
      → Gives inv.Holds Any (add_node new_id pinned n)
  unfolding add_node
  Gives-add_node new_id pinned n =
      Gives-bind {Q = Any} _ _ (Gives-found _ _ (λ a e. tt)) (λ definition _.
        Gives-bind {Q = Any} _ _ (Gives-found _ _ (λ a e. tt))
          (λ version _. Gives-then _ _ (Gives-create_node_instance _ _ _) (Gives-pure tt tt)))

  Gives-build :
      (workflows : Shelf (Json F)) (nodes : Shelf (Dict F)) (new_id : String → String)
      (r : StartRequest F) (seeds : Dict F)
      → Gives inv.Holds (λ b. inv.Instance b.0) (build workflows nodes new_id r seeds)
  unfolding build
  Gives-build workflows nodes new_id r seeds =
      Gives-bind {Q = Any} _ _ (Gives-lift _ (λ a e. tt)) (λ version _.
        Gives-bind {Q = Any} _ _ (Gives-lift _ (λ a e. tt)) (λ graph _.
          Gives-bind _ _ (Gives-create_workflow_instance _ _ _ _ _ _ _) (λ i h.
            Gives-bind {Q = Any} _ _ (Gives-lift _ (λ a e. tt)) (λ pinned _.
              Gives-then _ _ (Gives-for_each _ _ (λ n. Gives-add_node new_id pinned n))
                (Gives-pure _ h)))))

module _ {F : Type 0} ⦃py : Python F⦄ (services : Services F) (inv : Invariant services.hashing)
    (new_instance : (i : WorkflowInstance F) → i.status ≡ WorkflowStatus.pending → inv.Instance i)
    (new_node : (n : NodeInstance) → n.status ≡ NodeStatus.waiting → inv.Node n) where
  Gives-launch :
      (r : StartRequest F) (i : WorkflowInstance F) (version : VersionRow (Json F))
      (g : WorkflowGraph)
      → inv.Instance i
      → Gives inv.Holds inv.Instance (launch services r i version g)
  unfolding launch ◌>>◌
  Gives-launch r i version g h = Gives-bind _ _ (Gives-emit services inv _ _ _ refl) (λ _ _.
      Gives-bind _ _
        (Gives-lift {Q = λ u. WorkflowMachine.transition i.status WorkflowStatus.running ≡ ok u} _
          (λ u e. e))
        (λ u e.
          Gives-bind _ _ (Gives-update_workflow_status inv i WorkflowStatus.running u none h e)
            (λ running k.
              Gives-bind _ _ (Gives-advance services inv running g k)
                (λ advanced q. Gives-sync services inv advanced q))))

  -- The start keeps what the operations of the orchestrator keep, if new rows have it.
  pub Gives-start_workflow :
      (workflows : Shelf (Json F)) (nodes : Shelf (Dict F)) (new_id : String → String)
      (r : StartRequest F) (source : Option (Tables F))
      → Gives inv.Holds inv.Instance (start_workflow services workflows nodes new_id r source)
  unfolding start_workflow
  Gives-start_workflow workflows nodes new_id r source =
      Gives-bind {Q = Any} _ _ (Gives-lift _ (λ a e. tt)) (λ seeds _.
        Gives-bind _ _ (Gives-build inv new_instance new_node workflows nodes new_id r seeds)
          (λ built h. Gives-launch r built.0 built.1 built.2 h))
