-- ===== src/Orchestrator/Invariant/Rows.antt =====
-- The repository's methods, under an invariant of the orchestrator.
use workfllow_execution.Prelude.{ℕ, String, true, false, ◌≡◌, sym, ◌∙◌, inl, inr}
use mathlib.Core.Path.{subst}
use workfllow_execution.Prelude.{Option, some, List, [], ◌∷◌, All, lookup, insert}
use workfllow_execution.Prelude.{arith, str-cases, ◌==◌}
use workfllow_execution.Errors.{ok}
use workfllow_execution.Action.{query, ◌>>◌}
use workfllow_execution.Action.Gives.{
  Gives, Any, Gives-pure, Gives-raise, Gives-lift, Gives-query, Gives-write, Gives-bind, Gives-then,
  Gives-if, Gives-found,
}
use workfllow_execution.Status.{NodeStatus, WorkflowStatus, ExecutionStatus}
use workfllow_execution.Status.NodeMachine
use workfllow_execution.Status.WorkflowMachine
use workfllow_execution.Json.{Dict, Python}
use workfllow_execution.Events.Store.{Hashing}
use workfllow_execution.Orchestrator.{by_graph_id, add_by_id}
use workfllow_execution.Orchestrator.Invariant.{Invariant}
use workfllow_execution.Tables.{WorkflowInstance, NodeInstance}
use workfllow_execution.Tables.Instances.{
  rows, require_workflow_instance, list_node_instances, require_node_instance_by_graph_id,
  update_node_status, create_node_execution, update_workflow_status, increment_revision,
  save_metadata,
}

found-here :
    (j k : String) (m : NodeInstance) (d : List (String × NodeInstance))
    → (j == k) ≡ true
    → lookup k ((j, m) ∷ d) ≡ some m
unfolding lookup
found-here j k m d e = rw e

passed-by :
    (j k : String) (m : NodeInstance) (d : List (String × NodeInstance))
    → (j == k) ≡ false
    → lookup k ((j, m) ∷ d) ≡ lookup k d
unfolding lookup
passed-by j k m d e = rw e

pub some-injective : {A : Type 0} {a b : A} → some a ≡ some b → a ≡ b
some-injective h = cc

module _ (N : NodeInstance → Type 0) where
  -- A row that a key finds is one of the rows.
  pub All-lookup :
      (d : List (String × NodeInstance)) (k : String) (n : NodeInstance)
      → All N (rows d)
      → lookup k d ≡ some n
      → N n
  unfolding lookup
  All-lookup [] k n a h = absurd (ground (arith, h))
  All-lookup ((j, m) ∷ d) k n a h = elim (str-cases j k) [
    | inl e ↦ subst N (some-injective (sym (found-here j k m d e.1) ∙ h)) a.0
    | inr e ↦ All-lookup d k n a.1 (sym (passed-by j k m d e.1) ∙ h)
  ]

  pub All-insert :
      (k : String) (n : NodeInstance) (d : List (String × NodeInstance))
      → N n
      → All N (rows d)
      → All N (rows (insert k n d))
  unfolding insert
  All-insert k n [] h a = (h, tt)
  All-insert k n ((j, m) ∷ d) h a = ground (arith, All-insert k n d h a.1)

  All-add_by_id :
      (d : List (String × NodeInstance)) (ns : List NodeInstance)
      → All N (rows d)
      → All N ns
      → All N (rows (add_by_id d ns))
  unfolding add_by_id
  All-add_by_id d [] a b = a
  All-add_by_id d (n ∷ ns) a b =
      All-add_by_id (insert n.workflow_node_id n d) ns (All-insert n.workflow_node_id n d b.0 a) b.1

  pub All-by_graph_id : (ns : List NodeInstance) → All N ns → All N (rows (by_graph_id ns))
  unfolding by_graph_id
  All-by_graph_id ns a = All-add_by_id [] ns tt a

module _ {F : Type 0} ⦃py : Python F⦄ {hashing : Hashing F} (inv : Invariant hashing) where
  pub Gives-require_workflow_instance : Gives inv.Holds inv.Instance require_workflow_instance
  unfolding require_workflow_instance
  Gives-require_workflow_instance =
      Gives-bind _ _
        (Gives-query {Q = λ o. (i : WorkflowInstance F) → o ≡ some i → inv.Instance i} _
          (λ db h i e. inv.instance_read db i h e))
        (λ o q. Gives-found o _ q)

  pub Gives-list_node_instances : Gives inv.Holds (All inv.Node) list_node_instances
  unfolding list_node_instances
  Gives-list_node_instances = Gives-query _ inv.nodes_read

  -- A row of a task that is read.
  pub Gives-lookup :
      (id : String)
      → Gives inv.Holds
          (λ o. (n : NodeInstance) → o ≡ some n → inv.Node n)
          (query (λ db. lookup id db.node_instances))
  Gives-lookup id =
      Gives-query _ (λ db h n k. All-lookup inv.Node db.node_instances id n (inv.nodes_read db h) k)

  pub Gives-require_node_instance :
      (id : String) → Gives inv.Holds inv.Node (require_node_instance_by_graph_id id)
  unfolding require_node_instance_by_graph_id
  Gives-require_node_instance id = Gives-bind _ _ (Gives-lookup id) (λ o q. Gives-found o _ q)

  pub Gives-update_node_status :
      (n : NodeInstance) (s : NodeStatus)
      → inv.Node n
      → (s ≡ NodeStatus.completed → inv.Counted n)
      → Gives inv.Holds inv.Node (update_node_status n s)
  unfolding update_node_status ◌>>◌
  Gives-update_node_status n s h c =
      Gives-bind _ _ (Gives-lift {Q = λ u. NodeMachine.transition n.status s ≡ ok u} _ (λ u e. e))
        (λ u e.
          Gives-bind {Q = Any} _ _
            (Gives-write _ (λ db k.
              inv.node_saved (record n { status = s }) db (inv.node_changed n s u h e c) k))
            (λ _ _. Gives-pure _ (inv.node_changed n s u h e c)))

  pub Gives-create_node_execution :
      (n : NodeInstance) (inputs outputs : Dict F) (s : ExecutionStatus) (by : Option String)
      → inv.Node n
      → Gives inv.Holds
          (λ m. inv.Node m × inv.Counted m)
          (create_node_execution n inputs outputs s by)
  unfolding create_node_execution
  Gives-create_node_execution n inputs outputs s by h =
      Gives-then _ _ (Gives-write _ (λ db k. inv.node_saved _ db (inv.node_counted n h).0 k)) (
        Gives-then _ _ (Gives-write _ (λ db k. inv.execution_saved _ db k))
          (Gives-pure _ (inv.node_counted n h)))

  pub Gives-update_workflow_status :
      (i : WorkflowInstance F) (s u : WorkflowStatus) (expected : Option ℕ)
      → inv.Instance i
      → WorkflowMachine.transition i.status s ≡ ok u
      → Gives inv.Holds inv.Instance (update_workflow_status i s expected)
  unfolding update_workflow_status
  Gives-update_workflow_status i s u expected h e = Gives-if _ _ _ (Gives-raise _) (
      Gives-bind _ _ (Gives-query {Q = Any} _ (λ db k. tt)) (λ now k.
        Gives-then _ _
          (Gives-write _ (λ db k. inv.instance_saved _ db (inv.instance_changed i s u _ h e) k))
          (Gives-pure _ (inv.instance_changed i s u _ h e))))

  pub Gives-increment_revision :
      (i : WorkflowInstance F) (expected : Option ℕ)
      → inv.Instance i
      → Gives inv.Holds inv.Instance (increment_revision i expected)
  unfolding increment_revision
  Gives-increment_revision i expected h = Gives-if _ _ _ (Gives-raise _) (
      Gives-then _ _ (Gives-write _ (λ db k. inv.instance_saved _ db (inv.instance_counted i h) k))
        (Gives-pure _ (inv.instance_counted i h)))

  pub Gives-save_metadata :
      (i : WorkflowInstance F) (metadata : Dict F)
      → inv.Instance i
      → Gives inv.Holds inv.Instance (save_metadata i metadata)
  unfolding save_metadata
  Gives-save_metadata i metadata h =
      Gives-then _ _
        (Gives-write _ (λ db k. inv.instance_saved _ db (inv.instance_noted i metadata h) k))
        (Gives-pure _ (inv.instance_noted i metadata h))
