-- ===== src/Orchestrator/Invariant/Lifecycles.antt =====
-- The statuses and the counters of an instance and its tasks behind every sequence of requests.
use workfllow_execution.Prelude.{
  ◌≤◌, suc, ◌+◌, ◌⊎◌, ◌≢◌, Bool-cases, ◌≡◌, refl, sym, ◌∙◌, List, [], ◌∷◌, some,
}
use workfllow_execution.Prelude.{All, ◌∈◌, inl, inr, arith}
use mathlib.Core.Path.{subst}
use workfllow_execution.Json.{Python}
use workfllow_execution.Events.Store.{Hashing}
use workfllow_execution.Events.Store.Aside.{IsAside, append-Aside}
use workfllow_execution.Status.{NodeStatus, WorkflowStatus, node_eq, node_eq_iff}
use workfllow_execution.Status.WorkflowMachine
use workfllow_execution.Orchestrator.{Services}
use workfllow_execution.Orchestrator.Invariant.{Invariant}
use workfllow_execution.Orchestrator.Invariant.Rows.{All-insert, some-injective}
use workfllow_execution.Orchestrator.Invariant.Runs.{Runs, Runs-Holds}
use workfllow_execution.Tables.{Tables, NodeInstance, WorkflowInstance}
use workfllow_execution.Tables.Instances.{rows, save_node, save_instance}

-- `n` is a later state of a task among `before`.
pub record Since (before : List NodeInstance) (n : NodeInstance) : Type 0 where
  pub earlier : NodeInstance
  pub was_there : earlier ∈ before
  pub same_task : earlier.workflow_node_id ≡ n.workflow_node_id
  pub same_row : earlier.id ≡ n.id
  pub same_version : earlier.node_definition_version_id ≡ n.node_definition_version_id
  pub counted : earlier.current_execution ≤ n.current_execution
  pub executed :
      n.status ≡ NodeStatus.completed
      → (earlier.status ≡ NodeStatus.completed)
        ⊎ (suc earlier.current_execution ≤ n.current_execution)

-- A task that has been executed since.
Executed : List NodeInstance → NodeInstance → Type 0
Executed before n = (s : Since before n) × (suc s.earlier.current_execution ≤ n.current_execution)

All-Since :
    (ns before : List NodeInstance)
    → ((n : NodeInstance) → n ∈ ns → n ∈ before)
    → All (Since before) ns
All-Since [] before h = tt
All-Since (n ∷ ns) before h = (
  record {
    earlier = n;
    was_there = h n (inl refl);
    same_task = refl;
    same_row = refl;
    same_version = refl;
    counted = omega arith;
    executed = λ e. inl e;
  },
  All-Since ns before (λ m k. h m (inr k)),
)

module _ (before : List NodeInstance) (n : NodeInstance) where
  unexecuted :
      (s : NodeStatus)
      → Since before n
      → s ≢ NodeStatus.completed
      → Since before (record n { status = s })
  unexecuted s h other = record {
    earlier = h.earlier;
    was_there = h.was_there;
    same_task = h.same_task;
    same_row = h.same_row;
    same_version = h.same_version;
    counted = h.counted;
    executed = λ e. absurd (other e);
  }

  Executed-to : (s : NodeStatus) → Executed before n → Since before (record n { status = s })
  unfolding Executed
  Executed-to s (h, more) = record {
    earlier = h.earlier;
    was_there = h.was_there;
    same_task = h.same_task;
    same_row = h.same_row;
    same_version = h.same_version;
    counted = h.counted;
    executed = λ e. inr more;
  }

  Since-changed :
      (s : NodeStatus)
      → Since before n
      → (s ≡ NodeStatus.completed → Executed before n)
      → Since before (record n { status = s })
  Since-changed s h c = elim (Bool-cases (node_eq s NodeStatus.completed)) [
    | inl e ↦ Executed-to s (c ((node_eq_iff s NodeStatus.completed).0 e))
    | inr e ↦ unexecuted s h (λ k. ground (arith, node_eq_iff s NodeStatus.completed))
  ]

  -- The count is now above the one of the earlier state, whatever the status.
  Since-counted :
      Since before n
      → Since before (record n { current_execution = n.current_execution + 1 })
        × Executed before (record n { current_execution = n.current_execution + 1 })
  unfolding Executed
  Since-counted h = (since, (since, omega (arith, h.counted)))
    where
      since : Since before (record n { current_execution = n.current_execution + 1 })
      since = record {
        earlier = h.earlier;
        was_there = h.was_there;
        same_task = h.same_task;
        same_row = h.same_row;
        same_version = h.same_version;
        counted = omega (arith, h.counted);
        executed = λ e. inr (omega (arith, h.counted));
      }

module _ {F : Type 0} ⦃py : Python F⦄ where
  -- `j` is a later state of the instance `i`.
  pub record Follows (i j : WorkflowInstance F) : Type 0 where
    pub same_instance : i.id ≡ j.id
    pub same_pin : i.workflow_definition_version_id ≡ j.workflow_definition_version_id
    pub moved : WorkflowMachine.Steps i.status j.status
    pub counted : i.current_revision ≤ j.current_revision

  pub record Later (i : WorkflowInstance F) (before : List NodeInstance) (d : Tables F)
      : Type 0 where
    pub instance_moved : (j : WorkflowInstance F) → d.instance_row ≡ some j → Follows i j
    pub nodes_moved : All (Since before) (rows d.node_instances)

  Later-IsAside : (i : WorkflowInstance F) (before : List NodeInstance) → IsAside (Later i before)
  Later-IsAside i before = record {
    log = λ d es h. record { instance_moved = h.instance_moved; nodes_moved = h.nodes_moved };
    state = λ d s h. record { instance_moved = h.instance_moved; nodes_moved = h.nodes_moved };
    values = λ d vs h. record { instance_moved = h.instance_moved; nodes_moved = h.nodes_moved };
    first_snapshot =
        λ d json e h. record { instance_moved = h.instance_moved; nodes_moved = h.nodes_moved };
  }

  later_invariant :
      (hashing : Hashing F) (i : WorkflowInstance F) (before : List NodeInstance)
      → Invariant hashing
  unfolding save_node save_instance
  later_invariant hashing i before = record {
    Holds = Later i before;
    Instance = Follows i;
    Node = Since before;
    Counted = Executed before;
    instance_read = λ d j h e. h.instance_moved j e;
    nodes_read = λ d h. h.nodes_moved;
    node_saved = λ n d k h. record {
      instance_moved = h.instance_moved;
      nodes_moved = All-insert (Since before) n.workflow_node_id n d.node_instances k h.nodes_moved;
    };
    instance_saved = λ j d k h. record {
      instance_moved = λ j' e. subst (Follows i) (some-injective e) k;
      nodes_moved = h.nodes_moved;
    };
    execution_saved =
        λ e d h. record { instance_moved = h.instance_moved; nodes_moved = h.nodes_moved };
    appended = λ t p by h. append-Aside (Later-IsAside i before) hashing [] t p by;
    node_changed = λ n s u h e c. Since-changed before n s h c;
    node_counted = λ n h. Since-counted before n h;
    instance_changed = λ j s u done h e. record {
      same_instance = h.same_instance;
      same_pin = h.same_pin;
      moved = WorkflowMachine.Steps-trans h.moved (WorkflowMachine.one j.status s u e);
      counted = omega (arith, h.counted);
    };
    instance_counted = λ j h. record {
      same_instance = h.same_instance;
      same_pin = h.same_pin;
      moved = h.moved;
      counted = omega (arith, h.counted);
    };
    instance_noted = λ j m h. record {
      same_instance = h.same_instance;
      same_pin = h.same_pin;
      moved = h.moved;
      counted = h.counted;
    };
  }

  -- After any sequence of requests on the tables of an instance `i`, those that fail included:
  -- the instance has the same id and the same pinned version of its definition, a status that the
  -- transitions of its machine reach from the old one, and a revision that is no smaller; each
  -- task was there, with the same row and pinned version, has not been executed fewer times, and
  -- if it is COMPLETED now, it was COMPLETED at first or has been executed since.
  pub Runs-Later :
      (services : Services F) (db d : Tables F) (i : WorkflowInstance F)
      → db.instance_row ≡ some i
      → Runs services db d
      → Later i (rows db.node_instances) d
  unfolding later_invariant
  Runs-Later services db d i e p =
      Runs-Holds services (later_invariant services.hashing i (rows db.node_instances))
        (record {
          instance_moved = λ j k. subst (Follows i) (some-injective (sym e ∙ k)) (record {
            same_instance = refl;
            same_pin = refl;
            moved = WorkflowMachine.Steps.here;
            counted = omega arith;
          });
          nodes_moved = All-Since (rows db.node_instances) (rows db.node_instances) (λ n k. k);
        })
        p

  -- A cancelled instance stays so, whatever is requested.
  pub Runs-cancelled :
      (services : Services F) (db d : Tables F) (i j : WorkflowInstance F)
      → db.instance_row ≡ some i
      → i.status ≡ WorkflowStatus.cancelled
      → Runs services db d
      → d.instance_row ≡ some j
      → j.status ≡ WorkflowStatus.cancelled
  Runs-cancelled services db d i j e c p f = WorkflowMachine.cancelled-Steps (
      subst (λ s. WorkflowMachine.Steps s j.status) c
        ((Runs-Later services db d i e p).instance_moved j f).moved)
