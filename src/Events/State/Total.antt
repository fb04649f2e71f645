-- ===== src/Events/State/Total.antt =====
-- The total of the projection and what the completed tasks cost, for `_recompute_total` of
-- app/application/events/handlers/workflow_state.py.
use workfllow_execution.Prelude.{
  ℕ, String, ◌==◌, ◌≡◌, refl, sym, ap, ◌∙◌, inl, inr, arith, Bool, true, false, ◌⊎◌, ◌≢◌, ◌++◌,
}
use workfllow_execution.Prelude.{Bool-cases, Option, none, some}
use workfllow_execution.Prelude.{List, [], ◌∷◌, lookup, insert}
use mathlib.Core.Path.{subst}
use workfllow_execution.Errors.{ok, bind-eq-ok, ok-injective}
use workfllow_execution.Status.{NodeStatus, node_eq, node_eq_iff}
use workfllow_execution.Json.{Python}
use workfllow_execution.Events
use workfllow_execution.Events.{EventType, Payload, StoredEvent}
use workfllow_execution.Events.State.{
  NodeState, WorkflowState, add_contribution, ready_update, started_update, failed_update,
  completed_update, rounded, updated, counts_of, node_or_empty, counts, total_of, sum_contributions,
  upsert_node_state, invalidate_node_state, recompute_total, apply_event,
  apply_workflow_projection_event,
}

uncounted :
    (status : Option NodeStatus) → status ≢ some NodeStatus.completed → counts_of status ≡ false
uncounted none h = refl
uncounted (some st) h = elim (Bool-cases (node_eq st NodeStatus.completed)) [
  | inl e ↦ absurd (h (ap some ((node_eq_iff st NodeStatus.completed).0 e)))
  | inr e ↦ e
]

module _ {F : Type 0} ⦃py : Python F⦄ where
  skip : (n : NodeState F) (acc : F × Bool) → counts n ≡ false → add_contribution n acc ≡ acc
  skip n acc h = ground arith

  -- A node that does not count is written over one that does not count, or is new.
  sum-insert :
      (k : String) (n : NodeState F) (nodes : List (String × NodeState F)) (acc : F × Bool)
      → counts n ≡ false
      → counts (node_or_empty nodes k) ≡ false
      → sum_contributions (insert k n nodes) acc ≡ sum_contributions nodes acc
  unfolding sum_contributions insert lookup
  sum-insert k n [] acc new old = skip n acc new
  sum-insert k n ((j, m) ∷ nodes) acc new old = elim (Bool-cases (j == k)) [
    | inl same ↦ rw same (
        ap (sum_contributions nodes)
          (skip n acc new ∙ sym (skip m acc (rw (same, node_or_empty) at old))))
    | inr other ↦
        rw other
          (sum-insert k n nodes (add_contribution m acc) new (rw (other, node_or_empty) at old))
  ]

  total-insert :
      (k : String) (n : NodeState F) (nodes : List (String × NodeState F))
      → counts n ≡ false
      → counts (node_or_empty nodes k) ≡ false
      → total_of (insert k n nodes) ≡ total_of nodes
  unfolding total_of
  total-insert k n nodes new old = ap rounded (sum-insert k n nodes (py.zero_float, false) new old)

  -- What the completed tasks cost, in the order of the node states.
  abbrev cost_of : Option NodeStatus → Option F → List F
  cost_of (some NodeStatus.completed) (some c) = c ∷ []
  cost_of _ _ = []

  abbrev pub costs : List (String × NodeState F) → List F
  costs [] = []
  costs ((k, n) ∷ nodes) = cost_of n.status n.cost_contribution ++ costs nodes

  abbrev sum_from : F → List F → F
  sum_from x [] = x
  sum_from x (c ∷ cs) = sum_from (py.add x c) cs

  -- No costs have no sum.
  abbrev rounded_sum : List F → Option F
  rounded_sum [] = none
  rounded_sum (c ∷ cs) = some (py.round2 (sum_from py.zero_float (c ∷ cs)))

  -- The total is the sum of what the completed tasks cost, rounded to two places.
  abbrev pub IsTotal : WorkflowState F → Type 0
  IsTotal s = s.total ≡ rounded_sum (costs s.nodes)

  -- A node state contributes one cost or none.
  contributes :
      (status : Option NodeStatus) (cost : Option F)
      → ((cost_of status cost ≡ []) × ((counts_of status ≡ false) ⊎ (cost ≡ none)))
        ⊎ ((c : F) × (cost_of status cost ≡ c ∷ []) × (counts_of status ≡ true) × (cost ≡ some c))
  contributes none cost = inl (refl, inl refl)
  contributes (some NodeStatus.completed) none = inl (refl, inr refl)
  contributes (some NodeStatus.completed) (some c) = inr (c, refl, refl, refl)
  contributes (some NodeStatus.waiting) cost = inl (refl, inl refl)
  contributes (some NodeStatus.pending) cost = inl (refl, inl refl)
  contributes (some NodeStatus.running) cost = inl (refl, inl refl)
  contributes (some NodeStatus.invalidated) cost = inl (refl, inl refl)
  contributes (some NodeStatus.failed) cost = inl (refl, inl refl)

  -- The sum from a state of the loop on.
  after : F × Bool → List F → F × Bool
  after acc [] = acc
  after (x, found) (c ∷ cs) = (sum_from x (c ∷ cs), true)

  after-append :
      (acc : F × Bool) (c : F) (cs : List F) → after (py.add acc.0 c, true) cs ≡ after acc (c ∷ cs)
  unfolding after
  after-append acc c [] = refl
  after-append acc c (d ∷ cs) = refl

  add_contribution-none :
      (n : NodeState F) (acc : F × Bool)
      → (counts_of n.status ≡ false) ⊎ (n.cost_contribution ≡ none)
      → add_contribution n acc ≡ acc
  add_contribution-none n acc (inl h) = rw h
  add_contribution-none n acc (inr h) = elim (Bool-cases (counts_of n.status)) [
    | inl e ↦ rw (e, h)
    | inr e ↦ rw e
  ]

  add_contribution-some :
      (n : NodeState F) (acc : F × Bool) (c : F)
      → counts_of n.status ≡ true
      → n.cost_contribution ≡ some c
      → add_contribution n acc ≡ (py.add acc.0 c, true)
  add_contribution-some n acc c e h = rw (e, h)

  sum_contributions_lem :
      (nodes : List (String × NodeState F)) (acc : F × Bool)
      → sum_contributions nodes acc ≡ after acc (costs nodes)
  unfolding sum_contributions after
  sum_contributions_lem [] acc = refl
  sum_contributions_lem ((k, n) ∷ nodes) acc = elim (contributes n.status n.cost_contribution) [
    | inl (e, h) ↦
        ap (sum_contributions nodes) (add_contribution-none n acc h)
        ∙ sum_contributions_lem nodes acc
        ∙ ap (λ cs. after acc (cs ++ costs nodes)) (sym e)
    | inr (c, e, h, h') ↦
        ap (sum_contributions nodes) (add_contribution-some n acc c h h')
        ∙ sum_contributions_lem nodes (py.add acc.0 c, true)
        ∙ after-append acc c (costs nodes)
        ∙ ap (λ cs. after acc (cs ++ costs nodes)) (sym e)
  ]

  rounded-after : (cs : List F) → rounded (after (py.zero_float, false) cs) ≡ rounded_sum cs
  unfolding after
  rounded-after [] = refl
  rounded-after (c ∷ cs) = refl

  total_of_lem : (nodes : List (String × NodeState F)) → total_of nodes ≡ rounded_sum (costs nodes)
  unfolding total_of
  total_of_lem nodes =
      ap rounded (sum_contributions_lem nodes (py.zero_float, false)) ∙ rounded-after (costs nodes)

  -- A task that gets ready, starts or fails does not count as completed.
  abbrev Idle : WorkflowState F → Payload F → Type 0
  Idle s p =
      (n : String)
      → Events.node_id p ≡ ok n
      → (node_or_empty s.nodes n).status ≢ some NodeStatus.completed

  abbrev pub Fits : WorkflowState F → EventType → Payload F → Type 0
  Fits s EventType.node_ready p = Idle s p
  Fits s EventType.node_started p = Idle s p
  Fits s EventType.node_failed p = Idle s p
  Fits s _ p = Unit

  IsTotal-upsert :
      (id : String) (u : NodeState F) (st : NodeStatus) (s : WorkflowState F)
      → u.status ≡ some st
      → node_eq st NodeStatus.completed ≡ false
      → counts (node_or_empty s.nodes id) ≡ false
      → IsTotal s
      → IsTotal (upsert_node_state id u s)
  unfolding upsert_node_state
  IsTotal-upsert id u st s e1 e2 old t =
      t
      ∙ sym (total_of_lem s.nodes)
      ∙ sym (
          total-insert id _ s.nodes
            (ap (λ o. counts_of (updated o (node_or_empty s.nodes id).status)) e1 ∙ e2) old)
      ∙ total_of_lem _

  IsTotal-recompute : (s : WorkflowState F) → IsTotal (recompute_total s)
  unfolding recompute_total
  IsTotal-recompute s = total_of_lem s.nodes

  same_nodes :
      (t : EventType) (p : Payload F) (s : WorkflowState F) (n : ℕ)
      → Fits s t p
      → Fits (record s { last_sequence = n }) t p
  same_nodes EventType.node_ready p s n f = f
  same_nodes EventType.node_started p s n f = f
  same_nodes EventType.node_failed p s n f = f
  same_nodes _ p s n f = tt

  -- What the reducer does with an event, by its type.
  apply_event-IsTotal :
      (t : EventType) (p : Payload F) (s s' : WorkflowState F)
      → IsTotal s
      → Fits s t p
      → apply_event t p s ≡ ok s'
      → IsTotal s'
  unfolding apply_event
  apply_event-IsTotal EventType.workflow_started (Payload.started d v x) s s' h fits e =
      subst IsTotal (ok-injective e) h
  apply_event-IsTotal EventType.workflow_started _ s s' h fits e = absurd (cc)
  apply_event-IsTotal EventType.workflow_paused p s s' h fits e = subst IsTotal (ok-injective e) h
  apply_event-IsTotal EventType.workflow_resumed p s s' h fits e = subst IsTotal (ok-injective e) h
  apply_event-IsTotal EventType.workflow_completed p s s' h fits e =
      subst IsTotal (ok-injective e) h
  apply_event-IsTotal EventType.workflow_cancelled p s s' h fits e =
      subst IsTotal (ok-injective e) h
  apply_event-IsTotal EventType.node_ready p s s' h fits e =
      let (n, en, e1) = bind-eq-ok (Events.node_id p) _ e in
      let (i, ei, e2) = bind-eq-ok (Events.node_instance_id p) _ e1 in
      subst IsTotal (ok-injective e2) (
        IsTotal-upsert n (ready_update i) NodeStatus.pending s refl refl (uncounted _ (fits n en))
          h)
  apply_event-IsTotal EventType.node_started p s s' h fits e =
      let (n, en, e1) = bind-eq-ok (Events.node_id p) _ e in
      let (i, ei, e2) = bind-eq-ok (Events.node_instance_id p) _ e1 in
      subst IsTotal (ok-injective e2) (
        IsTotal-upsert n (started_update i p) NodeStatus.running s refl refl
          (uncounted _ (fits n en)) h)
  apply_event-IsTotal EventType.node_failed p s s' h fits e =
      let (n, en, e1) = bind-eq-ok (Events.node_id p) _ e in
      let (i, ei, e2) = bind-eq-ok (Events.node_instance_id p) _ e1 in
      subst IsTotal (ok-injective e2) (
        IsTotal-upsert n (failed_update i p) NodeStatus.failed s refl refl (uncounted _ (fits n en))
          h)
  apply_event-IsTotal EventType.node_completed p s s' h fits e =
      let (i, ei, e1) = bind-eq-ok (Events.node_instance_id p) _ e in
      let (n, en, e2) = bind-eq-ok (Events.node_id p) _ e1 in
      subst IsTotal (ok-injective e2)
        (IsTotal-recompute (upsert_node_state n (completed_update i p) s))
  apply_event-IsTotal EventType.node_invalidated p s s' h fits e =
      let (n, en, e1) = bind-eq-ok (Events.node_id p) _ e in
      let (i, ei, e2) = bind-eq-ok (Events.node_instance_id p) _ e1 in
      subst IsTotal (ok-injective e2)
        (IsTotal-recompute (invalidate_node_state n i (Events.reason p) s))

  -- If the total of a projection is the rounded sum of what the completed tasks cost, it is so
  -- after an event, provided that a task that the event makes ready, started or failed does not
  -- stand as completed in the projection.
  pub apply-IsTotal :
      (s s' : WorkflowState F) (event : StoredEvent F)
      → IsTotal s
      → Fits s event.event_type event.payload
      → apply_workflow_projection_event s event ≡ ok s'
      → IsTotal s'
  unfolding apply_workflow_projection_event
  apply-IsTotal s s' event h fits e =
      apply_event-IsTotal event.event_type event.payload
        (record s { last_sequence = event.sequence_number }) s' h
        (same_nodes event.event_type event.payload s event.sequence_number fits) e
