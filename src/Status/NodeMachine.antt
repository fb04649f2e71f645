-- ===== src/Status/NodeMachine.antt =====
-- app/domain/state/node.py: the lifecycle of a task of an instance.
use workfllow_execution.Prelude.{◌≡◌, ◌≢◌, Bool, true, false, ◌||◌}
use workfllow_execution.Prelude.{List, [], ◌∷◌, arith, if◌then◌else◌}
use workfllow_execution.Errors.{Result, ok, err, invalid_transition}
use workfllow_execution.Status.{NodeStatus, node_eq}
use workfllow_execution.Status.NodeStatus.{
  waiting, pending, running, completed, invalidated, failed,
}

abbrev contains : List NodeStatus → NodeStatus → Bool
contains [] s = false
contains (t ∷ ts) s = node_eq s t || contains ts s

-- `_TRANSITIONS`
pub allowed_targets : NodeStatus → List NodeStatus
allowed_targets waiting = pending ∷ invalidated ∷ []
allowed_targets pending = running ∷ invalidated ∷ failed ∷ []
allowed_targets running = completed ∷ failed ∷ invalidated ∷ []
allowed_targets completed = invalidated ∷ pending ∷ []
allowed_targets invalidated = pending ∷ waiting ∷ []
allowed_targets failed = pending ∷ invalidated ∷ []

unfoldable pub can_transition : NodeStatus → NodeStatus → Bool
unfolding allowed_targets
can_transition current target =
    if node_eq current target then true else contains (allowed_targets current) target

unfoldable pub transition : NodeStatus → NodeStatus → Result NodeStatus
unfolding can_transition
transition current target =
    if can_transition current target then ok target else err invalid_transition

pub is_terminal : NodeStatus → Bool
is_terminal status = contains (completed ∷ failed ∷ []) status

-- Sequences of successful calls of `transition` that are never at `r`.
pub data Avoiding (r s : NodeStatus) : NodeStatus → Type 0 where
  here : s ≢ r → Avoiding r s s
  next :
      {t : NodeStatus} (u : NodeStatus)
      → Avoiding r s t
      → transition t u ≡ ok u
      → u ≢ r
      → Avoiding r s u

never_at : {r s t : NodeStatus} → Avoiding r s t → t ≢ r
never_at (here n) = n
never_at (next u p e n) = n

into_completed :
    (t u : NodeStatus) → transition t u ≡ ok u → u ≡ completed → t ≢ running → t ≡ completed
unfolding transition
into_completed t u e h n = ground arith

stays : {s t : NodeStatus} → Avoiding running s t → t ≡ completed → s ≡ completed
stays (here n) h = h
stays (next {t} u p e n) h = stays p (into_completed t u e h (never_at p))

-- A task that is not COMPLETED, and then is never RUNNING, does not become COMPLETED.
pub Avoiding-uncompleted : (s t : NodeStatus) → s ≢ completed → Avoiding running s t → t ≢ completed
Avoiding-uncompleted s t n p h = n (stays p h)
