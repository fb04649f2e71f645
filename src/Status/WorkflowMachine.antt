-- ===== src/Status/WorkflowMachine.antt =====
-- app/domain/state/workflow.py: the lifecycle of a workflow instance.
use workfllow_execution.Prelude.{◌≡◌, refl, ◌↔◌, Bool, true, false, ◌||◌}
use workfllow_execution.Prelude.{List, [], ◌∷◌, arith, if◌then◌else◌}
use workfllow_execution.Errors.{Result, ok, err, invalid_transition}
use workfllow_execution.Status.{WorkflowStatus, workflow_eq}
use workfllow_execution.Status.WorkflowStatus.{pending, running, paused, completed, cancelled}

abbrev contains : List WorkflowStatus → WorkflowStatus → Bool
contains [] s = false
contains (t ∷ ts) s = workflow_eq s t || contains ts s

abbrev is_empty : List WorkflowStatus → Bool
is_empty [] = true
is_empty (t ∷ ts) = false

-- `_TRANSITIONS`
pub allowed_targets : WorkflowStatus → List WorkflowStatus
allowed_targets pending = running ∷ cancelled ∷ []
allowed_targets running = paused ∷ completed ∷ cancelled ∷ []
allowed_targets paused = running ∷ cancelled ∷ []
allowed_targets completed = running ∷ []
allowed_targets cancelled = []

unfoldable pub can_transition : WorkflowStatus → WorkflowStatus → Bool
unfolding allowed_targets
can_transition current target =
    if workflow_eq current target then true else contains (allowed_targets current) target

unfoldable pub transition : WorkflowStatus → WorkflowStatus → Result WorkflowStatus
unfolding can_transition
transition current target =
    if can_transition current target then ok target else err invalid_transition

pub is_terminal : WorkflowStatus → Bool
unfolding allowed_targets
is_terminal status = is_empty (allowed_targets status)

pub data Steps (s : WorkflowStatus) : WorkflowStatus → Type 0 where
  here : Steps s s
  next : {t : WorkflowStatus} (u : WorkflowStatus) → Steps s t → transition t u ≡ ok u → Steps s u

pub Steps-trans : {s t u : WorkflowStatus} → Steps s t → Steps t u → Steps s u
Steps-trans p here = p
Steps-trans p (next u q e) = next u (Steps-trans p q) e

pub one : (s t u : WorkflowStatus) → transition s t ≡ ok u → Steps s t
unfolding transition
one s t u e = next t here (ground arith)

stays : {s t : WorkflowStatus} → is_terminal s ≡ true → Steps s t → t ≡ s
unfolding is_terminal transition
stays h here = refl
stays {s} h (next {t} u p e) = ground (arith, stays h p)

leaves : (s : WorkflowStatus) → ((t : WorkflowStatus) → Steps s t → t ≡ s) → is_terminal s ≡ true
unfolding is_terminal transition
leaves pending h = absurd (cc (h running (one pending running running refl)))
leaves running h = absurd (cc (h paused (one running paused paused refl)))
leaves paused h = absurd (cc (h running (one paused running running refl)))
leaves completed h = absurd (cc (h running (one completed running running refl)))
leaves cancelled h = refl

-- A status is terminal exactly when no sequence of transitions leaves it.
pub is_terminal-Steps :
    (s : WorkflowStatus) → (is_terminal s ≡ true) ↔ ((t : WorkflowStatus) → Steps s t → t ≡ s)
is_terminal-Steps s = (λ h t p. stays h p, leaves s)

-- A cancelled workflow stays cancelled, whatever transitions are tried.
pub cancelled-Steps : {t : WorkflowStatus} → Steps cancelled t → t ≡ cancelled
unfolding is_terminal
cancelled-Steps p = stays refl p
