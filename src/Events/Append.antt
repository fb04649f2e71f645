-- ===== src/Events/Append.antt =====
-- `EventRepository` of app/infrastructure/db/repositories/events.py: sequence numbers, the
-- insertion with its retries, and the ordered reads. `rivals` are the events that other sessions
-- commit just before each attempt to insert, under READ COMMITTED isolation.
pub mod Attempts
use workfllow_execution.Prelude.{ℕ, zero, suc, ◌+◌, ltb, nat_eq, length, String, Bool, true, false}
use workfllow_execution.Prelude.{◌||◌, if◌then◌else◌, Option, none, some, List, [], ◌∷◌, ◌++◌, keep}
use workfllow_execution.Errors.{sequence_conflict}
use workfllow_execution.Action.{Action, pure, raise, query, write, ◌>>=◌, ◌>>◌}
use workfllow_execution.Events.{EventType, Payload, StoredEvent}
use workfllow_execution.Tables.{Tables}

abbrev sequence_append_max_retries : ℕ
sequence_append_max_retries = 3

module _ {F : Type 0} where
  -- `coalesce(max(sequence_number), 0)`
  abbrev pub last_sequence : List (StoredEvent F) → ℕ
  last_sequence [] = 0
  last_sequence (e ∷ es) =
      let m = last_sequence es in if ltb m e.sequence_number then e.sequence_number else m

  -- The unique constraint on the sequence numbers of an instance.
  abbrev pub is_taken : ℕ → List (StoredEvent F) → Bool
  is_taken n [] = false
  is_taken n (e ∷ es) = nat_eq e.sequence_number n || is_taken n es

  unfoldable pub get_next_sequence_number : Action (Tables F) ℕ
  get_next_sequence_number = query (λ db. last_sequence db.events + 1)

  abbrev first_rivals : List (List (StoredEvent F)) → List (StoredEvent F)
  first_rivals [] = []
  first_rivals (r ∷ rs) = r

  abbrev later_rivals : List (List (StoredEvent F)) → List (List (StoredEvent F))
  later_rivals [] = []
  later_rivals (r ∷ rs) = rs

  abbrev commit : List (StoredEvent F) → Tables F → Tables F
  commit es db = record db { events = db.events ++ es }

  -- The sequence number of an attempt: the one given, or a fresh one.
  unfoldable pub sequence_or_next : Option ℕ → Action (Tables F) ℕ
  sequence_or_next none = get_next_sequence_number
  sequence_or_next (some n) = pure n

  -- The loop over the attempts. `draft` has all columns but the sequence number.
  unfoldable pub append_rounds :
      ℕ → List (List (StoredEvent F)) → Option ℕ → StoredEvent F → Action (Tables F) (StoredEvent F)
  unfolding sequence_or_next
  append_rounds zero rivals sequence_number draft = raise sequence_conflict
  append_rounds (suc rounds) rivals sequence_number draft = do
    sequence ← sequence_or_next sequence_number
    write (commit (first_rivals rivals))
    taken ← query (λ db. is_taken sequence db.events)
    let event = record draft { sequence_number = sequence }
    let retry = append_rounds rounds (later_rivals rivals) none draft
    if taken then retry else (write (commit (event ∷ [])) >> pure event)

  unfoldable pub append_event :
      List (List (StoredEvent F)) → Option ℕ → StoredEvent F → Action (Tables F) (StoredEvent F)
  unfolding append_rounds
  append_event rivals sequence_number draft =
      append_rounds sequence_append_max_retries rivals sequence_number draft

  -- The event with the greatest sequence number.
  abbrev pub latest : List (StoredEvent F) → Option (StoredEvent F)
  latest [] = none
  latest (e ∷ es) = elim (latest es) [
    | none ↦ some e
    | some l ↦ if ltb l.sequence_number e.sequence_number then some e else some l
  ]

  unfoldable pub get_latest_event : Action (Tables F) (Option (StoredEvent F))
  get_latest_event = query (λ db. latest db.events)

  -- `order_by(sequence_number.asc())`
  abbrev place : StoredEvent F → List (StoredEvent F) → List (StoredEvent F)
  place e [] = e ∷ []
  place e (d ∷ es) = if ltb d.sequence_number e.sequence_number then d ∷ place e es else e ∷ d ∷ es

  abbrev pub by_sequence : List (StoredEvent F) → List (StoredEvent F)
  by_sequence [] = []
  by_sequence (e ∷ es) = place e (by_sequence es)

  abbrev pub is_after : Option ℕ → StoredEvent F → Bool
  is_after none e = true
  is_after (some n) e = ltb n e.sequence_number

  unfoldable pub list_events : Option ℕ → Action (Tables F) (List (StoredEvent F))
  list_events after_sequence = query (λ db. by_sequence (keep (is_after after_sequence) db.events))
