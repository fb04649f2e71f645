-- ===== src/Events/Append/Attempts.antt =====
-- The attempts of `append_event`, one by one.
use workfllow_execution.Prelude.{ℕ, suc, ◌+◌, ◌≡◌, ap, ◌∙◌, true, false, some, none}
use workfllow_execution.Prelude.{List, [], ◌∷◌, ◌++◌, Option}
use mathlib.Core.List.{append-nil}
use workfllow_execution.Errors.{Result, ok}
use workfllow_execution.Action
use workfllow_execution.Events.{StoredEvent}
use workfllow_execution.Events.Append.{
  is_taken, last_sequence, commit, first_rivals, later_rivals, append_rounds, append_event,
  get_next_sequence_number,
}
use workfllow_execution.Tables.{Tables}

module _ {F : Type 0} where
  -- The number of an attempt, in the tables that it reads.
  abbrev pub number_at : Option ℕ → Tables F → ℕ
  number_at none db = last_sequence db.events + 1
  number_at (some n) db = n

  -- What an attempt leaves if its number is free when it inserts.
  abbrev pub inserted : StoredEvent F → ℕ → Tables F → Result (StoredEvent F) × Tables F
  inserted draft n db =
      let event = record draft { sequence_number = n } in (ok event, commit (event ∷ []) db)

  attempt-free :
      (rounds : ℕ) (rivals : List (List (StoredEvent F))) (o : Option ℕ) (draft : StoredEvent F)
      (db : Tables F)
      → is_taken (number_at o db) (db.events ++ first_rivals rivals) ≡ false
      → append_rounds (suc rounds) rivals o draft db
        ≡ inserted draft (number_at o db) (commit (first_rivals rivals) db)
  unfolding append_rounds get_next_sequence_number Action.run
  attempt-free rounds rivals none draft db h = rw h
  attempt-free rounds rivals (some n) draft db h = rw h

  attempt-taken :
      (rounds : ℕ) (rivals : List (List (StoredEvent F))) (o : Option ℕ) (draft : StoredEvent F)
      (db : Tables F)
      → is_taken (number_at o db) (db.events ++ first_rivals rivals) ≡ true
      → append_rounds (suc rounds) rivals o draft db
        ≡ append_rounds rounds (later_rivals rivals) none draft (commit (first_rivals rivals) db)
  unfolding append_rounds get_next_sequence_number Action.run
  attempt-taken rounds rivals none draft db h = rw h
  attempt-taken rounds rivals (some n) draft db h = rw h

  -- With no rival and a free number the first attempt inserts.
  pub append_event-alone :
      (n : ℕ) (draft : StoredEvent F) (db : Tables F)
      → is_taken n db.events ≡ false
      → append_event [] (some n) draft db ≡ inserted draft n db
  unfolding append_event
  append_event-alone n draft db h =
      attempt-free 2 [] (some n) draft db (ap (is_taken n) (append-nil db.events) ∙ h)
      ∙ ap (λ es. inserted draft n (record db { events = es })) (append-nil db.events)

  -- A rival that takes the number first makes the next attempt use a fresh one.
  pub append_event-beaten :
      (n : ℕ) (rival : StoredEvent F) (draft : StoredEvent F) (db : Tables F)
      → is_taken n (db.events ++ rival ∷ []) ≡ true
      → is_taken (last_sequence (db.events ++ rival ∷ []) + 1) (db.events ++ rival ∷ []) ≡ false
      → append_event ((rival ∷ []) ∷ []) (some n) draft db
        ≡ inserted draft (last_sequence (db.events ++ rival ∷ []) + 1) (commit (rival ∷ []) db)
  unfolding append_event
  append_event-beaten n rival draft db h free =
      attempt-taken 2 ((rival ∷ []) ∷ []) (some n) draft db h
      ∙ (attempt-free 1 [] none draft (commit (rival ∷ []) db) (
            ap (is_taken (last_sequence (db.events ++ rival ∷ []) + 1))
              (append-nil (db.events ++ rival ∷ []))
            ∙ free)
          ∙ ap
              (λ es.
                inserted draft (last_sequence (db.events ++ rival ∷ []) + 1)
                  (record db { events = es }))
              (append-nil (db.events ++ rival ∷ [])))
