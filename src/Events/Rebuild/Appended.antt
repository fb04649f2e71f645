-- ===== src/Events/Rebuild/Appended.antt =====
-- Appending to the log of an instance, with no other session at work.
use workfllow_execution.Prelude.{◌+◌, length, length-append, String, true, ◌≡◌, refl, ap}
use workfllow_execution.Prelude.{◌∙◌, arith, Option, none, some, [], ◌∷◌, ◌++◌}
use workfllow_execution.Prelude.{if◌then◌else◌}
use workfllow_execution.Errors.{ok}
use workfllow_execution.Action
use workfllow_execution.Action.{◌>>◌, pure, then-ok}
use workfllow_execution.Json.{Python}
use workfllow_execution.Events.{EventType, Payload, StoredEvent}
use workfllow_execution.Events.State.Accepts.{fits}
use workfllow_execution.Events.Append.{
  last_sequence, latest, get_next_sequence_number, get_latest_event,
}
use workfllow_execution.Events.Append.Attempts.{append_event-alone, append_event-beaten}
use workfllow_execution.Events.Store.{Hashing, dispatch, default_registry, append, hash_of}
use workfllow_execution.Events.Store.Dispatch.{
  Views, no_views, views, project, after, dispatch-project, project-fits,
}
use workfllow_execution.Events.Rebuild.Log.{
  IsLogged, is_taken-last, replay-append, Numbered-append, last_sequence-eq-length,
  is_taken-Numbered,
}
use workfllow_execution.Tables.{Tables}

module _ {F : Type 0} ⦃py : Python F⦄ where
  module _ (hashing : Hashing F) (t : EventType) (p : Payload F) (by : Option String) where
    -- The event that `append` stores.
    unfoldable pub new_event : Tables F → StoredEvent F
    new_event db =
        let on = hashing.hash_chain_enabled in
        let previous : Option String = if on then hash_of (latest db.events) else none in
        record {
          sequence_number = length db.events + 1;
          event_type = t;
          payload = p;
          previous_hash = previous;
          current_hash =
              if on
              then some (hashing.compute_event_hash previous (length db.events + 1) t p)
              else none;
          created_by = by;
        }

    append-dispatch :
        (db : Tables F)
        → IsLogged db
        → append hashing [] t p by db
          ≡ (dispatch default_registry (new_event db) >> pure (new_event db))
              (record db { events = db.events ++ new_event db ∷ [] })
    unfolding append get_next_sequence_number get_latest_event new_event Action.run
    append-dispatch db i = rw (last_sequence-eq-length db.events i.numbered) (
        rw (
          append_event-alone (length db.events + 1) (new_event db) db
            (is_taken-Numbered 0 (length db.events + 1) db.events i.numbered (omega arith))))

    -- What `append` leaves.
    append-after :
        (db : Tables F) (w : Views F)
        → IsLogged db
        → project (new_event db) (views db) ≡ ok w
        → append hashing [] t p by db ≡ (
          ok (new_event db),
          after (new_event db) w (record db { events = db.events ++ new_event db ∷ [] }),
        )
    unfolding Action.pure
    append-after db w i h =
        let start = record db { events = db.events ++ new_event db ∷ [] } in
        let sent = dispatch-project (new_event db) start w h in
        append-dispatch db i
        ∙ then-ok (dispatch default_registry (new_event db)) (pure (new_event db)) start tt
            (ap (λ r. r.0) sent)
        ∙ ap (λ r. pure (new_event db) r.1) sent

    -- If the log is numbered without gaps and the projections are its replay, and the payload
    -- has the class of the type of event, then `append` stores the event under the next number
    -- behind the others, and the log and the projections stay so.
    pub append_lem :
        (db : Tables F)
        → IsLogged db
        → fits t p ≡ true
        → ((append hashing [] t p by db).0 ≡ ok (new_event db))
          × ((append hashing [] t p by db).1.events ≡ db.events ++ new_event db ∷ [])
          × IsLogged (append hashing [] t p by db).1
    append_lem db i h =
        let (w, hw) = project-fits (new_event db) (views db) (unfold new_event in h) in
        rw (append-after db w i hw) (
          refl,
          refl,
          record {
            numbered =
                Numbered-append 0 db.events (new_event db) i.numbered
                  (unfold new_event in omega arith);
            replayed = replay-append db.events (new_event db) no_views (views db) i.replayed ∙ hw;
          },
        )

    -- The event that is stored when a rival takes the number first.
    abbrev renumbered : Tables F → StoredEvent F
    renumbered db = record (new_event db) { sequence_number = length db.events + 2 }

    append-beaten :
        (rival : StoredEvent F) (db : Tables F)
        → IsLogged db
        → rival.sequence_number ≡ length db.events + 1
        → append hashing ((rival ∷ []) ∷ []) t p by db
          ≡ (dispatch default_registry (renumbered db) >> pure (renumbered db))
              (record db { events = (db.events ++ rival ∷ []) ++ renumbered db ∷ [] })
    unfolding append get_next_sequence_number get_latest_event new_event Action.run
    append-beaten rival db i same =
        let n = length db.events + 1 in
        let behind = Numbered-append 0 db.events rival i.numbered (omega arith) in
        let longer = length-append db.events (rival ∷ []) in
        let next : last_sequence (db.events ++ rival ∷ []) + 1 ≡ length db.events + 2 =
          omega (arith, last_sequence-eq-length (db.events ++ rival ∷ []) behind, longer) in
        rw (last_sequence-eq-length db.events i.numbered) (
          rw
            (append_event-beaten n rival (new_event db) db (is_taken-last n rival db.events same) (
              is_taken-Numbered 0 (last_sequence (db.events ++ rival ∷ []) + 1)
                (db.events ++ rival ∷ []) behind (omega (arith, next, longer))))
            (rw next))

    -- If another session commits an event under the next number before the insertion, then the
    -- append returns an event with the number after it, whose previous hash and whose own hash are
    -- those of the first attempt: the one skips the rival's event, and the other is the hash of
    -- another sequence number.
    pub append_retry :
        (rival : StoredEvent F) (db : Tables F)
        → IsLogged db
        → fits t p ≡ true
        → hashing.hash_chain_enabled ≡ true
        → rival.sequence_number ≡ length db.events + 1
        → (e : StoredEvent F) × ((append hashing ((rival ∷ []) ∷ []) t p by db).0 ≡ ok e)
          × (e.sequence_number ≡ length db.events + 2)
          × (e.previous_hash ≡ hash_of (latest db.events))
          × (e.current_hash
              ≡ some (hashing.compute_event_hash e.previous_hash (length db.events + 1) t p))
    unfolding new_event Action.pure
    append_retry rival db i h on same =
        let start = record db { events = (db.events ++ rival ∷ []) ++ renumbered db ∷ [] } in
        let (w, hw) = project-fits (renumbered db) (views db) h in
        let sent = dispatch-project (renumbered db) start w hw in
        let returns =
          append-beaten rival db i same
          ∙ then-ok (dispatch default_registry (renumbered db)) (pure (renumbered db)) start tt
              (ap (λ r. r.0) sent) in
        (renumbered db, ap (λ r. r.0) returns, refl, ground arith, ground arith)
