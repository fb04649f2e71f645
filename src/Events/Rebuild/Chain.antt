-- ===== src/Events/Rebuild/Chain.antt =====
-- The hash chain of a log (app/domain/events/hash_chain.py and `EventStore.append`).
use workfllow_execution.Prelude.{ℕ, ◌+◌, ◌<◌, String, true, ◌≡◌, refl}
use workfllow_execution.Prelude.{arith, Option, none, some, List, [], ◌∷◌, ◌++◌}
use workfllow_execution.Errors.{ok}
use workfllow_execution.Json.{Python}
use workfllow_execution.Events.{EventType, Payload, StoredEvent}
use workfllow_execution.Events.State.Accepts.{fits}
use workfllow_execution.Events.Append.{latest}
use workfllow_execution.Events.Store.{Hashing, append, hash_of}
use workfllow_execution.Events.Rebuild.Log.{IsLogged, Numbered}
use workfllow_execution.Events.Rebuild.Appended.{new_event, append_lem}
use workfllow_execution.Tables.{Tables}

module _ {F : Type 0} ⦃py : Python F⦄ where
  abbrev last_hash : Option String → List (StoredEvent F) → Option String
  last_hash previous [] = previous
  last_hash previous (e ∷ es) = last_hash e.current_hash es

  -- In a log without gaps the latest event is the last one.
  latest-Numbered :
      (k : ℕ) (e : StoredEvent F) (es : List (StoredEvent F))
      → Numbered k (e ∷ es)
      → (l : StoredEvent F) × (latest (e ∷ es) ≡ some l)
        × (k < l.sequence_number)
        × (l.current_hash ≡ last_hash none (e ∷ es))
  latest-Numbered k e [] h = (e, refl, omega arith, refl)
  latest-Numbered k e (d ∷ es) h =
      let (l, found, above, same) = latest-Numbered (k + 1) d es h.1 in
      (l, rw found (ground arith), omega arith, same)

  hash_of-latest :
      (es : List (StoredEvent F)) → Numbered 0 es → hash_of (latest es) ≡ last_hash none es
  hash_of-latest [] h = refl
  hash_of-latest (e ∷ es) h =
      let (l, found, above, same) = latest-Numbered 0 e es h in rw found same

module _ {F : Type 0} ⦃py : Python F⦄ (hashing : Hashing F) where
  -- Each event names the hash of the one before it, and has the hash of its own four fields.
  abbrev pub Chained : Option String → List (StoredEvent F) → Type 0
  Chained previous [] = Unit
  Chained previous (e ∷ es) =
      (e.previous_hash ≡ previous)
      × (e.current_hash
          ≡ some
              (hashing.compute_event_hash e.previous_hash e.sequence_number e.event_type e.payload))
      × Chained e.current_hash es

  Chained-append :
      (previous : Option String) (es : List (StoredEvent F)) (e : StoredEvent F)
      → Chained previous es
      → Chained (last_hash previous es) (e ∷ [])
      → Chained previous (es ++ e ∷ [])
  Chained-append previous [] e h c = c
  Chained-append previous (d ∷ es) e h c = (h.0, h.1, Chained-append d.current_hash es e h.2 c)

  -- If the chain is kept and the log is numbered without gaps, with the projections as its replay,
  -- then appending an event with the payload class of its type, with no other session at work,
  -- returns and leaves a valid chain.
  pub append-Chained :
      (t : EventType) (p : Payload F) (by : Option String) (db : Tables F)
      → hashing.hash_chain_enabled ≡ true
      → IsLogged db
      → fits t p ≡ true
      → Chained none db.events
      → ((append hashing [] t p by db).0 ≡ ok (new_event hashing t p by db))
        × Chained none (append hashing [] t p by db).1.events
  append-Chained t p by db on i h c =
      let (returns, logged, _) = append_lem hashing t p by db i h in
      (returns, rw logged (Chained-append none db.events (new_event hashing t p by db) c linked))
    where
      linked : Chained (last_hash none db.events) (new_event hashing t p by db ∷ [])
      linked = unfold new_event in rw on (hash_of-latest db.events i.numbered, refl, tt)
