-- ===== src/Events/Rebuild/Log.antt =====
-- The log of an instance: sequence numbers without gaps, and projections that are its replay.
use workfllow_execution.Prelude.{ℕ, ◌+◌, ◌≤◌, length, true, false}
use workfllow_execution.Prelude.{◌≡◌, refl, ap, ◌∙◌, arith, none}
use workfllow_execution.Prelude.{List, [], ◌∷◌, ◌++◌, keep}
use workfllow_execution.Errors.{Result, ok, err, ◌>>=◌, bind-eq-ok, ok-injective}
use workfllow_execution.Action
use workfllow_execution.Action.{for_each}
use workfllow_execution.Json.{Python}
use workfllow_execution.Events.{StoredEvent}
use workfllow_execution.Events.Append.{last_sequence, is_taken, by_sequence, is_after}
use workfllow_execution.Events.Store.{dispatch, default_registry}
use workfllow_execution.Events.Store.Dispatch.{
  Views, no_views, views, project, after, dispatch-project,
}
use workfllow_execution.Tables.{Tables}

module _ {F : Type 0} where
  -- The numbers k + 1, k + 2, and so on, in the order of the log.
  abbrev pub Numbered : ℕ → List (StoredEvent F) → Type 0
  Numbered k [] = Unit
  Numbered k (e ∷ es) = (e.sequence_number ≡ k + 1) × Numbered (k + 1) es

  pub Numbered-append :
      (k : ℕ) (es : List (StoredEvent F)) (e : StoredEvent F)
      → Numbered k es
      → e.sequence_number ≡ k + length es + 1
      → Numbered k (es ++ e ∷ [])
  Numbered-append k [] e h n = (omega arith, tt)
  Numbered-append k (d ∷ es) e h n = (h.0, Numbered-append (k + 1) es e h.1 (omega arith))

  last_sequence-bounds :
      (k : ℕ) (es : List (StoredEvent F)) → Numbered k es → last_sequence es ≤ k + length es
  last_sequence-bounds k [] h = omega arith
  last_sequence-bounds k (e ∷ es) h = ground (arith, last_sequence-bounds (k + 1) es h.1)

  last_sequence-lem :
      (k : ℕ) (e : StoredEvent F) (es : List (StoredEvent F))
      → Numbered k (e ∷ es)
      → last_sequence (e ∷ es) ≡ k + length (e ∷ es)
  last_sequence-lem k e [] h = ground arith
  last_sequence-lem k e (d ∷ es) h = ground (arith, last_sequence-lem (k + 1) d es h.1)

  -- With numbers without gaps the greatest is the length.
  pub last_sequence-eq-length :
      (es : List (StoredEvent F)) → Numbered 0 es → last_sequence es ≡ length es
  last_sequence-eq-length [] h = refl
  last_sequence-eq-length (e ∷ es) h = last_sequence-lem 0 e es h ∙ omega arith

  pub is_taken-Numbered :
      (k n : ℕ) (es : List (StoredEvent F))
      → Numbered k es
      → n ≡ k + length es + 1
      → is_taken n es ≡ false
  is_taken-Numbered k n [] h e = refl
  is_taken-Numbered k n (d ∷ es) h e =
      ground (arith, is_taken-Numbered (k + 1) n es h.1 (omega arith))

  pub is_taken-last :
      (n : ℕ) (e : StoredEvent F) (es : List (StoredEvent F))
      → e.sequence_number ≡ n
      → is_taken n (es ++ e ∷ []) ≡ true
  is_taken-last n e [] h = ground arith
  is_taken-last n e (d ∷ es) h = ground (arith, is_taken-last n e es h)

  place-Numbered :
      (k : ℕ) (e : StoredEvent F) (es : List (StoredEvent F))
      → Numbered k (e ∷ es)
      → by_sequence es ≡ es
      → by_sequence (e ∷ es) ≡ e ∷ es
  place-Numbered k e [] h s = refl
  place-Numbered k e (d ∷ es) h s = rw s (ground arith)

  pub by_sequence-Numbered :
      (k : ℕ) (es : List (StoredEvent F)) → Numbered k es → by_sequence es ≡ es
  by_sequence-Numbered k [] h = refl
  by_sequence-Numbered k (e ∷ es) h = place-Numbered k e es h (by_sequence-Numbered (k + 1) es h.1)

  pub keep-all : (es : List (StoredEvent F)) → keep (is_after none) es ≡ es
  keep-all [] = refl
  keep-all (e ∷ es) = ap (λ r. e ∷ r) (keep-all es)

module _ {F : Type 0} ⦃py : Python F⦄ where
  -- The projections that a log gives.
  unfoldable pub replay : List (StoredEvent F) → Views F → Result (Views F)
  replay [] v = ok v
  replay (e ∷ es) v = project e v >>= replay es

  -- The numbers have no gaps, and the projections are the replay of the log.
  pub record IsLogged (db : Tables F) : Type 0 where
    pub numbered : Numbered 0 db.events
    pub replayed : replay db.events no_views ≡ ok (views db)

  pub replay-append :
      (es : List (StoredEvent F)) (e : StoredEvent F) (v w : Views F)
      → replay es v ≡ ok w
      → replay (es ++ e ∷ []) v ≡ project e w
  unfolding replay
  replay-append [] e v w h = rw (← ok-injective h) (bind-ok (project e v))
    where
      bind-ok : (r : Result (Views F)) → (r >>= ok) ≡ r
      bind-ok (ok x) = refl
      bind-ok (err x) = refl
  replay-append (d ∷ es) e v w h =
      let (u, here, later) = bind-eq-ok (project d v) (replay es) h in
      rw here (replay-append es e u w later)

  -- What a run of `m` leaves: it returned, `v` are the projections and the log is the same.
  pub record Leaves (db : Tables F) (v : Views F) (r : Result (Unit {0}) × Tables F) : Type 0 where
    pub returned : r.0 ≡ ok tt
    pub viewed : views r.1 ≡ v
    pub kept : r.1.events ≡ db.events

  -- Sending the events of a list to the handlers replays them.
  pub for_each-replay :
      (es : List (StoredEvent F)) (db : Tables F) (v : Views F)
      → replay es (views db) ≡ ok v
      → Leaves db v (for_each es (dispatch default_registry) db)
  unfolding replay Action.run
  for_each-replay [] db v h = record { returned = refl; viewed = ok-injective h; kept = refl }
  for_each-replay (e ∷ es) db v h =
      let (u, here, later) = bind-eq-ok (project e (views db)) (replay es) h in
      let rest = for_each-replay es (after e u db) v later in
      rw (dispatch-project e db u here)
        (record { returned = rest.returned; viewed = rest.viewed; kept = rest.kept })
