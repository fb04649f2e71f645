-- ===== src/Orchestrator/Invariant/Logged.antt =====
-- The log behind every sequence of requests: it only grows, and the projections are its replay.
pub mod Started
use workfllow_execution.Prelude.{
  ◌≡◌, refl, sym, ap, ◌∙◌, ◌++◌, List, [], ◌∷◌, String, Option, All, true,
}
use mathlib.Core.Path.{subst}
use workfllow_execution.Errors.{ok}
use workfllow_execution.Action.Gives.{Gives, Any}
use workfllow_execution.Json.{Python}
use workfllow_execution.Events.{EventType, Payload, StoredEvent}
use workfllow_execution.Events.Store.{Hashing, append}
use workfllow_execution.Events.Rebuild.Log.{IsLogged, Numbered, replay}
use workfllow_execution.Events.Store.Dispatch.{views, no_views}
use workfllow_execution.Events.State.Accepts.{fits}
use workfllow_execution.Events.Rebuild.Appended.{append_lem, new_event}
use workfllow_execution.Orchestrator.{Services}
use workfllow_execution.Orchestrator.Invariant.{Invariant}
use workfllow_execution.Orchestrator.Invariant.Runs.{Runs, Runs-Holds}
use workfllow_execution.Tables.{Tables, NodeInstance}
use workfllow_execution.Tables.Instances.{rows, save_node, save_instance}

append_assoc : {A : Type 0} (xs ys zs : List A) → (xs ++ ys) ++ zs ≡ xs ++ (ys ++ zs)
append_assoc [] ys zs = refl
append_assoc (x ∷ xs) ys zs = ap (λ r. x ∷ r) (append_assoc xs ys zs)

All-Any : (ns : List NodeInstance) → All Any ns
All-Any [] = tt
All-Any (n ∷ ns) = (tt, All-Any ns)

append-nil : {A : Type 0} (xs : List A) → xs ++ [] ≡ xs
append-nil [] = refl
append-nil (x ∷ xs) = ap (λ r. x ∷ r) (append-nil xs)

module _ {F : Type 0} ⦃py : Python F⦄ where
  -- The log of `d` continues the log of `db`, and the projections of `d` are its replay.
  pub record Continues (db d : Tables F) : Type 0 where
    pub logged : IsLogged d
    pub later : List (StoredEvent F)
    pub continued : d.events ≡ db.events ++ later

  Continues-append :
      (hashing : Hashing F) (db : Tables F) (t : EventType) (p : Payload F) (by : Option String)
      → fits t p ≡ true
      → Gives (Continues db) Any (append hashing [] t p by)
  Continues-append hashing db t p by h = record {
    kept = λ d c.
        let (returned, longer, logged) = append_lem hashing t p by d c.logged h in
        record {
          logged = logged;
          later = c.later ++ new_event hashing t p by d ∷ [];
          continued =
              longer
              ∙ ap (λ es. es ++ new_event hashing t p by d ∷ []) c.continued
              ∙ append_assoc db.events c.later (new_event hashing t p by d ∷ []);
        };
    given = λ d c a e. tt;
  }

  moved :
      {db d d' : Tables F}
      → d'.events ≡ d.events
      → views d' ≡ views d
      → Continues db d
      → Continues db d'
  moved e v h = record {
    logged = record {
      numbered = subst (λ es. Numbered 0 es) (sym e) h.logged.numbered;
      replayed = ap (λ es. replay es no_views) e ∙ h.logged.replayed ∙ ap ok (sym v);
    };
    later = h.later;
    continued = e ∙ h.continued;
  }

  -- A row of an instance, a node or an execution is in neither.
  continues_invariant : (hashing : Hashing F) (db : Tables F) → Invariant hashing
  unfolding save_node save_instance
  continues_invariant hashing db = record {
    Holds = Continues db;
    Instance = Any;
    Node = Any;
    Counted = Any;
    instance_read = λ d i h e. tt;
    nodes_read = λ d h. All-Any (rows d.node_instances);
    node_saved = λ n d k h. moved refl refl h;
    instance_saved = λ i d k h. moved refl refl h;
    execution_saved = λ e d h. moved refl refl h;
    appended = Continues-append hashing db;
    node_changed = λ n s u h e c. tt;
    node_counted = λ n h. (tt, tt);
    instance_changed = λ i s u done h e. tt;
    instance_counted = λ i h. tt;
    instance_noted = λ i m h. tt;
  }

  -- If the numbers of the log have no gaps and the projections are the replay of the log, then
  -- this is so after any sequence of requests, those that fail included, and the log then is the
  -- old one with further events behind it.
  pub Runs-Continues :
      (services : Services F) (db d : Tables F) → IsLogged db → Runs services db d → Continues db d
  unfolding continues_invariant
  Runs-Continues services db d h p =
      Runs-Holds services (continues_invariant services.hashing db)
        (record { logged = h; later = []; continued = sym (append-nil db.events) }) p
