-- ===== src/Graph/Walk.antt =====
-- The breadth-first loop of `_reachable_from` in app/domain/validation/graph.py and of
-- `_ancestors_by_node` in input_wiring.py: a queue, a set of visited ids, and the neighbours of each
-- id. `downstream_task_nodes` of workflow_graph.py walks in the same order.
use workfllow_execution.Prelude.{
  ℕ, zero, suc, ◌+◌, ◌≤◌, length, length-append, String, ◌==◌, eq_iff,
}
use workfllow_execution.Prelude.{◌≡◌, refl, ◌↔◌, ◌⊎◌, inl, inr, Bool-cases, arith, true, false}
use workfllow_execution.Prelude.{if◌then◌else◌, Option, none, some, List, [], ◌∷◌, ◌++◌}
use mathlib.Core.Path.{subst}
use workfllow_execution.Prelude.{contains, contains_iff, ◌∈◌, mem-append, lookup}
use workfllow_execution.Graph.{Adjacency, neighbours}

-- `queue` is the deque, `visited` the set in the order of its additions. The fuel bounds the
-- rounds; `none` is a run out of it.
unfoldable pub worklist :
    (String → List String) → ℕ → List String → List String → Option (List String)
worklist next fuel [] visited = some visited
worklist next zero (current ∷ queue) visited = none
worklist next (suc fuel) (current ∷ queue) visited =
    let skip = worklist next fuel queue visited in
    let visit = worklist next fuel (queue ++ next current) (visited ++ current ∷ []) in
    if contains visited current then skip else visit

-- What a walk along `next` from the seeds can meet.
pub data Reach (next : String → List String) (seeds : List String) : String → Type 0 where
  seed : {x : String} → x ∈ seeds → Reach next seeds x
  step : {x y : String} → Reach next seeds x → y ∈ next x → Reach next seeds y

-- The targets that unvisited keys may still put into the queue.
pub room : List String → Adjacency → ℕ
room visited [] = 0
room visited ((k, vs) ∷ d) = (if contains visited k then 0 else length vs) + room visited d

-- Rounds enough for a walk of a dict.
unfoldable pub rounds : Adjacency → List String → ℕ
unfolding room
rounds d queue = length queue + room [] d

contains-snoc :
    (xs : List String) (y x : String)
    → contains (xs ++ y ∷ []) x ≡ (if x == y then true else contains xs x)
contains-snoc [] y x = ground arith
contains-snoc (z ∷ xs) y x = ground (arith, contains-snoc xs y x)

room-snoc-le :
    (x : String) (visited : List String) (d : Adjacency)
    → room (visited ++ x ∷ []) d ≤ room visited d
unfolding room
room-snoc-le x visited [] = omega arith
room-snoc-le x visited ((k, vs) ∷ d) =
    ground (arith, contains-snoc visited x k, room-snoc-le x visited d)

-- A first visit uses up the targets of its key.
room-snoc :
    (x : String) (visited : List String) (d : Adjacency)
    → contains visited x ≡ false
    → room (visited ++ x ∷ []) d + length (neighbours d x) ≤ room visited d
unfolding room neighbours lookup
room-snoc x visited [] h = omega arith
room-snoc x visited ((k, vs) ∷ d) h = ground (
  arith,
  contains-snoc visited x k,
  room-snoc x visited d h,
  room-snoc-le x visited d,
  eq_iff k x,
  eq_iff x k,
)

module _ (d : Adjacency) (seeds : List String) where
  abbrev IsSeen : List String → List String → String → Type 0
  IsSeen queue visited x = (x ∈ visited) ⊎ (x ∈ queue)

  -- Nothing unreachable is taken up, and nothing reachable is forgotten.
  record Inv (queue visited : List String) : Type 0 where
    visited_reached : (x : String) → x ∈ visited → Reach (neighbours d) seeds x
    queue_reached : (x : String) → x ∈ queue → Reach (neighbours d) seeds x
    begun : (x : String) → x ∈ seeds → IsSeen queue visited x
    closed : (x y : String) → x ∈ visited → y ∈ neighbours d x → IsSeen queue visited y

  -- The loop ends with the reachable ids.
  abbrev pub Visits : Option (List String) → Type 0
  Visits r =
      (out : List String) × (r ≡ some out)
      × ((x : String) → (x ∈ out) ↔ Reach (neighbours d) seeds x)

  Inv-init : Inv seeds []
  Inv-init = record {
    visited_reached = λ x h. absurd h;
    queue_reached = λ x h. seed h;
    begun = λ x h. inr h;
    closed = λ x y h _. absurd h;
  }

  Inv-skip :
      {current : String} {queue visited : List String}
      → Inv (current ∷ queue) visited
      → current ∈ visited
      → Inv queue visited
  Inv-skip {current} {queue} {visited} i old = record {
    visited_reached = i.visited_reached;
    queue_reached = λ x h. i.queue_reached x (inr h);
    begun = λ x h. drop x (i.begun x h);
    closed = λ x y h e. drop y (i.closed x y h e);
  }
    where
      drop : (x : String) → IsSeen (current ∷ queue) visited x → IsSeen queue visited x
      drop x (inl h) = inl h
      drop x (inr (inl e)) = inl (rw e old)
      drop x (inr (inr h)) = inr h

  Inv-visit :
      {current : String} {queue visited : List String}
      → Inv (current ∷ queue) visited
      → Inv (queue ++ neighbours d current) (visited ++ current ∷ [])
  Inv-visit {current} {queue} {visited} i = record {
    visited_reached = λ x h. elim ((mem-append x visited (current ∷ [])).0 h) [
      | inl old ↦ i.visited_reached x old
      | inr here ↦ i.queue_reached x (ground arith)
    ];
    queue_reached = λ x h. elim ((mem-append x queue (neighbours d current)).0 h) [
      | inl old ↦ i.queue_reached x (inr old)
      | inr new ↦ step (i.queue_reached current (inl refl)) new
    ];
    begun = λ x h. keep x (i.begun x h);
    closed = λ x y h e. elim ((mem-append x visited (current ∷ [])).0 h) [
      | inl old ↦ keep y (i.closed x y old e)
      | inr here ↦ inr (
          (mem-append y queue (neighbours d current)).1
            (inr (subst (λ z. y ∈ neighbours d z) (only x here) e)))
    ];
  }
    where
      only : (x : String) → x ∈ current ∷ [] → x ≡ current
      only x (inl e) = e
      only x (inr h) = absurd h

      keep :
          (x : String)
          → IsSeen (current ∷ queue) visited x
          → IsSeen (queue ++ neighbours d current) (visited ++ current ∷ []) x
      keep x (inl h) = inl ((mem-append x visited (current ∷ [])).1 (inl h))
      keep x (inr (inl e)) = inl ((mem-append x visited (current ∷ [])).1 (inr (inl e)))
      keep x (inr (inr h)) = inr ((mem-append x queue (neighbours d current)).1 (inl h))

  -- With the queue empty the visited ids are closed under `neighbours`.
  Inv-complete :
      {visited : List String}
      → Inv [] visited
      → {x : String} → Reach (neighbours d) seeds x
      → x ∈ visited
  Inv-complete {visited} i (seed {x} h) = done x (i.begun x h)
    where
      done : (x : String) → IsSeen [] visited x → x ∈ visited
      done x (inl h) = h
      done x (inr h) = absurd h
  Inv-complete {visited} i (step {x} {y} r h) = done y (i.closed x y (Inv-complete i r) h)
    where
      done : (x : String) → IsSeen [] visited x → x ∈ visited
      done x (inl h) = h
      done x (inr h) = absurd h

  worklist-Visits :
      (fuel : ℕ) (queue visited : List String)
      → Inv queue visited
      → length queue + room visited d ≤ fuel
      → Visits (worklist (neighbours d) fuel queue visited)
  unfolding worklist
  worklist-Visits fuel [] visited i h =
      (visited, refl, λ x. (i.visited_reached x, λ r. Inv-complete i r))
  worklist-Visits zero (current ∷ queue) visited i h = absurd (omega arith)
  worklist-Visits (suc fuel) (current ∷ queue) visited i h =
      elim (Bool-cases (contains visited current)) [
        | inl old ↦ rw old (
            worklist-Visits fuel queue visited (Inv-skip i ((contains_iff visited current).0 old))
              (omega arith))
        | inr new ↦ rw new (
            worklist-Visits fuel (queue ++ neighbours d current) (visited ++ current ∷ [])
              (Inv-visit i)
              (omega (
                arith,
                room-snoc current visited d new,
                length-append queue (neighbours d current),
              )))
      ]

  -- From any seeds, with enough rounds, the loop ends and visits what is reachable, no more.
  pub worklist_lem :
      (fuel : ℕ) → rounds d seeds ≤ fuel → Visits (worklist (neighbours d) fuel seeds [])
  unfolding rounds
  worklist_lem fuel h = worklist-Visits fuel seeds [] Inv-init h
