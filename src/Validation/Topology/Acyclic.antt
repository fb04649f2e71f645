-- ===== src/Validation/Topology/Acyclic.antt =====
-- `_find_cycle_nodes` comes to an end, and finds nodes exactly when the graph has a cycle.
use workfllow_execution.Prelude.{suc, length, String, ◌≡◌, refl, sym, ◌≢◌, ◌↔◌, inl, inr}
use workfllow_execution.Prelude.{◌⊎◌, Option, none, some, List, [], contains, contains_iff, true}
use workfllow_execution.Prelude.{◌∈◌, lookup, keys, mem-keys, Option-cases, arith}
use mathlib.Core.Path.{subst}
use workfllow_execution.Graph.{Adjacency, neighbours}
use workfllow_execution.Validation.Topology.{Dfs, visit_all, no_dfs, found_nodes, find_cycle_nodes}
use workfllow_execution.Validation.Topology.Cycles.{Ends, done, Trail, edge, onward, IsCyclic}
use workfllow_execution.Validation.Topology.Cycles.{IsClean}
use workfllow_execution.Validation.Topology.Search.{IsRooted, Roots, visit_all-Roots}
use workfllow_execution.Validation.Topology.Search.{unseen-none}

-- The first edge of a walk.
Trail-first :
    {next : String → List String} {x y : String}
    → Trail next x y
    → (z : String) × (z ∈ next x) × ((z ≡ y) ⊎ Trail next z y)
Trail-first (edge {x} {y} h) = (y, h, inl refl)
Trail-first {next} (onward {x} {y} {z} p h) =
    let (w, first, rest) = Trail-first p in
    elim rest [ inl e ↦ (w, first, inr (rw e (edge h))) | inr q ↦ (w, first, inr (onward q h)) ]

-- A node that all walks end at is on no cycle.
pub Ends-acyclic : {next : String → List String} {x : String} → Ends next x → Trail next x x → ⊥
Ends-acyclic {next} {x} (done f) p =
    let (z, h, rest) = Trail-first p in
    elim rest [
      | inl e ↦ Ends-acyclic (f z h) (edge (subst (λ w. z ∈ next w) (sym e) h))
      | inr q ↦ Ends-acyclic (f z h) (onward q h)
    ]

abbrev pub Finds : Adjacency → Option (List String) → Type 0
Finds d r =
    (found : List String) × (r ≡ some found)
    × ((found ≡ []) ↔ ((x : String) → Ends (neighbours d) x))
    × ((found ≢ []) ↔ IsCyclic (neighbours d))

neighbours-none : (d : Adjacency) (x : String) → lookup x d ≡ none → neighbours d x ≡ []
unfolding neighbours
neighbours-none d x e = rw (neighbours, e)

module _ (d : Adjacency) where
  -- What is no key has no edges.
  Ends-all :
      {s : Dfs}
      → IsClean (neighbours d) s
      → s.stack ≡ []
      → ((x : String) → x ∈ keys d → contains s.visited x ≡ true)
      → (x : String) → Ends (neighbours d) x
  Ends-all {s} c e all x = elim (Option-cases (lookup x d)) [
    | inl gone ↦ done (λ y h. absurd (rw (neighbours-none d x gone) at h))
    | inr (vs, e') ↦
        elim (c.settled x
          ((contains_iff s.visited x).0 (all x ((mem-keys x d).1 (λ n. absurd (cc)))))) [
            | inl on ↦ absurd (rw e at on)
            | inr h ↦ h
          ]
  ]

  Finds-IsRooted :
      (s : Dfs)
      → IsRooted (neighbours d) s
      → ((x : String) → x ∈ keys d → contains s.visited x ≡ true)
      → Finds d (some s.cycle_nodes)
  Finds-IsRooted s (inl ((x, p), found)) all = (
    s.cycle_nodes,
    refl,
    (λ e. absurd (found e), λ h. absurd (Ends-acyclic (h x) p)),
    (λ _. (x, p), λ _. found),
  )
  Finds-IsRooted s (inr (c, e)) all = (
    s.cycle_nodes,
    refl,
    (λ _. Ends-all c e all, λ _. c.none_found),
    (λ h. absurd (h c.none_found), λ (x, p). absurd (Ends-acyclic (Ends-all c e all x) p)),
  )

  Roots-Finds : (r : Option Dfs) → Roots d (keys d) (no_dfs d) r → Finds d (found_nodes d r)
  Roots-Finds none q = absurd q
  Roots-Finds (some s) (i, o, all) = Finds-IsRooted s i all

  -- The search for cycles comes to an end. It finds no node exactly when all walks from every id
  -- end, and some node exactly when some id has a walk back to itself.
  pub find_cycle_nodes_lem : Finds d (find_cycle_nodes d)
  unfolding find_cycle_nodes
  find_cycle_nodes_lem = Roots-Finds (visit_all d (suc (length d)) (keys d) (no_dfs d)) (
      visit_all-Roots d (suc (length d)) (keys d) (no_dfs d)
        (inr (record { settled = λ x h. absurd h; seen = λ x h. h; none_found = refl }, refl))
        (omega (arith, unseen-none d)))
