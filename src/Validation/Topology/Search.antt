-- ===== src/Validation/Topology/Search.antt =====
-- The calls of `visit` return, and what holds between two of the roots of `_find_cycle_nodes`.
use workfllow_execution.Prelude.{ℕ, zero, suc, ◌+◌, ◌≤◌, ◌<◌, length, String, eq_iff}
use workfllow_execution.Prelude.{◌≡◌, refl, ◌∙◌, ◌≢◌, ◌⊎◌, inl, inr, Bool, true, false}
use workfllow_execution.Prelude.{Bool-cases, Option-cases, arith, if◌then◌else◌}
use workfllow_execution.Prelude.{Option, none, some, List, [], ◌∷◌, contains}
use workfllow_execution.Prelude.{◌∈◌, lookup}
use workfllow_execution.Graph.{Adjacency, neighbours}
use workfllow_execution.Validation.Topology.{Dfs, follow, scan, visit, visit_all}
use workfllow_execution.Validation.Topology.{next_root}
use workfllow_execution.Validation.Topology.Cycles.{IsCyclic}
use workfllow_execution.Validation.Topology.Cycles.{IsClean, Outcome, visit-Outcome}

-- The keys that are not visited yet.
pub unseen : List String → Adjacency → ℕ
unseen visited [] = 0
unseen visited ((k, vs) ∷ d) = (if contains visited k then 0 else 1) + unseen visited d

unseen-grows :
    (xs ys : List String) (d : Adjacency)
    → ((x : String) → contains xs x ≡ true → contains ys x ≡ true)
    → unseen ys d ≤ unseen xs d
unfolding unseen
unseen-grows xs ys [] h = omega arith
unseen-grows xs ys ((k, vs) ∷ d) h = ground (arith, h k, unseen-grows xs ys d h)

pub unseen-none : (d : Adjacency) → unseen [] d ≡ length d
unfolding unseen
unseen-none [] = refl
unseen-none ((k, vs) ∷ d) = omega (arith, unseen-none d)

-- A first visit of a key leaves one less.
unseen-visit :
    (x : String) (visited : List String) (d : Adjacency)
    → contains visited x ≡ false
    → lookup x d ≢ none
    → unseen (x ∷ visited) d < unseen visited d
unfolding unseen lookup
unseen-visit x visited [] new h = absurd (h refl)
unseen-visit x visited ((k, vs) ∷ d) new h = ground (
  arith,
  eq_iff k x,
  unseen-visit x visited d new,
  unseen-grows visited (x ∷ visited) d (λ y e. ground (arith, e)),
)

-- A call only adds to what is visited and found.
pub record IsOnward (s t : Dfs) : Type 0 where
  grows : (x : String) → contains s.visited x ≡ true → contains t.visited x ≡ true
  keeps : s.cycle_nodes ≢ [] → t.cycle_nodes ≢ []

IsOnward-trans : {s t u : Dfs} → IsOnward s t → IsOnward t u → IsOnward s u
IsOnward-trans p q = record {
  grows = λ x h. q.grows x (p.grows x h);
  keeps = λ h. q.keeps (p.keeps h);
}

abbrev Returns : Dfs → Option (Bool × Dfs) → Type 0
Returns s none = ⊥
Returns s (some (b, t)) = IsOnward s t

Returns-trans : {s t : Dfs} (r : Option (Bool × Dfs)) → IsOnward s t → Returns t r → Returns s r
Returns-trans none p q = q
Returns-trans (some (b, u)) p q = IsOnward-trans p q

-- What `visit` does before its loop.
abbrev enter : String → Dfs → Dfs
enter node s = record s { visited = node ∷ s.visited; stack = node ∷ s.stack }

enter-IsOnward : (node : String) (s : Dfs) → IsOnward s (enter node s)
enter-IsOnward node s = record { grows = λ x h. ground (arith, h); keeps = λ h. h }

module _ (d : Adjacency) where
  abbrev Call : ℕ → (String → Dfs → Option (Bool × Dfs)) → Type 0
  Call fuel v =
      (n : String) (s : Dfs)
      → contains s.visited n ≡ false
      → unseen s.visited d < fuel
      → Returns (enter n s) (v n s)

  follow-Returns :
      (node : String) (s : Dfs) (rest : Dfs → Option (Bool × Dfs)) (r : Option (Bool × Dfs))
      → Returns s r
      → ((t : Dfs) → IsOnward s t → Returns t (rest t))
      → Returns s (follow node rest r)
  unfolding follow
  follow-Returns node s rest none h k = h
  follow-Returns node s rest (some (true, t)) h k = record {
    grows = h.grows;
    keeps = λ _ e. absurd (cc);
  }
  follow-Returns node s rest (some (false, t)) h k = Returns-trans (rest t) h (k t h)

  scan-Returns :
      (fuel : ℕ) (v : String → Dfs → Option (Bool × Dfs))
      → Call fuel v
      → (node : String) (ns : List String) (s : Dfs)
      → ((y : String) → y ∈ ns → unseen s.visited d < fuel)
      → Returns s (scan v node ns s)
  unfolding scan
  scan-Returns fuel v call node [] s room = record { grows = λ x h. h; keeps = λ h. h }
  scan-Returns fuel v call node (n ∷ ns) s room = elim (Bool-cases (contains s.visited n)) [
    | inr new ↦
        rw (new, Returns)
          (follow-Returns node s (scan v node ns) (v n s)
            (Returns-trans (v n s) (enter-IsOnward n s) (call n s new (room n (inl refl))))
            (λ t o.
              scan-Returns fuel v call node ns t
                (λ y h. omega (arith, unseen-grows s.visited t.visited d o.grows, room y (inr h)))))
    | inl old ↦
        rw (old, Returns)
          (elim (Bool-cases (contains s.stack n)) [
            | inl on ↦ rw (on, Returns) (record { grows = λ x h. h; keeps = λ _ e. absurd (cc) })
            | inr off ↦
                rw (off, Returns) (scan-Returns fuel v call node ns s (λ y h. room y (inr h)))
          ])
  ]

  -- More fuel than keys that are not visited is enough.
  visit-Returns :
      (fuel : ℕ) (node : String) (s : Dfs)
      → contains s.visited node ≡ false
      → unseen s.visited d < fuel
      → Returns (enter node s) (visit d fuel node s)
  unfolding visit neighbours
  visit-Returns zero node s new room = absurd (omega arith)
  visit-Returns (suc fuel) node s new room =
      scan-Returns fuel (visit d fuel) (visit-Returns fuel) node (neighbours d node) (enter node s)
        (λ y h. elim (Option-cases (lookup node d)) [
          | inl gone ↦ absurd (none_left y gone h)
          | inr (vs, e) ↦ omega (arith, unseen-visit node s.visited d new (λ e'. absurd (cc)))
        ])
    where
      none_left : (y : String) → lookup node d ≡ none → y ∈ neighbours d node → ⊥
      none_left y gone h = rw (neighbours, gone) at h

-- Between two roots: a cycle is found, or the stack is empty and no cycle is found yet.
abbrev pub IsRooted : (String → List String) → Dfs → Type 0
IsRooted next s = (IsCyclic next × (s.cycle_nodes ≢ [])) ⊎ (IsClean next s × (s.stack ≡ []))

module _ (d : Adjacency) where
  abbrev pub Roots : List String → Dfs → Option Dfs → Type 0
  Roots xs s none = ⊥
  Roots xs s (some t) =
      IsRooted (neighbours d) t
      × IsOnward s t
      × ((x : String) → x ∈ xs → contains t.visited x ≡ true)

  Roots-cons :
      (x : String) (xs : List String) {s t : Dfs} (r : Option Dfs)
      → IsOnward s t
      → contains t.visited x ≡ true
      → Roots xs t r
      → Roots (x ∷ xs) s r
  Roots-cons x xs none o h q = q
  Roots-cons x xs {s} {t} (some u) o h q = (
    q.0,
    IsOnward-trans o q.1,
    λ y m. elim m [ inl e ↦ q.1.grows y (rw e h) | inr m' ↦ q.2 y m' ],
  )

  -- After a root: its visit returned, and came to an outcome if no cycle was found before.
  root-IsRooted :
      (x : String) (s t : Dfs) (b : Bool)
      → IsRooted (neighbours d) s
      → IsOnward (enter x s) t
      → (IsClean (neighbours d) s
          → s.stack ≡ []
          → Outcome (neighbours d) x s.stack s.visited (some (b, t)))
      → IsRooted (neighbours d) t
  root-IsRooted x s t b (inl (c, found)) o k = inl (c, o.keeps found)
  root-IsRooted x s t true (inr (c, e)) o k = inl (k c e)
  root-IsRooted x s t false (inr (c, e)) o k = inr ((k c e).0, (k c e).1 ∙ e)

  next_root-Roots :
      (x : String) (xs : List String) (s : Dfs) (rest : Dfs → Option Dfs) (r : Option (Bool × Dfs))
      → IsRooted (neighbours d) s
      → Returns (enter x s) r
      → (IsClean (neighbours d) s → s.stack ≡ [] → Outcome (neighbours d) x s.stack s.visited r)
      → ((t : Dfs) → IsRooted (neighbours d) t → IsOnward s t → Roots xs t (rest t))
      → Roots (x ∷ xs) s (next_root d rest r)
  next_root-Roots x xs s rest none i o k go = absurd o
  next_root-Roots x xs s rest (some (b, t)) i o k go =
      let p = IsOnward-trans (enter-IsOnward x s) o in
      Roots-cons x xs (rest t) p (o.grows x (ground (arith, eq_iff x x)))
        (go t (root-IsRooted x s t b i o k) p)

  pub visit_all-Roots :
      (fuel : ℕ) (xs : List String) (s : Dfs)
      → IsRooted (neighbours d) s
      → unseen s.visited d < fuel
      → Roots xs s (visit_all d fuel xs s)
  unfolding visit_all
  visit_all-Roots fuel [] s i room =
      (i, record { grows = λ x h. h; keeps = λ h. h }, λ x h. absurd h)
  visit_all-Roots fuel (x ∷ xs) s i room = elim (Bool-cases (contains s.visited x)) [
    | inl old ↦
        rw (old, Roots)
          (Roots-cons x xs _ (record { grows = λ x h. h; keeps = λ h. h }) old
            (visit_all-Roots fuel xs s i room))
    | inr new ↦
        rw (new, Roots)
          (next_root-Roots x xs s (visit_all d fuel xs) (visit d fuel x s) i
            (visit-Returns d fuel x s new room)
            (λ c e. visit-Outcome d fuel x s c new (λ y h. absurd (rw e at h)))
            (λ t i' p.
              visit_all-Roots fuel xs t i'
                (omega (arith, room, unseen-grows s.visited t.visited d p.grows))))
  ]
