-- ===== src/Validation/Topology/Cycles.antt =====
-- What `visit` of `_find_cycle_nodes` shows of the graph, as long as no cycle is found before.
use workfllow_execution.Prelude.{ℕ, zero, suc, String, eq_iff, eq_refl, ◌≡◌, refl, ◌≢◌}
use workfllow_execution.Prelude.{◌⊎◌, inl, inr, Bool, true, false, Bool-cases, arith}
use workfllow_execution.Prelude.{Option, none, some, List, [], ◌∷◌}
use workfllow_execution.Prelude.{contains, contains_iff, ◌∈◌}
use workfllow_execution.Graph.{Adjacency, neighbours}
use workfllow_execution.Validation.Topology.{Dfs, discard, follow, scan, visit}

-- Every walk from the id comes to an end.
pub data Ends (next : String → List String) : String → Type 0 where
  done : {x : String} → ((y : String) → y ∈ next x → Ends next y) → Ends next x

-- A walk of at least one edge.
pub data Trail (next : String → List String) : String → String → Type 0 where
  edge : {x y : String} → y ∈ next x → Trail next x y
  onward : {x y z : String} → Trail next x y → z ∈ next y → Trail next x z

abbrev pub IsCyclic : (String → List String) → Type 0
IsCyclic next = (x : String) × Trail next x x

discard-absent : (x : String) (xs : List String) → contains xs x ≡ false → discard x xs ≡ xs
discard-absent x [] h = refl
discard-absent x (y ∷ ys) h = ground (arith, discard-absent x ys, eq_iff x y, eq_iff y x)

discard-head : (x : String) (xs : List String) → contains xs x ≡ false → discard x (x ∷ xs) ≡ xs
discard-head x xs h = ground (arith, discard-absent x xs, eq_refl x)

module _ (next : String → List String) where
  -- What is visited is on the stack or done with, and no cycle is found.
  pub record IsClean (s : Dfs) : Type 0 where
    pub settled : (x : String) → x ∈ s.visited → (x ∈ s.stack) ⊎ Ends next x
    pub seen : (x : String) → x ∈ s.stack → x ∈ s.visited
    pub none_found : s.cycle_nodes ≡ []

  -- A visit ends with a cycle, or with all walks from its node at an end.
  abbrev pub Outcome : String → List String → List String → Option (Bool × Dfs) → Type 0
  Outcome node stack visited none = Unit
  Outcome node stack visited (some (true, s)) = IsCyclic next × (s.cycle_nodes ≢ [])
  Outcome node stack visited (some (false, s)) =
      IsClean s × (s.stack ≡ stack) × Ends next node × ((x : String) → x ∈ visited → x ∈ s.visited)

  abbrev Call : (String → Dfs → Option (Bool × Dfs)) → Type 0
  Call v =
      (n : String) (s : Dfs)
      → IsClean s
      → contains s.visited n ≡ false
      → ((x : String) → x ∈ s.stack → Trail next x n)
      → Outcome n s.stack s.visited (v n s)

  -- The state of the loop over the neighbors `ns` that are left.
  record Inv (node : String) (stack ns : List String) (s : Dfs) : Type 0 where
    clean : IsClean s
    top : s.stack ≡ node ∷ stack
    fresh : contains stack node ≡ false
    paths : (x : String) → x ∈ stack → Trail next x node
    left : (y : String) → y ∈ ns → y ∈ next node
    before : (y : String) → y ∈ next node → (y ∈ ns) ⊎ Ends next y

  Inv-next :
      {node n : String} {stack ns : List String} {s t : Dfs}
      → Inv node stack (n ∷ ns) s
      → IsClean t
      → t.stack ≡ s.stack
      → Ends next n
      → Inv node stack ns t
  Inv-next {node} {n} {stack} {ns} i c e ends = record {
    clean = c;
    top = ground (arith, i.top);
    fresh = i.fresh;
    paths = i.paths;
    left = λ y h. i.left y (inr h);
    before = λ y h. elim (i.before y h) [
      | inl (inl e') ↦ inr (rw e' ends)
      | inl (inr h') ↦ inl h'
      | inr d ↦ inr d
    ];
  }

  -- From all of the stack there are walks to the next neighbor.
  Inv-paths :
      {node n : String} {stack ns : List String} {s : Dfs}
      → Inv node stack (n ∷ ns) s
      → (x : String) → x ∈ s.stack
      → Trail next x n
  Inv-paths {node} {n} {stack} {ns} {s} i x h = step (rw i.top at h)
    where
      step : x ∈ node ∷ stack → Trail next x n
      step (inl e) = rw e (edge (i.left n (inl refl)))
      step (inr h') = onward (i.paths x h') (i.left n (inl refl))

  Inv-leave :
      {node : String} {stack : List String} (visited : List String) {s : Dfs}
      → Inv node stack [] s
      → ((x : String) → x ∈ visited → x ∈ s.visited)
      → Outcome node stack visited (some (false, record s { stack = discard node s.stack }))
  Inv-leave {node} {stack} visited {s} i grows = (
    record {
      settled =
          λ x h. elim (i.clean.settled x h) [ inl on ↦ below x (rw i.top at on) | inr d ↦ inr d ];
      seen = λ x h. i.clean.seen x (rw i.top (inr (rw left_stack at h)));
      none_found = i.clean.none_found;
    },
    left_stack,
    ends,
    grows,
  )
    where
      left_stack : discard node s.stack ≡ stack
      left_stack = rw i.top (discard-head node stack i.fresh)

      ends : Ends next node
      ends = done (λ y h. elim (i.before y h) [ inl none_left ↦ absurd none_left | inr d ↦ d ])

      below : (x : String) → x ∈ node ∷ stack → (x ∈ discard node s.stack) ⊎ Ends next x
      below x (inl e) = inr (rw e ends)
      below x (inr h) = inl (rw left_stack h)

  -- Back from a neighbor, given what the rest of the loop comes to.
  follow-Outcome :
      (node n : String) (stack visited : List String) (s : Dfs) (rest : Dfs → Option (Bool × Dfs))
      (r : Option (Bool × Dfs))
      → Outcome n s.stack s.visited r
      → ((t : Dfs)
          → IsClean t
          → t.stack ≡ s.stack
          → Ends next n
          → ((x : String) → x ∈ s.visited → x ∈ t.visited)
          → Outcome node stack visited (rest t))
      → Outcome node stack visited (follow node rest r)
  unfolding follow
  follow-Outcome node n stack visited s rest none h k = tt
  follow-Outcome node n stack visited s rest (some (true, t)) h k = (h.0, λ e. absurd (cc))
  follow-Outcome node n stack visited s rest (some (false, t)) h k = k t h.0 h.1 h.2 h.3

  scan-Outcome :
      (v : String → Dfs → Option (Bool × Dfs))
      → Call v
      → {node : String} {stack : List String} (visited ns : List String) (s : Dfs)
      → Inv node stack ns s
      → ((x : String) → x ∈ visited → x ∈ s.visited)
      → Outcome node stack visited (scan v node ns s)
  unfolding scan
  scan-Outcome v call visited [] s i grows = Inv-leave visited i grows
  scan-Outcome v call {node} {stack} visited (n ∷ ns) s i grows =
      elim (Bool-cases (contains s.visited n)) [
        | inr new ↦
            rw (new, Outcome)
              (follow-Outcome node n stack visited s (scan v node ns) (v n s)
                (call n s i.clean new (Inv-paths i))
                (λ t c e d g.
                  scan-Outcome v call visited ns t (Inv-next {s = s} i c e d)
                    (λ x h. g x (grows x h))))
        | inl old ↦
            rw (old, Outcome)
              (elim (Bool-cases (contains s.stack n)) [
                | inl on ↦
                    rw (on, Outcome)
                      ((n, Inv-paths i n ((contains_iff s.stack n).0 on)), λ e. absurd (cc))
                | inr off ↦
                    rw (off, Outcome)
                      (scan-Outcome v call visited ns s (Inv-next i i.clean refl (ended old off))
                        grows)
              ])
      ]
    where
      ended : contains s.visited n ≡ true → contains s.stack n ≡ false → Ends next n
      ended old off = elim (i.clean.settled n ((contains_iff s.visited n).0 old)) [
        | inl on ↦ absurd (ground (arith, contains_iff s.stack n))
        | inr d ↦ d
      ]

-- A visit of a fresh node that the whole stack leads to.
pub visit-Outcome :
    (d : Adjacency) (fuel : ℕ) (node : String) (s : Dfs)
    → IsClean (neighbours d) s
    → contains s.visited node ≡ false
    → ((x : String) → x ∈ s.stack → Trail (neighbours d) x node)
    → Outcome (neighbours d) node s.stack s.visited (visit d fuel node s)
unfolding visit
visit-Outcome d zero node s c new paths = tt
visit-Outcome d (suc fuel) node s c new paths =
    scan-Outcome (neighbours d) (visit d fuel) (visit-Outcome d fuel) s.visited (neighbours d node)
      (record s { visited = node ∷ s.visited; stack = node ∷ s.stack })
      (record {
        clean = record {
          settled = λ x h. elim h [
            | inl e ↦ inl (inl e)
            | inr h' ↦ elim (c.settled x h') [ inl on ↦ inl (inr on) | inr e ↦ inr e ]
          ];
          seen = λ x h. elim h [ inl e ↦ inl e | inr h' ↦ inr (c.seen x h') ];
          none_found = c.none_found;
        };
        top = refl;
        fresh = ground (arith, contains_iff s.stack node, contains_iff s.visited node, c.seen node);
        paths = paths;
        left = λ y h. h;
        before = λ y h. inl h;
      })
      (λ x h. inr h)
