-- ===== src/Catalog/Rows.antt =====
-- Finding definitions and versions in tables that changed.
use workfllow_execution.Prelude.{ℕ, String, ◌==◌, eq_iff, eq_refl, ◌≡◌, refl, sym, ap}
use workfllow_execution.Prelude.{◌∙◌, ◌≢◌, ◌↔◌, ◌⊎◌, inl, inr, Bool, true, false, ◌||◌, arith}
use workfllow_execution.Prelude.{if◌then◌else◌, none, some, List, [], ◌∷◌, ◌++◌, ◌∈◌}
use workfllow_execution.Prelude.{Bool-cases, Option-cases, str-cases}
use workfllow_execution.Catalog.{DefinitionRow, VersionRow, by_id, by_slug, taken, distinct}
use workfllow_execution.Catalog.{set_latest, version_at, is_version, version_taken}
use workfllow_execution.Catalog.{distinct_versions}

-- The row that is found has the id, and is in the table.
pub by_id-found :
    (i : String) (ds : List DefinitionRow) (d : DefinitionRow)
    → by_id i ds ≡ some d
    → (d ∈ ds) × (d.id ≡ i)
unfolding by_id
by_id-found i [] d e = absurd (cc)
by_id-found i (c ∷ cs) d e = elim (str-cases c.id i) [
  | inl (same, t) ↦
      let e' : some c ≡ some d = rw t at e in
      let e2 : c ≡ d = cc in (inl (sym e2), ap (λ (x : DefinitionRow). x.id) (sym e2) ∙ same)
  | inr (other, f) ↦ let (m, named) = by_id-found i cs d (rw f at e) in (inr m, named)
]

-- A row of the table is not free, and in a table without repetition it is the one with its id.
taken-id :
    (c d : DefinitionRow) (ds : List DefinitionRow)
    → taken c ds ≡ false
    → d ∈ ds
    → (c.id ≢ d.id) × (c.slug ≢ d.slug)
unfolding taken
taken-id c d [] h m = absurd m
taken-id c d (e ∷ es) h (inr m) = taken-id c d es (ground arith) m
taken-id c d (e ∷ es) h (inl same) = (
  λ i. absurd (ground (arith, eq_iff e.id c.id, ap (λ (x : DefinitionRow). x.id) same)),
  λ s. absurd (ground (arith, eq_iff e.slug c.slug, ap (λ (x : DefinitionRow). x.slug) same)),
)

pub by_id-mem :
    (d : DefinitionRow) (ds : List DefinitionRow)
    → distinct ds ≡ true
    → d ∈ ds
    → by_id d.id ds ≡ some d
unfolding by_id distinct
by_id-mem d [] h m = absurd m
by_id-mem d (c ∷ cs) h (inl same) = rw same (simp eq_refl)
by_id-mem d (c ∷ cs) h (inr m) =
    ground (
      arith,
      (taken-id c d cs (ground arith) m).0,
      eq_iff c.id d.id,
      by_id-mem d cs (ground arith) m,
    )

pub only_row :
    (b d : DefinitionRow) (ds : List DefinitionRow)
    → distinct ds ≡ true
    → b ∈ ds
    → d ∈ ds
    → b.id ≡ d.id
    → b ≡ d
only_row b d ds h m m' e =
    let found : some b ≡ some d =
      sym (by_id-mem b ds h m) ∙ ap (λ i. by_id i ds) e ∙ by_id-mem d ds h m' in
    cc

pub by_slug-mem :
    (d : DefinitionRow) (ds : List DefinitionRow)
    → distinct ds ≡ true
    → d ∈ ds
    → by_slug d.slug ds ≡ some d
unfolding by_slug distinct
by_slug-mem d [] h m = absurd m
by_slug-mem d (c ∷ cs) h (inl same) = rw same (simp eq_refl)
by_slug-mem d (c ∷ cs) h (inr m) = ground (
  arith,
  (taken-id c d cs (ground arith) m).1,
  eq_iff c.slug d.slug,
  by_slug-mem d cs (ground arith) m,
)

abbrev clash : DefinitionRow → DefinitionRow → Bool
clash c d = d.id == c.id || d.slug == c.slug

taken-snoc :
    (c d : DefinitionRow) (ds : List DefinitionRow)
    → taken c (ds ++ d ∷ []) ≡ (clash c d || taken c ds)
unfolding taken
taken-snoc c d [] = refl
taken-snoc c d (e ∷ es) = ground (arith, taken-snoc c d es)

pub distinct-snoc :
    (ds : List DefinitionRow) (d c : DefinitionRow)
    → distinct (ds ++ d ∷ []) ≡ true
    → (distinct ds ≡ true) × (c ∈ ds → c.id ≢ d.id)
unfolding distinct taken
distinct-snoc [] d c h = (refl, λ m. absurd m)
distinct-snoc (e ∷ es) d c h = (
  ground (arith, taken-snoc e d es, (distinct-snoc es d c (ground arith)).0),
  λ m. elim m [
    | inl same ↦ λ i.
        absurd (
          ground
            (arith, taken-snoc e d es, eq_iff d.id e.id, ap (λ (x : DefinitionRow). x.id) same))
    | inr later ↦ (distinct-snoc es d c (ground arith)).1 later
  ],
)

pub by_id-snoc :
    (j : String) (ds : List DefinitionRow) (d : DefinitionRow)
    → (by_id j ds ≢ none) ⊎ (d.id ≡ j)
    → by_id j (ds ++ d ∷ []) ≢ none
unfolding by_id
by_id-snoc j [] d h = ground (arith, eq_iff d.id j)
by_id-snoc j (c ∷ cs) d h = ground (arith, by_id-snoc j cs d)

taken-set_latest :
    (c : DefinitionRow) (i : String) (n : ℕ) (ds : List DefinitionRow)
    → taken c (set_latest i n ds) ≡ taken c ds
unfolding taken set_latest
taken-set_latest c i n [] = refl
taken-set_latest c i n (d ∷ ds) = elim (Bool-cases (d.id == i)) [
  | inl t ↦ rw (t, taken-set_latest c i n ds)
  | inr f ↦ rw (f, taken-set_latest c i n ds)
]

taken-latest :
    (c : DefinitionRow) (n : ℕ) (ds : List DefinitionRow)
    → taken (record c { latest_version = n }) ds ≡ taken c ds
unfolding taken
taken-latest c n [] = refl
taken-latest c n (d ∷ ds) = rw (taken-latest c n ds)

pub distinct-set_latest :
    (i : String) (n : ℕ) (ds : List DefinitionRow) → distinct (set_latest i n ds) ≡ distinct ds
unfolding distinct set_latest
distinct-set_latest i n [] = refl
distinct-set_latest i n (d ∷ ds) = elim (Bool-cases (d.id == i)) [
  | inl t ↦ ground (
    arith,
    t,
    taken-latest d n (set_latest i n ds),
    taken-set_latest d i n ds,
    distinct-set_latest i n ds,
  )
  | inr f ↦ ground (arith, f, taken-set_latest d i n ds, distinct-set_latest i n ds)
]

abbrev pub renumbered : String → ℕ → DefinitionRow → DefinitionRow
renumbered i n d = if d.id == i then record d { latest_version = n } else d

renumbered-id : (i : String) (n : ℕ) (d : DefinitionRow) → (renumbered i n d).id ≡ d.id
renumbered-id i n d = elim (Bool-cases (d.id == i)) [ inl t ↦ rw t | inr f ↦ rw f ]

-- A number changes no id.
pub by_id-set_latest :
    (i k : String) (n : ℕ) (ds : List DefinitionRow) (d : DefinitionRow)
    → by_id k ds ≡ some d
    → by_id k (set_latest i n ds) ≡ some (renumbered i n d)
unfolding by_id set_latest
by_id-set_latest i k n [] d e = absurd (cc)
by_id-set_latest i k n (c ∷ cs) d e = elim (Bool-cases (c.id == k)) [
  | inl t ↦
      let e' : some c ≡ some d = rw t at e in
      let same : c ≡ d = cc in rw (renumbered-id i n c, t) (ap (λ x. some (renumbered i n x)) same)
  | inr f ↦ rw (renumbered-id i n c, f) (by_id-set_latest i k n cs d (rw f at e))
]

pub by_id-set_latest_ne :
    (i k : String) (n : ℕ) (ds : List DefinitionRow)
    → by_id k ds ≢ none
    → by_id k (set_latest i n ds) ≢ none
by_id-set_latest_ne i k n ds h = elim (Option-cases (by_id k ds)) [
  | inl gone ↦ absurd (h gone)
  | inr (d, e) ↦ λ e'. absurd (cc (by_id-set_latest i k n ds d e))
]

-- Where a row of the changed table comes from.
pub set_latest-mem :
    (i : String) (n : ℕ) (ds : List DefinitionRow) (d : DefinitionRow)
    → d ∈ set_latest i n ds
    → (c : DefinitionRow) × (c ∈ ds) × (d ≡ renumbered i n c)
unfolding set_latest
set_latest-mem i n [] d h = absurd h
set_latest-mem i n (c ∷ cs) d (inl same) = (c, inl refl, same)
set_latest-mem i n (c ∷ cs) d (inr h) = let (b, m, e) = set_latest-mem i n cs d h in (b, inr m, e)

module _ {J : Type 0} where
  pub version_at-snoc :
      (i : String) (n : ℕ) (vs : List (VersionRow J)) (v : VersionRow J)
      → version_at i n (vs ++ v ∷ []) ≡ elim (version_at i n vs) [
        | none ↦ if is_version i n v then some v else none
        | some w ↦ some w
      ]
  unfolding version_at
  version_at-snoc i n [] v = refl
  version_at-snoc i n (w ∷ ws) v = elim (Bool-cases (is_version i n w)) [
    | inl t ↦ rw t
    | inr f ↦ rw f (version_at-snoc i n ws v)
  ]

  pub version_at-snoc_iff :
      (i : String) (n : ℕ) (vs : List (VersionRow J)) (v : VersionRow J)
      → (version_at i n (vs ++ v ∷ []) ≢ none)
        ↔ ((version_at i n vs ≢ none) ⊎ ((v.definition_id ≡ i) × (v.version ≡ n)))
  unfolding version_at
  version_at-snoc_iff i n [] v = (
    λ h. inr (ground (arith, eq_iff v.definition_id i)),
    λ h. ground (arith, eq_iff v.definition_id i),
  )
  version_at-snoc_iff i n (w ∷ ws) v = (
    λ h. ground (arith, (version_at-snoc_iff i n ws v).0),
    λ h. ground (arith, (version_at-snoc_iff i n ws v).1),
  )

  version_taken-snoc :
      (w v : VersionRow J) (vs : List (VersionRow J))
      → version_taken w vs ≡ false
      → w.id ≢ v.id
      → is_version v.definition_id v.version w ≡ false
      → version_taken w (vs ++ v ∷ []) ≡ false
  unfolding version_taken
  version_taken-snoc w v [] h a b = ground (
    arith,
    eq_iff v.id w.id,
    eq_iff v.definition_id w.definition_id,
    eq_iff w.definition_id v.definition_id,
  )
  version_taken-snoc w v (u ∷ us) h a b =
      ground (arith, version_taken-snoc w v us (ground arith) a b)

  -- A version with a new id and a new number takes nothing.
  pub distinct_versions-snoc :
      (vs : List (VersionRow J)) (v : VersionRow J)
      → distinct_versions vs ≡ true
      → ((w : VersionRow J) → w ∈ vs → w.id ≢ v.id)
      → version_at v.definition_id v.version vs ≡ none
      → distinct_versions (vs ++ v ∷ []) ≡ true
  unfolding distinct_versions version_at version_taken
  distinct_versions-snoc [] v h fresh none_there = refl
  distinct_versions-snoc (w ∷ ws) v h fresh none_there = ground (
    arith,
    version_taken-snoc w v ws (ground arith) (fresh w (inl refl)) (ground arith),
    distinct_versions-snoc ws v (ground arith) (λ u m. fresh u (inr m)) (ground arith),
  )
