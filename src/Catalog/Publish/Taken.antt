-- ===== src/Catalog/Publish/Taken.antt =====
-- What a publication that returns has done to the tables.
use workfllow_execution.Prelude.{ℕ, suc, ◌≤◌, String, ◌==◌, ◌≡◌, refl, sym, ap, ◌∙◌}
use workfllow_execution.Prelude.{◌≢◌, ◌↔◌, inl, inr, true, arith}
use workfllow_execution.Prelude.{if◌then◌else◌, Option, none, some, List, [], ◌∷◌, ◌++◌, ◌∈◌}
use workfllow_execution.Prelude.{Bool-cases, Option-cases}
use mathlib.Core.Path.{subst}
use workfllow_execution.Errors.{Result, ok, err}
use workfllow_execution.Catalog.{DefinitionRow, VersionRow, Shelf, by_id, by_slug, distinct}
use workfllow_execution.Catalog.{set_latest, version_at, distinct_versions, is_consistent}
use workfllow_execution.Catalog.{add_version, next_version, publish_version}
use workfllow_execution.Catalog.Rows.{distinct-set_latest}
use workfllow_execution.Catalog.Numbered.{IsNumbered, publish-IsNumbered, parts}
use workfllow_execution.Catalog.Versions.{create_definition-IsNumbered}
use workfllow_execution.Catalog.Publish.{rename, Publication, Draws, renamed}
use workfllow_execution.Catalog.Publish.{or_rolled_back, publish_renamed, owned_by_other}
use workfllow_execution.Catalog.Publish.{publish_existing}
use workfllow_execution.Catalog.Publish.{publish_checked}

module _ (i name slug status : String) where
  abbrev with_names : DefinitionRow → DefinitionRow
  with_names d = if d.id == i then record d { name = name; slug = slug; status = status } else d

  with_names-same :
      (d : DefinitionRow)
      → ((with_names d).id ≡ d.id) × ((with_names d).latest_version ≡ d.latest_version)
  with_names-same d = elim (Bool-cases (d.id == i)) [
    | inl t ↦ rw t (refl, refl)
    | inr f ↦ rw f (refl, refl)
  ]

  by_id-rename :
      (k : String) (ds : List DefinitionRow) (d : DefinitionRow)
      → by_id k ds ≡ some d
      → by_id k (rename i name slug status ds) ≡ some (with_names d)
  unfolding by_id rename
  by_id-rename k [] d e = absurd (cc)
  by_id-rename k (c ∷ cs) d e = elim (Bool-cases (c.id == k)) [
    | inl t ↦
        let e' : some c ≡ some d = rw t at e in
        let same : c ≡ d = cc in rw ((with_names-same c).0, t) (ap (λ x. some (with_names x)) same)
    | inr f ↦ rw ((with_names-same c).0, f) (by_id-rename k cs d (rw f at e))
  ]

  rename-mem :
      (ds : List DefinitionRow) (d : DefinitionRow)
      → d ∈ rename i name slug status ds
      → (c : DefinitionRow) × (c ∈ ds) × (d ≡ with_names c)
  unfolding rename
  rename-mem [] d h = absurd h
  rename-mem (c ∷ cs) d (inl same) = (c, inl refl, same)
  rename-mem (c ∷ cs) d (inr h) = let (b, m, e) = rename-mem cs d h in (b, inr m, e)

module _ {J : Type 0} where
  same-numbers :
      (vs : List (VersionRow J)) (n : ℕ) (c d : DefinitionRow)
      → d.id ≡ c.id
      → d.latest_version ≡ c.latest_version
      → (version_at c.id n vs ≢ none) ↔ ((1 ≤ n) × (n ≤ c.latest_version))
      → (version_at d.id n vs ≢ none) ↔ ((1 ≤ n) × (n ≤ d.latest_version))
  same-numbers vs n c d e e' h = rw (e, e') h

  pub renamed-IsNumbered :
      (p : Publication J) (i : String) (s : Shelf J)
      → IsNumbered s
      → distinct (rename i p.name p.slug p.status s.definitions) ≡ true
      → IsNumbered (renamed p i s)
  renamed-IsNumbered p i s inv ids = record {
    distinct_ids = ids;
    distinct_numbers = inv.distinct_numbers;
    numbered = λ d n m.
        let (c, m', e) = rename-mem i p.name p.slug p.status s.definitions d m in
        let (same, latest) = with_names-same i p.name p.slug p.status c in
        same-numbers s.versions n c d (ap (λ (x : DefinitionRow). x.id) e ∙ same)
          (ap (λ (x : DefinitionRow). x.latest_version) e ∙ latest) (inv.numbered c n m');
    owned = λ j n h. elim (Option-cases (by_id j s.definitions)) [
      | inl gone ↦ absurd (inv.owned j n h gone)
      | inr (d, e) ↦ λ e'. absurd (cc (by_id-rename i p.name p.slug p.status j s.definitions d e))
    ];
  }

  -- A publication that returns added the next version of its definition.
  pub publish_version-ok :
      (uuid i : String) (json : J) (by : Option String) (s : Shelf J) (v : VersionRow J)
      → (publish_version uuid i json by s).0 ≡ ok v
      → (d : DefinitionRow) × (by_id i s.definitions ≡ some d)
        × (v ≡ next_version uuid d json by)
        × (is_consistent (
              add_version
                (next_version uuid d json by)
                (record s { definitions = set_latest d.id (suc d.latest_version) s.definitions }))
            ≡ true)
        × ((publish_version uuid i json by s).1
            ≡ add_version
                (next_version uuid d json by)
                (record s { definitions = set_latest d.id (suc d.latest_version) s.definitions }))
  unfolding publish_version
  publish_version-ok uuid i json by s v e = elim (Option-cases (by_id i s.definitions)) [
    | inl gone ↦ absurd (ground (arith, e, gone))
    | inr (d, found) ↦
        let after =
          add_version (next_version uuid d json by)
            (record s { definitions = set_latest d.id (suc d.latest_version) s.definitions }) in
        elim (Bool-cases (is_consistent after)) [
          | inl h ↦
              let e' : ok (next_version uuid d json by) ≡ ok v = rw (found, h) at e in
              (d, found, (cc), h, rw (found, h) refl)
          | inr h ↦ absurd (cc (rw (found, h) at e))
        ]
  ]

  -- After a rename the publication leaves numbered tables too.
  publish_renamed-IsNumbered :
      (draws : Draws) (p : Publication J) (existing : DefinitionRow) (s : Shelf J)
      → IsNumbered s
      → IsNumbered (publish_renamed draws p existing s).1
  publish_renamed-IsNumbered draws p existing s inv =
      back (publish_version draws.version existing.id p.json p.created_by (renamed p existing.id s))
        (λ v e.
          let (d, found, same, consistent, state) =
            publish_version-ok draws.version existing.id p.json p.created_by
              (renamed p existing.id s) v e in
          let names = rename existing.id p.name p.slug p.status s.definitions in
          let ids =
            (parts (distinct (set_latest d.id (suc d.latest_version) names))
              (distinct_versions
                (s.versions ++ next_version draws.version d p.json p.created_by ∷ []))
              consistent).0 in
          subst IsNumbered (sym state) (
            publish-IsNumbered (renamed p existing.id s) draws.version existing.id d p.json
              p.created_by
              (renamed-IsNumbered p existing.id s inv
                (sym (distinct-set_latest d.id (suc d.latest_version) names) ∙ ids))
              found consistent))
    where
      back :
          (r : Result (VersionRow J) × Shelf J)
          → ((v : VersionRow J) → r.0 ≡ ok v → IsNumbered r.1)
          → IsNumbered (or_rolled_back p existing s r).1
      back (ok v, t) k = k v refl
      back (err e, t) k = inv

  publish_existing-IsNumbered :
      (draws : Draws) (p : Publication J) (existing : DefinitionRow) (s : Shelf J)
      → IsNumbered s
      → IsNumbered (publish_existing draws p existing s).1
  unfolding publish_existing
  publish_existing-IsNumbered draws p existing s inv = elim (Bool-cases (existing.slug == p.slug)) [
    | inl t ↦ rw t (publish_renamed-IsNumbered draws p existing s inv)
    | inr f ↦ elim (Bool-cases (owned_by_other existing (by_slug p.slug s.definitions))) [
      | inl t ↦ rw (f, t) inv
      | inr f' ↦ rw (f, f') (publish_renamed-IsNumbered draws p existing s inv)
    ]
  ]

  -- The end of a publication leaves the versions of each definition numbered from 1 to its latest
  -- without a gap, and ids and slugs unique, whether it creates, publishes or refuses.
  pub publish_checked-IsNumbered :
      (draws : Draws) (p : Publication J) (s : Shelf J)
      → IsNumbered s
      → IsNumbered (publish_checked draws p s).1
  unfolding publish_checked
  publish_checked-IsNumbered draws p s inv = elim (Option-cases (by_id p.id s.definitions)) [
    | inr (existing, found) ↦ rw found (publish_existing-IsNumbered draws p existing s inv)
    | inl gone ↦ elim (Option-cases (by_slug p.slug s.definitions)) [
      | inr (owner, owned) ↦ rw (gone, owned) inv
      | inl free ↦
          rw (gone, free)
            (create_definition-IsNumbered s draws.definition draws.version p.name p.slug p.status
              (some p.id) p.json p.created_by inv)
    ]
  ]
