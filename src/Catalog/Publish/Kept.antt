-- ===== src/Catalog/Publish/Kept.antt =====
-- A version that was published stays what it is.
use workfllow_execution.Prelude.{ℕ, String, ◌==◌, ◌≡◌, inl, inr, Bool-cases}
use workfllow_execution.Prelude.{Option-cases, some}
use workfllow_execution.Errors.{Result, ok, err}
use workfllow_execution.Catalog.{DefinitionRow, VersionRow, Shelf, by_id, by_slug, version_at}
use workfllow_execution.Catalog.{publish_version}
use workfllow_execution.Catalog.Versions.{create_definition-keeps, publish_version-keeps}
use workfllow_execution.Catalog.Publish.{
  Publication, Draws, renamed, or_rolled_back, publish_renamed,
}
use workfllow_execution.Catalog.Publish.{owned_by_other, publish_existing, publish_checked}

module _ {J : Type 0} (draws : Draws) (p : Publication J) (s : Shelf J) (i : String) (n : ℕ)
    (w : VersionRow J) (there : version_at i n s.versions ≡ some w) where
  publish_renamed-keeps :
      (existing : DefinitionRow)
      → version_at i n (publish_renamed draws p existing s).1.versions ≡ some w
  publish_renamed-keeps existing =
      back (publish_version draws.version existing.id p.json p.created_by (renamed p existing.id s))
        (publish_version-keeps (renamed p existing.id s) draws.version existing.id p.json
          p.created_by i n w there)
    where
      back :
          (r : Result (VersionRow J) × Shelf J)
          → version_at i n r.1.versions ≡ some w
          → version_at i n (or_rolled_back p existing s r).1.versions ≡ some w
      back (ok v, t) kept = kept
      back (err e, t) kept = there

  publish_existing-keeps :
      (existing : DefinitionRow)
      → version_at i n (publish_existing draws p existing s).1.versions ≡ some w
  unfolding publish_existing
  publish_existing-keeps existing = elim (Bool-cases (existing.slug == p.slug)) [
    | inl t ↦ rw t (publish_renamed-keeps existing)
    | inr f ↦ elim (Bool-cases (owned_by_other existing (by_slug p.slug s.definitions))) [
      | inl t ↦ rw (f, t) there
      | inr f' ↦ rw (f, f') (publish_renamed-keeps existing)
    ]
  ]

  -- A version that the tables have is the same after the end of a publication, whatever comes of
  -- it: nothing that was pinned changes.
  pub publish_checked-keeps : version_at i n (publish_checked draws p s).1.versions ≡ some w
  unfolding publish_checked
  publish_checked-keeps = elim (Option-cases (by_id p.id s.definitions)) [
    | inr (existing, found) ↦ rw found (publish_existing-keeps existing)
    | inl gone ↦ elim (Option-cases (by_slug p.slug s.definitions)) [
      | inr (owner, owned) ↦ rw (gone, owned) there
      | inl free ↦
          rw (gone, free)
            (create_definition-keeps s draws.definition draws.version p.name p.slug p.status
              (some p.id) p.json p.created_by i n w there)
    ]
  ]
