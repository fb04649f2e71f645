-- ===== src/Catalog/Publish/Results.antt =====
-- What the end of a publication returns, or raises.
use workfllow_execution.Prelude.{suc, ◌==◌, eq_iff, ◌≡◌, refl, sym, ap, ◌∙◌}
use workfllow_execution.Prelude.{◌≢◌, inl, inr, arith, mem-append}
use workfllow_execution.Prelude.{none, some, [], ◌∷◌, ◌++◌}
use workfllow_execution.Prelude.{Bool-cases, Option-cases}
use mathlib.Core.Path.{subst}
use workfllow_execution.Errors.{Error, Result, ok, err}
use workfllow_execution.Catalog.{DefinitionRow, VersionRow, Shelf, by_id, by_slug, distinct}
use workfllow_execution.Catalog.{set_latest, version_at, distinct_versions, is_consistent, flush}
use workfllow_execution.Catalog.{add_version, add_definition, new_definition}
use workfllow_execution.Catalog.{first_version, next_version, publish_version, create_definition}
use workfllow_execution.Catalog.{pin_version, id_or}
use workfllow_execution.Catalog.Rows.{by_id-found, by_id-mem, version_at-snoc, distinct-set_latest}
use workfllow_execution.Catalog.Numbered.{IsNumbered, parts, fresh_id}
use workfllow_execution.Catalog.Versions.{pin-next_state, is_version_own}
use workfllow_execution.Catalog.Publish.{rename, Publication, Draws, Published, renamed}
use workfllow_execution.Catalog.Publish.{or_rolled_back, publish_renamed, owned_by_other}
use workfllow_execution.Catalog.Publish.{publish_existing, publish_checked}
use workfllow_execution.Catalog.Publish.Taken.{publish_version-ok, renamed-IsNumbered}

-- What was published can be pinned, and is what the payload says.
abbrev pub IsStored : {J : Type 0} → Publication J → Result (Published J) × Shelf J → Type 0
IsStored p (err e, s) = Unit
IsStored p (ok (d, v), s) = (v.definition_json ≡ p.json) × (pin_version p.id none s ≡ ok v)

-- An exception leaves the tables as they were.
abbrev pub IsKept : {J A : Type 0} → Shelf J → Result A × Shelf J → Type 0
IsKept s (err e, t) = t ≡ s
IsKept s (ok a, t) = Unit

module _ {J : Type 0} where
  create-IsStored :
      (draws : Draws) (p : Publication J) (s : Shelf J)
      → IsNumbered s
      → p.id ≢ ""
      → IsStored p (
          create_definition draws.definition draws.version
            (some p.id)
            p.name
            p.slug
            p.status
            p.json
            p.created_by
            s)
  unfolding create_definition pin_version
  create-IsStored draws p s inv given =
      let i = id_or draws.definition (some p.id) in
      let d = new_definition i p.name p.slug p.status in
      let v = first_version draws.version i p.json p.created_by in
      elim (Bool-cases (is_consistent (add_version v (add_definition d s)))) [
        | inr h ↦ rw h tt
        | inl h ↦
            let named : i ≡ p.id = ground (arith, eq_iff p.id "") in
            let (ids, _) =
              parts (distinct (s.definitions ++ d ∷ [])) (distinct_versions (s.versions ++ v ∷ []))
                h in
            let listed : by_id i (s.definitions ++ d ∷ []) ≡ some d =
              by_id-mem d (s.definitions ++ d ∷ []) ids
                ((mem-append d s.definitions (d ∷ [])).1 (inr (inl refl))) in
            let numbered : version_at i 1 (s.versions ++ v ∷ []) ≡ some v =
              version_at-snoc i 1 s.versions v
              ∙ rw (fresh_id s d 1 inv ids, is_version_own i 1 v refl refl) refl in
            rw h (
              refl,
              subst (λ k. pin_version k none (add_version v (add_definition d s)) ≡ ok v) named
                  (rw (listed, numbered) refl),
            )
      ]

  publish_renamed-IsStored :
      (draws : Draws) (p : Publication J) (existing : DefinitionRow) (s : Shelf J)
      → IsNumbered s
      → existing.id ≡ p.id
      → IsStored p (publish_renamed draws p existing s)
  publish_renamed-IsStored draws p existing s inv named =
      back (publish_version draws.version existing.id p.json p.created_by (renamed p existing.id s))
        (λ v e.
          let (d, found, same, consistent, state) =
            publish_version-ok draws.version existing.id p.json p.created_by
              (renamed p existing.id s) v e in
          let names = rename existing.id p.name p.slug p.status s.definitions in
          let ids =
            (parts (distinct (set_latest d.id (suc d.latest_version) names))
              (distinct_versions
                (s.versions ++ next_version draws.version d p.json p.created_by ∷ []))
              consistent).0 in
          (
            ap (λ (x : VersionRow J). x.definition_json) same,
            ap (pin_version existing.id none) state
                ∙ pin-next_state (renamed p existing.id s) draws.version existing.id p.json
                    p.created_by d
                    (renamed-IsNumbered p existing.id s inv
                      (sym (distinct-set_latest d.id (suc d.latest_version) names) ∙ ids))
                    found
                ∙ ap ok (sym same),
          ))
    where
      back :
          (r : Result (VersionRow J) × Shelf J)
          → ((v : VersionRow J)
              → r.0 ≡ ok v
              → (v.definition_json ≡ p.json) × (pin_version existing.id none r.1 ≡ ok v))
          → IsStored p (or_rolled_back p existing s r)
      back (ok v, t) k =
          let (json, pinned) = k v refl in
          (json, subst (λ i. pin_version i none t ≡ ok v) named pinned)
      back (err e, t) k = tt

  publish_existing-IsStored :
      (draws : Draws) (p : Publication J) (existing : DefinitionRow) (s : Shelf J)
      → IsNumbered s
      → existing.id ≡ p.id
      → IsStored p (publish_existing draws p existing s)
  unfolding publish_existing
  publish_existing-IsStored draws p existing s inv named =
      elim (Bool-cases (existing.slug == p.slug)) [
        | inl t ↦ rw t (publish_renamed-IsStored draws p existing s inv named)
        | inr f ↦ elim (Bool-cases (owned_by_other existing (by_slug p.slug s.definitions))) [
          | inl t ↦ rw (f, t) tt
          | inr f' ↦ rw (f, f') (publish_renamed-IsStored draws p existing s inv named)
        ]
      ]

  -- In numbered tables: if a payload with an id is taken up, then the version that comes back
  -- stores its JSON, and is the one that pinning the latest version of the definition gives.
  pub publish_checked-IsStored :
      (draws : Draws) (p : Publication J) (s : Shelf J)
      → IsNumbered s
      → p.id ≢ ""
      → IsStored p (publish_checked draws p s)
  unfolding publish_checked
  publish_checked-IsStored draws p s inv given = elim (Option-cases (by_id p.id s.definitions)) [
    | inr (existing, found) ↦ rw found (
        publish_existing-IsStored draws p existing s inv
          (by_id-found p.id s.definitions existing found).1)
    | inl gone ↦ elim (Option-cases (by_slug p.slug s.definitions)) [
      | inr (owner, owned) ↦ rw (gone, owned) tt
      | inl free ↦ rw (gone, free) (create-IsStored draws p s inv given)
    ]
  ]

  flush-IsKept : {A : Type 0} (e : Error) (a : A) (after s : Shelf J) → IsKept s (flush e a after s)
  flush-IsKept e a after s = elim (Bool-cases (is_consistent after)) [
    | inl h ↦ rw h tt
    | inr h ↦ rw h refl
  ]

  publish_renamed-IsKept :
      (draws : Draws) (p : Publication J) (existing : DefinitionRow) (s : Shelf J)
      → IsKept s (publish_renamed draws p existing s)
  publish_renamed-IsKept draws p existing s =
      back (publish_version draws.version existing.id p.json p.created_by (renamed p existing.id s))
    where
      back : (r : Result (VersionRow J) × Shelf J) → IsKept s (or_rolled_back p existing s r)
      back (ok v, t) = tt
      back (err e, t) = refl

  publish_existing-IsKept :
      (draws : Draws) (p : Publication J) (existing : DefinitionRow) (s : Shelf J)
      → IsKept s (publish_existing draws p existing s)
  unfolding publish_existing
  publish_existing-IsKept draws p existing s = elim (Bool-cases (existing.slug == p.slug)) [
    | inl t ↦ rw t (publish_renamed-IsKept draws p existing s)
    | inr f ↦ elim (Bool-cases (owned_by_other existing (by_slug p.slug s.definitions))) [
      | inl t ↦ rw (f, t) refl
      | inr f' ↦ rw (f, f') (publish_renamed-IsKept draws p existing s)
    ]
  ]

  pub publish_checked-IsKept :
      (draws : Draws) (p : Publication J) (s : Shelf J) → IsKept s (publish_checked draws p s)
  unfolding publish_checked create_definition
  publish_checked-IsKept draws p s = elim (Option-cases (by_id p.id s.definitions)) [
    | inr (existing, found) ↦ rw found (publish_existing-IsKept draws p existing s)
    | inl gone ↦ elim (Option-cases (by_slug p.slug s.definitions)) [
      | inr (owner, owned) ↦ rw (gone, owned) refl
      | inl free ↦ rw (gone, free) (flush-IsKept _ _ _ s)
    ]
  ]
