-- ===== src/Catalog/Versions.antt =====
-- What the creation and the publication of definitions keep and give.
use workfllow_execution.Prelude.{ℕ, suc, String, eq_iff, eq_refl, ◌≡◌, refl}
use workfllow_execution.Prelude.{◌∙◌, ◌≢◌, inl, inr, true, arith}
use workfllow_execution.Prelude.{Option, none, some, List, [], ◌∷◌, ◌++◌, ◌∈◌}
use workfllow_execution.Prelude.{Bool-cases, Option-cases}
use workfllow_execution.Errors.{Error, ok}
use workfllow_execution.Catalog.{DefinitionRow, VersionRow, Shelf, by_id, set_latest}
use workfllow_execution.Catalog.{is_version, version_at, is_consistent, add_version}
use workfllow_execution.Catalog.{first_version, next_version}
use workfllow_execution.Catalog.{create_definition, publish_version, id_or}
use workfllow_execution.Catalog.{pin_version, flush}
use workfllow_execution.Catalog.Rows.{by_id-found, by_id-set_latest}
use workfllow_execution.Catalog.Rows.{version_at-snoc, distinct_versions-snoc, distinct-set_latest}
use workfllow_execution.Catalog.Numbered.{IsNumbered, create-IsNumbered, publish-IsNumbered}

module _ {J : Type 0} where
  -- A flush leaves the tables that it found or the new ones, if those meet the constraints.
  flush-state :
      {A : Type 0} (e : Error) (a : A) (P : Shelf J → Type 0) (after s : Shelf J)
      → P s
      → (is_consistent after ≡ true → P after)
      → P (flush e a after s).1
  flush-state e a P after s p q = elim (Bool-cases (is_consistent after)) [
    | inl h ↦ rw h (q h)
    | inr h ↦ rw h p
  ]

  pub is_version_own :
      (i : String) (n : ℕ) (v : VersionRow J)
      → v.definition_id ≡ i
      → v.version ≡ n
      → is_version i n v ≡ true
  is_version_own i n v e e' = ground (arith, eq_iff v.definition_id i)

  version_at-keeps :
      (i : String) (n : ℕ) (vs : List (VersionRow J)) (v w : VersionRow J)
      → version_at i n vs ≡ some w
      → version_at i n (vs ++ v ∷ []) ≡ some w
  version_at-keeps i n vs v w e = version_at-snoc i n vs v ∙ rw e refl

  module _ (s : Shelf J) (uuid version_uuid name slug status : String)
      (definition_id : Option String) (json : J) (by : Option String) where
    -- Whether it is taken up or refused, a new definition leaves the versions of each definition
    -- numbered from 1 to its latest without a gap, and ids and slugs unique.
    pub create_definition-IsNumbered :
        IsNumbered s
        → IsNumbered
            (create_definition uuid version_uuid definition_id name slug status json by s).1
    unfolding create_definition
    create_definition-IsNumbered inv =
        flush-state _ _ IsNumbered _ s inv
          (create-IsNumbered s version_uuid (id_or uuid definition_id) name slug status json by inv)

    pub create_definition-keeps :
        (i : String) (n : ℕ) (w : VersionRow J)
        → version_at i n s.versions ≡ some w
        → version_at i n
            (create_definition uuid version_uuid definition_id name slug status json by
              s).1.versions
          ≡ some w
    unfolding create_definition
    create_definition-keeps i n w e =
        flush-state _ _ (λ t. version_at i n t.versions ≡ some w) _ s e
          (λ _.
            version_at-keeps i n s.versions
              (first_version version_uuid (id_or uuid definition_id) json by) w e)

  module _ (s : Shelf J) (uuid i : String) (json : J) (by : Option String) where
    -- A publication leaves the versions of each definition numbered from 1 to its latest without
    -- a gap, and ids and slugs unique, whether it succeeds or fails.
    pub publish_version-IsNumbered : IsNumbered s → IsNumbered (publish_version uuid i json by s).1
    unfolding publish_version
    publish_version-IsNumbered inv = elim (Option-cases (by_id i s.definitions)) [
      | inl gone ↦ rw gone inv
      | inr (d, found) ↦
          rw found
            (flush-state _ _ IsNumbered _ s inv (publish-IsNumbered s uuid i d json by inv found))
    ]

    pub publish_version-keeps :
        (j : String) (n : ℕ) (w : VersionRow J)
        → version_at j n s.versions ≡ some w
        → version_at j n (publish_version uuid i json by s).1.versions ≡ some w
    unfolding publish_version
    publish_version-keeps j n w e = elim (Option-cases (by_id i s.definitions)) [
      | inl gone ↦ rw gone e
      | inr (d, found) ↦ rw found (
          flush-state _ _ (λ t. version_at j n t.versions ≡ some w) _ s e
            (λ _. version_at-keeps j n s.versions (next_version uuid d json by) w e))
    ]

    abbrev next_state : DefinitionRow → Shelf J
    next_state d =
        add_version (next_version uuid d json by)
          (record s { definitions = set_latest d.id (suc d.latest_version) s.definitions })

    free_number :
        (d : DefinitionRow)
        → IsNumbered s
        → d ∈ s.definitions
        → version_at d.id (suc d.latest_version) s.versions ≡ none
    free_number d inv here =
        elim (Option-cases (version_at d.id (suc d.latest_version) s.versions)) [
          | inl e ↦ e
          | inr (w, e) ↦
              let (_, le) = (inv.numbered d (suc d.latest_version) here).0 (λ e'. absurd (cc)) in
              absurd (omega arith)
        ]

    -- The latest version is the one that was added.
    pub pin-next_state :
        (d : DefinitionRow)
        → IsNumbered s
        → by_id i s.definitions ≡ some d
        → pin_version i none (next_state d) ≡ ok (next_version uuid d json by)
    unfolding pin_version
    pin-next_state d inv found =
        let (here, named) = by_id-found i s.definitions d found in
        let v = next_version uuid d json by in
        let next = suc d.latest_version in
        let listed : by_id i (set_latest d.id next s.definitions)
            ≡ some (record d { latest_version = next }) =
          by_id-set_latest d.id i next s.definitions d found ∙ rw (eq_refl d.id) refl in
        let numbered : version_at i next (s.versions ++ v ∷ []) ≡ some v =
          version_at-snoc i next s.versions v
          ∙ rw (rw named at (free_number d inv here), is_version_own i next v named refl) refl in
        rw (listed, numbered) refl

    -- In tables whose versions are numbered, a publication for a definition that is there, with a
    -- new id for the version, returns: no constraint is in its way. Pinning the latest version
    -- gives what was published, under the next number.
    pub pin-publish_version :
        (d : DefinitionRow)
        → IsNumbered s
        → by_id i s.definitions ≡ some d
        → ((w : VersionRow J) → w ∈ s.versions → w.id ≢ uuid)
        → ((publish_version uuid i json by s).0 ≡ ok (next_version uuid d json by))
          × (pin_version i none (publish_version uuid i json by s).1
              ≡ ok (next_version uuid d json by))
    unfolding publish_version
    pin-publish_version d inv found fresh =
        let (here, _) = by_id-found i s.definitions d found in
        let v = next_version uuid d json by in
        let next = suc d.latest_version in
        let consistent : is_consistent (next_state d) ≡ true =
          rw
            (
              distinct-set_latest d.id next s.definitions,
              inv.distinct_ids,
              distinct_versions-snoc s.versions v inv.distinct_numbers fresh
                  (free_number d inv here),
            )
            refl in
        rw (found, consistent) (refl, pin-next_state d inv found)
