-- ===== src/Catalog/Numbered.antt =====
-- The versions of each definition are numbered from 1 to its latest, and stay so.
use workfllow_execution.Prelude.{ℕ, suc, ◌≤◌, String, ◌≡◌, refl, sym, ap, ◌∙◌}
use workfllow_execution.Prelude.{◌≢◌, ◌↔◌, inl, inr, Bool, true, false, ◌&&◌, arith}
use workfllow_execution.Prelude.{Option, none, some, [], ◌∷◌, ◌++◌, ◌∈◌}
use workfllow_execution.Prelude.{Option-cases, str-cases, mem-append}
use mathlib.Core.Path.{subst}
use workfllow_execution.Catalog.{DefinitionRow, Shelf, by_id, distinct, set_latest}
use workfllow_execution.Catalog.{version_at, distinct_versions, is_consistent, add_version}
use workfllow_execution.Catalog.{add_definition, new_definition, first_version, next_version}
use workfllow_execution.Catalog.Rows.{by_id-found, distinct-snoc, by_id-snoc}
use workfllow_execution.Catalog.Rows.{only_row, by_id-set_latest_ne}
use workfllow_execution.Catalog.Rows.{set_latest-mem, version_at-snoc_iff}

pub parts : (a b : Bool) → (a && b) ≡ true → (a ≡ true) × (b ≡ true)
parts true b h = (refl, h)
parts false b h = absurd (cc)

module _ {J : Type 0} where
  -- The tables meet their constraints, and a definition has the versions from 1 to its latest.
  pub record IsNumbered (s : Shelf J) : Type 0 where
    pub distinct_ids : distinct s.definitions ≡ true
    pub distinct_numbers : distinct_versions s.versions ≡ true
    pub numbered :
        (d : DefinitionRow) (n : ℕ)
        → d ∈ s.definitions
        → (version_at d.id n s.versions ≢ none) ↔ ((1 ≤ n) × (n ≤ d.latest_version))
    pub owned :
        (i : String) (n : ℕ) → version_at i n s.versions ≢ none → by_id i s.definitions ≢ none

  -- What no definition has the id of has no version.
  pub fresh_id :
      (s : Shelf J) (d : DefinitionRow) (n : ℕ)
      → IsNumbered s
      → distinct (s.definitions ++ d ∷ []) ≡ true
      → version_at d.id n s.versions ≡ none
  fresh_id s d n inv ids = elim (Option-cases (version_at d.id n s.versions)) [
    | inl e ↦ e
    | inr (w, e) ↦ elim (Option-cases (by_id d.id s.definitions)) [
      | inl gone ↦ absurd (inv.owned d.id n (λ e'. absurd (cc)) gone)
      | inr (c, found) ↦
          let (m, same) = by_id-found d.id s.definitions c found in
          absurd ((distinct-snoc s.definitions d c ids).1 m same)
    ]
  ]

  pub create-IsNumbered :
      (s : Shelf J) (uuid i name slug status : String) (json : J) (by : Option String)
      → IsNumbered s
      → is_consistent (
          add_version
            (first_version uuid i json by)
            (add_definition (new_definition i name slug status) s))
        ≡ true
      → IsNumbered (
          add_version
            (first_version uuid i json by)
            (add_definition (new_definition i name slug status) s))
  create-IsNumbered s uuid i name slug status json by inv h =
      let d = new_definition i name slug status in
      let v = first_version uuid i json by in
      let (ids, numbers) =
        parts (distinct (s.definitions ++ d ∷ [])) (distinct_versions (s.versions ++ v ∷ [])) h in
      record {
        distinct_ids = ids;
        distinct_numbers = numbers;
        numbered = λ c n m. elim ((mem-append c s.definitions (d ∷ [])).0 m) [
          | inl old ↦
              let other = (distinct-snoc s.definitions d c ids).1 old in
              (
                λ h. ground (arith, inv.numbered c n old, version_at-snoc_iff c.id n s.versions v),
                λ h. ground (arith, inv.numbered c n old, version_at-snoc_iff c.id n s.versions v),
              )
          | inr (inl new) ↦
              let none_before = fresh_id s d n inv ids in
              subst
                (λ (c : DefinitionRow).
                  (version_at c.id n (s.versions ++ v ∷ []) ≢ none)
                  ↔ ((1 ≤ n) × (n ≤ c.latest_version)))
                (sym new)
                (
                  λ h. ground (arith, version_at-snoc_iff i n s.versions v, none_before),
                  λ h. ground (arith, version_at-snoc_iff i n s.versions v, none_before),
                )
          | inr (inr none_left) ↦ absurd none_left
        ];
        owned = λ j n h. elim ((version_at-snoc_iff j n s.versions v).0 h) [
          | inl old ↦ by_id-snoc j s.definitions d (inl (inv.owned j n old))
          | inr (mine, _) ↦ by_id-snoc j s.definitions d (inr mine)
        ];
      }

  pub publish-IsNumbered :
      (s : Shelf J) (uuid i : String) (d : DefinitionRow) (json : J) (by : Option String)
      → IsNumbered s
      → by_id i s.definitions ≡ some d
      → is_consistent (
          add_version
            (next_version uuid d json by)
            (record s { definitions = set_latest d.id (suc d.latest_version) s.definitions }))
        ≡ true
      → IsNumbered (
          add_version
            (next_version uuid d json by)
            (record s { definitions = set_latest d.id (suc d.latest_version) s.definitions }))
  publish-IsNumbered s uuid i d json by inv found h =
      let v = next_version uuid d json by in
      let ds = set_latest d.id (suc d.latest_version) s.definitions in
      let (ids, numbers) = parts (distinct ds) (distinct_versions (s.versions ++ v ∷ [])) h in
      let (here, named) = by_id-found i s.definitions d found in
      record {
        distinct_ids = ids;
        distinct_numbers = numbers;
        numbered = λ c n m.
            let (b, before, same) = set_latest-mem d.id (suc d.latest_version) s.definitions c m in
            subst
              (λ (c : DefinitionRow).
                (version_at c.id n (s.versions ++ v ∷ []) ≢ none)
                ↔ ((1 ≤ n) × (n ≤ c.latest_version)))
              (sym same)
              (elim (str-cases b.id d.id) [
                | inl (mine, t) ↦
                    let latest : b.latest_version ≡ d.latest_version =
                      ap (λ (x : DefinitionRow). x.latest_version)
                        (only_row b d s.definitions inv.distinct_ids before here mine) in
                    rw t (
                      λ h. ground (
                        arith,
                        version_at-snoc_iff b.id n s.versions v,
                        inv.numbered b n before,
                        latest,
                      ),
                      λ h. ground (
                        arith,
                        version_at-snoc_iff b.id n s.versions v,
                        inv.numbered b n before,
                        latest,
                      ),
                    )
                | inr (other, f) ↦ rw f (
                  λ h.
                      ground
                        (arith, version_at-snoc_iff b.id n s.versions v, inv.numbered b n before),
                  λ h.
                      ground
                        (arith, version_at-snoc_iff b.id n s.versions v, inv.numbered b n before),
                )
              ]);
        owned = λ j n h.
            by_id-set_latest_ne d.id j (suc d.latest_version) s.definitions
              (elim ((version_at-snoc_iff j n s.versions v).0 h) [
                | inl old ↦ inv.owned j n old
                | inr (mine, _) ↦ λ gone.
                    absurd (cc (ap (λ k. by_id k s.definitions) (sym mine ∙ named), found, gone))
              ]);
      }
