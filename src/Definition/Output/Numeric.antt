-- ===== src/Definition/Output/Numeric.antt =====
-- A declaration that passes `validate_declared_output` names what yields a number.
use workfllow_execution.Prelude.{Bool, String, ◌==◌, ◌≡◌, refl, sym, ap, ◌∙◌, ◌⊎◌, inl, inr}
use workfllow_execution.Prelude.{true, false, if◌then◌else◌, Bool-cases, arith, str-cases}
use workfllow_execution.Prelude.{Option, none, some, List, [], ◌∷◌, ◌∈◌, lookup, insert}
use workfllow_execution.Prelude.{lookup-insert}
use mathlib.Core.Path.{subst}
use workfllow_execution.Errors.{ok, bind-eq-ok, ok-injective}
use workfllow_execution.Json.{Json, Dict, Python, Fields, null, bool, int, float, str, arr, obj}
use workfllow_execution.Json.{entries, get, truthy}
use workfllow_execution.Definition.{
  OutputDecl, get_in, is_text, is_table, in_table_kinds, declared_output,
}
use workfllow_execution.Definition.{
  output_of, decl_of, label_or, user_input_declared_output, declared_table_output,
}
use workfllow_execution.Definition.Fields.{loop_over, or_list}
use workfllow_execution.Definition.Output.{is_numeric, has_id, aggregation_of, operation_issues}
use workfllow_execution.Definition.Output.{
  aggregation_issues, field_issues, file_field, field_by_id,
}
use workfllow_execution.Definition.Output.{issue, row_issues, form_of, listed_issues, fields_issues}
use workfllow_execution.Definition.Output.{reference_issues, id_issues, output_issues}
use workfllow_execution.Definition.Output.{validate_declared_output}

abbrev decl_id : Option OutputDecl → String
decl_id none = ""
decl_id (some decl) = decl.id

module _ {F : Type 0} where
  aggregation_of-found :
      (xs : List (Json F)) (id : String) (x : Json F)
      → aggregation_of xs id ≡ some x
      → (x ∈ xs) × (has_id x id ≡ true)
  unfolding aggregation_of
  aggregation_of-found [] id x e = absurd (cc)
  aggregation_of-found (y ∷ ys) id x e = elim (Bool-cases (has_id y id)) [
    | inl h ↦
        let same : x ≡ y = ground (arith, e, h) in
        (inl same, ap (λ (z : Json F). has_id z id) same ∙ h)
    | inr h ↦ let (m, i) = aggregation_of-found ys id x (rw h at e) in (inr m, i)
  ]

  -- The row computes a number.
  abbrev pub IsNumericRow : Json F → Type 0
  IsNumericRow x = (op : String) × (get x "operation" ≡ ok (str op)) × (is_numeric op ≡ true)

  operation_issues-empty :
      (v : Json F)
      → operation_issues v ≡ ok []
      → (op : String) × (v ≡ str op) × (is_numeric op ≡ true)
  operation_issues-empty (str s) e = elim (Bool-cases (is_numeric s)) [
    | inl h ↦ (s, refl, h)
    | inr h ↦ let e' = ok-injective e in absurd (ground (arith, e', h))
  ]
  operation_issues-empty (arr xs) e = absurd (cc)
  operation_issues-empty (obj fs) e = absurd (cc)
  operation_issues-empty null e = absurd (cc)
  operation_issues-empty (bool b) e = absurd (cc)
  operation_issues-empty (int n) e = absurd (cc)
  operation_issues-empty (float x) e = absurd (cc)

  aggregation_issues-empty :
      (o : Option (Json F))
      → aggregation_issues o ≡ ok []
      → (x : Json F) × (o ≡ some x) × IsNumericRow x
  aggregation_issues-empty none e = absurd (cc)
  aggregation_issues-empty (some x) e =
      let (v, got, passed) = bind-eq-ok (get x "operation") operation_issues e in
      let (op, same, numeric) = operation_issues-empty v passed in
      (x, refl, (op, got ∙ ap ok same, numeric))

  field_issues-empty :
      (o : Option (Json F))
      → field_issues o ≡ ok []
      → (x : Json F) × (o ≡ some x)
        × ((t : Json F) × (get x "type" ≡ ok t) × (is_text t "number" ≡ true))
  field_issues-empty none e = absurd (cc)
  field_issues-empty (some x) e =
      let (t, got, passed) = bind-eq-ok (get x "type") _ e in
      (
        x,
        refl,
        (
          t,
          got,
          elim (Bool-cases (is_text t "number")) [
            | inl h ↦ h
            | inr h ↦ let e' = ok-injective passed in absurd (ground (arith, e', h))
          ],
        ),
      )

  decl_of-some :
      (v label : Json F) (decl : OutputDecl)
      → decl_of v label ≡ some decl
      → (v ≡ str decl.id) × ((decl.id == "") ≡ false)
  decl_of-some (str s) label decl e = elim (Bool-cases (s == "")) [
    | inl h ↦ absurd (ground (arith, e, h))
    | inr h ↦
        let made : some (record { id = s; label = label_or label s }) ≡ some decl = rw h at e in
        let same : s ≡ decl.id = cc (ap (λ (o : Option OutputDecl). decl_id o) made) in
        (ap str same, ap (λ x. x == "") (sym same) ∙ h)
  ]
  decl_of-some null label decl e = absurd (cc)
  decl_of-some (bool b) label decl e = absurd (cc)
  decl_of-some (int n) label decl e = absurd (cc)
  decl_of-some (float x) label decl e = absurd (cc)
  decl_of-some (arr xs) label decl e = absurd (cc)
  decl_of-some (obj fs) label decl e = absurd (cc)

  -- What a declared output is read from.
  output_of-some :
      (o : Json F) (decl : OutputDecl)
      → output_of o ≡ some decl
      → (fs : Fields F) × (o ≡ obj fs)
        × (get_in (entries fs) "id" ≡ str decl.id)
        × ((decl.id == "") ≡ false)
  output_of-some (obj fs) decl e =
      let (same, full) = decl_of-some (get_in (entries fs) "id") _ decl e in (fs, refl, same, full)
  output_of-some null decl e = absurd (cc)
  output_of-some (bool b) decl e = absurd (cc)
  output_of-some (int n) decl e = absurd (cc)
  output_of-some (float x) decl e = absurd (cc)
  output_of-some (str s) decl e = absurd (cc)
  output_of-some (arr xs) decl e = absurd (cc)

module _ {F : Type 0} ⦃py : Python F⦄ where
  file_field-found :
      (d : Dict F) (y : Json F) (id : String) (x : Json F)
      → lookup id (file_field d y) ≡ some x
      → ((fs : Fields F) × (y ≡ obj fs)
          × (x ≡ obj fs)
          × (py.to_str (get_in (entries fs) "id") ≡ id))
        ⊎ (lookup id d ≡ some x)
  file_field-found d (obj fs) id x e = elim (Bool-cases (truthy (get_in (entries fs) "id"))) [
    | inr h ↦ inr (rw h at e)
    | inl h ↦
        let k = py.to_str (get_in (entries fs) "id") in
        let e' : lookup id (insert k (obj fs) d) ≡ some x = rw h at e in
        elim (str-cases k id) [
          | inl (same, t) ↦
              let o : some (obj fs) ≡ some x =
                ground (arith, lookup-insert k id (obj fs) d, t, e') in
              inl (fs, refl, (cc), same)
          | inr (other, f) ↦ inr (ground (arith, lookup-insert k id (obj fs) d, f, e'))
        ]
  ]
  file_field-found d null id x e = inr e
  file_field-found d (bool b) id x e = inr e
  file_field-found d (int n) id x e = inr e
  file_field-found d (float f) id x e = inr e
  file_field-found d (str s) id x e = inr e
  file_field-found d (arr xs) id x e = inr e

  -- The dict from ids to fields that the check builds.
  field_by_id-found :
      (d : Dict F) (xs : List (Json F)) (id : String) (x : Json F)
      → lookup id (field_by_id d xs) ≡ some x
      → ((fs : Fields F) × (obj fs ∈ xs)
          × (x ≡ obj fs)
          × (py.to_str (get_in (entries fs) "id") ≡ id))
        ⊎ (lookup id d ≡ some x)
  unfolding field_by_id
  field_by_id-found d [] id x e = inr e
  field_by_id-found d (y ∷ ys) id x e = elim (field_by_id-found (file_field d y) ys id x e) [
    | inl (fs, m, same, named) ↦ inl (fs, inr m, same, named)
    | inr here ↦ elim (file_field-found d y id x here) [
      | inl (fs, same_y, same, named) ↦ inl (fs, inl (sym same_y), same, named)
      | inr before ↦ inr before
    ]
  ]

  -- The output names a row of the aggregations that computes a number.
  abbrev pub NamesRow : Dict F → String → Type 0
  NamesRow definition id =
      (xs : List (Json F)) × (loop_over (or_list (get_in definition "aggregations")) ≡ ok xs)
      × (x : Json F) × (x ∈ xs)
      × (has_id x id ≡ true)
      × IsNumericRow x

  -- The output names a form field of type number.
  abbrev pub NamesField : Dict F → String → Type 0
  NamesField definition id =
      (form : Json F) × (get (form_of definition) "fields" ≡ ok form)
      × (xs : List (Json F)) × (loop_over (or_list form) ≡ ok xs)
      × (fs : Fields F) × (obj fs ∈ xs)
      × (py.to_str (get_in (entries fs) "id") ≡ id)
      × (is_text (get_in (entries fs) "type") "number" ≡ true)

  declared_output-some :
      (definition : Dict F) (decl : OutputDecl)
      → declared_output definition ≡ ok (some decl)
      → output_of (get_in definition "output") ≡ some decl
  unfolding declared_output user_input_declared_output declared_table_output
  declared_output-some definition decl e =
      let (is_one, h, e') = bind-eq-ok (in_table_kinds (get_in definition "baseKind")) _ e in
      elim (Bool-cases is_one) [
        | inl t ↦ ok-injective (rw t at e')
        | inr f ↦ ok-injective (rw f at e')
      ]

  in_table_kinds-ok : (kind : Json F) (b : Bool) → in_table_kinds kind ≡ ok b → is_table kind ≡ b
  in_table_kinds-ok null b e = ok-injective e
  in_table_kinds-ok (bool c) b e = ok-injective e
  in_table_kinds-ok (int n) b e = ok-injective e
  in_table_kinds-ok (float x) b e = ok-injective e
  in_table_kinds-ok (str s) b e = ok-injective e
  in_table_kinds-ok (arr xs) b e = absurd (cc)
  in_table_kinds-ok (obj fs) b e = absurd (cc)

  reference_issues-empty :
      (definition : Dict F) (id : String)
      → reference_issues definition id ≡ ok []
      → ((is_table (get_in definition "baseKind") ≡ true) × NamesRow definition id)
        ⊎ ((is_table (get_in definition "baseKind") ≡ false) × NamesField definition id)
  unfolding lookup
  reference_issues-empty definition id whole =
      let (is_one, h, e) = bind-eq-ok (in_table_kinds (get_in definition "baseKind")) _ whole in
      let kind = in_table_kinds-ok (get_in definition "baseKind") is_one h in
      elim (Bool-cases is_one) [
        | inl t ↦
            let (xs, looped, passed) =
              bind-eq-ok (loop_over (or_list (get_in definition "aggregations"))) (row_issues id)
                (rw t at e) in
            let (x, found, numeric) = aggregation_issues-empty (aggregation_of xs id) passed in
            let (m, named) = aggregation_of-found xs id x found in
            inl (kind ∙ t, (xs, looped, x, m, named, numeric))
        | inr f ↦
            let (form, got, rest) =
              bind-eq-ok (get (form_of definition) "fields") (fields_issues id) (rw f at e) in
            let (xs, looped, passed) =
              bind-eq-ok (loop_over (or_list form)) (listed_issues id) rest in
            let (x, found, (v, got_type, number)) =
              field_issues-empty (lookup id (field_by_id [] xs)) passed in
            elim (field_by_id-found [] xs id x found) [
              | inl (fs, m, same, named) ↦
                  let got' : get (obj fs) "type" ≡ ok v =
                    subst (λ y. get y "type" ≡ ok v) same got_type in
                  inr (
                    kind ∙ f,
                    (
                      form,
                      got,
                      xs,
                      looped,
                      fs,
                      m,
                      named,
                      subst (λ y. is_text y "number" ≡ true) (sym (ok-injective got')) number,
                    ),
                  )
              | inr before ↦ absurd (cc)
            ]
      ]

  -- If the definition of a node declares an output and the check of the declaration has no issue,
  -- then the declared id is that of an aggregation with the operation sum, min, max or avg where
  -- the node is a table, and elsewhere that of a form field of type number.
  pub validate_declared_output-numeric :
      (definition : Dict F) (decl : OutputDecl)
      → declared_output definition ≡ ok (some decl)
      → validate_declared_output definition ≡ ok []
      → ((is_table (get_in definition "baseKind") ≡ true) × NamesRow definition decl.id)
        ⊎ ((is_table (get_in definition "baseKind") ≡ false) × NamesField definition decl.id)
  unfolding validate_declared_output
  validate_declared_output-numeric definition decl declared passed =
      let (fs, is_dict, named, full) =
        output_of-some (get_in definition "output") decl
          (declared_output-some definition decl declared) in
      reference_issues-empty definition decl.id (
        subst
          (λ b.
            (if b
              then ok (issue "MISSING_OUTPUT_ID" "output.id")
              else reference_issues definition decl.id)
            ≡ ok [])
          full
          (subst (λ v. id_issues definition v ≡ ok []) named
            (subst (λ o. output_issues definition o ≡ ok []) is_dict passed)))
