-- ===== src/Rules/Match/ByField.antt =====
-- FilterSchemaByMatch, field by field.
use rootline.Base.{
  In, ◌≢◌, String, ◌≡◌, ◌⊎◌, refl, sym, ◌∙◌, ap, inl, inr, Option, none, some, some_inj, List, [],
  ◌∷◌, arith, Bool-cases, Option-cases, ◌==◌, eq_iff, any, any_iff, if◌then◌else◌,
}
use rootline.Base.Dict.{Dict, lookup, has, keys, has-keys, has-lookup, has_of_lookup}
use rootline.Base.Sort.{sort, In-sort}
use rootline.Base.Text.{str_le}
use rootline.Rules.{SchemaField}
use rootline.Rules.Match.Resolved.{
  IsKept, IsLeftOut, resolve_matched-IsKept, resolve_matched-IsLeftOut,
}
use rootline.Rules.Match.{
  Resolution, kept, dropped, failed, path_components, resolve_matched, filter_fields,
  filter_schema_by_match, with_field,
}

-- The field that is left at a path.
abbrev kept_of : Resolution → Option SchemaField
kept_of (kept f) = some f
kept_of dropped = none
kept_of failed = none

abbrev kept_at : List String → Option SchemaField → Option SchemaField
kept_at components none = none
kept_at components (some f) = kept_of (resolve_matched components f)

Resolution-cases :
    (r : Resolution) → ((f : SchemaField) × (r ≡ kept f)) ⊎ (r ≡ dropped) ⊎ (r ≡ failed)
Resolution-cases (kept f) = inl (f, refl)
Resolution-cases dropped = inr (inl refl)
Resolution-cases failed = inr (inr refl)

with_field-cases :
    (name : String) (f : SchemaField) (o : Option (Dict SchemaField)) (result : Dict SchemaField)
    → with_field name f o ≡ some result
    → (rest : Dict SchemaField) × (o ≡ some rest) × (result ≡ (name, f) ∷ rest)
with_field-cases name f none result h = absurd (ground (arith, h))
with_field-cases name f (some rest) result h = (rest, refl, sym (some_inj h))

module _ (schema : Dict SchemaField) (components : List String) (name : String) where
  skipped :
      (n : String) (names : List String) (result : Dict SchemaField)
      → kept_at components (lookup n schema) ≡ none
      → lookup name result
        ≡ (if any (λ m. m == name) names then kept_at components (lookup name schema) else none)
      → lookup name result ≡ (
          if any (λ m. m == name) (n ∷ names)
          then kept_at components (lookup name schema)
          else none)
  skipped n names result k ih = elim (Bool-cases (n == name)) [
    | inl q ↦
        let same : kept_at components (lookup name schema) ≡ none =
          ap (λ x. kept_at components (lookup x schema)) (sym ((eq_iff n name).0 q)) ∙ k in
        ground (arith, q, same, ih)
    | inr q ↦ ground (arith, q, ih)
  ]

  put_in :
      (n : String) (f : SchemaField) (names : List String) (rest : Dict SchemaField)
      → kept_at components (lookup n schema) ≡ some f
      → lookup name rest
        ≡ (if any (λ m. m == name) names then kept_at components (lookup name schema) else none)
      → lookup name ((n, f) ∷ rest) ≡ (
          if any (λ m. m == name) (n ∷ names)
          then kept_at components (lookup name schema)
          else none)
  unfolding lookup
  put_in n f names rest k ih = elim (Bool-cases (n == name)) [
    | inl q ↦
        let same : kept_at components (lookup name schema) ≡ some f =
          ap (λ x. kept_at components (lookup x schema)) (sym ((eq_iff n name).0 q)) ∙ k in
        ground (arith, q, same)
    | inr q ↦ ground (arith, q, ih)
  ]

  lookup-filter_fields :
      (names : List String) (result : Dict SchemaField)
      → filter_fields schema components names ≡ some result
      → lookup name result
        ≡ (if any (λ n. n == name) names then kept_at components (lookup name schema) else none)
  unfolding filter_fields
  lookup-filter_fields [] result h = unfold lookup in rw (sym (some_inj h)) refl
  lookup-filter_fields (n ∷ names) result h = elim (Option-cases (lookup n schema)) [
    | inl e ↦
        let next : filter_fields schema components names ≡ some result = ground (arith, e, h) in
        skipped n names result (rw e refl) (lookup-filter_fields names result next)
    | inr (f, e) ↦ elim (Resolution-cases (resolve_matched components f)) [
      | inl (g, r) ↦
          let put : with_field n g (filter_fields schema components names) ≡ some result =
            ground (arith, e, r, h) in
          let (rest, next, same) =
            with_field-cases n g (filter_fields schema components names) result put in
          rw same (put_in n g names rest (rw (e, r) refl) (lookup-filter_fields names rest next))
      | inr (inl r) ↦
          let next : filter_fields schema components names ≡ some result =
            ground (arith, e, r, h) in
          skipped n names result (rw (e, r) refl) (lookup-filter_fields names result next)
      | inr (inr r) ↦ absurd (ground (arith, e, r, h))
    ]
  ]

  -- A schema that can be filtered has no field whose resolution fails.
  filter_fields-resolves :
      (names : List String) (result : Dict SchemaField) (f : SchemaField)
      → filter_fields schema components names ≡ some result
      → lookup name schema ≡ some f
      → In name names
      → resolve_matched components f ≢ failed
  unfolding filter_fields
  filter_fields-resolves [] result f h at m r = m
  filter_fields-resolves (n ∷ names) result f h at (inl same) r =
      let here : lookup n schema ≡ some f = ap (λ k. lookup k schema) (sym same) ∙ at in
      ground (arith, here, r, h)
  filter_fields-resolves (n ∷ names) result f h at (inr m) r =
      elim (Option-cases (filter_fields schema components names)) [
        | inr (rest, e) ↦ filter_fields-resolves names rest f e at m r
        | inl e ↦ elim (Option-cases (lookup n schema)) [
          | inl q ↦ ground (arith, e, q, h)
          | inr (g, q) ↦ elim (Resolution-cases (resolve_matched components g)) [
            | inl (k, d) ↦ ground (arith, e, q, d, h)
            | inr (inl d) ↦ ground (arith, e, q, d, h)
            | inr (inr d) ↦ ground (arith, e, q, d, h)
          ]
        ]
      ]

by_name :
    (schema : Dict SchemaField) (record_path : String) (result : Dict SchemaField)
    → filter_schema_by_match schema record_path ≡ some result
    → (name : String)
    → lookup name result ≡ kept_at (path_components record_path) (lookup name schema)
unfolding filter_schema_by_match
by_name schema record_path result h name =
    let components = path_components record_path in
    let names = sort str_le (keys schema) in
    let found = lookup-filter_fields schema components name names result h in
    elim (Bool-cases (any (λ n. n == name) names)) [
      | inl e ↦ found ∙ rw e refl
      | inr e ↦
          let absent : lookup name schema ≡ none =
            (has-lookup name schema).0 (elim (Bool-cases (has name schema)) [
              | inr k ↦ k
              | inl k ↦
                  let i = (In-sort str_le name (keys schema)).1 ((has-keys name schema).0 k) in
                  let q = (any_iff (λ n. n == name) names).1 (name, i, (eq_iff name name).1 refl) in
                  absurd (ground (arith, e, q))
            ]) in
          found ∙ rw (e, absent) refl
    ]

-- What a filtered schema says of a name: it has a field that the schema has and that is kept at the
-- path, as it is there; or it has none, and the schema has none or its field is left out at the path.
pub data IsFiltered (schema : Dict SchemaField) (components : List String)
    (result : Dict SchemaField) (name : String) : Type 0 where
  stays :
      (f g : SchemaField)
      → lookup name schema ≡ some f
      → lookup name result ≡ some g
      → IsKept components f g
      → IsFiltered schema components result name
  unknown :
      lookup name schema ≡ none
      → lookup name result ≡ none
      → IsFiltered schema components result name
  left_out :
      (f : SchemaField)
      → lookup name schema ≡ some f
      → lookup name result ≡ none
      → IsLeftOut components f
      → IsFiltered schema components result name

-- Where the schema can be filtered, a field is kept just where it has no match, or some pattern of its
-- list matches a component of the path, or a key of its configs does; then the first key that matches
-- the deepest such component gives its prefix and digits, and the requirement counts where its own
-- match matches the path.
pub filter_schema_by_match-IsFiltered :
    (schema : Dict SchemaField) (record_path : String) (result : Dict SchemaField)
    → filter_schema_by_match schema record_path ≡ some result
    → (name : String) → IsFiltered schema (path_components record_path) result name
unfolding filter_schema_by_match
filter_schema_by_match-IsFiltered schema record_path result h name =
    let components = path_components record_path in
    let names = sort str_le (keys schema) in
    let found = by_name schema record_path result h name in
    elim (Option-cases (lookup name schema)) [
      | inl e ↦ unknown e (found ∙ ap (kept_at components) e)
      | inr (f, e) ↦
          let here : lookup name result ≡ kept_of (resolve_matched components f) =
            found ∙ ap (kept_at components) e in
          elim (Resolution-cases (resolve_matched components f)) [
            | inl (g, r) ↦
                stays f g e (here ∙ ap kept_of r) (resolve_matched-IsKept components f g r)
            | inr (inl r) ↦
                left_out f e (here ∙ ap kept_of r) (resolve_matched-IsLeftOut components f r)
            | inr (inr r) ↦
                let listed =
                  (In-sort str_le name (keys schema)).1
                    ((has-keys name schema).0 (has_of_lookup name f schema e)) in
                absurd (filter_fields-resolves schema components name names result f h e listed r)
          ]
    ]
