-- ===== src/Rules/Drift/Laws.antt =====
-- What DetectDrift warns of.
use rootline.Base.{
  String, ◌≡◌, ◌↔◌, inl, inr, refl, sym, ◌∙◌, ap, ap₂, subst, none, some, some_inj, List, [], ◌∷◌,
  true, false, In, All, arith, Bool-cases, Option-cases, List-cases,
}
use rootline.Base.Dict.{Dict, lookup, keys, has_of_lookup, has-keys}
use rootline.Base.Sort.{sort, In-sort}
use rootline.Base.Text.{str_le}
use rootline.Value.{Value, get}
use rootline.Extract.{Record}
use rootline.Rules.{SchemaField, is_nil}
use rootline.Rules.Report.{DriftWarning}
use rootline.Rules.Drift.{
  values_equal, holding, agrees, unanimous_value, paths_of, drift_of, drifts_along, detect_drift,
}

-- The first value of the children is `v`, and the others equal it.
abbrev pub Agreed : Value → List (Value × String) → Type 0
Agreed v [] = ⊥
Agreed v (e ∷ rest) = (v ≡ e.0) × All (λ d. values_equal v d.0 ≡ true) rest

-- A field of the schema that applies everywhere, which the parent has, on which all children that
-- have it agree, and on which the parent differs from them.
pub record IsDrift (parent : Record) (children : List Record) (schema : Dict SchemaField)
    (w : DriftWarning) : Type 0 where
  pub declared : (f : SchemaField) × (lookup w.field schema ≡ some f) × (f.match ≡ none)
  pub held : get w.field parent.frontmatter ≡ some w.parent_value
  pub agreed : Agreed w.children_value (holding w.field children)
  pub differs : values_equal w.parent_value w.children_value ≡ false
  pub named : (w.parent_path ≡ parent.path) × (w.child_paths ≡ paths_of (holding w.field children))

agrees_iff :
    (v : Value) (es : List (Value × String))
    → (agrees v es ≡ true) ↔ All (λ d. values_equal v d.0 ≡ true) es
unfolding agrees
agrees_iff v [] = ground arith
agrees_iff v (e ∷ es) = ground (arith, agrees_iff v es)

unanimous_iff :
    (v : Value) (es : List (Value × String)) → (unanimous_value es ≡ some v) ↔ Agreed v es
unfolding unanimous_value
unanimous_iff v [] = ground arith
unanimous_iff v (e ∷ es) = (
  λ h. elim (Bool-cases (agrees e.0 es)) [
    | inl a ↦
        let same : some e.0 ≡ some v = ground (arith, a, h) in
        (sym (some_inj same), (agrees_iff v es).0 (ap (λ z. agrees z es) (sym (some_inj same)) ∙ a))
    | inr a ↦ absurd (ground (arith, a, h))
  ],
  λ h.
      let a = ap (λ z. agrees z es) (sym h.0) ∙ (agrees_iff v es).1 h.1 in rw a (ap some (sym h.0)),
)

module _ (parent : Record) (children : List Record) (schema : Dict SchemaField) where
  drift_of-IsDrift :
      (name : String) (f : SchemaField) (w : DriftWarning)
      → lookup name schema ≡ some f
      → drift_of parent children name f ≡ some w
      → (w.field ≡ name) × IsDrift parent children schema w
  unfolding drift_of
  drift_of-IsDrift name f w l h = elim (Option-cases f.match) [
    | inr (m, e) ↦ absurd (ground (arith, e, h))
    | inl e ↦ elim (Option-cases (get name parent.frontmatter)) [
      | inl p ↦ absurd (ground (arith, e, p, h))
      | inr (pv, p) ↦ elim (Option-cases (unanimous_value (holding name children))) [
        | inl u ↦ absurd (ground (arith, e, p, u, h))
        | inr (cv, u) ↦ elim (Bool-cases (values_equal pv cv)) [
          | inl d ↦ absurd (ground (arith, e, p, u, d, h))
          | inr d ↦
              let found : DriftWarning = record {
                field = name;
                parent_value = pv;
                children_value = cv;
                parent_path = parent.path;
                child_paths = paths_of (holding name children);
              } in
              let same : some found ≡ some w = ground (arith, e, p, u, d, h) in
              subst (λ z. (z.field ≡ name) × IsDrift parent children schema z) (some_inj same)
                (
                  refl,
                  record {
                    declared = (f, l, e);
                    held = p;
                    agreed = (unanimous_iff cv (holding name children)).0 u;
                    differs = d;
                    named = (refl, refl);
                  },
                )
        ]
      ]
    ]
  ]

  drift_of_found :
      (w : DriftWarning) (k : IsDrift parent children schema w)
      → drift_of parent children w.field k.declared.0 ≡ some w
  unfolding drift_of
  drift_of_found w k =
      let u = (unanimous_iff w.children_value (holding w.field children)).1 k.agreed in
      rw (k.declared.2, k.held, u, k.differs, drift_of)
        (ap₂ (λ a b. some (record w { parent_path = a; child_paths = b })) (sym k.named.0)
          (sym k.named.1))

  drift_of_at :
      (name : String) (f : SchemaField) (w : DriftWarning)
      → lookup name schema ≡ some f
      → w.field ≡ name
      → IsDrift parent children schema w
      → drift_of parent children name f ≡ some w
  drift_of_at name f w l e k =
      let same : some k.declared.0 ≡ some f = sym k.declared.1 ∙ ap (λ z. lookup z schema) e ∙ l in
      ap₂ (drift_of parent children) (sym e) (sym (some_inj same)) ∙ drift_of_found w k

  absent :
      (name : String) (w : DriftWarning)
      → lookup name schema ≡ none
      → w.field ≡ name
      → ¬ IsDrift parent children schema w
  absent name w l e k =
      let same : some k.declared.0 ≡ none = sym k.declared.1 ∙ ap (λ z. lookup z schema) e ∙ l in
      ground (arith, same)

  quiet :
      (name : String) (f : SchemaField) (w : DriftWarning)
      → lookup name schema ≡ some f
      → drift_of parent children name f ≡ none
      → w.field ≡ name
      → ¬ IsDrift parent children schema w
  quiet name f w l d e k =
      let same : some w ≡ none = sym (drift_of_at name f w l e k) ∙ d in ground (arith, same)

  In-drifts_along :
      (w : DriftWarning) (names : List String)
      → In w (drifts_along parent children schema names)
        ↔ (In w.field names × IsDrift parent children schema w)
  unfolding drifts_along
  In-drifts_along w [] = (λ m. absurd m, λ m. absurd m.0)
  In-drifts_along w (name ∷ names) =
      let ih = In-drifts_along w names in
      elim (Option-cases (lookup name schema)) [
        | inl l ↦
            rw (l, drifts_along)
              (
                λ m. (inr (ih.0 m).0, (ih.0 m).1),
                λ h. elim (h.0) as (λ _. In w (drifts_along parent children schema names)) [
                  | inl e ↦ absurd (absent name w l e h.1)
                  | inr m ↦ ih.1 (m, h.1)
                ],
              )
        | inr (f, l) ↦ elim (Option-cases (drift_of parent children name f)) [
          | inl d ↦
              rw (l, drifts_along)
                (rw d (
                  λ m. (inr (ih.0 m).0, (ih.0 m).1),
                  λ h. elim (h.0) as (λ _. In w (drifts_along parent children schema names)) [
                    | inl e ↦ absurd (quiet name f w l d e h.1)
                    | inr m ↦ ih.1 (m, h.1)
                  ],
                ))
          | inr (v, d) ↦
              let true_drift = drift_of-IsDrift name f v l d in
              rw (l, drifts_along)
                (rw d (
                  λ m.
                      elim m
                        as (λ _. In w.field (name ∷ names) × IsDrift parent children schema w) [
                          | inl e ↦ (
                            inl (ap (λ z. z.field) e ∙ true_drift.0),
                            subst (IsDrift parent children schema) (sym e) true_drift.1,
                          )
                          | inr n ↦ (inr (ih.0 n).0, (ih.0 n).1)
                        ],
                  λ h. elim (h.0) as (λ _. In w (v ∷ drifts_along parent children schema names)) [
                    | inl e ↦ inl (some_inj (sym (drift_of_at name f w l e h.1) ∙ d))
                    | inr n ↦ inr (ih.1 (n, h.1))
                  ],
                ))
        ]
      ]

  no_children : (w : DriftWarning) → children ≡ [] → ¬ IsDrift parent children schema w
  unfolding holding
  no_children w e k = subst (λ cs. Agreed w.children_value (holding w.field cs)) e k.agreed

  declared_key : (w : DriftWarning) → IsDrift parent children schema w → In w.field (keys schema)
  declared_key w k =
      (has-keys w.field schema).0 (has_of_lookup w.field k.declared.0 schema k.declared.1)

  -- DetectDrift warns of each drifting field, and of nothing else.
  pub In-detect_drift :
      (w : DriftWarning)
      → In w (detect_drift parent children schema) ↔ IsDrift parent children schema w
  unfolding detect_drift
  In-detect_drift w =
      let along = In-drifts_along w (sort str_le (keys schema)) in
      let sorted = In-sort str_le w.field (keys schema) in
      elim (List-cases children) [
        | inl e ↦ ground (arith, e, no_children w e)
        | inr (c, cs, e) ↦
            let some_child : is_nil children ≡ false = ap is_nil e in
            rw (some_child, detect_drift)
              (λ m. (along.0 m).1, λ k. along.1 (sorted.1 (declared_key w k), k))
      ]
