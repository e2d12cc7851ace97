-- ===== src/Rules/Match/Resolved.antt =====
-- What the body of the loop of FilterSchemaByMatch makes of a field.
use rootline.Base.{
  String, ◌≡◌, ◌⊎◌, inl, inr, refl, subst, Option, none, some, List, In, All, All-In, false, arith,
  Bool-cases, Option-cases,
}
use rootline.Base.Glob.{glob}
use rootline.Base.Sort.{sort, In-sort}
use rootline.Base.Text.{str_le}
use rootline.Value.{Value, Fields, mapping, get}
use rootline.Rules.{SchemaField, FieldMatch}
use rootline.Rules.Contract.Declarations.{keys_of}
use rootline.Rules.Contract.Declarations.Sequences.{In-keys_of}
use rootline.Rules.Match.{
  kept, dropped, failed, ConfigMatch, unmatched, malformed, found, matches_any, match_config,
  apply_config, scope_required, resolve_match, resolve_matched,
}
use rootline.Rules.Match.Deepest.{IsDeepest, Chosen, match_config-Chosen}
use rootline.Rules.Match.Scoped.{IsScoped, MatchesSome, matches_any_iff, scope_required-IsScoped}
use rootline.Rules.Match.Applies.{IsApplied, apply_config-IsApplied}

-- A field that stays at a path, and what it becomes there.
pub data IsKept (components : List String) (f g : SchemaField) : Type 0 where
  everywhere : f.match ≡ none → IsScoped f.required_match components f g → IsKept components f g
  listed :
      (fm : FieldMatch)
      → f.match ≡ some fm
      → fm.configs ≡ none
      → MatchesSome fm components
      → IsScoped f.required_match components f g
      → IsKept components f g
  configured :
      (fm : FieldMatch) (configs : Fields) (pattern : String) (config : Fields) (h : SchemaField)
      → f.match ≡ some fm
      → fm.configs ≡ some configs
      → IsDeepest (sort str_le (keys_of configs)) components pattern
      → get pattern configs ≡ some (mapping config)
      → IsApplied f config h
      → IsScoped f.required_match components h g
      → IsKept components f g

-- A field that is left out: it has a match, and neither its list nor, where it has configs, a key of
-- them matches.
pub data IsLeftOut (components : List String) (f : SchemaField) : Type 0 where
  unlisted :
      (fm : FieldMatch)
      → f.match ≡ some fm
      → fm.configs ≡ none
      → ¬ MatchesSome fm components
      → IsLeftOut components f
  unconfigured :
      (fm : FieldMatch) (configs : Fields)
      → f.match ≡ some fm
      → fm.configs ≡ some configs
      → ((pattern : String) (v : Value) (component : String)
          → get pattern configs ≡ some v
          → In component components
          → glob pattern component ≡ false)
      → IsLeftOut components f

kept_inj : {f g : SchemaField} → kept f ≡ kept g → f ≡ g
kept_inj h = cc

ConfigMatch-cases :
    (r : ConfigMatch)
    → (r ≡ unmatched)
      ⊎ ((p : String) × (r ≡ malformed p))
      ⊎ ((p : String) × (m : Fields) × (r ≡ found p m))
ConfigMatch-cases unmatched = inl refl
ConfigMatch-cases (malformed p) = inr (inl (p, refl))
ConfigMatch-cases (found p m) = inr (inr (p, m, refl))

kept-IsScoped :
    (o : Option FieldMatch) (components : List String) (f g : SchemaField)
    → kept (scope_required o components f) ≡ kept g
    → IsScoped o components f g
kept-IsScoped o components f g h =
    subst (IsScoped o components f) (kept_inj h) (scope_required-IsScoped o components f)

dropped-ne-kept : {g : SchemaField} → ¬ (dropped ≡ kept g)
dropped-ne-kept h = cc

failed-ne-kept : {g : SchemaField} → ¬ (failed ≡ kept g)
failed-ne-kept h = cc

failed-ne-dropped : ¬ (failed ≡ dropped)
failed-ne-dropped h = cc

kept-ne-dropped : {g : SchemaField} → ¬ (kept g ≡ dropped)
kept-ne-dropped h = cc

resolve_match-IsKept :
    (o : Option FieldMatch) (components : List String) (f g : SchemaField)
    → f.match ≡ o
    → resolve_match o components f ≡ kept g
    → IsKept components f g
unfolding resolve_match
resolve_match-IsKept none components f g e h =
    everywhere e (kept-IsScoped f.required_match components f g h)
resolve_match-IsKept (some fm) components f g e h = elim (Option-cases fm.configs) [
  | inl k ↦ elim (Bool-cases (matches_any fm components)) [
    | inl m ↦
        listed fm e k ((matches_any_iff fm components).0 m)
          (kept-IsScoped f.required_match components f g (rw m at (rw k at h)))
    | inr m ↦ absurd (dropped-ne-kept (rw m at (rw k at h)))
  ]
  | inr (configs, k) ↦ elim (ConfigMatch-cases (match_config configs components)) [
    | inl m ↦ absurd (dropped-ne-kept (rw m at (rw k at h)))
    | inr (inl (p, m)) ↦ absurd (failed-ne-kept (rw m at (rw k at h)))
    | inr (inr (p, config, m)) ↦ elim (Option-cases (apply_config f config)) [
      | inl q ↦ absurd (failed-ne-kept (rw q at (rw m at (rw k at h))))
      | inr (made, q) ↦
          let patterns = sort str_le (keys_of configs) in
          let (deepest, at) =
            subst
              (Chosen configs (IsDeepest patterns components)
                (All (λ c. All (λ q. glob q c ≡ false) patterns) components))
              m (match_config-Chosen configs components) in
          configured fm configs p config made e k deepest at
            (apply_config-IsApplied f made config q)
            (kept-IsScoped f.required_match components made g (rw q at (rw m at (rw k at h))))
    ]
  ]
]

pub resolve_matched-IsKept :
    (components : List String) (f g : SchemaField)
    → resolve_matched components f ≡ kept g
    → IsKept components f g
unfolding resolve_matched
resolve_matched-IsKept components f g h = resolve_match-IsKept f.match components f g refl h

resolve_match-IsLeftOut :
    (o : Option FieldMatch) (components : List String) (f : SchemaField)
    → f.match ≡ o
    → resolve_match o components f ≡ dropped
    → IsLeftOut components f
unfolding resolve_match
resolve_match-IsLeftOut none components f e h = absurd (kept-ne-dropped h)
resolve_match-IsLeftOut (some fm) components f e h = elim (Option-cases fm.configs) [
  | inl k ↦ elim (Bool-cases (matches_any fm components)) [
    | inl m ↦ absurd (kept-ne-dropped (rw m at (rw k at h)))
    | inr m ↦ unlisted fm e k (λ some. ground (arith, m, (matches_any_iff fm components).1 some))
  ]
  | inr (configs, k) ↦ elim (ConfigMatch-cases (match_config configs components)) [
    | inl m ↦
        let patterns = sort str_le (keys_of configs) in
        let none_matches =
          subst
            (Chosen configs (IsDeepest patterns components)
              (All (λ c. All (λ q. glob q c ≡ false) patterns) components))
            m (match_config-Chosen configs components) in
        unconfigured fm configs e k (λ pattern v component at n.
          All-In (λ q. glob q component ≡ false) patterns
            (All-In (λ c. All (λ q. glob q c ≡ false) patterns) components none_matches component n)
            pattern
            ((In-sort str_le pattern (keys_of configs)).1 ((In-keys_of pattern configs).1 (v, at))))
    | inr (inl (p, m)) ↦ absurd (failed-ne-dropped (rw m at (rw k at h)))
    | inr (inr (p, config, m)) ↦ elim (Option-cases (apply_config f config)) [
      | inl q ↦ absurd (failed-ne-dropped (rw q at (rw m at (rw k at h))))
      | inr (made, q) ↦ absurd (kept-ne-dropped (rw q at (rw m at (rw k at h))))
    ]
  ]
]

pub resolve_matched-IsLeftOut :
    (components : List String) (f : SchemaField)
    → resolve_matched components f ≡ dropped
    → IsLeftOut components f
unfolding resolve_matched
resolve_matched-IsLeftOut components f h = resolve_match-IsLeftOut f.match components f refl h
