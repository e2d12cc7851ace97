-- ===== src/Rules/Match/Scoped.antt =====
-- matchesAny, and the requirement of a field at a path.
use rootline.Base.{
  String, ◌≡◌, ◌↔◌, ◌⊎◌, inl, inr, refl, sym, ◌∙◌, ap, Option, none, some, some_inj, List, In, true,
  false, arith, Bool-cases, Option-cases, any, any_iff,
}
use rootline.Base.Glob.{glob}
use rootline.Base.Sort.{sort, In-sort}
use rootline.Base.Text.{str_le}
use rootline.Value.{Value, Fields, get}
use rootline.Rules.{SchemaField, FieldMatch}
use rootline.Rules.Contract.Declarations.{keys_of}
use rootline.Rules.Contract.Declarations.Sequences.{In-keys_of}
use rootline.Rules.Match.{matches_one, matches_any, scope_required}

-- The patterns of a match: those of its list and the keys of its configs.
abbrev pub IsPattern : FieldMatch → String → Type 0
IsPattern fm pattern =
    In pattern fm.patterns
    ⊎ ((configs : Fields) × (v : Value) × (fm.configs ≡ some configs)
        × (get pattern configs ≡ some v))

-- Some pattern of the match matches some component of the path.
abbrev pub MatchesSome : FieldMatch → List String → Type 0
MatchesSome fm components =
    (pattern component : String) × IsPattern fm pattern
    × In component components
    × (glob pattern component ≡ true)

-- The requirement counts where its match, if there is one, matches the path.
abbrev pub IsScoped : Option FieldMatch → List String → SchemaField → SchemaField → Type 0
IsScoped none components f g = g ≡ f
IsScoped (some fm) components f g =
    (MatchesSome fm components × (g ≡ record f { required = true }))
    ⊎ ((¬ MatchesSome fm components) × (g ≡ record f { required = false }))

some_component :
    (components patterns : List String)
    → (any (matches_one components) patterns ≡ true) ↔ (
        (pattern component : String) × In pattern patterns
        × In component components
        × (glob pattern component ≡ true))
some_component components patterns = (
  λ h.
      let (pattern, m, k) = (any_iff (matches_one components) patterns).0 h in
      let (component, n, q) = (any_iff (glob pattern) components).0 k in
      (pattern, component, m, n, q),
  λ (pattern, component, m, n, q).
      (any_iff (matches_one components) patterns).1
        (pattern, m, (any_iff (glob pattern) components).1 (component, n, q)),
)

pub matches_any_iff :
    (fm : FieldMatch) (components : List String)
    → (matches_any fm components ≡ true) ↔ MatchesSome fm components
unfolding matches_any
matches_any_iff fm components = elim (Option-cases fm.configs) [
  | inl e ↦
      let listed = some_component components fm.patterns in
      (
        λ h.
            let (pattern, component, m, n, q) = listed.0 (ground (arith, e, h)) in
            (pattern, component, inl m, n, q),
        λ (pattern, component, is, n, q). elim is [
          | inl m ↦ let k = listed.1 (pattern, component, m, n, q) in ground (arith, e, k)
          | inr (configs, v, e', at) ↦ absurd (ground (arith, e, e'))
        ],
      )
  | inr (configs, e) ↦
      let listed = some_component components fm.patterns in
      let patterns = sort str_le (keys_of configs) in
      let keyed = some_component components patterns in
      (
        λ h. elim (Bool-cases (any (matches_one components) fm.patterns)) [
          | inl k ↦
              let (pattern, component, m, n, q) = listed.0 k in (pattern, component, inl m, n, q)
          | inr k ↦
              let (pattern, component, m, n, q) = keyed.0 (ground (arith, e, k, h)) in
              let (v, at) =
                (In-keys_of pattern configs).0 ((In-sort str_le pattern (keys_of configs)).0 m) in
              (pattern, component, inr (configs, v, e, at), n, q)
        ],
        λ (pattern, component, is, n, q). elim is [
          | inl m ↦ let k = listed.1 (pattern, component, m, n, q) in ground (arith, e, k)
          | inr (others, v, e', at) ↦
              let same : others ≡ configs = some_inj (sym e' ∙ e) in
              let m =
                (In-sort str_le pattern (keys_of configs)).1
                  ((In-keys_of pattern configs).1 (v, ap (get pattern) (sym same) ∙ at)) in
              let k = keyed.1 (pattern, component, m, n, q) in ground (arith, e, k)
        ],
      )
]

pub scope_required-IsScoped :
    (o : Option FieldMatch) (components : List String) (f : SchemaField)
    → IsScoped o components f (scope_required o components f)
unfolding scope_required
scope_required-IsScoped none components f = refl
scope_required-IsScoped (some fm) components f = elim (Bool-cases (matches_any fm components)) [
  | inl e ↦ inl ((matches_any_iff fm components).0 e, ap (λ b. record f { required = b }) e)
  | inr e ↦ inr (
    λ m. ground (arith, e, (matches_any_iff fm components).1 m),
    ap (λ b. record f { required = b }) e,
  )
]
