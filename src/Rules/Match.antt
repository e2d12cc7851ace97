-- ===== src/Rules/Match.antt =====
-- internal/rules/match.go: the fields of a schema that apply to a record's path. The texts of errors
-- are left out.
pub mod Deepest
pub mod Scoped
pub mod Applies
pub mod Resolved
pub mod ByField
mod Samples
use rootline.Base.{
  String, Option, none, some, List, [], ◌∷◌, Bool, true, false, ◌==◌, ◌||◌, any, if◌then◌else◌,
}
use rootline.Base.Dict.{Dict, lookup, keys}
use rootline.Base.FilePath.{clean, split_path}
use rootline.Base.Glob.{glob}
use rootline.Base.Sort.{sort}
use rootline.Base.Text.{str_le}
use rootline.Value.{Value, Fields, null, str, mapping, get}
use rootline.Rules.{SchemaField, FieldMatch}
use rootline.Rules.Contract.Declarations.{
  applied, refused, keys_of, apply_sequence_config, strict_config_digits,
}

-- pathComponents
unfoldable pub path_components : String → List String
unfolding clean split_path
path_components record_path = split_path (clean record_path)

abbrev matches_one : List String → String → Bool
matches_one components pattern = any (glob pattern) components

-- matchesAny
unfoldable pub matches_any : FieldMatch → List String → Bool
matches_any fm components = any (matches_one components) fm.patterns || elim fm.configs [
  | none ↦ false
  | some configs ↦ any (matches_one components) (sort str_le (keys_of configs))
]

-- The results of matchConfig: with no match, the pattern of the error, or the pattern and its config.
pub data ConfigMatch : Type 0 where
  unmatched : ConfigMatch
  malformed : String → ConfigMatch
  found : String → Fields → ConfigMatch

-- The config of the pattern that matches.
abbrev pub config_at : String → Option Value → ConfigMatch
config_at pattern (some (mapping config)) = found pattern config
config_at pattern _ = malformed pattern

-- The inner loop of matchConfig.
unfoldable pub match_component : Fields → List String → String → ConfigMatch
match_component configs [] component = unmatched
match_component configs (pattern ∷ patterns) component =
    let rest = match_component configs patterns component in
    if glob pattern component then config_at pattern (get pattern configs) else rest

-- The outer loop, whose last component comes first.
unfoldable pub match_components : Fields → List String → List String → ConfigMatch
unfolding match_component
match_components configs patterns [] = unmatched
match_components configs patterns (component ∷ deeper) =
    elim (match_components configs patterns deeper) [
      | unmatched ↦ match_component configs patterns component
      | malformed pattern ↦ malformed pattern
      | found pattern config ↦ found pattern config
    ]

-- matchConfig
unfoldable pub match_config : Fields → List String → ConfigMatch
unfolding match_components
match_config configs components =
    match_components configs (sort str_le (keys_of configs)) components

abbrev set_prefix : SchemaField → Option Value → SchemaField
set_prefix f (some (str s)) = record f { prefix = s }
set_prefix f _ = f

abbrev set_digits : SchemaField → Option Value → SchemaField
set_digits f none = f
set_digits f (some v) = elim (strict_config_digits v) [
  | some digits ↦ record f { digits = digits }
  | none ↦ f
]

-- applyConfig: `none` is an error.
unfoldable pub apply_config : SchemaField → Fields → Option SchemaField
apply_config f config =
    if f.type == "sequence"
    then elim (apply_sequence_config f config) [ applied g ↦ some g | refused _ ↦ none ]
    else some (set_digits (set_prefix f (get "prefix" config)) (get "digits" config))

-- What becomes of a field at a path.
pub data Resolution : Type 0 where
  kept : SchemaField → Resolution
  dropped failed : Resolution

unfoldable pub scope_required : Option FieldMatch → List String → SchemaField → SchemaField
unfolding matches_any
scope_required none components f = f
scope_required (some fm) components f = record f { required = matches_any fm components }

-- The three ways through the body of the loop of FilterSchemaByMatch.
unfoldable pub resolve_match : Option FieldMatch → List String → SchemaField → Resolution
unfolding match_config apply_config scope_required matches_any
resolve_match none components f = kept (scope_required f.required_match components f)
resolve_match (some fm) components f = elim fm.configs [
  | some configs ↦ elim (match_config configs components) [
    | unmatched ↦ dropped
    | malformed _ ↦ failed
    | found _ config ↦ elim (apply_config f config) [
      | none ↦ failed
      | some g ↦ kept (scope_required f.required_match components g)
    ]
  ]
  | none ↦
      if matches_any fm components
      then kept (scope_required f.required_match components f)
      else dropped
]

-- The body of the loop of FilterSchemaByMatch.
unfoldable pub resolve_matched : List String → SchemaField → Resolution
unfolding resolve_match
resolve_matched components f = resolve_match f.match components f

abbrev with_field : String → SchemaField → Option (Dict SchemaField) → Option (Dict SchemaField)
with_field name f none = none
with_field name f (some rest) = some ((name, f) ∷ rest)

unfoldable pub filter_fields :
    Dict SchemaField → List String → List String → Option (Dict SchemaField)
unfolding resolve_matched
filter_fields schema components [] = some []
filter_fields schema components (name ∷ names) =
    let rest = filter_fields schema components names in
    elim (lookup name schema) [
      | none ↦ rest
      | some f ↦ elim (resolve_matched components f) [
        | kept g ↦ with_field name g rest
        | dropped ↦ rest
        | failed ↦ none
      ]
    ]

-- FilterSchemaByMatch
unfoldable pub filter_schema_by_match : Dict SchemaField → String → Option (Dict SchemaField)
unfolding filter_fields path_components
filter_schema_by_match schema record_path =
    filter_fields schema (path_components record_path) (sort str_le (keys schema))
