-- ===== src/Rules/Drift.antt =====
-- internal/rules/drift.go: a field on whose value the children agree against their parent.
pub mod Laws
mod Samples
use rootline.Base.{
  String, Option, none, some, List, [], ◌∷◌, Bool, true, false, ◌==◌, if◌then◌else◌,
}
use rootline.Base.Dict.{Dict, lookup, keys}
use rootline.Base.Sort.{sort}
use rootline.Base.Text.{str_le}
use rootline.Value.{Value, null, get}
use rootline.Value.Print.{print}
use rootline.Extract.{Record}
use rootline.Rules.{SchemaField, is_nil}
use rootline.Rules.Report.{DriftWarning}

-- valuesEqual
unfoldable pub values_equal : Value → Value → Bool
values_equal null null = true
values_equal null v = false
values_equal v null = false
values_equal v w = print v == print w

-- childVals and childPaths: the values of the children that have the field.
unfoldable pub holding : String → List Record → List (Value × String)
holding name [] = []
holding name (c ∷ cs) =
    let rest = holding name cs in
    elim (get name c.frontmatter) [ none ↦ rest | some v ↦ (v, c.path) ∷ rest ]

unfoldable pub agrees : Value → List (Value × String) → Bool
agrees first [] = true
agrees first ((v, p) ∷ rest) =
    let later = agrees first rest in if values_equal first v then later else false

-- unanimousValue
unfoldable pub unanimous_value : List (Value × String) → Option Value
unanimous_value [] = none
unanimous_value ((v, p) ∷ rest) = if agrees v rest then some v else none

abbrev pub paths_of : List (Value × String) → List String
paths_of [] = []
paths_of ((v, p) ∷ rest) = p ∷ paths_of rest

-- The body of the loop over the fields.
unfoldable pub drift_of : Record → List Record → String → SchemaField → Option DriftWarning
drift_of parent children name f = elim f.match [
  | some _ ↦ none
  | none ↦ elim (get name parent.frontmatter) as (λ _. Option DriftWarning) [
    | none ↦ none
    | some parent_val ↦ elim (unanimous_value (holding name children)) [
      | none ↦ none
      | some consensus ↦
          if values_equal parent_val consensus
          then none
          else some (record {
            field = name;
            parent_value = parent_val;
            children_value = consensus;
            parent_path = parent.path;
            child_paths = paths_of (holding name children);
          })
    ]
  ]
]

unfoldable pub drifts_along :
    Record → List Record → Dict SchemaField → List String → List DriftWarning
drifts_along parent children schema [] = []
drifts_along parent children schema (name ∷ names) =
    let rest = drifts_along parent children schema names in
    elim (lookup name schema) as (λ _. List DriftWarning) [
      | none ↦ rest
      | some f ↦ elim (drift_of parent children name f) [ none ↦ rest | some w ↦ w ∷ rest ]
    ]

-- DetectDrift
unfoldable pub detect_drift : Record → List Record → Dict SchemaField → List DriftWarning
detect_drift parent children schema =
    if is_nil children then [] else drifts_along parent children schema (sort str_le (keys schema))
