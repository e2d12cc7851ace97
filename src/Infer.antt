-- ===== src/Infer.antt =====
-- internal/infer/inference.go, scopes.go and delta.go: the records of a corpus by the .stem file that
-- governs them, and the inferences that those files do not yet cover. The children describe the groups
-- and the inferences that are kept.
pub mod Scopes
pub mod Coverage
mod Samples
use rootline.Base.{
  String, Option, none, some, List, [], ◌∷◌, ◌++◌, Bool, true, false, ◌==◌, ◌&&◌, ◌||◌, not, any,
  select, if◌then◌else◌,
}
use rootline.Base.Dict.{Dict, lookup, has}
use rootline.Base.FilePath.{dir, join}
use rootline.Base.Int.{is_positive}
use rootline.Value.{get}
use rootline.Extract.{Record}
use rootline.Extract.Section.{
  Quoting, ok, fault, h1, section, parse_body_source, canonical_section_selector_source,
}
use rootline.Rules.{SchemaField, StemFile, is_nil, is_none}

-- Inference; `kind` is the field Type, and `value` the field Value.
pub record Inference : Type 0 where
  pub kind : String
  pub source : String
  pub field : String
  pub value : String
  pub message : String
  pub source_directive : String

-- The result of a StemResolver.
pub record Governed : Type 0 where
  pub stem : Option StemFile
  pub key : String

-- ScopeGroup
pub record ScopeGroup : Type 0 where
  pub key : String
  pub stem : Option StemFile
  pub records : List Record

-- The part of the loop of GroupByScope behind the resolver.
unfoldable pub add_to_scope : Governed → Record → List ScopeGroup → List ScopeGroup
add_to_scope found rec [] = record { key = found.key; stem = found.stem; records = rec ∷ [] } ∷ []
add_to_scope found rec (g ∷ gs) =
    let rest = add_to_scope found rec gs in
    if g.key == found.key then record g { records = g.records ++ (rec ∷ []) } ∷ gs else g ∷ rest

unfoldable pub group_records :
    String → (String → Governed) → List Record → List ScopeGroup → List ScopeGroup
group_records root resolve [] groups = groups
group_records root resolve (rec ∷ recs) groups =
    group_records root resolve recs (add_to_scope (resolve (dir (join root rec.path))) rec groups)

-- GroupByScope
unfoldable pub group_by_scope : List Record → String → (String → Governed) → List ScopeGroup
unfolding group_records
group_by_scope records root resolve = group_records root resolve records []

-- canonicalSectionDirective: `none` is an error.
unfoldable pub canonical_section_directive : Quoting → String → Option String
canonical_section_directive quoting directive =
    if directive == "" then none else elim (parse_body_source quoting directive) [
      | fault _ ↦ none
      | ok h1 ↦ none
      | ok (section selector) ↦ elim (canonical_section_selector_source quoting selector) [
        | ok source ↦ some source
        | fault _ ↦ none
      ]
    ]

abbrev pub same_source : Option String → Option String → Bool
same_source (some a) (some b) = a == b
same_source (some a) none = false
same_source none b = false

-- sectionInferenceCovered
unfoldable pub section_inference_covered : Quoting → Inference → SchemaField → Bool
section_inference_covered quoting inf sf =
    if not (sf.type == "string") || inf.source_directive == "" || sf.extract == ""
    then false
    else if not (
        same_source (canonical_section_directive quoting inf.source_directive)
          (canonical_section_directive quoting sf.extract))
    then false
    else if inf.kind == "required_section"
    then sf.required
    else true

-- The case of isCovered for a field that the stem declares.
unfoldable pub declared_covers : Quoting → Inference → SchemaField → Bool
declared_covers quoting inf sf =
    if inf.kind == "required_field"
    then sf.required
    else if inf.kind == "field_type"
    then sf.type == inf.value
    else if inf.kind == "enum_values"
    then sf.type == "enum" && not (is_nil sf.values)
    else if inf.kind == "constant_field"
    then sf.required
    else if inf.kind == "enum_without_values"
    then sf.type == "enum" && not (is_nil sf.values)
    else if inf.kind == "untyped_field"
    then not (sf.type == "")
    else if inf.kind == "sequence_incomplete"
    then not (sf.prefix == "") && is_positive sf.digits
    else if inf.kind == "required_section" || inf.kind == "optional_section"
    then section_inference_covered quoting inf sf
    else if inf.kind == "required_understatement"
    then sf.required
    else false

-- isCovered
unfoldable pub is_covered : Quoting → Inference → StemFile → Bool
is_covered quoting inf stem = elim (lookup inf.field stem.schema) [
  | some sf ↦ declared_covers quoting inf sf
  | none ↦ false
]

-- A field that the scope's schema or one of its records has.
unfoldable pub is_relevant : Inference → StemFile → List Record → Bool
is_relevant inf stem records =
    has inf.field stem.schema || any (λ rec. not (is_none (get inf.field rec.frontmatter))) records

-- The loop of coveredEverywhere, with the flag `relevant`.
unfoldable pub covered_in : Quoting → Inference → Bool → List ScopeGroup → Bool
covered_in quoting inf relevant [] = relevant
covered_in quoting inf relevant (g ∷ gs) =
    let rest = covered_in quoting inf relevant gs in
    let found = covered_in quoting inf true gs in
    elim g.stem [
      | none ↦ rest
      | some stem ↦
          if not (is_relevant inf stem g.records)
          then rest
          else if not (is_covered quoting inf stem)
          then false
          else found
    ]

-- coveredEverywhere
unfoldable pub covered_everywhere : Quoting → Inference → List ScopeGroup → Bool
unfolding covered_in
covered_everywhere quoting inf groups = covered_in quoting inf false groups

-- FilterCoveredInferences
unfoldable pub filter_covered_inferences :
    Quoting → List Inference → List Record → String → (String → Governed) → List Inference
unfolding covered_everywhere group_by_scope
filter_covered_inferences quoting inferences records root resolve =
    let groups = group_by_scope records root resolve in
    select (λ inf. not (covered_everywhere quoting inf groups)) inferences
