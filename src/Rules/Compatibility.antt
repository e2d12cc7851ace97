-- ===== src/Rules/Compatibility.antt =====
-- internal/rules/field_compatibility.go: whether a child's field keeps what its parent's promises.
-- The text of an issue's message is left out.
pub mod Laws
mod Samples
use rootline.Base.{
  ℕ, String, Option, none, some, List, [], ◌∷◌, ◌++◌, Bool, true, false, ◌==◌, ◌&&◌, ◌||◌, not, ltb,
  select, if◌then◌else◌,
}
use rootline.Graph.Adjacency.{contains}
use rootline.Value.{Value, str, bool, seq, Items, nil, cons}
use rootline.Rules.{SchemaField, is_nil, is_none}
use rootline.Rules.Severity.{normalized_severity}

-- FieldCompatibilityIssue
pub record Issue : Type 0 where
  pub constraint : String
  pub operation : String
  pub value : Value

-- childFieldSource
unfoldable pub child_field_source : SchemaField → Option String
child_field_source f =
    if not (f.extract == "")
    then some f.extract
    else if f.declaration.source_present
    then some ""
    else none

-- checkFieldSourceCompatibility
unfoldable pub check_source : SchemaField → SchemaField → Option Issue
check_source parent child = elim (child_field_source child) [
  | none ↦ none
  | some s ↦
      if s == parent.extract
      then none
      else if s == ""
      then some (record { constraint = "source"; operation = "removal"; value = str s })
      else some (record { constraint = "source"; operation = "change"; value = str s })
]

-- checkFieldTypeCompatibility
unfoldable pub check_type : SchemaField → SchemaField → Option Issue
check_type parent child =
    if parent.type == child.type || (parent.type == "string" && child.type == "enum")
    then none
    else some (record { constraint = "type"; operation = "widening"; value = str child.type })

-- compatibilityAddedValues
unfoldable pub added_values : List String → List String → List String
added_values child parent = select (λ v. not (contains parent v)) child

unfoldable pub items_of : List String → Items
items_of [] = nil
items_of (v ∷ vs) = cons (str v) (items_of vs)

-- checkFieldValuesCompatibility
unfoldable pub check_values : SchemaField → SchemaField → Option Issue
check_values parent child =
    if not (parent.type == "enum")
      || not (child.type == "enum")
      || is_nil parent.values
      || is_nil child.values
    then none
    else if is_nil (added_values child.values parent.values)
    then none
    else some (record {
      constraint = "values";
      operation = "extension";
      value = seq (items_of (added_values child.values parent.values));
    })

-- checkFieldRequiredCompatibility
unfoldable pub check_required : SchemaField → SchemaField → Option Issue
check_required parent child =
    if not parent.required || child.required || not (is_none child.required_match)
    then none
    else some (record { constraint = "required"; operation = "loosening"; value = bool false })

-- Both severities, if known, compared.
unfoldable pub loosened : Option (String × ℕ) → Option (String × ℕ) → Option Issue
loosened (some (_, pn)) (some (cs, cn)) =
    if ltb cn pn
    then some (record { constraint = "severity"; operation = "loosening"; value = str cs })
    else none
loosened _ _ = none

-- checkFieldSeverityCompatibility
unfoldable pub check_severity : SchemaField → SchemaField → Option Issue
unfolding loosened
check_severity parent child =
    loosened (normalized_severity parent.severity) (normalized_severity child.severity)

unfoldable pub append_issue : List Issue → Option Issue → List Issue
append_issue issues none = issues
append_issue issues (some i) = issues ++ i ∷ []

-- CheckFieldCompatibility
unfoldable pub check_field_compatibility : SchemaField → SchemaField → List Issue
unfolding append_issue
check_field_compatibility parent child =
    let issues = append_issue [] (check_source parent child) in
    let issues = append_issue issues (check_type parent child) in
    let issues = append_issue issues (check_values parent child) in
    let issues = append_issue issues (check_required parent child) in
    append_issue issues (check_severity parent child)
