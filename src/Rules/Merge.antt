-- ===== src/Rules/Merge.antt =====
-- internal/rules/merge.go: the .stem files of a directory chain, root first, become one.
pub mod Maps
pub mod SchemaLaws
pub mod Chain
pub mod Links
mod Samples
use rootline.Base.{
  ℕ, zero, String, Option, none, some, List, [], ◌∷◌, ◌++◌, Bool, true, false, ◌==◌, ◌&&◌, ◌||◌,
  not, ltb, if◌then◌else◌,
}
use rootline.Base.Dict.{Dict, lookup, insert}
use rootline.Base.Int.{ℤ, pos, is_zero}
use rootline.Value
use rootline.Value.{Value, Fields, null, mapping, end, field, get, put}
use rootline.Rules.{
  SchemaField, StemFile, SubdirRules, LinkSchema, LinkChecks, LinkRule, is_none, is_nil,
  links_empty, structural_empty,
}
use rootline.Rules.Severity.{normalized_severity}

-- mergeFieldSource: a child that says nothing of the source inherits it.
pub merge_field_source : SchemaField → SchemaField → SchemaField
merge_field_source parent child =
    if child.extract == "" && not child.declaration.source_present
    then record child { extract = parent.extract }
    else child

-- mergeFieldSeverity: a child may tighten the severity and not loosen it.
pub merge_field_severity : SchemaField → SchemaField → SchemaField
merge_field_severity parent child = elim (normalized_severity parent.severity) [
  | none ↦ child
  | some (ps, pn) ↦ elim (normalized_severity child.severity) [
    | none ↦ child
    | some (cs, cn) ↦ record child { severity = if ltb cn pn then ps else cs }
  ]
]

-- One declared field over what is there under its name.
pub merged_field : String → Option SchemaField → SchemaField → SchemaField
merged_field source none v = record v { source = source }
merged_field source (some parent) v =
    merge_field_severity parent (merge_field_source parent (record v { source = source }))

overlay_fields : Dict SchemaField → Dict SchemaField → String → Dict SchemaField
unfolding merged_field
overlay_fields out [] source = out
overlay_fields out ((k, v) ∷ child) source =
    overlay_fields (insert k (merged_field source (lookup k out) v) out) child source

tag_fields : Dict SchemaField → String → Dict SchemaField
tag_fields [] source = []
tag_fields ((k, v) ∷ child) source = (k, record v { source = source }) ∷ tag_fields child source

-- mergeSchemaFields
pub merge_schema_fields : Dict SchemaField → Dict SchemaField → String → Dict SchemaField
merge_schema_fields parent child source =
    if is_nil child
    then parent
    else if is_nil parent
    then tag_fields child source
    else overlay_fields parent child source

-- Both values are maps: merge them by `merge`; else the child's value `v` replaces.
over_mapping : (Fields → Fields) → Value → Option Value → Value
over_mapping merge v (some (mapping pm)) = mapping (merge pm)
over_mapping merge v _ = v

mutual
  unfolding over_mapping

  -- mergeAnyMapGeneric, whose loop mergeAnyMap has too.
  pub overlay : Fields → Fields → Fields
  overlay out end = out
  overlay out (field k v rest) = overlay (place out k v) rest

  -- One entry of the child over the map so far: a null is passed over.
  pub place : Fields → String → Value → Fields
  place out k null = out
  place out k (mapping cm) = put k (over_mapping (λ pm. overlay pm cm) (mapping cm) (get k out)) out
  place out k v = put k v out

abbrev pub is_end : Fields → Bool
is_end end = true
is_end (field _ _ _) = false

-- mergeAnyMap
pub merge_any_map : Fields → Fields → Fields
merge_any_map parent child =
    if is_end child then parent else if is_end parent then child else overlay parent child

abbrev or_else {ℓ} : {A : Type ℓ} → Option A → Option A → Option A
or_else (some a) d = some a
or_else none d = d

-- An undeclared resolve is inherited, also where the child declares other checks.
merge_checks : Option LinkChecks → Option LinkChecks → Option LinkChecks
merge_checks parent none = parent
merge_checks none (some c) = some c
merge_checks (some p) (some c) = some (record c { resolve = or_else c.resolve p.resolve })

overlay_rules : Dict LinkRule → Dict LinkRule → Dict LinkRule
overlay_rules out [] = out
overlay_rules out ((k, v) ∷ rest) = overlay_rules (insert k v out) rest

-- mergeLinkSchema
pub merge_link_schema : LinkSchema → LinkSchema → LinkSchema
merge_link_schema parent child =
    if links_empty child then parent else if links_empty parent then child else record {
      allowed = or_else child.allowed parent.allowed;
      styles = or_else child.styles parent.styles;
      checks = merge_checks parent.checks child.checks;
      rules = overlay_rules (overlay_rules [] parent.rules) child.rules;
      basename_fallback = parent.basename_fallback || child.basename_fallback;
    }

abbrev pub empty_links : LinkSchema
empty_links = record {
  allowed = none;
  styles = none;
  checks = none;
  rules = [];
  basename_fallback = false;
}

-- &StemFile{}
abbrev pub empty_stem : StemFile
empty_stem = record {
  path = "";
  version = pos 0;
  root = false;
  scope = "";
  schema = [];
  validate = [];
  derive = end;
  aggregate = end;
  links = empty_links;
  structural = record {
    require_index = "";
    min_children = pos 0;
    max_children = pos 0;
    severity = "";
  };
}

-- StemEntry
pub record StemEntry : Type 0 where
  pub path : String
  pub stem : StemFile

-- The body of the loop of MergeStemFiles. `root` is set by no merge.
pub merge_entry : StemFile → StemEntry → StemFile
merge_entry result entry = record result {
  path = entry.path;
  version = if is_zero entry.stem.version then result.version else entry.stem.version;
  scope = if entry.stem.scope == "" then result.scope else entry.stem.scope;
  schema = merge_schema_fields result.schema entry.stem.schema entry.path;
  validate = result.validate ++ entry.stem.validate;
  derive = merge_any_map result.derive entry.stem.derive;
  aggregate = merge_any_map result.aggregate entry.stem.aggregate;
  links = merge_link_schema result.links entry.stem.links;
  structural =
      if structural_empty entry.stem.structural then result.structural else entry.stem.structural;
}

pub merge_entries : StemFile → List StemEntry → StemFile
merge_entries result [] = result
merge_entries result (e ∷ es) = merge_entries (merge_entry result e) es

-- MergeStemFiles
pub merge_stem_files : List StemEntry → StemFile
merge_stem_files = merge_entries empty_stem
