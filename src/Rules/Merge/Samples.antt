-- ===== src/Rules/Merge/Samples.antt =====
-- The merge of small .stem files.
use rootline.Base.{String, Option, none, some, [], ◌∷◌, true, false, ◌≡◌, ◌≢◌, refl, if◌then◌else◌}
use rootline.Base.Dict.{Dict, lookup, insert}
use rootline.Base.Int.{pos}
use rootline.Value.{Fields, str, null, mapping, end, field, get}
use rootline.Rules.{SchemaField, LinkSchema, should_resolve}
use rootline.Rules.Severity.{normalized_severity, severity_order, normal}
use rootline.Rules.Merge.{
  StemEntry, empty_stem, empty_links, merge_schema_fields, merge_entries, merge_stem_files,
  merge_any_map, merge_link_schema, is_end, or_else, merge_entry, overlay_fields, tag_fields,
  merged_field, merge_field_severity, merge_field_source,
}
use rootline.Rules.Merge.SchemaLaws.{field_along, lookup-merge_entries}
use rootline.Rules.Merge.Chain.{AtLeast, merge_stem_files-AtLeast}
use rootline.Rules.Merge.Maps.{combined, merge_any_map-combined}
use rootline.Rules.Merge.Links.{declared_resolve, merge_link_schema-inherits}

abbrev pub plain : String → SchemaField
plain severity = record {
  type = "string";
  required = true;
  values = [];
  default = "";
  severity = severity;
  source = "";
  extract = "";
  prefix = "";
  digits = pos 0;
  excludes = none;
  match = none;
  required_match = none;
  heading = "";
  ordered = none;
  declaration = record {
    type_present = true;
    type_null = false;
    source_present = false;
    source_null = false;
    heading_present = false;
    ordered_present = false;
    null_field = false;
  };
}

abbrev strict_title : Dict SchemaField
strict_title = ("title", record (plain "error") { extract = "body.h1" }) ∷ []

abbrev loose_title : Dict SchemaField
loose_title = ("status", plain "") ∷ ("title", plain "warn") ∷ []

abbrev top : StemEntry
top = record { path = "docs/.stem"; stem = record empty_stem { schema = strict_title } }

abbrev below : StemEntry
below = record { path = "docs/tasks/.stem"; stem = record empty_stem { schema = loose_title } }

title_at : String → Option SchemaField → Option (String × String × String)
title_at k none = none
title_at k (some f) = some (f.severity, f.extract, f.source)

-- A child that loosens the severity keeps the parent's, and inherits its source.
title_kept :
    title_at "title" (lookup "title" (merge_stem_files (top ∷ below ∷ [])).schema)
    ≡ some ("error", "body.h1", "docs/tasks/.stem")
unfolding merge_stem_files merge_entries merge_entry merge_schema_fields overlay_fields tag_fields
    merged_field merge_field_severity merge_field_source normalized_severity severity_order normal
    lookup insert title_at
title_kept = refl

lookup-merge_entries_example :
    lookup "title" (merge_entries empty_stem (top ∷ below ∷ [])).schema
    ≡ field_along "title" (lookup "title" empty_stem.schema) (top ∷ below ∷ [])
lookup-merge_entries_example =
    lookup-merge_entries "title" empty_stem (top ∷ below ∷ [])
      (unfold lookup in ((refl, tt), ((refl, (refl, tt)), tt)))

merge_stem_files-AtLeast_example :
    AtLeast 2 (lookup "title" (merge_stem_files (top ∷ below ∷ [])).schema)
merge_stem_files-AtLeast_example =
    merge_stem_files-AtLeast "title" [] top (below ∷ [])
      (record (plain "error") { extract = "body.h1" }) 2
      (unfold lookup in ((refl, tt), ((refl, (refl, tt)), tt))) (unfold lookup in refl)
      (unfold severity_order normal in refl)
      (unfold lookup severity_order normal in ((1, refl), tt))

abbrev parent_derive : Fields
parent_derive = field "a" (str "x") (field "m" (mapping (field "p" (str "1") end)) end)

abbrev child_derive : Fields
child_derive = field "a" null (field "m" (mapping (field "q" (str "2") end)) end)

merge_any_map-combined_example :
    (get "m" (merge_any_map parent_derive child_derive) ≡ (
      if is_end parent_derive
      then get "m" child_derive
      else combined (get "m" parent_derive) (get "m" child_derive)))
    × (get "m" parent_derive ≢ none → get "m" (merge_any_map parent_derive child_derive) ≢ none)
merge_any_map-combined_example =
    merge_any_map-combined parent_derive child_derive "m" (unfold get in (refl, (refl, tt)))

abbrev no_resolve : LinkSchema
no_resolve = record empty_links {
  checks =
      some (record { resolve = some false; anchors = false; encoding = false; cycles = false });
  rules = ("blocks", record { target = "^T"; field = ""; value_field = "" }) ∷ [];
}

abbrev anchors_too : LinkSchema
anchors_too = record empty_links {
  checks = some (record { resolve = none; anchors = true; encoding = false; cycles = false });
}

merge_link_schema-inherits_example :
    (should_resolve (merge_link_schema no_resolve anchors_too)
      ≡ (elim (declared_resolve anchors_too) [ some b ↦ b | none ↦ should_resolve no_resolve ]))
    × (lookup "blocks" (merge_link_schema no_resolve anchors_too).rules
        ≡ or_else (lookup "blocks" anchors_too.rules) (lookup "blocks" no_resolve.rules))
merge_link_schema-inherits_example =
    merge_link_schema-inherits no_resolve anchors_too "blocks" (unfold lookup in (refl, tt)) tt
