-- ===== src/Rules/Compatibility/Samples.antt =====
-- CheckFieldCompatibility on small declarations.
use rootline.Base.{String, none, List, [], ◌∷◌, true, false, ◌≡◌, ◌↔◌}
use rootline.Base.Int.{pos}
use rootline.Rules.{SchemaField}
use rootline.Rules.Compatibility.{check_field_compatibility}
use rootline.Rules.Compatibility.Laws.{IsCompatible, check_field_compatibility-eq-nil}

abbrev status : List String → SchemaField
status values = record {
  type = "enum";
  required = true;
  values = values;
  default = "";
  severity = "";
  source = "";
  extract = "";
  prefix = "";
  digits = pos 0;
  excludes = none;
  match = none;
  required_match = none;
  heading = "";
  ordered = none;
  declaration = record {
    type_present = true;
    type_null = false;
    source_present = false;
    source_null = false;
    heading_present = false;
    ordered_present = false;
    null_field = false;
  };
}

check_field_compatibility-eq-nil_example :
    (check_field_compatibility (status ("open" ∷ "done" ∷ [])) (status ("done" ∷ [])) ≡ [])
    ↔ IsCompatible (status ("open" ∷ "done" ∷ [])) (status ("done" ∷ []))
check_field_compatibility-eq-nil_example =
    check_field_compatibility-eq-nil (status ("open" ∷ "done" ∷ [])) (status ("done" ∷ []))
