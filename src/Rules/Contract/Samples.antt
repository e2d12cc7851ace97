-- ===== src/Rules/Contract/Samples.antt =====
-- Declarations and values.
use Prim.Native.String.{◌++◌, len}
use rootline.Base.{
  String, ◌≡◌, ◌≢◌, ◌↔◌, refl, none, List, [], ◌∷◌, true, false, arith, ◌==◌, eq_iff,
}
use rootline.Base.Int.{pos, is_positive}
use rootline.Base.Sort.{sort, place}
use rootline.Base.Text.{str_le}
use rootline.Value.{str, end, field, get}
use rootline.Extract.Section.{Quoting, parse_body_source}
use rootline.Rules.{SchemaField}
use rootline.Rules.Severity.{normalized_severity, severity_order, normal}
use rootline.Rules.Compatibility.{
  check_field_compatibility, check_source, check_type, check_values, check_required, check_severity,
  child_field_source, added_values, loosened, append_issue,
}
use rootline.Rules.Contract.{
  is_supported_field_type, validate_field_value, validate_representation, representation_ok,
  representation_name, validate_type_semantics, enum_issue, enum_contains, sequence_issue,
  sequence_ok, as_text,
}
use rootline.Rules.Contract.Digits.{all_digits, has_length, decimal_digits}
use rootline.Rules.Contract.Values.{AreDigits, sequence-accepts}
use rootline.Rules.Contract.Inherits.{check_field_compatibility-narrows}
use rootline.Rules.Contract.Declarations.Sequences.{IsConfigured, apply_sequence_config_iff}
use rootline.Rules.Contract.Declarations.{
  applied, apply_sequence_config, config_prefix, config_digits, effective_config,
  unknown_sequence_config_keys, keys_of, reads_source, typed_issues, validate_field_declaration,
}
use rootline.Rules.Contract.Declarations.Laws.{IsDeclared, validate_field_declaration-eq-nil}
use rootline.Query.Text.{trim_prefix}
use rootline.Value.Print.{print}

abbrev a_field : String → List String → String → SchemaField
a_field type values prefix = record {
  type = type;
  required = false;
  values = values;
  default = "";
  severity = "";
  source = "";
  extract = "";
  prefix = prefix;
  digits = pos 3;
  excludes = none;
  match = none;
  required_match = none;
  heading = "";
  ordered = none;
  declaration = record {
    type_present = true;
    type_null = false;
    source_present = false;
    source_null = false;
    heading_present = false;
    ordered_present = false;
    null_field = false;
  };
}

abbrev serial : String → SchemaField
serial prefix = a_field "sequence" [] prefix

-- A field read from the heading.
abbrev title : SchemaField
title = record (a_field "string" [] "") { extract = "body.h1" }

-- No literal is well formed.
abbrev unquoted : Quoting
unquoted = record { quote = λ text. text; unquote = λ _. none }

-- The prefix of a sequence is not compared, so this child accepts what its parent rejects.
sequence_widens :
    (check_field_compatibility (serial "T") (serial "S") ≡ [])
    × (validate_field_value (serial "S") (str "S001") ≡ none)
    × (validate_field_value (serial "T") (str "S001") ≢ none)
unfolding check_field_compatibility check_source check_type check_values check_required
    check_severity child_field_source loosened append_issue normalized_severity severity_order
    normal validate_field_value validate_representation representation_ok representation_name
    validate_type_semantics sequence_issue sequence_ok as_text trim_prefix decimal_digits has_length
    all_digits is_positive
sequence_widens = (refl, refl, λ e. ground (arith, e))

apart : (s t : String) → (s == t) ≡ false → s ≢ t
apart s t h e = ground (arith, h, (eq_iff s t).1 e)

sequence-accepts_example :
    (validate_field_value (serial "T") (str "T001") ≡ none)
    ↔ ((ds : String) × (str "T001" ≡ str ("T" ++ ds)) × AreDigits ds × (pos 3 ≡ pos (len ds)))
sequence-accepts_example =
    sequence-accepts (serial "T") (str "T001") refl (apart "T" "" refl) (unfold is_positive in refl)

check_field_compatibility-narrows_example :
    validate_field_value (a_field "enum" ("open" ∷ "done" ∷ []) "") (str "done") ≡ none
check_field_compatibility-narrows_example =
    check_field_compatibility-narrows (a_field "enum" ("open" ∷ "done" ∷ []) "")
      (a_field "enum" ("done" ∷ []) "") (str "done")
      (unfold check_field_compatibility check_source check_type check_values check_required
          check_severity child_field_source added_values loosened append_issue normalized_severity
          severity_order normal in
        refl)
      (apart "enum" "sequence" refl) (λ _ e. ground (arith, e))
      (unfold validate_field_value validate_representation representation_ok representation_name
          validate_type_semantics enum_issue enum_contains print in
        refl)

validate_field_declaration-eq-nil_example :
    (validate_field_declaration unquoted title ≡ []) ↔ IsDeclared unquoted title
validate_field_declaration-eq-nil_example = validate_field_declaration-eq-nil unquoted title

title_passes : validate_field_declaration unquoted title ≡ []
unfolding validate_field_declaration typed_issues is_supported_field_type reads_source
    parse_body_source
title_passes = refl

subtitle_fails : validate_field_declaration unquoted (record title { extract = "body.h2" }) ≡ (
    record {
      code = "unsupported-source";
      expected = "body.h1 or body.section[...]";
      actual = "body.h2";
    }
    ∷ [])
unfolding validate_field_declaration typed_issues is_supported_field_type reads_source
    parse_body_source trim_prefix
subtitle_fails = refl

apply_sequence_config_iff_example :
    (apply_sequence_config (serial "") (field "prefix" (str "E") end) ≡ applied (serial "E"))
    ↔ IsConfigured (serial "") (field "prefix" (str "E") end) (serial "E")
apply_sequence_config_iff_example =
    apply_sequence_config_iff (serial "") (serial "E") (field "prefix" (str "E") end)

applies : apply_sequence_config (serial "") (field "prefix" (str "E") end) ≡ applied (serial "E")
unfolding apply_sequence_config config_prefix config_digits effective_config
    unknown_sequence_config_keys keys_of get is_positive sort place str_le
applies = refl
