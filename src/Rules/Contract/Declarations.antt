-- ===== src/Rules/Contract/Declarations.antt =====
-- ValidateFieldDeclaration of type_contract.go with applySequenceConfig of sequence_config.go.
pub mod Laws
pub mod Sequences
pub mod Complete
use rootline.Base.{
  ℕ, String, Option, none, some, List, [], ◌∷◌, Bool, true, false, ◌==◌, ◌&&◌, ◌||◌, not, ltb,
  select, if◌then◌else◌,
}
use rootline.Base.Int.{ℤ, pos, negsuc, is_positive}
use rootline.Base.Sort.{sort}
use rootline.Base.Text.{str_le}
use rootline.Value.{Value, Fields, str, int, mapping, end, field, get}
use rootline.Rules.{SchemaField, FieldMatch, is_nil, is_none}
use rootline.Extract.Section.{Quoting, ok, fault, parse_body_source}
use rootline.Rules.Contract.{ContractIssue, is_supported_field_type}

unfoldable pub keys_of : Fields → List String
keys_of end = []
keys_of (field k v m) = k ∷ keys_of m

-- unknownSequenceConfigKeys
unfoldable pub unknown_sequence_config_keys : Fields → List String
unfolding keys_of
unknown_sequence_config_keys config =
    sort str_le (select (λ k. not (k == "prefix" || k == "digits")) (keys_of config))

-- strictConfigDigits: an unsigned number past Go's largest int is refused.
unfoldable pub strict_config_digits : Value → Option ℤ
strict_config_digits (int (pos n)) = if ltb n 9223372036854775808 then some (pos n) else none
strict_config_digits (int (negsuc n)) = some (negsuc n)
strict_config_digits v = none

-- The field that a config resolves to, or the field actual of a sequenceConfigError.
pub data Applied : Type 0 where
  applied : SchemaField → Applied
  refused : String → Applied

-- The two keys of a config; none is an unfit value.
unfoldable pub config_prefix : SchemaField → Option Value → Option SchemaField
config_prefix f none = some f
config_prefix f (some (str s)) = if s == "" then none else some (record f { prefix = s })
config_prefix f (some v) = none

unfoldable pub config_digits : SchemaField → Option Value → Option SchemaField
config_digits f none = some f
config_digits f (some v) = elim (strict_config_digits v) [
  | none ↦ none
  | some d ↦ if is_positive d then some (record f { digits = d }) else none
]

unfoldable pub effective_config : SchemaField → Applied
effective_config f =
    if f.prefix == "" || not (is_positive f.digits)
    then refused "incomplete sequence config"
    else applied f

-- applySequenceConfig of a map that is not nil
unfoldable pub apply_sequence_config : SchemaField → Fields → Applied
apply_sequence_config f config =
    if not (is_nil (unknown_sequence_config_keys config))
    then refused "unsupported sequence config"
    else elim (config_prefix f (get "prefix" config)) as (λ _. Applied) [
      | none ↦ refused "incomplete sequence config"
      | some g ↦ elim (config_digits g (get "digits" config)) [
        | none ↦ refused "incomplete sequence config"
        | some h ↦ effective_config h
      ]
    ]

-- incompleteSequenceIssue and incompleteSequenceConfigIssue
abbrev pub incomplete_sequence : String → ContractIssue
incomplete_sequence actual = record {
  code = "incomplete-type";
  expected = "prefix and positive digits";
  actual = actual;
}

-- The body of the loop over the patterns.
unfoldable pub config_issue : SchemaField → Option Value → Option ContractIssue
config_issue f (some (mapping config)) = elim (apply_sequence_config f config) [
  | applied g ↦ none
  | refused actual ↦ some (incomplete_sequence actual)
]
config_issue f o = some (incomplete_sequence "malformed sequence config")

unfoldable pub first_config_issue : SchemaField → Fields → List String → Option ContractIssue
first_config_issue f configs [] = none
first_config_issue f configs (p ∷ ps) =
    let rest = first_config_issue f configs ps in
    elim (config_issue f (get p configs)) [ some issue ↦ some issue | none ↦ rest ]

-- field.Match.Configs, empty where there is no match
unfoldable pub configs_of : Option FieldMatch → Fields
configs_of none = end
configs_of (some m) = elim m.configs [ none ↦ end | some c ↦ c ]

-- validateSequenceDeclaration
unfoldable pub validate_sequence_declaration : SchemaField → Option ContractIssue
validate_sequence_declaration f =
    let patterns = keys_of (configs_of f.match) in
    if is_nil patterns
    then (if f.prefix == "" || not (is_positive f.digits)
        then some (incomplete_sequence "incomplete sequence")
        else none)
    else first_config_issue f (configs_of f.match) (sort str_le patterns)

abbrev pub legacy : String → List ContractIssue
legacy actual = record { code = "legacy-type"; expected = "canonical source"; actual = actual } ∷ []

-- How an empty type came about.
unfoldable pub missing_type : SchemaField → String
missing_type f =
    if f.declaration.type_null
    then "null"
    else if f.declaration.type_present
    then "empty"
    else "omitted"

-- ParseBodySource returns no error.
unfoldable pub reads_source : Quoting → String → Bool
reads_source quoting directive = elim (parse_body_source quoting directive) [
  | ok _ ↦ true
  | fault _ ↦ false
]

module _ (quoting : Quoting) where
  -- The checks of a supported type.
  unfoldable pub typed_issues : SchemaField → List ContractIssue
  typed_issues f =
      if f.type == "enum" && is_nil f.values
      then record {
        code = "incomplete-type";
        expected = "one or more values";
        actual = "empty values";
      }
        ∷ []
      else elim (if f.type == "sequence" then validate_sequence_declaration f else none)
          as (λ _. List ContractIssue) [
            | some issue ↦ issue ∷ []
            | none ↦
                if not (f.extract == "") && not (reads_source quoting f.extract)
                then record {
                  code = "unsupported-source";
                  expected = "body.h1 or body.section[...]";
                  actual = f.extract;
                }
                  ∷ []
                else []
          ]

  -- ValidateFieldDeclaration
  unfoldable pub validate_field_declaration : SchemaField → List ContractIssue
  validate_field_declaration f =
      if f.type == "bool"
      then record { code = "legacy-type"; expected = "boolean"; actual = "bool" } ∷ []
      else if f.declaration.ordered_present || not (is_none f.ordered)
      then legacy "ordered"
      else if f.type == "section" || f.declaration.heading_present || not (f.heading == "")
      then legacy "section metadata"
      else if f.type == ""
      then record {
        code = "incomplete-type";
        expected = "supported field type";
        actual = missing_type f;
      }
        ∷ []
      else if not (is_supported_field_type f.type)
      then record {
        code = "unknown-type";
        expected = "string, list, enum, sequence, link, boolean, integer";
        actual = f.type;
      }
        ∷ []
      else typed_issues f
