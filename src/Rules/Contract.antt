-- ===== src/Rules/Contract.antt =====
-- internal/rules/type_contract.go and sequence_config.go: what a declaration and a value must be. The
-- text of an issue's message is left out.
pub mod Digits
pub mod Declarations
pub mod Values
pub mod Inherits
mod Samples
use Prim.Native.String.{◌++◌, len}
use rootline.Base.{
  ℕ, String, Option, none, some, List, [], ◌∷◌, Bool, true, false, ◌==◌, ◌&&◌, ◌||◌, not, ltb,
  nat_eq, any, if◌then◌else◌,
}
use rootline.Base.Dict.{Dict}
use rootline.Base.Int.{ℤ, pos, negsuc, is_positive}
use rootline.Base.Sort.{sort}
use rootline.Base.Text.{str_le}
use rootline.Value.{
  Value, Items, Fields, null, str, bool, int, float, time, seq, mapping, other, nil, cons, end,
  field, get,
}
use rootline.Value.Print.{print, print_int}
use rootline.Query.Text.{trim_prefix}
use rootline.Extract.Wikilink.{contains_wikilink}
use rootline.Rules.{SchemaField, FieldMatch, is_nil, is_none}
use rootline.Rules.Contract.Digits.{decimal_digits}

-- FieldContractIssue
pub record ContractIssue : Type 0 where
  pub code : String
  pub expected : String
  pub actual : String

-- IsSupportedFieldType
unfoldable pub is_supported_field_type : String → Bool
is_supported_field_type t =
    t == "string"
    || t == "list"
    || t == "enum"
    || t == "sequence"
    || t == "link"
    || t == "boolean"
    || t == "integer"

-- representationName
unfoldable pub representation_name : Value → String
representation_name null = "null"
representation_name (str s) = "string"
representation_name (bool b) = "boolean"
representation_name (int i) = "integer"
representation_name (float s) = "number"
representation_name (time s) = "timestamp"
representation_name (seq xs) = "sequence"
representation_name (mapping m) = "mapping"
representation_name (other t s) = t

-- expectedRepresentation
unfoldable pub expected_representation : String → String
expected_representation t =
    if t == "list"
    then "sequence"
    else if t == "link"
    then "string or sequence"
    else if t == "boolean"
    then "boolean"
    else if t == "integer"
    then "integer"
    else "string"

-- The switch of validateRepresentation: none is its default case.
unfoldable pub representation_ok : String → String → Option Bool
representation_ok t actual =
    if t == "string" || t == "enum" || t == "sequence"
    then some (actual == "string")
    else if t == "list"
    then some (actual == "sequence")
    else if t == "link"
    then some (actual == "string" || actual == "sequence")
    else if t == "boolean"
    then some (actual == "boolean")
    else if t == "integer"
    then some (actual == "integer")
    else none

-- validateRepresentation
unfoldable pub validate_representation : String → Value → Option ContractIssue
validate_representation t value = elim (representation_ok t (representation_name value)) [
  | none ↦ none
  | some ok ↦
      if ok
      then none
      else some (record {
        code = "type-mismatch";
        expected = expected_representation t;
        actual = representation_name value;
      })
]

-- strings.Join(values, ", ")
join : List String → String
join [] = ""
join (v ∷ []) = v
join (v ∷ w ∷ vs) = v ++ ", " ++ join (w ∷ vs)

-- enumContains
unfoldable pub enum_contains : List String → Value → Bool
enum_contains values val = any (λ v. v == print val) values

unfoldable pub all_wikilinks : Items → Bool
all_wikilinks nil = true
all_wikilinks (cons (str s) vs) =
    let rest = all_wikilinks vs in if contains_wikilink s then rest else false
all_wikilinks (cons v vs) = false

-- linkValueOK
unfoldable pub link_value_ok : Value → Bool
link_value_ok (str s) = contains_wikilink s
link_value_ok (seq xs) = all_wikilinks xs
link_value_ok v = false

-- value.(string), with the empty text for another type
unfoldable pub as_text : Value → String
as_text (str s) = s
as_text v = ""

-- strings.HasPrefix and decimalDigits of what follows
unfoldable pub sequence_ok : String → ℤ → String → Bool
sequence_ok prefix digits s = elim (trim_prefix prefix s) [
  | none ↦ false
  | some rest ↦ decimal_digits rest digits
]

-- The three cases of the switch of validateTypeSemantics.
unfoldable pub enum_issue : SchemaField → Value → Option ContractIssue
unfolding join
enum_issue f value =
    if is_nil f.values
    then some (record {
      code = "incomplete-type";
      expected = "one or more values";
      actual = "empty values";
    })
    else if enum_contains f.values value
    then none
    else some (record { code = "invalid-enum"; expected = join f.values; actual = print value })

unfoldable pub sequence_issue : SchemaField → Value → Option ContractIssue
sequence_issue f value =
    if f.prefix == "" || not (is_positive f.digits)
    then some (record {
      code = "incomplete-type";
      expected = "prefix and positive digits";
      actual = "incomplete sequence";
    })
    else if sequence_ok f.prefix f.digits (as_text value)
    then none
    else some (record {
      code = "invalid-sequence";
      expected = f.prefix ++ " plus " ++ print_int f.digits ++ " digits";
      actual = as_text value;
    })

unfoldable pub link_issue : Value → Option ContractIssue
link_issue value =
    if link_value_ok value
    then none
    else some
        (record { code = "invalid-link"; expected = "wiki-link syntax"; actual = print value })

-- validateTypeSemantics
unfoldable pub validate_type_semantics : SchemaField → Value → Option ContractIssue
validate_type_semantics f value =
    if f.type == "enum"
    then enum_issue f value
    else if f.type == "sequence"
    then sequence_issue f value
    else if f.type == "link"
    then link_issue value
    else none

-- ValidateFieldValue
unfoldable pub validate_field_value : SchemaField → Value → Option ContractIssue
validate_field_value f value = elim (validate_representation f.type value) [
  | some issue ↦ some issue
  | none ↦ validate_type_semantics f value
]
