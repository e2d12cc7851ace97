-- ===== src/Rules.antt =====
-- internal/rules/rules.go: what a .stem file declares. The children merge the files of a directory
-- chain, compare a child's field with its parent's, check declarations, values and directories, compare
-- the records of a parent and its children, and collect the findings.
pub mod Severity
pub mod Merge
pub mod Compatibility
pub mod Contract
pub mod Report
pub mod Drift
pub mod Structure
pub mod Match
use rootline.Base.{ℕ, String, Option, none, some, List, [], ◌∷◌, Bool, true, false, ◌==◌, ◌&&◌, not}
use rootline.Base.Dict.{Dict}
use rootline.Base.Int.{ℤ, is_zero}
use rootline.Value.{Value, Fields}

-- FieldMatch: a map-form match has configs.
pub record FieldMatch : Type 0 where
  pub patterns : List String
  pub configs : Option Fields

-- schemaFieldDeclarationMetadata
pub record Declaration : Type 0 where
  pub type_present : Bool
  pub type_null : Bool
  pub source_present : Bool
  pub source_null : Bool
  pub heading_present : Bool
  pub ordered_present : Bool
  pub null_field : Bool

-- SchemaField. Next and NextByPattern are filled for output only and are left out.
pub record SchemaField : Type 0 where
  pub type : String
  pub required : Bool
  pub values : List String
  pub default : String
  pub severity : String
  pub source : String
  pub extract : String
  pub prefix : String
  pub digits : ℤ
  pub excludes : Option String
  pub match : Option FieldMatch
  pub required_match : Option FieldMatch
  pub heading : String
  pub ordered : Option ℤ
  pub declaration : Declaration

-- LinkChecks; `resolve` is tri-state.
pub record LinkChecks : Type 0 where
  pub resolve : Option Bool
  pub anchors : Bool
  pub encoding : Bool
  pub cycles : Bool

-- LinkRule
pub record LinkRule : Type 0 where
  pub target : String
  pub field : String
  pub value_field : String

-- LinkSchema. A nil slice is `none`. The lists of unknown keys serve diagnostics and are left out.
pub record LinkSchema : Type 0 where
  pub allowed : Option (List String)
  pub styles : Option (List String)
  pub checks : Option LinkChecks
  pub rules : Dict LinkRule
  pub basename_fallback : Bool

-- SubdirRules, the only part of StructuralRules.
pub record SubdirRules : Type 0 where
  pub require_index : String
  pub min_children : ℤ
  pub max_children : ℤ
  pub severity : String

-- ValidationRule
pub record ValidationRule : Type 0 where
  pub field : String
  pub rule : String
  pub condition : Fields
  pub consequence : Fields
  pub severity : String
  pub source : String

-- StemFile; `scope` is Scope.Match.
pub record StemFile : Type 0 where
  pub path : String
  pub version : ℤ
  pub root : Bool
  pub scope : String
  pub schema : Dict SchemaField
  pub validate : List ValidationRule
  pub derive : Fields
  pub aggregate : Fields
  pub links : LinkSchema
  pub structural : SubdirRules

abbrev pub is_empty_list {ℓ} : {A : Type ℓ} → Option (List A) → Bool
is_empty_list none = true
is_empty_list (some []) = true
is_empty_list (some (_ ∷ _)) = false

abbrev pub is_none {ℓ} : {A : Type ℓ} → Option A → Bool
is_none none = true
is_none (some _) = false

abbrev pub is_nil {ℓ} : {A : Type ℓ} → List A → Bool
is_nil [] = true
is_nil (_ ∷ _) = false

-- LinkSchema.IsEmpty
unfoldable pub links_empty : LinkSchema → Bool
links_empty ls =
    is_empty_list ls.allowed
    && is_nil ls.rules
    && is_empty_list ls.styles
    && is_none ls.checks
    && not ls.basename_fallback

-- LinkSchema.ShouldResolve
unfoldable pub should_resolve : LinkSchema → Bool
should_resolve ls = elim ls.checks [
  | none ↦ true
  | some c ↦ elim c.resolve [ none ↦ true | some b ↦ b ]
]

-- StructuralRules.IsEmpty
unfoldable pub structural_empty : SubdirRules → Bool
unfolding is_zero
structural_empty s = s.require_index == "" && is_zero s.min_children && is_zero s.max_children
