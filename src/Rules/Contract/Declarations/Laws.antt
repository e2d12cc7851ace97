-- ===== src/Rules/Contract/Declarations/Laws.antt =====
-- What a declaration without issues has.
use rootline.Base.{
  List, ◌∷◌, In, String, ◌≡◌, ◌≢◌, ◌↔◌, ◌⊎◌, inl, inr, refl, sym, ◌∙◌, ap, none, [], true, false,
  ◌==◌, eq_iff, arith, Bool-cases, Option-cases,
}
use rootline.Rules.{SchemaField}
use rootline.Rules.Compatibility.Laws.{nil_iff}
use rootline.Extract.Section.{
  Quoting, BodySource, Parsed, SourceFault, ok, fault, parse_body_source,
}
use rootline.Rules.Contract.Declarations.Complete.{IsSequence, validate_sequence_declaration_iff}
use rootline.Rules.Contract.{is_supported_field_type}
use rootline.Rules.Contract.Declarations.{
  reads_source, validate_sequence_declaration, typed_issues, validate_field_declaration,
}

abbrev pub supported_types : List String
supported_types = "string" ∷ "list" ∷ "enum" ∷ "sequence" ∷ "link" ∷ "boolean" ∷ "integer" ∷ []

is_supported_iff : (t : String) → (is_supported_field_type t ≡ true) ↔ In t supported_types
unfolding is_supported_field_type
is_supported_iff t = ground (
  arith,
  eq_iff t "string",
  eq_iff t "list",
  eq_iff t "enum",
  eq_iff t "sequence",
  eq_iff t "link",
  eq_iff t "boolean",
  eq_iff t "integer",
)

Parsed-cases :
    {A : Type 0} (r : Parsed A) → ((a : A) × (r ≡ ok a)) ⊎ ((e : SourceFault) × (r ≡ fault e))
Parsed-cases (ok a) = inl (a, refl)
Parsed-cases (fault e) = inr (e, refl)

reads_source_iff :
    (quoting : Quoting) (directive : String)
    → (reads_source quoting directive ≡ true)
      ↔ ((source : BodySource) × (parse_body_source quoting directive ≡ ok source))
unfolding reads_source
reads_source_iff quoting directive = elim (Parsed-cases (parse_body_source quoting directive)) [
  | inl (a, e) ↦ (λ _. (a, e), λ _. ground (arith, e))
  | inr (e, k) ↦ (λ h. absurd (ground (arith, k, h)), λ h. absurd (ground (arith, k, h.1)))
]

-- A field of a supported type without legacy metadata, an enum with values, a complete sequence, and
-- a source, if any, that can be read.
pub record IsDeclared (quoting : Quoting) (f : SchemaField) : Type 0 where
  pub supported : In f.type supported_types
  pub unordered : (f.declaration.ordered_present ≡ false) × (f.ordered ≡ none)
  pub unsectioned : (f.declaration.heading_present ≡ false) × (f.heading ≡ "")
  pub enum_values : f.type ≡ "enum" → f.values ≢ []
  pub sequence : f.type ≡ "sequence" → IsSequence f
  pub source :
      (f.extract ≡ "") ⊎ ((source : BodySource) × (parse_body_source quoting f.extract ≡ ok source))

-- A supported type is none of the names that are not.
another_type :
    (t name : String)
    → is_supported_field_type name ≡ false
    → is_supported_field_type t ≡ true
    → t == name ≡ false
another_type t name k h = elim (Bool-cases (t == name)) [
  | inl e ↦
      let both : true ≡ false = sym h ∙ ap is_supported_field_type ((eq_iff t name).0 e) ∙ k in
      absurd (ground (arith, both))
  | inr e ↦ e
]

unsupported :
    (f : SchemaField)
    → is_supported_field_type f.type ≡ true
    → (f.type == "bool" ≡ false) × (f.type == "section" ≡ false) × (f.type == "" ≡ false)
unsupported f h = (
  another_type f.type "bool" (unfold is_supported_field_type in refl) h,
  another_type f.type "section" (unfold is_supported_field_type in refl) h,
  another_type f.type "" (unfold is_supported_field_type in refl) h,
)

module _ (quoting : Quoting) where
  typed-eq-nil :
      (f : SchemaField)
      → (typed_issues quoting f ≡ []) ↔ (
          (f.type ≡ "enum" → f.values ≢ [])
          × (f.type ≡ "sequence" → validate_sequence_declaration f ≡ none)
          × ((f.extract ≡ "") ⊎ (reads_source quoting f.extract ≡ true)))
  unfolding typed_issues
  typed-eq-nil f = elim (Option-cases (validate_sequence_declaration f)) [
    | inl e ↦ ground (
      arith,
      e,
      eq_iff f.type "enum",
      eq_iff f.type "sequence",
      eq_iff f.extract "",
      nil_iff f.values,
    )
    | inr (i, e) ↦ ground (
      arith,
      e,
      eq_iff f.type "enum",
      eq_iff f.type "sequence",
      eq_iff f.extract "",
      nil_iff f.values,
    )
  ]

  passes_iff :
      (f : SchemaField)
      → (validate_field_declaration quoting f ≡ []) ↔ (
          (is_supported_field_type f.type ≡ true)
          × (f.declaration.ordered_present ≡ false)
          × (f.ordered ≡ none)
          × (f.declaration.heading_present ≡ false)
          × (f.heading ≡ "")
          × (typed_issues quoting f ≡ []))
  unfolding validate_field_declaration
  passes_iff f = elim (Option-cases f.ordered) [
    | inl e ↦ ground (arith, e, eq_iff f.heading "", unsupported f)
    | inr (n, e) ↦ ground (arith, e, eq_iff f.heading "", unsupported f)
  ]

  -- A declaration has no issue just where it is one of a supported type with all that the type needs:
  -- an enum has values, and a sequence a prefix and a positive number of digits, its own or those that
  -- each of its configs gives.
  pub validate_field_declaration-eq-nil :
      (f : SchemaField) → (validate_field_declaration quoting f ≡ []) ↔ IsDeclared quoting f
  validate_field_declaration-eq-nil f = (
    λ h.
        let (supported, o, e, present, heading, typed) = (passes_iff f).0 h in
        let (values, sequence, source) = (typed-eq-nil f).0 typed in
        record {
          supported = (is_supported_iff f.type).0 supported;
          unordered = (o, e);
          unsectioned = (present, heading);
          enum_values = values;
          sequence = λ t. (validate_sequence_declaration_iff f).0 (sequence t);
          source = elim source [
            | inl q ↦ inl q
            | inr q ↦ inr ((reads_source_iff quoting f.extract).0 q)
          ];
        },
    λ d. (passes_iff f).1 (
      (is_supported_iff f.type).1 d.supported,
      d.unordered.0,
      d.unordered.1,
      d.unsectioned.0,
      d.unsectioned.1,
      (typed-eq-nil f).1 (
        d.enum_values,
        λ t. (validate_sequence_declaration_iff f).1 (d.sequence t),
        elim d.source [ inl q ↦ inl q | inr q ↦ inr ((reads_source_iff quoting f.extract).1 q) ],
      ),
    ),
  )
