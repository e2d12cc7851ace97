-- ===== src/Rules/Contract/Inherits.antt =====
-- A child's declaration that is compatible with its parent's accepts nothing that the parent's rejects.
use rootline.Base.{
  ◌≡◌, ◌≢◌, inl, inr, refl, sym, ◌∙◌, ap, subst, none, [], ◌==◌, eq_iff, In, All-In, arith,
  Bool-cases,
}
use rootline.Value.{Value}
use rootline.Value.Print.{print}
use rootline.Rules.{SchemaField}
use rootline.Rules.Compatibility.{check_field_compatibility}
use rootline.Rules.Compatibility.Laws.{IsCompatible, check_field_compatibility-eq-nil}
use rootline.Rules.Contract.{
  representation_ok, expected_representation, validate_representation, enum_issue,
  validate_type_semantics, validate_field_value,
}
use rootline.Rules.Contract.Values.{accepted_iff, enum_issue-eq-none}

-- The two readings of the switch on the type.
at_enum :
    (f : SchemaField) (v : Value) → f.type ≡ "enum" → validate_type_semantics f v ≡ enum_issue f v
unfolding validate_type_semantics
at_enum f v t = rw (t, validate_type_semantics) refl

at_string : (f : SchemaField) (v : Value) → f.type ≡ "string" → validate_type_semantics f v ≡ none
unfolding validate_type_semantics
at_string f v t = rw (t, validate_type_semantics) refl

elsewhere :
    (p c : SchemaField) (v : Value)
    → p.type ≡ c.type
    → c.type ≢ "enum"
    → c.type ≢ "sequence"
    → validate_type_semantics p v ≡ validate_type_semantics c v
unfolding validate_type_semantics
elsewhere p c v e n s =
    rw (e, validate_type_semantics)
      (ground (arith, n, s, eq_iff c.type "enum", eq_iff c.type "sequence"))

enum_is_text :
    (v : Value)
    → validate_representation "enum" v ≡ none
    → validate_representation "string" v ≡ none
unfolding validate_representation representation_ok expected_representation
enum_is_text v h = h

enum_narrows :
    (p c : SchemaField) (v : Value)
    → IsCompatible p c
    → p.type ≡ "enum"
    → c.type ≡ "enum"
    → p.values ≢ []
    → enum_issue c v ≡ none
    → enum_issue p v ≡ none
enum_narrows p c v k tp tc ne h =
    let m = (enum_issue-eq-none c v).0 h in
    (enum_issue-eq-none p v).1 (
      All-In (λ w. In w p.values) c.values (k.values tp tc ne (λ e. subst (In (print v)) e m))
        (print v) m)

same_type :
    (p c : SchemaField) (v : Value)
    → IsCompatible p c
    → p.type ≡ c.type
    → c.type ≢ "sequence"
    → (p.type ≡ "enum" → p.values ≢ [])
    → validate_type_semantics c v ≡ none
    → validate_type_semantics p v ≡ none
same_type p c v k e s ne h = elim (Bool-cases (c.type == "enum")) [
  | inl t ↦
      let tc = (eq_iff c.type "enum").0 t in
      at_enum p v (e ∙ tc)
      ∙ enum_narrows p c v k (e ∙ tc) tc (ne (e ∙ tc)) (sym (at_enum c v tc) ∙ h)
  | inr t ↦ elsewhere p c v e (λ q. ground (arith, t, (eq_iff c.type "enum").1 q)) s ∙ h
]

-- Where the comparison of a child's field with its parent's finds no issue, each value that the
-- child's field accepts is accepted by the parent's, if the child's is no sequence and the parent's,
-- if an enum, declares a value.
pub check_field_compatibility-narrows :
    (p c : SchemaField) (v : Value)
    → check_field_compatibility p c ≡ []
    → c.type ≢ "sequence"
    → (p.type ≡ "enum" → p.values ≢ [])
    → validate_field_value c v ≡ none
    → validate_field_value p v ≡ none
check_field_compatibility-narrows p c v h s ne ok =
    let k = (check_field_compatibility-eq-nil p c).0 h in
    let (fits, means) = (accepted_iff c v).0 ok in
    (accepted_iff p v).1
      (elim (k.type)
        as (λ _. (validate_representation p.type v ≡ none) × (validate_type_semantics p v ≡ none)) [
          | inl e ↦ (ap (λ t. validate_representation t v) e ∙ fits, same_type p c v k e s ne means)
          | inr (tp, tc) ↦ (
            ap (λ t. validate_representation t v) tp
                ∙ enum_is_text v (sym (ap (λ t. validate_representation t v) tc) ∙ fits),
            at_string p v tp,
          )
        ])
