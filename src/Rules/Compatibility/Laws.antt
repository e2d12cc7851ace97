-- ===== src/Rules/Compatibility/Laws.antt =====
-- CheckFieldCompatibility: what no issue means.
use rootline.Base.{
  ℕ, String, ◌≡◌, ◌≢◌, ◌≤◌, ◌↔◌, ◌⊎◌, inl, inr, Option, none, some, List, [], ◌∷◌, true, arith,
  eq_iff, In, All, Option-cases,
}
use rootline.Graph.Adjacency.{contains_iff}
use rootline.Rules.{SchemaField, is_nil}
use rootline.Rules.Severity.{normalized_severity, rank}
use rootline.Rules.Compatibility.{
  Issue, child_field_source, check_source, check_type, added_values, check_values, check_required,
  loosened, check_severity, append_issue, check_field_compatibility,
}

-- Where both severities are known, the second is at least as strict.
abbrev pub NotBelow : Option ℕ → Option ℕ → Type 0
NotBelow (some pn) (some cn) = pn ≤ cn
NotBelow _ _ = Unit

-- What a child's field may say over its parent's: the same source or none, the same type or an enum
-- over a string, no new values over an enum's, a parent's requirement kept or bound to a match, and
-- a severity at least as strict.
pub record IsCompatible (p c : SchemaField) : Type 0 where
  pub source : (child_field_source c ≡ none) ⊎ (child_field_source c ≡ some p.extract)
  pub type : (p.type ≡ c.type) ⊎ ((p.type ≡ "string") × (c.type ≡ "enum"))
  pub values :
      p.type ≡ "enum"
      → c.type ≡ "enum"
      → p.values ≢ []
      → c.values ≢ []
      → All (λ v. In v p.values) c.values
  pub required : p.required ≡ true → (c.required ≡ true) ⊎ (c.required_match ≢ none)
  pub severity : NotBelow (rank p.severity) (rank c.severity)

append-nil :
    (is : List Issue) (o : Option Issue) → (append_issue is o ≡ []) ↔ ((is ≡ []) × (o ≡ none))
unfolding append_issue
append-nil [] none = ground arith
append-nil [] (some i) = ground arith
append-nil (_ ∷ _) none = ground arith
append-nil (_ ∷ _) (some i) = ground arith

source_iff :
    (p c : SchemaField)
    → (check_source p c ≡ none)
      ↔ ((child_field_source c ≡ none) ⊎ (child_field_source c ≡ some p.extract))
unfolding check_source
source_iff p c = elim (Option-cases (child_field_source c)) [
  | inl e ↦ ground (e, arith)
  | inr (s, e) ↦ ground (e, arith, eq_iff s p.extract)
]

type_iff :
    (p c : SchemaField)
    → (check_type p c ≡ none) ↔ ((p.type ≡ c.type) ⊎ ((p.type ≡ "string") × (c.type ≡ "enum")))
unfolding check_type
type_iff p c = ground (arith, eq_iff p.type c.type, eq_iff p.type "string", eq_iff c.type "enum")

added-nil : (cs ps : List String) → (added_values cs ps ≡ []) ↔ All (λ v. In v ps) cs
unfolding added_values
added-nil [] ps = ground arith
added-nil (c ∷ cs) ps = ground (arith, contains_iff c ps, added-nil cs ps)

pub nil_iff : (xs : List String) → (is_nil xs ≡ true) ↔ (xs ≡ [])
nil_iff [] = ground arith
nil_iff (_ ∷ _) = ground arith

values_iff :
    (p c : SchemaField)
    → (check_values p c ≡ none) ↔ (
        p.type ≡ "enum"
        → c.type ≡ "enum"
        → p.values ≢ []
        → c.values ≢ []
        → All (λ v. In v p.values) c.values)
unfolding check_values
values_iff p c = ground (
  arith,
  eq_iff p.type "enum",
  eq_iff c.type "enum",
  added-nil c.values p.values,
  nil_iff p.values,
  nil_iff c.values,
  nil_iff (added_values c.values p.values),
)

required_iff :
    (p c : SchemaField)
    → (check_required p c ≡ none)
      ↔ (p.required ≡ true → (c.required ≡ true) ⊎ (c.required_match ≢ none))
unfolding check_required
required_iff p c = elim (Option-cases c.required_match) [
  | inl e ↦ ground (arith, e)
  | inr (m, e) ↦ ground (arith, e)
]

loosened_iff :
    (s t : String) (o d : Option ℕ)
    → (loosened
          (elim o as (λ _. Option (String × ℕ)) [ none ↦ none | some n ↦ some (s, n) ])
          (elim d as (λ _. Option (String × ℕ)) [ none ↦ none | some n ↦ some (t, n) ])
        ≡ none)
      ↔ NotBelow o d
unfolding loosened
loosened_iff s t none _ = ground arith
loosened_iff s t (some n) none = ground arith
loosened_iff s t (some n) (some m) = ground arith

severity_iff :
    (p c : SchemaField) → (check_severity p c ≡ none) ↔ NotBelow (rank p.severity) (rank c.severity)
unfolding check_severity normalized_severity
severity_iff p c = loosened_iff _ _ (rank p.severity) (rank c.severity)

all-none :
    (a b c d e : Option Issue)
    → (append_issue (append_issue (append_issue (append_issue (append_issue [] a) b) c) d) e ≡ [])
      ↔ ((a ≡ none) × (b ≡ none) × (c ≡ none) × (d ≡ none) × (e ≡ none))
all-none a b c d e = ground (
  arith,
  append-nil [] a,
  append-nil (append_issue [] a) b,
  append-nil (append_issue (append_issue [] a) b) c,
  append-nil (append_issue (append_issue (append_issue [] a) b) c) d,
  append-nil (append_issue (append_issue (append_issue (append_issue [] a) b) c) d) e,
)

-- The check finds no issue just where the child's field keeps what the parent's promises.
pub check_field_compatibility-eq-nil :
    (p c : SchemaField) → (check_field_compatibility p c ≡ []) ↔ IsCompatible p c
unfolding check_field_compatibility
check_field_compatibility-eq-nil p c = (
  λ h.
      let n = (all-none _ _ _ _ _).0 h in
      record {
        source = (source_iff p c).0 n.0;
        type = (type_iff p c).0 n.1;
        values = (values_iff p c).0 n.2;
        required = (required_iff p c).0 n.3;
        severity = (severity_iff p c).0 n.4;
      },
  λ h. (all-none _ _ _ _ _).1 (
    (source_iff p c).1 h.source,
    (type_iff p c).1 h.type,
    (values_iff p c).1 h.values,
    (required_iff p c).1 h.required,
    (severity_iff p c).1 h.severity,
  ),
)
