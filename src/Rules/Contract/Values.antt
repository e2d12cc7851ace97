-- ===== src/Rules/Contract/Values.antt =====
-- ValidateFieldValue: which values a field accepts.
use Prim.Native.String.{◌++◌, len}
use text.Mathlib.TextLemmas.{append-eq-nil_iff}
use Prim.Native.Char.{code}
use rootline.Base.{
  ℕ, ◌≤◌, String, ◌≡◌, ◌≢◌, ◌↔◌, inl, inr, refl, sym, ◌∙◌, ap, ap₂, none, some, List, [], ◌∷◌, true,
  eq_iff, In, arith, Option-cases, List-cases,
}
use rootline.Base.Int.{ℤ, pos, negsuc, is_positive}
use rootline.Value.{Value, str}
use rootline.Value.Print.{print}
use rootline.Query.Text.{trim_prefix, trim_prefix_iff}
use rootline.Rules.{SchemaField}
use rootline.Rules.Contract.Digits.{decimal_digits, all_digits, has_length}
use rootline.Rules.Contract.{
  representation_name, representation_ok, validate_representation, enum_contains, sequence_ok,
  as_text, enum_issue, sequence_issue, validate_type_semantics, validate_field_value,
}

-- A value is accepted where both its representation and its meaning are.
pub accepted_iff :
    (f : SchemaField) (v : Value)
    → (validate_field_value f v ≡ none)
      ↔ ((validate_representation f.type v ≡ none) × (validate_type_semantics f v ≡ none))
unfolding validate_field_value
accepted_iff f v = elim (Option-cases (validate_representation f.type v)) [
  | inl e ↦ ground (arith, e)
  | inr (i, e) ↦ ground (arith, e)
]

pub enum_contains_iff :
    (values : List String) (v : Value) → (enum_contains values v ≡ true) ↔ In (print v) values
unfolding enum_contains
enum_contains_iff [] v = ground arith
enum_contains_iff (x ∷ xs) v = ground (arith, eq_iff x (print v), enum_contains_iff xs v)

pub enum_issue-eq-none :
    (f : SchemaField) (v : Value) → (enum_issue f v ≡ none) ↔ In (print v) f.values
unfolding enum_issue
enum_issue-eq-none f v = elim (List-cases f.values) [
  | inl e ↦ rw (e, enum_issue) (ground arith)
  | inr (x, xs, e) ↦ ground (arith, e, enum_contains_iff f.values v)
]

cut :
    (prefix s ds : String) (digits : ℤ)
    → trim_prefix prefix s ≡ some ds
    → sequence_ok prefix digits s ≡ decimal_digits ds digits
unfolding sequence_ok
cut prefix s ds digits e = rw (e, sequence_ok) refl

uncut :
    (prefix s : String) (digits : ℤ)
    → trim_prefix prefix s ≡ none
    → ¬ (sequence_ok prefix digits s ≡ true)
unfolding sequence_ok
uncut prefix s digits e h = ground (arith, e, h)

-- The characters 0 to 9, and no other.
abbrev pub AreDigits : String → Type 0
AreDigits String.[] = Unit
AreDigits (String.◌∷◌ c s) = (b'0' ≤ code c) × (code c ≤ b'9') × AreDigits s

all_digits_iff : (s : String) → (all_digits s ≡ true) ↔ AreDigits s
unfolding all_digits
all_digits_iff String.[] = ground arith
all_digits_iff (String.◌∷◌ c s) = ground (arith, all_digits_iff s)

has_length_iff : (n : ℕ) (want : ℤ) → (has_length n want ≡ true) ↔ (want ≡ pos n)
unfolding has_length
has_length_iff n (pos want) = ground arith
has_length_iff n (negsuc want) = ground arith

digits_iff :
    (ds : String) (digits : ℤ)
    → (decimal_digits ds digits ≡ true)
      ↔ ((has_length (len ds) digits ≡ true) × (all_digits ds ≡ true))
unfolding decimal_digits
digits_iff ds digits = ground arith

sequence_ok_iff :
    (prefix s : String) (digits : ℤ)
    → (sequence_ok prefix digits s ≡ true) ↔ (
        (ds : String) × (s ≡ prefix ++ ds)
        × (all_digits ds ≡ true)
        × (has_length (len ds) digits ≡ true))
sequence_ok_iff prefix s digits = (
  λ h. elim (Option-cases (trim_prefix prefix s)) [
    | inl e ↦ absurd (uncut prefix s digits e h)
    | inr (ds, e) ↦
        let (sized, decimal) = (digits_iff ds digits).0 (sym (cut prefix s ds digits e) ∙ h) in
        (ds, (trim_prefix_iff prefix s ds).0 e, decimal, sized)
  ],
  λ h.
      cut prefix s h.0 digits ((trim_prefix_iff prefix s h.0).1 h.1)
      ∙ (digits_iff h.0 digits).1 (h.3, h.2),
)

at_sequence :
    (f : SchemaField) (v : Value)
    → f.type ≡ "sequence"
    → validate_type_semantics f v ≡ sequence_issue f v
unfolding validate_type_semantics
at_sequence f v t = rw (t, validate_type_semantics) refl

sequence_issue-eq-none :
    (f : SchemaField) (v : Value)
    → f.prefix ≢ ""
    → is_positive f.digits ≡ true
    → (sequence_issue f v ≡ none) ↔ (sequence_ok f.prefix f.digits (as_text v) ≡ true)
unfolding sequence_issue
sequence_issue-eq-none f v p d = ground (arith, p, d, eq_iff f.prefix "")

empty_fails : (prefix : String) (digits : ℤ) → prefix ≢ "" → ¬ (sequence_ok prefix digits "" ≡ true)
empty_fails prefix digits p h =
    p (append-eq-nil_iff.0 (sym ((sequence_ok_iff prefix "" digits).0 h).1)).0

only_text :
    (prefix : String) (digits : ℤ) (v : Value)
    → prefix ≢ ""
    → sequence_ok prefix digits (as_text v) ≡ true
    → (s : String) × (v ≡ str s) × (sequence_ok prefix digits s ≡ true)
unfolding as_text
only_text prefix digits (str s) p h = (s, refl, h)
only_text prefix digits v p h = absurd (empty_fails prefix digits p h)

spelled :
    (prefix : String) (digits : ℤ) (ds : String)
    → all_digits ds ≡ true
    → has_length (len ds) digits ≡ true
    → sequence_ok prefix digits (as_text (str (prefix ++ ds))) ≡ true
unfolding as_text
spelled prefix digits ds decimal sized =
    (sequence_ok_iff prefix (prefix ++ ds) digits).1 (ds, refl, decimal, sized)

text_fits : (s : String) → validate_representation "sequence" (str s) ≡ none
unfolding validate_representation representation_ok representation_name
text_fits s = refl

-- A complete sequence field accepts just the texts that are its prefix and then decimal digits, as
-- many as it declares.
pub sequence-accepts :
    (f : SchemaField) (v : Value)
    → f.type ≡ "sequence"
    → f.prefix ≢ ""
    → is_positive f.digits ≡ true
    → (validate_field_value f v ≡ none)
      ↔ ((ds : String) × (v ≡ str (f.prefix ++ ds)) × AreDigits ds × (f.digits ≡ pos (len ds)))
sequence-accepts f v t p d = (
  λ h.
      let means = sym (at_sequence f v t) ∙ ((accepted_iff f v).0 h).1 in
      let (s, e, ok) = only_text f.prefix f.digits v p ((sequence_issue-eq-none f v p d).0 means) in
      let (ds, q, decimal, sized) = (sequence_ok_iff f.prefix s f.digits).0 ok in
      (ds, e ∙ ap str q, (all_digits_iff ds).0 decimal, (has_length_iff (len ds) f.digits).0 sized),
  λ (ds, e, decimal, sized). (accepted_iff f v).1 (
    ap₂ validate_representation t e ∙ text_fits (f.prefix ++ ds),
    at_sequence f v t
        ∙ (sequence_issue-eq-none f v p d).1 (
            ap (λ w. sequence_ok f.prefix f.digits (as_text w)) e
            ∙ spelled f.prefix f.digits ds ((all_digits_iff ds).1 decimal)
                ((has_length_iff (len ds) f.digits).1 sized)),
  ),
)
