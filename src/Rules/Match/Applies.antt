-- ===== src/Rules/Match/Applies.antt =====
-- applyConfig: what a config makes of a field.
use rootline.Base.{
  ◌<◌, String, ◌≡◌, ◌≢◌, ◌⊎◌, inl, inr, refl, sym, ◌∙◌, ap, subst, Option, none, some, some_inj,
  ◌==◌, eq_iff, arith, Bool-cases, ltb,
}
use rootline.Base.Int.{ℤ, pos, negsuc}
use rootline.Value.{Value, Fields, null, str, bool, int, float, time, seq, mapping, other, get}
use rootline.Rules.{SchemaField}
use rootline.Rules.Contract.Declarations.{
  Applied, applied, refused, apply_sequence_config, strict_config_digits,
}
use rootline.Rules.Contract.Declarations.Sequences.{IsConfigured, apply_sequence_config_iff}
use rootline.Rules.Match.{apply_config, set_prefix, set_digits}

-- An int that Go's strictConfigDigits reads.
abbrev pub IsRead : ℤ → Type 0
IsRead (pos n) = n < 9223372036854775808
IsRead (negsuc n) = Unit

-- What applyConfig makes of a field: a sequence needs a config that completes it; any other field
-- takes the prefix and the digits that are a text and an int, and keeps its own otherwise.
pub data IsApplied (f : SchemaField) (config : Fields) (g : SchemaField) : Type 0 where
  to_sequence : f.type ≡ "sequence" → IsConfigured f config g → IsApplied f config g
  to_other :
      f.type ≢ "sequence"
      → (prefix : String) (digits : ℤ)
      → (get "prefix" config ≡ some (str prefix))
        ⊎ (((s : String) → get "prefix" config ≢ some (str s)) × (prefix ≡ f.prefix))
      → ((get "digits" config ≡ some (int digits)) × IsRead digits)
        ⊎ (((d : ℤ) → IsRead d → get "digits" config ≢ some (int d)) × (digits ≡ f.digits))
      → g ≡ record f { prefix = prefix; digits = digits }
      → IsApplied f config g

prefix_taken :
    (f : SchemaField) (o : Option Value)
    → (p : String) × ((o ≡ some (str p)) ⊎ (((s : String) → o ≢ some (str s)) × (p ≡ f.prefix)))
      × (set_prefix f o ≡ record f { prefix = p })
prefix_taken f none = (f.prefix, inr (λ t e. ground (arith, e), refl), refl)
prefix_taken f (some (str s)) = (s, inl refl, refl)
prefix_taken f (some null) = (f.prefix, inr (λ t e. ground (arith, e), refl), refl)
prefix_taken f (some (bool b)) = (f.prefix, inr (λ t e. ground (arith, e), refl), refl)
prefix_taken f (some (int n)) = (f.prefix, inr (λ t e. ground (arith, e), refl), refl)
prefix_taken f (some (float s)) = (f.prefix, inr (λ t e. ground (arith, e), refl), refl)
prefix_taken f (some (time s)) = (f.prefix, inr (λ t e. ground (arith, e), refl), refl)
prefix_taken f (some (seq vs)) = (f.prefix, inr (λ t e. ground (arith, e), refl), refl)
prefix_taken f (some (mapping m)) = (f.prefix, inr (λ t e. ground (arith, e), refl), refl)
prefix_taken f (some (other a b)) = (f.prefix, inr (λ t e. ground (arith, e), refl), refl)

int_inj : {a b : ℤ} → some (int a) ≡ some (int b) → a ≡ b
int_inj h = cc

digits_taken :
    (f : SchemaField) (o : Option Value)
    → (d : ℤ) × (((o ≡ some (int d)) × IsRead d)
        ⊎ (((e : ℤ) → IsRead e → o ≢ some (int e)) × (d ≡ f.digits)))
      × (set_digits f o ≡ record f { digits = d })
unfolding strict_config_digits
digits_taken f none = (f.digits, inr (λ d r e. ground (arith, e), refl), refl)
digits_taken f (some (int (pos n))) = elim (Bool-cases (ltb n 9223372036854775808)) [
  | inl e ↦ (pos n, inl (refl, ground (arith, e)), rw (e, set_digits) refl)
  | inr e ↦ (
    f.digits,
    inr (
      λ d r q.
          let small : n < 9223372036854775808 = subst IsRead (sym (int_inj q)) r in
          ground (arith, e, small),
      refl,
    ),
    rw (e, set_digits) refl,
  )
]
digits_taken f (some (int (negsuc n))) = (negsuc n, inl (refl, tt), refl)
digits_taken f (some null) = (f.digits, inr (λ d r e. ground (arith, e), refl), refl)
digits_taken f (some (bool b)) = (f.digits, inr (λ d r e. ground (arith, e), refl), refl)
digits_taken f (some (float s)) = (f.digits, inr (λ d r e. ground (arith, e), refl), refl)
digits_taken f (some (time s)) = (f.digits, inr (λ d r e. ground (arith, e), refl), refl)
digits_taken f (some (seq vs)) = (f.digits, inr (λ d r e. ground (arith, e), refl), refl)
digits_taken f (some (mapping m)) = (f.digits, inr (λ d r e. ground (arith, e), refl), refl)
digits_taken f (some (other a b)) = (f.digits, inr (λ d r e. ground (arith, e), refl), refl)
digits_taken f (some (str s)) = (f.digits, inr (λ d r e. ground (arith, e), refl), refl)

Applied-cases :
    (r : Applied) → ((g : SchemaField) × (r ≡ applied g)) ⊎ ((a : String) × (r ≡ refused a))
Applied-cases (applied g) = inl (g, refl)
Applied-cases (refused a) = inr (a, refl)

pub apply_config-IsApplied :
    (f g : SchemaField) (config : Fields) → apply_config f config ≡ some g → IsApplied f config g
unfolding apply_config
apply_config-IsApplied f g config h = elim (Bool-cases (f.type == "sequence")) [
  | inl e ↦ elim (Applied-cases (apply_sequence_config f config)) [
    | inl (made, q) ↦
        let same : some made ≡ some g = ground (arith, e, q, h) in
        to_sequence ((eq_iff f.type "sequence").0 e)
          ((apply_sequence_config_iff f g config).0 (q ∙ ap applied (some_inj same)))
    | inr (a, q) ↦ absurd (ground (arith, e, q, h))
  ]
  | inr e ↦
      let (p, taken, at) = prefix_taken f (get "prefix" config) in
      let named = record f { prefix = p } in
      let (d, read, by) = digits_taken named (get "digits" config) in
      let same : some (set_digits (set_prefix f (get "prefix" config)) (get "digits" config))
          ≡ some g =
        rw e at h in
      to_other (λ q. ground (arith, e, (eq_iff f.type "sequence").1 q)) p d taken read
        (sym (some_inj same) ∙ ap (λ z. set_digits z (get "digits" config)) at ∙ by)
]
