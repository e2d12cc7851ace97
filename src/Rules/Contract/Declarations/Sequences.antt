-- ===== src/Rules/Contract/Declarations/Sequences.antt =====
-- applySequenceConfig: which configs are applied, and what they make of a field.
use rootline.Base.{
  ℕ, zero, suc, ◌<◌, String, ◌≡◌, ◌≢◌, ◌↔◌, ◌⊎◌, inl, inr, refl, sym, ◌∙◌, ap, subst, Option, none,
  some, some_inj, List, [], ◌∷◌, true, ◌==◌, ◌||◌, not, eq_iff, arith, Bool-cases, Option-cases, In,
  In-select, select, ltb,
}
use rootline.Base.Int.{ℤ, pos, negsuc, is_positive}
use rootline.Base.Sort.{sort, In-sort}
use rootline.Base.Text.{str_le}
use rootline.Value.{
  Value, Fields, null, str, bool, int, float, time, seq, mapping, other, end, field, get,
}
use rootline.Rules.{SchemaField, is_nil}
use rootline.Rules.Contract.Declarations.{
  applied, refused, keys_of, unknown_sequence_config_keys, strict_config_digits, config_prefix,
  config_digits, effective_config, apply_sequence_config,
}

-- The prefix is the config's, a text that is not empty, or else the field's own.
abbrev pub PrefixOf : SchemaField → Option Value → String → Type 0
PrefixOf f o p = ((o ≡ none) × (p ≡ f.prefix)) ⊎ (o ≡ some (str p))

-- The number of digits is the config's, an int, or else the field's own.
abbrev pub DigitsOf : SchemaField → Option Value → ℕ → Type 0
DigitsOf f o n =
    ((o ≡ none) × (f.digits ≡ pos n)) ⊎ ((o ≡ some (int (pos n))) × (n < 9223372036854775808))

-- What a config makes of a field: it has no key but prefix and digits; the prefix is not empty and the
-- number of digits is positive; all else stays as it is.
pub record IsConfigured (f : SchemaField) (config : Fields) (g : SchemaField) : Type 0 where
  pub known : (k : String) (v : Value) → get k config ≡ some v → (k ≡ "prefix") ⊎ (k ≡ "digits")
  pub prefix : String
  pub size : ℕ
  pub prefix_of : PrefixOf f (get "prefix" config) prefix
  pub digits_of : DigitsOf f (get "digits" config) size
  pub named : prefix ≢ ""
  pub positive : 0 < size
  pub result : g ≡ record f { prefix = prefix; digits = pos size }

pub In-keys_of : (k : String) (m : Fields) → In k (keys_of m) ↔ ((v : Value) × (get k m ≡ some v))
unfolding keys_of get
In-keys_of k end = (λ h. absurd h, λ h. absurd (ground (arith, h.1)))
In-keys_of k (field j w m) = elim (Bool-cases (j == k)) [
  | inl e ↦ (λ _. (w, ground (arith, e)), λ _. inl (sym ((eq_iff j k).0 e)))
  | inr e ↦ (
    λ h. elim h [
      | inl q ↦ absurd (ground (arith, e, (eq_iff j k).1 (sym q)))
      | inr n ↦ let (v, q) = (In-keys_of k m).0 n in (v, ground (arith, e, q))
    ],
    λ h. inr ((In-keys_of k m).1 (h.0, ground (arith, e, h.1))),
  )
]

nil_iff_empty : {A : Type 0} (xs : List A) → (is_nil xs ≡ true) ↔ ((a : A) → ¬ In a xs)
nil_iff_empty [] = (λ _ a m. m, λ _. refl)
nil_iff_empty (x ∷ xs) = (λ h. absurd (ground (arith, h)), λ h. absurd (h x (inl refl)))

known_iff :
    (config : Fields)
    → (is_nil (unknown_sequence_config_keys config) ≡ true)
      ↔ ((k : String) (v : Value) → get k config ≡ some v → (k ≡ "prefix") ⊎ (k ≡ "digits"))
unfolding unknown_sequence_config_keys
known_iff config =
    let unknown = λ (k : String). not (k == "prefix" || k == "digits") in
    let picked = select unknown (keys_of config) in
    let at = λ (k : String). In-select unknown k (keys_of config) in
    (
      λ h k v e.
          let absent = (nil_iff_empty (sort str_le picked)).0 h k in
          let listed = (In-keys_of k config).1 (v, e) in
          elim (Bool-cases (unknown k)) [
            | inl u ↦ absurd (absent ((In-sort str_le k picked).1 ((at k).1 (listed, u))))
            | inr u ↦ ground (arith, u, eq_iff k "prefix", eq_iff k "digits")
          ],
      λ f. (nil_iff_empty (sort str_le picked)).1 (λ k m.
          let (listed, u) = (at k).0 ((In-sort str_le k picked).0 m) in
          let (v, e) = (In-keys_of k config).0 listed in
          ground (arith, u, f k v e, eq_iff k "prefix", eq_iff k "digits")),
    )

prefix_read :
    (f g : SchemaField) (o : Option Value)
    → config_prefix f o ≡ some g
    → (p : String) × PrefixOf f o p × (g ≡ record f { prefix = p })
unfolding config_prefix
prefix_read f g none h = (f.prefix, inl (refl, refl), sym (some_inj h))
prefix_read f g (some (str s)) h = elim (Bool-cases (s == "")) [
  | inl e ↦ absurd (ground (arith, e, h))
  | inr e ↦
      let same : some (record f { prefix = s }) ≡ some g = ground (arith, e, h) in
      (s, inr refl, sym (some_inj same))
]
prefix_read f g (some v) h = absurd (ground (arith, h))

prefix_given :
    (f : SchemaField) (o : Option Value) (p : String)
    → PrefixOf f o p
    → p ≢ ""
    → config_prefix f o ≡ some (record f { prefix = p })
unfolding config_prefix
prefix_given f o p (inl (e, q)) named = rw e (ap (λ z. some (record f { prefix = z })) (sym q))
prefix_given f o p (inr e) named = elim (Bool-cases (p == "")) [
  | inl q ↦ absurd (named ((eq_iff p "").0 q))
  | inr q ↦ rw e (rw q refl)
]

size_positive : (n : ℕ) → is_positive (pos n) ≡ true → 0 < n
unfolding is_positive
size_positive zero h = absurd (ground (arith, h))
size_positive (suc n) h = omega arith

strict_iff :
    (v : Value) (d : ℤ)
    → strict_config_digits v ≡ some d
    → is_positive d ≡ true
    → (n : ℕ) × (0 < n) × (d ≡ pos n) × (v ≡ int (pos n)) × (n < 9223372036854775808)
unfolding strict_config_digits is_positive
strict_iff (int (pos n)) d h k = elim (Bool-cases (ltb n 9223372036854775808)) [
  | inl e ↦
      let same : some (pos n) ≡ some d = ground (arith, e, h) in
      let at : is_positive (pos n) ≡ true = ap is_positive (some_inj same) ∙ k in
      (n, size_positive n at, sym (some_inj same), refl, ground (arith, e))
  | inr e ↦ absurd (ground (arith, e, h))
]
strict_iff (int (negsuc n)) d h k = absurd (ground (arith, ap is_positive (some_inj h) ∙ k))
strict_iff null d h k = absurd (ground (arith, h))
strict_iff (str s) d h k = absurd (ground (arith, h))
strict_iff (bool b) d h k = absurd (ground (arith, h))
strict_iff (float s) d h k = absurd (ground (arith, h))
strict_iff (time s) d h k = absurd (ground (arith, h))
strict_iff (seq vs) d h k = absurd (ground (arith, h))
strict_iff (mapping m) d h k = absurd (ground (arith, h))
strict_iff (other a b) d h k = absurd (ground (arith, h))

pub positive_iff : (d : ℤ) → (is_positive d ≡ true) ↔ ((n : ℕ) × (0 < n) × (d ≡ pos n))
unfolding is_positive
positive_iff (pos zero) = (λ h. absurd (ground (arith, h)), λ h. absurd (ground (arith, h.1, h.2)))
positive_iff (pos (suc n)) = (λ _. (suc n, omega arith, refl), λ _. refl)
positive_iff (negsuc n) = (λ h. absurd (ground (arith, h)), λ h. absurd (ground (arith, h.2)))

digits_read :
    (f g : SchemaField) (o : Option Value)
    → config_digits f o ≡ some g
    → is_positive g.digits ≡ true
    → (n : ℕ) × (0 < n) × DigitsOf f o n × (g ≡ record f { digits = pos n })
unfolding config_digits
digits_read f g none h k =
    let same = some_inj h in
    let (n, size, e) = (positive_iff f.digits).0 (ap (λ z. is_positive z.digits) same ∙ k) in
    (n, size, inl (refl, e), sym same ∙ ap (λ d. record f { digits = d }) e)
digits_read f g (some v) h k = elim (Option-cases (strict_config_digits v)) [
  | inl e ↦ absurd (ground (arith, e, h))
  | inr (d, e) ↦ elim (Bool-cases (is_positive d)) [
    | inr q ↦ absurd (ground (arith, e, q, h))
    | inl q ↦
        let same : some (record f { digits = d }) ≡ some g = ground (arith, e, q, h) in
        let (n, size, at, is, bound) = strict_iff v d e q in
        (
          n,
          size,
          inr (ap some is, bound),
          sym (some_inj same) ∙ ap (λ z. record f { digits = z }) at,
        )
  ]
]

digits_given :
    (f : SchemaField) (o : Option Value) (n : ℕ)
    → DigitsOf f o n
    → 0 < n
    → config_digits f o ≡ some (record f { digits = pos n })
unfolding config_digits strict_config_digits
digits_given f o n (inl (e, q)) size = rw e (ap (λ z. some (record f { digits = z })) q)
digits_given f o n (inr (e, bound)) size =
    let small : ltb n 9223372036854775808 ≡ true = ground (arith, bound) in
    let positive : is_positive (pos n) ≡ true = (positive_iff (pos n)).1 (n, size, refl) in
    rw e (ground (arith, small, positive))

abbrev with_digits : SchemaField → ℕ → SchemaField
with_digits f n = record f { digits = pos n }

applied_inj : {a b : SchemaField} → applied a ≡ applied b → a ≡ b
applied_inj h = cc

pub refused-ne-applied : {actual : String} {f : SchemaField} → ¬ (refused actual ≡ applied f)
refused-ne-applied h = cc

effective_iff :
    (f g : SchemaField)
    → (effective_config f ≡ applied g) ↔ ((f ≡ g) × (f.prefix ≢ "") × (is_positive f.digits ≡ true))
unfolding effective_config
effective_iff f g = elim (Bool-cases (f.prefix == "" || not (is_positive f.digits))) [
  | inl e ↦ (
    λ h. absurd (ground (arith, e, h)),
    λ h. absurd (ground (arith, e, h.1, h.2, eq_iff f.prefix "")),
  )
  | inr e ↦ (
    λ h.
        let same : applied f ≡ applied g = ground (arith, e, h) in
        (applied_inj same, λ q. ground (arith, e, (eq_iff f.prefix "").1 q), ground (arith, e)),
    λ h. rw e (ap applied h.0),
  )
]

-- The three steps of applySequenceConfig.
apply_steps :
    (f g : SchemaField) (config : Fields)
    → (apply_sequence_config f config ≡ applied g) ↔ (
        (is_nil (unknown_sequence_config_keys config) ≡ true)
        × ((a b : SchemaField) × (config_prefix f (get "prefix" config) ≡ some a)
            × (config_digits a (get "digits" config) ≡ some b)
            × (effective_config b ≡ applied g)))
unfolding apply_sequence_config
apply_steps f g config = elim (Bool-cases (is_nil (unknown_sequence_config_keys config))) [
  | inr e ↦ (λ h. absurd (ground (arith, e, h)), λ h. absurd (ground (arith, e, h.0)))
  | inl e ↦ elim (Option-cases (config_prefix f (get "prefix" config))) [
    | inl k ↦ (
      λ h. absurd (ground (arith, e, k, h)),
      λ h. let (a, b, p, q, r) = h.1 in absurd (ground (arith, k, p)),
    )
    | inr (a, k) ↦ elim (Option-cases (config_digits a (get "digits" config))) [
      | inl m ↦ (
        λ h. absurd (ground (arith, e, k, m, h)),
        λ h.
            let (c, b, p, q, r) = h.1 in
            let same = some_inj (sym k ∙ p) in
            let again : config_digits a (get "digits" config) ≡ some b =
              ap (λ z. config_digits z (get "digits" config)) same ∙ q in
            absurd (ground (arith, m, again)),
      )
      | inr (b, m) ↦
          let steps : apply_sequence_config f config ≡ effective_config b =
            rw (e, k, m, apply_sequence_config) refl in
          (
            λ h. (e, (a, b, k, m, sym steps ∙ h)),
            λ h.
                let (c, d, p, q, r) = h.1 in
                let first = some_inj (sym k ∙ p) in
                let again : config_digits a (get "digits" config) ≡ some d =
                  ap (λ z. config_digits z (get "digits" config)) first ∙ q in
                steps ∙ ap effective_config (some_inj (sym m ∙ again)) ∙ r,
          )
    ]
  ]
]

-- A config is applied just where it and the field together make a complete sequence, and then the
-- result is the field with the prefix and the digits that count: the config's, or else its own.
pub apply_sequence_config_iff :
    (f g : SchemaField) (config : Fields)
    → (apply_sequence_config f config ≡ applied g) ↔ IsConfigured f config g
apply_sequence_config_iff f g config = (
  λ h.
      let (clean, steps) = (apply_steps f g config).0 h in
      let (a, b, first, second, third) = steps in
      let (same, named, positive) = (effective_iff b g).0 third in
      let (p, prefix_of, at) = prefix_read f a (get "prefix" config) first in
      let (n, size, digits_of, by) = digits_read a b (get "digits" config) second positive in
      let prefixed : record a { digits = pos n } ≡ record f { prefix = p; digits = pos n } =
        ap (λ (z : SchemaField). with_digits z n) at in
      let built : b ≡ record f { prefix = p; digits = pos n } = by ∙ prefixed in
      record {
        known = (known_iff config).0 clean;
        prefix = p;
        size = n;
        prefix_of = prefix_of;
        digits_of = subst (λ z. DigitsOf z (get "digits" config) n) at digits_of;
        named = subst (λ z. z.prefix ≢ "") built named;
        positive = size;
        result = sym same ∙ built;
      },
  λ c.
      let whole = record f { prefix = c.prefix; digits = pos c.size } in
      (apply_steps f g config).1 (
        (known_iff config).1 c.known,
        (
          record f { prefix = c.prefix },
          whole,
          prefix_given f (get "prefix" config) c.prefix c.prefix_of c.named,
          digits_given (record f { prefix = c.prefix }) (get "digits" config) c.size c.digits_of
              c.positive,
          (effective_iff whole g).1
              (sym c.result, c.named, (positive_iff (pos c.size)).1 (c.size, c.positive, refl)),
        ),
      ),
)
