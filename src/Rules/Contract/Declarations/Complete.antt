-- ===== src/Rules/Contract/Declarations/Complete.antt =====
-- validateSequenceDeclaration: which sequences are complete.
use rootline.Base.{
  ℕ, ◌<◌, String, ◌≡◌, ◌≢◌, ◌↔◌, ◌⊎◌, inl, inr, refl, sym, ◌∙◌, ap, none, some, List, [], ◌∷◌, true,
  false, ◌==◌, ◌||◌, not, eq_iff, arith, Bool-cases, Option-cases, In, if◌then◌else◌,
}
use rootline.Base.Int.{pos, is_positive}
use rootline.Base.Sort.{sort, In-sort}
use rootline.Base.Text.{str_le}
use rootline.Value.{
  Value, Fields, null, str, bool, int, float, time, seq, mapping, other, end, field, get,
}
use rootline.Rules.{SchemaField, is_nil}
use rootline.Rules.Contract.Declarations.{
  Applied, applied, refused, keys_of, apply_sequence_config, configs_of, config_issue,
  first_config_issue, validate_sequence_declaration,
}
use rootline.Rules.Contract.Declarations.Sequences.{
  IsConfigured, In-keys_of, positive_iff, refused-ne-applied, apply_sequence_config_iff,
}

-- A complete declaration: the field's own prefix and digits, where no pattern has a config, and else a
-- map at each pattern that makes the sequence complete.
pub record IsSequence (f : SchemaField) : Type 0 where
  pub plain : configs_of f.match ≡ end → (f.prefix ≢ "") × ((n : ℕ) × (0 < n) × (f.digits ≡ pos n))
  pub configured :
      (pattern : String) (v : Value)
      → get pattern (configs_of f.match) ≡ some v
      → (config : Fields) × (g : SchemaField) × (v ≡ mapping config) × IsConfigured f config g

Applied-cases :
    (r : Applied) → ((g : SchemaField) × (r ≡ applied g)) ⊎ ((a : String) × (r ≡ refused a))
Applied-cases (applied g) = inl (g, refl)
Applied-cases (refused a) = inr (a, refl)

mapping_inj : {a b : Fields} → mapping a ≡ mapping b → a ≡ b
mapping_inj h = cc

none_at : (p : String) (v : Value) → ¬ (get p end ≡ some v)
unfolding get
none_at p v h = ground (arith, h)

config_issue_iff :
    (f : SchemaField) (v : Value)
    → (config_issue f (some v) ≡ none)
      ↔ ((config : Fields) × (g : SchemaField) × (v ≡ mapping config) × IsConfigured f config g)
unfolding config_issue
config_issue_iff f (mapping m) = elim (Applied-cases (apply_sequence_config f m)) [
  | inl (g, e) ↦ (λ _. (m, g, refl, (apply_sequence_config_iff f g m).0 e), λ _. ground (arith, e))
  | inr (a, e) ↦ (
    λ h. absurd (ground (arith, e, h)),
    λ (config, g, same, c).
        let made = (apply_sequence_config_iff f g config).1 c in
        let again : apply_sequence_config f m ≡ applied g =
          ap (apply_sequence_config f) (mapping_inj same) ∙ made in
        absurd (refused-ne-applied (sym e ∙ again)),
  )
]
config_issue_iff f null = (λ h. absurd (ground (arith, h)), λ h. absurd (ground (arith, h.2)))
config_issue_iff f (str s) = (λ h. absurd (ground (arith, h)), λ h. absurd (ground (arith, h.2)))
config_issue_iff f (bool b) = (λ h. absurd (ground (arith, h)), λ h. absurd (ground (arith, h.2)))
config_issue_iff f (int n) = (λ h. absurd (ground (arith, h)), λ h. absurd (ground (arith, h.2)))
config_issue_iff f (float s) = (λ h. absurd (ground (arith, h)), λ h. absurd (ground (arith, h.2)))
config_issue_iff f (time s) = (λ h. absurd (ground (arith, h)), λ h. absurd (ground (arith, h.2)))
config_issue_iff f (seq vs) = (λ h. absurd (ground (arith, h)), λ h. absurd (ground (arith, h.2)))
config_issue_iff f (other a b) =
    (λ h. absurd (ground (arith, h)), λ h. absurd (ground (arith, h.2)))

first_config_issue_iff :
    (f : SchemaField) (configs : Fields) (ps : List String)
    → (first_config_issue f configs ps ≡ none)
      ↔ ((p : String) → In p ps → config_issue f (get p configs) ≡ none)
unfolding first_config_issue
first_config_issue_iff f configs [] = (λ h p m. absurd m, λ h. refl)
first_config_issue_iff f configs (q ∷ ps) = elim (Option-cases (config_issue f (get q configs))) [
  | inr (i, e) ↦
      (λ h. absurd (ground (arith, e, h)), λ h. absurd (ground (arith, e, h q (inl refl))))
  | inl e ↦
      let ih = first_config_issue_iff f configs ps in
      (
        λ h p m. elim m [
          | inl same ↦ ap (λ z. config_issue f (get z configs)) same ∙ e
          | inr n ↦ ih.0 (ground (arith, e, h)) p n
        ],
        λ h. let rest = ih.1 (λ p m. h p (inr m)) in ground (arith, e, rest),
      )
]

end_iff : (m : Fields) → (is_nil (keys_of m) ≡ true) ↔ (m ≡ end)
unfolding keys_of
end_iff end = (λ _. refl, λ _. refl)
end_iff (field k v m) = (λ h. absurd (ground (arith, h)), λ h. absurd (ground (arith, h)))

plain_iff :
    (f : SchemaField)
    → ((if f.prefix == "" || not (is_positive f.digits) then false else true) ≡ true)
      ↔ ((f.prefix ≢ "") × ((n : ℕ) × (0 < n) × (f.digits ≡ pos n)))
plain_iff f = (
  λ h. (
    λ q. ground (arith, h, (eq_iff f.prefix "").1 q),
    (positive_iff f.digits).0 (ground (arith, h)),
  ),
  λ h.
      let positive = (positive_iff f.digits).1 h.1 in
      ground (arith, h.0, positive, eq_iff f.prefix ""),
)

-- A sequence is declared without an issue just where the declaration is complete.
pub validate_sequence_declaration_iff :
    (f : SchemaField) → (validate_sequence_declaration f ≡ none) ↔ IsSequence f
unfolding validate_sequence_declaration
validate_sequence_declaration_iff f =
    let configs = configs_of f.match in
    elim (Bool-cases (is_nil (keys_of configs))) [
      | inl e ↦
          let no_configs = (end_iff configs).0 e in
          (
            λ h. record {
              plain = λ _. (plain_iff f).0 (ground (arith, e, h));
              configured = λ p v q. absurd (none_at p v (ap (get p) (sym no_configs) ∙ q));
            },
            λ c. let good = (plain_iff f).1 (c.plain no_configs) in ground (arith, e, good),
          )
      | inr e ↦
          let ps = sort str_le (keys_of configs) in
          let each = first_config_issue_iff f configs ps in
          (
            λ h. record {
              plain = λ q. absurd (ground (arith, e, (end_iff configs).1 q));
              configured = λ p v q.
                  let listed =
                    (In-sort str_le p (keys_of configs)).1 ((In-keys_of p configs).1 (v, q)) in
                  let issue = each.0 (ground (arith, e, h)) p listed in
                  (config_issue_iff f v).0 (ap (config_issue f) (sym q) ∙ issue);
            },
            λ c.
                let all = each.1 (λ p m.
                  let (v, q) =
                    (In-keys_of p configs).0 ((In-sort str_le p (keys_of configs)).0 m) in
                  ap (config_issue f) q ∙ (config_issue_iff f v).1 (c.configured p v q)) in
                ground (arith, e, all),
          )
    ]
