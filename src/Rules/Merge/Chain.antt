-- ===== src/Rules/Merge/Chain.antt =====
-- A chain of .stem files: no file below loosens what a file above declares.
use rootline.Base.{
  ℕ, ◌≤◌, String, ◌≡◌, inl, inr, sym, ◌∙◌, ap, subst, Option, none, some, List, [], ◌∷◌, ◌++◌, Bool,
  true, false, ◌==◌, arith, ltb, if◌then◌else◌, All, Option-cases, Bool-cases,
}
use rootline.Base.Dict.{lookup, IsDict}
use rootline.Rules.{SchemaField}
use rootline.Rules.Severity.{normalized_severity, severity_order, normal, rank}
use rootline.Rules.Merge.{
  merge_field_source, merge_field_severity, merged_field, StemEntry, empty_stem, merge_stem_files,
}
use rootline.Rules.Merge.SchemaLaws.{merged_at, field_along, lookup-merge_entries}

-- The field is there, and its severity is known and not below `n`.
abbrev pub AtLeast : ℕ → Option SchemaField → Type 0
AtLeast n none = ⊥
AtLeast n (some f) = (r : ℕ) × (rank f.severity ≡ some r) × (n ≤ r)

normal-normal : (s : String) → normal (normal s) ≡ normal s
unfolding normal
normal-normal s = elim (Bool-cases (s == "")) [ inl e ↦ rw e | inr e ↦ rw (e, e) ]

normalized_severity-eq :
    (s : String) (n : ℕ) → rank s ≡ some n → normalized_severity s ≡ some (normal s, n)
unfolding normalized_severity
normalized_severity-eq s n h = rw (h, normalized_severity)

normalized_severity-none : (s : String) → rank s ≡ none → normalized_severity s ≡ none
unfolding normalized_severity
normalized_severity-none s h = rw (h, normalized_severity)

-- Between two known severities the stricter one is kept.
rank-merge_field_severity :
    (p c : SchemaField) (a b : ℕ)
    → rank p.severity ≡ some a
    → rank c.severity ≡ some b
    → rank (merge_field_severity p c).severity ≡ some (if ltb b a then a else b)
unfolding merge_field_severity
rank-merge_field_severity p c a b h k =
    rw (normalized_severity-eq p.severity a h, merge_field_severity)
      (rw (normalized_severity-eq c.severity b k) (
        stricter (ltb b a) (ap severity_order (normal-normal p.severity) ∙ h)
          (ap severity_order (normal-normal c.severity) ∙ k)))
  where
    stricter :
        (t : Bool)
        → rank (normal p.severity) ≡ some a
        → rank (normal c.severity) ≡ some b
        → rank (if t then normal p.severity else normal c.severity) ≡ some (if t then a else b)
    stricter true x y = x
    stricter false x y = y

severity-merge_field_source : (p c : SchemaField) → (merge_field_source p c).severity ≡ c.severity
unfolding merge_field_source
severity-merge_field_source p c = ground arith

unknown_parent :
    (p c : SchemaField) → rank p.severity ≡ none → (merge_field_severity p c).severity ≡ c.severity
unfolding merge_field_severity
unknown_parent p c h = rw (normalized_severity-none p.severity h, merge_field_severity)

AtLeast-own :
    (source : String) (acc : Option SchemaField) (v : SchemaField) (n : ℕ)
    → rank v.severity ≡ some n
    → AtLeast n (merged_at source acc (some v))
unfolding merged_field
AtLeast-own source none v n h = (n, h, omega arith)
AtLeast-own source (some p) v n h =
    let c = merge_field_source p (record v { source = source }) in
    let own : rank c.severity ≡ some n =
      ap rank (severity-merge_field_source p (record v { source = source })) ∙ h in
    elim (Option-cases (rank p.severity)) [
      | inl unknown ↦ (n, ap rank (unknown_parent p c unknown) ∙ own, omega arith)
      | inr (a, e) ↦
          (if ltb n a then a else n, rank-merge_field_severity p c a n e own, ground arith)
    ]

-- A declaration whose severity is known, if there is one.
abbrev pub HasRank : Option SchemaField → Type 0
HasRank none = Unit
HasRank (some f) = (r : ℕ) × (rank f.severity ≡ some r)

AtLeast-kept :
    (source : String) (acc c : Option SchemaField) (n : ℕ)
    → AtLeast n acc
    → HasRank c
    → AtLeast n (merged_at source acc c)
unfolding merged_field
AtLeast-kept source acc none n h k = h
AtLeast-kept source (some p) (some v) n (a, e, l) (b, k) =
    let c = merge_field_source p (record v { source = source }) in
    (
      if ltb b a then a else b,
      rank-merge_field_severity p c a b e
          (ap rank (severity-merge_field_source p (record v { source = source })) ∙ k),
      ground arith,
    )
AtLeast-kept source none (some v) n h k = absurd h

AtLeast-field_along :
    (k : String) (acc : Option SchemaField) (es : List StemEntry) (n : ℕ)
    → AtLeast n acc
    → All (λ e. HasRank (lookup k e.stem.schema)) es
    → AtLeast n (field_along k acc es)
unfolding field_along
AtLeast-field_along k acc [] n h ranks = h
AtLeast-field_along k acc (e ∷ es) n h ranks =
    AtLeast-field_along k (merged_at e.path acc (lookup k e.stem.schema)) es n
      (AtLeast-kept e.path acc (lookup k e.stem.schema) n h ranks.0) ranks.1

declared_along :
    (k : String) (acc : Option SchemaField) (before : List StemEntry) (e : StemEntry)
    (after : List StemEntry) (f : SchemaField) (n : ℕ)
    → lookup k e.stem.schema ≡ some f
    → rank f.severity ≡ some n
    → All (λ e. HasRank (lookup k e.stem.schema)) after
    → AtLeast n (field_along k acc (before ++ e ∷ after))
unfolding field_along
declared_along k acc [] e after f n declared h ranks =
    AtLeast-field_along k (merged_at e.path acc (lookup k e.stem.schema)) after n
      (subst (λ c. AtLeast n (merged_at e.path acc c)) (sym declared)
        (AtLeast-own e.path acc f n h))
      ranks
declared_along k acc (b ∷ before) e after f n declared h ranks =
    declared_along k (merged_at b.path acc (lookup k b.stem.schema)) before e after f n declared h
      ranks

-- A field that some file of the chain declares is in the merged schema, and its severity there is at
-- least the declared one: no file below removes the field or loosens its severity, as long as the
-- severities below are known ones (or empty, which counts as error) and no file declares a field
-- twice.
pub merge_stem_files-AtLeast :
    (k : String) (before : List StemEntry) (e : StemEntry) (after : List StemEntry)
    (f : SchemaField) (n : ℕ)
    → All (λ e. IsDict e.stem.schema) (before ++ e ∷ after)
    → lookup k e.stem.schema ≡ some f
    → rank f.severity ≡ some n
    → All (λ e. HasRank (lookup k e.stem.schema)) after
    → AtLeast n (lookup k (merge_stem_files (before ++ e ∷ after)).schema)
unfolding merge_stem_files
merge_stem_files-AtLeast k before e after f n maps declared h ranks =
    subst (AtLeast n) (sym (lookup-merge_entries k empty_stem (before ++ e ∷ after) maps))
      (declared_along k (lookup k empty_stem.schema) before e after f n declared h ranks)
