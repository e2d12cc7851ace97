-- ===== src/Rules/Report/Counts.antt =====
-- The counts of a result and of an envelope are those of what they hold.
use rootline.Base.{
  ℕ, ◌+◌, String, ◌≡◌, ◌≢◌, ◌↔◌, inl, inr, refl, sym, ◌∙◌, ap, ap₂, List, [], ◌∷◌, ◌++◌, Bool, true,
  false, not, ◌==◌, eq_iff, if◌then◌else◌, length, arith, In, In-select, All, select, Bool-cases,
}
use mathlib.Core.List.{append-nil, append_assoc}
use rootline.Rules.{is_nil}
use rootline.Rules.Report.{
  ValidationError, ValidationResult, separate, new_validation_result, StemHealthDiagnostic,
  BatchSummary, EnvelopeInput, Envelope, count_results, count_structural, count_health, one_more,
  start_summary, new_validation_envelope,
}

separate-eq :
    (errors warnings es : List ValidationError)
    → separate errors warnings es ≡ (
      errors ++ select (λ e. not (e.severity == "warn")) es,
      warnings ++ select (λ e. e.severity == "warn") es,
    )
unfolding separate
separate-eq errors warnings [] =
    ap₂ (λ x y. (x, y)) (sym (append-nil errors)) (sym (append-nil warnings))
separate-eq errors warnings (e ∷ es) = elim (Bool-cases (e.severity == "warn")) [
  | inl h ↦ rw h (
      separate-eq errors (warnings ++ e ∷ []) es
      ∙ ap (λ z. (errors ++ select (λ d. not (d.severity == "warn")) es, z))
          (append_assoc warnings (e ∷ []) (select (λ d. d.severity == "warn") es)))
  | inr h ↦ rw h (
      separate-eq (errors ++ e ∷ []) warnings es
      ∙ ap (λ z. (z, warnings ++ select (λ d. d.severity == "warn") es))
          (append_assoc errors (e ∷ []) (select (λ d. not (d.severity == "warn")) es)))
]

all_warned :
    (es : List ValidationError)
    → (is_nil (select (λ d. not (d.severity == "warn")) es) ≡ true)
      ↔ All (λ d. d.severity ≡ "warn") es
all_warned [] = ground arith
all_warned (e ∷ es) = ground (arith, all_warned es, eq_iff e.severity "warn")

-- Each finding of a file is reported exactly where its severity puts it, and the file is valid just
-- where all of them are warnings.
pub new_validation_result-separates :
    (path : String) (errs : List ValidationError) (e : ValidationError)
    → let r = new_validation_result path errs in
      (In e r.errors ↔ (In e errs × (e.severity ≢ "warn")))
      × (In e r.warnings ↔ (In e errs × (e.severity ≡ "warn")))
      × ((r.valid ≡ true) ↔ All (λ d. d.severity ≡ "warn") errs)
unfolding new_validation_result
new_validation_result-separates path errs e = rw (separate-eq [] [] errs) (
  ground (arith, In-select (λ d. not (d.severity == "warn")) e errs, eq_iff e.severity "warn"),
  ground (arith, In-select (λ d. d.severity == "warn") e errs, eq_iff e.severity "warn"),
  all_warned errs,
)

-- The sum of one measure over a list.
abbrev pub sum_of : {A : Type 0} → (A → ℕ) → List A → ℕ
sum_of f [] = 0
sum_of f (x ∷ xs) = f x + sum_of f xs

-- How many elements pass a test.
abbrev pub how_many : {A : Type 0} → (A → Bool) → List A → ℕ
how_many p xs = length (select p xs)

-- The summary of an envelope counts what the envelope holds.
pub record IsCounted (e : Envelope) : Type 0 where
  pub total : e.summary.total ≡ length e.results
  pub valid : e.summary.valid ≡ how_many (λ r. r.valid) e.results
  pub split : e.summary.valid + e.summary.invalid ≡ e.summary.total
  pub errors : e.summary.errors_count ≡ sum_of (λ r. length r.errors) e.results
  pub warnings : e.summary.warnings_count ≡ sum_of (λ r. length r.warnings) e.results
  pub structural_errors :
      e.summary.structural_errors_count ≡ sum_of (λ r. length r.errors) e.structural
  pub structural_warnings :
      e.summary.structural_warnings_count ≡ sum_of (λ r. length r.warnings) e.structural
  pub health_errors :
      e.summary.stem_health_errors_count ≡ how_many (λ d. d.severity == "error") e.stem_health
  pub health_infos :
      e.summary.stem_health_info_count ≡ how_many (λ d. d.severity == "info") e.stem_health
  pub health :
      e.summary.stem_health_errors_count + e.summary.stem_health_warnings_count
        + e.summary.stem_health_info_count
      ≡ length e.stem_health
  pub drift : e.summary.drift_warnings_count ≡ length e.drift_warnings

count_results-eq :
    (s : BatchSummary) (rs : List ValidationResult)
    → ((count_results s rs).total ≡ s.total)
      × ((count_results s rs).valid ≡ s.valid + how_many (λ r. r.valid) rs)
      × ((count_results s rs).valid + (count_results s rs).invalid
          ≡ s.valid + s.invalid + length rs)
      × ((count_results s rs).errors_count ≡ s.errors_count + sum_of (λ r. length r.errors) rs)
      × ((count_results s rs).warnings_count
          ≡ s.warnings_count + sum_of (λ r. length r.warnings) rs)
      × ((count_results s rs).structural_errors_count ≡ s.structural_errors_count)
      × ((count_results s rs).structural_warnings_count ≡ s.structural_warnings_count)
      × ((count_results s rs).stem_health_errors_count ≡ s.stem_health_errors_count)
      × ((count_results s rs).stem_health_warnings_count ≡ s.stem_health_warnings_count)
      × ((count_results s rs).stem_health_info_count ≡ s.stem_health_info_count)
unfolding count_results
count_results-eq s [] = ground arith
count_results-eq s (r ∷ rs) =
    let ih =
      count_results-eq
        (record s {
          valid = if r.valid then s.valid + 1 else s.valid;
          invalid = if r.valid then s.invalid else s.invalid + 1;
          errors_count = s.errors_count + length r.errors;
          warnings_count = s.warnings_count + length r.warnings;
        })
        rs in
    ground (arith, ih)

count_structural-eq :
    (s : BatchSummary) (rs : List ValidationResult)
    → ((count_structural s rs).total ≡ s.total)
      × ((count_structural s rs).valid ≡ s.valid)
      × ((count_structural s rs).invalid ≡ s.invalid)
      × ((count_structural s rs).errors_count ≡ s.errors_count)
      × ((count_structural s rs).warnings_count ≡ s.warnings_count)
      × ((count_structural s rs).structural_errors_count
          ≡ s.structural_errors_count + sum_of (λ r. length r.errors) rs)
      × ((count_structural s rs).structural_warnings_count
          ≡ s.structural_warnings_count + sum_of (λ r. length r.warnings) rs)
      × ((count_structural s rs).stem_health_errors_count ≡ s.stem_health_errors_count)
      × ((count_structural s rs).stem_health_warnings_count ≡ s.stem_health_warnings_count)
      × ((count_structural s rs).stem_health_info_count ≡ s.stem_health_info_count)
unfolding count_structural
count_structural-eq s [] = ground arith
count_structural-eq s (r ∷ rs) =
    let ih =
      count_structural-eq
        (record s {
          structural_errors_count = s.structural_errors_count + length r.errors;
          structural_warnings_count = s.structural_warnings_count + length r.warnings;
        })
        rs in
    ground (arith, ih)

one_more-eq :
    (s : BatchSummary) (d : StemHealthDiagnostic)
    → ((one_more s d).total ≡ s.total)
      × ((one_more s d).valid ≡ s.valid)
      × ((one_more s d).invalid ≡ s.invalid)
      × ((one_more s d).errors_count ≡ s.errors_count)
      × ((one_more s d).warnings_count ≡ s.warnings_count)
      × ((one_more s d).structural_errors_count ≡ s.structural_errors_count)
      × ((one_more s d).structural_warnings_count ≡ s.structural_warnings_count)
      × ((one_more s d).stem_health_errors_count
          ≡ s.stem_health_errors_count + how_many (λ x. x.severity == "error") (d ∷ []))
      × ((one_more s d).stem_health_info_count
          ≡ s.stem_health_info_count + how_many (λ x. x.severity == "info") (d ∷ []))
      × ((one_more s d).stem_health_errors_count
            + (one_more s d).stem_health_warnings_count
            + (one_more s d).stem_health_info_count
          ≡ s.stem_health_errors_count + s.stem_health_warnings_count + s.stem_health_info_count
            + 1)
unfolding one_more
one_more-eq s d = elim (Bool-cases (d.severity == "error")) [
  | inl h ↦
      let apart : (d.severity == "info") ≡ false =
        ap (λ z. z == "info") ((eq_iff d.severity "error").0 h) in
      rw (h, apart, one_more) (ground arith)
  | inr h ↦ elim (Bool-cases (d.severity == "info")) [
    | inl k ↦ rw (h, k, one_more) (ground arith)
    | inr k ↦ rw (h, k, one_more) (ground arith)
  ]
]

count_health-eq :
    (s : BatchSummary) (ds : List StemHealthDiagnostic)
    → ((count_health s ds).total ≡ s.total)
      × ((count_health s ds).valid ≡ s.valid)
      × ((count_health s ds).invalid ≡ s.invalid)
      × ((count_health s ds).errors_count ≡ s.errors_count)
      × ((count_health s ds).warnings_count ≡ s.warnings_count)
      × ((count_health s ds).structural_errors_count ≡ s.structural_errors_count)
      × ((count_health s ds).structural_warnings_count ≡ s.structural_warnings_count)
      × ((count_health s ds).stem_health_errors_count
          ≡ s.stem_health_errors_count + how_many (λ x. x.severity == "error") ds)
      × ((count_health s ds).stem_health_info_count
          ≡ s.stem_health_info_count + how_many (λ x. x.severity == "info") ds)
      × ((count_health s ds).stem_health_errors_count
            + (count_health s ds).stem_health_warnings_count
            + (count_health s ds).stem_health_info_count
          ≡ s.stem_health_errors_count
            + s.stem_health_warnings_count
            + s.stem_health_info_count
            + length ds)
unfolding count_health one_more
count_health-eq s [] = ground arith
count_health-eq s (d ∷ ds) =
    let ih = count_health-eq (one_more s d) ds in ground (arith, ih, one_more-eq s d)

-- Every count in the summary of an envelope is that of the list it belongs to, and each document and
-- each diagnostic is counted once.
pub new_validation_envelope-IsCounted : (i : EnvelopeInput) → IsCounted (new_validation_envelope i)
unfolding new_validation_envelope
new_validation_envelope-IsCounted i =
    let s = count_results (start_summary (length i.results)) i.results in
    let t = count_structural s i.structural in
    let a = count_results-eq (start_summary (length i.results)) i.results in
    let b = count_structural-eq s i.structural in
    let c = count_health-eq t i.stem_health in
    record {
      total = c.0 ∙ b.0 ∙ a.0;
      valid = omega (arith, c.1, b.1, a.1);
      split = omega (arith, a.0, a.2, b.0, b.1, b.2, c.0, c.1, c.2);
      errors = omega (arith, c.3, b.3, a.3);
      warnings = omega (arith, c.4, b.4, a.4);
      structural_errors = omega (arith, c.5, b.5, a.5);
      structural_warnings = omega (arith, c.6, b.6, a.6);
      health_errors = omega (arith, c.7, b.7, a.7);
      health_infos = omega (arith, c.8, b.9, a.9);
      health = omega (arith, c.9, b.7, b.8, b.9, a.7, a.8, a.9);
      drift = refl;
    }
