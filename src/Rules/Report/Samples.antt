-- ===== src/Rules/Report/Samples.antt =====
-- A result and an envelope.
use rootline.Base.{String, ◌≡◌, ◌≢◌, ◌↔◌, refl, [], ◌∷◌, true, In, All}
use rootline.Rules.Report.{
  ValidationError, new_validation_result, separate, EnvelopeInput, new_validation_envelope,
  count_results, count_structural, count_health, StemHealthCheck, stem_health_diagnostics,
}
use rootline.Rules.Report.Counts.{
  IsCounted, new_validation_result-separates, new_validation_envelope-IsCounted,
}

abbrev found : String → ValidationError
found severity = record {
  rule = "required";
  field = "title";
  message = "missing";
  source = "docs/.stem";
  severity = severity;
  suggestion = "";
  expected_representation = "";
  actual_representation = "";
}

abbrev check : String → StemHealthCheck
check status = record { name = "nested-root"; status = status; message = ""; path = ""; field = "" }

abbrev input : EnvelopeInput
input = record {
  results =
      new_validation_result "a.md" (found "error" ∷ found "warn" ∷ [])
      ∷ new_validation_result "b.md" []
      ∷ [];
  structural = [];
  stem_health = stem_health_diagnostics (check "info" ∷ check "pass" ∷ check "fail" ∷ []);
  drift_warnings = [];
  notices = [];
}

one_invalid :
    ((new_validation_envelope input).summary.invalid ≡ 1)
    × ((new_validation_envelope input).summary.stem_health_errors_count ≡ 1)
unfolding new_validation_envelope count_results count_structural count_health new_validation_result
    separate stem_health_diagnostics
one_invalid = (refl, refl)

new_validation_result-separates_example :
    let r = new_validation_result "a.md" (found "error" ∷ found "warn" ∷ []) in
    (In (found "warn") r.errors ↔ (
      In (found "warn") (found "error" ∷ found "warn" ∷ []) × ((found "warn").severity ≢ "warn")))
    × (In (found "warn") r.warnings ↔ (
        In (found "warn") (found "error" ∷ found "warn" ∷ []) × ((found "warn").severity ≡ "warn")))
    × ((r.valid ≡ true) ↔ All (λ d. d.severity ≡ "warn") (found "error" ∷ found "warn" ∷ []))
new_validation_result-separates_example =
    new_validation_result-separates "a.md" (found "error" ∷ found "warn" ∷ []) (found "warn")

new_validation_envelope-IsCounted_example : IsCounted (new_validation_envelope input)
new_validation_envelope-IsCounted_example = new_validation_envelope-IsCounted input
