-- ===== src/Rules/Report.antt =====
-- internal/rules/result.go: the result of one file and the envelope of a run, with
-- StemHealthDiagnostics of stemhealth.go.
pub mod Counts
mod Samples
use rootline.Base.{
  ℕ, ◌+◌, String, List, [], ◌∷◌, ◌++◌, Bool, true, false, ◌==◌, if◌then◌else◌, length, Option, none,
  some,
}
use rootline.Value.{Value}
use rootline.Rules.{is_nil}

-- ValidationError
pub record ValidationError : Type 0 where
  pub rule : String
  pub field : String
  pub message : String
  pub source : String
  pub severity : String
  pub suggestion : String
  pub expected_representation : String
  pub actual_representation : String

-- ValidationResult
pub record ValidationResult : Type 0 where
  pub version : ℕ
  pub kind : String
  pub path : String
  pub valid : Bool
  pub errors : List ValidationError
  pub warnings : List ValidationError

-- The loop of NewValidationResult: the errors and the warnings so far.
unfoldable pub separate :
    List ValidationError
    → List ValidationError
    → List ValidationError
    → List ValidationError × List ValidationError
separate errors warnings [] = (errors, warnings)
separate errors warnings (e ∷ es) =
    let warned = separate errors (warnings ++ e ∷ []) es in
    let failed = separate (errors ++ e ∷ []) warnings es in
    if e.severity == "warn" then warned else failed

-- NewValidationResult
unfoldable pub new_validation_result : String → List ValidationError → ValidationResult
new_validation_result path errs =
    let (errors, warnings) = separate [] [] errs in
    record {
      version = 1;
      kind = "rootline/validate";
      path = path;
      valid = is_nil errors;
      errors = errors;
      warnings = warnings;
    }

-- StemHealthCheck
pub record StemHealthCheck : Type 0 where
  pub name : String
  pub status : String
  pub message : String
  pub path : String
  pub field : String

-- StemHealthDiagnostic
pub record StemHealthDiagnostic : Type 0 where
  pub path : String
  pub check : String
  pub field : String
  pub severity : String
  pub message : String

-- The loop of StemHealthDiagnostics over the checks of a result.
unfoldable pub stem_health_diagnostics : List StemHealthCheck → List StemHealthDiagnostic
stem_health_diagnostics [] = []
stem_health_diagnostics (c ∷ cs) =
    let rest = stem_health_diagnostics cs in
    if c.status == "pass"
    then rest
    else record {
      path = if c.path == "" then ".stem" else c.path;
      check = c.name;
      field = c.field;
      severity =
          if c.status == "fail" then "error" else if c.status == "info" then "info" else "warn";
      message = c.message;
    }
      ∷ rest

-- DriftWarning
pub record DriftWarning : Type 0 where
  pub field : String
  pub parent_value : Value
  pub children_value : Value
  pub parent_path : String
  pub child_paths : List String

-- Notice
pub record Notice : Type 0 where
  pub severity : String
  pub code : String
  pub message : String

-- BatchSummary
pub record BatchSummary : Type 0 where
  pub total : ℕ
  pub valid : ℕ
  pub invalid : ℕ
  pub errors_count : ℕ
  pub warnings_count : ℕ
  pub drift_warnings_count : ℕ
  pub structural_errors_count : ℕ
  pub structural_warnings_count : ℕ
  pub stem_health_errors_count : ℕ
  pub stem_health_warnings_count : ℕ
  pub stem_health_info_count : ℕ

-- ValidationEnvelopeInput
pub record EnvelopeInput : Type 0 where
  pub results : List ValidationResult
  pub structural : List ValidationResult
  pub stem_health : List StemHealthDiagnostic
  pub drift_warnings : List DriftWarning
  pub notices : List Notice

-- BatchValidationResult
pub record Envelope : Type 0 where
  pub version : ℕ
  pub kind : String
  pub results : List ValidationResult
  pub structural : List ValidationResult
  pub stem_health : List StemHealthDiagnostic
  pub drift_warnings : List DriftWarning
  pub notices : List Notice
  pub summary : BatchSummary

-- The loop over the documents.
unfoldable pub count_results : BatchSummary → List ValidationResult → BatchSummary
count_results s [] = s
count_results s (r ∷ rs) =
    count_results
      (record s {
        valid = if r.valid then s.valid + 1 else s.valid;
        invalid = if r.valid then s.invalid else s.invalid + 1;
        errors_count = s.errors_count + length r.errors;
        warnings_count = s.warnings_count + length r.warnings;
      })
      rs

-- The loop over the directories.
unfoldable pub count_structural : BatchSummary → List ValidationResult → BatchSummary
count_structural s [] = s
count_structural s (r ∷ rs) =
    count_structural
      (record s {
        structural_errors_count = s.structural_errors_count + length r.errors;
        structural_warnings_count = s.structural_warnings_count + length r.warnings;
      })
      rs

-- The switch on the severity of one diagnostic.
unfoldable pub one_more : BatchSummary → StemHealthDiagnostic → BatchSummary
one_more s d =
    if d.severity == "error"
    then record s { stem_health_errors_count = s.stem_health_errors_count + 1 }
    else if d.severity == "info"
    then record s { stem_health_info_count = s.stem_health_info_count + 1 }
    else record s { stem_health_warnings_count = s.stem_health_warnings_count + 1 }

-- The loop over the diagnostics of the .stem files.
unfoldable pub count_health : BatchSummary → List StemHealthDiagnostic → BatchSummary
unfolding one_more
count_health s [] = s
count_health s (d ∷ ds) = count_health (one_more s d) ds

-- BatchSummary{Total: total}
abbrev pub start_summary : ℕ → BatchSummary
start_summary total = record {
  total = total;
  valid = 0;
  invalid = 0;
  errors_count = 0;
  warnings_count = 0;
  drift_warnings_count = 0;
  structural_errors_count = 0;
  structural_warnings_count = 0;
  stem_health_errors_count = 0;
  stem_health_warnings_count = 0;
  stem_health_info_count = 0;
}

-- NewValidationEnvelope
unfoldable pub new_validation_envelope : EnvelopeInput → Envelope
new_validation_envelope i =
    let s = count_results (start_summary (length i.results)) i.results in
    let s = count_structural s i.structural in
    let s = count_health s i.stem_health in
    record {
      version = 2;
      kind = "rootline/validate-batch";
      results = i.results;
      structural = i.structural;
      stem_health = i.stem_health;
      drift_warnings = i.drift_warnings;
      notices = i.notices;
      summary = record s { drift_warnings_count = length i.drift_warnings };
    }

-- HasErrorNotice
unfoldable pub has_error_notice : List Notice → Bool
has_error_notice [] = false
has_error_notice (n ∷ ns) =
    let rest = has_error_notice ns in if n.severity == "error" then true else rest
