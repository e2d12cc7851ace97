-- ===== src/Rules/Structure/Samples.antt =====
-- A directory with two tasks, of which one lacks its index.
use rootline.Base.{String, ◌≡◌, ◌↔◌, refl, some, List, [], ◌∷◌, true, false, ◌==◌, if◌then◌else◌}
use rootline.Base.Int.{pos, is_positive, is_zero}
use rootline.Rules.{StemFile, structural_empty}
use rootline.Rules.Merge.{empty_stem}
use rootline.Rules.Structure.{
  DirEntry, Stat, missing, present, validate_directory, directory_errors, index_errors, index_rule,
  effective_severity, subdirs_of, is_hidden_entry,
}
use rootline.Rules.Structure.Laws.{Meets, validate_directory-eq-nil}

abbrev stem : StemFile
stem = record empty_stem {
  path = "docs/.stem";
  structural = record {
    require_index = "README.md";
    min_children = pos 1;
    max_children = pos 2;
    severity = "";
  };
}

abbrev entries : List DirEntry
entries =
    record { name = ".git"; is_dir = true }
    ∷ record { name = "T001"; is_dir = true }
    ∷ record { name = "T002"; is_dir = true }
    ∷ record { name = "a.md"; is_dir = false }
    ∷ []

abbrev answers : String → Stat
answers d = if d == "T001" then present true else missing

one_index_missing :
    validate_directory (some entries) answers stem
    ≡ record { rule = "require_index"; subdir = "T002"; source = "docs/.stem"; severity = "error" }
      ∷ []
unfolding validate_directory directory_errors index_errors index_rule effective_severity subdirs_of
    is_hidden_entry structural_empty is_positive is_zero
one_index_missing = refl

validate_directory-eq-nil_example : (validate_directory (some entries) answers stem ≡ []) ↔ (
    (es : List DirEntry) × (some entries ≡ some es) × Meets answers stem.structural (subdirs_of es))
validate_directory-eq-nil_example =
    validate_directory-eq-nil (some entries) answers stem (unfold structural_empty is_zero in refl)
