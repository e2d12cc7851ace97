-- ===== src/Skilldist/Receipts/Samples.antt =====
-- Small receipts: the laws of internal/skilldist/store.go at them, and tests.
use rootline.Base.{String, ◌≡◌, refl, [], ◌∷◌, true, false, none, some, All, ◌==◌, eq_iff}
use rootline.Base.Dict.{Dict, lookup}
use rootline.Base.FilePath.{clean}
use rootline.Skilldist.{Backup, operation_uninstall}
use rootline.Skilldist.Planning.Undo.{create-ne-replace}
use rootline.Skilldist.Planning.Samples.{
  sample_source, claude, agents, no_hash, install_plan, install_receipt, install_results,
  plans_install, all-IsExecuted, both_once,
}
use rootline.Skilldist.Receipts.{
  bad_name, no_backup, action_mismatch, validate_receipt_semantics, validate_store_child_name,
  validate_source, collect_backups,
}
use rootline.Skilldist.Receipts.Laws.{
  IsBackedUp, HasPath, IsHeaded, validate_receipt_semantics-build_install_plan,
}

accepts : validate_receipt_semantics install_receipt ≡ none
unfolding validate_receipt_semantics validate_store_child_name validate_source collect_backups clean
    lookup
accepts = refl

wants_backup : validate_receipt_semantics (record install_receipt { backups = [] }) ≡ some no_backup
unfolding validate_receipt_semantics validate_store_child_name validate_source collect_backups clean
    lookup
wants_backup = refl

climbs : validate_store_child_name "../r1" ≡ some bad_name
unfolding validate_store_child_name clean
climbs = refl

other_operation :
    validate_receipt_semantics (record install_receipt { operation = operation_uninstall })
    ≡ some action_mismatch
unfolding validate_receipt_semantics validate_store_child_name validate_source collect_backups clean
    lookup
other_operation = refl

abbrev sample_backups : Dict Backup
sample_backups =
    (
      "agents",
      record {
        destination = "agents";
        original_path = "/home/.agents/skills/rootline";
        stored_path = "/state/backups/r1/agents";
        kind = "directory";
        digest = "sha256:bb";
        link_target = "";
      },
    )
    ∷ []

headed : IsHeaded install_receipt sample_backups
unfolding validate_store_child_name validate_source collect_backups clean lookup
headed = (refl, refl, refl, refl, refl, refl, refl)

path_text : (s : String) → (s == "") ≡ false → ¬ (s ≡ "")
path_text s h e = let same : (s == "") ≡ true = (eq_iff s "").1 e in cc

paths : All HasPath (claude ∷ agents ∷ [])
paths = (path_text claude.path refl, (path_text agents.path refl, tt))

backed : All (IsBackedUp sample_backups) install_results
unfolding lookup
backed = ((λ h. absurd (create-ne-replace h)), ((λ _. (_, refl, refl)), tt))

validate_receipt_semantics-build_install_plan_example :
    validate_receipt_semantics install_receipt ≡ none
validate_receipt_semantics-build_install_plan_example =
    validate_receipt_semantics-build_install_plan no_hash sample_source (claude ∷ agents ∷ [])
      install_plan install_receipt sample_backups plans_install paths all-IsExecuted both_once
      backed headed
