-- ===== src/Skilldist/Receipts.antt =====
-- internal/skilldist/store.go: what a receipt must be.
pub mod Laws
pub mod Samples
use rootline.Base.{
  ℕ, String, ◌≡◌, List, [], ◌∷◌, ◌++◌, Bool, true, false, not, ◌&&◌, ◌||◌, Option, none, some,
  if◌then◌else◌, ◌==◌, nat_eq,
}
use rootline.Base.Dict.{Dict, lookup, has, insert}
use rootline.Base.FilePath.{clean}
use rootline.Query.Text.{contains}
use rootline.Skilldist.{
  Source, DestinationState, OperationError, Backup, ActionResult, Receipt, kind_absent,
  kind_directory, kind_correct_symlink, kind_divergent_symlink, kind_unsupported, operation_install,
  operation_uninstall, operation_restore, action_create_symlink, action_replace_with_symlink,
  action_remove_managed_symlink, action_restore_preimage, action_no_op, is_supported_destination_id,
}

-- Why a receipt is refused.
pub data ReceiptFault : Type 0 where
  bad_version bad_receipt_kind bad_name bad_operation no_plan_digest no_source : ReceiptFault
  incomplete_source bad_destination twice_destination no_original_path bad_backup_kind :
      ReceiptFault
  no_stored_path no_link_target unknown_action other_before incomplete_before : ReceiptFault
  other_after incomplete_after no_error_evidence action_mismatch no_backup : ReceiptFault
  backup_kind_mismatch : ReceiptFault

-- An early return, and what follows it.
abbrev pub unless : Bool → ReceiptFault → Option ReceiptFault → Option ReceiptFault
unless bad fault rest = if bad then some fault else rest

abbrev pub or_else : Option ReceiptFault → Option ReceiptFault → Option ReceiptFault
or_else none rest = rest
or_else (some fault) rest = some fault

abbrev pub receipt_kind : String
receipt_kind = "rootline/skill-receipt"

abbrev is_none : {A : Type 0} → Option A → Bool
is_none none = true
is_none (some a) = false

unfoldable pub validate_store_child_name : String → Option ReceiptFault
unfolding contains
validate_store_child_name name = unless (name == "") bad_name (
    unless
      (contains name "/"
        || contains name "\\"
        || not (clean name == name)
        || name == "."
        || name == "..")
      bad_name none)

unfoldable pub known_receipt_operation : String → Bool
known_receipt_operation operation =
    operation == operation_install
    || operation == operation_uninstall
    || operation == operation_restore

unfoldable pub known_action_kind : String → Bool
known_action_kind kind =
    kind == action_create_symlink
    || kind == action_replace_with_symlink
    || kind == action_remove_managed_symlink
    || kind == action_restore_preimage
    || kind == action_no_op

unfoldable pub known_entry_kind : String → Bool
known_entry_kind kind =
    kind == kind_absent
    || kind == kind_directory
    || kind == kind_correct_symlink
    || kind == kind_divergent_symlink
    || kind == kind_unsupported

unfoldable pub validate_backup_semantics : Backup → Option ReceiptFault
unfolding known_entry_kind
validate_backup_semantics backup = unless (backup.original_path == "") no_original_path (
    unless (not (known_entry_kind backup.kind) || backup.kind == kind_unsupported) bad_backup_kind (
      unless (backup.kind == kind_directory && backup.stored_path == "") no_stored_path (
        unless
          ((backup.kind == kind_correct_symlink || backup.kind == kind_divergent_symlink)
            && backup.link_target == "")
          no_link_target none)))

unfoldable pub install_invariant : ActionResult → Option ReceiptFault
install_invariant action =
    or_else
      (if action.action == action_no_op
        then unless (not (action.before.kind == kind_correct_symlink)) action_mismatch none
        else if action.action == action_create_symlink
        then unless (not (action.before.kind == kind_absent)) action_mismatch none
        else if action.action == action_replace_with_symlink
        then unless
            (not (action.before.kind == kind_directory)
              && not (action.before.kind == kind_divergent_symlink))
            action_mismatch none
        else some action_mismatch)
      (unless
        (action.complete
          && not (action.action == action_no_op)
          && not (action.after.kind == kind_correct_symlink))
        action_mismatch none)

unfoldable pub uninstall_invariant : ActionResult → Option ReceiptFault
uninstall_invariant action =
    unless (not (action.action == action_remove_managed_symlink)) action_mismatch (
      unless (not (action.before.kind == kind_correct_symlink)) action_mismatch
        (unless (action.complete && not (action.after.kind == kind_absent)) action_mismatch none))

unfoldable pub restore_invariant : ActionResult → Option ReceiptFault
restore_invariant action =
    unless
      (not (action.action == action_no_op)
        && not (action.action == action_remove_managed_symlink)
        && not (action.action == action_restore_preimage))
      action_mismatch none

unfoldable pub validate_operation_action_invariant : String → ActionResult → Option ReceiptFault
unfolding install_invariant uninstall_invariant restore_invariant
validate_operation_action_invariant operation action =
    if operation == operation_install
    then install_invariant action
    else if operation == operation_uninstall
    then uninstall_invariant action
    else if operation == operation_restore
    then restore_invariant action
    else none

unfoldable pub receipt_action_requires_backup : String → ActionResult → Bool
receipt_action_requires_backup operation action =
    if operation == operation_uninstall || not action.complete
    then false
    else not (action.before.kind == kind_absent)
      && (not (action.action == action_no_op) || not (action.before.kind == kind_correct_symlink))

-- What is recorded of the destination before and after.
unfoldable pub validate_evidence : ActionResult → Option ReceiptFault
validate_evidence action = unless (not (action.before.id == action.destination)) other_before (
    unless (action.before.path == "" || action.before.kind == "") incomplete_before (
      if action.complete
      then unless (not (action.after.id == action.destination)) other_after
          (unless (action.after.path == "" || action.after.kind == "") incomplete_after none)
      else unless (is_none action.error) no_error_evidence none))

unfoldable pub validate_action_backup : String → ActionResult → Dict Backup → Option ReceiptFault
unfolding receipt_action_requires_backup
validate_action_backup operation action backups =
    if receipt_action_requires_backup operation action
    then elim (lookup action.destination backups) [
      | none ↦ some no_backup
      | some backup ↦ unless (not (backup.kind == action.before.kind)) backup_kind_mismatch none
    ]
    else none

unfoldable pub validate_action_result_semantics :
    String → ActionResult → Dict Backup → Option ReceiptFault
unfolding known_action_kind validate_evidence validate_operation_action_invariant
    validate_action_backup
validate_action_result_semantics operation action backups =
    unless (not (known_action_kind action.action)) unknown_action (
      or_else (validate_evidence action) (
        or_else (validate_operation_action_invariant operation action)
          (validate_action_backup operation action backups)))

-- The loop over the backups: the first fault, or the backups by destination.
unfoldable pub collect_backups : Dict Backup → List Backup → Option ReceiptFault × Dict Backup
unfolding validate_backup_semantics is_supported_destination_id has insert
collect_backups found [] = (none, found)
collect_backups found (backup ∷ backups) =
    let rest = collect_backups (insert backup.destination backup found) backups in
    elim (unless (not (is_supported_destination_id backup.destination)) bad_destination (
      unless (has backup.destination found) twice_destination (validate_backup_semantics backup))) [
        | some fault ↦ (some fault, found)
        | none ↦ rest
      ]

unfoldable pub in_list : String → List String → Bool
in_list x [] = false
in_list x (y ∷ ys) = y == x || in_list x ys

unfoldable pub validate_actions :
    String → Dict Backup → List String → List ActionResult → Option ReceiptFault
unfolding validate_action_result_semantics is_supported_destination_id in_list
validate_actions operation backups seen [] = none
validate_actions operation backups seen (action ∷ actions) =
    or_else
      (unless (not (is_supported_destination_id action.destination)) bad_destination (
        unless (in_list action.destination seen) twice_destination
          (validate_action_result_semantics operation action backups)))
      (validate_actions operation backups (action.destination ∷ seen) actions)

unfoldable pub validate_source : Option Source → Option ReceiptFault
validate_source none = some no_source
validate_source (some source) =
    unless (source.skill_path == "" || source.digest == "") incomplete_source none

unfoldable pub validate_receipt_semantics : Receipt → Option ReceiptFault
unfolding known_receipt_operation validate_actions
validate_receipt_semantics receipt = unless (not (nat_eq receipt.version 1)) bad_version (
    unless (not (receipt.kind == receipt_kind)) bad_receipt_kind (
      or_else (validate_store_child_name receipt.id) (
        unless (not (known_receipt_operation receipt.operation)) bad_operation (
          unless (receipt.plan_digest == "") no_plan_digest (
            or_else (validate_source receipt.source) (
              let (fault, backups) = collect_backups [] receipt.backups in
              or_else fault (validate_actions receipt.operation backups [] receipt.actions)))))))
