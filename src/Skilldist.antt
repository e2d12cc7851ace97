-- ===== src/Skilldist.antt =====
-- internal/skilldist/model.go: what the skill is installed from and to, plans and receipts. The
-- source's string types are texts, since a receipt that is read can hold any text. The text of an
-- error is left out.
pub mod Planning
pub mod Receipts
pub mod Journal
use rootline.Base.{ℕ, String, ◌≡◌, List, Bool, Option, ◌==◌, ◌||◌}

pub record Source : Type 0 where
  pub repo_root : String
  pub skill_path : String
  pub commit : String
  pub digest : String

abbrev pub destination_claude : String
destination_claude = "claude"

abbrev pub destination_agents : String
destination_agents = "agents"

abbrev pub kind_absent : String
kind_absent = "absent"

abbrev pub kind_directory : String
kind_directory = "directory"

abbrev pub kind_correct_symlink : String
kind_correct_symlink = "correct_symlink"

abbrev pub kind_divergent_symlink : String
kind_divergent_symlink = "divergent_symlink"

abbrev pub kind_unsupported : String
kind_unsupported = "unsupported"

abbrev pub operation_install : String
operation_install = "install"

abbrev pub operation_uninstall : String
operation_uninstall = "uninstall"

abbrev pub operation_restore : String
operation_restore = "restore"

abbrev pub action_create_symlink : String
action_create_symlink = "create_symlink"

abbrev pub action_replace_with_symlink : String
action_replace_with_symlink = "replace_with_symlink"

abbrev pub action_remove_managed_symlink : String
action_remove_managed_symlink = "remove_managed_symlink"

abbrev pub action_restore_preimage : String
action_restore_preimage = "restore_preimage"

abbrev pub action_no_op : String
action_no_op = "no_op"

pub record DestinationState : Type 0 where
  pub id : String
  pub path : String
  pub kind : String
  pub digest : String
  pub lexical_target : String
  pub canonical_target : String

pub record Action : Type 0 where
  pub kind : String
  pub destination : DestinationState

pub record Plan : Type 0 where
  pub operation : String
  pub source : Option Source
  pub actions : List Action
  pub digest : String

pub record OperationError : Type 0 where
  pub code : String
  pub path : String
  pub destination : String

pub record Backup : Type 0 where
  pub destination : String
  pub original_path : String
  pub stored_path : String
  pub kind : String
  pub digest : String
  pub link_target : String

pub record ActionResult : Type 0 where
  pub destination : String
  pub action : String
  pub before : DestinationState
  pub after : DestinationState
  pub complete : Bool
  pub rolled_back : Bool
  pub error : Option OperationError

pub record Receipt : Type 0 where
  pub version : ℕ
  pub kind : String
  pub id : String
  pub operation : String
  pub complete : Bool
  pub source : Option Source
  pub plan_digest : String
  pub actions : List ActionResult
  pub backups : List Backup
  pub errors : List OperationError

unfoldable pub is_supported_destination_id : String → Bool
is_supported_destination_id id = id == destination_claude || id == destination_agents
