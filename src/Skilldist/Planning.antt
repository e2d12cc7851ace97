-- ===== src/Skilldist/Planning.antt =====
-- internal/skilldist/plan.go: what an install, an uninstall and a restore will do. The digest of a
-- plan, which is SHA-256 of its JSON, is a parameter.
pub mod Installs
pub mod Undo
pub mod Restores
pub mod Samples
use rootline.Base.{
  String, ◌≡◌, List, [], ◌∷◌, Bool, true, false, not, ◌&&◌, ◌||◌, Option, none, some, if◌then◌else◌,
  ◌==◌, map,
}
use rootline.Base.Dict.{Dict, lookup, insert}
use rootline.Base.FilePath.{clean}
use rootline.Skilldist.{
  Source, DestinationState, Action, Plan, OperationError, ActionResult, Receipt, kind_absent,
  kind_directory, kind_correct_symlink, kind_divergent_symlink, kind_unsupported, operation_install,
  operation_uninstall, operation_restore, action_create_symlink, action_replace_with_symlink,
  action_remove_managed_symlink, action_restore_preimage, action_no_op, is_supported_destination_id,
}

pub data Outcome (A : Type 0) : Type 0 where
  ok : A → Outcome A
  fail : OperationError → Outcome A

infixl 5 ◌>>=◌
abbrev pub ◌>>=◌ : {A B : Type 0} → Outcome A → (A → Outcome B) → Outcome B
ok a >>= f = f a
fail e >>= f = fail e

abbrev pub refuse : {A : Type 0} → String → String → String → Outcome A
refuse code path destination = fail (record { code = code; path = path; destination = destination })

abbrev pub unsupported_file_type : String
unsupported_file_type = "unsupported_file_type"

abbrev pub restore_conflict : String
restore_conflict = "restore_conflict"

-- The two structs that are hashed: an install's names no receipt and no preimages.
pub record Canonical : Type 0 where
  pub operation : String
  pub receipt_id : Option String
  pub source : Source
  pub actions : List Action
  pub preimages : List DestinationState

unfoldable pub install_action_kind : DestinationState → Outcome String
install_action_kind state =
    if state.kind == kind_absent
    then ok action_create_symlink
    else if state.kind == kind_correct_symlink
    then ok action_no_op
    else if state.kind == kind_directory || state.kind == kind_divergent_symlink
    then ok action_replace_with_symlink
    else refuse unsupported_file_type state.path state.id

unfoldable pub restore_action_kind : DestinationState → Outcome String
restore_action_kind preimage =
    if preimage.kind == kind_absent
    then ok action_remove_managed_symlink
    else if preimage.kind == kind_directory
        || preimage.kind == kind_correct_symlink
        || preimage.kind == kind_divergent_symlink
    then ok action_restore_preimage
    else refuse unsupported_file_type preimage.path preimage.id

unfoldable pub filepath_clean : String → String
unfolding clean
filepath_clean path = if path == "" then "" else clean path

-- The loops stop at the first state that is refused.
unfoldable pub each_state :
    {B : Type 0} → (DestinationState → Outcome B) → List DestinationState → Outcome (List B)
each_state f [] = ok []
each_state f (state ∷ states) =
    let rest = each_state f states in f state >>= λ b. rest >>= λ bs. ok (b ∷ bs)

abbrev pub require_supported : {B : Type 0} → DestinationState → Outcome B → Outcome B
require_supported state go =
    if is_supported_destination_id state.id
    then go
    else refuse unsupported_file_type state.path state.id

unfoldable pub install_action : DestinationState → Outcome Action
unfolding install_action_kind is_supported_destination_id
install_action state =
    require_supported state
      (install_action_kind state >>= λ kind. ok (record { kind = kind; destination = state }))

unfoldable pub same_destination_evidence : DestinationState → DestinationState → Bool
same_destination_evidence expected observed =
    expected.id == observed.id
    && expected.kind == observed.kind
    && expected.digest == observed.digest
    && clean expected.lexical_target == clean observed.lexical_target
    && clean expected.canonical_target == clean observed.canonical_target

unfoldable pub receipt_recorded_managed_link : DestinationState → Bool
receipt_recorded_managed_link recorded =
    recorded.kind == kind_correct_symlink || recorded.kind == kind_divergent_symlink

unfoldable pub current_receipted_link_matches : DestinationState → DestinationState → Bool
unfolding receipt_recorded_managed_link
current_receipted_link_matches recorded current =
    if not (receipt_recorded_managed_link current)
    then false
    else if not (receipt_recorded_managed_link recorded)
    then false
    else recorded.id == current.id
      && filepath_clean recorded.path == filepath_clean current.path
      && filepath_clean recorded.lexical_target == filepath_clean current.lexical_target
      && filepath_clean recorded.canonical_target == filepath_clean current.canonical_target

unfoldable pub current_restorable_state_matches : DestinationState → DestinationState → Bool
unfolding current_receipted_link_matches receipt_recorded_managed_link
current_restorable_state_matches recorded current =
    current_receipted_link_matches recorded current
    || (current.kind == kind_absent
        && receipt_recorded_managed_link recorded
        && recorded.id == current.id
        && filepath_clean recorded.path == filepath_clean current.path)

unfoldable pub receipt_plan_source : Receipt → Outcome Source
receipt_plan_source receipt =
    if receipt.id == ""
    then refuse restore_conflict "" ""
    else if not receipt.complete
    then refuse restore_conflict "" ""
    else elim (receipt.source) [ none ↦ refuse restore_conflict "" "" | some source ↦ ok source ]

-- The last action of a destination counts.
unfoldable pub collect_actions : Dict ActionResult → List ActionResult → Dict ActionResult
unfolding insert
collect_actions found [] = found
collect_actions found (action ∷ actions) =
    collect_actions (insert action.destination action found) actions

unfoldable pub receipt_actions_by_destination : Receipt → Dict ActionResult
unfolding collect_actions
receipt_actions_by_destination receipt = collect_actions [] receipt.actions

abbrev pub conflict : {B : Type 0} → DestinationState → Outcome B
conflict state = refuse restore_conflict state.path state.id

-- What an uninstall asks of the action that the receipt records.
unfoldable pub uninstall_matches : ActionResult → DestinationState → Bool
unfolding same_destination_evidence
uninstall_matches recorded state =
    recorded.complete
    && recorded.after.kind == kind_correct_symlink
    && filepath_clean recorded.after.path == filepath_clean state.path
    && same_destination_evidence recorded.after state

unfoldable pub uninstall_action : Source → Dict ActionResult → DestinationState → Outcome Action
unfolding uninstall_matches lookup is_supported_destination_id
uninstall_action source recorded state = require_supported state (
    if not (state.kind == kind_correct_symlink)
    then conflict state
    else elim (lookup state.id recorded) [
      | none ↦ conflict state
      | some action ↦
          if not (uninstall_matches action state)
          then conflict state
          else if filepath_clean state.lexical_target == filepath_clean source.skill_path
              && state.digest == source.digest
          then ok (record { kind = action_remove_managed_symlink; destination = state })
          else conflict state
    ])

unfoldable pub restore_matches : ActionResult → DestinationState → Bool
unfolding current_restorable_state_matches
restore_matches recorded state =
    recorded.complete
    && filepath_clean recorded.after.path == filepath_clean state.path
    && current_restorable_state_matches recorded.after state

-- A no-op is restored by a no-op where nothing changed since.
unfoldable pub untouched : ActionResult → DestinationState → Bool
unfolding same_destination_evidence
untouched recorded state =
    recorded.action == action_no_op
    && same_destination_evidence recorded.before state
    && filepath_clean recorded.before.path == filepath_clean state.path

-- The action, and the preimage that the digest binds.
unfoldable pub restore_action :
    Dict ActionResult → DestinationState → Outcome (Action × DestinationState)
unfolding restore_matches restore_action_kind untouched lookup is_supported_destination_id
restore_action recorded state = require_supported state (elim (lookup state.id recorded) [
  | none ↦ conflict state
  | some action ↦
      if not (restore_matches action state)
      then conflict state
      else restore_action_kind action.before >>= λ kind.
          let chosen = if untouched action state then action_no_op else kind in
          ok (record { kind = chosen; destination = state }, action.before)
])

module _ (digest : Canonical → Outcome String) where
  -- digestPlan and digestReceiptBoundPlan
  abbrev pub with_digest :
      String → Option String → Source → List Action → List DestinationState → Outcome Plan
  with_digest operation receipt_id source actions preimages =
      digest (record {
        operation = operation;
        receipt_id = receipt_id;
        source = source;
        actions = actions;
        preimages = preimages;
      })
      >>= λ text.
          ok (record {
            operation = operation;
            source = some source;
            actions = actions;
            digest = text;
          })

  unfoldable pub build_install_plan : Source → List DestinationState → Outcome Plan
  unfolding each_state install_action
  build_install_plan source states = each_state install_action states >>= λ actions.
      with_digest operation_install none source actions []

  unfoldable pub build_uninstall_plan : Receipt → List DestinationState → Outcome Plan
  unfolding each_state uninstall_action receipt_actions_by_destination
  build_uninstall_plan receipt states = do
    source ← receipt_plan_source receipt
    actions ← each_state (uninstall_action source (receipt_actions_by_destination receipt)) states
    with_digest operation_uninstall (some receipt.id) source actions []

  unfoldable pub build_restore_plan : Receipt → List DestinationState → Outcome Plan
  unfolding each_state restore_action receipt_actions_by_destination
  build_restore_plan receipt states = do
    source ← receipt_plan_source receipt
    chosen ← each_state (restore_action (receipt_actions_by_destination receipt)) states
    with_digest operation_restore (some receipt.id) source (map (λ c. c.0) chosen)
        (map (λ c. c.1) chosen)
