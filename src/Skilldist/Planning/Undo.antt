-- ===== src/Skilldist/Planning/Undo.antt =====
-- One action of an install, and the action of the restore that undoes it (internal/skilldist/plan.go).
use rootline.Base.{
  String, ◌≡◌, refl, sym, ap, ◌∙◌, ◌≢◌, ◌⊎◌, inl, inr, arith, List, [], ◌∷◌, Bool, true, false,
  some, eq_iff, eq_refl, if◌then◌else◌, map, In, All,
}
use rootline.Base.Dict.{Dict, lookup, insert, lookup-insert}
use rootline.Base.Ascending.{Distinct}
use rootline.Base.FilePath.{clean}
use rootline.Skilldist.{
  DestinationState, Action, ActionResult, kind_absent, kind_directory, kind_correct_symlink,
  kind_divergent_symlink, action_create_symlink, action_replace_with_symlink,
  action_remove_managed_symlink, action_restore_preimage, action_no_op, is_supported_destination_id,
}
use rootline.Skilldist.Planning.{
  ok, collect_actions, restore_action, restore_action_kind, restore_matches, untouched,
  same_destination_evidence, current_restorable_state_matches, filepath_clean,
}
use rootline.Skilldist.Planning.Installs.{Installs}

abbrev pub destinations_of : List ActionResult → List String
destinations_of results = map (λ (r : ActionResult). r.destination) results

collect_other :
    (id : String) (found : Dict ActionResult) (results : List ActionResult)
    → ¬ In id (destinations_of results)
    → lookup id (collect_actions found results) ≡ lookup id found
unfolding collect_actions
collect_other id found [] h = refl
collect_other id found (r ∷ results) h = ground (
  arith,
  collect_other id (insert r.destination r found) results,
  lookup-insert r.destination id r found,
  eq_iff r.destination id,
)

-- Where each destination has one action, looking a destination up finds its action.
pub collect-lookup :
    (found : Dict ActionResult) (results : List ActionResult)
    → Distinct (destinations_of results)
    → All
        (λ (r : ActionResult). lookup r.destination (collect_actions found results) ≡ some r)
        results
unfolding collect_actions
collect-lookup found [] h = tt
collect-lookup found (r ∷ results) h = (
  collect_other r.destination (insert r.destination r found) results h.0
      ∙ lookup-insert r.destination r.destination r found
      ∙ rw (eq_refl r.destination),
  collect-lookup (insert r.destination r found) results h.1,
)

-- What a receipt records of an action of an install that was carried out: where something was
-- done, the destination is a correct link afterwards.
abbrev pub IsExecuted : Action → ActionResult → Type 0
IsExecuted action result =
    (result.destination ≡ action.destination.id)
    × (result.action ≡ action.kind)
    × (result.before ≡ action.destination)
    × (result.complete ≡ true)
    × (result.after.id ≡ action.destination.id)
    × (result.after.path ≡ action.destination.path)
    × (result.after.kind ≡ kind_correct_symlink)
    × (action.kind ≡ action_no_op → result.after ≡ action.destination)

-- What undoes an install of a destination: nothing where nothing was done, and else the removal of
-- the link or the return of what stood there.
abbrev pub UndoesAs : String → String → Type 0
UndoesAs kind action =
    ((kind ≡ kind_absent) × (action ≡ action_remove_managed_symlink))
    ⊎ (((kind ≡ kind_correct_symlink) × (action ≡ action_no_op))
        ⊎ (((kind ≡ kind_directory) ⊎ (kind ≡ kind_divergent_symlink))
            × (action ≡ action_restore_preimage)))

abbrev pub Undoes : DestinationState → Action → Type 0
Undoes before action =
    (action.destination.id ≡ before.id)
    × (action.destination.path ≡ before.path)
    × UndoesAs before.kind action.kind

evidence_refl : (state : DestinationState) → same_destination_evidence state state ≡ true
unfolding same_destination_evidence
evidence_refl state = ground (
  arith,
  eq_refl state.id,
  eq_refl state.kind,
  eq_refl state.digest,
  eq_refl (clean state.lexical_target),
  eq_refl (clean state.canonical_target),
)

link_restorable :
    (state : DestinationState)
    → state.kind ≡ kind_correct_symlink
    → current_restorable_state_matches state state ≡ true
unfolding current_restorable_state_matches
link_restorable state h = ground (
  arith,
  eq_iff state.kind kind_correct_symlink,
  eq_refl state.id,
  eq_refl (filepath_clean state.path),
  eq_refl (filepath_clean state.lexical_target),
  eq_refl (filepath_clean state.canonical_target),
)

restore_kind :
    (preimage : DestinationState) (kind : String)
    → ((preimage.kind ≡ kind_absent) × (kind ≡ action_remove_managed_symlink))
      ⊎ (((preimage.kind ≡ kind_directory)
            ⊎ ((preimage.kind ≡ kind_correct_symlink) ⊎ (preimage.kind ≡ kind_divergent_symlink)))
          × (kind ≡ action_restore_preimage))
    → restore_action_kind preimage ≡ ok kind
unfolding restore_action_kind
restore_kind preimage kind h = ground (
  arith,
  eq_iff preimage.kind kind_absent,
  eq_iff preimage.kind kind_correct_symlink,
  eq_iff preimage.kind kind_directory,
  eq_iff preimage.kind kind_divergent_symlink,
  eq_iff kind_absent kind_correct_symlink,
  eq_iff kind_absent kind_directory,
  eq_iff kind_absent kind_divergent_symlink,
)

pub create-ne-no_op : ¬ (action_create_symlink ≡ action_no_op)
create-ne-no_op h = let wrong : false ≡ true = (eq_iff action_create_symlink action_no_op).1 h in cc

pub create-ne-replace : ¬ (action_create_symlink ≡ action_replace_with_symlink)
create-ne-replace h =
    let wrong : false ≡ true = (eq_iff action_create_symlink action_replace_with_symlink).1 h in cc

pub replace-ne-no_op : ¬ (action_replace_with_symlink ≡ action_no_op)
replace-ne-no_op h =
    let wrong : false ≡ true = (eq_iff action_replace_with_symlink action_no_op).1 h in cc

module _ (state : DestinationState) (action : Action) (result : ActionResult)
    (installs : Installs state action) (executed : IsExecuted action result) where
  after_matches : restore_matches result result.after ≡ true
  unfolding restore_matches
  after_matches =
      ground
        (arith, eq_refl (filepath_clean result.after.path), link_restorable result.after executed.6)

  after_supported : is_supported_destination_id result.after.id ≡ true
  after_supported =
      let same : result.after.id ≡ state.id =
        executed.4 ∙ ap (λ (s : DestinationState). s.id) installs.1 in
      ap is_supported_destination_id same ∙ installs.0

  before_is : result.before ≡ state
  before_is = executed.2 ∙ installs.1

  untouched_no_op : result.action ≡ action_no_op → untouched result result.after ≡ true
  unfolding untouched
  untouched_no_op h =
      let same : result.before ≡ result.after =
        executed.2 ∙ sym (executed.7 (sym executed.1 ∙ h)) in
      ground (
        arith,
        same,
        eq_iff result.action action_no_op,
        evidence_refl result.after,
        eq_refl (filepath_clean result.after.path),
      )

  touched : result.action ≢ action_no_op → untouched result result.after ≡ false
  unfolding untouched
  touched h = ground (arith, eq_iff result.action action_no_op)

  restored_with :
      (recorded : Dict ActionResult) (kind : String) (own : Bool)
      → lookup result.after.id recorded ≡ some result
      → restore_action_kind result.before ≡ ok kind
      → untouched result result.after ≡ own
      → restore_action recorded result.after
        ≡ ok (
          record { kind = if own then action_no_op else kind; destination = result.after },
          result.before,
        )
  unfolding restore_action
  restored_with recorded kind own found chosen e =
      rw (after_supported, restore_action) (rw found (rw after_matches (rw chosen (rw e refl))))

  -- The action of the restore, once the action of the install is found.
  pub restore_of :
      (recorded : Dict ActionResult)
      → lookup result.after.id recorded ≡ some result
      → (kind : String) × (restore_action recorded result.after
          ≡ ok (record { kind = kind; destination = result.after }, result.before))
        × UndoesAs state.kind kind
  restore_of recorded found =
      let kind_is : result.before.kind ≡ state.kind =
        ap (λ (s : DestinationState). s.kind) before_is in
      elim (installs.2) [
        | inl (absent, made) ↦ (
          action_remove_managed_symlink,
          restored_with recorded _ false found
              (restore_kind result.before _ (inl (kind_is ∙ absent, refl)))
              (touched (λ h. create-ne-no_op (sym (executed.1 ∙ made) ∙ h))),
          inl (absent, refl),
        )
        | inr (inl (correct, made)) ↦ (
          action_no_op,
          restored_with recorded _ true found
              (restore_kind result.before _ (inr (inr (inl (kind_is ∙ correct)), refl)))
              (untouched_no_op (executed.1 ∙ made)),
          inr (inl (correct, refl)),
        )
        | inr (inr (there, made)) ↦ (
          action_restore_preimage,
          restored_with recorded _ false found
              (restore_kind result.before _ (inr (ground arith, refl)))
              (touched (λ h. replace-ne-no_op (sym (executed.1 ∙ made) ∙ h))),
          inr (inr (there, refl)),
        )
      ]
