-- ===== src/Skilldist/Receipts/Laws.antt =====
-- The receipt of an install that was carried out (internal/skilldist/store.go).
use rootline.Base.{
  String, ◌≡◌, ◌≢◌, refl, sym, ap, ◌∙◌, inl, inr, arith, List, [], ◌∷◌, true, false, Option, none,
  some, Bool-cases, ◌==◌, eq_iff, subst, All, In,
}
use rootline.Base.Ascending.{Distinct}
use rootline.Base.Dict.{Dict, lookup}
use rootline.Skilldist.{
  Source, DestinationState, Action, Plan, Backup, ActionResult, Receipt, kind_absent,
  kind_directory, kind_correct_symlink, kind_divergent_symlink, operation_install,
  action_create_symlink, action_replace_with_symlink, action_no_op, is_supported_destination_id,
}
use rootline.Skilldist.Planning.{Outcome, ok, Canonical, build_install_plan}
use rootline.Skilldist.Planning.Installs.{Pairs, Installs, InstallsAs, build_install_plan_iff}
use rootline.Skilldist.Planning.Undo.{IsExecuted, destinations_of}
use rootline.Skilldist.Receipts.{
  ReceiptFault, known_action_kind, validate_evidence, install_invariant, validate_action_backup,
  validate_action_result_semantics, validate_actions, in_list, receipt_kind, collect_backups,
  validate_store_child_name, validate_source, validate_receipt_semantics,
}

-- Where something was replaced, there is a backup of its kind.
abbrev pub IsBackedUp : Dict Backup → ActionResult → Type 0
IsBackedUp backups result =
    result.action ≡ action_replace_with_symlink
    → (backup : Backup) × (lookup result.destination backups ≡ some backup)
      × (backup.kind ≡ result.before.kind)

module _ (state : DestinationState) (action : Action) (result : ActionResult)
    (installs : Installs state action) (executed : IsExecuted action result) where
  as_installed : InstallsAs result.before.kind result.action
  as_installed = ground (arith, executed, installs)

  action_known : known_action_kind result.action ≡ true
  unfolding known_action_kind
  action_known = ground (
    arith,
    as_installed,
    eq_iff result.action action_create_symlink,
    eq_iff result.action action_replace_with_symlink,
    eq_iff result.action action_no_op,
  )

  evidence_fits : state.path ≢ "" → validate_evidence result ≡ none
  unfolding validate_evidence
  evidence_fits there =
      let before_path : result.before.path ≡ state.path =
        ap (λ (s : DestinationState). s.path) (executed.2 ∙ installs.1) in
      let after_path : result.after.path ≡ state.path =
        executed.5 ∙ ap (λ (s : DestinationState). s.path) installs.1 in
      let before_id : result.before.id ≡ result.destination =
        ap (λ (s : DestinationState). s.id) executed.2 ∙ sym executed.0 in
      let after_id : result.after.id ≡ result.destination = executed.4 ∙ sym executed.0 in
      ground (
        arith,
        executed.3,
        executed.6,
        as_installed,
        eq_iff result.before.id result.destination,
        eq_iff result.after.id result.destination,
        eq_iff result.before.path "",
        eq_iff result.after.path "",
        eq_iff result.before.kind "",
        eq_iff result.after.kind "",
        eq_iff kind_absent "",
        eq_iff kind_directory "",
        eq_iff kind_correct_symlink "",
        eq_iff kind_divergent_symlink "",
        there,
      )

  invariant_holds : install_invariant result ≡ none
  unfolding install_invariant
  invariant_holds = ground (
    arith,
    executed.6,
    as_installed,
    eq_iff result.action action_no_op,
    eq_iff result.action action_create_symlink,
    eq_iff result.action action_replace_with_symlink,
    eq_iff action_no_op action_create_symlink,
    eq_iff action_no_op action_replace_with_symlink,
    eq_iff action_create_symlink action_replace_with_symlink,
    eq_iff result.before.kind kind_absent,
    eq_iff result.before.kind kind_directory,
    eq_iff result.before.kind kind_correct_symlink,
    eq_iff result.before.kind kind_divergent_symlink,
    eq_iff result.after.kind kind_correct_symlink,
  )

  backup_fits :
      (backups : Dict Backup)
      → IsBackedUp backups result
      → validate_action_backup operation_install result backups ≡ none
  unfolding validate_action_backup
  backup_fits backups h = elim as_installed [
    | inl (absent, made) ↦ ground (arith, absent, executed.3, eq_iff result.before.kind kind_absent)
    | inr (inl (correct, made)) ↦ ground (
      arith,
      correct,
      made,
      executed.3,
      eq_iff result.action action_no_op,
      eq_iff result.before.kind kind_correct_symlink,
    )
    | inr (inr (there, made)) ↦
        let (backup, found, same) = h made in
        ground (arith, found, same, eq_iff backup.kind result.before.kind)
  ]

  -- An action of an install that was carried out may be recorded.
  pub executed_fits :
      (backups : Dict Backup)
      → state.path ≢ ""
      → IsBackedUp backups result
      → validate_action_result_semantics operation_install result backups ≡ none
  unfolding validate_action_result_semantics
  executed_fits backups there h =
      rw (action_known, validate_action_result_semantics)
        (rw (evidence_fits there) (rw invariant_holds (backup_fits backups h)))

in_list_iff : (x : String) (xs : List String) → (in_list x xs ≡ true) → In x xs
unfolding in_list
in_list_iff x [] h = ground arith
in_list_iff x (y ∷ ys) h = ground (arith, eq_iff y x, in_list_iff x ys)

abbrev pub HasPath : DestinationState → Type 0
HasPath state = state.path ≢ ""

-- None of the destinations that are left was seen.
abbrev Apart : List String → List String → Type 0
Apart seen ids = (x : String) → In x seen → ¬ In x ids

unseen :
    (seen : List String) (r : ActionResult) (results : List ActionResult)
    → Apart seen (destinations_of (r ∷ results))
    → in_list r.destination seen ≡ false
unseen seen r results apart = elim (Bool-cases (in_list r.destination seen)) [
  | inl e ↦ absurd (apart r.destination (in_list_iff r.destination seen e) (inl refl))
  | inr e ↦ e
]

Apart-next :
    (seen : List String) (r : ActionResult) (results : List ActionResult)
    → ¬ In r.destination (destinations_of results)
    → Apart seen (destinations_of (r ∷ results))
    → Apart (r.destination ∷ seen) (destinations_of results)
Apart-next seen r results other apart x (inl e) m =
    other (subst (λ (y : String). In y (destinations_of results)) e m)
Apart-next seen r results other apart x (inr s) m = apart x s (inr m)

actions_fit :
    (backups : Dict Backup) (seen : List String) (states : List DestinationState)
    (actions : List Action) (results : List ActionResult)
    → Pairs Installs states actions
    → Pairs IsExecuted actions results
    → All HasPath states
    → All (IsBackedUp backups) results
    → Distinct (destinations_of results)
    → Apart seen (destinations_of results)
    → validate_actions operation_install backups seen results ≡ none
unfolding validate_actions
actions_fit backups seen [] [] [] p q there backed once apart = refl
actions_fit backups seen (s ∷ states) (a ∷ actions) (r ∷ results) p q there backed once apart =
    let supported : is_supported_destination_id r.destination ≡ true =
      ap is_supported_destination_id (q.0.0 ∙ ap (λ (d : DestinationState). d.id) p.0.1) ∙ p.0.0 in
    rw (supported, validate_actions)
      (rw (unseen seen r results apart) (
        rw (executed_fits s a r p.0 q.0 backups there.0 backed.0) (
          actions_fit backups (r.destination ∷ seen) states actions results p.1 q.1 there.1 backed.1
            once.1 (Apart-next seen r results once.0 apart))))
actions_fit backups seen [] (a ∷ actions) results p q there backed once apart = absurd p
actions_fit backups seen (s ∷ states) [] results p q there backed once apart = absurd p
actions_fit backups seen [] [] (r ∷ results) p q there backed once apart = absurd q
actions_fit backups seen (s ∷ states) (a ∷ actions) [] p q there backed once apart = absurd q

-- What holds of a receipt of Install besides its actions, with its backups by destination.
abbrev pub IsHeaded : Receipt → Dict Backup → Type 0
IsHeaded receipt backups =
    (receipt.version ≡ 1)
    × (receipt.kind ≡ receipt_kind)
    × (validate_store_child_name receipt.id ≡ none)
    × (receipt.operation ≡ operation_install)
    × ((receipt.plan_digest == "") ≡ false)
    × (validate_source receipt.source ≡ none)
    × (collect_backups [] receipt.backups ≡ (none, backups))

-- The receipt of an install that was carried out passes the validation that every read of the
-- receipts makes. That is: a plan of BuildInstallPlan for destinations with a path; a receipt that
-- records of each of its actions that it was completed and left a correct link, each destination
-- once, with a backup of what was replaced; and a receipt whose other fields are those of Install,
-- with a safe identifier, a digest, a source and acceptable backups.
pub validate_receipt_semantics-build_install_plan :
    (digest : Canonical → Outcome String) (source : Source) (states : List DestinationState)
    (plan : Plan) (receipt : Receipt) (backups : Dict Backup)
    → build_install_plan digest source states ≡ ok plan
    → All HasPath states
    → Pairs IsExecuted plan.actions receipt.actions
    → Distinct (destinations_of receipt.actions)
    → All (IsBackedUp backups) receipt.actions
    → IsHeaded receipt backups
    → validate_receipt_semantics receipt ≡ none
unfolding validate_receipt_semantics
validate_receipt_semantics-build_install_plan digest source states plan receipt backups built there
      executed once backed headed =
    let installs = ((build_install_plan_iff digest source states plan).0 built).2 in
    let fit =
      actions_fit backups [] states plan.actions receipt.actions installs executed there backed once
        (λ _ m. absurd m) in
    let collected = ap (λ (c : Option ReceiptFault × Dict Backup). c.1) headed.6 in
    let none_found = ap (λ (c : Option ReceiptFault × Dict Backup). c.0) headed.6 in
    ground (
      arith,
      fit,
      collected,
      none_found,
      eq_iff receipt.kind receipt_kind,
      eq_iff receipt.operation operation_install,
    )
