-- ===== src/Skilldist/Planning/Restores.antt =====
-- The restore of an install (internal/skilldist/plan.go).
use rootline.Base.{
  String, ◌≡◌, refl, sym, ap, ◌∙◌, arith, List, [], ◌∷◌, true, false, some, ◌==◌, map, All,
}
use rootline.Base.Dict.{Dict, lookup}
use rootline.Base.Ascending.{Distinct}
use rootline.Skilldist.{
  Source, DestinationState, Action, Plan, ActionResult, Receipt, operation_restore,
}
use rootline.Skilldist.Planning.{
  Outcome, ok, Canonical, each_state, receipt_actions_by_destination, restore_action,
  receipt_plan_source, build_install_plan, build_restore_plan,
}
use rootline.Skilldist.Planning.Installs.{Pairs, Installs, build_install_plan_iff}
use rootline.Skilldist.Planning.Undo.{
  destinations_of, IsExecuted, Undoes, collect-lookup, restore_of,
}

abbrev afters : List ActionResult → List DestinationState
afters results = map (λ (r : ActionResult). r.after) results

restored_all :
    (recorded : Dict ActionResult) (states : List DestinationState) (actions : List Action)
    (results : List ActionResult)
    → Pairs Installs states actions
    → Pairs IsExecuted actions results
    → All (λ (r : ActionResult). lookup r.destination recorded ≡ some r) results
    → (chosen : List (Action × DestinationState)) × (each_state
          (restore_action recorded)
          (afters results)
        ≡ ok chosen)
      × Pairs Undoes states (map (λ (c : Action × DestinationState). c.0) chosen)
unfolding each_state
restored_all recorded [] [] [] p q h = ([], refl, tt)
restored_all recorded (s ∷ states) (a ∷ actions) (r ∷ results) p q h =
    let found : lookup r.after.id recorded ≡ some r =
      ap (λ (id : String). lookup id recorded) (q.0.4 ∙ sym q.0.0) ∙ h.0 in
    let (kind, e, undoes) = restore_of s a r p.0 q.0 recorded found in
    let (chosen, more, rest) = restored_all recorded states actions results p.1 q.1 h.1 in
    let undo : Action = record { kind = kind; destination = r.after } in
    let at_id : r.after.id ≡ s.id = q.0.4 ∙ ap (λ (d : DestinationState). d.id) p.0.1 in
    let at_path : r.after.path ≡ s.path = q.0.5 ∙ ap (λ (d : DestinationState). d.path) p.0.1 in
    ((undo, r.before) ∷ chosen, rw e (rw more refl), ((at_id, at_path, undoes), rest))
restored_all recorded [] (a ∷ actions) results p q h = absurd p
restored_all recorded (s ∷ states) [] results p q h = absurd p
restored_all recorded [] [] (r ∷ results) p q h = absurd q
restored_all recorded (s ∷ states) (a ∷ actions) [] p q h = absurd q

source_of :
    (receipt : Receipt) (source : Source)
    → (receipt.id == "") ≡ false
    → receipt.complete ≡ true
    → receipt.source ≡ some source
    → receipt_plan_source receipt ≡ ok source
unfolding receipt_plan_source
source_of receipt source named complete from = ground (arith, named, complete, from)

-- A restore undoes an install. Let a receipt with an identifier record that a plan of
-- BuildInstallPlan was carried out: complete, with the source, and for each action, whose destinations are
-- distinct, that it was completed and left a correct link. If the destinations are as the receipt
-- left them, and a digest can be taken, then BuildRestorePlan gives a plan with one action for each
-- destination, in order: to remove the link where there had been nothing, to bring back the
-- directory or other link that had been there, and nothing where the link had been correct.
pub build_restore_plan-build_install_plan :
    (digest : Canonical → Outcome String) (source : Source) (states : List DestinationState)
    (plan : Plan) (receipt : Receipt)
    → ((body : Canonical) → (text : String) × (digest body ≡ ok text))
    → build_install_plan digest source states ≡ ok plan
    → Pairs IsExecuted plan.actions receipt.actions
    → Distinct (destinations_of receipt.actions)
    → (receipt.id == "") ≡ false
    → receipt.complete ≡ true
    → receipt.source ≡ some source
    → (undo : Plan) × (build_restore_plan digest receipt
          (map (λ (r : ActionResult). r.after) receipt.actions)
        ≡ ok undo)
      × Pairs Undoes states undo.actions
unfolding build_restore_plan
build_restore_plan-build_install_plan digest source states plan receipt hashes built executed once
      named complete from =
    let installs = ((build_install_plan_iff digest source states plan).0 built).2 in
    let (chosen, e, undoes) =
      restored_all (receipt_actions_by_destination receipt) states plan.actions receipt.actions
        installs executed (collect-lookup [] receipt.actions once) in
    let actions = map (λ (c : Action × DestinationState). c.0) chosen in
    let (text, hashed) = hashes (record {
      operation = operation_restore;
      receipt_id = some receipt.id;
      source = source;
      actions = actions;
      preimages = map (λ (c : Action × DestinationState). c.1) chosen;
    }) in
    (
      record {
        operation = operation_restore;
        source = some source;
        actions = actions;
        digest = text;
      },
      rw (source_of receipt source named complete from, build_restore_plan) (rw e (rw hashed refl)),
      undoes,
    )
