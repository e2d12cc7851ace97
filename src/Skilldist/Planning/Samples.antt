-- ===== src/Skilldist/Planning/Samples.antt =====
-- A small install and its restore: the laws of internal/skilldist/plan.go at them, and tests.
use rootline.Base.{
  String, ◌≡◌, ◌↔◌, refl, List, [], ◌∷◌, true, false, none, some, map, inl, inr, eq_iff,
}
use rootline.Base.Ascending.{Distinct}
use rootline.Base.Dict.{lookup}
use rootline.Skilldist.{
  Source, DestinationState, Action, Plan, ActionResult, Receipt, operation_install,
  operation_uninstall, action_create_symlink, action_replace_with_symlink, kind_absent,
  kind_directory, kind_correct_symlink, kind_unsupported, action_remove_managed_symlink,
}
use rootline.Skilldist.Planning.{
  Outcome, ok, fail, Canonical, unsupported_file_type, restore_conflict, build_install_plan,
  build_uninstall_plan, build_restore_plan, filepath_clean, receipt_plan_source,
}
use rootline.Skilldist.Planning.Installs.{Pairs, Installs, install_body, build_install_plan_iff}
use rootline.Skilldist.Planning.Restores.{build_restore_plan-build_install_plan}
use rootline.Skilldist.Planning.Undo.{
  IsExecuted, Undoes, destinations_of, create-ne-no_op, replace-ne-no_op,
}

abbrev pub sample_source : Source
sample_source = record {
  repo_root = "/repo";
  skill_path = "/repo/.agents/skills/rootline";
  commit = "c0";
  digest = "sha256:aa";
}

abbrev pub absent_at : String → String → DestinationState
absent_at id path = record {
  id = id;
  path = path;
  kind = kind_absent;
  digest = "";
  lexical_target = "";
  canonical_target = "";
}

abbrev pub linked_at : String → String → DestinationState
linked_at id path = record {
  id = id;
  path = path;
  kind = kind_correct_symlink;
  digest = "sha256:aa";
  lexical_target = "/repo/.agents/skills/rootline";
  canonical_target = "/repo/.agents/skills/rootline";
}

abbrev pub claude : DestinationState
claude = absent_at "claude" "/home/.claude/skills/rootline"

abbrev pub agents : DestinationState
agents = record (absent_at "agents" "/home/.agents/skills/rootline") {
  kind = kind_directory;
  digest = "sha256:bb";
}

abbrev odd : DestinationState
odd = record agents { kind = kind_unsupported }

abbrev pub no_hash : Canonical → Outcome String
no_hash body = ok "sha256:cc"

abbrev pub install_plan : Plan
install_plan = record {
  operation = operation_install;
  source = some sample_source;
  actions =
      record { kind = action_create_symlink; destination = claude }
      ∷ record { kind = action_replace_with_symlink; destination = agents }
      ∷ [];
  digest = "sha256:cc";
}

abbrev pub executed : Action → DestinationState → ActionResult
executed action after = record {
  destination = action.destination.id;
  action = action.kind;
  before = action.destination;
  after = after;
  complete = true;
  rolled_back = false;
  error = none;
}

abbrev pub install_results : List ActionResult
install_results =
    executed (record { kind = action_create_symlink; destination = claude })
      (linked_at "claude" "/home/.claude/skills/rootline")
    ∷ executed (record { kind = action_replace_with_symlink; destination = agents })
        (linked_at "agents" "/home/.agents/skills/rootline")
    ∷ []

abbrev pub install_receipt : Receipt
install_receipt = record {
  version = 1;
  kind = "rootline/skill-receipt";
  id = "r1";
  operation = operation_install;
  complete = true;
  source = some sample_source;
  plan_digest = "sha256:cc";
  actions = install_results;
  backups =
      record {
        destination = "agents";
        original_path = "/home/.agents/skills/rootline";
        stored_path = "/state/backups/r1/agents";
        kind = kind_directory;
        digest = "sha256:bb";
        link_target = "";
      }
      ∷ [];
  errors = [];
}

pub plans_install :
    build_install_plan no_hash sample_source (claude ∷ agents ∷ []) ≡ ok install_plan
unfolding build_install_plan
plans_install = refl

refuses_odd :
    build_install_plan no_hash sample_source (claude ∷ odd ∷ [])
    ≡ fail (record {
      code = unsupported_file_type;
      path = "/home/.agents/skills/rootline";
      destination = "agents";
    })
unfolding build_install_plan
refuses_odd = refl

plans_uninstall :
    build_uninstall_plan no_hash install_receipt
      (map (λ (r : ActionResult). r.after) install_results)
    ≡ ok (record {
      operation = operation_uninstall;
      source = some sample_source;
      actions =
          map
            (λ (r : ActionResult). record {
              kind = action_remove_managed_symlink;
              destination = r.after;
            })
            install_results;
      digest = "sha256:cc";
    })
unfolding build_uninstall_plan receipt_plan_source filepath_clean lookup
plans_uninstall = refl

-- A file of another type is not what the receipt left.
refuses_restore :
    build_restore_plan no_hash install_receipt (odd ∷ [])
    ≡ fail (record {
      code = restore_conflict;
      path = "/home/.agents/skills/rootline";
      destination = "agents";
    })
unfolding build_restore_plan receipt_plan_source filepath_clean lookup
refuses_restore = refl

build_install_plan_iff_example :
    (build_install_plan no_hash sample_source (claude ∷ agents ∷ []) ≡ ok install_plan) ↔ (
      (install_plan.operation ≡ operation_install)
      × (install_plan.source ≡ some sample_source)
      × Pairs Installs (claude ∷ agents ∷ []) install_plan.actions
      × (no_hash (install_body sample_source install_plan.actions) ≡ ok install_plan.digest))
build_install_plan_iff_example =
    build_install_plan_iff no_hash sample_source (claude ∷ agents ∷ []) install_plan

pub all-IsExecuted : Pairs IsExecuted install_plan.actions install_results
all-IsExecuted = (
  (refl, refl, refl, refl, refl, refl, refl, λ h. absurd (create-ne-no_op h)),
  ((refl, refl, refl, refl, refl, refl, refl, λ h. absurd (replace-ne-no_op h)), tt),
)

other_id : ¬ (claude.id ≡ agents.id)
other_id h = let wrong : false ≡ true = (eq_iff "claude" "agents").1 h in cc

pub both_once : Distinct (destinations_of install_results)
both_once =
    ((λ m. elim m [ inl e ↦ absurd (other_id e) | inr n ↦ absurd n ]), ((λ m. absurd m), tt))

build_restore_plan-build_install_plan_example :
    (undo : Plan) × (build_restore_plan no_hash install_receipt
        (map (λ (r : ActionResult). r.after) install_results)
      ≡ ok undo)
    × Pairs Undoes (claude ∷ agents ∷ []) undo.actions
build_restore_plan-build_install_plan_example =
    build_restore_plan-build_install_plan no_hash sample_source (claude ∷ agents ∷ []) install_plan
      install_receipt (λ _. ("sha256:cc", refl)) plans_install all-IsExecuted both_once refl refl
      refl
