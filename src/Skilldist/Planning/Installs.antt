-- ===== src/Skilldist/Planning/Installs.antt =====
-- What the plan of an install says (internal/skilldist/plan.go).
use rootline.Base.{String, ◌≡◌, ◌↔◌, ◌⊎◌, arith, List, [], ◌∷◌, true, none, some, eq_iff}
use rootline.Skilldist.{
  Source, DestinationState, Action, Plan, kind_absent, kind_directory, kind_correct_symlink,
  kind_divergent_symlink, operation_install, action_create_symlink, action_replace_with_symlink,
  action_no_op, is_supported_destination_id,
}
use rootline.Skilldist.Planning.{
  Outcome, ok, Canonical, install_action_kind, install_action, each_state, build_install_plan,
}

-- The two lists are as long, and related one by one.
abbrev pub Pairs : {A B : Type 0} → (A → B → Type 0) → List A → List B → Type 0
Pairs R [] [] = Unit
Pairs R [] (b ∷ bs) = ⊥
Pairs R (a ∷ rest) [] = ⊥
Pairs R (a ∷ rest) (b ∷ bs) = R a b × Pairs R rest bs

pub each_state_iff :
    {B : Type 0} (f : DestinationState → Outcome B) (states : List DestinationState) (bs : List B)
    → (each_state f states ≡ ok bs) ↔ Pairs (λ state b. f state ≡ ok b) states bs
unfolding each_state
each_state_iff f [] [] = ground arith
each_state_iff f [] (b ∷ bs) = ground arith
each_state_iff f (state ∷ states) [] = ground (arith, each_state_iff f states [])
each_state_iff f (state ∷ states) (b ∷ bs) = ground (arith, each_state_iff f states bs)

-- What an install does with a destination of each kind.
abbrev pub InstallsAs : String → String → Type 0
InstallsAs kind action =
    ((kind ≡ kind_absent) × (action ≡ action_create_symlink))
    ⊎ (((kind ≡ kind_correct_symlink) × (action ≡ action_no_op))
        ⊎ (((kind ≡ kind_directory) ⊎ (kind ≡ kind_divergent_symlink))
            × (action ≡ action_replace_with_symlink)))

pub install_action_kind_iff :
    (state : DestinationState) (action : String)
    → (install_action_kind state ≡ ok action) ↔ InstallsAs state.kind action
unfolding install_action_kind
install_action_kind_iff state action = ground (
  arith,
  eq_iff state.kind kind_absent,
  eq_iff state.kind kind_correct_symlink,
  eq_iff state.kind kind_directory,
  eq_iff state.kind kind_divergent_symlink,
  eq_iff kind_absent kind_correct_symlink,
  eq_iff kind_absent kind_directory,
  eq_iff kind_absent kind_divergent_symlink,
  eq_iff kind_correct_symlink kind_directory,
  eq_iff kind_correct_symlink kind_divergent_symlink,
)

-- The action of an install for one destination.
abbrev pub Installs : DestinationState → Action → Type 0
Installs state action =
    (is_supported_destination_id state.id ≡ true)
    × (action.destination ≡ state)
    × InstallsAs state.kind action.kind

pub install_action_iff :
    (state : DestinationState) (action : Action)
    → (install_action state ≡ ok action) ↔ Installs state action
unfolding install_action
install_action_iff state action = ground (arith, install_action_kind_iff state action.kind)

Pairs-iff :
    {A B : Type 0} (R S : A → B → Type 0) (xs : List A) (ys : List B)
    → ((x : A) (y : B) → R x y ↔ S x y)
    → Pairs R xs ys ↔ Pairs S xs ys
Pairs-iff R S [] [] h = ground arith
Pairs-iff R S [] (y ∷ ys) h = ground arith
Pairs-iff R S (x ∷ xs) [] h = ground arith
Pairs-iff R S (x ∷ xs) (y ∷ ys) h = ground (arith, h x y, Pairs-iff R S xs ys h)

-- What the digest of an install's plan is taken of.
abbrev pub install_body : Source → List Action → Canonical
install_body source actions = record {
  operation = operation_install;
  receipt_id = none;
  source = source;
  actions = actions;
  preimages = [];
}

-- BuildInstallPlan gives a plan exactly when the plan is of an install from the source, it has one action
-- for each destination, in order, and the digest is that of its contents. The action is to create a
-- link where there is none, nothing where the link is correct, and to replace a directory or another
-- link; so a destination that is not supported or is of another kind makes it fail.
pub build_install_plan_iff :
    (digest : Canonical → Outcome String) (source : Source) (states : List DestinationState)
    (plan : Plan)
    → (build_install_plan digest source states ≡ ok plan) ↔ (
        (plan.operation ≡ operation_install)
        × (plan.source ≡ some source)
        × Pairs Installs states plan.actions
        × (digest (install_body source plan.actions) ≡ ok plan.digest))
unfolding build_install_plan
build_install_plan_iff digest source states plan = ground (
  arith,
  each_state_iff install_action states plan.actions,
  Pairs-iff (λ state b. install_action state ≡ ok b) Installs states plan.actions
      install_action_iff,
)
