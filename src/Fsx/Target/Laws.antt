-- ===== src/Fsx/Target/Laws.antt =====
-- A target that is resolved lies below its root.
use rootline.Base.{
  ℕ, String, Bool, true, false, none, some, if◌then◌else◌, ◌==◌, eq_iff, List, [], ◌∷◌, ◌++◌, ◌≡◌,
  refl, sym, ap, ◌∙◌, ◌⊎◌, inl, inr, arith, Bool-cases, Option-cases, some_inj, subst, nat_eq,
}
use text.Mathlib.Text.{starts_with}
use text.Mathlib.TextPositions.{starts_with-append}
use text.Mathlib.TextLemmas.{append_assoc}
use rootline.Base.FilePath.{
  clean, dir, rel, rel_parts, print_path, join_path, clean_parts, is_abs, ◌<>◌, both_or_neither,
}
use rootline.Fsx.{Stage, Errno, other_errno, Result, ok, err, stating, opening_parent, resolving}
use rootline.Fsx.Ensures.{ok_inj, Result-cases}
use rootline.Fsx.Target.{
  Places, AtomicTarget, ◌>>=◌, wrap, is_inside, path_at_or_below, verify_parent_identity,
  open_target, physical, from_option, new_target, resolve_atomic_target,
}

-- The steps go down from the start, or up first.
rel_parts-cases :
    (from target steps : List String)
    → rel_parts from target ≡ some steps
    → (target ≡ from ++ steps) ⊎ ((more : List String) × (steps ≡ ".." ∷ more))
unfolding rel_parts
rel_parts-cases [] target steps h = inl (some_inj h)
rel_parts-cases (here ∷ from) [] steps h = elim (Bool-cases (here == "..")) [
  | inl e ↦ absurd (ground (arith, e, h))
  | inr e ↦ inr (_, sym (some_inj (rw (e, rel_parts) at h)))
]
rel_parts-cases (here ∷ from) (there ∷ target) steps h = elim (Bool-cases (here == there)) [
  | inl same ↦
      let e : here ≡ there = (eq_iff here there).0 same in
      ground (arith, rel_parts-cases from target steps (rw (same, rel_parts) at h))
  | inr differ ↦ elim (Bool-cases (here == "..")) [
    | inl e ↦ absurd (ground (arith, e, differ, h))
    | inr e ↦ inr (_, sym (some_inj (rw e at (rw (differ, rel_parts) at h))))
  ]
]

up-not-is_inside : (more : List String) → is_inside (some (print_path false (".." ∷ more))) ≡ false
unfolding is_inside print_path join_path
up-not-is_inside [] = refl
up-not-is_inside (part ∷ more) =
    let steps = ".." <> "/" <> join_path (part ∷ more) in
    let e : starts_with steps "../" ≡ true =
      subst (λ (s : String). starts_with s "../" ≡ true)
        (append_assoc ".." "/" (join_path (part ∷ more)))
        (starts_with-append (".." <> "/") (join_path (part ∷ more))) in
    ground (arith, e)

none_ne_some : {s : String} → ¬ (none ≡ some s)
none_ne_some h = cc

outside : ¬ (is_inside none ≡ true)
unfolding is_inside
outside h = cc

inside_of_steps :
    (steps : List String) (from target : List String)
    → rel_parts from target ≡ some steps
    → is_inside (some (print_path false steps)) ≡ true
    → target ≡ from ++ steps
inside_of_steps steps from target h inside = elim (rel_parts-cases from target steps h) [
  | inl e ↦ e
  | inr (more, e) ↦
      let climbs =
        ap (λ (s : List String). is_inside (some (print_path false s))) e ∙ up-not-is_inside more in
      absurd (cc)
]

rel-steps :
    (from target s : String)
    → rel from target ≡ some s
    → (steps : List String) × (rel_parts (clean_parts from) (clean_parts target) ≡ some steps)
      × (s ≡ print_path false steps)
unfolding rel
rel-steps from target s h =
    elim (Option-cases (rel_parts (clean_parts from) (clean_parts target))) [
      | inl e ↦ elim (Bool-cases (both_or_neither (is_abs from) (is_abs target))) [
        | inl b ↦ absurd (none_ne_some (rw (e, rel) at (rw (b, rel) at h)))
        | inr b ↦ absurd (none_ne_some (rw (b, rel) at h))
      ]
      | inr (steps, e) ↦ elim (Bool-cases (both_or_neither (is_abs from) (is_abs target))) [
        | inl b ↦ (steps, e, sym (some_inj (rw (e, rel) at (rw (b, rel) at h))))
        | inr b ↦ absurd (none_ne_some (rw (b, rel) at h))
      ]
    ]

-- If pathAtOrBelow holds of a root and a path, then the directories of the cleaned path are those of the
-- cleaned root, followed by others.
pub path_at_or_below_sound :
    (root path : String)
    → path_at_or_below root path ≡ true
    → (down : List String) × (clean_parts (clean path) ≡ clean_parts (clean root) ++ down)
unfolding path_at_or_below
path_at_or_below_sound root path h = elim (Option-cases (rel (clean root) (clean path))) [
  | inl e ↦ absurd (outside (rw e at h))
  | inr (s, e) ↦
      let (steps, known, printed) = rel-steps (clean root) (clean path) s e in
      (
        steps,
        inside_of_steps steps _ _ known
            (ap (λ (r : String). is_inside (some r)) (sym printed) ∙ (rw e at h)),
      )
]

stopped : {B : Type 0} {stage : Stage} {e : Errno} {out : B} → ¬ (err stage e ≡ ok out)
stopped h = cc

bind_ok :
    {A B : Type 0} (next : A → Result B) {out : B} (first : Result A)
    → (first >>= next) ≡ ok out
    → (found : A) × (first ≡ ok found) × (next found ≡ ok out)
bind_ok next first done = elim (Result-cases first) [
  | inl (found, e) ↦ (found, e, ap (λ (r : Result _). r >>= next) (sym e) ∙ done)
  | inr (stage, x, e) ↦ absurd (stopped (ap (λ (r : Result _). r >>= next) (sym e) ∙ done))
]

wrap_ok : {A : Type 0} (stage : Stage) (r : Result A) {a : A} → wrap stage r ≡ ok a → r ≡ ok a
wrap_ok stage (ok b) h = h
wrap_ok stage (err s e) h = absurd (cc)

if_ok :
    {A : Type 0} (b : Bool) (r : Result A) (stage : Stage) (e : Errno) {a : A}
    → (if b then r else err stage e) ≡ ok a
    → (b ≡ true) × (r ≡ ok a)
if_ok true r stage e h = (refl, h)
if_ok false r stage e h = absurd (cc)

-- The directory that is held is the one its path names.
abbrev pub IsHeld : Places → AtomicTarget → Type 0
IsHeld places t =
    (info : ℕ) × (places.stat_opened t.parent ≡ ok info)
    × (places.stat t.parent_path ≡ ok info)
    × (t.parent_info ≡ some info)

verify-IsHeld :
    (places : Places) (t held : AtomicTarget)
    → verify_parent_identity places t ≡ ok held
    → IsHeld places held × (held.parent_path ≡ t.parent_path)
unfolding verify_parent_identity
verify-IsHeld places t held h =
    let (opened, e, h') = bind_ok _ (wrap stating (places.stat_opened t.parent)) h in
    let (named, e', h'') = bind_ok _ (wrap stating (places.stat t.parent_path)) h' in
    let (same, held_ok) = if_ok (nat_eq opened named) _ _ _ h'' in
    let held_is = ok_inj held_ok in
    subst (λ (u : AtomicTarget). IsHeld places u × (u.parent_path ≡ t.parent_path)) held_is
      ((opened, wrap_ok _ _ e, wrap_ok _ _ e' ∙ ap ok (ground (arith, same)), refl), refl)

open_target-IsHeld :
    (places : Places) (root parent logical : String) (t : AtomicTarget)
    → open_target places root parent logical ≡ ok t
    → IsHeld places t × (t.parent_path ≡ clean parent)
unfolding open_target
open_target-IsHeld places root parent logical t h =
    let (_, _, h1) = bind_ok _ (wrap opening_parent (places.open_root root)) h in
    let (relative, _, h2) =
      bind_ok _ (from_option stating (other_errno "rel") (rel (clean root) (clean parent))) h1 in
    let (opened, _, h3) = bind_ok _ (wrap stating (places.open_below root relative)) h2 in
    verify-IsHeld places (new_target opened parent logical) t h3

-- If ResolveAtomicTarget returns a target, then the directories of the cleaned path of its parent
-- are those of the cleaned path of the root, both with symbolic links followed, and then others;
-- and the directory that it opened is the one that this path names.
pub resolve_atomic_target-IsBelow :
    (places : Places) (allowed_root logical_target : String) (t : AtomicTarget)
    → resolve_atomic_target places allowed_root logical_target ≡ ok t
    → ((root : String) × (physical places opening_parent allowed_root ≡ ok root)
        × ((parent : String) × (logical : String) × (physical places stating (dir logical)
              ≡ ok parent)
            × (t.parent_path ≡ clean parent)
            × ((down : List String) × (clean_parts t.parent_path
                  ≡ clean_parts (clean root) ++ down))))
      × IsHeld places t
unfolding resolve_atomic_target
resolve_atomic_target-IsBelow places allowed_root logical_target t h =
    let (logical, _, h1) = bind_ok _ (wrap resolving (places.abs logical_target)) h in
    let (root, r, h2) = bind_ok _ (physical places opening_parent allowed_root) h1 in
    let (parent, p, h3) = bind_ok _ (physical places stating (dir logical)) h2 in
    let (inside, opened) = if_ok (path_at_or_below root parent) _ _ _ h3 in
    let (held, named) = open_target-IsHeld places root parent logical t opened in
    let (down, below) = path_at_or_below_sound root parent inside in
    ((root, r, (parent, logical, p, named, (down, ap clean_parts named ∙ below))), held)
