-- ===== src/Fsx/Target.antt =====
-- internal/fsx/atomic_target.go: a target below an allowed root, held by its opened directory.
pub mod Laws
pub mod Samples
use rootline.Base.{
  ℕ, String, Bool, true, false, not, ◌&&◌, ◌||◌, Option, none, some, if◌then◌else◌, ◌==◌, nat_eq,
  List, [], ◌∷◌,
}
use text.Mathlib.Text.{starts_with}
use rootline.Base.FilePath.{clean, dir, base, join, rel}
use rootline.Fsx.{
  World, Faults, Stage, Result, ok, err, Errno, not_exist, exist, other_errno, stating, resolving,
  escaping, opening_parent, parent_changed, release,
}
use rootline.Fsx.Atomic.{write_file_atomic_root, write_all}

-- What the system says of directories: their path once symbolic links are followed, and the
-- identity that os.SameFile compares.
pub record Places : Type 0 where
  pub abs : String → Result String
  pub eval_symlinks : String → Result String
  pub open_root : String → Result ℕ
  pub open_below : String → String → Result ℕ
  pub stat_opened : ℕ → Result ℕ
  pub stat : String → Result ℕ

pub record AtomicTarget : Type 0 where
  pub logical_path : String
  pub physical_path : String
  pub parent_path : String
  pub parent : ℕ
  pub parent_info : Option ℕ
  pub name : String

infixl 5 ◌>>=◌
abbrev pub ◌>>=◌ : {A B : Type 0} → Result A → (A → Result B) → Result B
ok a >>= f = f a
err stage e >>= f = err stage e

-- fmt.Errorf with %w: the error is passed on under another description.
abbrev pub wrap : {A : Type 0} → Stage → Result A → Result A
wrap stage (ok a) = ok a
wrap stage (err _ e) = err stage e

unfoldable pub is_inside : Option String → Bool
is_inside none = false
is_inside (some steps) = not (steps == "..") && not (starts_with steps "../")

unfoldable pub path_at_or_below : String → String → Bool
unfolding is_inside rel
path_at_or_below root path = is_inside (rel (clean root) (clean path))

abbrev pub from_option : {A : Type 0} → Stage → Errno → Option A → Result A
from_option stage e none = err stage e
from_option stage e (some a) = ok a

unfoldable pub verify_parent_identity : Places → AtomicTarget → Result AtomicTarget
verify_parent_identity places t = do
  opened ← wrap stating (places.stat_opened t.parent)
  named ← wrap stating (places.stat t.parent_path)
  if nat_eq opened named
      then ok (record t { parent_info = some opened })
      else err parent_changed (other_errno "physical parent changed")

abbrev pub new_target : ℕ → String → String → AtomicTarget
new_target opened physical_parent logical = record {
  logical_path = clean logical;
  physical_path = join (clean physical_parent) (base logical);
  parent_path = clean physical_parent;
  parent = opened;
  parent_info = none;
  name = base logical;
}

-- The directories, once the target's parent is known to be below the root.
unfoldable pub open_target : Places → String → String → String → Result AtomicTarget
unfolding verify_parent_identity rel clean base join
open_target places physical_root physical_parent logical = do
  _ ← wrap opening_parent (places.open_root physical_root)
  relative ←
      from_option stating (other_errno "rel") (rel (clean physical_root) (clean physical_parent))
  opened ← wrap stating (places.open_below physical_root relative)
  verify_parent_identity places (new_target opened physical_parent logical)

-- filepath.Abs after filepath.EvalSymlinks
unfoldable pub physical : Places → Stage → String → Result String
physical places stage path = do
  followed ← wrap stage (places.eval_symlinks path)
  wrap stage (places.abs followed)

unfoldable pub resolve_atomic_target : Places → String → String → Result AtomicTarget
unfolding physical open_target path_at_or_below dir
resolve_atomic_target places allowed_root logical_target = do
  logical ← wrap resolving (places.abs logical_target)
  physical_root ← physical places opening_parent allowed_root
  physical_parent ← physical places stating (dir logical)
  if path_at_or_below physical_root physical_parent
      then open_target places physical_root physical_parent logical
      else err escaping (other_errno "target escapes root")

-- os.SameFile
unfoldable pub same_info : Option ℕ → Option ℕ → Bool
same_info none other = false
same_info (some own) none = false
same_info (some own) (some other) = nat_eq own other

-- Two resolved targets are one where the directories are, and the names.
unfoldable pub same_target : Option AtomicTarget → Option AtomicTarget → Bool
unfolding same_info
same_target none other = false
same_target (some t) none = false
same_target (some t) (some other) =
    t.name == other.name && same_info t.parent_info other.parent_info

unfoldable pub parent_matches_dir : Places → Option AtomicTarget → String → Result Bool
unfolding same_info
parent_matches_dir places none path = ok false
parent_matches_dir places (some t) path = do
  info ← places.stat path
  ok (same_info t.parent_info (some info))

unfoldable pub matches_existing_target_path : Places → Option AtomicTarget → String → Result Bool
unfolding parent_matches_dir base dir
matches_existing_target_path places none path = ok false
matches_existing_target_path places (some t) path =
    if base path == t.name then parent_matches_dir places (some t) (dir path) else ok false

-- WriteFileAtomic of a target. The directory that was opened is the one that its path names.
unfoldable pub write_target :
    Places → Faults → AtomicTarget → String → ℕ → World → Result Unit × World
unfolding verify_parent_identity write_file_atomic_root write_all
write_target places os t content perm w = elim (verify_parent_identity places t) [
  | err stage e ↦ (err stage e, w)
  | ok _ ↦ write_file_atomic_root os t.parent_path t.name perm (write_all os content) w
]
