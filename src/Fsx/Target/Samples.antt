-- ===== src/Fsx/Target/Samples.antt =====
-- Small targets: the laws of internal/fsx/atomic_target.go at them, and tests.
use rootline.Base.{String, ◌≡◌, refl, true, false, some, List, ◌++◌, if◌then◌else◌, ◌==◌}
use rootline.Base.FilePath.{clean, clean_parts, dir}
use rootline.Fsx.{ok, err, other_errno, stating, escaping, opening_parent}
use rootline.Fsx.Target.{Places, AtomicTarget, path_at_or_below, resolve_atomic_target, physical}
use rootline.Fsx.Target.Laws.{IsHeld, path_at_or_below_sound, resolve_atomic_target-IsBelow}

below : path_at_or_below "/repo" "/repo/docs/x" ≡ true
unfolding path_at_or_below clean
below = refl

itself : path_at_or_below "/repo/" "/repo" ≡ true
unfolding path_at_or_below clean
itself = refl

beside : path_at_or_below "/repo" "/repository" ≡ false
unfolding path_at_or_below clean
beside = refl

dotted : path_at_or_below "/repo" "/repo/..data" ≡ true
unfolding path_at_or_below clean
dotted = refl

above : path_at_or_below "/repo" "/repo/docs/../.." ≡ false
unfolding path_at_or_below clean
above = refl

-- /repo/link is a symbolic link to /tmp.
abbrev places : Places
places = record {
  abs = ok;
  eval_symlinks = λ path. if path == "/repo/link" then ok "/tmp" else ok path;
  open_root = λ _. ok 0;
  open_below = λ _ _. ok 1;
  stat_opened = λ _. ok 7;
  stat = λ _. ok 7;
}

abbrev inner : AtomicTarget
inner = record {
  logical_path = "/repo/docs/a.md";
  physical_path = "/repo/docs/a.md";
  parent_path = "/repo/docs";
  parent = 1;
  parent_info = some 7;
  name = "a.md";
}

resolves : resolve_atomic_target places "/repo" "/repo/docs/a.md" ≡ ok inner
unfolding resolve_atomic_target clean
resolves = refl

escapes :
    resolve_atomic_target places "/repo" "/repo/link/a.md"
    ≡ err escaping (other_errno "target escapes root")
unfolding resolve_atomic_target clean
escapes = refl

path_at_or_below_sound_example :
    (down : List String) × (clean_parts (clean "/repo/docs/x")
      ≡ clean_parts (clean "/repo") ++ down)
path_at_or_below_sound_example = path_at_or_below_sound "/repo" "/repo/docs/x" below

resolve_atomic_target-IsBelow_example :
    ((root : String) × (physical places opening_parent "/repo" ≡ ok root)
      × ((parent : String) × (logical : String) × (physical places stating (dir logical)
            ≡ ok parent)
          × (inner.parent_path ≡ clean parent)
          × ((down : List String) × (clean_parts inner.parent_path
                ≡ clean_parts (clean root) ++ down))))
    × IsHeld places inner
resolve_atomic_target-IsBelow_example =
    resolve_atomic_target-IsBelow places "/repo" "/repo/docs/a.md" inner resolves
