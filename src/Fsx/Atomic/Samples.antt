-- ===== src/Fsx/Atomic/Samples.antt =====
-- Small writes: the laws of internal/fsx/atomic.go at them, and tests.
use rootline.Base.{
  ℕ, String, ◌≡◌, ◌≢◌, refl, ap, ◌∙◌, true, false, none, some, [], ◌∷◌, arith, All, eq_iff,
}
use rootline.Base.Dict.{lookup, has, insert}
use rootline.Base.FilePath.{dir, join}
use rootline.Fsx.{Inode, World, Faults, ok, err, other_errno, not_exist, flushing, opening_source}
use rootline.Fsx.Atomic.{
  write_content_atomic, copy_file_atomic, write_file_atomic_root, random_root_temp_name, write_all,
  temp_name,
}
use rootline.Fsx.Ensures.{ok_inj}
use rootline.Fsx.Atomic.Outcome.{
  complete, kept_mode, write_content_atomic_error, write_content_atomic_ok,
}
use rootline.Fsx.Atomic.Crash.{IsOldOrNew, AvoidsTarget, moments, write_content_atomic_crash}
use rootline.Fsx.Atomic.Copy.{IsCopied, copy_file_atomic_ok}
use rootline.Fsx.Atomic.Finishes.{write_content_atomic_done}
use rootline.Fsx.Atomic.Names.{IsQuiet}

abbrev quiet : Faults
quiet = record {
  stat = none;
  random = λ _. ok "00ff";
  create = λ _. none;
  write = none;
  sync = none;
  chmod = none;
  close = none;
  rename = none;
  remove = none;
  open_source = none;
  stat_source = none;
  close_source = none;
  open_parent = none;
}

abbrev unflushed : Faults
unflushed = record quiet { sync = some (other_errno "no space left") }

abbrev before : World
before = record {
  files = ("/docs/a.md", complete "old" 0o640) ∷ ("/docs/b.md", complete "other" 0o644) ∷ [];
  past = [];
  handles = [];
}

-- The name of the staging file in the samples.
staging_name : join "/docs" ".rootline-00ff.tmp" ≡ "/docs/.rootline-00ff.tmp"
unfolding join
staging_name = refl

writes :
    (write_content_atomic quiet "/docs/a.md" "new" 0o600 before).1.files
    ≡ ("/docs/a.md", complete "new" 0o640) ∷ ("/docs/b.md", complete "other" 0o644) ∷ []
unfolding write_content_atomic lookup has insert
writes = refl

writes_ok : (write_content_atomic quiet "/docs/a.md" "new" 0o600 before).0 ≡ ok tt
unfolding write_content_atomic lookup has insert
writes_ok = refl

fails :
    (write_content_atomic unflushed "/docs/a.md" "new" 0o600 before).0
    ≡ err flushing (other_errno "no space left")
unfolding write_content_atomic lookup has insert
fails = refl

cleans : (write_content_atomic unflushed "/docs/a.md" "new" 0o600 before).1.files ≡ before.files
unfolding write_content_atomic lookup has insert
cleans = refl

rooted :
    (write_file_atomic_root quiet "/docs" "./a.md" 0o600 (write_all quiet "new") before).1.files
    ≡ (write_content_atomic quiet "/docs/a.md" "new" 0o600 before).1.files
unfolding write_content_atomic write_file_atomic_root lookup has insert
rooted = refl

copies : (copy_file_atomic quiet "/docs/b.md" "/docs/a.md" before).0 ≡ ok tt
unfolding copy_file_atomic lookup has insert
copies = refl

-- The copy has the target's mode, not the source's.
copies_mode :
    lookup "/docs/a.md" (copy_file_atomic quiet "/docs/b.md" "/docs/a.md" before).1.files
    ≡ some (complete "other" 0o640)
unfolding copy_file_atomic lookup has insert
copies_mode = refl

-- Names of one place are tried only once each in the samples: all tries give this one.
tried : (attempt : ℕ) → random_root_temp_name quiet attempt ≡ ok ".rootline-00ff.tmp"
unfolding random_root_temp_name
tried attempt = refl

tried_unflushed : (attempt : ℕ) → random_root_temp_name unflushed attempt ≡ ok ".rootline-00ff.tmp"
unfolding random_root_temp_name
tried_unflushed attempt = refl

away : AvoidsTarget quiet "/docs/a.md"
unfolding random_root_temp_name join dir
away attempt name h e =
    let named : ".rootline-00ff.tmp" ≡ name = ok_inj h in
    let at : join "/docs" ".rootline-00ff.tmp" ≡ "/docs/a.md" =
      ap (join (dir "/docs/a.md")) named ∙ e in
    let wrong : false ≡ true = (eq_iff "/docs/.rootline-00ff.tmp" "/docs/a.md").1 at in absurd (cc)

quiet-IsQuiet : IsQuiet quiet (λ _. "00ff")
quiet-IsQuiet = record {
  draws = λ _. refl;
  stat = refl;
  create = λ _. refl;
  write = refl;
  sync = refl;
  chmod = refl;
  close = refl;
  rename = refl;
}

write_content_atomic_error_example :
    lookup "/docs/a.md" (write_content_atomic unflushed "/docs/a.md" "new" 0o600 before).1.files
    ≡ lookup "/docs/a.md" before.files
write_content_atomic_error_example =
    write_content_atomic_error unflushed "/docs/a.md" "new" 0o600 before refl refl fails
      "/docs/a.md"

write_content_atomic_ok_example :
    (mode : ℕ) × (kept_mode quiet "/docs/a.md" 0o600 before ≡ ok mode)
    × (lookup "/docs/a.md" (write_content_atomic quiet "/docs/a.md" "new" 0o600 before).1.files
        ≡ some (complete "new" mode))
    × ((p : String)
        → p ≢ "/docs/a.md"
        → lookup p (write_content_atomic quiet "/docs/a.md" "new" 0o600 before).1.files
          ≡ lookup p before.files)
write_content_atomic_ok_example =
    write_content_atomic_ok quiet "/docs/a.md" "new" 0o600 before refl writes_ok

write_content_atomic_crash_example :
    All
      (IsOldOrNew quiet "/docs/a.md" "new" 0o600 before)
      (moments (write_content_atomic quiet "/docs/a.md" "new" 0o600 before).1)
write_content_atomic_crash_example =
    write_content_atomic_crash quiet "/docs/a.md" "new" 0o600 before refl away

free_name : has (join (dir "/docs/a.md") (temp_name "00ff")) before.files ≡ false
unfolding has join dir
free_name = refl

write_content_atomic_done_example :
    (write_content_atomic quiet "/docs/a.md" "new" 0o600 before).0 ≡ ok tt
write_content_atomic_done_example =
    write_content_atomic_done quiet (λ _. "00ff") quiet-IsQuiet "/docs/a.md" "new" 0o600 0 before
      (omega arith) free_name

missing : (copy_file_atomic quiet "/docs/c.md" "/docs/a.md" before).0 ≡ err opening_source not_exist
unfolding copy_file_atomic lookup
missing = refl

copy_file_atomic_ok_example :
    (inode : Inode) × (lookup "/docs/b.md" before.files ≡ some inode)
    × IsCopied quiet "/docs/b.md" "/docs/a.md" before refl inode
        (copy_file_atomic quiet "/docs/b.md" "/docs/a.md" before).1
copy_file_atomic_ok_example = copy_file_atomic_ok quiet "/docs/b.md" "/docs/a.md" before refl copies
