-- ===== src/Fsx/Atomic.antt =====
-- internal/fsx/atomic.go: a file is replaced by writing a sibling and renaming it.
pub mod Steps
pub mod Staging
pub mod Outcome
pub mod Crash
pub mod Copy
pub mod Names
pub mod Finishes
pub mod Samples
use rootline.Base.{ℕ, zero, suc, String, Bool, true, false, Option, none, some, if◌then◌else◌, ◌∷◌}
use rootline.Base.Dict.{lookup, insert}
use rootline.Base.FilePath.{◌<>◌, clean, dir, base, join}
use rootline.Fsx.{
  Inode, World, Faults, Io, Result, ok, err, Errno, not_exist, exist, other_errno, ◌>>=◌, ◌>>◌,
  pure, set_files, change, close_file, create_exclusive, rename_file, remove_file, release,
  stat_file, opening_source, closing_source, stating_source, stating, staging, writing, flushing,
  setting_mode, closing, replacing, opening_parent,
}

abbrev pub temp_file_prefix : String
temp_file_prefix = ".rootline-"

-- What is written to the staging file, and the error of the write.
abbrev pub Writer : Type 0
Writer = String → String × Option Errno

-- dst.Write(content), and io.Copy from a file with that content
unfoldable pub write_all : Faults → String → Writer
write_all os content staged = elim os.write [
  | none ↦ (staged <> content, none)
  | some (part, e) ↦ (staged <> part, some e)
]

abbrev pub temp_name : String → String
temp_name digits = temp_file_prefix <> digits <> ".tmp"

unfoldable pub random_root_temp_name : Faults → ℕ → Result String
random_root_temp_name os attempt = elim (os.random attempt) [
  | ok digits ↦ ok (temp_name digits)
  | err stage e ↦ err stage e
]

-- The tries that are left, and the number of the next. os.CreateTemp makes the same loop.
unfoldable pub create_root_temp : Faults → String → ℕ → ℕ → Io String
unfolding random_root_temp_name create_exclusive join
create_root_temp os parent zero attempt w = (err staging exist, w)
create_root_temp os parent (suc tries) attempt w = elim (random_root_temp_name os attempt) [
  | err _ e ↦ (err staging e, w)
  | ok name ↦
      let path = join parent name in
      let created = create_exclusive (os.create attempt) path 0o600 w in
      elim (created.0) [
        | none ↦ (ok path, created.1)
        | some exist ↦ create_root_temp os parent tries (suc attempt) created.1
        | some not_exist ↦ (err staging not_exist, created.1)
        | some (other_errno text) ↦ (err staging (other_errno text), created.1)
      ]
]

-- The mode of the target that is there, or the one the caller gave.
unfoldable pub mode_for : Result Inode → ℕ → Result ℕ
mode_for (ok inode) perm = ok inode.mode
mode_for (err stage not_exist) perm = ok perm
mode_for (err stage exist) perm = err stage exist
mode_for (err stage (other_errno text)) perm = err stage (other_errno text)

unfoldable pub target_mode : Faults → String → ℕ → Io ℕ
unfolding mode_for stat_file
target_mode os target perm w = (mode_for (stat_file stating os.stat target w) perm, w)

unfoldable pub fill : String → Writer → Io Unit
fill temp write w = elim (lookup temp w.files) [
  | none ↦ (err writing not_exist, w)
  | some inode ↦
      let (content, fault) = write inode.content in
      let w' : World = set_files (insert temp (record inode { content = content }) w.files) w in
      elim fault [ none ↦ (ok tt, w') | some e ↦ (err writing e, w') ]
]

-- write(tmp), tmp.Sync, tmp.Chmod, tmp.Close and os.Rename
unfoldable pub fill_and_replace : Faults → String → String → ℕ → Writer → Io Unit
unfolding fill change close_file rename_file
fill_and_replace os temp target mode write = do
  fill temp write
  change flushing os.sync temp (λ inode. record inode { synced = inode.content })
  change setting_mode os.chmod temp (λ inode. record inode { mode = mode })
  close_file closing os.close temp
  rename_file replacing os.rename temp target

-- The deferred clean-up: what failed leaves neither a descriptor nor a staging file.
unfoldable pub clean_up : Faults → String → Result Unit × World → Result Unit × World
unfolding close_file remove_file
clean_up os temp (ok _, w) = (ok tt, w)
clean_up os temp (err stage e, w) =
    (err stage e, remove_file os.remove temp (close_file closing os.close temp w).1)

abbrev pub os_tries : ℕ
os_tries = 10000

-- The target and its siblings in the directory `parent`.
unfoldable pub write_staged : Faults → String → ℕ → String → ℕ → Writer → Io Unit
unfolding target_mode create_root_temp fill_and_replace clean_up
write_staged os parent tries target perm write = do
  mode ← target_mode os target perm
  temp ← create_root_temp os parent tries 0
  λ w. clean_up os temp (fill_and_replace os temp target mode write w)

unfoldable pub write_file_atomic : Faults → String → ℕ → Writer → Io Unit
unfolding write_staged dir
write_file_atomic os target perm write = write_staged os (dir target) os_tries target perm write

-- WriteFileAtomic
unfoldable pub write_content_atomic : Faults → String → String → ℕ → Io Unit
unfolding write_file_atomic write_all
write_content_atomic os target content perm =
    write_file_atomic os target perm (write_all os content)

-- The source is closed at the end, whatever came before; its error counts if there is no other.
unfoldable pub close_source : Faults → String → Result Unit × World → Result Unit × World
unfolding close_file
close_source os src (ok _, w) = close_file closing_source os.close_source src w
close_source os src (err stage e, w) =
    (err stage e, (close_file closing_source os.close_source src w).1)

copy_opened : Faults → String → String → Inode → Io Unit
unfolding write_file_atomic write_all
copy_opened os src target inode w = elim os.stat_source [
  | some e ↦ (err stating_source e, w)
  | none ↦ write_file_atomic os target inode.mode (write_all os inode.content) w
]

unfoldable pub copy_file_atomic : Faults → String → String → Io Unit
unfolding close_source copy_opened
copy_file_atomic os src target w = elim os.open_source [
  | some e ↦ (err opening_source e, w)
  | none ↦ elim (lookup src w.files) [
    | none ↦ (err opening_source not_exist, w)
    | some inode ↦
        close_source os src
          (copy_opened os src target inode (record w { handles = src ∷ w.handles }))
  ]
]

abbrev pub rooted_parent : String → String → String
rooted_parent root rel_target = join root (dir (clean rel_target))

-- The directory is opened first, and the calls go by it; it is closed in the end.
unfoldable pub write_file_atomic_root : Faults → String → String → ℕ → Writer → Io Unit
unfolding write_staged clean dir base join release
write_file_atomic_root os root rel_target perm write w =
    let parent = rooted_parent root rel_target in
    elim os.open_parent [
      | some e ↦ (err opening_parent e, w)
      | none ↦
          let (result, w') =
            write_staged os parent 100 (join parent (base (clean rel_target))) perm write
              (record w { handles = parent ∷ w.handles }) in
          (result, record w' { handles = release parent w'.handles })
    ]
