-- ===== src/Fsx.antt =====
-- What internal/fsx asks of the operating system. A table gives the files by path; a file has the
-- content that programs read and the part of it that a crash leaves. The tables that there were
-- are kept, the last first, so that a crash between two calls can be spoken of.
pub mod Ensures
pub mod Atomic
pub mod Target
use rootline.Base.{
  ℕ, String, ◌≡◌, List, [], ◌∷◌, Bool, true, false, not, Option, none, some, if◌then◌else◌, select,
  ◌==◌,
}
use rootline.Base.Dict.{Dict, lookup, has, insert}

pub record Inode : Type 0 where
  pub content : String
  pub synced : String
  pub mode : ℕ

-- The errors of the system that the code tells apart.
pub data Errno : Type 0 where
  not_exist exist : Errno
  other_errno : String → Errno

-- What the code wraps an error as.
pub data Stage : Type 0 where
  opening_source closing_source stating_source stating staging writing flushing setting_mode : Stage
  closing replacing opening_parent parent_changed escaping resolving : Stage

pub data Result (A : Type 0) : Type 0 where
  ok : A → Result A
  err : Stage → Errno → Result A

pub record World : Type 0 where
  pub files : Dict Inode
  pub past : List (Dict Inode)
  pub handles : List String

abbrev pub Io : Type 0 → Type 0
Io A = World → Result A × World

abbrev pub continue : {A B : Type 0} → Result A × World → (A → Io B) → Result B × World
continue (ok a, w) f = f a w
continue (err stage e, w) f = (err stage e, w)

infixl 5 ◌>>=◌ ◌>>◌
abbrev pub ◌>>=◌ : {A B : Type 0} → Io A → (A → Io B) → Io B
◌>>=◌ m f w = continue (m w) f

abbrev pub ◌>>◌ : {A B : Type 0} → Io A → Io B → Io B
m >> k = m >>= λ _. k

abbrev pub pure : {A : Type 0} → A → Io A
pure a w = (ok a, w)

-- What the system answers: an error for each call that fails, what is written of a text when a
-- write fails, and random digits for each try at a name.
pub record Faults : Type 0 where
  pub stat : Option String
  pub random : ℕ → Result String
  pub create : ℕ → Option Errno
  pub write : Option (String × Errno)
  pub sync : Option Errno
  pub chmod : Option Errno
  pub close : Option Errno
  pub rename : Option Errno
  pub remove : Option Errno
  pub open_source : Option Errno
  pub stat_source : Option Errno
  pub close_source : Option Errno
  pub open_parent : Option Errno

-- All entries of a key are gone.
unfoldable pub erase : String → Dict Inode → Dict Inode
erase path table = select (λ (entry : String × Inode). not (entry.0 == path)) table

abbrev pub set_files : Dict Inode → World → World
set_files table w = record w { files = table; past = w.files ∷ w.past }

unfoldable pub release : String → List String → List String
release path handles = select (λ (held : String). not (held == path)) handles

-- What a call changes in a file that is there.
unfoldable pub change : Stage → Option Errno → String → (Inode → Inode) → Io Unit
change stage (some e) path f w = (err stage e, w)
change stage none path f w = elim (lookup path w.files) [
  | none ↦ (err stage not_exist, w)
  | some inode ↦ (ok tt, set_files (insert path (f inode) w.files) w)
]

-- The descriptor is gone also where the call reports an error.
unfoldable pub close_file : Stage → Option Errno → String → Io Unit
unfolding release
close_file stage fault path w =
    let w' : World = record w { handles = release path w.handles } in
    elim fault [ none ↦ (ok tt, w') | some e ↦ (err stage e, w') ]

-- open with O_CREATE and O_EXCL
unfoldable pub create_exclusive : Option Errno → String → ℕ → World → Option Errno × World
create_exclusive (some e) path mode w = (some e, w)
create_exclusive none path mode w = if has path w.files then (some exist, w) else (
  none,
  record (set_files (insert path (record { content = ""; synced = ""; mode = mode }) w.files) w) {
    handles = path ∷ w.handles;
  },
)

-- What os.Stat answers; the fault is another error than that the file is not there.
unfoldable pub stat_file : Stage → Option String → String → World → Result Inode
stat_file stage (some text) path w = err stage (other_errno text)
stat_file stage none path w = elim (lookup path w.files) [
  | none ↦ err stage not_exist
  | some inode ↦ ok inode
]

unfoldable pub rename_file : Stage → Option Errno → String → String → Io Unit
unfolding erase
rename_file stage (some e) from to w = (err stage e, w)
rename_file stage none from to w = elim (lookup from w.files) [
  | none ↦ (err stage not_exist, w)
  | some inode ↦ (ok tt, set_files (insert to inode (erase from w.files)) w)
]

unfoldable pub remove_file : Option Errno → String → World → World
unfolding erase
remove_file (some e) path w = w
remove_file none path w = set_files (erase path w.files) w
