-- ===== src/Rules/Structure.antt =====
-- ValidateDirectory of internal/rules/structural.go. What the file system answers is an argument, and
-- the text of a message is left out but for the subdirectory that it names.
pub mod Laws
mod Samples
use text.Mathlib.Text.{starts_with}
use rootline.Base.{
  ℕ, String, Option, none, some, List, [], ◌∷◌, ◌++◌, Bool, true, false, ◌==◌, ◌&&◌, not, ltb,
  select, length, if◌then◌else◌,
}
use rootline.Base.Int.{ℤ, pos, negsuc, is_positive}
use rootline.Rules.{StemFile, SubdirRules, structural_empty}

-- An os.DirEntry: its Name and IsDir.
pub record DirEntry : Type 0 where
  pub name : String
  pub is_dir : Bool

-- What os.Stat says of the index file of a subdirectory.
pub data Stat : Type 0 where
  missing : Stat
  failed : Stat
  present : Bool → Stat

-- A ValidationError of a directory.
pub record DirectoryError : Type 0 where
  pub rule : String
  pub subdir : String
  pub source : String
  pub severity : String

-- isHiddenEntry
unfoldable pub is_hidden_entry : String → Bool
is_hidden_entry name = starts_with name "."

abbrev pub names_of : List DirEntry → List String
names_of [] = []
names_of (e ∷ es) = e.name ∷ names_of es

-- The subdirectories that are not hidden.
unfoldable pub subdirs_of : List DirEntry → List String
subdirs_of entries = names_of (select (λ e. e.is_dir && not (is_hidden_entry e.name)) entries)

-- n < i and i < n, on an int and a length
abbrev pub below : ℕ → ℤ → Bool
below n (pos i) = ltb n i
below n (negsuc i) = false

abbrev pub beyond : ℕ → ℤ → Bool
beyond n (pos i) = ltb i n
beyond n (negsuc i) = true

-- The switch on what os.Stat says.
unfoldable pub index_rule : Stat → Option String
index_rule missing = some "require_index"
index_rule failed = some "structural"
index_rule (present regular) = if regular then none else some "require_index"

-- The loop over the subdirectories.
unfoldable pub index_errors : (String → Stat) → String → String → List String → List DirectoryError
index_errors stat source severity [] = []
index_errors stat source severity (d ∷ ds) =
    let rest = index_errors stat source severity ds in
    elim (index_rule (stat d)) [
      | none ↦ rest
      | some rule ↦ record { rule = rule; subdir = d; source = source; severity = severity } ∷ rest
    ]

abbrev pub one_error : Bool → String → String → String → List DirectoryError
one_error wrong rule source severity =
    if wrong
    then record { rule = rule; subdir = ""; source = source; severity = severity } ∷ []
    else []

unfoldable pub effective_severity : String → String
effective_severity s = if s == "" then "error" else s

-- The checks of a directory that can be read.
unfoldable pub directory_errors :
    (String → Stat) → SubdirRules → String → List String → List DirectoryError
directory_errors stat rules source subdirs =
    let severity = effective_severity rules.severity in
    one_error (is_positive rules.min_children && below (length subdirs) rules.min_children)
      "min_children" source severity
    ++ one_error (is_positive rules.max_children && beyond (length subdirs) rules.max_children)
        "max_children" source severity
    ++ (if rules.require_index == "" then [] else index_errors stat source severity subdirs)

-- ValidateDirectory of a stem that is not nil; `entries` is what os.ReadDir gives, none on an error.
unfoldable pub validate_directory :
    Option (List DirEntry) → (String → Stat) → StemFile → List DirectoryError
validate_directory entries stat stem =
    if structural_empty stem.structural then [] else elim entries as (λ _. List DirectoryError) [
      | none ↦ one_error true "structural" stem.path (effective_severity stem.structural.severity)
      | some es ↦ directory_errors stat stem.structural stem.path (subdirs_of es)
    ]
