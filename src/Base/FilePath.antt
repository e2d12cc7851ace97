-- ===== src/Base/FilePath.antt =====
-- Go's path/filepath on a system whose separator is the slash: Clean, Dir, Base, Join and Rel.
use Prim.Native.Char.{Char, code}
use Prim.Native.String
use Prim.Native.String.{String}
use mathlib.Core.Bool.{Bool, true, false, not, ◌&&◌}
use mathlib.Core.Option.{Option, none, some}
use mathlib.Core.List.{List, [], ◌∷◌, ◌++◌, map, reverse}
use text.Mathlib.Text.{◌==◌, starts_with}
use rootline.Base.Tests.{if◌then◌else◌, nat_eq}

infixr 65 ◌<>◌
abbrev pub ◌<>◌ : String → String → String
◌<>◌ = String.◌++◌

abbrev grow : Char → List String → List String
grow c [] = String.◌∷◌ c "" ∷ []
grow c (part ∷ parts) = String.◌∷◌ c part ∷ parts

-- strings.Split(path, "/")
unfoldable pub split_path : String → List String
split_path String.[] = "" ∷ []
split_path (String.◌∷◌ c s) =
    let parts = split_path s in if nat_eq (code c) b'/' then "" ∷ parts else grow c parts

-- strings.Join(parts, "/")
unfoldable pub join_path : List String → String
join_path [] = ""
join_path (part ∷ []) = part
join_path (part ∷ next ∷ parts) = part <> "/" <> join_path (next ∷ parts)

unfoldable pub is_abs : String → Bool
is_abs path = starts_with path "/"

-- A step up leaves the last directory; above the root it stays there, and above the start of a
-- relative path it is kept. The last directory is at the head.
unfoldable pub step_up : Bool → List String → List String
step_up rooted [] = if rooted then [] else ".." ∷ []
step_up rooted (last ∷ above) = if not rooted && last == ".." then ".." ∷ last ∷ above else above

unfoldable pub step_into : Bool → List String → String → List String
unfolding step_up
step_into rooted above part =
    if part == ""
    then above
    else if part == "."
    then above
    else if part == ".."
    then step_up rooted above
    else part ∷ above

unfoldable pub walk : Bool → List String → List String → List String
unfolding step_into
walk rooted above [] = reverse above
walk rooted above (part ∷ parts) = walk rooted (step_into rooted above part) parts

-- The directories of the cleaned path, from the root or the start.
unfoldable pub clean_parts : String → List String
unfolding walk split_path is_abs
clean_parts path = walk (is_abs path) [] (split_path path)

unfoldable pub print_path : Bool → List String → String
unfolding join_path
print_path true parts = "/" <> join_path parts
print_path false [] = "."
print_path false (part ∷ parts) = join_path (part ∷ parts)

-- filepath.Clean
unfoldable pub clean : String → String
unfolding clean_parts print_path is_abs
clean path = print_path (is_abs path) (clean_parts path)

unfoldable pub but_last : List String → List String
but_last [] = []
but_last (part ∷ []) = []
but_last (part ∷ next ∷ parts) = part ∷ but_last (next ∷ parts)

-- filepath.Dir: what stands before the last slash, cleaned.
unfoldable pub dir : String → String
unfolding walk split_path print_path is_abs but_last
dir path = print_path (is_abs path) (walk (is_abs path) [] (but_last (split_path path)))

unfoldable pub last_named : String → List String → String
last_named found [] = found
last_named found (part ∷ parts) = last_named (if part == "" then found else part) parts

-- filepath.Base: the last part, trailing slashes aside.
unfoldable pub base : String → String
unfolding last_named split_path is_abs
base path =
    if path == "" then "." else last_named (if is_abs path then "/" else ".") (split_path path)

-- filepath.Join of two texts.
unfoldable pub join : String → String → String
unfolding clean
join parent name =
    if parent == "" then (if name == "" then "" else clean name) else clean (parent <> "/" <> name)

-- The steps from one directory to another: up to the parts they share, and down. None where it
-- would take a step up from an unknown directory.
unfoldable pub rel_parts : List String → List String → Option (List String)
rel_parts [] target = some target
rel_parts (here ∷ from) [] =
    if here == ".." then none else some (".." ∷ map (λ (_ : String). "..") from)
rel_parts (here ∷ from) (there ∷ target) =
    let rest = rel_parts from target in
    if here == there
    then rest
    else if here == ".."
    then none
    else some (".." ∷ (map (λ (_ : String). "..") from ++ there ∷ target))

abbrev pub both_or_neither : Bool → Bool → Bool
both_or_neither a b = if a then b else not b

-- filepath.Rel
unfoldable pub rel : String → String → Option String
unfolding clean_parts is_abs rel_parts print_path
rel from target =
    if both_or_neither (is_abs from) (is_abs target)
    then elim (rel_parts (clean_parts from) (clean_parts target)) [
      | none ↦ none
      | some parts ↦ some (print_path false parts)
    ]
    else none
