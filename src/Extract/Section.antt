-- ===== src/Extract/Section.antt =====
-- internal/extract/body_source.go: the sources that name a part of a record's body. Go's quoting of
-- strings (strconv.Quote and strconv.Unquote) is the parameter `Quoting`; texts of errors are left
-- out.
pub mod Quoted
pub mod Samples
use Prim.Native.Char.{Char, code}
use Prim.Native.String.{String, [], ◌∷◌, ◌++◌, len}
use mathlib.Core.List.{List}
use mathlib.Core.List
use rootline.Base.{
  ℕ, zero, suc, ◌+◌, ◌≡◌, Bool, true, false, not, ◌&&◌, ◌||◌, Option, none, some, if◌then◌else◌,
  ◌==◌, nat_eq, leb, ltb,
}
use rootline.Query.Text.{trim_prefix}

pub record HeadingKey : Type 0 where
  pub level : ℕ
  pub text : String

abbrev pub SectionSelector : Type 0
SectionSelector = List HeadingKey

-- SectionPath is the same type.
pub record Section : Type 0 where
  pub heading : String
  pub level : ℕ
  pub path : List HeadingKey
  pub content : String

pub record Quoting : Type 0 where
  pub quote : String → String
  pub unquote : String → Option String

pub data SourceFault : Type 0 where
  unsupported malformed bad_heading levels_not_increasing empty_selector ambiguous : SourceFault

pub data Parsed (A : Type 0) : Type 0 where
  ok : A → Parsed A
  fault : SourceFault → Parsed A

pub data BodySource : Type 0 where
  h1 : BodySource
  section : SectionSelector → BodySource

unfoldable pub hashes : ℕ → String
hashes zero = ""
hashes (suc n) = "#" ++ hashes n

unfoldable pub exact_heading : HeadingKey → String
unfolding hashes
exact_heading key = hashes key.level ++ (" " ++ key.text)

-- The number of hashes in front, and what follows them.
unfoldable pub count_hashes : String → ℕ × String
count_hashes [] = (0, "")
count_hashes (c ∷ s) =
    let more = count_hashes s in if nat_eq (code c) b'#' then (suc more.0, more.1) else (0, c ∷ s)

unfoldable pub level_in_range : ℕ → Bool
level_in_range level = leb 1 level && leb level 6

unfoldable pub parse_heading_key : String → Parsed HeadingKey
unfolding count_hashes level_in_range
parse_heading_key heading =
    let (level, rest) = count_hashes heading in
    if level_in_range level
    then elim (trim_prefix " " rest) [
      | none ↦ fault bad_heading
      | some text ↦ ok (record { level = level; text = text })
    ]
    else fault bad_heading

abbrev prepend : Char → String × String → String × String
prepend c parts = (c ∷ parts.0, parts.1)

-- quotedStringEnd, from the place after the opening quote: the literal to its closing quote, and
-- what follows it. `raw` says that the quote is a backquote.
unfoldable pub split_quoted : Bool → Bool → String → Option (String × String)
split_quoted raw escaped [] = none
split_quoted raw escaped (c ∷ s) =
    let backslash = not raw && not escaped && nat_eq (code c) 92 in
    let rest = split_quoted raw backslash s in
    if not escaped && nat_eq (code c) (if raw then 96 else 34)
    then some (c ∷ [], s)
    else elim rest [ none ↦ none | some parts ↦ some (prepend c parts) ]

-- One selector part: the quoted text and what follows its closing bracket.
unfoldable pub read_part : String → Option (String × String)
unfolding split_quoted
read_part [] = none
read_part (bracket ∷ []) = none
read_part (bracket ∷ (quote ∷ s)) =
    let raw = nat_eq (code quote) 96 in
    if nat_eq (code bracket) b'[' && (nat_eq (code quote) 34 || raw)
    then elim (split_quoted raw false s) [
      | none ↦ none
      | some parts ↦ elim (trim_prefix "]" parts.1) [
        | none ↦ none
        | some rest ↦ some (quote ∷ parts.0, rest)
      ]
    ]
    else none

-- The levels must increase; there is none before the first.
unfoldable pub level_follows : Option ℕ → ℕ → Bool
level_follows none level = true
level_follows (some last) level = ltb last level

unfoldable pub read_heading : Quoting → String → Parsed HeadingKey
unfolding parse_heading_key
read_heading quoting literal = elim (quoting.unquote literal) [
  | none ↦ fault malformed
  | some heading ↦ parse_heading_key heading
]

infixl 5 ◌>>=◌
abbrev pub ◌>>=◌ : {A B : Type 0} → Parsed A → (A → Parsed B) → Parsed B
ok a >>= f = f a
fault e >>= f = fault e

-- The loop over the parts; each takes some of the text, so the text's length is fuel enough.
unfoldable pub parse_parts : Quoting → ℕ → Option ℕ → String → Parsed SectionSelector
unfolding read_part read_heading level_follows
parse_parts quoting fuel last [] = ok List.[]
parse_parts quoting zero last (c ∷ s) = fault malformed
parse_parts quoting (suc fuel) last (c ∷ s) = elim (read_part (c ∷ s)) [
  | none ↦ fault malformed
  | some part ↦ read_heading quoting part.0 >>= λ key.
      let rest = parse_parts quoting fuel (some key.level) part.1 in
      if level_follows last key.level
      then (rest >>= λ keys. ok (List.◌∷◌ key keys))
      else fault levels_not_increasing
]

abbrev pub section_prefix : String
section_prefix = "body.section"

unfoldable pub require_parts : SectionSelector → Parsed SectionSelector
require_parts List.[] = fault malformed
require_parts (List.◌∷◌ key keys) = ok (List.◌∷◌ key keys)

unfoldable pub parse_section_selector : Quoting → String → Parsed SectionSelector
unfolding parse_parts require_parts
parse_section_selector quoting directive = elim (trim_prefix section_prefix directive) [
  | none ↦ fault unsupported
  | some rest ↦ parse_parts quoting (len rest) none rest >>= require_parts
]

unfoldable pub parse_body_source : Quoting → String → Parsed BodySource
unfolding parse_section_selector
parse_body_source quoting directive =
    if directive == "body.h1" then ok h1 else elim (trim_prefix section_prefix directive) [
      | none ↦ fault unsupported
      | some _ ↦ parse_section_selector quoting directive >>= λ selector. ok (section selector)
    ]

unfoldable pub same_key : HeadingKey → HeadingKey → Bool
same_key a b = nat_eq a.level b.level && a.text == b.text

unfoldable pub valid_key : HeadingKey → Bool
unfolding level_in_range parse_heading_key same_key exact_heading
valid_key key = level_in_range key.level && (elim (parse_heading_key (exact_heading key)) [
  | fault _ ↦ false
  | ok parsed ↦ same_key parsed key
])

-- The faults of the keys, in order.
unfoldable pub validate_keys : Option ℕ → SectionSelector → Option SourceFault
unfolding valid_key level_follows
validate_keys last List.[] = none
validate_keys last (List.◌∷◌ key keys) =
    let rest = validate_keys (some key.level) keys in
    if not (valid_key key)
    then some bad_heading
    else if not (level_follows last key.level)
    then some levels_not_increasing
    else rest

unfoldable pub validate_section_selector : SectionSelector → Option SourceFault
unfolding validate_keys
validate_section_selector List.[] = some empty_selector
validate_section_selector (List.◌∷◌ key keys) = validate_keys none (List.◌∷◌ key keys)

unfoldable pub print_parts : Quoting → SectionSelector → String
unfolding exact_heading
print_parts quoting List.[] = ""
print_parts quoting (List.◌∷◌ key keys) =
    "[" ++ (quoting.quote (exact_heading key) ++ ("]" ++ print_parts quoting keys))

unfoldable pub canonical_section_selector_source : Quoting → SectionSelector → Parsed String
unfolding validate_section_selector print_parts
canonical_section_selector_source quoting selector = elim (validate_section_selector selector) [
  | some e ↦ fault e
  | none ↦ ok (section_prefix ++ print_parts quoting selector)
]

unfoldable pub canonical_section_source : Quoting → String → Parsed String
unfolding parse_heading_key canonical_section_selector_source
canonical_section_source quoting heading = parse_heading_key heading >>= λ key.
    canonical_section_selector_source quoting (List.◌∷◌ key List.[])
