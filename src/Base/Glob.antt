-- ===== src/Base/Glob.antt =====
-- filepath.Match on Unix, without its error: a malformed pattern matches nothing.
use Prim.Native.Nat.{ℕ, zero, suc}
use Prim.Native.Char.{Char, code}
use Prim.Native.String.{String, len}
use mathlib.Core.Bool.{Bool, true, false, not, ◌&&◌, ◌||◌}
use mathlib.Core.Option.{Option, none, some}
use mathlib.Core.List.{List, [], ◌∷◌}
use rootline.Base.Tests.{nat_eq, leb, if◌then◌else◌}
use rootline.Base.Lists.{any}

-- A range of characters, by their codes.
pub record Span : Type 0 where
  pub low : ℕ
  pub high : ℕ

-- A star, a question mark, a character, and a class of characters, negated or not.
pub data Piece : Type 0 where
  run one : Piece
  letter : Char → Piece
  class : Bool → List Span → Piece

-- A character of a class, of which something must follow.
unfoldable pub class_letter : String → Option (ℕ × String)
class_letter String.[] = none
class_letter (String.◌∷◌ c String.[]) = none
class_letter (String.◌∷◌ c (String.◌∷◌ d s)) =
    if nat_eq (code c) b'-' || nat_eq (code c) b']'
    then none
    else if not (nat_eq (code c) 92)
    then some (code c, String.◌∷◌ d s)
    else elim s [ String.[] ↦ none | String.◌∷◌ e t ↦ some (code d, String.◌∷◌ e t) ]

-- The upper end of a range, where a dash follows its lower end.
unfoldable pub upper_end : ℕ → String → Option (ℕ × String)
unfolding class_letter
upper_end low String.[] = none
upper_end low (String.◌∷◌ c s) =
    if nat_eq (code c) b'-' then class_letter s else some (low, String.◌∷◌ c s)

-- The ranges up to the closing bracket, at least one.
unfoldable pub read_class : ℕ → Bool → String → Option (List Span × String)
unfolding class_letter upper_end
read_class zero started s = none
read_class (suc n) started String.[] = none
read_class (suc n) started (String.◌∷◌ c s) =
    if started && nat_eq (code c) b']' then some ([], s) else elim (class_letter (String.◌∷◌ c s)) [
      | none ↦ none
      | some (low, t) ↦ elim (upper_end low t) [
        | none ↦ none
        | some (high, u) ↦ elim (read_class n true u) [
          | none ↦ none
          | some (spans, v) ↦ some (record { low = low; high = high } ∷ spans, v)
        ]
      ]
    ]

abbrev before : Piece → Option (List Piece) → Option (List Piece)
before p none = none
before p (some ps) = some (p ∷ ps)

abbrev is_caret : String → Bool
is_caret String.[] = false
is_caret (String.◌∷◌ c s) = nat_eq (code c) b'^'

abbrev after_caret : String → String
after_caret String.[] = ""
after_caret (String.◌∷◌ c s) = if nat_eq (code c) b'^' then s else String.◌∷◌ c s

-- With as much fuel as the pattern has characters, and one more.
unfoldable pub parse_glob : ℕ → String → Option (List Piece)
unfolding read_class
parse_glob zero s = none
parse_glob (suc n) String.[] = some []
parse_glob (suc n) (String.◌∷◌ c s) =
    let rest = parse_glob n s in
    elim (nat_eq (code c) 92) [
      | true ↦ elim s [ String.[] ↦ none | String.◌∷◌ d t ↦ before (letter d) (parse_glob n t) ]
      | false ↦ elim (nat_eq (code c) b'[') [
        | true ↦ elim (read_class n false (after_caret s)) [
          | none ↦ none
          | some (spans, t) ↦ before (class (is_caret s) spans) (parse_glob n t)
        ]
        | false ↦
            if nat_eq (code c) b'*'
            then before run rest
            else if nat_eq (code c) b'?'
            then before one rest
            else before (letter c) rest
      ]
    ]

-- A star stands for any text without a slash.
unfoldable pub after_run : (String → Bool) → String → Bool
after_run next String.[] = next ""
after_run next (String.◌∷◌ c s) =
    next (String.◌∷◌ c s) || (not (nat_eq (code c) b'/') && after_run next s)

abbrev in_span : Char → Span → Bool
in_span c span = leb span.low (code c) && leb (code c) span.high

unfoldable pub fits : Piece → Char → Bool
fits run c = false
fits one c = not (nat_eq (code c) b'/')
fits (letter d) c = nat_eq (code d) (code c)
fits (class negated spans) c = if any (in_span c) spans then not negated else negated

abbrev first_fits : Piece → (String → Bool) → String → Bool
first_fits p next String.[] = false
first_fits p next (String.◌∷◌ c s) = fits p c && next s

abbrev is_blank : String → Bool
is_blank String.[] = true
is_blank (String.◌∷◌ c s) = false

unfoldable pub match_pieces : List Piece → String → Bool
unfolding after_run fits
match_pieces [] s = is_blank s
match_pieces (run ∷ ps) s = after_run (match_pieces ps) s
match_pieces (p ∷ ps) s = first_fits p (match_pieces ps) s

unfoldable pub glob : String → String → Bool
unfolding parse_glob match_pieces
glob pattern name = elim (parse_glob (suc (len pattern)) pattern) [
  | none ↦ false
  | some pieces ↦ match_pieces pieces name
]
