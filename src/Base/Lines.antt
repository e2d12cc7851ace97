-- ===== src/Base/Lines.antt =====
-- Lines of a text: bufio.ScanLines, whose lines keep a carriage return here, bytes.TrimSpace, which
-- removes it, and the length in UTF-8.
use Prim.Native.Nat.{ℕ, ◌+◌}
use Prim.Native.Char.{Char, code}
use Prim.Native.String.{String, ◌++◌}
use Prim.Native.String.append
use text.Mathlib.TextLemmas.{append_assoc}
use mathlib.Core.Path.{◌≡◌, refl, sym, ap, ◌∙◌, subst}
use mathlib.Core.Bool.{Bool, true, false, ◌&&◌, ◌||◌}
use mathlib.Core.Logic.{◌≢◌, inl, inr}
use mathlib.Core.List.{List, [], ◌∷◌, ◌++◌ as ◌+++◌}
use native.Mathlib.Omega.{arith}
use rootline.Base.Tests.{nat_eq, leb, ltb, if◌then◌else◌, Bool-cases}

-- A character put in front of the first line.
abbrev pub grow_line : Char → List String → List String
grow_line c [] = (String.◌∷◌ c "") ∷ []
grow_line c (line ∷ lines) = (String.◌∷◌ c line) ∷ lines

abbrev pub is_break : Char → Bool
is_break c = nat_eq (code c) 10

-- The last line counts without a newline where it is not empty.
unfoldable pub split_lines : String → List String
split_lines String.[] = []
split_lines (String.◌∷◌ c s) =
    let lines = split_lines s in if is_break c then "" ∷ lines else grow_line c lines

-- unicode.IsSpace
unfoldable pub is_space : Char → Bool
is_space c =
    let n = code c in
    (leb 9 n && leb n 13)
    || nat_eq n 32
    || nat_eq n 0x85
    || nat_eq n 0xa0
    || nat_eq n 0x1680
    || (leb 0x2000 n && leb n 0x200a)
    || nat_eq n 0x2028
    || nat_eq n 0x2029
    || nat_eq n 0x202f
    || nat_eq n 0x205f
    || nat_eq n 0x3000

unfoldable pub trim_left : String → String
unfolding is_space
trim_left String.[] = ""
trim_left (String.◌∷◌ c s) = let rest = trim_left s in if is_space c then rest else String.◌∷◌ c s

abbrev put_before : Char → String → String
put_before c String.[] = if is_space c then "" else String.◌∷◌ c ""
put_before c (String.◌∷◌ d s) = String.◌∷◌ c (String.◌∷◌ d s)

unfoldable pub trim_right : String → String
trim_right String.[] = ""
trim_right (String.◌∷◌ c s) = put_before c (trim_right s)

unfoldable pub trim_space : String → String
unfolding trim_left trim_right
trim_space s = trim_right (trim_left s)

unfoldable pub utf8_width : Char → ℕ
utf8_width c =
    if ltb (code c) 0x80
    then 1
    else if ltb (code c) 0x800
    then 2
    else if ltb (code c) 0x1_0000
    then 3
    else 4

unfoldable pub byte_length : String → ℕ
unfolding utf8_width
byte_length String.[] = 0
byte_length (String.◌∷◌ c s) = utf8_width c + byte_length s

-- No newline stands in the text.
abbrev pub IsOneLine : String → Type 0
IsOneLine String.[] = Unit
IsOneLine (String.◌∷◌ c s) = (code c ≢ 10) × IsOneLine s

-- The text is empty or ends with a newline.
abbrev pub IsTerminated : String → Type 0
IsTerminated String.[] = Unit
IsTerminated (String.◌∷◌ c String.[]) = code c ≡ 10
IsTerminated (String.◌∷◌ c (String.◌∷◌ d s)) = IsTerminated (String.◌∷◌ d s)

grown :
    (c : Char) (lines : List String)
    → (x : String) × (xs : List String) × (grow_line c lines ≡ x ∷ xs)
grown c [] = (String.◌∷◌ c "", [], refl)
grown c (line ∷ lines) = (String.◌∷◌ c line, lines, refl)

nonempty_lines :
    (d : Char) (s : String)
    → (x : String) × (xs : List String) × (split_lines (String.◌∷◌ d s) ≡ x ∷ xs)
unfolding split_lines
nonempty_lines d s = elim (Bool-cases (is_break d)) [
  | inl e ↦ ("", split_lines s, rw e refl)
  | inr e ↦ let (x, xs, q) = grown d (split_lines s) in (x, xs, rw e q)
]

split_first :
    (c : Char) (s : String)
    → split_lines (String.◌∷◌ c s)
      ≡ (if is_break c then "" ∷ split_lines s else grow_line c (split_lines s))
unfolding split_lines
split_first c s = refl

pub split_lines-one : (line : String) → IsOneLine line → split_lines (line ++ "\n") ≡ line ∷ []
split_lines-one String.[] h = unfold split_lines in refl
split_lines-one (String.◌∷◌ c s) h =
    let other : is_break c ≡ false = ground (arith, h.0) in
    rw (append.cons c s "\n")
      (split_first c (s ++ "\n") ∙ rw other (ap (grow_line c) (split_lines-one s h.1)))

only_break : (c : Char) → is_break c ≡ true → split_lines (String.◌∷◌ c "") ≡ "" ∷ []
unfolding split_lines
only_break c e = rw e refl

joined :
    (c : Char) (s t : String) (x : String) (xs : List String)
    → split_lines s ≡ x ∷ xs
    → (if is_break c
        then "" ∷ (split_lines s +++ split_lines t)
        else grow_line c (split_lines s +++ split_lines t))
      ≡ split_lines (String.◌∷◌ c s) +++ split_lines t
joined c s t x xs q = elim (Bool-cases (is_break c)) [
  | inl e ↦ rw (split_first c s) (rw e refl)
  | inr e ↦ rw (split_first c s) (rw e (rw q refl))
]

-- What follows a text of whole lines is split by itself.
pub split_lines-append :
    (s t : String) → IsTerminated s → split_lines (s ++ t) ≡ split_lines s +++ split_lines t
split_lines-append String.[] t h = unfold split_lines in rw (append.nil t) refl
split_lines-append (String.◌∷◌ c String.[]) t h =
    let ends : is_break c ≡ true = ground (arith, h) in
    rw (append.cons c "" t) (
      rw (append.nil t) (
        split_first c t ∙ rw ends refl ∙ ap (λ xs. xs +++ split_lines t) (sym (only_break c ends))))
split_lines-append (String.◌∷◌ c (String.◌∷◌ d s)) t h =
    let ih = split_lines-append (String.◌∷◌ d s) t h in
    let (x, xs, q) = nonempty_lines d s in
    rw (append.cons c (String.◌∷◌ d s) t)
      (split_first c (String.◌∷◌ d s ++ t) ∙ rw ih (joined c (String.◌∷◌ d s) t x xs q))

IsTerminated-newline : (s : String) → IsTerminated (s ++ "\n")
IsTerminated-newline String.[] = refl
IsTerminated-newline (String.◌∷◌ c String.[]) = rw (append.cons c "" "\n") refl
IsTerminated-newline (String.◌∷◌ c (String.◌∷◌ d s)) =
    let ih = IsTerminated-newline (String.◌∷◌ d s) in
    rw (append.cons c (String.◌∷◌ d s) "\n")
      (rw (append.cons d s "\n") (subst IsTerminated (append.cons d s "\n") ih))

pub IsTerminated-append : (s line : String) → IsTerminated (s ++ (line ++ "\n"))
IsTerminated-append s line =
    subst IsTerminated (append_assoc s line "\n") (IsTerminated-newline (s ++ line))
