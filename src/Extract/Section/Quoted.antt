-- ===== src/Extract/Section/Quoted.antt =====
-- A selector of internal/extract/body_source.go, written and read again.
use Prim.Native.Char.{Char, code}
use Prim.Native.String.{String, [], ◌∷◌, ◌++◌, len}
use Prim.Native.String.append
use mathlib.Core.List.{List}
use text.Mathlib.TextLemmas.{append_assoc}
use text.Mathlib.TextPositions.{len-append}
use rootline.Base.{
  ℕ, zero, suc, ◌≤◌, ◌≡◌, refl, sym, ap, ◌∙◌, arith, Bool, true, false, not, ◌&&◌, ◌||◌, Option,
  none, some, nat_eq, Bool-cases, All, length, eq_iff, ◌==◌, inl, inr, Option-cases,
}
use rootline.Query.Text.{trim_prefix, trim_prefix-append}
use rootline.Extract.Section.{
  HeadingKey, SectionSelector, Quoting, SourceFault, ok, fault, hashes, exact_heading, count_hashes,
  level_in_range, parse_heading_key, split_quoted, read_part, level_follows, read_heading,
  parse_parts, section_prefix, parse_section_selector, valid_key, validate_keys,
  validate_section_selector, print_parts, canonical_section_selector_source, parse_body_source,
  section, require_parts,
}

-- The inside of a Go literal in double quotes: a quote stands only after a backslash, and so does
-- the last backslash's partner.
abbrev pub is_inside : Bool → String → Bool
is_inside escaped [] = not escaped
is_inside escaped (c ∷ s) =
    let rest = is_inside (not escaped && nat_eq (code c) 92) s in
    (escaped || not (nat_eq (code c) 34)) && rest

-- A text is quoted as the Go specification says, and read back.
pub record IsQuoted (quoting : Quoting) (text : String) : Type 0 where
  pub inside : String
  pub literal : quoting.quote text ≡ "\"" ++ (inside ++ "\"")
  pub closed : is_inside false inside ≡ true
  pub reads_back : quoting.unquote (quoting.quote text) ≡ some text

ok_inj : {A : Type 0} {a b : A} → ok a ≡ ok b → a ≡ b
ok_inj h = cc

fault-ne-ok : {A : Type 0} {e : SourceFault} {a : A} → ¬ (fault e ≡ ok a)
fault-ne-ok h = cc

one_then : (c : Char) (s : String) → (c ∷ []) ++ s ≡ c ∷ s
one_then c s = append.cons c [] s ∙ ap (λ (u : String). c ∷ u) (append.nil s)

split_close : (rest : String) → split_quoted false false ("\"" ++ rest) ≡ some ("\"", rest)
unfolding split_quoted
split_close rest = ap (split_quoted false false) (one_then "\"" rest)

split_inside :
    (body rest : String) (escaped : Bool)
    → is_inside escaped body ≡ true
    → split_quoted false escaped (body ++ ("\"" ++ rest)) ≡ some (body ++ "\"", rest)
unfolding split_quoted
split_inside [] rest true h = absurd (cc)
split_inside [] rest false h =
    ap (split_quoted false false) (append.nil ("\"" ++ rest))
    ∙ split_close rest
    ∙ ap (λ (u : String). some (u, rest)) (sym (append.nil "\""))
split_inside (c ∷ body) rest escaped h =
    let inner : is_inside (not escaped && nat_eq (code c) 92) body ≡ true = ground (arith, h) in
    let ih = split_inside body rest (not escaped && nat_eq (code c) 92) inner in
    rw (append.cons c body ("\"" ++ rest)) (rw (append.cons c body "\"") (ground (arith, h, ih)))

hashes_counted :
    (n : ℕ) (text : String) → count_hashes (hashes n ++ (" " ++ text)) ≡ (n, " " ++ text)
unfolding count_hashes hashes
hashes_counted zero text =
    ap count_hashes (append.nil (" " ++ text))
    ∙ ap count_hashes (one_then " " text)
    ∙ ap (λ (u : String). (zero, u)) (sym (one_then " " text))
hashes_counted (suc n) text =
    ap count_hashes
      (append_assoc "#" (hashes n) (" " ++ text) ∙ one_then "#" (hashes n ++ (" " ++ text)))
    ∙ ap (λ (p : ℕ × String). (suc p.0, p.1)) (hashes_counted n text)

key_read :
    (key : HeadingKey)
    → level_in_range key.level ≡ true
    → parse_heading_key (exact_heading key) ≡ ok key
unfolding parse_heading_key exact_heading
key_read key h = rw (hashes_counted key.level key.text) (
    rw h (
      rw (trim_prefix-append " " key.text) (
        ap (λ (n : ℕ). ok (record { level = n; text = key.text }))
          (ap (λ (p : ℕ × String). p.0) (hashes_counted key.level key.text)))))

-- A part is read as the literal and what follows it.
part_read :
    (quoting : Quoting) (text rest : String)
    → IsQuoted quoting text
    → read_part ("[" ++ (quoting.quote text ++ ("]" ++ rest))) ≡ some (quoting.quote text, rest)
unfolding read_part
part_read quoting text rest q =
    let after = "]" ++ rest in
    let opened : quoting.quote text ++ after ≡ "\"" ∷ (q.inside ++ ("\"" ++ after)) =
      ap (λ (u : String). u ++ after) q.literal
      ∙ append_assoc "\"" (q.inside ++ "\"") after
      ∙ one_then "\"" ((q.inside ++ "\"") ++ after)
      ∙ ap (λ (u : String). "\"" ∷ u) (append_assoc q.inside "\"" after) in
    ap read_part (one_then "[" (quoting.quote text ++ after) ∙ ap (λ (u : String). "[" ∷ u) opened)
    ∙ rw (split_inside q.inside after false q.closed) (
        rw (trim_prefix-append "]" rest) (
          ap (λ (u : String). some (u, rest))
            (sym (one_then "\"" (q.inside ++ "\"")) ∙ sym q.literal)))

heading_read :
    (quoting : Quoting) (key : HeadingKey)
    → level_in_range key.level ≡ true
    → IsQuoted quoting (exact_heading key)
    → read_heading quoting (quoting.quote (exact_heading key)) ≡ ok key
unfolding read_heading
heading_read quoting key h q = rw (q.reads_back, read_heading) (key_read key h)

-- Selectors whose headings are quoted as said.
abbrev pub AllQuoted : Quoting → SectionSelector → Type 0
AllQuoted quoting selector =
    All (λ (key : HeadingKey). IsQuoted quoting (exact_heading key)) selector

one_part :
    (quoting : Quoting) (fuel : ℕ) (last : Option ℕ) (c : Char) (s literal rest : String)
    (key : HeadingKey) (keys : SectionSelector)
    → read_part (c ∷ s) ≡ some (literal, rest)
    → read_heading quoting literal ≡ ok key
    → level_follows last key.level ≡ true
    → parse_parts quoting fuel (some key.level) rest ≡ ok keys
    → parse_parts quoting (suc fuel) last (c ∷ s) ≡ ok (List.◌∷◌ key keys)
unfolding parse_parts
one_part quoting fuel last c s literal rest key keys part heading follows more =
    rw (part, parse_parts) (rw heading (rw follows (rw more refl)))

key_in_range : (key : HeadingKey) → valid_key key ≡ true → level_in_range key.level ≡ true
unfolding valid_key
key_in_range key h = ground (arith, h)

keys_valid :
    (last : Option ℕ) (key : HeadingKey) (keys : SectionSelector)
    → validate_keys last (List.◌∷◌ key keys) ≡ none
    → (valid_key key ≡ true)
      × (level_follows last key.level ≡ true)
      × (validate_keys (some key.level) keys ≡ none)
unfolding validate_keys
keys_valid last key keys v = ground (arith, v)

parts_read :
    (quoting : Quoting) (selector : SectionSelector) (last : Option ℕ) (fuel : ℕ)
    → length selector ≤ fuel
    → AllQuoted quoting selector
    → validate_keys last selector ≡ none
    → parse_parts quoting fuel last (print_parts quoting selector) ≡ ok selector
unfolding parse_parts print_parts
parts_read quoting List.[] last fuel h q v = refl
parts_read quoting (List.◌∷◌ key keys) last zero h q v = absurd (omega arith)
parts_read quoting (List.◌∷◌ key keys) last (suc fuel) h q v =
    let heading = exact_heading key in
    let rest = print_parts quoting keys in
    let inner = quoting.quote heading ++ ("]" ++ rest) in
    let (valid, follows, more) = keys_valid last key keys v in
    ap (parse_parts quoting (suc fuel) last) (one_then "[" inner)
    ∙ one_part quoting fuel last "[" inner (quoting.quote heading) rest key keys
        (ap read_part (sym (one_then "[" inner)) ∙ part_read quoting heading rest q.0)
        (heading_read quoting key (key_in_range key valid) q.0) follows
        (parts_read quoting keys (some key.level) fuel (omega arith) q.1 more)

-- The text of the parts is no shorter than they are many, so the fuel lasts.
parts_long :
    (quoting : Quoting) (selector : SectionSelector)
    → length selector ≤ len (print_parts quoting selector)
unfolding print_parts
parts_long quoting List.[] = omega arith
parts_long quoting (List.◌∷◌ key keys) =
    let rest = print_parts quoting keys in
    omega (
      arith,
      parts_long quoting keys,
      len-append "[" (quoting.quote (exact_heading key) ++ ("]" ++ rest)),
      len-append (quoting.quote (exact_heading key)) ("]" ++ rest),
      len-append "]" rest,
    )

not_h1 : (rest : String) → (section_prefix ++ rest == "body.h1") ≡ false
unfolding trim_prefix
not_h1 rest = elim (Bool-cases (section_prefix ++ rest == "body.h1")) [
  | inl e ↦
      let same : section_prefix ++ rest ≡ "body.h1" =
        (eq_iff (section_prefix ++ rest) "body.h1").0 e in
      let cut : none ≡ some rest =
        ap (trim_prefix section_prefix) (sym same) ∙ trim_prefix-append section_prefix rest in
      absurd (cc)
  | inr e ↦ e
]

selector_read :
    (quoting : Quoting) (selector : SectionSelector)
    → AllQuoted quoting selector
    → validate_section_selector selector ≡ none
    → parse_section_selector quoting (section_prefix ++ print_parts quoting selector) ≡ ok selector
unfolding parse_section_selector validate_section_selector require_parts
selector_read quoting List.[] q valid = absurd (cc)
selector_read quoting (List.◌∷◌ key keys) q valid =
    let selector = List.◌∷◌ key keys in
    let parts = print_parts quoting selector in
    rw (trim_prefix-append section_prefix parts, parse_section_selector)
      (rw (parts_read quoting selector none (len parts) (parts_long quoting selector) q valid) refl)

read_back :
    (quoting : Quoting) (selector : SectionSelector)
    → AllQuoted quoting selector
    → validate_section_selector selector ≡ none
    → parse_body_source quoting (section_prefix ++ print_parts quoting selector)
      ≡ ok (section selector)
unfolding parse_body_source
read_back quoting selector q valid =
    let parts = print_parts quoting selector in
    rw (not_h1 parts, parse_body_source)
      (rw (trim_prefix-append section_prefix parts)
        (rw (selector_read quoting selector q valid) refl))

canonical_parts :
    (quoting : Quoting) (selector : SectionSelector) (source : String)
    → canonical_section_selector_source quoting selector ≡ ok source
    → (validate_section_selector selector ≡ none)
      × (source ≡ section_prefix ++ print_parts quoting selector)
unfolding canonical_section_selector_source
canonical_parts quoting selector source h =
    elim (Option-cases (validate_section_selector selector)) [
      | inl e ↦ (e, sym (ok_inj (rw (e, canonical_section_selector_source) at h)))
      | inr (x, e) ↦ absurd (fault-ne-ok (rw (e, canonical_section_selector_source) at h))
    ]

-- If CanonicalSectionSelectorSource gives a source for a selector, then ParseBodySource reads the
-- source as that selector. The headings must be quoted by strconv.Quote as a literal between double
-- quotes, inside which a quote stands only after a backslash, and that strconv.Unquote reads back.
pub parse_body_source-canonical_section_selector_source :
    (quoting : Quoting) (selector : SectionSelector) (source : String)
    → AllQuoted quoting selector
    → canonical_section_selector_source quoting selector ≡ ok source
    → parse_body_source quoting source ≡ ok (section selector)
parse_body_source-canonical_section_selector_source quoting selector source q h =
    let (valid, printed) = canonical_parts quoting selector source h in
    rw printed (read_back quoting selector q valid)
