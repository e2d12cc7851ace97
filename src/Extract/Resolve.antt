-- ===== src/Extract/Resolve.antt =====
-- internal/extract/body_source.go: the value that a source has in the sections of a record's body.
-- The sections are given (sectionsForRecord, which splits the body, is left out).
pub mod Unique
use rootline.Base.{
  ℕ, String, ◌≡◌, Bool, true, false, not, ◌&&◌, ◌||◌, Option, none, some, List, [], ◌∷◌,
  if◌then◌else◌, ◌==◌, nat_eq, leb, length,
}
use rootline.Extract.Section.{
  HeadingKey, SectionSelector, Section, Quoting, Parsed, ok, fault, ambiguous, BodySource, h1,
  section, same_key, parse_body_source, ◌>>=◌,
}

-- The keys are the same, one by one.
unfoldable pub same_keys : List HeadingKey → List HeadingKey → Bool
unfolding same_key
same_keys [] [] = true
same_keys [] (b ∷ bs) = false
same_keys (a ∷ rest) [] = false
same_keys (a ∷ rest) (b ∷ bs) = same_key a b && same_keys rest bs

-- The last keys of the path, as many as the selector has, are the selector.
unfoldable pub is_suffix : List HeadingKey → SectionSelector → Bool
unfolding same_keys
is_suffix [] selector = same_keys [] selector
is_suffix (key ∷ path) selector =
    let shorter = is_suffix path selector in
    if nat_eq (length (key ∷ path)) (length selector)
    then same_keys (key ∷ path) selector
    else shorter

unfoldable pub section_selector_matches : List HeadingKey → SectionSelector → Bool
unfolding is_suffix
section_selector_matches path [] = false
section_selector_matches path (key ∷ keys) =
    if leb (length (key ∷ keys)) (length path) then is_suffix path (key ∷ keys) else false

-- The loop: the match so far, and an error at the second.
unfoldable pub find_unique :
    Option Section → List Section → SectionSelector → Parsed (Option Section)
unfolding section_selector_matches
find_unique found [] selector = ok found
find_unique found (s ∷ sections) selector =
    let next = if section_selector_matches s.path selector then some s else found in
    let rest = find_unique next sections selector in
    if section_selector_matches s.path selector
    then elim found [ none ↦ rest | some _ ↦ fault ambiguous ]
    else rest

-- The content, if a section matches.
unfoldable pub resolve_unique_section : List Section → SectionSelector → Parsed (Option String)
unfolding find_unique
resolve_unique_section sections selector = find_unique none sections selector >>= λ found.
    ok (elim found [ none ↦ none | some s ↦ some s.content ])

unfoldable pub resolve_h1 : List Section → String
resolve_h1 [] = ""
resolve_h1 (s ∷ sections) =
    let rest = resolve_h1 sections in if nat_eq s.level 1 then s.heading else rest

abbrev non_empty : String → Option String
non_empty text = if text == "" then none else some text

unfoldable pub resolve_source : List Section → BodySource → Parsed (Option String)
unfolding resolve_h1 resolve_unique_section
resolve_source sections h1 = ok (non_empty (resolve_h1 sections))
resolve_source sections (section selector) = resolve_unique_section sections selector

unfoldable pub resolve_body_value : Quoting → List Section → String → Parsed (Option String)
unfolding parse_body_source resolve_source
resolve_body_value quoting sections directive =
    parse_body_source quoting directive >>= λ source. resolve_source sections source
