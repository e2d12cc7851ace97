-- ===== src/Extract/Section/Samples.antt =====
-- Small sources: the laws of internal/extract/body_source.go at them, and tests.
use Prim.Native.String.{String, ◌++◌}
use rootline.Base.{◌||◌, ◌≡◌, refl, true, none, some, List, [], ◌∷◌, if◌then◌else◌, ◌==◌, ◌↔◌}
use rootline.Query.Text.{trim_prefix}
use rootline.Extract.Section.{
  HeadingKey, Section, Quoting, ok, fault, unsupported, malformed, levels_not_increasing, ambiguous,
  h1, section, parse_body_source, exact_heading, canonical_section_selector_source,
  canonical_section_source,
}
use rootline.Extract.Section.Quoted.{AllQuoted, parse_body_source-canonical_section_selector_source}
use rootline.Extract.Resolve.{resolve_unique_section, section_selector_matches, resolve_body_value}
use rootline.Extract.Resolve.Unique.{matching, verdict, IsEnd, resolve_unique_section-verdict}

abbrev key_a : HeadingKey
key_a = record { level = 1; text = "A" }

abbrev key_b : HeadingKey
key_b = record { level = 2; text = "B" }

-- Two headings are quoted as Go does.
abbrev quoting : Quoting
quoting = record {
  quote = λ text. "\"" ++ (text ++ "\"");
  unquote = λ literal.
      if literal == "\"# A\""
      then some "# A"
      else if literal == "`## B`" || literal == "\"## B\""
      then some "## B"
      else none;
}

reads :
    parse_body_source quoting "body.section[\"# A\"][`## B`]" ≡ ok (section (key_a ∷ key_b ∷ []))
unfolding parse_body_source trim_prefix
reads = refl

reads_h1 : parse_body_source quoting "body.h1" ≡ ok h1
unfolding parse_body_source
reads_h1 = refl

not_increasing :
    parse_body_source quoting "body.section[\"## B\"][\"# A\"]" ≡ fault levels_not_increasing
unfolding parse_body_source trim_prefix
not_increasing = refl

unclosed : parse_body_source quoting "body.section[\"# A\"" ≡ fault malformed
unfolding parse_body_source trim_prefix
unclosed = refl

no_parts : parse_body_source quoting "body.section" ≡ fault malformed
unfolding parse_body_source trim_prefix
no_parts = refl

other_source : parse_body_source quoting "body.h2" ≡ fault unsupported
unfolding parse_body_source trim_prefix
other_source = refl

prints :
    canonical_section_selector_source quoting (key_a ∷ key_b ∷ [])
    ≡ ok "body.section[\"# A\"][\"## B\"]"
unfolding canonical_section_selector_source trim_prefix
prints = refl

prints_one : canonical_section_source quoting "## B" ≡ ok "body.section[\"## B\"]"
unfolding canonical_section_source trim_prefix
prints_one = refl

quoted : AllQuoted quoting (key_a ∷ key_b ∷ [])
unfolding exact_heading
quoted = (
  record { inside = "# A"; literal = refl; closed = refl; reads_back = refl },
  (record { inside = "## B"; literal = refl; closed = refl; reads_back = refl }, tt),
)

parse_body_source-canonical_section_selector_source_example :
    parse_body_source quoting "body.section[\"# A\"][\"## B\"]" ≡ ok (section (key_a ∷ key_b ∷ []))
parse_body_source-canonical_section_selector_source_example =
    parse_body_source-canonical_section_selector_source quoting (key_a ∷ key_b ∷ [])
      "body.section[\"# A\"][\"## B\"]" quoted prints

abbrev part : List HeadingKey → String → Section
part path content = record { heading = "B"; level = 2; path = path; content = content }

abbrev parts : List Section
parts =
    part (key_a ∷ []) "first" ∷ part (key_a ∷ key_b ∷ []) "second" ∷ part (key_b ∷ []) "third" ∷ []

resolves : resolve_body_value quoting parts "body.section[\"# A\"][\"## B\"]" ≡ ok (some "second")
unfolding resolve_body_value trim_prefix
resolves = refl

resolves_twice : resolve_body_value quoting parts "body.section[\"## B\"]" ≡ fault ambiguous
unfolding resolve_body_value trim_prefix
resolves_twice = refl

resolve_unique_section-verdict_example :
    (resolve_unique_section parts (key_b ∷ []) ≡ verdict (matching parts (key_b ∷ [])))
    × ((s : Section)
        → (section_selector_matches s.path (key_b ∷ []) ≡ true) ↔ IsEnd s.path (key_b ∷ []))
resolve_unique_section-verdict_example = resolve_unique_section-verdict parts (key_b ∷ [])
