-- ===== src/Infer/Samples.antt =====
-- A corpus of two directories: the laws of internal/infer/scopes.go and delta.go at it, and tests.
use rootline.Base.{
  String, ◌≡◌, ◌≢◌, ◌↔◌, sym, ◌∙◌, ap, eq_iff, inl, inr, refl, none, some, List, [], ◌∷◌, In, true,
  false, arith, ◌==◌, if◌then◌else◌,
}
use rootline.Base.Dict.{lookup, has}
use rootline.Base.FilePath.{dir, join}
use rootline.Base.Int.{pos}
use rootline.Value.{Fields, str, end, field, get}
use rootline.Extract.{Record}
use rootline.Extract.Section.{Quoting}
use rootline.Rules.{StemFile, SchemaField}
use rootline.Rules.Merge.{empty_stem}
use rootline.Infer.{
  Inference, Governed, add_to_scope, group_by_scope, declared_covers, is_covered, is_relevant,
  covered_everywhere, filter_covered_inferences,
}
use rootline.Infer.Scopes.{governed, IsGrouped, group_by_scope-IsGrouped}
use rootline.Infer.Coverage.{AreAgreed, IsCoveredAt, filter_covered_inferences_iff}

abbrev note : String → Fields → Record
note path frontmatter = record {
  path = path;
  kind = "markdown";
  frontmatter = frontmatter;
  body = "";
  links = [];
  derived = end;
}

abbrev task : Record
task = note "tasks/a.md" (field "status" (str "open") end)

abbrev memo : Record
memo = note "memos/b.md" end

abbrev corpus : List Record
corpus = task ∷ memo ∷ []

abbrev status : SchemaField
status = record {
  type = "string";
  required = true;
  values = [];
  default = "";
  severity = "";
  source = "";
  extract = "";
  prefix = "";
  digits = pos 0;
  excludes = none;
  match = none;
  required_match = none;
  heading = "";
  ordered = none;
  declaration = record {
    type_present = true;
    type_null = false;
    source_present = false;
    source_null = false;
    heading_present = false;
    ordered_present = false;
    null_field = false;
  };
}

abbrev strict : StemFile
strict = record empty_stem { schema = ("status", status) ∷ [] }

-- The tasks have a stem that requires a status, and the rest has an empty one.
abbrev stems : String → Governed
stems d = record {
  stem = some (if d == "/docs/tasks" then strict else empty_stem);
  key = if d == "/docs/tasks" then "/docs/tasks/.stem" else "/docs/.stem";
}

abbrev unquoted : Quoting
unquoted = record { quote = λ text. text; unquote = λ _. none }

abbrev inferred : String → Inference
inferred kind = record {
  kind = kind;
  source = "statistics";
  field = "status";
  value = "string";
  message = "";
  source_directive = "";
}

-- The stem of the tasks requires the field, and no other scope has it.
required_dropped :
    filter_covered_inferences unquoted
      (inferred "required_field" ∷ inferred "enum_values" ∷ [])
      corpus
      "/docs"
      stems
    ≡ (inferred "enum_values" ∷ [])
unfolding filter_covered_inferences add_to_scope dir join is_covered declared_covers is_relevant has
    lookup get
required_dropped = refl

-- A field that no scope has is not covered.
unknown_kept :
    covered_everywhere unquoted
      (record (inferred "required_field") { field = "owner" })
      (group_by_scope corpus "/docs" stems)
    ≡ false
unfolding covered_everywhere group_by_scope add_to_scope dir join is_covered declared_covers
    is_relevant has lookup get
unknown_kept = refl

groups : group_by_scope (task ∷ memo ∷ task ∷ []) "/docs" stems ≡ (
    record { key = "/docs/tasks/.stem"; stem = some strict; records = task ∷ task ∷ [] }
    ∷ record { key = "/docs/.stem"; stem = some empty_stem; records = memo ∷ [] }
    ∷ [])
unfolding group_by_scope add_to_scope dir join
groups = refl

abbrev key_of : String → Record → String
key_of root rec = (governed root stems rec).key

other_keys : key_of "/docs" task ≢ key_of "/docs" memo
unfolding dir join
other_keys e = ground (arith, (eq_iff "/docs/tasks/.stem" "/docs/.stem").1 e)

agreed : AreAgreed (governed "/docs" stems) corpus
unfolding dir join
agreed a b (inl p) (inl q) e = rw (p, q) refl
agreed a b (inr (inl p)) (inr (inl q)) e = rw (p, q) refl
agreed a b (inl p) (inr (inl q)) e =
    absurd (other_keys (sym (ap (key_of "/docs") p) ∙ e ∙ ap (key_of "/docs") q))
agreed a b (inl p) (inr (inr z)) e = absurd z
agreed a b (inr (inl p)) (inr (inr z)) e = absurd z
agreed a b (inr (inr z)) m e = absurd z
agreed a b (inr (inl p)) (inl q) e =
    absurd (other_keys (sym (ap (key_of "/docs") q) ∙ sym e ∙ ap (key_of "/docs") p))

group_by_scope-IsGrouped_example :
    IsGrouped (governed "/docs" stems) corpus (group_by_scope corpus "/docs" stems)
group_by_scope-IsGrouped_example = group_by_scope-IsGrouped corpus "/docs" stems

filter_covered_inferences_iff_example :
    In (inferred "enum_values") (
      filter_covered_inferences unquoted
        (inferred "required_field" ∷ inferred "enum_values" ∷ [])
        corpus
        "/docs"
        stems)
    ↔ (In (inferred "enum_values") (inferred "required_field" ∷ inferred "enum_values" ∷ [])
        × ¬ IsCoveredAt unquoted (governed "/docs" stems) corpus (inferred "enum_values"))
filter_covered_inferences_iff_example =
    filter_covered_inferences_iff unquoted (inferred "required_field" ∷ inferred "enum_values" ∷ [])
      corpus "/docs" stems agreed (inferred "enum_values")
