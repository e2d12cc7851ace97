-- ===== src/Rules/Match/Samples.antt =====
-- A sequence whose config depends on the kind of directory: matchConfig at it, and tests.
use rootline.Base.{◌≡◌, refl, [], ◌∷◌, All, true, false, some, none}
use rootline.Base.Glob.{
  glob, class_letter, upper_end, read_class, parse_glob, after_run, fits, match_pieces,
}
use rootline.Base.Dict.{Dict, lookup}
use rootline.Base.FilePath.{clean, split_path}
use rootline.Base.Int.{pos, is_positive}
use rootline.Base.Sort.{sort, place}
use rootline.Base.Text.{str_le}
use rootline.Value.{Fields, str, mapping, end, field, get}
use rootline.Rules.{SchemaField}
use rootline.Rules.Contract.Declarations.{
  keys_of, apply_sequence_config, config_prefix, config_digits, effective_config,
  unknown_sequence_config_keys,
}
use rootline.Rules.Match.{
  path_components, found, malformed, unmatched, match_config, apply_config, resolve_matched,
  filter_schema_by_match,
}
use rootline.Rules.Match.ByField.{IsFiltered, filter_schema_by_match-IsFiltered}
use rootline.Rules.Match.Deepest.{IsDeepest, Chosen, match_config-Chosen}

globs :
    (glob "T*-[a-c]?.md" "T001-bx.md" ≡ true)
    × (glob "T*-[^a-c]?.md" "T001-bx.md" ≡ false)
    × (glob "T[" "T" ≡ false)
    × (glob "*" "a/b" ≡ false)
    × (glob "\\*" "*" ≡ true)
unfolding glob class_letter upper_end read_class parse_glob after_run fits match_pieces
globs = (refl, refl, refl, refl, refl)

abbrev epic : Fields
epic = field "prefix" (str "E") end

abbrev task : Fields
task = field "prefix" (str "T") end

abbrev kinds : Fields
kinds = field "T*" (mapping task) (field "E*" (mapping epic) (field "X" (str "x") end))

deepest_found : match_config kinds ("E01" ∷ "T001.md" ∷ []) ≡ found "T*" task
unfolding match_config keys_of sort place str_le glob get
deepest_found = refl

no_map : match_config kinds ("E01" ∷ "X" ∷ "a.md" ∷ []) ≡ malformed "X"
unfolding match_config keys_of sort place str_le glob get
no_map = refl

no_match : match_config kinds ("a" ∷ "b.md" ∷ []) ≡ unmatched
unfolding match_config keys_of sort place str_le glob get
no_match = refl

match_config-Chosen_example :
    Chosen kinds
      (IsDeepest (sort str_le (keys_of kinds)) ("E01" ∷ "T001.md" ∷ []))
      (All
        (λ c. All (λ q. glob q c ≡ false) (sort str_le (keys_of kinds)))
        ("E01" ∷ "T001.md" ∷ []))
      (match_config kinds ("E01" ∷ "T001.md" ∷ []))
match_config-Chosen_example = match_config-Chosen kinds ("E01" ∷ "T001.md" ∷ [])

abbrev title : SchemaField
title = record {
  type = "string";
  required = false;
  values = [];
  default = "";
  severity = "";
  source = "";
  extract = "";
  prefix = "";
  digits = pos 3;
  excludes = none;
  match = none;
  required_match = some (record { patterns = "T*" ∷ []; configs = none });
  heading = "";
  ordered = none;
  declaration = record {
    type_present = true;
    type_null = false;
    source_present = false;
    source_null = false;
    heading_present = false;
    ordered_present = false;
    null_field = false;
  };
}

-- A sequence whose prefix depends on the directory.
abbrev id : SchemaField
id = record title {
  type = "sequence";
  match = some (record { patterns = []; configs = some kinds });
  required_match = none;
}

-- A field of the epics only.
abbrev owner : SchemaField
owner = record title { match = some (record { patterns = "X*" ∷ []; configs = none }) }

abbrev schema : Dict SchemaField
schema = ("title", title) ∷ ("owner", owner) ∷ ("id", id) ∷ []

abbrev at_task : Dict SchemaField
at_task = ("id", record id { prefix = "T" }) ∷ ("title", record title { required = true }) ∷ []

filtered : filter_schema_by_match schema "E01/T001.md" ≡ some at_task
unfolding filter_schema_by_match resolve_matched match_config apply_config apply_sequence_config
    config_prefix config_digits effective_config unknown_sequence_config_keys keys_of sort place
    str_le glob get lookup path_components clean split_path is_positive
filtered = refl

filter_schema_by_match-IsFiltered_example :
    IsFiltered schema (path_components "E01/T001.md") at_task "id"
filter_schema_by_match-IsFiltered_example =
    filter_schema_by_match-IsFiltered schema "E01/T001.md" at_task filtered "id"
