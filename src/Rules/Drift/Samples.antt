-- ===== src/Rules/Drift/Samples.antt =====
-- A parent that says "done" over two children that say "open".
use rootline.Base.{String, ◌≡◌, ◌↔◌, refl, none, List, [], ◌∷◌, true, false, In}
use rootline.Base.Dict.{lookup}
use rootline.Base.Int.{pos}
use rootline.Base.Sort.{sort, place}
use rootline.Base.Text.{str_le}
use rootline.Value.{str, end, field, get}
use rootline.Value.Print.{print}
use rootline.Extract.{Record}
use rootline.Rules.{SchemaField}
use rootline.Rules.Report.{DriftWarning}
use rootline.Rules.Drift.{
  values_equal, holding, agrees, unanimous_value, drift_of, drifts_along, detect_drift,
}
use rootline.Rules.Drift.Laws.{IsDrift, In-detect_drift}

abbrev with_status : String → String → Record
with_status p s = record {
  path = p;
  kind = "markdown";
  frontmatter = field "status" (str s) end;
  body = "";
  links = [];
  derived = end;
}

abbrev status : SchemaField
status = record {
  type = "string";
  required = false;
  values = [];
  default = "";
  severity = "";
  source = "";
  extract = "";
  prefix = "";
  digits = pos 0;
  excludes = none;
  match = none;
  required_match = none;
  heading = "";
  ordered = none;
  declaration = record {
    type_present = true;
    type_null = false;
    source_present = false;
    source_null = false;
    heading_present = false;
    ordered_present = false;
    null_field = false;
  };
}

abbrev two_open : List Record
two_open = with_status "a/x.md" "open" ∷ with_status "a/y.md" "open" ∷ []

abbrev drifted : DriftWarning
drifted = record {
  field = "status";
  parent_value = str "done";
  children_value = str "open";
  parent_path = "a/README.md";
  child_paths = "a/x.md" ∷ "a/y.md" ∷ [];
}

one_drift :
    detect_drift (with_status "a/README.md" "done") two_open (("status", status) ∷ [])
    ≡ drifted ∷ []
unfolding detect_drift drifts_along drift_of unanimous_value agrees holding values_equal print get
    lookup sort place str_le
one_drift = refl

In-detect_drift_example :
    In drifted (detect_drift (with_status "a/README.md" "done") two_open (("status", status) ∷ []))
    ↔ IsDrift (with_status "a/README.md" "done") two_open (("status", status) ∷ []) drifted
In-detect_drift_example =
    In-detect_drift (with_status "a/README.md" "done") two_open (("status", status) ∷ []) drifted
