-- ===== src/Query/Traversal/Samples.antt =====
-- FilterByTraversal on three records.
use rootline.Base.{String, ◌≡◌, ◌↔◌, refl, Option, none, some, List, [], ◌∷◌, Bool, false, ◌==◌, In}
use rootline.Base.Dict.{lookup}
use rootline.Value.{end}
use rootline.Extract.{Record}
use rootline.Graph.{Edge, Graph}
use rootline.Graph.Adjacency.{edges_of}
use rootline.Graph.Edges.{all_edges}
use rootline.Query.Traversal.{
  TraversalOptions, inbound_edges, compile_sub_where, linked_matches, matches_any_edge,
  passes_direction, keep_linked, filter_by_traversal,
}
use rootline.Query.Traversal.Laws.{IsLinked, In-filter_by_traversal}

abbrev note : String → String → Record
note p kind = record {
  path = p;
  kind = kind;
  frontmatter = end;
  body = "";
  links = [];
  derived = end;
}

abbrev blocks : String → String → Edge
blocks a b = record {
  source = a;
  target = b;
  kind = "blocks";
  line = 1;
  resolution = "";
  markdown = false;
}

abbrev three : List Record
three = note "a" "task" ∷ note "b" "task" ∷ note "c" "page" ∷ []

-- a blocks b, c blocks a
abbrev blocking : Graph
blocking = record {
  nodes = ("a", note "a" "task") ∷ ("b", note "b" "task") ∷ ("c", note "c" "page") ∷ [];
  edges = ("a", blocks "a" "b" ∷ []) ∷ ("c", blocks "c" "a" ∷ []) ∷ [];
}

-- An expression that names a type of record.
abbrev compiled : String → Option String
compiled s = some s

abbrev of_type : String → Record → Option Bool
of_type p r = some (r.kind == p)

abbrev blocked_by_task : TraversalOptions
blocked_by_task = record {
  has_inbound = some "task";
  has_outbound = none;
  inbound_type = "blocks";
  outbound_type = "";
}

only_b :
    filter_by_traversal compiled of_type three blocking blocked_by_task
    ≡ some (note "b" "task" ∷ [])
unfolding filter_by_traversal keep_linked passes_direction matches_any_edge linked_matches
    compile_sub_where inbound_edges all_edges edges_of lookup
only_b = refl

In-filter_by_traversal_example :
    (rs : List Record) × (filter_by_traversal compiled of_type three blocking blocked_by_task
      ≡ some rs)
    × ((r : Record)
        → In r rs ↔ (In r three × IsLinked of_type blocking blocked_by_task (some "task") none r))
In-filter_by_traversal_example =
    In-filter_by_traversal of_type compiled (λ p r. (r.kind == p, refl)) three blocking
      blocked_by_task (some "task") none (unfold compile_sub_where in refl)
      (unfold compile_sub_where in refl)
