-- ===== src/Graph/Cycles/Samples.antt =====
-- DetectCycles on small graphs.
use rootline.Base.{String, arith, eq_iff, some, List, [], ◌∷◌, false, ◌≡◌, ◌↔◌, refl, All}
use rootline.Base.Dict.{lookup, insert, has}
use rootline.Base.Sort.{sort, place}
use rootline.Base.Text.{str_le, str_lt}
use rootline.Value.{end}
use rootline.Extract.{Record}
use rootline.Graph.{Edge, Graph, sorted_nodes}
use rootline.Graph.Adjacency.{adjacent, edges_of, sorted_adjacency, distinct_targets, targets_of}
use rootline.Graph.Cycles.{
  canonical_cycle, detect_cycles, find_cycles, search_roots, dfs, scan, record_cycle, climb,
  split_smallest, close, dedupe_cycles, drop_repeats, cycle_le, compare_cycles, paint, color_of,
}
use rootline.Graph.Cycles.Walks.{Walk, IsCycle}
use rootline.Graph.Cycles.Order.{IsStrict}
use rootline.Graph.Cycles.Stable.{SameGraph, detect_cycles-SameGraph}
use rootline.Graph.Cycles.Correct.{
  detect_cycles-IsCycle, detect_cycles-eq-nil, detect_cycles-IsStrict,
}

abbrev pub page : String → Record
page p = record {
  path = p;
  kind = "markdown";
  frontmatter = end;
  body = "";
  links = [];
  derived = end;
}

abbrev pub link : String → String → Edge
link a b = record {
  source = a;
  target = b;
  kind = "reference";
  line = 1;
  resolution = "";
  markdown = false;
}

-- c -> a -> b -> c, a link of a to itself, and a broken one.
abbrev pub ring : Graph
ring = record {
  nodes = ("c", page "c") ∷ ("a", page "a") ∷ ("b", page "b") ∷ [];
  edges =
      ("c", link "c" "a" ∷ [])
      ∷ ("a", link "a" "b" ∷ link "a" "a" ∷ link "a" "x" ∷ [])
      ∷ ("b", link "b" "c" ∷ [])
      ∷ [];
}

-- a -> b -> c
abbrev line : Graph
line = record {
  nodes = ("c", page "c") ∷ ("a", page "a") ∷ ("b", page "b") ∷ [];
  edges = ("a", link "a" "b" ∷ []) ∷ ("b", link "b" "c" ∷ []) ∷ [];
}

ring_cycles : detect_cycles ring ≡ some (("a" ∷ "a" ∷ []) ∷ ("a" ∷ "b" ∷ "c" ∷ "a" ∷ []) ∷ [])
unfolding detect_cycles find_cycles search_roots dfs scan record_cycle climb canonical_cycle
    split_smallest close dedupe_cycles drop_repeats cycle_le compare_cycles paint color_of lookup
    insert has sorted_nodes adjacent sorted_adjacency distinct_targets targets_of sort place str_le
    str_lt
ring_cycles = refl

line_cycles : detect_cycles line ≡ some []
unfolding detect_cycles find_cycles search_roots dfs scan record_cycle climb canonical_cycle
    split_smallest close dedupe_cycles drop_repeats cycle_le compare_cycles paint color_of lookup
    insert has sorted_nodes adjacent sorted_adjacency distinct_targets targets_of sort place str_le
    str_lt
line_cycles = refl

detect_cycles-IsCycle_example :
    (cs : List (List String)) × (detect_cycles ring ≡ some cs) × All (IsCycle (adjacent ring)) cs
detect_cycles-IsCycle_example = detect_cycles-IsCycle ring

detect_cycles-eq-nil_example :
    (detect_cycles line ≡ some [])
    ↔ ((u : String) (p : List String) → ¬ Walk (adjacent line) u (u ∷ p) u)
detect_cycles-eq-nil_example = detect_cycles-eq-nil line

detect_cycles-IsStrict_example : IsStrict (("a" ∷ "a" ∷ []) ∷ ("a" ∷ "b" ∷ "c" ∷ "a" ∷ []) ∷ [])
detect_cycles-IsStrict_example = detect_cycles-IsStrict ring _ ring_cycles

-- a -> b, a -> a
abbrev pair : Graph
pair = record {
  nodes = ("a", page "a") ∷ ("b", page "b") ∷ [];
  edges = ("a", link "a" "b" ∷ link "a" "a" ∷ []) ∷ [];
}

-- The same, scanned in another order and with a link twice.
abbrev shuffled : Graph
shuffled = record {
  nodes = ("b", page "b") ∷ ("a", page "a") ∷ [];
  edges = ("a", link "a" "a" ∷ link "a" "b" ∷ link "a" "a" ∷ []) ∷ ("b", []) ∷ [];
}

pair-SameGraph : SameGraph pair shuffled
unfolding has edges_of lookup
pair-SameGraph = record {
  nodes = λ u. ground (arith, eq_iff "a" u, eq_iff "b" u);
  links = λ u t h. ground (arith, eq_iff "a" u, eq_iff "b" u);
}

detect_cycles-SameGraph_example : detect_cycles pair ≡ detect_cycles shuffled
detect_cycles-SameGraph_example =
    detect_cycles-SameGraph pair shuffled (unfold lookup in (refl, (refl, tt)))
      (unfold lookup in (refl, (refl, tt))) pair-SameGraph
