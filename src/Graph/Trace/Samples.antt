-- ===== src/Graph/Trace/Samples.antt =====
-- Trace on a small graph.
use rootline.Base.{String, some, List, [], ◌∷◌, true, false, ◌≡◌, refl}
use rootline.Base.Dict.{lookup, insert, has}
use rootline.Value.{end}
use rootline.Extract.{Record}
use rootline.Graph.{Edge, Graph}
use rootline.Graph.Adjacency.{edges_of}
use rootline.Graph.Trace.{
  TraceOptions, TraceNode, trace, trace_loop, expand, at_limit, enqueue, skips, trace_edges,
  reverse_edges, reverse_source, entry_of,
}
use rootline.Graph.Trace.Correct.{IsTrace, trace-IsTrace}

abbrev page : String → Record
page p = record {
  path = p;
  kind = "markdown";
  frontmatter = end;
  body = "";
  links = [];
  derived = end;
}

abbrev link : String → String → String → Edge
link a b t = record {
  source = a;
  target = b;
  kind = t;
  line = 1;
  resolution = "";
  markdown = false;
}

-- a -> b -> c -> a, a -> c of another type, and a broken link.
abbrev loop : Graph
loop = record {
  nodes = ("a", page "a") ∷ ("b", page "b") ∷ ("c", page "c") ∷ [];
  edges =
      ("a", link "a" "b" "reference" ∷ link "a" "c" "blocks" ∷ link "a" "x" "reference" ∷ [])
      ∷ ("b", link "b" "c" "reference" ∷ [])
      ∷ ("c", link "c" "a" "reference" ∷ [])
      ∷ [];
}

abbrev forward : TraceOptions
forward = record { reverse = false; max_depth = 0; edge_type = "reference" }

abbrev backward : TraceOptions
backward = record { reverse = true; max_depth = 1; edge_type = "" }

forward-trace :
    trace loop "a" forward
    ≡ some (
        record { path = "b"; depth = 1; via = "reference"; from = "a" }
        ∷ record { path = "c"; depth = 2; via = "reference"; from = "b" }
        ∷ [])
unfolding trace trace_loop expand at_limit enqueue skips trace_edges edges_of has lookup
forward-trace = refl

backward-trace :
    trace loop "c" backward
    ≡ some (
        record { path = "a"; depth = 1; via = "blocks"; from = "c" }
        ∷ record { path = "b"; depth = 1; via = "reference"; from = "c" }
        ∷ [])
unfolding trace trace_loop expand at_limit enqueue skips trace_edges edges_of has lookup
    reverse_edges reverse_source entry_of insert
backward-trace = refl

trace-IsTrace_example :
    (rs : List TraceNode) × (trace loop "a" forward ≡ some rs) × IsTrace loop forward "a" rs
trace-IsTrace_example = trace-IsTrace loop forward "a" (unfold has in refl)
