-- ===== src/Graph/Edges/Samples.antt =====
-- SortedEdges and BrokenLinks on a small graph.
use rootline.Base.{
  ℕ, String, ◌≡◌, ◌↔◌, ◌<◌, ◌⊎◌, ◌++◌, Bool, select, refl, List, [], ◌∷◌, false, In, length,
  if◌then◌else◌, ◌==◌,
}
use rootline.Base.Sort.{sort, place}
use rootline.Base.Dict.{has}
use mathlib.Core.List.{Perm}
use rootline.Graph.{Edge, Graph, is_broken}
use rootline.Graph.Edges.{
  compare_edges, all_edges, sorted_edges, BrokenLink, nearer, broken_link_suggestions, broken_link,
  broken_links,
}
use rootline.Graph.Edges.Order.{occurrences, IsOrdered, Precedes, sorted_edges-IsOrdered}
use rootline.Graph.Edges.Laws.{
  IsBroken, Reports, IsNearer, In-broken_links, broken_link_suggestions-ranked,
}

abbrev edge : String → String → ℕ → String → Edge
edge a b n outcome = record {
  source = a;
  target = b;
  kind = "reference";
  line = n;
  resolution = outcome;
  markdown = false;
}

abbrev two_broken : Graph
two_broken = record {
  nodes = [];
  edges =
      ("b", edge "b" "x" 4 "" ∷ edge "b" "y" 2 "resolved" ∷ [])
      ∷ ("a", edge "a" "z" 9 "unresolved" ∷ [])
      ∷ [];
}

-- A stand-in for the package: every name is near, one of them nearer.
abbrev all_names : String → List String → ℕ → List String
all_names target names n = names

abbrev mismatch : String → String → ℕ
mismatch s t = if s == t then 0 else 1

abbrev lines : List BrokenLink → List ℕ
lines [] = []
lines (b ∷ bs) = b.line ∷ lines bs

-- A link that resolved outside the graph is not broken.
broken_lines : lines (broken_links all_names mismatch two_broken) ≡ 9 ∷ 4 ∷ []
unfolding broken_links broken_link sorted_edges all_edges compare_edges sort place is_broken has
broken_lines = refl

suggested :
    broken_link_suggestions all_names mismatch "m" ("n" ∷ "o" ∷ "m" ∷ "a" ∷ [])
    ≡ "m" ∷ "a" ∷ "n" ∷ []
unfolding broken_link_suggestions nearer sort place
suggested = refl

sorted_edges-IsOrdered_example :
    ((p : Edge → Bool)
      → length (select p (sorted_edges two_broken)) ≡ occurrences p two_broken.edges)
    × IsOrdered Precedes (sorted_edges two_broken)
sorted_edges-IsOrdered_example = sorted_edges-IsOrdered two_broken

abbrev reported : BrokenLink
reported = record { source = "b"; target = "x"; kind = "reference"; line = 4; suggestions = [] }

In-broken_links_example : In reported (broken_links all_names mismatch two_broken) ↔ (
    (source : String) × (es : List Edge) × (e : Edge) × In (source, es) two_broken.edges
    × In e es
    × IsBroken two_broken e
    × Reports all_names mismatch two_broken e reported)
In-broken_links_example = In-broken_links all_names mismatch two_broken reported

broken_link_suggestions-ranked_example :
    (suggested rest : List String) × (broken_link_suggestions all_names mismatch "m"
        ("n" ∷ "o" ∷ "m" ∷ "a" ∷ [])
      ≡ suggested)
    × Perm (suggested ++ rest) ("n" ∷ "o" ∷ "m" ∷ "a" ∷ [])
    × IsOrdered (IsNearer all_names mismatch "m") (suggested ++ rest)
    × ((length suggested ≡ 3) ⊎ ((length suggested < 3) × (rest ≡ [])))
broken_link_suggestions-ranked_example =
    broken_link_suggestions-ranked all_names mismatch "m" ("n" ∷ "o" ∷ "m" ∷ "a" ∷ [])
