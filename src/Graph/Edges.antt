-- ===== src/Graph/Edges.antt =====
-- SortedEdges and BrokenLinks of graph.go. The distance of texts and the choice of near ones come
-- from the package fuzzy, and are parameters.
pub mod Order
pub mod Laws
mod Samples
use rootline.Base.{ℕ, String, Ordering, List, [], ◌∷◌, ◌++◌, Bool, select, map, take, length}
use rootline.Base.Compare.{by, lex, at_most}
use rootline.Base.Dict.{Dict}
use rootline.Base.Sort.{sort}
use rootline.Graph.{Edge, Graph, is_broken, sorted_nodes}
use Prim.Native.Nat.{compare as compare_ℕ}
use Prim.Native.String.{compare}

-- compareEdges
unfoldable pub compare_edges : Edge → Edge → Ordering
compare_edges =
    lex (by (λ e. e.source) compare) (
      lex (by (λ e. e.target) compare)
        (lex (by (λ e. e.line) compare_ℕ) (by (λ e. e.kind) compare)))

-- The edges of every source.
unfoldable pub all_edges : Dict (List Edge) → List Edge
all_edges [] = []
all_edges ((source, es) ∷ rest) = es ++ all_edges rest

-- SortedEdges
unfoldable pub sorted_edges : Graph → List Edge
sorted_edges g = sort (at_most compare_edges) (all_edges g.edges)

-- BrokenLink; `kind` is the field Type.
pub record BrokenLink : Type 0 where
  pub source : String
  pub target : String
  pub kind : String
  pub line : ℕ
  pub suggestions : List String

module _ (match_n : String → List String → ℕ → List String) (distance : String → String → ℕ) where
  -- The order of the suggestions for a target: the nearer first, then by text.
  unfoldable pub nearer : String → String → String → Ordering
  nearer target = lex (by (distance target) compare_ℕ) compare

  -- brokenLinkSuggestions
  unfoldable pub broken_link_suggestions : String → List String → List String
  broken_link_suggestions target node_names =
      take 3 (sort (at_most (nearer target)) (match_n target node_names (length node_names)))

  -- The body of the loop of BrokenLinks.
  unfoldable pub broken_link : Graph → Edge → BrokenLink
  broken_link g e = record {
    source = e.source;
    target = e.target;
    kind = e.kind;
    line = e.line;
    suggestions = broken_link_suggestions e.target (sorted_nodes g);
  }

  -- BrokenLinks
  unfoldable pub broken_links : Graph → List BrokenLink
  broken_links g = map (broken_link g) (select (λ e. is_broken e g.nodes) (sorted_edges g))
