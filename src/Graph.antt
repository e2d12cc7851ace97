-- ===== src/Graph.antt =====
-- internal/graph/graph.go: the directed graph of links between records. The children hold the sorted
-- adjacency, the detection of cycles, the trace from a record, and the sorted and the broken edges.
pub mod Adjacency
pub mod Cycles
pub mod Trace
pub mod Edges
use rootline.Base.{
  ℕ, String, Option, none, some, List, [], ◌∷◌, ◌++◌, Bool, true, false, not, ◌==◌, ltb, nat_eq,
  if◌then◌else◌, select, Ordering,
}
use rootline.Base.Dict.{Dict, has, keys}
use rootline.Base.Sort.{sort}
use rootline.Base.Text.{str_le}
use rootline.Extract.{Record, link_resolved, link_unresolved}

-- Edge; `kind` is the field Type.
pub record Edge : Type 0 where
  pub source : String
  pub target : String
  pub kind : String
  pub line : ℕ
  pub resolution : String
  pub markdown : Bool

pub record Graph : Type 0 where
  pub nodes : Dict Record
  pub edges : Dict (List Edge)

-- SortedNodes
unfoldable pub sorted_nodes : Graph → List String
sorted_nodes g = sort str_le (keys g.nodes)

-- Edge.isBroken: a prepared edge answers from its own outcome, any other from the node set.
unfoldable pub is_broken : Edge → Dict Record → Bool
is_broken e nodes =
    if e.resolution == link_resolved
    then false
    else if e.resolution == link_unresolved
    then true
    else not (has e.target nodes)
