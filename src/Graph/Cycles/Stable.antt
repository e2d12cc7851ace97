-- ===== src/Graph/Cycles/Stable.antt =====
-- DetectCycles is a function of the graph alone: neither the order in which the records and their
-- links were scanned nor a repeated link changes its report.
use rootline.Base.{String, ◌≡◌, ◌↔◌, ap₂, arith, [], ◌∷◌, true, some, length}
use rootline.Base.Dict.{Dict, has, keys, has-keys, has-lookup, IsDict}
use rootline.Base.Sort.{sort, In-sort}
use rootline.Base.Text.{str_le}
use rootline.Base.Ascending.{Distinct, sort-IsAscending, IsAscending-unique}
use rootline.Extract.{Record}
use rootline.Graph.{Graph, sorted_nodes}
use rootline.Graph.Adjacency.{adjacent, In-adjacent, adjacent-IsAscending, Leads, edges_of}
use rootline.Graph.Cycles.{
  search_roots, fresh, find_cycles, detect_cycles, ◌>>=◌, dedupe_cycles, cycle_le,
}

-- Two graphs with the same nodes, and with links between the same nodes.
pub record SameGraph (g h : Graph) : Type 0 where
  pub nodes : (u : String) → has u g.nodes ≡ has u h.nodes
  pub links :
      (u t : String) → has t g.nodes ≡ true → Leads (edges_of g u) t ↔ Leads (edges_of h u) t

keys-Distinct : (m : Dict Record) → IsDict m → Distinct (keys m)
keys-Distinct [] d = tt
keys-Distinct ((k, v) ∷ m) d =
    (λ n. ground (arith, n, has-keys k m, has-lookup k m, d.0), keys-Distinct m d.1)

sorted_nodes-SameGraph :
    (g h : Graph)
    → IsDict g.nodes
    → IsDict h.nodes
    → SameGraph g h
    → sorted_nodes g ≡ sorted_nodes h
unfolding sorted_nodes
sorted_nodes-SameGraph g h dg dh s =
    IsAscending-unique _ _ (sort-IsAscending _ (keys-Distinct g.nodes dg))
      (sort-IsAscending _ (keys-Distinct h.nodes dh))
      λ a. ground (
        arith,
        In-sort str_le a (keys g.nodes),
        In-sort str_le a (keys h.nodes),
        has-keys a g.nodes,
        has-keys a h.nodes,
        s.nodes a,
      )

adjacent-SameGraph : (g h : Graph) (u : String) → SameGraph g h → adjacent g u ≡ adjacent h u
adjacent-SameGraph g h u s =
    IsAscending-unique _ _ (adjacent-IsAscending g u) (adjacent-IsAscending h u)
      λ t. ground (arith, In-adjacent g u t, In-adjacent h u t, s.nodes t, s.links u t)

-- Two graphs with the same nodes and with links between the same nodes have the same report, in
-- whatever order the nodes and the links are kept and however often a link is repeated. Neither graph
-- has a node twice.
pub detect_cycles-SameGraph :
    (g h : Graph)
    → IsDict g.nodes
    → IsDict h.nodes
    → SameGraph g h
    → detect_cycles g ≡ detect_cycles h
unfolding detect_cycles find_cycles
detect_cycles-SameGraph g h dg dh s =
    ap₂
      (λ roots adj. search_roots (length roots) adj roots fresh >>= (λ t. some t.cycles) >>= λ cs.
        some (dedupe_cycles (sort cycle_le cs)))
      (sorted_nodes-SameGraph g h dg dh s) (λ i u. adjacent-SameGraph g h u s i)
