-- ===== src/Graph/Adjacency.antt =====
-- sortedAdjacency of graph.go: the distinct targets of each node that are in the graph, in order.
use rootline.Base.{
  String, ◌≡◌, ◌↔◌, ◌⊎◌, inl, inr, none, some, List, [], ◌∷◌, Bool, true, false, ◌==◌,
  if◌then◌else◌, arith, In, any, eq_iff, refl, Option-cases, eq_refl,
}
use rootline.Base.Dict.{Dict, lookup, has}
use rootline.Base.Sort.{sort, In-sort}
use rootline.Base.Ascending.{Distinct, IsAscending, sort-IsAscending}
use rootline.Base.Text.{str_le}
use rootline.Extract.{Record}
use rootline.Graph.{Edge, Graph}

-- seen[target]
abbrev pub contains : List String → String → Bool
contains xs a = any (λ x. x == a) xs

pub contains_iff : (a : String) (xs : List String) → (contains xs a ≡ true) ↔ In a xs
contains_iff a [] = ground arith
contains_iff a (x ∷ xs) = ground (arith, contains_iff a xs, eq_iff x a)

-- The loop over the edges of one source: a broken link and a repeated target are skipped.
unfoldable pub distinct_targets : Dict Record → List String → List Edge → List String
distinct_targets nodes seen [] = []
distinct_targets nodes seen (e ∷ es) =
    let rest = distinct_targets nodes (e.target ∷ seen) es in
    let same = distinct_targets nodes seen es in
    if has e.target nodes then (if contains seen e.target then same else e.target ∷ rest) else same

-- sortedAdjacency, one entry for each source.
unfoldable pub sorted_adjacency : Dict Record → Dict (List Edge) → Dict (List String)
unfolding distinct_targets
sorted_adjacency nodes [] = []
sorted_adjacency nodes ((source, es) ∷ rest) =
    (source, sort str_le (distinct_targets nodes [] es)) ∷ sorted_adjacency nodes rest

-- adjacency[node]: a node with no entry has no targets.
unfoldable pub targets_of : Dict (List String) → String → List String
targets_of adjacency node = elim (lookup node adjacency) [ none ↦ [] | some ts ↦ ts ]

-- One edge of `es` leads to `t`.
abbrev pub Leads : List Edge → String → Type 0
Leads [] t = ⊥
Leads (e ∷ es) t = (t ≡ e.target) ⊎ Leads es t

-- The edges that leave a node.
unfoldable pub edges_of : Graph → String → List Edge
edges_of g u = elim (lookup u g.edges) [ none ↦ [] | some es ↦ es ]

unfoldable pub adjacent : Graph → String → List String
adjacent g = targets_of (sorted_adjacency g.nodes g.edges)

In-distinct_targets :
    (nodes : Dict Record) (seen : List String) (es : List Edge) (t : String)
    → In t (distinct_targets nodes seen es)
      ↔ (Leads es t × (has t nodes ≡ true) × (contains seen t ≡ false))
unfolding distinct_targets
In-distinct_targets nodes seen [] t = ground arith
In-distinct_targets nodes seen (e ∷ es) t = ground (
  arith,
  In-distinct_targets nodes (e.target ∷ seen) es t,
  In-distinct_targets nodes seen es t,
  eq_iff e.target t,
)

distinct_targets-Distinct :
    (nodes : Dict Record) (seen : List String) (es : List Edge)
    → Distinct (distinct_targets nodes seen es)
unfolding distinct_targets
distinct_targets-Distinct nodes seen [] = tt
distinct_targets-Distinct nodes seen (e ∷ es) = ground (
  arith,
  distinct_targets-Distinct nodes seen es,
  distinct_targets-Distinct nodes (e.target ∷ seen) es,
  In-distinct_targets nodes (e.target ∷ seen) es e.target,
  eq_refl e.target,
)

targets_of-sorted_adjacency :
    (nodes : Dict Record) (edges : Dict (List Edge)) (u : String)
    → targets_of (sorted_adjacency nodes edges) u
      ≡ (elim (lookup u edges) [ none ↦ [] | some es ↦ sort str_le (distinct_targets nodes [] es) ])
unfolding targets_of sorted_adjacency lookup
targets_of-sorted_adjacency nodes [] u = refl
targets_of-sorted_adjacency nodes ((source, es) ∷ rest) u =
    ground (arith, targets_of-sorted_adjacency nodes rest u)

-- The targets of a node are the nodes of the graph that one of its edges leads to: a broken link is
-- skipped, and parallel links and the order of the links leave no trace.
pub In-adjacent :
    (g : Graph) (u t : String)
    → In t (adjacent g u) ↔ (Leads (edges_of g u) t × (has t g.nodes ≡ true))
unfolding adjacent edges_of
In-adjacent g u t = elim (Option-cases (lookup u g.edges)) [
  | inl e ↦ rw targets_of-sorted_adjacency (rw e (ground arith))
  | inr (es, e) ↦ rw targets_of-sorted_adjacency (
      rw e (
        ground (
          arith,
          In-sort str_le t (distinct_targets g.nodes [] es),
          In-distinct_targets g.nodes [] es t,
        )))
]

-- The targets of a node stand in strictly ascending order.
pub adjacent-IsAscending : (g : Graph) (u : String) → IsAscending (adjacent g u)
unfolding adjacent
adjacent-IsAscending g u = elim (Option-cases (lookup u g.edges)) [
  | inl e ↦ rw targets_of-sorted_adjacency (rw e tt)
  | inr (es, e) ↦
      rw targets_of-sorted_adjacency
        (rw e (sort-IsAscending _ (distinct_targets-Distinct g.nodes [] es)))
]
