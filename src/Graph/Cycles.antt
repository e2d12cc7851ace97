-- ===== src/Graph/Cycles.antt =====
-- DetectCycles of graph.go. A search goes down from each white node; where it meets a gray node the
-- chain of parents from the current node is a cycle.
pub mod Walks
pub mod Canonical
pub mod Colors
pub mod Climb
pub mod Dfs
pub mod BackEdges
pub mod Explore
pub mod Roots
pub mod Order
pub mod Correct
pub mod Stable
mod Samples
use rootline.Base.{
  ℕ, zero, suc, String, Option, none, some, List, [], ◌∷◌, ◌++◌, Bool, true, false, not, ◌==◌,
  length, Ordering,
}
use mathlib.Core.List.{reverse}
use rootline.Base.Dict.{Dict, lookup, insert}
use rootline.Base.Sort.{sort}
use rootline.Base.Text.{str_lt}
use rootline.Graph.{Graph, sorted_nodes}
use rootline.Graph.Adjacency.{adjacent}
use Prim.Native.String.{compare, then}

infixl 5 ◌>>=◌
abbrev pub ◌>>=◌ {ℓ κ} : {A : Type ℓ} {B : Type κ} → Option A → (A → Option B) → Option B
none >>= f = none
some a >>= f = f a

pub data Color : Type 0 where
  white gray black : Color

pub record Search : Type 0 where
  pub color : Dict Color
  pub parent : Dict String
  pub cycles : List (List String)

-- color[node]: Go's zero value is white.
pub color_of : Search → String → Color
color_of s u = elim (lookup u s.color) [ none ↦ white | some c ↦ c ]

pub paint : String → Color → Search → Search
paint u c s = record s { color = insert u c s.color }

-- for cur != target { cycle = append(cycle, cur); cur = parent[cur] }; append(cycle, target).
-- A missing parent reads as the empty text.
pub climb : ℕ → Dict String → String → String → Option (List String)
climb zero parent cur target = none
climb (suc f) parent cur target = elim (cur == target) [
  | true ↦ some (target ∷ [])
  | false ↦ climb f parent (elim (lookup cur parent) [ none ↦ "" | some p ↦ p ]) target >>= λ rest.
      some (cur ∷ rest)
]

-- The position of the smallest member splits the cycle: what stands before it, and from it on.
pub split_smallest : List String → String → List String → List String → List String × List String
split_smallest before smallest since [] = (before, since)
split_smallest before smallest since (node ∷ rest) = elim (str_lt node smallest) [
  | true ↦ split_smallest (before ++ since) node (node ∷ []) rest
  | false ↦ split_smallest before smallest (since ++ node ∷ []) rest
]

-- append(rotated, rotated[0])
pub close : List String → List String
close [] = []
close (y ∷ ys) = (y ∷ ys) ++ y ∷ []

-- canonicalCycle: rotate an open cycle to its smallest member, then repeat that member.
pub canonical_cycle : List String → List String
canonical_cycle [] = []
canonical_cycle (x ∷ xs) =
    let (before, since) = split_smallest [] x (x ∷ []) xs in close (since ++ before)

-- compareCycles: element by element, a prefix first.
pub compare_cycles : List String → List String → Ordering
compare_cycles [] [] = Ordering.eq
compare_cycles [] (y ∷ b) = Ordering.lt
compare_cycles (x ∷ a) [] = Ordering.gt
compare_cycles (x ∷ a) (y ∷ b) = then (compare x y) (compare_cycles a b)

pub cycle_le : List String → List String → Bool
cycle_le a b = elim (compare_cycles a b) [ Ordering.gt ↦ false | _ ↦ true ]

-- dedupeCycles: in a sorted list, a cycle that equals the last one kept is dropped.
drop_repeats : List String → List (List String) → List (List String)
drop_repeats last [] = []
drop_repeats last (c ∷ cs) =
    let kept = drop_repeats c cs in
    let same = drop_repeats last cs in
    elim (compare_cycles last c) [ Ordering.eq ↦ same | _ ↦ c ∷ kept ]

pub dedupe_cycles : List (List String) → List (List String)
dedupe_cycles [] = []
dedupe_cycles (c ∷ cs) = c ∷ drop_repeats c cs

-- The search over an adjacency, in a graph of `n` nodes. `none` means that the fuel ran out.
module _ (n : ℕ) (adj : String → List String) where
  -- The back edge from `node` to the gray `target`: one more cycle.
  pub record_cycle : String → String → Search → Option Search
  record_cycle node target s = climb (suc n) s.parent node target >>= λ path.
      some (record s { cycles = s.cycles ++ canonical_cycle (reverse path) ∷ [] })

  -- The loop over the targets of `node`; `go` is the recursive call.
  pub scan : (String → Search → Option Search) → String → List String → Search → Option Search
  scan go node [] s = some s
  scan go node (t ∷ ts) s = elim (color_of s t) [
    | white ↦ go t (record s { parent = insert t node s.parent }) >>= scan go node ts
    | gray ↦ record_cycle node t s >>= scan go node ts
    | black ↦ scan go node ts s
  ]

  -- dfs
  pub dfs : ℕ → String → Search → Option Search
  dfs zero node s = none
  dfs (suc f) node s =
      scan (dfs f) node (adj node) (paint node gray s) >>= λ s'. some (paint node black s')

  -- The loop over the roots.
  pub search_roots : List String → Search → Option Search
  search_roots [] s = some s
  search_roots (u ∷ us) s = elim (color_of s u) [
    | white ↦ dfs n u s >>= search_roots us
    | _ ↦ search_roots us s
  ]

abbrev pub fresh : Search
fresh = record { color = []; parent = []; cycles = [] }

-- The cycles in the order of their detection.
pub find_cycles : Graph → Option (List (List String))
find_cycles g =
    let roots = sorted_nodes g in
    search_roots (length roots) (adjacent g) roots fresh >>= λ s. some s.cycles

-- DetectCycles
pub detect_cycles : Graph → Option (List (List String))
detect_cycles g = find_cycles g >>= λ cs. some (dedupe_cycles (sort cycle_le cs))
