-- ===== src/Graph/Cycles/Correct.antt =====
-- What DetectCycles reports.
use rootline.Base.{
  String, ◌≡◌, ◌↔◌, inl, refl, sym, ◌∙◌, subst, List, [], ◌∷◌, some, arith, In, All, length, All-In,
  All-of, some_inj,
}
use mathlib.Core.List.{Nodup-nil}
use rootline.Base.Dict.{keys, has-keys}
use rootline.Base.Text.{str_le}
use rootline.Base.Sort.{sort, In-sort, sort-IsSorted}
use rootline.Graph.{Graph, sorted_nodes}
use rootline.Graph.Adjacency.{adjacent, In-adjacent}
use rootline.Graph.Cycles.{
  Search, color_of, fresh, search_roots, find_cycles, detect_cycles, dedupe_cycles, cycle_le,
}
use rootline.Graph.Cycles.Walks.{Walk, IsCycle, Acc-no_cycle}
use rootline.Graph.Cycles.Colors.{Color-cases, color_of-fresh, whites-fresh}
use rootline.Graph.Cycles.Dfs.{Inv}
use rootline.Graph.Cycles.Roots.{search_roots-Rooted, Rooted}
use rootline.Graph.Cycles.Order.{
  In-dedupe_cycles, IsStrict, dedupe_cycles-IsStrict, cycle_le-IsOrder,
}

targets-inside : (g : Graph) (u t : String) → In t (adjacent g u) → In t (sorted_nodes g)
unfolding sorted_nodes
targets-inside g u t m =
    (In-sort str_le t (keys g.nodes)).1 ((has-keys t g.nodes).0 ((In-adjacent g u t).0 m).1)

Inv-fresh : (adj : String → List String) (ns : List String) → Inv adj ns [] fresh
Inv-fresh adj ns = record {
  grays = λ u. ground (arith, color_of-fresh u);
  chain = tt;
  distinct = Nodup-nil;
  room = omega (arith, whites-fresh ns);
  sound = tt;
  dead = λ e u b. ground (arith, color_of-fresh u);
}

rooted :
    (g : Graph)
    → Rooted
        (adjacent g)
        (sorted_nodes g)
        (targets-inside g)
        fresh
        (sorted_nodes g)
        (search_roots (length (sorted_nodes g)) (adjacent g) (sorted_nodes g) fresh)
rooted g =
    search_roots-Rooted (adjacent g) (sorted_nodes g) (targets-inside g) (sorted_nodes g) fresh
      (Inv-fresh (adjacent g) (sorted_nodes g)) (λ u m. m)

abbrev final : Graph → Search
final g = (rooted g).step.final

detect_cycles-eq :
    (g : Graph) → detect_cycles g ≡ some (dedupe_cycles (sort cycle_le (final g).cycles))
unfolding detect_cycles find_cycles
detect_cycles-eq g = rw ((rooted g).step.returns)

-- DetectCycles always returns, and each cycle that it reports is a directed cycle of the graph: a
-- walk along the links that starts at its smallest member, passes no node twice, and ends by
-- repeating the first.
pub detect_cycles-IsCycle :
    (g : Graph)
    → (cs : List (List String)) × (detect_cycles g ≡ some cs) × All (IsCycle (adjacent g)) cs
detect_cycles-IsCycle g = (
  dedupe_cycles (sort cycle_le (final g).cycles),
  detect_cycles-eq g,
  All-of (IsCycle (adjacent g)) _ λ c m.
      All-In (IsCycle (adjacent g)) (final g).cycles (rooted g).step.inv.sound c
        ((In-sort cycle_le c (final g).cycles).0 ((In-dedupe_cycles c _).0 m)),
)

dedupe_cycles-nil : (cs : List (List String)) → dedupe_cycles (sort cycle_le cs) ≡ [] → cs ≡ []
dedupe_cycles-nil [] h = refl
dedupe_cycles-nil (c ∷ cs) h =
    let m : In c (dedupe_cycles (sort cycle_le (c ∷ cs))) =
      (In-dedupe_cycles c _).1 ((In-sort cycle_le c (c ∷ cs)).1 (inl refl)) in
    absurd (subst (In c) h m)

Walk-inside :
    (g : Graph) (u v : String) (p : List String)
    → In u (sorted_nodes g)
    → Walk (adjacent g) u p v
    → In v (sorted_nodes g)
Walk-inside g u v [] m e = subst (λ z. In z (sorted_nodes g)) e m
Walk-inside g u v (x ∷ p) m (e, (w, k, rest)) = Walk-inside g w v p (targets-inside g x w k) rest

no_cycle :
    (g : Graph) (u : String) (p : List String)
    → (final g).cycles ≡ []
    → ¬ Walk (adjacent g) u (u ∷ p) u
no_cycle g u p e (same, (w, k, rest)) =
    let m = Walk-inside g w u p (targets-inside g u w k) rest in
    Acc-no_cycle (adjacent g) u
      ((rooted g).step.inv.dead e u (
        ground (
          arith,
          (rooted g).reached u m,
          (rooted g).step.inv.grays u,
          Color-cases (color_of (final g) u),
        )))
      p (same, (w, k, rest))

-- DetectCycles reports nothing exactly when no walk along the links comes back to its start.
pub detect_cycles-eq-nil :
    (g : Graph)
    → (detect_cycles g ≡ some [])
      ↔ ((u : String) (p : List String) → ¬ Walk (adjacent g) u (u ∷ p) u)
detect_cycles-eq-nil g = (
  λ h u p.
      no_cycle g u p (dedupe_cycles-nil (final g).cycles (some_inj (sym (detect_cycles-eq g) ∙ h))),
  λ h. go h (detect_cycles-IsCycle g),
)
  where
    go :
        ((u : String) (p : List String) → ¬ Walk (adjacent g) u (u ∷ p) u)
        → (cs : List (List String)) × (detect_cycles g ≡ some cs) × All (IsCycle (adjacent g)) cs
        → detect_cycles g ≡ some []
    go h ([], e, sound) = e
    go h (c ∷ cs, e, sound) = absurd (h sound.0.first sound.0.others sound.0.walk)

-- The reported cycles are strictly increasing in the order of compareCycles, so none is repeated.
pub detect_cycles-IsStrict :
    (g : Graph) (cs : List (List String)) → detect_cycles g ≡ some cs → IsStrict cs
detect_cycles-IsStrict g cs h =
    subst IsStrict (some_inj (sym (detect_cycles-eq g) ∙ h))
      (dedupe_cycles-IsStrict _ (sort-IsSorted cycle_le-IsOrder (final g).cycles))
