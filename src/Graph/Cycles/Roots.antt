-- ===== src/Graph/Cycles/Roots.antt =====
-- The loop over the roots of DetectCycles: every node of the graph gets coloured.
use rootline.Base.{
  String, ◌≢◌, inl, inr, refl, sym, ◌∙◌, subst, List, [], ◌∷◌, some, Option, arith, In, length,
}
use rootline.Graph.Cycles.{white, Search, color_of, dfs, search_roots, ◌>>=◌}
use rootline.Graph.Cycles.Colors.{Color-cases}
use rootline.Graph.Cycles.Dfs.{Inv, Step, Step-here, Step-then}
use rootline.Graph.Cycles.Explore.{dfs-Visits}

module _ (adj : String → List String) (ns : List String)
    (inside : (u t : String) → In t (adj u) → In t ns) where
  -- After the loop over the roots every root is coloured.
  pub record Rooted (s : Search) (us : List String) (r : Option Search) : Type 0 where
    pub step : Step adj ns [] s r
    pub reached : (u : String) → In u us → color_of step.final u ≢ white

  Rooted-then :
      (s : Search) (u : String) (us : List String) (r : Option Search) (k : Search → Option Search)
      (h : Step adj ns [] s r)
      → color_of h.final u ≢ white
      → Rooted h.final us (k h.final)
      → Rooted s (u ∷ us) (r >>= k)
  Rooted-then s u us r k h now later = record {
    step = Step-then adj ns [] s r k h later.step;
    reached = λ v m. elim m [
      | inl same ↦
          subst (λ z. color_of later.step.final z ≢ white) (sym same)
            (λ w. now (sym (later.step.grows u now) ∙ w))
      | inr below ↦ later.reached v below
    ];
  }

  pub search_roots-Rooted :
      (us : List String) (s : Search)
      → Inv adj ns [] s
      → ((u : String) → In u us → In u ns)
      → Rooted s us (search_roots (length ns) adj us s)
  unfolding search_roots
  search_roots-Rooted [] s i within = record {
    step = Step-here adj ns [] s i;
    reached = λ u m. absurd m;
  }
  search_roots-Rooted (u ∷ us) s i within =
      let rest = search_roots (length ns) adj us in
      let go_on = λ (s' : Search) (i' : Inv adj ns [] s').
        search_roots-Rooted us s' i' (λ v m. within v (inr m)) in
      elim (Color-cases (color_of s u)) [
        | inl w ↦
            let v =
              dfs-Visits adj ns inside (length ns) [] s u i w (within u (inl refl)) tt
                (omega (arith, i.room)) in
            rw (w, search_roots)
              (Rooted-then s u us (dfs (length ns) adj (length ns) u s) rest v.step
                (λ e. cc (v.blackened)) (go_on v.step.final v.step.inv))
        | inr (inl g) ↦
            rw (g, search_roots)
              (Rooted-then s u us (some s) rest (Step-here adj ns [] s i) (λ e. cc) (go_on s i))
        | inr (inr b) ↦
            rw (b, search_roots)
              (Rooted-then s u us (some s) rest (Step-here adj ns [] s i) (λ e. cc) (go_on s i))
      ]
