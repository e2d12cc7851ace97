-- ===== src/Graph/Cycles/Explore.antt =====
-- The search from one node and over the roots: it ends, and it keeps its invariant.
use rootline.Base.{
  ℕ, zero, suc, ◌≤◌, String, ◌≡◌, inl, inr, refl, sym, ap, ◌∙◌, subst, List, [], ◌∷◌, some, Option,
  arith, eq_iff, In, length,
}
use rootline.Base.Dict.{Dict, insert, lookup-insert}
use rootline.Graph.Cycles.{
  white, gray, black, Search, color_of, paint, record_cycle, scan, dfs, ◌>>=◌,
}
use rootline.Graph.Cycles.Colors.{
  color_of-paint_self, Grows, Grows-refl, Grows-trans, Grows-paint, whites, whites-le, whites-paint,
  whites-Grows, Color-cases,
}
use rootline.Graph.Cycles.Climb.{Chain}
use rootline.Graph.Cycles.Dfs.{
  Inv, Step, Step-here, Step-then, Inv-push, Inv-pop, Inv-not_in, Chain-insert,
}
use rootline.Graph.Cycles.BackEdges.{record_cycle-BackEdge}

module _ (adj : String → List String) (ns : List String) where
  -- A visit of a white node: a step after which the node is black.
  pub record Visit (stack : List String) (s : Search) (t : String) (r : Option Search)
      : Type 0 where
    pub step : Step adj ns stack s r
    pub blackened : color_of step.final t ≡ black

  -- The recursive call visits whatever has no more white nodes below it than fuel.
  abbrev pub Visits : ℕ → (String → Search → Option Search) → Type 0
  Visits f go =
      (stack : List String) (s : Search) (t : String)
      → Inv adj ns stack s
      → color_of s t ≡ white
      → In t ns
      → Chain adj s.parent (t ∷ stack)
      → whites s ns ≤ f
      → Visit stack s t (go t s)

  record Scanned (stack : List String) (s : Search) (ts : List String) (r : Option Search)
      : Type 0 where
    step : Step adj ns stack s r
    finished : step.final.cycles ≡ [] → (u : String) → In u ts → color_of step.final u ≡ black

  -- parent[target] = node
  Inv-adopt :
      (node : String) (st : List String) (s : Search) (t : String)
      → Inv adj ns (node ∷ st) s
      → color_of s t ≡ white
      → Inv adj ns (node ∷ st) (record s { parent = insert t node s.parent })
  Inv-adopt node st s t i w = record {
    grays = unfold color_of in i.grays;
    chain = Chain-insert adj s.parent t node (node ∷ st) (Inv-not_in adj ns t i w) i.chain;
    distinct = i.distinct;
    room = omega (
      arith,
      i.room,
      whites-le s (record s { parent = insert t node s.parent }) ns (unfold color_of in λ u w. w),
    );
    sound = i.sound;
    dead = unfold color_of in i.dead;
  }

  abbrev Step-adopt :
      (stack : List String) (s : Search) (parent : Dict String) (r : Option Search)
      → Step adj ns stack (record s { parent = parent }) r
      → Step adj ns stack s r
  Step-adopt stack s parent r h = record {
    final = h.final;
    returns = h.returns;
    inv = h.inv;
    grows = unfold color_of in h.grows;
    quiet = h.quiet;
  }

  Chain-adopt :
      (node : String) (st : List String) (s : Search) (t : String)
      → Inv adj ns (node ∷ st) s
      → color_of s t ≡ white
      → In t (adj node)
      → Chain adj (insert t node s.parent) (t ∷ node ∷ st)
  Chain-adopt node st s t i w edge = (
    ground (arith, lookup-insert t t node s.parent, eq_iff t t),
    edge,
    Chain-insert adj s.parent t node (node ∷ st) (Inv-not_in adj ns t i w) i.chain,
  )

  Scanned-then :
      (stack : List String) (s : Search) (t : String) (ts : List String) (r : Option Search)
      (k : Search → Option Search) (h : Step adj ns stack s r)
      → (h.final.cycles ≡ [] → color_of h.final t ≡ black)
      → Scanned stack h.final ts (k h.final)
      → Scanned stack s (t ∷ ts) (r >>= k)
  Scanned-then stack s t ts r k h now later = record {
    step = Step-then adj ns stack s r k h later.step;
    finished = λ e u m. elim m [
      | inl same ↦
          let b = now (later.step.quiet e) in
          subst (λ z. color_of later.step.final z ≡ black) (sym same)
            (later.step.grows t (λ w. ground arith) ∙ b)
      | inr below ↦ later.finished e u below
    ];
  }

  module _ (f : ℕ) (go : String → Search → Option Search) (visits : Visits f go) where
    scan-Scanned :
        (node : String) (st : List String) (ts : List String) (s : Search)
        → Inv adj ns (node ∷ st) s
        → ((t : String) → In t ts → In t (adj node))
        → ((t : String) → In t ts → In t ns)
        → whites s ns ≤ f
        → Scanned (node ∷ st) s ts (scan (length ns) adj go node ts s)
    unfolding scan
    scan-Scanned node st [] s i edges inside fuel = record {
      step = Step-here adj ns (node ∷ st) s i;
      finished = λ e u m. absurd m;
    }
    scan-Scanned node st (t ∷ ts) s i edges inside fuel =
        let go_on = λ (s' : Search) (i' : Inv adj ns (node ∷ st) s') (g : Grows s s').
          scan-Scanned node st ts s' i' (λ u m. edges u (inr m)) (λ u m. inside u (inr m))
            (omega (arith, whites-Grows s s' ns g, fuel)) in
        elim (Color-cases (color_of s t)) [
          | inl w ↦
              let s1 : Search = record s { parent = insert t node s.parent } in
              let v =
                visits (node ∷ st) s1 t (Inv-adopt node st s t i w) (unfold color_of in w)
                  (inside t (inl refl)) (Chain-adopt node st s t i w (edges t (inl refl)))
                  (omega (arith, whites-Grows s s1 ns (unfold color_of in λ u h. refl), fuel)) in
              let step = Step-adopt (node ∷ st) s (insert t node s.parent) (go t s1) v.step in
              rw (w, scan)
                (Scanned-then (node ∷ st) s t ts (go t s1) (scan (length ns) adj go node ts) step
                  (λ e. v.blackened) (go_on step.final step.inv step.grows))
          | inr (inl g) ↦
              let b =
                record_cycle-BackEdge adj ns node st s t i ((i.grays t).0 g) (edges t (inl refl)) in
              rw (g, scan)
                (Scanned-then (node ∷ st) s t ts (record_cycle (length ns) adj node t s)
                  (scan (length ns) adj go node ts) b.step (λ e. absurd (b.loud e))
                  (go_on b.step.final b.step.inv b.step.grows))
          | inr (inr b) ↦
              rw (b, scan)
                (Scanned-then (node ∷ st) s t ts (some s) (scan (length ns) adj go node ts)
                  (Step-here adj ns (node ∷ st) s i) (λ e. b) (go_on s i (Grows-refl s)))
        ]

  -- After its targets the visited node turns black.
  Visit-finish :
      (stack : List String) (s : Search) (t : String)
      → color_of s t ≡ white
      → (r : Option Search) → Scanned (t ∷ stack) (paint t gray s) (adj t) r
      → Visit stack s t (r >>= λ s'. some (paint t black s'))
  Visit-finish stack s t w r scanned =
      let s1 = paint t gray s in
      let s2 = scanned.step.final in
      record {
        step = record {
          final = paint t black s2;
          returns = ap (λ m. m >>= λ s'. some (paint t black s')) scanned.step.returns;
          inv = Inv-pop adj ns stack s2 t scanned.step.inv scanned.finished;
          grows =
              Grows-paint t black s s2 w
                (Grows-trans s s1 s2 (Grows-paint t gray s s w (Grows-refl s)) scanned.step.grows);
          quiet = λ e. unfold paint in scanned.step.quiet (unfold paint in e);
        };
        blackened = color_of-paint_self t black s2;
      }

  module _ (inside : (u t : String) → In t (adj u) → In t ns) where
    pub dfs-Visits : (f : ℕ) → Visits f (dfs (length ns) adj f)
    unfolding dfs
    dfs-Visits zero stack s t i w m c fuel =
        absurd (omega (arith, whites-paint t gray s ns w (λ e. cc) m, fuel))
    dfs-Visits (suc f) stack s t i w m c fuel =
        let s1 = paint t gray s in
        Visit-finish stack s t w (scan (length ns) adj (dfs (length ns) adj f) t (adj t) s1) (
          scan-Scanned f (dfs (length ns) adj f) (dfs-Visits f) t stack (adj t) s1
            (Inv-push adj ns stack s t i w m c) (λ u h. h) (inside t)
            (omega (arith, whites-paint t gray s ns w (λ e. cc) m, fuel)))
