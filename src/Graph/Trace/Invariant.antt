-- ===== src/Graph/Trace/Invariant.antt =====
-- The invariant of the trace: the queue is ordered by depth, over two depths at most, and whatever
-- has left it has passed its targets on.
use mathlib.Core.List.{Nodup}
use rootline.Base.{
  ℕ, zero, suc, ◌≤◌, ◌<◌, String, ◌≡◌, ◌⊎◌, inl, inr, refl, sym, subst, List, [], ◌∷◌, ◌++◌, true,
  false, arith, In, All, All-map, Bool-cases,
}
use rootline.Base.Sort.{IsSorted}
use rootline.Graph.{Graph, Edge}
use rootline.Graph.Trace.{
  TraceOptions, TraceNode, Frontier, expand, at_limit, trace_edges, start_node,
}
use rootline.Graph.Trace.Step.{paths, Follows, Added, Enqueued, Enqueued-nil, enqueue-Enqueued}
use rootline.Graph.Trace.Places.{HasAt, depth_le}

module _ (g : Graph) (o : TraceOptions) (start : String) where
  -- A walk of so many steps from the start, along the edges that the trace follows.
  abbrev pub Reach : ℕ → String → Type 0
  Reach zero v = v ≡ start
  Reach (suc k) v = (u : String) × Reach k u × Follows g o (trace_edges g o u) v

  -- The depth is not past the limit.
  abbrev pub Within : ℕ → Type 0
  Within k = (o.max_depth ≡ 0) ⊎ (k ≤ o.max_depth)

  abbrev pub IsGood : TraceNode → Type 0
  IsGood i = Reach i.depth i.path × Within i.depth

  abbrev pub Passes : List TraceNode → TraceNode → Type 0
  Passes items i =
      at_limit o i.depth ≡ false
      → (v : String) → Follows g o (trace_edges g o i.path) v
      → HasAt v (suc i.depth) items

  -- `done` has left the queue, at depths up to `b`.
  pub record Inv (b : ℕ) (done : List TraceNode) (s : Frontier) : Type 0 where
    pub low : All (λ i. i.depth ≤ b) done
    pub high : All (λ i. (b ≤ i.depth) × (i.depth ≤ suc b)) s.queue
    pub sorted : IsSorted depth_le s.queue
    pub passes : All (Passes (done ++ s.queue)) done
    pub good : All IsGood (done ++ s.queue)
    pub known : (v : String) → In v s.visited → In v (paths (done ++ s.queue))
    pub listed : All (λ i. In i.path s.visited) (done ++ s.queue)
    pub distinct : Nodup (paths (done ++ s.queue))
    pub more : List TraceNode
    pub head : done ++ s.queue ≡ start_node start ∷ more
    pub positive : All (λ i. 0 < i.depth) more

  -- What the item at the head of the queue adds, within the limit.
  pub record Expanded (item : TraceNode) (s t : Frontier) : Type 0 where
    pub edges : List Edge
    pub step : Enqueued g o item edges s t
    pub all : at_limit o item.depth ≡ false → edges ≡ trace_edges g o item.path
    pub none_past : at_limit o item.depth ≡ true → edges ≡ []

  pub expand-Expanded : (item : TraceNode) (s : Frontier) → Expanded item s (expand g o item s)
  unfolding expand
  expand-Expanded item s = elim (Bool-cases (at_limit o item.depth)) [
    | inl stop ↦ record {
      edges = [];
      step = rw (stop, expand) (Enqueued-nil g o item s);
      all = λ e. cc;
      none_past = λ e. refl;
    }
    | inr go ↦ record {
      edges = trace_edges g o item.path;
      step = rw (go, expand) (enqueue-Enqueued g o item (trace_edges g o item.path) s);
      all = λ e. refl;
      none_past = λ e. cc;
    }
  ]

  Within-suc : (k : ℕ) → at_limit o k ≡ false → Within (suc k)
  unfolding at_limit
  Within-suc k h = ground arith

  -- A new item is one step further than the item that adds it.
  pub Added-IsGood :
      (item : TraceNode) (s t : Frontier) (x : Expanded item s t)
      → IsGood item
      → All IsGood x.step.new
  Added-IsGood item s t x h =
      All-map (Added g o item x.edges t.visited) IsGood x.step.new (λ i a. (one i a, two i a))
        x.step.added
    where
      open_limit : (i : TraceNode) → Follows g o x.edges i.path → at_limit o item.depth ≡ false
      open_limit i f = elim (Bool-cases (at_limit o item.depth)) [
        | inl stop ↦ absurd (subst (λ es. Follows g o es i.path) (x.none_past stop) f)
        | inr go ↦ go
      ]

      one : (i : TraceNode) → Added g o item x.edges t.visited i → Reach i.depth i.path
      one i (d, f, m) =
          subst (λ k. Reach k i.path) (sym d)
            (item.path, h.0, subst (λ es. Follows g o es i.path) (x.all (open_limit i f)) f)

      two : (i : TraceNode) → Added g o item x.edges t.visited i → Within i.depth
      two i (d, f, m) = subst Within (sym d) (Within-suc item.depth (open_limit i f))
