-- ===== src/Graph/Trace/Correct.antt =====
-- What Trace returns: the nodes within reach, each once, at the length of a shortest walk.
use mathlib.Core.List.{append-nil, Nodup, Nodup-cons, Nodup-nil}
use rootline.Base.{
  ℕ, zero, suc, ◌+◌, ◌≤◌, ◌<◌, String, ◌≡◌, ◌≢◌, inl, inr, refl, sym, ap, ◌∙◌, subst, Option, some,
  List, [], ◌∷◌, ◌++◌, true, false, arith, In, All, length, select, ltb, if◌then◌else◌,
}
use rootline.Base.Dict.{has, keys, has-keys}
use rootline.Base.Member.{not-Mem}
use rootline.Graph.{Graph}
use rootline.Graph.Trace.{
  TraceOptions, TraceNode, Frontier, expand, at_limit, trace_loop, trace, trace_edges, start_node,
}
use rootline.Graph.Trace.Step.{paths, unseen, unseen-visit, unseen-nil, Follows}
use rootline.Graph.Trace.Places.{HasAt, HasAt-item, HasAt-le}
use rootline.Graph.Trace.Invariant.{Inv, expand-Expanded, IsGood, Passes, Reach, Within}
use rootline.Graph.Trace.Next.{Inv-next}

abbrev reported : List TraceNode → List TraceNode
reported = select (λ i. ltb 0 i.depth)

reported-snoc :
    (xs : List TraceNode) (i : TraceNode)
    → reported (xs ++ i ∷ []) ≡ (if ltb 0 i.depth then reported xs ++ i ∷ [] else reported xs)
reported-snoc [] i = refl
reported-snoc (x ∷ xs) i = ground (arith, reported-snoc xs i)

reported-positive : (xs : List TraceNode) → All (λ i. 0 < i.depth) xs → reported xs ≡ xs
reported-positive [] h = refl
reported-positive (x ∷ xs) h = ground (arith, reported-positive xs h.1)

module _ (g : Graph) (o : TraceOptions) (start : String) where
  -- The loop ended with an empty queue.
  record Ended (r : Option (List TraceNode)) : Type 0 where
    bound : ℕ
    done : List TraceNode
    visited : List String
    inv : Inv g o start bound done (record { visited = visited; queue = [] })
    returns : r ≡ some (reported done)

  trace_loop-Ended :
      (f b : ℕ) (done : List TraceNode) (visited : List String) (queue : List TraceNode)
      → Inv g o start b done (record { visited = visited; queue = queue })
      → unseen visited (keys g.nodes) + length queue ≤ f
      → Ended (trace_loop f g o (record { visited = visited; queue = queue }) (reported done))
  unfolding trace_loop
  trace_loop-Ended zero b done visited [] i h = record {
    bound = b;
    done = done;
    visited = visited;
    inv = i;
    returns = refl;
  }
  trace_loop-Ended (suc f) b done visited [] i h = record {
    bound = b;
    done = done;
    visited = visited;
    inv = i;
    returns = refl;
  }
  trace_loop-Ended zero b done visited (item ∷ rest) i h = absurd (omega arith)
  trace_loop-Ended (suc f) b done visited (item ∷ rest) i h =
      let s : Frontier = record { visited = visited; queue = rest } in
      let t = expand g o item s in
      let x = expand-Expanded g o start item s in
      subst (λ out. Ended (trace_loop f g o t out)) (reported-snoc done item)
        (trace_loop-Ended f item.depth (done ++ item ∷ []) t.visited t.queue
          (Inv-next g o start b done item rest visited t i x) (omega (arith, x.step.fuel)))

  Inv-start :
      has start g.nodes ≡ true
      → Inv g o start 0 [] (record { visited = start ∷ []; queue = start_node start ∷ [] })
  Inv-start h = record {
    low = tt;
    high = ((omega arith, omega arith), tt);
    sorted = (tt, tt);
    passes = tt;
    good = ((refl, ground arith), tt);
    known = λ v m. m;
    listed = (inl refl, tt);
    distinct = Nodup-cons.1 (not-Mem start [] (λ m. m), Nodup-nil);
    more = [];
    head = refl;
    positive = tt;
  }

  trace-Ended : has start g.nodes ≡ true → Ended (trace g start o)
  unfolding trace
  trace-Ended h =
      rw (h, trace)
        (trace_loop-Ended (length (keys g.nodes)) 0 [] (start ∷ []) (start_node start ∷ [])
          (Inv-start h) (omega (arith, unseen-start (keys g.nodes) ((has-keys start g.nodes).0 h))))
    where
      unseen-start : (ns : List String) → In start ns → suc (unseen (start ∷ []) ns) ≤ length ns
      unseen-start ns m = omega (arith, unseen-visit start [] ns refl m, unseen-nil ns)

  -- What a trace returns, with the walks of so many steps that it follows.
  pub record IsTrace (rs : List TraceNode) : Type 0 where
    -- each listed node ends a walk of its depth, within the limit
    pub sound : All (IsGood g o start) rs
    -- each node within the limit other than the start is listed, no deeper than any walk to it
    pub complete :
        (k : ℕ) (v : String) → Reach g o start k v → Within g o start k → v ≢ start → HasAt v k rs
    -- no node is listed twice, and the start is not listed
    pub distinct : Nodup (start ∷ paths rs)

  Within-pred : (k : ℕ) → Within g o start (suc k) → Within g o start k
  Within-pred k w = ground arith

  -- A node before the end of an allowed walk is not at the limit.
  open_limit : (d k : ℕ) → d ≤ k → Within g o start (suc k) → at_limit o d ≡ false
  unfolding at_limit
  open_limit d k h w = ground arith

  reached :
      (done : List TraceNode)
      → All (Passes g o start done) done
      → HasAt start 0 done
      → (k : ℕ) (v : String) → Reach g o start k v
      → Within g o start k
      → HasAt v k done
  reached done p h zero v e w = subst (λ z. HasAt z 0 done) (sym e) h
  reached done p h (suc k) v (u, r, f) w =
      let (i, passes, same, low) =
        HasAt-item (Passes g o start done) u k done p (reached done p h k u r (Within-pred k w)) in
      HasAt-le v (suc i.depth) (suc k) done (omega arith) (
        passes (open_limit i.depth k low w) v
          (subst (λ z. Follows g o (trace_edges g o z) v) (sym same) f))

  not-start :
      (v : String)
      → v ≢ start
      → (rs : List TraceNode) (k : ℕ) → HasAt v k (start_node start ∷ rs)
      → HasAt v k rs
  not-start v ne rs k (inl (e, l)) = absurd (ne (sym e))
  not-start v ne rs k (inr m) = m

  Ended-IsTrace :
      (r : Option (List TraceNode)) → Ended r → (rs : List TraceNode) × (r ≡ some rs) × IsTrace rs
  Ended-IsTrace r e =
      let all : e.done ≡ start_node start ∷ e.inv.more = sym (append-nil e.done) ∙ e.inv.head in
      let good = subst (All (IsGood g o start)) e.inv.head e.inv.good in
      let passes =
        subst (λ js. All (Passes g o start js) e.done) (append-nil e.done) e.inv.passes in
      (
        e.inv.more,
        e.returns ∙ ap some (ap reported all ∙ reported-positive e.inv.more e.inv.positive),
        record {
          sound = good.1;
          complete = λ k v w within ne. not-start v ne e.inv.more k (
              subst (HasAt v k) all (
                reached e.done passes (subst (HasAt start 0) (sym all) (inl (refl, omega arith))) k
                  v w within));
          distinct = subst (λ js. Nodup (paths js)) e.inv.head e.inv.distinct;
        },
      )

  -- From a node of the graph Trace returns. It lists each node that a walk within the depth limit
  -- reaches along edges of the wanted type and direction, except the start, exactly once; the depth
  -- given is the length of such a walk, and no such walk to that node is shorter.
  pub trace-IsTrace :
      has start g.nodes ≡ true → (rs : List TraceNode) × (trace g start o ≡ some rs) × IsTrace rs
  trace-IsTrace h = Ended-IsTrace (trace g start o) (trace-Ended h)
