-- ===== src/Graph/Trace/Step.antt =====
-- One item of the trace's queue: what its edges add.
use rootline.Base.{
  ℕ, suc, ◌+◌, ◌≤◌, String, ◌≡◌, ◌⊎◌, inl, inr, refl, sym, ◌∙◌, subst, List, [], ◌∷◌, ◌++◌, true,
  false, arith, In, All, length, eq_iff, length-append, if◌then◌else◌, Bool-cases,
}
use mathlib.Core.List.{append_assoc, append-nil, Nodup, Nodup-nil, Nodup-cons}
use rootline.Base.Member.{not-Mem}
use rootline.Base.Dict.{has, keys, has-keys}
use rootline.Graph.{Edge, Graph}
use rootline.Graph.Adjacency.{contains, contains_iff}
use rootline.Graph.Trace.{TraceOptions, TraceNode, Frontier, skips, enqueue}

abbrev pub paths : List TraceNode → List String
paths [] = []
paths (i ∷ is) = i.path ∷ paths is

-- How many of the listed nodes have not been visited.
pub unseen : List String → List String → ℕ
unseen visited [] = 0
unseen visited (n ∷ ns) = (if contains visited n then 0 else 1) + unseen visited ns

pub unseen-nil : (ns : List String) → unseen [] ns ≡ length ns
unfolding unseen
unseen-nil [] = refl
unseen-nil (n ∷ ns) = omega (arith, unseen-nil ns)

unseen-le : (t : String) (visited ns : List String) → unseen (t ∷ visited) ns ≤ unseen visited ns
unfolding unseen
unseen-le t visited [] = omega arith
unseen-le t visited (n ∷ ns) = ground (arith, unseen-le t visited ns)

pub unseen-visit :
    (t : String) (visited ns : List String)
    → contains visited t ≡ false
    → In t ns
    → suc (unseen (t ∷ visited) ns) ≤ unseen visited ns
unfolding unseen
unseen-visit t visited [] h m = absurd m
unseen-visit t visited (n ∷ ns) h m =
    ground (arith, unseen-le t visited ns, unseen-visit t visited ns h, eq_iff t n)

module _ (g : Graph) (o : TraceOptions) where
  -- One of the edges leads to the node `v`, and the trace follows its type.
  abbrev pub Follows : List Edge → String → Type 0
  Follows [] v = ⊥
  Follows (e ∷ es) v =
      ((v ≡ e.target) × (has v g.nodes ≡ true) × ((o.edge_type ≡ "") ⊎ (e.kind ≡ o.edge_type)))
      ⊎ Follows es v

  abbrev pub Added : TraceNode → List Edge → List String → TraceNode → Type 0
  Added item es visited i = (i.depth ≡ suc item.depth) × Follows es i.path × In i.path visited

  Added-mono :
      (item : TraceNode) (e : Edge) (es : List Edge) (visited : List String) (new : List TraceNode)
      → All (Added item es visited) new
      → All (Added item (e ∷ es) visited) new
  Added-mono item e es visited [] h = tt
  Added-mono item e es visited (i ∷ new) h =
      ((h.0.0, inr h.0.1, h.0.2), Added-mono item e es visited new h.1)

  -- What the loop over the edges of `item` does to the queue and to the visited nodes.
  pub record Enqueued (item : TraceNode) (es : List Edge) (s t : Frontier) : Type 0 where
    pub new : List TraceNode
    pub queue : t.queue ≡ s.queue ++ new
    pub added : All (Added item es t.visited) new
    pub keeps : (v : String) → In v s.visited → In v t.visited
    pub only : (v : String) → In v t.visited → In v s.visited ⊎ In v (paths new)
    pub unvisited : (v : String) → In v (paths new) → ¬ In v s.visited
    pub distinct : Nodup (paths new)
    pub follows : (v : String) → Follows es v → In v t.visited
    pub fuel :
        unseen t.visited (keys g.nodes) + length t.queue
        ≤ unseen s.visited (keys g.nodes) + length s.queue

  skips-visited :
      (visited : List String) (e : Edge)
      → skips g o visited e ≡ true
      → has e.target g.nodes ≡ true
      → (o.edge_type ≡ "") ⊎ (e.kind ≡ o.edge_type)
      → In e.target visited
  unfolding skips
  skips-visited visited e h k l =
      ground
        (arith, eq_iff o.edge_type "", eq_iff e.kind o.edge_type, contains_iff e.target visited)

  skips-not :
      (visited : List String) (e : Edge)
      → skips g o visited e ≡ false
      → (has e.target g.nodes ≡ true)
        × ((o.edge_type ≡ "") ⊎ (e.kind ≡ o.edge_type))
        × (contains visited e.target ≡ false)
  unfolding skips
  skips-not visited e h = ground (arith, eq_iff o.edge_type "", eq_iff e.kind o.edge_type)

  pub Enqueued-nil : (item : TraceNode) (s : Frontier) → Enqueued item [] s s
  Enqueued-nil item s = record {
    new = [];
    queue = sym (append-nil s.queue);
    added = tt;
    keeps = λ v m. m;
    only = λ v m. inl m;
    unvisited = λ v m. absurd m;
    distinct = Nodup-nil;
    follows = λ v m. absurd m;
    fuel = omega arith;
  }

  Enqueued-skip :
      (item : TraceNode) (e : Edge) (es : List Edge) (s t : Frontier)
      → skips g o s.visited e ≡ true
      → Enqueued item es s t
      → Enqueued item (e ∷ es) s t
  Enqueued-skip item e es s t skip h = record {
    new = h.new;
    queue = h.queue;
    added = Added-mono item e es t.visited h.new h.added;
    keeps = h.keeps;
    only = h.only;
    unvisited = h.unvisited;
    distinct = h.distinct;
    follows = λ v f. elim f [
      | inl (same, inside, type) ↦ h.keeps v (
          subst (λ z. In z s.visited) (sym same)
            (skips-visited s.visited e skip (subst (λ z. has z g.nodes ≡ true) same inside) type))
      | inr later ↦ h.follows v later
    ];
    fuel = h.fuel;
  }

  abbrev item_of : TraceNode → Edge → TraceNode
  item_of item e = record {
    path = e.target;
    depth = item.depth + 1;
    via = e.kind;
    from = item.path;
  }

  abbrev pushed : TraceNode → Edge → Frontier → Frontier
  pushed item e s = record {
    visited = e.target ∷ s.visited;
    queue = s.queue ++ item_of item e ∷ [];
  }

  Enqueued-push :
      (item : TraceNode) (e : Edge) (es : List Edge) (s t : Frontier)
      → skips g o s.visited e ≡ false
      → Enqueued item es (pushed item e s) t
      → Enqueued item (e ∷ es) s t
  Enqueued-push item e es s t skip h =
      let (inside, type, unseen) = skips-not s.visited e skip in
      let here = h.keeps e.target (inl refl) in
      record {
        new = item_of item e ∷ h.new;
        queue = h.queue ∙ append_assoc s.queue (item_of item e ∷ []) h.new;
        added = (
          (omega arith, inl (refl, inside, type), here),
          Added-mono item e es t.visited h.new h.added,
        );
        keeps = λ v m. h.keeps v (inr m);
        only = λ v m. ground (arith, h.only v m);
        unvisited = λ v m k. ground (arith, h.unvisited v, contains_iff e.target s.visited);
        distinct =
            Nodup-cons.1
              (not-Mem e.target (paths h.new) (λ m. h.unvisited e.target m (inl refl)), h.distinct);
        follows = λ v f. elim f [
          | inl (same, _, _) ↦ subst (λ z. In z t.visited) (sym same) here
          | inr later ↦ h.follows v later
        ];
        fuel = omega (
          arith,
          h.fuel,
          unseen-visit e.target s.visited (keys g.nodes) unseen
              ((has-keys e.target g.nodes).0 inside),
          length-append s.queue (item_of item e ∷ []),
        );
      }

  pub enqueue-Enqueued :
      (item : TraceNode) (es : List Edge) (s : Frontier)
      → Enqueued item es s (enqueue g o item es s)
  unfolding enqueue
  enqueue-Enqueued item [] s = Enqueued-nil item s
  enqueue-Enqueued item (e ∷ es) s = elim (Bool-cases (skips g o s.visited e)) [
    | inl skip ↦
        rw (skip, enqueue)
          (Enqueued-skip item e es s (enqueue g o item es s) skip (enqueue-Enqueued item es s))
    | inr push ↦
        rw (push, enqueue)
          (Enqueued-push item e es s (enqueue g o item es (pushed item e s)) push
            (enqueue-Enqueued item es (pushed item e s)))
  ]
