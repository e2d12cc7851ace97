-- ===== src/Graph/Trace/Next.antt =====
-- One round of the trace's loop keeps the invariant.
use mathlib.Core.List.{append_assoc, Nodup, Nodup-append}
use mathlib.Core.Logic.{∥∥₁_elim}
use mathlib.Core.HLevel.{⊥_prop}
use rootline.Base.{
  ℕ, suc, ◌≤◌, ◌<◌, String, ◌≡◌, refl, sym, ap, ◌∙◌, subst, List, [], ◌∷◌, ◌++◌, true, arith, In,
  In-append, All, All-append, All-right, All-map, leb→le,
}
use rootline.Base.Member.{In-of_Memᴰ}
use rootline.Base.Sort.{IsSorted}
use rootline.Graph.{Graph}
use rootline.Graph.Trace.{TraceOptions, TraceNode, Frontier}
use rootline.Graph.Trace.Step.{paths, Follows, Added}
use rootline.Graph.Trace.Places.{
  HasAt-left, HasAt-paths, In-paths, paths-append, depth_le, IsSorted-append, IsSorted-level,
}
use rootline.Graph.Trace.Invariant.{Inv, Expanded, IsGood, Passes, Added-IsGood}

abbrev with_queue : List String → List TraceNode → Frontier
with_queue visited queue = record { visited = visited; queue = queue }

module _ (g : Graph) (o : TraceOptions) (start : String) (b : ℕ) (done : List TraceNode)
    (item : TraceNode) (rest : List TraceNode) (visited : List String) (t : Frontier)
    (i : Inv g o start b done (with_queue visited (item ∷ rest)))
    (x : Expanded g o start item (with_queue visited rest) t) where
  open i use {low, high, sorted, passes, good, known, listed, distinct, more, head, positive}

  abbrev items : List TraceNode
  items = done ++ item ∷ rest

  abbrev new : List TraceNode
  new = x.step.new

  -- The items after the round are those before it, and the new ones.
  regroup : items ++ new ≡ (done ++ item ∷ []) ++ t.queue
  regroup = simp append_assoc (rw (x.step.queue) refl)

  item-IsGood : IsGood g o start item
  item-IsGood = (All-right (IsGood g o start) done (item ∷ rest) good).0

  new_depth : All (λ j. j.depth ≡ suc item.depth) new
  new_depth = All-map (Added g o item x.edges t.visited) _ new (λ j a. a.0) x.step.added

  rest_low : All (λ j. j.depth ≤ suc item.depth) rest
  rest_low =
      All-map (λ j. (b ≤ j.depth) × (j.depth ≤ suc b)) _ rest (λ j h. omega (arith, high.0)) high.1

  items_low : All (λ j. j.depth ≤ suc item.depth) items
  items_low =
      All-append _ done (item ∷ rest) (All-map _ _ done (λ j h. omega (arith, h, high.0)) low)
        (omega arith, rest_low)

  next_low : All (λ j. j.depth ≤ item.depth) (done ++ item ∷ [])
  next_low =
      All-append _ done (item ∷ []) (All-map _ _ done (λ j h. omega (arith, h, high.0)) low)
        (omega arith, tt)

  rest_high : All (λ j. (item.depth ≤ j.depth) × (j.depth ≤ suc item.depth)) rest
  rest_high = both rest sorted.0 rest_low
    where
      both :
          (js : List TraceNode)
          → All (λ j. depth_le item j ≡ true) js
          → All (λ j. j.depth ≤ suc item.depth) js
          → All (λ j. (item.depth ≤ j.depth) × (j.depth ≤ suc item.depth)) js
      both [] h k = tt
      both (j ∷ js) h k = ((leb→le item.depth j.depth h.0, k.0), both js h.1 k.1)

  next_high : All (λ j. (item.depth ≤ j.depth) × (j.depth ≤ suc item.depth)) t.queue
  next_high =
      subst (All _) (sym x.step.queue)
        (All-append _ rest new rest_high (All-map _ _ new (λ j e. omega (arith, e)) new_depth))

  next-IsSorted : IsSorted depth_le t.queue
  next-IsSorted = subst (IsSorted depth_le) (sym x.step.queue) (
      IsSorted-append (suc item.depth) rest new sorted.1
        (IsSorted-level (suc item.depth) new new_depth) rest_low
        (All-map _ _ new (λ j e. omega (arith, e)) new_depth))

  known_paths : (v : String) → In v t.visited → In v (paths (items ++ new))
  known_paths v m =
      rw (paths-append items new)
        ((In-append v (paths items) (paths new)).1 (ground (arith, x.step.only v m, known v)))

  All-low : All (λ j. j.depth ≤ suc item.depth) (items ++ new)
  All-low = All-append _ items new items_low (All-map _ _ new (λ j e. omega (arith, e)) new_depth)

  -- The item has passed its targets on: each is visited, and all items are near enough.
  item-Passes : Passes g o start (items ++ new) item
  item-Passes go v f =
      HasAt-paths v (suc item.depth) (items ++ new) All-low
        (known_paths v (x.step.follows v (subst (λ es. Follows g o es v) (sym (x.all go)) f)))

  next-Passes : All (Passes g o start (items ++ new)) (done ++ item ∷ [])
  next-Passes =
      All-append _ done (item ∷ [])
        (All-map _ _ done
          (λ j h go v f.
            HasAt-left v (suc j.depth) (suc j.depth) items new (omega arith) (h go v f))
          passes)
        (item-Passes, tt)

  next_listed : All (λ j. In j.path t.visited) (items ++ new)
  next_listed =
      All-append _ items new (All-map _ _ items (λ j m. x.step.keeps j.path m) listed)
        (All-map _ _ new (λ j a. a.2) x.step.added)

  next_distinct : Nodup (paths (items ++ new))
  next_distinct = rw (paths-append items new) (
      Nodup-append.1 (
        distinct,
        x.step.distinct,
        λ a m k. ∥∥₁_elim m ⊥_prop λ m'. ∥∥₁_elim k ⊥_prop λ k'.
            x.step.unvisited a (In-of_Memᴰ a (paths new) k')
              (In-paths a (λ z. In z visited) items listed (In-of_Memᴰ a (paths items) m')),
      ))

  next_positive : All (λ j. 0 < j.depth) (more ++ new)
  next_positive =
      All-append _ more new positive (All-map _ _ new (λ j e. omega (arith, e)) new_depth)

  pub Inv-next : Inv g o start item.depth (done ++ item ∷ []) t
  Inv-next = record {
    low = next_low;
    high = next_high;
    sorted = next-IsSorted;
    passes = subst (λ js. All (Passes g o start js) (done ++ item ∷ [])) regroup next-Passes;
    good = subst (All (IsGood g o start)) regroup (
        All-append _ items new good
          (Added-IsGood g o start item (with_queue visited rest) t x item-IsGood));
    known = λ v m. subst (λ js. In v (paths js)) regroup (known_paths v m);
    listed = subst (All (λ j. In j.path t.visited)) regroup next_listed;
    distinct = subst (λ js. Nodup (paths js)) regroup next_distinct;
    more = more ++ new;
    head = sym regroup ∙ ap (λ js. js ++ new) head;
    positive = next_positive;
  }
