-- ===== src/Graph/Trace/Places.antt =====
-- Where a node stands among the items of a trace, and at which depth.
use rootline.Base.{
  ℕ, ◌≤◌, String, ◌≡◌, ◌⊎◌, inl, inr, refl, sym, ap, subst, List, [], ◌∷◌, ◌++◌, Bool, true, arith,
  In, All, leb, le→leb,
}
use rootline.Base.Sort.{IsSorted}
use rootline.Graph.Trace.{TraceNode}
use rootline.Graph.Trace.Step.{paths}

-- Some item is the node `v`, at depth `k` or less.
abbrev pub HasAt : String → ℕ → List TraceNode → Type 0
HasAt v k [] = ⊥
HasAt v k (i ∷ is) = ((i.path ≡ v) × (i.depth ≤ k)) ⊎ HasAt v k is

pub HasAt-left :
    (v : String) (k l : ℕ) (xs ys : List TraceNode) → k ≤ l → HasAt v k xs → HasAt v l (xs ++ ys)
HasAt-left v k l [] ys h m = absurd m
HasAt-left v k l (x ∷ xs) ys h m = ground (arith, HasAt-left v k l xs ys h)

pub HasAt-right :
    (v : String) (k : ℕ) (xs ys : List TraceNode) → HasAt v k ys → HasAt v k (xs ++ ys)
HasAt-right v k [] ys m = m
HasAt-right v k (x ∷ xs) ys m = inr (HasAt-right v k xs ys m)

pub HasAt-le : (v : String) (k l : ℕ) (xs : List TraceNode) → k ≤ l → HasAt v k xs → HasAt v l xs
HasAt-le v k l [] h m = absurd m
HasAt-le v k l (x ∷ xs) h m = ground (arith, HasAt-le v k l xs h)

-- An item at its place, with what holds of every item.
pub HasAt-item {ℓ} :
    (P : TraceNode → Type ℓ) (v : String) (k : ℕ) (xs : List TraceNode)
    → All P xs
    → HasAt v k xs
    → (i : TraceNode) × P i × (i.path ≡ v) × (i.depth ≤ k)
HasAt-item P v k (x ∷ xs) h (inl (e, l)) = (x, h.0, e, l)
HasAt-item P v k (x ∷ xs) h (inr m) = HasAt-item P v k xs h.1 m
HasAt-item P v k [] h m = absurd m

-- A listed node stands at the depth that bounds all items.
pub HasAt-paths :
    (v : String) (k : ℕ) (xs : List TraceNode)
    → All (λ i. i.depth ≤ k) xs
    → In v (paths xs)
    → HasAt v k xs
HasAt-paths v k [] h m = absurd m
HasAt-paths v k (x ∷ xs) h m = ground (arith, HasAt-paths v k xs h.1)

pub In-paths :
    (v : String) (P : String → Type 0) (xs : List TraceNode)
    → All (λ i. P i.path) xs
    → In v (paths xs)
    → P v
In-paths v P (x ∷ xs) h (inl e) = subst P (sym e) h.0
In-paths v P (x ∷ xs) h (inr m) = In-paths v P xs h.1 m
In-paths v P [] h m = absurd m

pub paths-append : (xs ys : List TraceNode) → paths (xs ++ ys) ≡ paths xs ++ paths ys
paths-append [] ys = refl
paths-append (x ∷ xs) ys = ap (λ z. x.path ∷ z) (paths-append xs ys)

abbrev pub depth_le : TraceNode → TraceNode → Bool
depth_le i j = leb i.depth j.depth

All-above :
    (c : ℕ) (i : TraceNode) (ys : List TraceNode)
    → i.depth ≤ c
    → All (λ j. c ≤ j.depth) ys
    → All (λ j. depth_le i j ≡ true) ys
All-above c i [] h k = tt
All-above c i (y ∷ ys) h k = (le→leb i.depth y.depth (omega arith), All-above c i ys h k.1)

-- Two sorted queues, the second at the depth `c` and the first at most there.
pub IsSorted-append :
    (c : ℕ) (xs ys : List TraceNode)
    → IsSorted depth_le xs
    → IsSorted depth_le ys
    → All (λ i. i.depth ≤ c) xs
    → All (λ j. c ≤ j.depth) ys
    → IsSorted depth_le (xs ++ ys)
IsSorted-append c [] ys sx sy hx hy = sy
IsSorted-append c (x ∷ xs) ys sx sy hx hy =
    (All-join x xs ys sx.0 (All-above c x ys hx.0 hy), IsSorted-append c xs ys sx.1 sy hx.1 hy)
  where
    All-join :
        (i : TraceNode) (us vs : List TraceNode)
        → All (λ j. depth_le i j ≡ true) us
        → All (λ j. depth_le i j ≡ true) vs
        → All (λ j. depth_le i j ≡ true) (us ++ vs)
    All-join i [] vs h k = k
    All-join i (u ∷ us) vs h k = (h.0, All-join i us vs h.1 k)

pub IsSorted-level :
    (c : ℕ) (xs : List TraceNode) → All (λ i. i.depth ≡ c) xs → IsSorted depth_le xs
IsSorted-level c [] h = tt
IsSorted-level c (x ∷ xs) h = (level c x xs h.0 h.1, IsSorted-level c xs h.1)
  where
    level :
        (k : ℕ) (i : TraceNode) (us : List TraceNode)
        → i.depth ≡ k
        → All (λ j. j.depth ≡ k) us
        → All (λ j. depth_le i j ≡ true) us
    level k i [] h l = tt
    level k i (u ∷ us) h l = (le→leb i.depth u.depth (omega arith), level k i us h l.1)
