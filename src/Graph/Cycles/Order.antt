-- ===== src/Graph/Cycles/Order.antt =====
-- The order of printed cycles, and what sorting and dropping repeats leaves of them.
use Prim.Native.String.{then}
use text.Mathlib.TextEquality.{path_by_compare}
use text.Mathlib.TextPositions.{compare_refl}
use rootline.Base.{String, ◌≡◌, ◌↔◌, refl, ap₂, List, [], ◌∷◌, true, arith, In, All, Ordering}
use rootline.Base.Text.{flip, compare-flip, compare_trans}
use rootline.Base.Sort.{IsOrder, IsSorted}
use rootline.Graph.Cycles.{compare_cycles, cycle_le, drop_repeats, dedupe_cycles}

compare_cycles_refl : (a : List String) → compare_cycles a a ≡ Ordering.eq
unfolding compare_cycles
compare_cycles_refl [] = refl
compare_cycles_refl (x ∷ a) = ap₂ then (compare_refl x) (compare_cycles_refl a)

-- Two cycles that compare equal are the same list.
pub compare_cycles-eq : (a b : List String) → compare_cycles a b ≡ Ordering.eq → a ≡ b
unfolding compare_cycles
compare_cycles-eq [] [] h = refl
compare_cycles-eq [] (y ∷ b) h = ground arith
compare_cycles-eq (x ∷ a) [] h = ground arith
compare_cycles-eq (x ∷ a) (y ∷ b) h = ground (arith, path_by_compare x y, compare_cycles-eq a b)

compare_cycles-flip : (a b : List String) → compare_cycles b a ≡ flip (compare_cycles a b)
unfolding compare_cycles
compare_cycles-flip [] [] = refl
compare_cycles-flip [] (y ∷ b) = refl
compare_cycles-flip (x ∷ a) [] = refl
compare_cycles-flip (x ∷ a) (y ∷ b) = ground (arith, compare-flip x y, compare_cycles-flip a b)

compare_cycles_trans :
    (a b c : List String)
    → compare_cycles a b ≡ Ordering.lt
    → compare_cycles b c ≡ Ordering.lt
    → compare_cycles a c ≡ Ordering.lt
unfolding compare_cycles
compare_cycles_trans [] b [] h k = ground (arith, compare_cycles-flip b [])
compare_cycles_trans [] b (z ∷ c) h k = refl
compare_cycles_trans (x ∷ a) [] c h k = ground arith
compare_cycles_trans (x ∷ a) (y ∷ b) [] h k = ground arith
compare_cycles_trans (x ∷ a) (y ∷ b) (z ∷ c) h k = ground (
  arith,
  compare_trans x y z,
  path_by_compare x y,
  path_by_compare y z,
  compare_refl x,
  compare_cycles_trans a b c,
)

pub cycle_le-IsOrder : IsOrder cycle_le
unfolding cycle_le
cycle_le-IsOrder = record {
  total = λ a b. ground (arith, compare_cycles-flip a b);
  transitive = λ a b c h k. ground (
    arith,
    compare_cycles_trans a b c,
    compare_cycles-eq a b,
    compare_cycles-eq b c,
    compare_cycles_refl a,
  );
}

In-drop_repeats :
    (last c : List String) (cs : List (List String))
    → In c (last ∷ drop_repeats last cs) ↔ In c (last ∷ cs)
unfolding drop_repeats
In-drop_repeats last c [] = ground arith
In-drop_repeats last c (d ∷ cs) =
    ground (arith, compare_cycles-eq last d, In-drop_repeats d c cs, In-drop_repeats last c cs)

-- Dropping repeats loses no cycle and invents none.
pub In-dedupe_cycles :
    (c : List String) (cs : List (List String)) → In c (dedupe_cycles cs) ↔ In c cs
unfolding dedupe_cycles
In-dedupe_cycles c [] = ground arith
In-dedupe_cycles c (d ∷ cs) = In-drop_repeats d c cs

-- Each cycle is strictly before those that follow.
abbrev pub IsStrict : List (List String) → Type 0
IsStrict [] = Unit
IsStrict (c ∷ cs) = All (λ d. compare_cycles c d ≡ Ordering.lt) cs × IsStrict cs

above_trans :
    (a b : List String) (cs : List (List String))
    → compare_cycles a b ≡ Ordering.lt
    → All (λ d. compare_cycles b d ≡ Ordering.lt) cs
    → All (λ d. compare_cycles a d ≡ Ordering.lt) cs
above_trans a b [] h k = tt
above_trans a b (c ∷ cs) h k = (compare_cycles_trans a b c h k.0, above_trans a b cs h k.1)

drop_repeats-above :
    (last : List String) (cs : List (List String))
    → All (λ d. cycle_le last d ≡ true) cs
    → IsSorted cycle_le cs
    → All (λ d. compare_cycles last d ≡ Ordering.lt) (drop_repeats last cs)
      × IsStrict (drop_repeats last cs)
unfolding drop_repeats cycle_le
drop_repeats-above last [] h s = (tt, tt)
drop_repeats-above last (d ∷ cs) h s = ground (
  arith,
  drop_repeats-above d cs s.0 s.1,
  drop_repeats-above last cs h.1 s.1,
  above_trans last d (drop_repeats d cs),
)

-- Over a sorted list the result is strictly sorted: no cycle is printed twice.
pub dedupe_cycles-IsStrict :
    (cs : List (List String)) → IsSorted cycle_le cs → IsStrict (dedupe_cycles cs)
unfolding dedupe_cycles
dedupe_cycles-IsStrict [] h = tt
dedupe_cycles-IsStrict (d ∷ cs) h = drop_repeats-above d cs h.0 h.1
