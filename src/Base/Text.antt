-- ===== src/Base/Text.antt =====
-- The order of texts: Go's `strings.Compare` and `<` on strings. Go compares bytes and `compare`
-- compares code points; on UTF-8 text the two orders are the same.
use Prim.Native.Nat.{ℕ, compare as compare_ℕ, Ordering}
use Prim.Native.Char.{code}
use Prim.Native.String.compare
use Prim.Native.String.{String, [], ◌∷◌, compare, then}
use mathlib.Core.Path.{◌≡◌, refl, sym, ap, ap₂, ◌∙◌}
use mathlib.Core.Logic.{◌⊎◌, inr, ◌↔◌}
use mathlib.Core.Bool.{Bool, true, false}
use native.Mathlib.Omega.{arith}
use text.Mathlib.TextEquality.{path_by_compare}
use text.Mathlib.TextPositions.{compare_refl}

-- s < t
unfoldable pub str_lt : String → String → Bool
str_lt s t = elim (compare s t) [ Ordering.lt ↦ true | _ ↦ false ]

-- s <= t
unfoldable pub str_le : String → String → Bool
str_le s t = elim (compare s t) [ Ordering.gt ↦ false | _ ↦ true ]

abbrev pub flip : Ordering → Ordering
flip Ordering.lt = Ordering.gt
flip Ordering.eq = Ordering.eq
flip Ordering.gt = Ordering.lt

compare_ℕ-flip : (m n : ℕ) → compare_ℕ n m ≡ flip (compare_ℕ m n)
compare_ℕ-flip m n = ground arith

then-flip : (o r : Ordering) → then (flip o) (flip r) ≡ flip (then o r)
then-flip Ordering.lt r = refl
then-flip Ordering.eq r = refl
then-flip Ordering.gt r = refl

-- The same texts the other way round.
pub compare-flip : (s t : String) → compare t s ≡ flip (compare s t)
compare-flip [] [] = refl
compare-flip [] (d ∷ t) = compare.cons-nil d t ∙ sym (ap flip (compare.nil-cons d t))
compare-flip (c ∷ s) [] = compare.nil-cons c s ∙ sym (ap flip (compare.cons-nil c s))
compare-flip (c ∷ s) (d ∷ t) =
    compare.cons-cons d c t s
    ∙ ap₂ then (compare_ℕ-flip (code c) (code d)) (compare-flip s t)
    ∙ then-flip (compare_ℕ (code c) (code d)) (compare s t)
    ∙ sym (ap flip (compare.cons-cons c d s t))

then_trans :
    (a b c : ℕ) (o p q : Ordering)
    → (o ≡ Ordering.lt → p ≡ Ordering.lt → q ≡ Ordering.lt)
    → then (compare_ℕ a b) o ≡ Ordering.lt
    → then (compare_ℕ b c) p ≡ Ordering.lt
    → then (compare_ℕ a c) q ≡ Ordering.lt
then_trans a b c o p q ih h k = ground arith

lt_ne_eq : ¬ (Ordering.lt ≡ Ordering.eq)
lt_ne_eq h = cc

lt_ne_gt : ¬ (Ordering.lt ≡ Ordering.gt)
lt_ne_gt h = cc

pub compare_trans :
    (s t u : String)
    → compare s t ≡ Ordering.lt
    → compare t u ≡ Ordering.lt
    → compare s u ≡ Ordering.lt
compare_trans [] [] u h k = absurd (lt_ne_eq (sym h))
compare_trans [] (d ∷ t) [] h k = absurd (lt_ne_gt (sym k ∙ compare.cons-nil d t))
compare_trans [] (d ∷ t) (e ∷ u) h k = compare.nil-cons e u
compare_trans (c ∷ s) [] u h k = absurd (lt_ne_gt (sym h ∙ compare.cons-nil c s))
compare_trans (c ∷ s) (d ∷ t) [] h k = absurd (lt_ne_gt (sym k ∙ compare.cons-nil d t))
compare_trans (c ∷ s) (d ∷ t) (e ∷ u) h k =
    compare.cons-cons c e s u
    ∙ then_trans (code c) (code d) (code e) (compare s t) (compare t u) (compare s u)
        (compare_trans s t u) (sym (compare.cons-cons c d s t) ∙ h)
        (sym (compare.cons-cons d e t u) ∙ k)

pub str_lt_irrefl : (s : String) → str_lt s s ≡ false
unfolding str_lt
str_lt_irrefl s = rw (compare_refl s, str_lt)

pub str_lt_trans : (s t u : String) → str_lt s t ≡ true → str_lt t u ≡ true → str_lt s u ≡ true
unfolding str_lt
str_lt_trans s t u h k = ground (arith, compare_trans s t u)

-- `s <= t` fails exactly where `t < s`.
pub str_le-eq-not-str_lt : (s t : String) → (str_le s t ≡ false) ↔ (str_lt t s ≡ true)
unfolding str_lt str_le
str_le-eq-not-str_lt s t = ground (arith, compare-flip s t)

-- Two texts are the same, or one is before the other.
pub str_le_iff : (s t : String) → (str_le s t ≡ true) ↔ ((str_lt s t ≡ true) ⊎ (s ≡ t))
unfolding str_lt str_le
str_le_iff s t = ground (arith, path_by_compare s t, compare_refl s)

pub str_le_total : (s t : String) → (str_le s t ≡ true) ⊎ (str_le t s ≡ true)
unfolding str_le
str_le_total s t = ground (arith, compare-flip s t)

pub str_le_antisym : (s t : String) → str_le s t ≡ true → str_le t s ≡ true → s ≡ t
unfolding str_le
str_le_antisym s t h k = ground (arith, compare-flip s t, path_by_compare s t)

pub str_le_trans : (s t u : String) → str_le s t ≡ true → str_le t u ≡ true → str_le s u ≡ true
str_le_trans s t u h k =
    ground (arith, str_le_iff s t, str_le_iff t u, str_le_iff s u, str_lt_trans s t u)

pub str_le_refl : (s : String) → str_le s s ≡ true
str_le_refl s = (str_le_iff s s).1 (inr refl)
