-- ===== src/Base/Compare.antt =====
-- Comparisons as Go's functions into -1, 0 and 1, and the lexical order of two of them.
use Prim.Native.Nat.{compare as compare_ℕ, Ordering}
use Prim.Native.String.{compare, then}
use mathlib.Core.Path.{◌≡◌, ap}
use mathlib.Core.Bool.{Bool, true, false}
use native.Mathlib.Omega.{arith}
use text.Mathlib.TextEquality.{path_by_compare}
use rootline.Base.Text.{flip, compare-flip, compare_trans}
use rootline.Base.Sort.{IsOrder}

-- A comparison that orders its type up to ties.
pub record IsComparison {A : Type 0} (cmp : A → A → Ordering) : Type 0 where
  pub flips : (a b : A) → cmp b a ≡ flip (cmp a b)
  pub trans : (a b c : A) → cmp a b ≡ Ordering.lt → cmp b c ≡ Ordering.lt → cmp a c ≡ Ordering.lt
  pub ties : (a b c : A) → cmp a b ≡ Ordering.eq → cmp a c ≡ cmp b c

pub compare-IsComparison : IsComparison compare
compare-IsComparison = record {
  flips = compare-flip;
  trans = compare_trans;
  ties = λ a b c h. ap (λ s. compare s c) (path_by_compare a b h);
}

pub compare_ℕ-IsComparison : IsComparison compare_ℕ
compare_ℕ-IsComparison = record {
  flips = λ a b. ground arith;
  trans = λ a b c h k. ground arith;
  ties = λ a b c h. ground arith;
}

module _ {A B : Type 0} where
  -- A comparison of one part.
  abbrev pub by : (A → B) → (B → B → Ordering) → A → A → Ordering
  by f cmp a b = cmp (f a) (f b)

  pub by-IsComparison :
      (f : A → B) (cmp : B → B → Ordering) → IsComparison cmp → IsComparison (by f cmp)
  by-IsComparison f cmp h = record {
    flips = λ a b. h.flips (f a) (f b);
    trans = λ a b c. h.trans (f a) (f b) (f c);
    ties = λ a b c. h.ties (f a) (f b) (f c);
  }

module _ {A : Type 0} where
  -- The second comparison decides where the first finds a tie.
  abbrev pub lex : (A → A → Ordering) → (A → A → Ordering) → A → A → Ordering
  lex first second a b = then (first a b) (second a b)

  pub lex-IsComparison :
      (first second : A → A → Ordering)
      → IsComparison first
      → IsComparison second
      → IsComparison (lex first second)
  lex-IsComparison first second h k = record {
    flips = λ a b. ground (arith, h.flips a b, k.flips a b);
    trans = λ a b c p q. ground (
      arith,
      h.trans a b c,
      k.trans a b c,
      h.ties a b c,
      h.ties c b a,
      h.flips a c,
      h.flips b c,
      h.flips a b,
    );
    ties = λ a b c p. ground (arith, h.ties a b c, k.ties a b c);
  }

  -- Not after.
  abbrev pub at_most : (A → A → Ordering) → A → A → Bool
  at_most cmp a b = elim (cmp a b) [ Ordering.gt ↦ false | _ ↦ true ]

  pub at_most-IsOrder : (cmp : A → A → Ordering) → IsComparison cmp → IsOrder (at_most cmp)
  at_most-IsOrder cmp h = record {
    total = λ a b. ground (arith, h.flips a b);
    transitive = λ a b c p q.
        ground
          (arith, h.trans a b c, h.ties a b c, h.ties c b a, h.flips a c, h.flips b c, h.flips a b);
  }
