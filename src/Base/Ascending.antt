-- ===== src/Base/Ascending.antt =====
-- A strictly ascending list of texts is settled by its members.
use mathlib.Core.Path.{◌≡◌, refl, sym, ap₂, subst}
use mathlib.Core.Bool.{true}
use mathlib.Core.Logic.{inl, inr, ◌↔◌}
use mathlib.Core.List.{List, [], ◌∷◌}
use native.Mathlib.Omega.{arith}
use Prim.Native.String.{String}
use rootline.Base.Lists.{In, All, All-In}
use rootline.Base.Sort.{sort, place, In-sort}
use rootline.Base.Text.{
  str_lt, str_le, str_lt_irrefl, str_lt_trans, str_le_iff, str_le-eq-not-str_lt,
}

-- No element stands twice.
abbrev pub Distinct : List String → Type 0
Distinct [] = Unit
Distinct (x ∷ xs) = (¬ In x xs) × Distinct xs

abbrev pub IsAscending : List String → Type 0
IsAscending [] = Unit
IsAscending (x ∷ xs) = All (λ y. str_lt x y ≡ true) xs × IsAscending xs

above :
    (x y : String) (xs : List String)
    → str_lt x y ≡ true
    → All (λ z. str_lt y z ≡ true) xs
    → All (λ z. str_lt x z ≡ true) xs
above x y [] h k = tt
above x y (z ∷ xs) h k = (str_lt_trans x y z h k.0, above x y xs h k.1)

All-place :
    (x y : String) (xs : List String)
    → str_lt y x ≡ true
    → All (λ z. str_lt y z ≡ true) xs
    → All (λ z. str_lt y z ≡ true) (place str_le x xs)
unfolding place
All-place x y [] h k = ground arith
All-place x y (z ∷ xs) h k = ground (arith, All-place x y xs)

place-IsAscending :
    (x : String) (xs : List String) → ¬ In x xs → IsAscending xs → IsAscending (place str_le x xs)
unfolding place
place-IsAscending x [] ne h = ground arith
place-IsAscending x (y ∷ xs) ne h = ground (
  arith,
  place-IsAscending x xs,
  str_le_iff x y,
  str_le-eq-not-str_lt x y,
  above x y xs,
  All-place x y xs,
)

-- Sorting a list with no element twice gives a strictly ascending one.
pub sort-IsAscending : (xs : List String) → Distinct xs → IsAscending (sort str_le xs)
unfolding sort
sort-IsAscending [] d = tt
sort-IsAscending (x ∷ xs) d =
    place-IsAscending x (sort str_le xs) (λ m. d.0 ((In-sort str_le x xs).0 m))
      (sort-IsAscending xs d.1)

same_head :
    (x y : String) (xs ys : List String)
    → IsAscending (x ∷ xs)
    → IsAscending (y ∷ ys)
    → In x (y ∷ ys)
    → In y (x ∷ xs)
    → x ≡ y
same_head x y xs ys h k (inl e) m = e
same_head x y xs ys h k (inr n) (inl e) = sym e
same_head x y xs ys h k (inr n) (inr m) =
    let lower = All-In (λ z. str_lt y z ≡ true) ys k.0 x n in
    let higher = All-In (λ z. str_lt x z ≡ true) xs h.0 y m in
    ground (arith, str_lt_irrefl x, str_lt_trans x y x higher lower)

-- A member of the tail is not the head.
in_tail :
    (x y a : String) (xs ys : List String)
    → x ≡ y
    → IsAscending (x ∷ xs)
    → In a xs
    → In a (y ∷ ys)
    → In a ys
in_tail x y a xs ys e h m (inr n) = n
in_tail x y a xs ys e h m (inl f) =
    let higher = All-In (λ z. str_lt x z ≡ true) xs h.0 a m in
    absurd (ground (arith, str_lt_irrefl x, higher, subst (λ z. str_lt x z ≡ true) f higher))

pub IsAscending-unique :
    (xs ys : List String)
    → IsAscending xs
    → IsAscending ys
    → ((a : String) → In a xs ↔ In a ys)
    → xs ≡ ys
IsAscending-unique [] [] h k m = refl
IsAscending-unique [] (y ∷ ys) h k m = absurd ((m y).1 (inl refl))
IsAscending-unique (x ∷ xs) [] h k m = absurd ((m x).0 (inl refl))
IsAscending-unique (x ∷ xs) (y ∷ ys) h k m =
    let e = same_head x y xs ys h k ((m x).0 (inl refl)) ((m y).1 (inl refl)) in
    ap₂ (λ z zs. z ∷ zs) e
      (IsAscending-unique xs ys h.1 k.1 λ a. (
        λ n. in_tail x y a xs ys e h n ((m a).0 (inr n)),
        λ n. in_tail y x a ys xs (sym e) k n ((m a).1 (inr n)),
      ))
