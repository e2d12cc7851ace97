-- ===== src/Base/Sort.antt =====
-- Go's sort.Slice and sort.Strings, as a stable insertion sort by a test "not after".
use mathlib.Core.Path.{◌≡◌}
use mathlib.Core.Bool.{Bool, true}
use mathlib.Core.Logic.{◌⊎◌, inl, inr, ◌↔◌}
use mathlib.Core.List.{List, [], ◌∷◌, Perm}
use mathlib.Core.List.Perm
use native.Mathlib.Omega.{arith}
use rootline.Base.Tests.{if◌then◌else◌, Bool-cases}
use Prim.Native.Nat.{ℕ, zero, suc}
use rootline.Base.Lists.{In, All, All-In, take}

module _ {A : Type 0} where
  unfoldable pub place : (A → A → Bool) → A → List A → List A
  place le a [] = a ∷ []
  place le a (x ∷ xs) = let rest = place le a xs in if le a x then a ∷ x ∷ xs else x ∷ rest

  unfoldable pub sort : (A → A → Bool) → List A → List A
  unfolding place
  sort le [] = []
  sort le (x ∷ xs) = place le x (sort le xs)

  -- Each element is not after any that follows it.
  abbrev pub IsSorted : (A → A → Bool) → List A → Type 0
  IsSorted le [] = Unit
  IsSorted le (x ∷ xs) = All (λ y. le x y ≡ true) xs × IsSorted le xs

  In-place : (le : A → A → Bool) (a b : A) (xs : List A) → In b (place le a xs) ↔ In b (a ∷ xs)
  unfolding place
  In-place le a b [] = ground arith
  In-place le a b (x ∷ xs) = ground (arith, In-place le a b xs)

  pub In-sort : (le : A → A → Bool) (b : A) (xs : List A) → In b (sort le xs) ↔ In b xs
  unfolding sort
  In-sort le b [] = ground arith
  In-sort le b (x ∷ xs) = ground (arith, In-place le x b (sort le xs), In-sort le b xs)

  place-perm : (le : A → A → Bool) (a : A) (xs : List A) → Perm (place le a xs) (a ∷ xs)
  unfolding place
  place-perm le a [] = Perm.refl (a ∷ [])
  place-perm le a (x ∷ xs) = elim (Bool-cases (le a x)) [
    | inl h ↦ rw (h, place) (Perm.refl (a ∷ x ∷ xs))
    | inr h ↦ rw (h, place) (Perm.trans (Perm.cons x (place-perm le a xs)) (Perm.swap _ _ _))
  ]

  -- Sorting keeps every element, as often as it stood.
  pub sort-perm : (le : A → A → Bool) (xs : List A) → Perm (sort le xs) xs
  unfolding sort
  sort-perm le [] = Perm.refl []
  sort-perm le (x ∷ xs) = Perm.trans (place-perm le x (sort le xs)) (Perm.cons x (sort-perm le xs))

-- A test that orders its type up to ties.
pub record IsOrder {A : Type 0} (le : A → A → Bool) : Type 0 where
  pub total : (a b : A) → (le a b ≡ true) ⊎ (le b a ≡ true)
  pub transitive : (a b c : A) → le a b ≡ true → le b c ≡ true → le a c ≡ true

module _ {A : Type 0} {le : A → A → Bool} (o : IsOrder le) where
  All-place :
      (a b : A) (xs : List A)
      → le b a ≡ true
      → All (λ y. le b y ≡ true) xs
      → All (λ y. le b y ≡ true) (place le a xs)
  unfolding place
  All-place a b [] h k = ground arith
  All-place a b (x ∷ xs) h k = ground (arith, All-place a b xs)

  All-trans :
      (a b : A) (xs : List A)
      → le a b ≡ true
      → All (λ y. le b y ≡ true) xs
      → All (λ y. le a y ≡ true) xs
  All-trans a b [] h k = tt
  All-trans a b (x ∷ xs) h k = (o.transitive a b x h k.0, All-trans a b xs h k.1)

  IsSorted-place : (a : A) (xs : List A) → IsSorted le xs → IsSorted le (place le a xs)
  unfolding place
  IsSorted-place a [] h = ground arith
  IsSorted-place a (x ∷ xs) h =
      ground (arith, IsSorted-place a xs, o.total a x, All-place a x xs, All-trans a x xs)

  pub sort-IsSorted : (xs : List A) → IsSorted le (sort le xs)
  unfolding sort
  sort-IsSorted [] = tt
  sort-IsSorted (x ∷ xs) = IsSorted-place x (sort le xs) (sort-IsSorted xs)

module _ {A : Type 0} (le : A → A → Bool) where
  All-take : (P : A → Type 0) (n : ℕ) (xs : List A) → All P xs → All P (take n xs)
  All-take P zero xs h = tt
  All-take P (suc n) [] h = tt
  All-take P (suc n) (x ∷ xs) h = (h.0, All-take P n xs h.1)

  pub take-IsSorted : (n : ℕ) (xs : List A) → IsSorted le xs → IsSorted le (take n xs)
  take-IsSorted zero xs h = tt
  take-IsSorted (suc n) [] h = tt
  take-IsSorted (suc n) (x ∷ xs) h =
      (All-take (λ y. le x y ≡ true) n xs h.0, take-IsSorted n xs h.1)

  -- What the first `n` of a sorted list leave out is not before any of them.
  pub rest_after :
      (n : ℕ) (c : A) (xs : List A)
      → IsSorted le xs
      → In c xs
      → In c (take n xs) ⊎ All (λ s. le s c ≡ true) (take n xs)
  rest_after zero c xs h m = inr tt
  rest_after (suc n) c [] h m = absurd m
  rest_after (suc n) c (x ∷ xs) h (inl e) = inl (inl e)
  rest_after (suc n) c (x ∷ xs) h (inr m) = elim (rest_after n c xs h.1 m) [
    | inl k ↦ inl (inr k)
    | inr k ↦ inr (All-In (λ y. le x y ≡ true) xs h.0 c m, k)
  ]
