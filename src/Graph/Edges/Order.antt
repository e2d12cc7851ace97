-- ===== src/Graph/Edges/Order.antt =====
-- The order of SortedEdges.
use rootline.Base.{
  take, zero, suc, ◌≢◌, ◌<◌, ◌+◌, ◌++◌, Ordering, Bool, arith, All-map, ℕ, ◌≡◌, ◌∙◌, ◌⊎◌, inl, inr,
  refl, ap, List, [], ◌∷◌, true, select, length, All,
}
use Prim.Native.Nat.{compare as compare_ℕ}
use Prim.Native.String.{compare}
use text.Mathlib.TextEquality.{path_by_compare}
use rootline.Base.Compare.{
  at_most, lex, by, at_most-IsOrder, IsComparison, lex-IsComparison, by-IsComparison,
  compare-IsComparison, compare_ℕ-IsComparison,
}
use rootline.Base.Dict.{Dict}
use rootline.Base.Sort.{sort, place, IsSorted, sort-IsSorted}
use rootline.Graph.{Edge, Graph}
use rootline.Graph.Edges.{compare_edges, all_edges, sorted_edges}

compare_edges-IsComparison : IsComparison compare_edges
unfolding compare_edges
compare_edges-IsComparison =
    lex-IsComparison _ _ (by-IsComparison (λ e. e.source) _ compare-IsComparison) (
      lex-IsComparison _ _ (by-IsComparison (λ e. e.target) _ compare-IsComparison) (
        lex-IsComparison _ _ (by-IsComparison (λ e. e.line) _ compare_ℕ-IsComparison)
          (by-IsComparison (λ e. e.kind) _ compare-IsComparison)))

-- The order of the report, spelled out: by source, then by target, then by line, then by type.
abbrev pub Precedes : Edge → Edge → Type 0
Precedes a b =
    (compare a.source b.source ≡ Ordering.lt)
    ⊎ ((a.source ≡ b.source)
        × ((compare a.target b.target ≡ Ordering.lt)
            ⊎ ((a.target ≡ b.target)
                × ((a.line < b.line)
                    ⊎ ((a.line ≡ b.line) × (compare a.kind b.kind ≢ Ordering.gt))))))

Ordering-cases : (o : Ordering) → (o ≡ Ordering.lt) ⊎ (o ≡ Ordering.eq) ⊎ (o ≡ Ordering.gt)
Ordering-cases Ordering.lt = inl refl
Ordering-cases Ordering.eq = inr (inl refl)
Ordering-cases Ordering.gt = inr (inr refl)

abbrev pub left_out : {A : Type 0} → ℕ → List A → List A
left_out zero xs = xs
left_out (suc n) [] = []
left_out (suc n) (x ∷ xs) = left_out n xs

pub take-left_out : {A : Type 0} (n : ℕ) (xs : List A) → take n xs ++ left_out n xs ≡ xs
take-left_out zero xs = refl
take-left_out (suc n) [] = refl
take-left_out (suc n) (x ∷ xs) = ap (λ l. x ∷ l) (take-left_out n xs)

pub length-take-left_out :
    {A : Type 0} (n : ℕ) (xs : List A)
    → (length (take n xs) ≡ n) ⊎ ((length (take n xs) < n) × (left_out n xs ≡ []))
length-take-left_out zero xs = inl refl
length-take-left_out (suc n) [] = inr (omega arith, refl)
length-take-left_out (suc n) (x ∷ xs) = elim (length-take-left_out n xs) [
  | inl e ↦ inl (omega (arith, e))
  | inr (l, e) ↦ inr (omega (arith, l), e)
]

-- What a lexical comparison that is not `gt` means.
pub lex-cases :
    {A : Type 0} (first second : A → A → Ordering) (a b : A)
    → at_most (lex first second) a b ≡ true
    → (first a b ≡ Ordering.lt) ⊎ ((first a b ≡ Ordering.eq) × (at_most second a b ≡ true))
lex-cases first second a b h = elim (Ordering-cases (first a b)) [
  | inl e ↦ inl e
  | inr (inl e) ↦ inr (e, ground (arith, e, h))
  | inr (inr e) ↦ absurd (ground (arith, e, h))
]

compare_edges-Precedes : (a b : Edge) → at_most compare_edges a b ≡ true → Precedes a b
unfolding compare_edges
compare_edges-Precedes a b h =
    elim (lex-cases (by (λ e. e.source) compare)
      (lex (by (λ e. e.target) compare)
        (lex (by (λ e. e.line) compare_ℕ) (by (λ e. e.kind) compare)))
      a b h) [
        | inl e ↦ inl e
        | inr (e, h₁) ↦ inr (
          path_by_compare a.source b.source e,
          elim (lex-cases (by (λ e. e.target) compare)
              (lex (by (λ e. e.line) compare_ℕ) (by (λ e. e.kind) compare)) a b h₁) [
                | inl k ↦ inl k
                | inr (k, h₂) ↦ inr (
                  path_by_compare a.target b.target k,
                  elim (lex-cases (by (λ e. e.line) compare_ℕ) (by (λ e. e.kind) compare) a b h₂) [
                    | inl m ↦ inl (ground (arith, m))
                    | inr (m, h₃) ↦ inr (ground (arith, m), λ q. ground (arith, q, h₃))
                  ],
                )
              ],
        )
      ]

-- The elements of all lists of the table that pass the test.
abbrev pub occurrences : (Edge → Bool) → Dict (List Edge) → ℕ
occurrences p [] = 0
occurrences p ((source, es) ∷ rest) = length (select p es) + occurrences p rest

length-select-append :
    (p : Edge → Bool) (xs ys : List Edge)
    → length (select p (xs ++ ys)) ≡ length (select p xs) + length (select p ys)
length-select-append p [] ys = omega arith
length-select-append p (x ∷ xs) ys = ground (arith, length-select-append p xs ys)

length-select-place :
    (le : Edge → Edge → Bool) (p : Edge → Bool) (x : Edge) (xs : List Edge)
    → length (select p (place le x xs)) ≡ length (select p (x ∷ xs))
unfolding place
length-select-place le p x [] = refl
length-select-place le p x (y ∷ ys) = ground (arith, length-select-place le p x ys)

length-select-sort :
    (le : Edge → Edge → Bool) (p : Edge → Bool) (xs : List Edge)
    → length (select p (sort le xs)) ≡ length (select p xs)
unfolding sort
length-select-sort le p [] = refl
length-select-sort le p (x ∷ xs) =
    ground (arith, length-select-place le p x (sort le xs), length-select-sort le p xs)

select-all_edges :
    (p : Edge → Bool) (edges : Dict (List Edge))
    → length (select p (all_edges edges)) ≡ occurrences p edges
unfolding all_edges
select-all_edges p [] = refl
select-all_edges p ((source, es) ∷ rest) =
    ground (arith, length-select-append p es (all_edges rest), select-all_edges p rest)

-- Each element is before all that follow.
abbrev pub IsOrdered : {A : Type 0} → (A → A → Type 0) → List A → Type 0
IsOrdered P [] = Unit
IsOrdered P (x ∷ xs) = All (P x) xs × IsOrdered P xs

pub IsOrdered-IsSorted :
    {A : Type 0} (le : A → A → Bool) (P : A → A → Type 0)
    → ((a b : A) → le a b ≡ true → P a b)
    → (xs : List A) → IsSorted le xs
    → IsOrdered P xs
IsOrdered-IsSorted le P f [] h = tt
IsOrdered-IsSorted le P f (x ∷ xs) h =
    (All-map (λ y. le x y ≡ true) (P x) xs (f x) h.0, IsOrdered-IsSorted le P f xs h.1)

-- SortedEdges lists the edges of all sources, each as often as it stands there: whatever the test, as
-- many edges pass it in the list as in the table. They stand by source, target, line and type.
pub sorted_edges-IsOrdered :
    (g : Graph)
    → ((p : Edge → Bool) → length (select p (sorted_edges g)) ≡ occurrences p g.edges)
      × IsOrdered Precedes (sorted_edges g)
unfolding sorted_edges
sorted_edges-IsOrdered g = (
  λ p.
      length-select-sort (at_most compare_edges) p (all_edges g.edges) ∙ select-all_edges p g.edges,
  IsOrdered-IsSorted (at_most compare_edges) Precedes compare_edges-Precedes
      (sort (at_most compare_edges) (all_edges g.edges))
      (sort-IsSorted (at_most-IsOrder compare_edges compare_edges-IsComparison)
        (all_edges g.edges)),
)
