-- ===== src/Graph/Edges/Laws.antt =====
-- What BrokenLinks lists, and its suggestions.
use rootline.Base.{
  sym, subst, take, In-append, eq_iff, ◌≢◌, ◌<◌, ◌++◌, Ordering, arith, ℕ, String, ◌≡◌, ◌∙◌, ◌↔◌,
  ◌⊎◌, inl, inr, refl, ap, List, [], ◌∷◌, true, In, In-select, select, map, length,
}
use mathlib.Core.List.{Perm}
use Prim.Native.Nat.{compare as compare_ℕ}
use Prim.Native.String.{compare}
use rootline.Base.Compare.{
  at_most, by, at_most-IsOrder, IsComparison, lex-IsComparison, by-IsComparison,
  compare-IsComparison, compare_ℕ-IsComparison,
}
use rootline.Base.Dict.{Dict, keys, has-keys}
use rootline.Graph.{sorted_nodes}
use rootline.Base.Sort.{sort, In-sort, sort-IsSorted, sort-perm}
use rootline.Graph.{Edge, Graph, is_broken}
use rootline.Graph.Edges.{
  compare_edges, all_edges, sorted_edges, BrokenLink, nearer, broken_link_suggestions, broken_link,
  broken_links,
}
use rootline.Graph.Edges.Order.{
  left_out, take-left_out, length-take-left_out, lex-cases, IsOrdered, IsOrdered-IsSorted,
}

In-map :
    {A B : Type 0} (f : A → B) (b : B) (xs : List A)
    → In b (map f xs) ↔ ((a : A) × In a xs × (b ≡ f a))
In-map f b [] = (λ m. absurd m, λ m. absurd m.1)
In-map f b (x ∷ xs) = (
  λ h. elim h [
    | inl e ↦ (x, inl refl, e)
    | inr m ↦ let (a, n, q) = (In-map f b xs).0 m in (a, inr n, q)
  ],
  λ h. elim (h.1) as (λ _. In b (map f (x ∷ xs))) [
    | inl e ↦ inl (h.2 ∙ ap f e)
    | inr n ↦ inr ((In-map f b xs).1 (h.0, n, h.2))
  ],
)

In-all_edges :
    (e : Edge) (edges : Dict (List Edge))
    → In e (all_edges edges)
      ↔ ((source : String) × (es : List Edge) × In (source, es) edges × In e es)
unfolding all_edges
In-all_edges e [] = (λ m. absurd m, λ h. absurd h.2)
In-all_edges e ((source, es) ∷ rest) = (
  λ m. elim ((In-append e es (all_edges rest)).0 m) [
    | inl k ↦ (source, es, inl refl, k)
    | inr k ↦ let (other, fs, n, q) = (In-all_edges e rest).0 k in (other, fs, inr n, q)
  ],
  λ h. (In-append e es (all_edges rest)).1 (elim (h.2) as (λ _. In e es ⊎ In e (all_edges rest)) [
    | inl q ↦ inl (subst (In e) (ap (λ z. z.1) q) h.3)
    | inr n ↦ inr ((In-all_edges e rest).1 (h.0, h.1, n, h.3))
  ]),
)

-- A link that its resolver left unresolved, or that nothing resolved and whose target is no node.
abbrev pub IsBroken : Graph → Edge → Type 0
IsBroken g e =
    (e.resolution ≡ "unresolved") ⊎ ((e.resolution ≢ "resolved") × ¬ In e.target (keys g.nodes))

is_broken_iff : (g : Graph) (e : Edge) → (is_broken e g.nodes ≡ true) ↔ IsBroken g e
unfolding is_broken
is_broken_iff g e = ground (
  arith,
  eq_iff e.resolution "resolved",
  eq_iff e.resolution "unresolved",
  eq_iff "unresolved" "resolved",
  has-keys e.target g.nodes,
)

module _ (match_n : String → List String → ℕ → List String) (distance : String → String → ℕ) where
  -- The entry of the report for an edge: the four fields of the edge, and the suggestions for its
  -- target among the nodes.
  pub record Reports (g : Graph) (e : Edge) (b : BrokenLink) : Type 0 where
    pub source : b.source ≡ e.source
    pub target : b.target ≡ e.target
    pub kind : b.kind ≡ e.kind
    pub line : b.line ≡ e.line
    pub suggestions :
        b.suggestions ≡ broken_link_suggestions match_n distance e.target (sorted_nodes g)

  broken_link_iff :
      (g : Graph) (e : Edge) (b : BrokenLink)
      → (b ≡ broken_link match_n distance g e) ↔ Reports g e b
  unfolding broken_link
  broken_link_iff g e b = (
    λ h. record {
      source = ap (λ z. z.source) h;
      target = ap (λ z. z.target) h;
      kind = ap (λ z. z.kind) h;
      line = ap (λ z. z.line) h;
      suggestions = ap (λ z. z.suggestions) h;
    },
    λ r. cc,
  )

  -- BrokenLinks lists just the broken edges of the sources, each with its source, target, type and
  -- line and with the suggestions for its target.
  pub In-broken_links :
      (g : Graph) (b : BrokenLink)
      → In b (broken_links match_n distance g) ↔ (
          (source : String) × (es : List Edge) × (e : Edge) × In (source, es) g.edges
          × In e es
          × IsBroken g e
          × Reports g e b)
  unfolding broken_links sorted_edges
  In-broken_links g b =
      let chosen = select (λ e. is_broken e g.nodes) (sorted_edges g) in
      let among = λ (e : Edge). In-select (λ e. is_broken e g.nodes) e (sorted_edges g) in
      let sorted = λ (e : Edge). In-sort (at_most compare_edges) e (all_edges g.edges) in
      (
        λ m.
            let (e, n, q) = (In-map (broken_link match_n distance g) b chosen).0 m in
            let (k, broken) = (among e).0 n in
            let (source, es, i, j) = (In-all_edges e g.edges).0 ((sorted e).0 k) in
            (source, es, e, i, j, (is_broken_iff g e).0 broken, (broken_link_iff g e b).0 q),
        λ (source, es, e, i, j, broken, r).
            let k = (In-all_edges e g.edges).1 (source, es, i, j) in
            let n = (among e).1 ((sorted e).1 k, (is_broken_iff g e).1 broken) in
            (In-map (broken_link match_n distance g) b chosen).1
              (e, n, (broken_link_iff g e b).1 r),
      )

  -- The nearer to the target, or as near and not after in the order of texts.
  abbrev pub IsNearer : String → String → String → Type 0
  IsNearer target s t =
      (distance target s < distance target t)
      ⊎ ((distance target s ≡ distance target t) × (compare s t ≢ Ordering.gt))

  nearer-IsNearer :
      (target s t : String)
      → at_most (nearer match_n distance target) s t ≡ true
      → IsNearer target s t
  unfolding nearer
  nearer-IsNearer target s t h = elim (lex-cases (by (distance target) compare_ℕ) compare s t h) [
    | inl e ↦ inl (ground (arith, e))
    | inr (e, k) ↦ inr (ground (arith, e), λ q. ground (arith, q, k))
  ]

  nearer-IsComparison : (target : String) → IsComparison (nearer match_n distance target)
  unfolding nearer
  nearer-IsComparison target =
      lex-IsComparison _ _ (by-IsComparison (distance target) _ compare_ℕ-IsComparison)
        compare-IsComparison

  -- The candidates of the package, in whatever order it gives them, are ranked by distance and, at the
  -- same distance, by text, each as often as it is given; the suggestions are the first three of this
  -- ranking, or all of it where it has fewer.
  pub broken_link_suggestions-ranked :
      (target : String) (names : List String)
      → (suggested rest : List String) × (broken_link_suggestions match_n distance target names
          ≡ suggested)
        × Perm (suggested ++ rest) (match_n target names (length names))
        × IsOrdered (IsNearer target) (suggested ++ rest)
        × ((length suggested ≡ 3) ⊎ ((length suggested < 3) × (rest ≡ [])))
  unfolding broken_link_suggestions
  broken_link_suggestions-ranked target names =
      let le = at_most (nearer match_n distance target) in
      let candidates = match_n target names (length names) in
      let ranked = sort le candidates in
      let whole = take-left_out 3 ranked in
      let in_order = sort-IsSorted (at_most-IsOrder _ (nearer-IsComparison target)) candidates in
      (
        take 3 ranked,
        left_out 3 ranked,
        refl,
        subst (λ l. Perm l candidates) (sym whole) (sort-perm le candidates),
        subst (IsOrdered (IsNearer target)) (sym whole)
            (IsOrdered-IsSorted le (IsNearer target) (nearer-IsNearer target) ranked in_order),
        length-take-left_out 3 ranked,
      )
