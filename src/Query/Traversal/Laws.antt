-- ===== src/Query/Traversal/Laws.antt =====
-- Which candidates the filter keeps.
use rootline.Base.{
  String, ◌≡◌, ◌≢◌, ◌↔◌, ◌⊎◌, inl, inr, refl, sym, ◌∙◌, ap, subst, Option, none, some, some_inj,
  List, [], ◌∷◌, Bool, true, false, ◌==◌, ◌&&◌, not, eq_iff, In, arith, Bool-cases, Option-cases,
}
use rootline.Base.Dict.{lookup}
use rootline.Extract.{Record}
use rootline.Graph.{Edge, Graph}
use rootline.Graph.Adjacency.{edges_of}
use rootline.Query.Traversal.{
  TraversalOptions, edge_source, edge_target, inbound_edges, compile_sub_where, linked_matches,
  matches_any_edge, passes_direction, keep_linked, filter_by_traversal,
}

module _ (P : Record → Type 0) (c : Record) (cs rs : List Record)
    (iff : (r : Record) → In r rs ↔ (In r cs × P r)) where
  drop_head : ¬ P c → (r : Record) → In r rs ↔ (In r (c ∷ cs) × P r)
  drop_head none_here r = (
    λ m. (inr ((iff r).0 m).0, ((iff r).0 m).1),
    λ h. elim (h.0) as (λ _. In r rs) [
      | inl e ↦ absurd (none_here (subst P e h.1))
      | inr m ↦ (iff r).1 (m, h.1)
    ],
  )

  keep_head : P c → (r : Record) → In r (c ∷ rs) ↔ (In r (c ∷ cs) × P r)
  keep_head here r = (
    λ m. elim m [
      | inl e ↦ (inl e, subst P (sym e) here)
      | inr n ↦ (inr ((iff r).0 n).0, ((iff r).0 n).1)
    ],
    λ h. elim (h.0) as (λ _. In r (c ∷ rs)) [ inl e ↦ inl e | inr m ↦ inr ((iff r).1 (m, h.1)) ],
  )

module _ {Program : Type 0} (match_record : Program → Record → Option Bool) where
  -- An edge of the wanted type to a record of the graph that matches.
  pub record Links (link_type : String) (program : Option Program) (g : Graph) (end : Edge → String)
      (e : Edge) : Type 0 where
    pub wanted : (link_type ≡ "") ⊎ (e.kind ≡ link_type)
    pub linked : Record
    pub known : lookup (end e) g.nodes ≡ some linked
    pub fits : linked_matches match_record program linked ≡ some true

  abbrev pub Linked : List Edge → String → Option Program → Graph → (Edge → String) → Type 0
  Linked [] link_type program g end = ⊥
  Linked (e ∷ es) link_type program g end =
      Links link_type program g end e ⊎ Linked es link_type program g end

  -- An edge that does not link leaves the answer of the rest.
  later :
      (t : String) (p : Option Program) (g : Graph) (end : Edge → String) (e : Edge)
      (es : List Edge) (b : Bool)
      → (b ≡ true) ↔ Linked es t p g end
      → ¬ Links t p g end e
      → (b ≡ true) ↔ Linked (e ∷ es) t p g end
  later t p g end e es b iff none_here =
      (λ q. inr (iff.0 q), λ h. elim h [ inl k ↦ absurd (none_here k) | inr m ↦ iff.1 m ])

  skipped :
      (t : String) (e : Edge)
      → (not (t == "") && not (e.kind == t)) ≡ true
      → ¬ ((t ≡ "") ⊎ (e.kind ≡ t))
  skipped t e s (inl q) = ground (arith, s, (eq_iff t "").1 q)
  skipped t e s (inr q) = ground (arith, s, (eq_iff e.kind t).1 q)

  not_skipped :
      (t : String) (e : Edge)
      → (not (t == "") && not (e.kind == t)) ≡ false
      → (t ≡ "") ⊎ (e.kind ≡ t)
  not_skipped t e s = ground (arith, s, eq_iff t "", eq_iff e.kind t)

  unfit :
      (t : String) (p : Option Program) (g : Graph) (end : Edge → String) (e : Edge) (l : Record)
      → lookup (end e) g.nodes ≡ some l
      → linked_matches match_record p l ≡ some false
      → ¬ Links t p g end e
  unfit t p g end e l n f k =
      let same : k.linked ≡ l = some_inj (sym k.known ∙ n) in
      let both : some true ≡ some false =
        sym k.fits ∙ ap (linked_matches match_record p) same ∙ f in
      ground (arith, both)

  -- What a kept record has, in each direction that is asked for.
  abbrev pub IsLinked : Graph → TraversalOptions → Option Program → Option Program → Record → Type 0
  IsLinked g o inbound outbound r =
      (o.has_inbound ≢ none → Linked (inbound_edges g r.path) o.inbound_type inbound g edge_source)
      × (o.has_outbound ≢ none → Linked (edges_of g r.path) o.outbound_type outbound g edge_target)

  module _ (evaluates : (p : Program) (r : Record) → (b : Bool) × (match_record p r ≡ some b)) where
    always :
        (p : Option Program) (r : Record) → (b : Bool) × (linked_matches match_record p r ≡ some b)
    unfolding linked_matches
    always none r = (true, refl)
    always (some p) r = evaluates p r

    -- matchesAnyEdge returns, and finds a link just where there is one.
    any_edge :
        (es : List Edge) (t : String) (p : Option Program) (g : Graph) (end : Edge → String)
        → (b : Bool) × (matches_any_edge match_record es t p g end ≡ some b)
          × ((b ≡ true) ↔ Linked es t p g end)
    unfolding matches_any_edge
    any_edge [] t p g end = (false, refl, ground arith)
    any_edge (e ∷ es) t p g end =
        let (b, returns, iff) = any_edge es t p g end in
        elim (Bool-cases (not (t == "") && not (e.kind == t))) [
          | inl s ↦
              rw (s, matches_any_edge)
                (b, returns, later t p g end e es b iff (λ k. skipped t e s k.wanted))
          | inr s ↦ elim (Option-cases (lookup (end e) g.nodes)) [
            | inl n ↦
                rw (s, n, matches_any_edge)
                  (b, returns, later t p g end e es b iff (λ k. ground (arith, n, k.known)))
            | inr (l, n) ↦
                let (c, f) = always p l in
                elim (Bool-cases c) [
                  | inl found ↦
                      rw (s, n, f ∙ ap some found, matches_any_edge)
                        (
                          true,
                          refl,
                          (
                            λ _. inl (record {
                              wanted = not_skipped t e s;
                              linked = l;
                              known = n;
                              fits = f ∙ ap some found;
                            }),
                            λ _. refl,
                          ),
                        )
                  | inr missed ↦
                      rw (s, n, f ∙ ap some missed, matches_any_edge)
                        (
                          b,
                          returns,
                          later t p g end e es b iff
                              (λ k. unfit t p g end e l n (f ∙ ap some missed) k),
                        )
                ]
          ]
        ]

    direction :
        (asked : Option String) (es : List Edge) (t : String) (p : Option Program) (g : Graph)
        (end : Edge → String)
        → (b : Bool) × (passes_direction match_record asked es t p g end ≡ some b)
          × ((b ≡ true) ↔ (asked ≢ none → Linked es t p g end))
    unfolding passes_direction
    direction none es t p g end = (true, refl, (λ _ h. absurd (h refl), λ _. refl))
    direction (some s) es t p g end =
        let (b, returns, iff) = any_edge es t p g end in
        (b, returns, (λ q _. iff.0 q, λ h. iff.1 (h (λ e. ground (arith, e)))))

    kept-IsLinked :
        (g : Graph) (o : TraversalOptions) (inbound outbound : Option Program) (cs : List Record)
        → (rs : List Record) × (keep_linked match_record g o inbound outbound cs ≡ some rs)
          × ((r : Record) → In r rs ↔ (In r cs × IsLinked g o inbound outbound r))
    unfolding keep_linked
    kept-IsLinked g o inbound outbound [] = ([], refl, λ r. ground arith)
    kept-IsLinked g o inbound outbound (c ∷ cs) =
        let (rs, returns, iff) = kept-IsLinked g o inbound outbound cs in
        let (a, pa, ia) =
          direction o.has_inbound (inbound_edges g c.path) o.inbound_type inbound g edge_source in
        let (b, pb, ib) =
          direction o.has_outbound (edges_of g c.path) o.outbound_type outbound g edge_target in
        elim (Bool-cases a) [
          | inr p ↦
              rw (pa ∙ ap some p, keep_linked)
                (
                  rs,
                  returns,
                  drop_head (IsLinked g o inbound outbound) c cs rs iff
                      (λ k. ground (arith, p, ia.1 k.0)),
                )
          | inl p ↦ elim (Bool-cases b) [
            | inr q ↦
                rw (pa ∙ ap some p, pb ∙ ap some q, keep_linked)
                  (
                    rs,
                    returns,
                    drop_head (IsLinked g o inbound outbound) c cs rs iff
                        (λ k. ground (arith, q, ib.1 k.1)),
                  )
            | inl q ↦
                rw (pa ∙ ap some p, pb ∙ ap some q, returns, keep_linked)
                  (
                    c ∷ rs,
                    refl,
                    keep_head (IsLinked g o inbound outbound) c cs rs iff (ia.0 p, ib.0 q),
                  )
          ]
        ]

  module _ (compile : String → Option Program) where
    -- FilterByTraversal returns if both conditions compile and every evaluation succeeds. It keeps
    -- just the candidates that have a link in each direction that is asked for: an edge of the wanted
    -- type, to or from a record of the graph on which the condition holds.
    pub In-filter_by_traversal :
        (evaluates : (p : Program) (r : Record) → (b : Bool) × (match_record p r ≡ some b))
        → (candidates : List Record) (g : Graph) (o : TraversalOptions)
          (inbound outbound : Option Program)
        → compile_sub_where compile o.has_inbound ≡ some inbound
        → compile_sub_where compile o.has_outbound ≡ some outbound
        → (rs : List Record) × (filter_by_traversal compile match_record candidates g o ≡ some rs)
          × ((r : Record) → In r rs ↔ (In r candidates × IsLinked g o inbound outbound r))
    unfolding filter_by_traversal
    In-filter_by_traversal evaluates candidates g o inbound outbound h k =
        rw (h, k, filter_by_traversal) (kept-IsLinked evaluates g o inbound outbound candidates)
