-- ===== src/Query/Traversal.antt =====
-- internal/query/traversal.go: the filter of records by their links. A compiled expression and its
-- evaluation are those of the package expr, and are parameters; none is an error.
pub mod Laws
mod Samples
use rootline.Base.{
  String, Option, none, some, List, [], ◌∷◌, Bool, true, false, ◌==◌, ◌&&◌, not, select,
  if◌then◌else◌,
}
use rootline.Base.Dict.{lookup}
use rootline.Extract.{Record}
use rootline.Graph.{Edge, Graph}
use rootline.Graph.Adjacency.{edges_of}
use rootline.Graph.Edges.{all_edges}

-- TraversalOptions
pub record TraversalOptions : Type 0 where
  pub has_inbound : Option String
  pub has_outbound : Option String
  pub inbound_type : String
  pub outbound_type : String

-- edgeSource and edgeTarget
abbrev pub edge_source : Edge → String
edge_source e = e.source

abbrev pub edge_target : Edge → String
edge_target e = e.target

-- inboundEdges[path]
unfoldable pub inbound_edges : Graph → String → List Edge
inbound_edges g path = select (λ e. e.target == path) (all_edges g.edges)

module _ {Program : Type 0} (compile : String → Option Program) where
  -- compileSubWhere
  unfoldable pub compile_sub_where : Option String → Option (Option Program)
  compile_sub_where none = some none
  compile_sub_where (some s) =
      if s == "" then some none else elim (compile s) [ none ↦ none | some p ↦ some (some p) ]

module _ {Program : Type 0} (match_record : Program → Record → Option Bool) where
  -- A nil program matches every linked record.
  unfoldable pub linked_matches : Option Program → Record → Option Bool
  linked_matches none r = some true
  linked_matches (some p) r = match_record p r

  -- matchesAnyEdge
  unfoldable pub matches_any_edge :
      List Edge → String → Option Program → Graph → (Edge → String) → Option Bool
  matches_any_edge [] link_type program g end = some false
  matches_any_edge (e ∷ es) link_type program g end =
      let rest = matches_any_edge es link_type program g end in
      if not (link_type == "") && not (e.kind == link_type)
      then rest
      else elim (lookup (end e) g.nodes) as (λ _. Option Bool) [
        | none ↦ rest
        | some linked ↦ elim (linked_matches program linked) [
          | none ↦ none
          | some b ↦ if b then some true else rest
        ]
      ]

  -- One of the two tests of a candidate: a direction that is not asked for passes.
  unfoldable pub passes_direction :
      Option String → List Edge → String → Option Program → Graph → (Edge → String) → Option Bool
  passes_direction none edges link_type program g end = some true
  passes_direction (some _) edges link_type program g end =
      matches_any_edge edges link_type program g end

  -- The loop over the candidates.
  unfoldable pub keep_linked :
      Graph
      → TraversalOptions
      → Option Program
      → Option Program
      → List Record
      → Option (List Record)
  keep_linked g o inbound outbound [] = some []
  keep_linked g o inbound outbound (r ∷ rs) =
      let rest = keep_linked g o inbound outbound rs in
      elim (passes_direction o.has_inbound (inbound_edges g r.path) o.inbound_type inbound g
          edge_source)
        as (λ _. Option (List Record)) [
          | none ↦ none
          | some into ↦
              if into
              then elim (passes_direction o.has_outbound (edges_of g r.path) o.outbound_type
                    outbound g edge_target)
                  as (λ _. Option (List Record)) [
                    | none ↦ none
                    | some out ↦
                        if out
                        then elim rest [ none ↦ none | some kept ↦ some (r ∷ kept) ]
                        else rest
                  ]
              else rest
        ]

module _ {Program : Type 0} (compile : String → Option Program)
    (match_record : Program → Record → Option Bool) where
  -- FilterByTraversal
  unfoldable pub filter_by_traversal : List Record → Graph → TraversalOptions → Option (List Record)
  filter_by_traversal candidates g o =
      elim (compile_sub_where compile o.has_inbound) as (λ _. Option (List Record)) [
        | none ↦ none
        | some inbound ↦ elim (compile_sub_where compile o.has_outbound) [
          | none ↦ none
          | some outbound ↦ keep_linked match_record g o inbound outbound candidates
        ]
      ]
