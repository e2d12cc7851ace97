-- ===== src/Rules/Merge/Links.antt =====
-- mergeLinkSchema: what a child inherits of the link checks and the link rules.
use rootline.Base.{
  String, ◌≡◌, inl, inr, refl, ◌∙◌, Option, none, some, [], ◌∷◌, arith, eq_iff, Bool, true,
  Bool-cases, List-cases,
}
use rootline.Base.Dict.{Dict, lookup, insert, lookup-insert, IsDict}
use rootline.Rules.{LinkSchema, LinkRule, links_empty, should_resolve}
use rootline.Rules.Merge.{merge_checks, overlay_rules, merge_link_schema, or_else}

-- What a schema itself says of broken-target detection.
abbrev pub declared_resolve : LinkSchema → Option Bool
declared_resolve ls = elim ls.checks [ none ↦ none | some c ↦ c.resolve ]

lookup-overlay_rules :
    (out child : Dict LinkRule) (k : String)
    → IsDict child
    → lookup k (overlay_rules out child) ≡ or_else (lookup k child) (lookup k out)
unfolding overlay_rules lookup
lookup-overlay_rules out [] k h = refl
lookup-overlay_rules out ((j, v) ∷ rest) k h =
    lookup-overlay_rules (insert j v out) rest k h.1
    ∙ ground (arith, lookup-insert j k v out, eq_iff j k, h.0)

nil-of_empty : (ls : LinkSchema) → links_empty ls ≡ true → ls.rules ≡ []
unfolding links_empty
nil-of_empty ls h = elim (List-cases ls.rules) [ inl e ↦ e | inr (x, xs, e) ↦ ground (arith, h, e) ]

merged_rules :
    (parent child : LinkSchema) (k : String)
    → IsDict parent.rules
    → IsDict child.rules
    → lookup k (merge_link_schema parent child).rules
      ≡ or_else (lookup k child.rules) (lookup k parent.rules)
unfolding merge_link_schema lookup
merged_rules parent child k hp hc = elim (Bool-cases (links_empty child)) [
  | inl e ↦ ground (arith, e, nil-of_empty child e)
  | inr e ↦ elim (Bool-cases (links_empty parent)) [
    | inl f ↦ ground (arith, e, f, nil-of_empty parent f)
    | inr f ↦ ground (
      arith,
      e,
      f,
      lookup-overlay_rules (overlay_rules [] parent.rules) child.rules k hc,
      lookup-overlay_rules [] parent.rules k hp,
    )
  ]
]

-- Broken-target detection: the child decides where it says so, else the parent. So an opt-out
-- survives a child that declares other checks only. Of the rules each key is the child's if it has
-- one, else the parent's. Neither schema has two rules for one key.
pub merge_link_schema-inherits :
    (parent child : LinkSchema) (k : String)
    → IsDict parent.rules
    → IsDict child.rules
    → (should_resolve (merge_link_schema parent child)
        ≡ (elim (declared_resolve child) [ some b ↦ b | none ↦ should_resolve parent ]))
      × (lookup k (merge_link_schema parent child).rules
          ≡ or_else (lookup k child.rules) (lookup k parent.rules))
unfolding merge_link_schema should_resolve merge_checks links_empty
merge_link_schema-inherits parent child k hp hc = (ground arith, merged_rules parent child k hp hc)
