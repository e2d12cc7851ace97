-- ===== src/Query/Laws.antt =====
-- The laws of the filter.
use Prim.Native.String.{◌++◌}
use rootline.Base.{
  String, ◌≡◌, ◌↔◌, ◌⊎◌, inl, inr, refl, sym, ◌∙◌, ap, subst, ap₂, Option, none, some, List, true,
  false, not, ◌==◌, eq_iff, any, In, arith, Bool-cases, Option-cases, any_iff,
}
use rootline.Value.{Value}
use rootline.Value.Print.{print}
use rootline.Extract.{Record}
use rootline.Query.Text.{contains, contains-append}
use rootline.Query.{
  Condition, Conditions, condition, no_more, more, Query, resolve_shortcut, resolve_condition,
  resolve_conditions, resolve_field, to_string_slice, match_eq, match_ne, match_in, resolve_where,
  execute,
}

prefix_has_dot : contains "frontmatter." "." ≡ true
unfolding contains
prefix_has_dot = refl

dotted : (field : String) → contains field "." ≡ true → resolve_shortcut field ≡ field
unfolding resolve_shortcut
dotted field h = rw h refl

bare :
    (field : String)
    → contains field "." ≡ false
    → (field ≡ "path")
      ⊎ (field ≡ "body")
      ⊎ (field ≡ "type")
      ⊎ (resolve_shortcut field ≡ "frontmatter." ++ field)
unfolding resolve_shortcut
bare field h = ground (arith, h, eq_iff field "path", eq_iff field "body", eq_iff field "type")

at_builtin :
    (field name : String)
    → field ≡ name
    → resolve_shortcut name ≡ name
    → resolve_shortcut (resolve_shortcut field) ≡ resolve_shortcut field
at_builtin field name e h =
    subst (λ z. resolve_shortcut (resolve_shortcut z) ≡ resolve_shortcut z) (sym e)
      (ap resolve_shortcut h)

resolve_shortcut-idempotent :
    (field : String) → resolve_shortcut (resolve_shortcut field) ≡ resolve_shortcut field
resolve_shortcut-idempotent field = elim (Bool-cases (contains field ".")) [
  | inl e ↦ ap resolve_shortcut (dotted field e)
  | inr e ↦ elim (bare field e) [
    | inl q ↦ at_builtin field "path" q (unfold resolve_shortcut contains in refl)
    | inr (inl q) ↦ at_builtin field "body" q (unfold resolve_shortcut contains in refl)
    | inr (inr (inl q)) ↦ at_builtin field "type" q (unfold resolve_shortcut contains in refl)
    | inr (inr (inr q)) ↦
        ap resolve_shortcut q
        ∙ dotted ("frontmatter." ++ field) (contains-append "frontmatter." field "." prefix_has_dot)
        ∙ sym q
  ]
]

mutual
  unfolding resolve_condition

  resolve_condition-idempotent :
      (c : Condition) → resolve_condition (resolve_condition c) ≡ resolve_condition c
  resolve_condition-idempotent (condition op field value values children) =
      ap₂ (λ f cs. condition op f value values cs) (resolve_shortcut-idempotent field)
        (resolve_conditions-idempotent children)

  resolve_conditions-idempotent :
      (cs : Conditions) → resolve_conditions (resolve_conditions cs) ≡ resolve_conditions cs
  resolve_conditions-idempotent no_more = refl
  resolve_conditions-idempotent (more c cs) =
      ap₂ more (resolve_condition-idempotent c) (resolve_conditions-idempotent cs)

resolve_where-idempotent :
    (w : Option Condition) → resolve_where (resolve_where w) ≡ resolve_where w
unfolding resolve_where
resolve_where-idempotent none = refl
resolve_where-idempotent (some c) = ap some (resolve_condition-idempotent c)

-- Execute rewrites the condition of the query that it is given. Executing the same query again has
-- the same result, and leaves the query as it is.
pub execute-again :
    (records : List Record) (q : Query) → execute records (execute records q).1 ≡ execute records q
unfolding execute
execute-again records q = rw (resolve_where-idempotent q.where_clause) refl

false-ne-true : ¬ (false ≡ true)
false-ne-true h = cc

-- A field is in a list of values exactly where it equals one of them, also where the field holds a
-- list itself.
pub match_in_iff :
    (r : Record) (field : String) (values : List String)
    → (match_in r field values ≡ true) ↔ ((v : String) × In v values × (match_eq r field v ≡ true))
unfolding match_in match_eq
match_in_iff r field values = elim (Option-cases (resolve_field r field)) [
  | inl e ↦
      rw (e, match_in, match_eq) (λ h. absurd (false-ne-true h), λ h. absurd (false-ne-true h.2))
  | inr (w, e) ↦
      rw (e, match_in, match_eq)
        (elim (Option-cases (to_string_slice w)) [
          | inl f ↦ rw f (any_iff (λ v. print w == v) values)
          | inr (items, f) ↦ rw f (
            λ h.
                let (item, m, k) = (any_iff (λ item. any (λ v. item == v) values) items).0 h in
                let (v, n, q) = (any_iff (λ v. item == v) values).0 k in
                (v, n, (any_iff (λ item. item == v) items).1 (item, m, q)),
            λ h.
                let (item, m, q) = (any_iff (λ item. item == h.0) items).0 h.2 in
                (any_iff (λ item. any (λ v. item == v) values) items).1
                  (item, m, (any_iff (λ v. item == v) values).1 (h.0, h.1, q)),
          )
        ])
]

-- Where the field holds no list, ne is the negation of eq, and a missing field is not equal.
pub match_ne-eq-not :
    (r : Record) (field value : String)
    → ((v : Value) → resolve_field r field ≡ some v → to_string_slice v ≡ none)
    → match_ne r field value ≡ not (match_eq r field value)
unfolding match_ne match_eq
match_ne-eq-not r field value h = elim (Option-cases (resolve_field r field)) [
  | inl e ↦ rw (e, match_ne, match_eq) refl
  | inr (w, e) ↦ rw (e, match_ne, match_eq) (rw (h w e) refl)
]
