-- ===== src/Query/Samples.antt =====
-- Execute on two records.
use rootline.Base.{String, ◌≡◌, refl, some, List, [], ◌∷◌, true, false}
use rootline.Value.{Value, str, seq, nil, cons, end, field, get}
use rootline.Value.Print.{print}
use rootline.Extract.{Record}
use rootline.Query.Text.{contains, trim_prefix}
use rootline.Query.{
  Condition, condition, no_more, more, op_eq, op_and, counted, resolve_field, resolve_shortcut,
  match_eq, match_ne, passes, resolve_where, resolve_condition, matches, or_found, execute,
}
use rootline.Query.Laws.{execute-again}

abbrev task : String → Value → Record
task p tags = record {
  path = p;
  kind = "markdown";
  frontmatter = field "status" (str "open") (field "tags" tags end);
  body = "";
  links = [];
  derived = end;
}

abbrev both : List Record
both = task "a.md" (seq (cons (str "x") (cons (str "y") nil))) ∷ task "b.md" (str "y") ∷ []

abbrev open_and_y : Condition
open_and_y = condition op_and "" "" [] (
    more (condition op_eq "status" "open" [] no_more)
      (more (condition op_eq "tags" "y" [] no_more) no_more))

both_match :
    (execute both (record { where_clause = some open_and_y; limit = 0; count = true })).0
    ≡ counted 0 2
unfolding execute resolve_where resolve_condition resolve_shortcut contains passes matches match_eq
    resolve_field get trim_prefix or_found print
both_match = refl

-- A list is compared as it prints, so both tests hold of it.
list_eq_and_ne :
    (match_eq (task "a.md" (seq (cons (str "x") nil))) "tags" "x" ≡ true)
    × (match_ne (task "a.md" (seq (cons (str "x") nil))) "tags" "x" ≡ true)
unfolding match_eq match_ne resolve_field get trim_prefix or_found print
list_eq_and_ne = (refl, refl)

execute-again_example :
    execute both
      (execute both (record { where_clause = some open_and_y; limit = 1; count = false })).1
    ≡ execute both (record { where_clause = some open_and_y; limit = 1; count = false })
execute-again_example =
    execute-again both (record { where_clause = some open_and_y; limit = 1; count = false })

tags_field : resolve_field (task "b.md" (str "y")) "tags" ≡ some (str "y")
unfolding resolve_field get trim_prefix or_found
tags_field = refl
