-- ===== src/Query.antt =====
-- internal/query: the filter of records by conditions (query.go, shortcuts.go).
pub mod Text
pub mod Laws
pub mod Traversal
mod Samples
use Prim.Native.String.{◌++◌}
use rootline.Base.{
  ℕ, String, Option, none, some, List, [], ◌∷◌, Bool, true, false, not, ◌&&◌, ◌==◌, ltb,
  if◌then◌else◌, any, select, length, take,
}
use rootline.Value.{Value, Items, Fields, str, seq, other, nil, cons, get}
use rootline.Value.Print.{print, print_nat}
use rootline.Extract.{Record, Link}
use rootline.Query.Text.{contains, trim_prefix}

-- Operator
abbrev pub op_eq : String
op_eq = "eq"

abbrev pub op_ne : String
op_ne = "ne"

abbrev pub op_in : String
op_in = "in"

abbrev pub op_contains : String
op_contains = "contains"

abbrev pub op_exists : String
op_exists = "exists"

abbrev pub op_and : String
op_and = "and"

mutual
  -- Condition: its Op, Field, Value, Values and Children.
  pub data Condition : Type 0 where
    condition : String → String → String → List String → Conditions → Condition

  pub data Conditions : Type 0 where
    no_more : Conditions
    more : Condition → Conditions → Conditions

-- Query: no limit where `limit` is 0, which also stands for a negative Limit.
pub record Query : Type 0 where
  pub where_clause : Option Condition
  pub limit : ℕ
  pub count : Bool

-- What Execute returns: a CountResult with Meta.Count, which stays 0, and Count, or a QueryResult with
-- Meta.Count and the rows. The constants Version and Kind are left out.
pub data QueryResult : Type 0 where
  counted : ℕ → ℕ → QueryResult
  rows : ℕ → List Record → QueryResult

-- ResolveShortcut
unfoldable pub resolve_shortcut : String → String
resolve_shortcut field =
    if contains field "."
    then field
    else if field == "path"
    then "path"
    else if field == "body"
    then "body"
    else if field == "type"
    then "type"
    else "frontmatter." ++ field

unfoldable mutual
  unfolding resolve_shortcut

  -- resolveConditionShortcuts
  pub resolve_condition : Condition → Condition
  resolve_condition (condition op field value values children) =
      condition op (resolve_shortcut field) value values (resolve_conditions children)

  pub resolve_conditions : Conditions → Conditions
  resolve_conditions no_more = no_more
  resolve_conditions (more c cs) = more (resolve_condition c) (resolve_conditions cs)

-- One link as fmt prints the struct.
print_link : Link → String
print_link l =
    "{"
    ++ l.target
    ++ " "
    ++ l.kind
    ++ " "
    ++ print_nat l.line
    ++ " "
    ++ l.source
    ++ " "
    ++ l.style
    ++ " "
    ++ l.anchor
    ++ " "
    ++ l.resolution
    ++ "}"

pub print_links : List Link → String
unfolding print_link
print_links [] = ""
print_links (l ∷ []) = print_link l
print_links (l ∷ m ∷ ls) = print_link l ++ " " ++ print_links (m ∷ ls)

abbrev pub links_value : List Link → Option Value
links_value [] = none
links_value (l ∷ ls) = some (other "sequence" ("[" ++ print_links (l ∷ ls) ++ "]"))

unfoldable pub or_found : Option Value → Option Value → Option Value
or_found (some v) o = some v
or_found none o = o

-- resolveField
unfoldable pub resolve_field : Record → String → Option Value
unfolding or_found
resolve_field r field =
    if field == "path"
    then some (str r.path)
    else if field == "body"
    then some (str r.body)
    else if field == "type"
    then some (str r.kind)
    else if field == "links"
    then links_value r.links
    else or_found (get field r.frontmatter)
        (elim (trim_prefix "frontmatter." field) [ none ↦ none | some key ↦ get key r.frontmatter ])

abbrev pub printed : Items → List String
printed nil = []
printed (cons v vs) = print v ∷ printed vs

-- toStringSlice
abbrev pub to_string_slice : Value → Option (List String)
to_string_slice (seq xs) = some (printed xs)
to_string_slice _ = none

-- matchEq
unfoldable pub match_eq : Record → String → String → Bool
match_eq r field value = elim (resolve_field r field) [
  | none ↦ false
  | some v ↦ elim (to_string_slice v) [
    | some items ↦ any (λ item. item == value) items
    | none ↦ print v == value
  ]
]

-- matchNe
unfoldable pub match_ne : Record → String → String → Bool
match_ne r field value = elim (resolve_field r field) [
  | none ↦ true
  | some v ↦ not (print v == value)
]

-- matchIn
unfoldable pub match_in : Record → String → List String → Bool
match_in r field values = elim (resolve_field r field) [
  | none ↦ false
  | some v ↦ elim (to_string_slice v) [
    | some items ↦ any (λ item. any (λ w. item == w) values) items
    | none ↦ any (λ w. print v == w) values
  ]
]

-- matchContains
unfoldable pub match_contains : Record → String → String → Bool
match_contains r field substr =
    if field == "body"
    then contains r.body substr
    else elim (resolve_field r field) as (λ _. Bool) [
      | none ↦ false
      | some v ↦ elim (to_string_slice v) [
        | some items ↦ any (λ item. contains item substr) items
        | none ↦ contains (print v) substr
      ]
    ]

-- matchExists
unfoldable pub match_exists : Record → String → Bool
match_exists r field = elim (resolve_field r field) [ none ↦ false | some _ ↦ true ]

unfoldable mutual
  unfolding match_eq match_ne match_in match_contains match_exists

  -- matches
  pub matches : Record → Condition → Bool
  matches r (condition op field value values children) =
      let all = match_and r children in
      if op == op_eq
      then match_eq r field value
      else if op == op_ne
      then match_ne r field value
      else if op == op_in
      then match_in r field values
      else if op == op_contains
      then match_contains r field value
      else if op == op_exists
      then match_exists r field
      else if op == op_and
      then all
      else false

  -- matchAnd
  pub match_and : Record → Conditions → Bool
  match_and r no_more = true
  match_and r (more c cs) = let rest = match_and r cs in if matches r c then rest else false

unfoldable pub resolve_where : Option Condition → Option Condition
resolve_where none = none
resolve_where (some c) = some (resolve_condition c)

-- The test of the loop of Execute.
unfoldable pub passes : Option Condition → Record → Bool
passes none r = true
passes (some c) r = matches r c

-- Execute, with the query as it leaves it: the shortcuts are resolved in place.
unfoldable pub execute : List Record → Query → QueryResult × Query
unfolding resolve_where
execute records q =
    let resolved = resolve_where q.where_clause in
    let filtered = select (passes resolved) records in
    let limited =
      if ltb 0 q.limit && ltb q.limit (length filtered) then take q.limit filtered else filtered in
    (
      if q.count then counted 0 (length filtered) else rows (length limited) limited,
      record q { where_clause = resolved },
    )
