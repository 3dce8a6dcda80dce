-- ===== src/Data/CustomJoin.antt =====
-- api/data/build_query.go: requests that name their joins themselves.
pub mod Build
use atomicbase.Prelude.{
  String, Bool, true, false, not, ◌&&◌, ◌||◌, List, [], ◌∷◌, ◌++◌, Option, none, some, ◌==◌, ◌⊕◌,
  any, split_dot, is_some, if◌then◌else◌,
}
use atomicbase.Result.{Result, ok, err, other_error, require, ◌>>=◌, ◌>>◌}
use atomicbase.Definitions.Types.{
  Value, Values, null, bool, str, other, arr, obj, nil, cons, Entries, no_entry, entry,
}
use atomicbase.Platform.Schema.{lookup, put, or_else}
use atomicbase.Data.Schema.{SchemaCache, search_tbls}
use atomicbase.Data.Filter.{fail, as_object}
use atomicbase.Data.Relation.{Column, all_columns}

pub record JoinClause : Type 0 where
  pub table : String
  pub type : String
  pub conditions : List Entries
  pub alias : String
  pub flat : Bool

pub record JoinCondition : Type 0 where
  pub left_table : String
  pub left_col : String
  pub op : String
  pub right_table : String
  pub right_col : String

-- `customJoin`; there is always a first condition.
pub record CustomJoin : Type 0 where
  pub table : String
  pub alias : String
  pub join_type : String
  pub condition : JoinCondition
  pub more : List JoinCondition
  pub flat : Bool

pub record CustomJoinQuery : Type 0 where
  pub base_table : String
  pub base_columns : List Column
  pub joins : List CustomJoin
  pub joined_columns : List (String × List Column)

-- `splitTableColumn` and the test for two parts.
abbrev pub two_parts : String → String → Result (String × String)
two_parts side s = elim (split_dot s) [
  | none ↦ fail ("join condition " ⊕ side ⊕ " side must be table.column format: " ⊕ s)
  | some parts ↦ ok parts
]

abbrev with_right : String × String → String → Value → Result JoinCondition
with_right (t, c) op (str s) = two_parts "right" s >>= λ right.
    ok
      (record { left_table = t; left_col = c; op = op; right_table = right.0; right_col = right.1 })
with_right left op v = fail "join condition right side must be a column reference string"

-- The first operator of the object decides; an object without one leaves the right side empty.
abbrev right_side : String × String → Entries → Result JoinCondition
right_side (t, c) no_entry =
    ok (record { left_table = t; left_col = c; op = ""; right_table = ""; right_col = "" })
right_side left (entry op v es) = with_right left op v

unfoldable pub parse_join_condition : Entries → Result JoinCondition
parse_join_condition (entry left v no_entry) = two_parts "left" left >>= λ parts.
    as_object "join condition value must be an object with operator" v >>= right_side parts
parse_join_condition _ = fail "join condition must have exactly one key"

unfoldable pub parse_join_conditions : List Entries → Result (List JoinCondition)
parse_join_conditions [] = ok []
parse_join_conditions (c ∷ cs) =
    parse_join_condition c >>= λ jc. parse_join_conditions cs >>= λ jcs. ok (jc ∷ jcs)

abbrev pub or_if_empty : String → String → String
or_if_empty s default = if s == "" then default else s

-- The names under which a joined table's columns may be selected.
unfoldable pub joined_tables : List JoinClause → List String
joined_tables [] = []
joined_tables (j ∷ js) = or_if_empty j.alias j.table ∷ j.table ∷ joined_tables js

-- `BaseColumns` and `JoinedColumns`
pub record Placed : Type 0 where
  pub base : List Column
  pub joined : List (String × List Column)

abbrev add_base : Placed → String → String → Placed
add_base p name alias = record p { base = p.base ++ record { name = name; alias = alias } ∷ [] }

abbrev add_joined : Placed → String → String → String → Placed
add_joined p table name alias = record p {
  joined =
      put table (or_else [] (lookup table p.joined) ++ record { name = name; alias = alias } ∷ [])
        p.joined;
}

abbrev place_parts :
    String → List String → Placed → String → String → Option (String × String) → Result Placed
place_parts base tables p name alias none = ok (add_base p name alias)
place_parts base tables p name alias (some (table, col)) =
    if any (λ t. t == table) tables
    then ok (add_joined p table col alias)
    else if table == base
    then ok (add_base p col alias)
    else fail ("unknown table in select: " ⊕ table)

unfoldable pub place : String → List String → Placed → String → String → Result Placed
place base tables p name alias = place_parts base tables p name alias (split_dot name)

-- `for alias, val := range v`: what is no text is passed over.
unfoldable pub place_aliased : String → List String → Entries → Placed → Result Placed
unfolding place
place_aliased base tables no_entry p = ok p
place_aliased base tables (entry alias (str name) es) p =
    place base tables p name alias >>= λ next. place_aliased base tables es next
place_aliased base tables (entry alias null es) p = place_aliased base tables es p
place_aliased base tables (entry alias (bool b) es) p = place_aliased base tables es p
place_aliased base tables (entry alias (other text) es) p = place_aliased base tables es p
place_aliased base tables (entry alias (arr vs) es) p = place_aliased base tables es p
place_aliased base tables (entry alias (obj text fs) es) p = place_aliased base tables es p

unfoldable pub place_items : String → List String → Values → Placed → Result Placed
unfolding place place_aliased
place_items base tables nil p = ok p
place_items base tables (cons (str name) vs) p =
    (if name == "*" then ok (add_base p "*" "") else place base tables p name "") >>= λ next.
    place_items base tables vs next
place_items base tables (cons (obj text es) vs) p =
    place_aliased base tables es p >>= λ next. place_items base tables vs next
place_items base tables (cons null vs) p = place_items base tables vs p
place_items base tables (cons (bool b) vs) p = place_items base tables vs p
place_items base tables (cons (other text) vs) p = place_items base tables vs p
place_items base tables (cons (arr us) vs) p = place_items base tables vs p

abbrev require_join_type : String → Result (Unit {0})
require_join_type type =
    require (type == "left" || type == "inner")
      (other_error ("invalid join type: " ⊕ type ⊕ " (must be 'left' or 'inner')"))

abbrev join_from : JoinClause → List JoinCondition → Result CustomJoin
join_from j [] = fail ("join on table " ⊕ j.table ⊕ " requires at least one ON condition")
join_from j (c ∷ cs) = ok (record {
  table = j.table;
  alias = or_if_empty j.alias j.table;
  join_type = or_if_empty j.type "left";
  condition = c;
  more = cs;
  flat = j.flat;
})

unfoldable pub parse_join : SchemaCache → JoinClause → Result CustomJoin
parse_join schema j = do
  require_join_type (or_if_empty j.type "left")
  tbl ← search_tbls schema j.table
  conditions ← parse_join_conditions j.conditions
  join_from j conditions

-- All columns of a joined table for which none are selected.
abbrev with_default : String → List (String × List Column) → List (String × List Column)
with_default alias columns =
    if is_some (lookup alias columns) then columns else put alias all_columns columns

unfoldable pub parse_joins :
    SchemaCache
    → List JoinClause
    → List CustomJoin × List (String × List Column)
    → Result (List CustomJoin × List (String × List Column))
parse_joins schema [] acc = ok acc
parse_joins schema (j ∷ js) (joins, columns) = parse_join schema j >>= λ cj.
    parse_joins schema js (joins ++ cj ∷ [], with_default cj.alias columns)

abbrev or_star : List Column → List Column
or_star [] = all_columns
or_star (c ∷ cs) = c ∷ cs

unfoldable pub parse_custom_join_query :
    SchemaCache → String → Values → List JoinClause → Result CustomJoinQuery
parse_custom_join_query schema base select clauses =
    place_items base (joined_tables clauses) select (record { base = []; joined = [] }) >>= λ p.
    parse_joins schema clauses ([], p.joined) >>= λ done. ok (record {
      base_table = base;
      base_columns = or_star p.base;
      joins = done.0;
      joined_columns = done.1;
    })
