-- ===== src/Data/Relation.antt =====
-- api/data/build_query.go and query_json.go: the tree of tables that a request selects from.
use atomicbase.Prelude.{ℕ, suc, String, Bool, true, false, List, [], ◌∷◌, ◌++◌, ltb, if◌then◌else◌}
use atomicbase.Result.{Result, ok, ◌>>=◌}
use atomicbase.Definitions.Types.{
  Values, null, bool, str, other, arr, obj, nil, cons, Entries, no_entry, entry,
}
use atomicbase.Data.Filter.{fail}

pub record Column : Type 0 where
  pub name : String
  pub alias : String

abbrev pub all_columns : List Column
all_columns = record { name = "*"; alias = "" } ∷ []

-- `Relation`: name, alias, inner, columns and joins. Its `parent` is only used while one is parsed.
mutual
  pub data Relation : Type 0 where
    relation : String → String → Bool → List Column → Relations → Relation

  pub data Relations : Type 0 where
    no_relation : Relations
    relations : Relation → Relations → Relations

abbrev pub name_of : Relation → String
name_of (relation name alias inner columns joins) = name

-- `append(rel.joins, &nestedRel)`
unfoldable pub add_relation : Relations → Relation → Relations
add_relation no_relation r = relations r no_relation
add_relation (relations q qs) r = relations q (add_relation qs r)

abbrev pub max : ℕ → ℕ → ℕ
max a b = if ltb a b then b else a

unfoldable mutual
  pub relation_depth : Relation → ℕ
  relation_depth (relation name alias inner columns joins) = suc (joins_depth joins)

  -- `maxChild`, which is 0 without joins
  pub joins_depth : Relations → ℕ
  joins_depth no_relation = 0
  joins_depth (relations r rs) = max (relation_depth r) (joins_depth rs)

-- The loop variables `rel.columns` and `rel.joins`.
pub record Selection : Type 0 where
  pub columns : List Column
  pub joins : Relations

abbrev pub no_selection : Selection
no_selection = record { columns = []; joins = no_relation }

abbrev pub select_column : String → String → Selection → Selection
select_column name alias sel = record sel {
  columns = sel.columns ++ record { name = name; alias = alias } ∷ [];
}

-- No columns but joins: all columns. So it is for an empty `sel` too.
abbrev default_columns : List Column → Relations → Bool → List Column
default_columns [] (relations r rs) empty = all_columns
default_columns [] no_relation true = all_columns
default_columns columns joins empty = columns

abbrev pub selected : String → Bool → Selection → Relation
selected name empty sel =
    relation name "" false (default_columns sel.columns sel.joins empty) sel.joins

abbrev has_no_item : Values → Bool
has_no_item nil = true
has_no_item (cons v vs) = false

-- `%T` of a value is left out of the message.
abbrev invalid_item : Result Selection
invalid_item = fail "invalid select item type"

unfoldable mutual
  pub parse_items : Values → Selection → Result Selection
  parse_items nil sel = ok sel
  parse_items (cons (str name) vs) sel = parse_items vs (select_column name "" sel)
  parse_items (cons (obj text es) vs) sel = parse_members es sel >>= λ next. parse_items vs next
  parse_items (cons null vs) sel = invalid_item
  parse_items (cons (bool b) vs) sel = invalid_item
  parse_items (cons (other text) vs) sel = invalid_item
  parse_items (cons (arr items) vs) sel = invalid_item

  -- `for key, value := range v`: a nested relation, an aliased column, or neither.
  pub parse_members : Entries → Selection → Result Selection
  parse_members no_entry sel = ok sel
  parse_members (entry key (arr cols) es) sel = parse_items cols no_selection >>= λ nested.
      parse_members es
        (record sel { joins = add_relation sel.joins (selected key (has_no_item cols) nested) })
  parse_members (entry key (str name) es) sel = parse_members es (select_column name key sel)
  parse_members (entry key null es) sel = parse_members es sel
  parse_members (entry key (bool b) es) sel = parse_members es sel
  parse_members (entry key (other text) es) sel = parse_members es sel
  parse_members (entry key (obj text fs) es) sel = parse_members es sel

unfoldable pub parse_select_from_json : Values → String → Result Relation
parse_select_from_json sel table =
    parse_items sel no_selection >>= λ done. ok (selected table (has_no_item sel) done)
