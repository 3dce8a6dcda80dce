-- ===== src/Data/CustomJoin/Build.antt =====
-- api/data/build_query.go, BuildCustomJoinSelect: the SELECT of a request with its own joins.
use atomicbase.Prelude.{
  String, not, ◌&&◌, ◌||◌, List, [], ◌∷◌, ◌++◌, Option, none, some, map, ◌==◌, ◌⊕◌, any, join,
  if◌then◌else◌,
}
use atomicbase.Result.{Result, ok, ◌>>=◌}
use atomicbase.Definitions.Types.{Value, CompiledPredicate}
use atomicbase.Platform.Schema.{lookup, or_else}
use atomicbase.Data.Text.{GoText, drop_last}
use atomicbase.Data.Schema.{CacheTable, SchemaCache, search_tbls, search_cols}
use atomicbase.Data.Filter.{fail, op_to_sql, qualified}
use atomicbase.Data.Relation.{Column}
use atomicbase.Data.Aggregation.{build_json_aggregation}
use atomicbase.Data.Select.{Built, join_keyword, where_of, args_of}
use atomicbase.Data.Columns.{SelectPolicySet, pair, Picked, is_blob, star_pairs}
use atomicbase.Data.CustomJoin.{JoinCondition, CustomJoin, CustomJoinQuery}

abbrev no_pick : Picked
no_pick = record { sel = ""; agg_pairs = [] }

-- `key`: the alias, as the request wrote it, or else the other name.
abbrev key_or : String → String → String
key_or alias name = if not (alias == "") then alias else name

-- A column that is named: nothing for a BLOB, and else what `make` gives.
abbrev known_column : GoText → CacheTable → Column → Picked → Result Picked
known_column go tbl col made =
    search_cols tbl col.name >>= λ type. ok (if is_blob go type then no_pick else made)

unfoldable pub base_column : GoText → CacheTable → String → Column → Result Picked
base_column go tbl base col =
    if col.name == "*"
    then ok (record {
      sel = "[" ⊕ base ⊕ "].*, ";
      agg_pairs = star_pairs go (λ c. "[" ⊕ c ⊕ "]") tbl.columns;
    })
    else known_column go tbl col (record {
      sel = qualified base col.name ⊕ ", ";
      agg_pairs = pair (key_or col.alias col.name) ("[" ⊕ col.name ⊕ "]") ∷ [];
    })

-- "[alias].[column] AS [key], " and its pair
abbrev flat_pick : String → String → String → Picked
flat_pick alias col key = record {
  sel = qualified alias col ⊕ " AS [" ⊕ key ⊕ "], ";
  agg_pairs = pair key ("[" ⊕ key ⊕ "]") ∷ [];
}

abbrev both_picks : Picked → Picked → Picked
both_picks p q = record { sel = p.sel ⊕ q.sel; agg_pairs = p.agg_pairs ++ q.agg_pairs }

unfoldable pub flat_star : GoText → String → List (String × String) → Picked
flat_star go alias [] = no_pick
flat_star go alias ((c, t) ∷ cols) =
    let rest = flat_star go alias cols in
    if is_blob go t then rest else both_picks (flat_pick alias c (alias ⊕ "_" ⊕ c)) rest

unfoldable pub flat_column : GoText → CacheTable → String → Column → Result Picked
unfolding flat_star
flat_column go tbl alias col =
    if col.name == "*"
    then ok (flat_star go alias tbl.columns)
    else known_column go tbl col
        (flat_pick alias col.name (key_or col.alias (alias ⊕ "_" ⊕ col.name)))

unfoldable pub nested_column : GoText → CacheTable → String → Column → Result Picked
nested_column go tbl alias col =
    if col.name == "*"
    then ok (record { sel = ""; agg_pairs = star_pairs go (qualified alias) tbl.columns })
    else known_column go tbl col (record {
      sel = "";
      agg_pairs = pair (key_or col.alias col.name) (qualified alias col.name) ∷ [];
    })

-- A loop over columns, with what each round appends.
unfoldable pub each_column : (Column → Result Picked) → List Column → Result Picked
each_column f [] = ok no_pick
each_column f (col ∷ cols) = f col >>= λ p. each_column f cols >>= λ rest. ok (both_picks p rest)

unfoldable pub on_condition : JoinCondition → String
on_condition c =
    qualified c.left_table c.left_col
    ⊕ " "
    ⊕ op_to_sql c.op
    ⊕ " "
    ⊕ qualified c.right_table c.right_col

abbrev on_clause : CustomJoin → String
on_clause j = join " AND " (on_condition j.condition ∷ map on_condition j.more)

abbrev guarded_on : Option CompiledPredicate → String → String
guarded_on none on = on
guarded_on (some p) on = if p.sql == "" then on else "(" ⊕ on ⊕ ") AND (" ⊕ p.sql ⊕ ")"

-- The column whose absence marks a row without a partner.
abbrev filter_col : CustomJoin → String
filter_col j =
    let c = j.condition in
    if not (c.right_table == j.table) && not (c.right_table == j.alias)
    then qualified c.left_table c.left_col
    else qualified c.right_table c.right_col

abbrev nested : CustomJoin → Picked → Picked
nested j p = record {
  sel =
      "json_group_array("
      ⊕ build_json_aggregation p.agg_pairs
      ⊕ ") FILTER (WHERE "
      ⊕ filter_col j
      ⊕ " IS NOT NULL) AS ["
      ⊕ j.alias
      ⊕ "], ";
  agg_pairs = pair j.alias ("json([" ⊕ j.alias ⊕ "])") ∷ [];
}

unfoldable pub join_columns : GoText → CacheTable → CustomJoin → List Column → Result Picked
join_columns go tbl j cols =
    if j.flat
    then each_column (flat_column go tbl j.alias) cols
    else (each_column (nested_column go tbl j.alias) cols >>= λ p. ok (nested j p))

abbrev join_text : SelectPolicySet → CustomJoin → String
join_text policies j =
    join_keyword (j.join_type == "inner")
    ⊕ "JOIN ["
    ⊕ j.table
    ⊕ "] "
    ⊕ (if not (j.alias == j.table) then "AS [" ⊕ j.alias ⊕ "] " else "")
    ⊕ "ON "
    ⊕ guarded_on (lookup j.table policies) (on_clause j)
    ⊕ " "

abbrev with_join : SelectPolicySet → CustomJoin → Built → Picked → Built
with_join policies j acc p = record {
  sel = acc.sel ⊕ p.sel;
  joins = acc.joins ⊕ join_text policies j;
  agg_pairs = acc.agg_pairs ++ p.agg_pairs;
  policy_args = acc.policy_args ++ args_of (lookup j.table policies);
}

-- `SELECT` to the policy of the base table, `GROUP BY`, the JSON expression and the arguments.
pub record CustomSelect : Type 0 where
  pub query : String
  pub group_by : String
  pub agg : String
  pub args : List Value

abbrev by_column : CacheTable → String → Column → List String
by_column tbl base col =
    if col.name == "*"
    then map (λ c. qualified base c.0) tbl.columns
    else qualified base col.name ∷ []

unfoldable pub by_columns : CacheTable → String → List Column → List String
by_columns tbl base [] = []
by_columns tbl base (col ∷ cols) = by_column tbl base col ++ by_columns tbl base cols

-- The columns of the primary key that are not selected.
unfoldable pub by_pk : String → List Column → List String → List String
by_pk base cols [] = []
by_pk base cols (pk ∷ pks) =
    let rest = by_pk base cols pks in
    if any (λ col. col.name == pk || col.name == "*") cols then rest else qualified base pk ∷ rest

abbrev by_key : String → List Column → List String → List String
by_key base cols [] = qualified base "rowid" ∷ []
by_key base cols (pk ∷ pks) = by_pk base cols (pk ∷ pks)

abbrev group_by_clause : CacheTable → CustomJoinQuery → String
group_by_clause tbl cjq =
    if any (λ j. not j.flat) cjq.joins
    then "GROUP BY "
      ⊕ join ", " (
          by_columns tbl cjq.base_table cjq.base_columns
          ++ by_key cjq.base_table cjq.base_columns tbl.pk)
      ⊕ " "
    else ""

abbrev cut_or_fail : String → Result String
cut_or_fail sel = if sel == "" then fail "no columns selected" else ok (drop_last (drop_last sel))

module _ (go : GoText) (schema : SchemaCache) (policies : SelectPolicySet) where
  unfoldable pub add_custom_joins :
      List (String × List Column) → List CustomJoin → Built → Result Built
  add_custom_joins columns [] acc = ok acc
  add_custom_joins columns (j ∷ js) acc = search_tbls schema j.table >>= λ tbl.
      join_columns go tbl j (or_else [] (lookup j.alias columns)) >>= λ p.
      add_custom_joins columns js (with_join policies j acc p)

  unfoldable pub build_custom_join_select : CustomJoinQuery → Result CustomSelect
  build_custom_join_select cjq = do
    tbl ← search_tbls schema cjq.base_table
    picked ← each_column (base_column go tbl cjq.base_table) cjq.base_columns
    built ←
        add_custom_joins cjq.joined_columns cjq.joins
          (record { sel = picked.sel; joins = ""; agg_pairs = picked.agg_pairs; policy_args = [] })
    sel ← cut_or_fail built.sel
    ok (record {
      query =
          "SELECT "
          ⊕ sel
          ⊕ " FROM ["
          ⊕ cjq.base_table
          ⊕ "] "
          ⊕ built.joins
          ⊕ where_of (lookup cjq.base_table policies);
      group_by = group_by_clause tbl cjq;
      agg = build_json_aggregation built.agg_pairs;
      args = built.policy_args ++ args_of (lookup cjq.base_table policies);
    })
