-- ===== src/Data/Select.antt =====
-- api/data/build_query.go: a tree of tables becomes a SELECT over nested subqueries.
pub mod Columns
pub mod Group
pub mod Placeholders
pub mod Typed
use atomicbase.Prelude.{
  ℕ, String, Bool, true, false, not, ◌&&◌, List, [], ◌∷◌, ◌++◌, Option, none, some, ◌==◌, ◌⊕◌, ltb,
  double_quotes, if◌then◌else◌,
}
use atomicbase.Result.{Error, other_error, Result, ok, err, require, ◌>>=◌, ◌>>◌}
use atomicbase.Tools.Validation.{Unicode, validate_identifier}
use atomicbase.Definitions.Types.{Value, CompiledPredicate}
use atomicbase.Platform.Schema.{lookup, or_else}
use atomicbase.Data.Text.{GoText, drop_last}
use atomicbase.Data.Schema.{CacheTable, CacheFk, SchemaCache, search_tbls, search_cols, search_fks}
use atomicbase.Data.Filter.{fail, qualified}
use atomicbase.Data.Relation.{
  Column, all_columns, Relation, relation, Relations, no_relation, relations, name_of,
  relation_depth,
}
use atomicbase.Data.Aggregation.{build_json_aggregation}
use atomicbase.Data.Columns.{
  Picked, SelectPolicySet, find_foreign_key, is_no_fk, key_of, pair, pick_columns,
}

-- The loop variables of the loop over `rel.joins`.
pub record Built : Type 0 where
  pub sel : String
  pub joins : String
  pub agg_pairs : List String
  pub policy_args : List Value

abbrev pub built_from : Picked → String → Built
built_from p more = record {
  sel = p.sel ⊕ more;
  joins = "";
  agg_pairs = p.agg_pairs;
  policy_args = [];
}

-- The text, the JSON expression and the arguments of a subquery.
pub record Subquery : Type 0 where
  pub query : String
  pub agg : String
  pub args : List Value

abbrev pub join_keyword : Bool → String
join_keyword inner = if inner then "INNER " else "LEFT "

-- What a add_join table adds.
abbrev pub add_join : String → Bool → String → CacheFk → Subquery → Built → Built
add_join name inner key fk q acc = record {
  sel =
      acc.sel
      ⊕ "json_group_array("
      ⊕ q.agg
      ⊕ ") FILTER (WHERE "
      ⊕ qualified fk.table fk.from
      ⊕ " IS NOT NULL) AS ["
      ⊕ name
      ⊕ "], ";
  joins =
      acc.joins
      ⊕ join_keyword inner
      ⊕ "JOIN ("
      ⊕ q.query
      ⊕ ") AS ["
      ⊕ name
      ⊕ "] ON "
      ⊕ qualified fk.references fk.to
      ⊕ " = "
      ⊕ qualified fk.table fk.from
      ⊕ " ";
  agg_pairs = acc.agg_pairs ++ pair key ("json([" ⊕ name ⊕ "])") ∷ [];
  policy_args = acc.policy_args ++ q.args;
}

abbrev pub require_fk : String → String → CacheFk → Result (Unit {0})
require_fk parent name fk =
    require (not (is_no_fk fk))
      (other_error ("no relationship exists between tables: " ⊕ parent ⊕ " and " ⊕ name))

-- sel[:len(sel)-2], which panics without a column.
abbrev pub cut : String → Result String
cut sel = if sel == "" then fail "slice bounds out of range" else ok (drop_last (drop_last sel))

abbrev pub where_of : Option CompiledPredicate → String
where_of none = ""
where_of (some p) = if p.sql == "" then "" else "WHERE " ⊕ p.sql ⊕ " "

abbrev pub args_of : Option CompiledPredicate → List Value
args_of none = []
args_of (some p) = if p.sql == "" then [] else p.args

-- The text from SELECT to the policy's WHERE, with the arguments.
unfoldable pub select_from : SelectPolicySet → String → Built → Result Subquery
select_from policies name built = cut built.sel >>= λ sel. ok (record {
  query = "SELECT " ⊕ sel ⊕ " FROM [" ⊕ name ⊕ "] " ⊕ built.joins ⊕ where_of (lookup name policies);
  agg = build_json_aggregation built.agg_pairs;
  args = built.policy_args ++ args_of (lookup name policies);
})

-- `rel.columns == nil && rel.joins == nil`
abbrev pub or_all_columns : List Column → Relations → List Column
or_all_columns [] no_relation = all_columns
or_all_columns columns joins = columns

abbrev pub includes : String → List Column → Bool
includes name [] = false
includes name (col ∷ cols) = if name == col.name then true else includes name cols

-- `if !includesFk && fk.Table != ""`; `fk` is the key to `joined_on`.
abbrev pub fk_column : CacheFk → String → List Column → String
fk_column fk name columns =
    if not (fk.table == "") && not (fk.table == name && includes fk.from columns)
    then qualified fk.table fk.from ⊕ ", "
    else ""

-- "[table].[column], " for every type of the table's columns: the loop's variable is the type.
unfoldable pub types_of : String → List (String × String) → String
types_of name [] = ""
types_of name ((c, t) ∷ cols) = qualified name t ⊕ ", " ⊕ types_of name cols

abbrev pub group_column : CacheTable → String → Column → String
group_column tbl name col =
    if not (col.name == "*") then qualified name col.name ⊕ ", " else types_of name tbl.columns

unfoldable pub group_columns : CacheTable → String → List Column → String
unfolding types_of
group_columns tbl name [] = ""
group_columns tbl name (col ∷ cols) = group_column tbl name col ⊕ group_columns tbl name cols

unfoldable pub group_pk : String → List String → String
group_pk name [] = ""
group_pk name (col ∷ cols) = qualified name col ⊕ ", " ⊕ group_pk name cols

abbrev pub group_key : String → List String → String
group_key name [] = qualified name "rowid" ⊕ ", "
group_key name (col ∷ cols) = group_pk name (col ∷ cols)

abbrev pub group_by : CacheTable → String → List Column → Relations → String
group_by tbl name columns no_relation = ""
group_by tbl name columns (relations r rs) =
    "GROUP BY "
    ⊕ drop_last (drop_last (group_columns tbl name columns ⊕ group_key name tbl.pk))
    ⊕ " "

abbrev pub require_depth : ℕ → Relation → Result (Unit {0})
require_depth max_depth rel =
    require (not (ltb max_depth (relation_depth rel)))
      (other_error "query nesting exceeds maximum depth")

abbrev pub grouped : String → Subquery → Subquery
grouped group q = record q { query = q.query ⊕ group }

module _ (u : Unicode) (go : GoText) (schema : SchemaCache) (policies : SelectPolicySet) where
  -- `joined_on` is never empty: only a table's name is passed.
  unfoldable mutual
    pub build_sel_curr : Relation → String → Result Subquery
    build_sel_curr (relation name alias inner columns joins) joined_on =
        search_tbls schema name >>= λ tbl.
        pick_columns u go (qualified name) tbl name (or_all_columns columns joins)
          (record { sel = ""; agg_pairs = [] })
        >>= λ picked.
            add_joins name joins (
              built_from picked (
                fk_column (find_foreign_key schema name joined_on) name
                  (or_all_columns columns joins)))
            >>= λ built. select_from policies name built

    pub add_joins : String → Relations → Built → Result Built
    add_joins parent no_relation acc = ok acc
    add_joins parent (relations (relation name alias inner columns joins) rs) acc =
        key_of u alias name >>= λ key.
        build_sel_curr (relation name alias inner columns joins) parent >>= λ q.
        require_fk parent name (find_foreign_key schema name parent)
        >> add_joins parent rs (add_join name inner key (find_foreign_key schema name parent) q acc)

  -- The first number is `config.Cfg.MaxQueryDepth`.
  unfoldable pub build_select : ℕ → Relation → Result Subquery
  build_select max_depth (relation name alias inner columns joins) = do
    require_depth max_depth (relation name alias inner columns joins)
    tbl ← search_tbls schema name
    picked ←
        pick_columns u go (λ c. "[" ⊕ c ⊕ "]") tbl name (or_all_columns columns joins)
          (record { sel = ""; agg_pairs = [] })
    built ← add_joins name joins (built_from picked "")
    q ← select_from policies name built
    ok (grouped (group_by tbl name (or_all_columns columns joins) joins) q)
