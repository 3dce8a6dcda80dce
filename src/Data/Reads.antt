-- ===== src/Data/Reads.antt =====
-- api/data/select_policy.go and queries.go: the statements of a select, with their arguments.
pub mod Coverage
pub mod Placeholders
use atomicbase.Prelude.{
  ℕ, ℤ, pos, negsuc, String, Bool, true, false, not, ◌&&◌, ◌||◌, List, [], ◌∷◌, ◌++◌, Option, none,
  some, map, ◌==◌, ◌⊕◌, any, eqb, ltb, is_some, if◌then◌else◌,
}
use atomicbase.Result.{Result, ok, err, ◌>>=◌, ◌>>◌}
use atomicbase.Tools.Validation.{Unicode}
use atomicbase.Definitions.Types.{Value, Values, Entries, CompiledPredicate}
use atomicbase.Platform.Schema.{lookup, put}
use atomicbase.PrimaryStore.Policies.{Json}
use atomicbase.Data.Text.{GoText, contains}
use atomicbase.Data.Schema.{CacheTable, search_tbls}
use atomicbase.Data.Filter.{Clause}
use atomicbase.Data.Where.{build_where_from_json, build_order_from_json}
use atomicbase.Data.Policy.{TenantConnection, compile_policy, apply_policy_cte}
use atomicbase.Data.Writes.{validate_table_name}
use atomicbase.Data.Relation.{
  Relation, relation, Relations, no_relation, relations, parse_select_from_json,
}
use atomicbase.Data.Select.{build_select}
use atomicbase.Data.Columns.{SelectPolicySet}
use atomicbase.Data.CustomJoin.{JoinClause, CustomJoin, CustomJoinQuery, parse_custom_join_query}
use atomicbase.Data.CustomJoin.Build.{build_custom_join_select}

-- `config.Cfg`, as far as selects read it.
pub record Config : Type 0 where
  pub max_query_depth : ℕ
  pub default_limit : ℕ
  pub max_query_limit : ℕ

pub record SelectQuery : Type 0 where
  pub select : Values
  pub join : List JoinClause
  pub conditions : List Entries
  pub order : List (String × String)
  pub limit : Option ℤ
  pub offset : Option ℤ

-- `limit`, with the default and the bound of the configuration.
abbrev pub bounded : Config → ℕ → ℕ
bounded config limit =
    if ltb 0 config.max_query_limit && (ltb config.max_query_limit limit || eqb limit 0)
    then config.max_query_limit
    else limit

abbrev pub requested : ℕ → Option ℤ → ℕ
requested default (some (pos n)) = n
requested default (some (negsuc n)) = default
requested default none = default

unfoldable pub limit_of : Config → Option ℤ → ℕ
limit_of config limit = bounded config (requested config.default_limit limit)

abbrev clause_if_positive : GoText → String → ℕ → String
clause_if_positive go keyword n = if ltb 0 n then keyword ⊕ go.itoa n ⊕ " " else ""

unfoldable pub page : GoText → Config → SelectQuery → String
page go config query =
    clause_if_positive go "LIMIT " (limit_of config query.limit)
    ⊕ clause_if_positive go "OFFSET " (requested 0 query.offset)

-- What the two ways of building a SELECT give: `sqlQuery`, `groupBy`, `agg` and `policyArgs`.
pub record Base : Type 0 where
  pub sql_query : String
  pub group_by : String
  pub agg : String
  pub policy_args : List Value

-- The statements of a select: the count, if it is asked for, and the rows.
pub record Select : Type 0 where
  pub count : Option Clause
  pub rows : Clause

module _ (u : Unicode) (json : Json) (dao : TenantConnection) where
  -- `if !seen[curr.name]`: a table is seen once it has a policy.
  unfoldable pub compile_once : String → SelectPolicySet → Result SelectPolicySet
  compile_once name policies =
      if is_some (lookup name policies)
      then ok policies
      else (compile_policy u json dao name "select" none >>= λ p. ok (put name p policies))

  unfoldable mutual
    pub walk : Relation → SelectPolicySet → Result SelectPolicySet
    walk (relation name alias inner columns joins) policies =
        compile_once name policies >>= λ next. walk_joins joins next

    pub walk_joins : Relations → SelectPolicySet → Result SelectPolicySet
    walk_joins no_relation policies = ok policies
    walk_joins (relations r rs) policies = walk r policies >>= λ next. walk_joins rs next

  abbrev pub compile_select_policies : Relation → Result SelectPolicySet
  compile_select_policies rel = walk rel []

  -- `for table := range tables`: the order is not fixed, and does not matter to the set.
  unfoldable pub compile_tables : List String → SelectPolicySet → Result SelectPolicySet
  unfolding compile_once
  compile_tables [] policies = ok policies
  compile_tables (table ∷ tables) policies =
      compile_once table policies >>= λ next. compile_tables tables next

  abbrev pub compile_custom_join_policies : CustomJoinQuery → Result SelectPolicySet
  compile_custom_join_policies cjq =
      compile_tables (cjq.base_table ∷ map (λ j. j.table) cjq.joins) []

  abbrev pub fk_base : GoText → Config → String → SelectQuery → Result Base
  fk_base go config table query = parse_select_from_json query.select table >>= λ rel.
      compile_select_policies rel >>= λ policies.
      build_select u go dao.schema policies config.max_query_depth rel >>= λ q.
      ok (record { sql_query = q.query; group_by = ""; agg = q.agg; policy_args = q.args })

  abbrev pub custom_base : GoText → String → SelectQuery → Result Base
  custom_base go table query =
      parse_custom_join_query dao.schema table query.select query.join >>= λ cjq.
      compile_custom_join_policies cjq >>= λ policies.
      build_custom_join_select go dao.schema policies cjq >>= λ q.
      ok (record { sql_query = q.query; group_by = q.group_by; agg = q.agg; policy_args = q.args })

  abbrev pub base_of : GoText → Config → String → SelectQuery → List JoinClause → Result Base
  base_of go config table query [] = fk_base go config table query
  base_of go config table query (j ∷ js) = custom_base go table query

  -- `applyPolicyCTE` with the test on the text.
  abbrev pub with_membership : Clause → Clause
  with_membership c = apply_policy_cte c dao (contains c.sql "__ab_membership")

  abbrev pub count_clause : Bool → String → List Value → Option Clause
  count_clause false base_query args = none
  count_clause true base_query args =
      some (
        with_membership (record { sql = "SELECT COUNT(*) FROM (" ⊕ base_query ⊕ ")"; args = args }))

  abbrev pub rows_clause : String → String → List Value → Clause
  rows_clause agg base_query args = with_membership (record {
    sql = "SELECT json_group_array(" ⊕ agg ⊕ ") AS data FROM (" ⊕ base_query ⊕ ")";
    args = args;
  })

  abbrev pub statements : Bool → Base → Clause → String → String → Select
  statements include_count base found order paging =
      let base_query = base.sql_query ⊕ found.sql ⊕ base.group_by in
      let args = found.args ++ base.policy_args in
      record {
        count = count_clause include_count base_query args;
        rows = rows_clause base.agg (base_query ⊕ order ⊕ paging) args;
      }

  unfoldable pub select_json : GoText → Config → String → SelectQuery → Bool → Result Select
  select_json go config table query include_count = do
    validate_table_name u table
    tbl ← search_tbls dao.schema table
    base ← base_of go config table query query.join
    found ← build_where_from_json dao.schema tbl query.conditions
    order ← build_order_from_json go tbl query.order
    ok (statements include_count base found order (page go config query))
