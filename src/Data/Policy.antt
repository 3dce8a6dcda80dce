-- ===== src/Data/Policy.antt =====
-- api/data/policy.go, policy_sql.go, insert_policy.go and select_policy.go: access policies become
-- parts of statements.
pub mod Placeholders
use atomicbase.Prelude.{
  ℕ, String, Bool, true, false, not, ◌&&◌, ◌||◌, List, [], ◌∷◌, ◌++◌, Option, none, some, ◌==◌, ◌⊕◌,
  any, eqb, join, length, repeat, if◌then◌else◌,
}
use atomicbase.Result.{Result, ok, err, ◌>>=◌}
use atomicbase.Tools.Validation.{Unicode}
use atomicbase.Definitions.Types.{Value, null, str, Principal, AccessPolicy, CompiledPredicate}
use atomicbase.Definitions.Compiler.{compile, passed}
use atomicbase.Definitions.Compiler.Leaf.{CompileInput}
use atomicbase.Platform.Schema.{lookup, or_else}
use atomicbase.PrimaryStore.Policies.{AccessPolicyRow, Json, load_access_policy}
use atomicbase.Data.Text.{trim_right_cutset, drop_last}
use atomicbase.Data.Schema.{SchemaCache}
use atomicbase.Data.Filter.{Clause}

-- `TenantConnection`, without the database's driver; `primary_store` is `none` for nil, and else the
-- rows of atombase_access_policies.
pub record TenantConnection : Type 0 where
  pub schema : SchemaCache
  pub name : String
  pub id : String
  pub definition_id : ℕ
  pub definition_type : String
  pub schema_version : ℕ
  pub database_version : ℕ
  pub principal : Principal
  pub primary_store : Option (List AccessPolicyRow)

-- A row of a request: Go's map, in the order in which a `range` meets its columns.
abbrev pub Row : Type 0
Row = List (String × Value)

abbrev pub input_of : TenantConnection → String → String → Option Row → CompileInput
input_of dao table operation values = record {
  principal = dao.principal;
  target = record {
    database_id = dao.id;
    definition_id = dao.definition_id;
    definition_name = "";
    definition_type = dao.definition_type;
    definition_version = dao.database_version;
    auth_token = "";
  };
  table = table;
  operation = operation;
  new_values = values;
}

abbrev pub compile_stored :
    Unicode
    → Json
    → TenantConnection
    → String
    → String
    → Option Row
    → Option (List AccessPolicyRow)
    → Result CompiledPredicate
compile_stored u json dao table operation values none = ok passed
compile_stored u json dao table operation values (some rows) =
    load_access_policy json rows dao.definition_id dao.database_version table operation
    >>= λ policy. compile u policy (input_of dao table operation values)

unfoldable pub compile_policy :
    Unicode → Json → TenantConnection → String → String → Option Row → Result CompiledPredicate
compile_policy u json dao table operation values =
    if eqb dao.definition_id 0
    then ok passed
    else compile_stored u json dao table operation values dao.primary_store

unfoldable pub append_policy_where : Clause → CompiledPredicate → Clause
append_policy_where c policy =
    if policy.sql == ""
    then c
    else if c.sql == ""
    then record { sql = "WHERE " ⊕ policy.sql ⊕ " "; args = c.args ++ policy.args }
    else record { sql = c.sql ⊕ "AND " ⊕ policy.sql ⊕ " "; args = c.args ++ policy.args }

abbrev pub membership_cte : String
membership_cte =
    "WITH __ab_membership AS (SELECT user_id, role, status FROM atombase_membership WHERE user_id = ?) "

unfoldable pub apply_policy_cte : Clause → TenantConnection → Bool → Clause
apply_policy_cte c dao needs_membership =
    if not needs_membership || not (dao.definition_type == "organization")
    then c
    else record { sql = membership_cte ⊕ c.sql; args = str dao.principal.user_id ∷ c.args }

-- `for _, col := range columns`: the arguments of a row, and nil for a column that it lacks.
unfoldable pub row_args : List String → Row → List Value
row_args [] row = []
row_args (col ∷ cols) row = or_else null (lookup col row) ∷ row_args cols row

-- strings.TrimRight(strings.Repeat("?, ", n), ", ")
unfoldable pub row_placeholders : ℕ → String
row_placeholders n = trim_right_cutset ", " (repeat "?, " n)

abbrev pub row_select : List String → CompiledPredicate → String
row_select columns policy =
    let select_sql = "SELECT " ⊕ row_placeholders (length columns) in
    if policy.sql == "" then select_sql else select_sql ⊕ " WHERE " ⊕ policy.sql

abbrev pub predicate_args : CompiledPredicate → List Value
predicate_args policy = if policy.sql == "" then [] else policy.args

-- `for _, row := range rows`, with the loop variables `selects` and `args`
unfoldable pub row_selects : List String → CompiledPredicate → List Row → List String
row_selects columns policy [] = []
row_selects columns policy (row ∷ rows) =
    row_select columns policy ∷ row_selects columns policy rows

unfoldable pub rows_args : List String → CompiledPredicate → List Row → List Value
unfolding row_args
rows_args columns policy [] = []
rows_args columns policy (row ∷ rows) =
    row_args columns row ++ predicate_args policy ++ rows_args columns policy rows

-- "[a], [b], ", of which the code then cuts the last two bytes.
unfoldable pub column_list : List String → String
column_list [] = ""
column_list (col ∷ cols) = "[" ⊕ col ⊕ "], " ⊕ column_list cols

unfoldable pub build_insert_select_sql :
    String → String → List String → List Row → CompiledPredicate → Clause
unfolding column_list
build_insert_select_sql prefix relation columns rows policy = record {
  sql =
      drop_last (drop_last (prefix ⊕ " INTO [" ⊕ relation ⊕ "] (" ⊕ column_list columns))
      ⊕ ") "
      ⊕ join " UNION ALL " (row_selects columns policy rows)
      ⊕ " ";
  args = rows_args columns policy rows;
}
