-- ===== src/Data/Writes.antt =====
-- api/data/queries.go: the statements of inserts, upserts, updates and deletes, with the arguments
-- that they are sent with. Sending them and encoding the driver's answer are not modelled.
pub mod Columns
pub mod Placeholders
use atomicbase.Prelude.{
  String, Bool, true, false, List, [], ◌∷◌, ◌++◌, Option, none, some, map, ◌==◌, ◌⊕◌, join,
  if◌then◌else◌,
}
use atomicbase.Result.{Error, other_error, Result, ok, err, require, ◌>>=◌, ◌>>◌}
use atomicbase.Tools.Validation.{Unicode, validate_identifier}
use atomicbase.Definitions.Types.{Value, Entries, CompiledPredicate}
use atomicbase.PrimaryStore.Policies.{Json}
use atomicbase.Data.Text.{drop_last}
use atomicbase.Data.Schema.{CacheTable, search_tbls, search_cols}
use atomicbase.Data.Filter.{Clause, fail}
use atomicbase.Data.Where.{build_where_from_json, build_returning_from_json}
use atomicbase.Data.Policy.{
  TenantConnection, Row, compile_policy, append_policy_where, apply_policy_cte,
  build_insert_select_sql,
}

-- `InsertRequest` and `UpsertRequest`
pub record InsertRequest : Type 0 where
  pub rows : List Row
  pub returning : List String

pub record UpdateRequest : Type 0 where
  pub values : Row
  pub conditions : List Entries

pub record DeleteRequest : Type 0 where
  pub conditions : List Entries

abbrev named_error : String → Result (Unit {0}) → Result (Unit {0})
named_error name (err (other_error e)) = err (other_error ("invalid table name " ⊕ name ⊕ ": " ⊕ e))
named_error name r = r

unfoldable pub validate_table_name : Unicode → String → Result (Unit {0})
validate_table_name u name = named_error name (validate_identifier u name)

-- `for col := range req.Data[0]`
unfoldable pub known_columns : CacheTable → Row → Result (List String)
known_columns table [] = ok []
known_columns table ((col, val) ∷ row) =
    search_cols table col >>= λ _. known_columns table row >>= λ cols. ok (col ∷ cols)

abbrev pub first_row : String → List Row → Result Row
first_row verb [] = fail (verb ⊕ " requires at least one row")
first_row verb ([] ∷ rows) = fail (verb ⊕ " rows must have at least one column")
first_row verb ((cell ∷ cells) ∷ rows) = ok (cell ∷ cells)

-- The statement with its RETURNING clause, if there is one, and the membership in front.
abbrev pub finished :
    TenantConnection → CacheTable → List String → CompiledPredicate → Clause → Result Clause
finished dao table returning policy c = build_returning_from_json table returning >>= λ ret.
    ok (
      apply_policy_cte (record { sql = c.sql ⊕ ret; args = c.args }) dao
        policy.needs_membership_cte)

-- "[a] = excluded.[a], ", of which the code then cuts the last two bytes.
unfoldable pub excluded : List String → String
excluded [] = ""
excluded (col ∷ cols) = "[" ⊕ col ⊕ "] = excluded.[" ⊕ col ⊕ "], " ⊕ excluded cols

abbrev pub conflict_target : List String → String
conflict_target [] = " ON CONFLICT(rowid) DO UPDATE SET "
conflict_target (c ∷ cs) =
    " ON CONFLICT(" ⊕ join ", " (map (λ col. "[" ⊕ col ⊕ "]") (c ∷ cs)) ⊕ ") DO UPDATE SET "

abbrev pub upserted : CacheTable → List String → Clause → Clause
upserted table columns c = record {
  sql = drop_last (drop_last (c.sql ⊕ conflict_target table.pk ⊕ excluded columns)) ⊕ " ";
  args = c.args;
}

-- "[a] = ?, [b] = ?"
abbrev pub assignments : Row → List String
assignments row = map (λ cell. "[" ⊕ cell.0 ⊕ "] = ?") row

abbrev pub require_where : Clause → Result (Unit {0})
require_where c = if c.sql == "" then fail "DELETE requires a WHERE clause" else ok tt

abbrev pub require_columns : Row → Result (Unit {0})
require_columns [] = fail "update requires at least one column"
require_columns (cell ∷ cells) = ok tt

abbrev pub update_clause : String → Row → Clause → Clause
update_clause relation values guarded = record {
  sql = "UPDATE [" ⊕ relation ⊕ "] SET " ⊕ join ", " (assignments values) ⊕ " " ⊕ guarded.sql;
  args = map (λ cell. cell.1) values ++ guarded.args;
}

abbrev pub delete_clause : String → Clause → Clause
delete_clause relation guarded = record {
  sql = "DELETE FROM [" ⊕ relation ⊕ "] " ⊕ guarded.sql;
  args = guarded.args;
}

module _ (u : Unicode) (json : Json) (dao : TenantConnection) where
  abbrev inserted :
      String
      → String
      → String
      → InsertRequest
      → (CacheTable → List String → Clause → Clause)
      → Result Clause
  inserted verb prefix relation req more = do
    validate_table_name u relation
    table ← search_tbls dao.schema relation
    row ← first_row verb req.rows
    policy ← compile_policy u json dao relation "insert" (some row)
    columns ← known_columns table row
    finished dao table req.returning policy
        (more table columns (build_insert_select_sql prefix relation columns req.rows policy))

  unfoldable pub insert_json : String → InsertRequest → Result Clause
  insert_json relation req = inserted "insert" "INSERT" relation req (λ table columns c. c)

  unfoldable pub insert_ignore_json : String → InsertRequest → Result Clause
  insert_ignore_json relation req =
      inserted "insert" "INSERT OR IGNORE" relation req (λ table columns c. c)

  unfoldable pub upsert_json : String → InsertRequest → Result Clause
  unfolding excluded
  upsert_json relation req = inserted "upsert" "INSERT" relation req upserted

  unfoldable pub update_json : String → UpdateRequest → Result Clause
  update_json relation req = do
    validate_table_name u relation
    table ← search_tbls dao.schema relation
    require_columns req.values
    columns ← known_columns table req.values
    found ← build_where_from_json dao.schema table req.conditions
    require_where found
    policy ← compile_policy u json dao relation "update" (some req.values)
    ok (
        apply_policy_cte (update_clause relation req.values (append_policy_where found policy)) dao
          policy.needs_membership_cte)

  unfoldable pub delete_json : String → DeleteRequest → Result Clause
  delete_json relation req = do
    validate_table_name u relation
    table ← search_tbls dao.schema relation
    found ← build_where_from_json dao.schema table req.conditions
    require_where found
    policy ← compile_policy u json dao relation "delete" none
    ok (
        apply_policy_cte (delete_clause relation (append_policy_where found policy)) dao
          policy.needs_membership_cte)
