-- ===== src/Data/Filter.antt =====
-- api/data/query_json.go: filters, orderings and RETURNING clauses become SQL.
pub mod Texts
pub mod Placeholders
use atomicbase.Prelude.{
  ℕ, suc, ◌+◌, String, Bool, true, false, not, ◌&&◌, ◌||◌, List, [], ◌∷◌, ◌++◌, Option, none, some,
  ◌==◌, ◌⊕◌, length, split_dot, join, ltb, eqb, if◌then◌else◌,
}
use atomicbase.Result.{Result, ok, err, other_error, require, ◌>>=◌, ◌>>◌}
use atomicbase.Definitions.Types.{
  Value, Values, null, bool, str, other, arr, obj, Entries, no_entry, entry, items, sprint,
}
use atomicbase.Data.Schema.{CacheTable, SchemaCache, ok_or, search_tbls, search_cols, has_fts_index}

-- A text and its arguments, which the builders return.
pub record Clause : Type 0 where
  pub sql : String
  pub args : List Value

abbrev pub no_clause : Clause
no_clause = record { sql = ""; args = [] }

abbrev pub clause : String → List Value → Result Clause
clause sql args = ok (record { sql = sql; args = args })

abbrev pub fail {ℓ} : {A : Type ℓ} → String → Result A
fail message = err (other_error message)

abbrev pub max_in_array_size : ℕ
max_in_array_size = 100

-- `m[key]`
unfoldable pub entry_of : String → Entries → Option Value
entry_of key no_entry = none
entry_of key (entry k v es) = let later = entry_of key es in if k == key then some v else later

abbrev pub as_array : String → Value → Result (List Value)
as_array message (arr vs) = ok (items vs)
as_array message _ = fail message

abbrev pub as_object : String → Value → Result Entries
as_object message (obj text es) = ok es
as_object message _ = fail message

unfoldable pub op_to_sql : String → String
op_to_sql op =
    if op == "eq"
    then "="
    else if op == "neq"
    then "!="
    else if op == "gt"
    then ">"
    else if op == "gte"
    then ">="
    else if op == "lt"
    then "<"
    else if op == "lte"
    then "<="
    else "="

-- "[table].[column]"
unfoldable pub qualified : String → String → String
qualified table column = "[" ⊕ table ⊕ "].[" ⊕ column ⊕ "]"

abbrev pub text_of : Option Value → Option String
text_of (some (str s)) = some s
text_of _ = none

unfoldable pub is_column_ref : Value → Option String
unfolding entry_of
is_column_ref (obj text es) = text_of (entry_of "__col" es)
is_column_ref _ = none

-- One "?" for each element.
unfoldable pub question_marks : List Value → List String
question_marks [] = []
question_marks (v ∷ vs) = "?" ∷ question_marks vs

abbrev pub in_list : String → String → List Value → Result Clause
in_list column keyword array = do
  require (not (eqb (length array) 0)) (other_error "in array cannot be empty")
  require (not (ltb max_in_array_size (length array))) (other_error "IN array exceeds maximum size")
  clause (column ⊕ " " ⊕ keyword ⊕ " (" ⊕ join ", " (question_marks array) ⊕ ") ") array

abbrev pub is_value : String → String → Value → Result Clause
is_value column keyword null = clause (column ⊕ " " ⊕ keyword ⊕ " NULL ") []
is_value column keyword val = clause (column ⊕ " " ⊕ keyword ⊕ " " ⊕ sprint val ⊕ " ") []

-- `column OP ?` with its one argument
abbrev pub compared_to : String → String → Value → Result Clause
compared_to column op val = clause (column ⊕ " " ⊕ op ⊕ " ? ") (val ∷ [])

-- The "rowid IN (...)" of a full-text search.
unfoldable pub matches : String → String → String
matches fts_table column =
    "rowid IN (SELECT rowid FROM [" ⊕ fts_table ⊕ "] WHERE [" ⊕ column ⊕ "] MATCH ?) "

abbrev pub fts_suffix : String
fts_suffix = "_fts"

abbrev pub between : String → List Value → Result Clause
between column array =
    require (eqb (length array) 2)
      (other_error "between value must be an array of exactly 2 elements")
    >> clause (column ⊕ " BETWEEN ? AND ? ") array

abbrev pub require_index : SchemaCache → String → Result (Unit {0})
require_index schema table =
    require (has_fts_index schema table) (other_error ("no FTS index exists for table: " ⊕ table))

-- The `switch op` of buildNotFilterClauseWithTable.
unfoldable pub not_operator : String → String → Value → Result Clause
not_operator column op val =
    if op == "eq"
    then compared_to column "!=" val
    else if op == "in"
    then as_array "in value must be an array" val >>= in_list column "NOT IN"
    else if op == "is"
    then is_value column "IS NOT" val
    else if op == "like"
    then compared_to column "NOT LIKE" val
    else if op == "glob"
    then compared_to column "NOT GLOB" val
    else fail ("invalid filter operator: not." ⊕ op)

-- The loop returns in its first round.
unfoldable pub build_not_filter_clause_with_table : String → String → Entries → Result Clause
build_not_filter_clause_with_table table col no_entry = ok no_clause
build_not_filter_clause_with_table table col (entry op val rest) =
    not_operator (qualified table col) op val

-- The `switch op` of buildFilterClause.
unfoldable pub operator : SchemaCache → String → String → String → Value → Result Clause
operator schema table col op val =
    let column = qualified table col in
    if op == "eq"
    then compared_to column "=" val
    else if op == "neq"
    then compared_to column "!=" val
    else if op == "gt"
    then compared_to column ">" val
    else if op == "gte"
    then compared_to column ">=" val
    else if op == "lt"
    then compared_to column "<" val
    else if op == "lte"
    then compared_to column "<=" val
    else if op == "like"
    then compared_to column "LIKE" val
    else if op == "glob"
    then compared_to column "GLOB" val
    else if op == "is"
    then is_value column "IS" val
    else if op == "in"
    then as_array "in value must be an array" val >>= in_list column "IN"
    else if op == "between"
    then as_array "between value must be an array of exactly 2 elements" val >>= between column
    else if op == "fts"
    then require_index schema table >> clause (matches (table ⊕ fts_suffix) col) (val ∷ [])
    else fail ("invalid filter operator: " ⊕ op)

-- `tableName` and `colName`, both found in the schema; the parts are those around the first dot.
abbrev pub resolve_parts :
    SchemaCache → CacheTable → String → Option (String × String) → Result (String × String)
resolve_parts schema table column none = search_cols table column >>= λ _. ok (table.name, column)
resolve_parts schema table column (some (table_name, col_name)) =
    search_tbls schema table_name >>= λ tbl.
    search_cols tbl col_name >>= λ _. ok (table_name, col_name)

unfoldable pub resolve_column : SchemaCache → CacheTable → String → Result (String × String)
resolve_column schema table column = resolve_parts schema table column (split_dot column)

abbrev pub column_ref : CacheTable → String → String → String → String → Result Clause
column_ref table table_name col_name op ref = search_cols table ref >>= λ _.
    clause
      (qualified table_name col_name ⊕ " " ⊕ op_to_sql op ⊕ " " ⊕ qualified table.name ref ⊕ " ") []

-- One round of the loop over the operators, which returns.
abbrev pub operator_or_ref :
    SchemaCache → CacheTable → String → String → String → Value → Option String → Result Clause
operator_or_ref schema table table_name col_name op val none =
    operator schema table_name col_name op val
operator_or_ref schema table table_name col_name op val (some ref) =
    column_ref table table_name col_name op ref

unfoldable pub first_operator : SchemaCache → CacheTable → String → String → Entries → Result Clause
first_operator schema table table_name col_name no_entry = ok no_clause
first_operator schema table table_name col_name (entry op val rest) =
    operator_or_ref schema table table_name col_name op val (is_column_ref val)

abbrev pub not_or_operator :
    SchemaCache → CacheTable → Entries → String → String → Option Value → Result Clause
not_or_operator schema table filter table_name col_name (some negated) =
    as_object "not value must be an object" negated >>= λ es.
    build_not_filter_clause_with_table table_name col_name es
not_or_operator schema table filter table_name col_name none =
    first_operator schema table table_name col_name filter

unfoldable pub build_filter_clause : SchemaCache → CacheTable → String → Entries → Result Clause
build_filter_clause schema table column filter = resolve_column schema table column >>= λ names.
    not_or_operator schema table filter names.0 names.1 (entry_of "not" filter)
