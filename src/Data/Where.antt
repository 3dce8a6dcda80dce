-- ===== src/Data/Where.antt =====
-- api/data/query_json.go: the WHERE, ORDER BY and RETURNING clauses of a request.
pub mod Placeholders
pub mod Conjunction
use atomicbase.Prelude.{
  String, Bool, true, false, List, [], ◌∷◌, ◌++◌, Option, none, some, ◌==◌, ◌⊕◌, join,
  if◌then◌else◌,
}
use atomicbase.Result.{Result, ok, err, other_error, ◌>>=◌, ◌>>◌}
use atomicbase.Definitions.Types.{Value, str, obj, Entries, no_entry, entry}
use atomicbase.Data.Text.{GoText, trim_suffix_of}
use atomicbase.Data.Schema.{CacheTable, SchemaCache, ok_or, search_cols}
use atomicbase.Data.Filter.{
  Clause, no_clause, clause, fail, as_array, as_object, entry_of, matches, fts_suffix,
  require_index, build_filter_clause,
}

-- The loop variables of buildOrClause.
pub record Alternatives : Type 0 where
  pub parts : List String
  pub args : List Value

abbrev pub add_alternative : Clause → Alternatives → Alternatives
add_alternative c acc = record {
  parts = acc.parts ++ trim_suffix_of b' ' c.sql ∷ [];
  args = acc.args ++ c.args;
}

-- `for col, filter := range condMap`
unfoldable pub add_filters : SchemaCache → CacheTable → Entries → Alternatives → Result Alternatives
add_filters schema table no_entry acc = ok acc
add_filters schema table (entry col filter rest) acc =
    as_object "filter must be an object" filter >>= build_filter_clause schema table col >>= λ c.
    add_filters schema table rest (add_alternative c acc)

unfoldable pub add_or_conditions :
    SchemaCache → CacheTable → List Value → Alternatives → Result Alternatives
add_or_conditions schema table [] acc = ok acc
add_or_conditions schema table (c ∷ cs) acc =
    as_object "or condition must be an object" c
    >>= (λ es. add_filters schema table es acc)
    >>= add_or_conditions schema table cs

unfoldable pub build_or_clause : SchemaCache → CacheTable → List Value → Result Clause
build_or_clause schema table conditions =
    add_or_conditions schema table conditions (record { parts = []; args = [] }) >>= λ acc.
    clause (join " OR " acc.parts) acc.args

-- The three kinds of members of a condition, each with the text it adds.
abbrev pub or_member : SchemaCache → CacheTable → Value → Result Clause
or_member schema table value =
    as_array "or value must be an array" value >>= build_or_clause schema table >>= λ c.
    clause ("(" ⊕ c.sql ⊕ ") ") c.args

abbrev pub fts_member : SchemaCache → CacheTable → Value → Result Clause
fts_member schema table value = as_object "__fts value must be an object" value >>= λ es.
    ok_or "__fts requires fts operator" (entry_of "fts" es) >>= λ search.
    require_index schema table.name
    >> clause (matches (table.name ⊕ fts_suffix) (table.name ⊕ fts_suffix)) (search ∷ [])

unfoldable pub member_clause : SchemaCache → CacheTable → String → Value → Result Clause
member_clause schema table key value =
    if key == "or"
    then or_member schema table value
    else if key == "__fts"
    then fts_member schema table value
    else (as_object ("filter for column " ⊕ key ⊕ " must be an object") value
        >>= build_filter_clause schema table key)

-- The loop variables of BuildWhereFromJSON.
pub record Query : Type 0 where
  pub query : String
  pub args : List Value
  pub first : Bool

abbrev pub and_clause : Query → Clause → Query
and_clause q c = record {
  query = (if q.first then q.query else q.query ⊕ "AND ") ⊕ c.sql;
  args = q.args ++ c.args;
  first = false;
}

-- `for key, value := range condition`
unfoldable pub add_members : SchemaCache → CacheTable → Entries → Query → Result Query
add_members schema table no_entry q = ok q
add_members schema table (entry key value rest) q =
    member_clause schema table key value >>= λ c. add_members schema table rest (and_clause q c)

-- `for _, condition := range where`
unfoldable pub add_conditions : SchemaCache → CacheTable → List Entries → Query → Result Query
add_conditions schema table [] q = ok q
add_conditions schema table (c ∷ cs) q =
    add_members schema table c q >>= add_conditions schema table cs

unfoldable pub build_where_from_json : SchemaCache → CacheTable → List Entries → Result Clause
build_where_from_json schema table [] = ok no_clause
build_where_from_json schema table (c ∷ cs) =
    add_conditions schema table (c ∷ cs) (record { query = "WHERE "; args = []; first = true })
    >>= λ q. clause q.query q.args

-- "ASC", "DESC" or the error.
unfoldable pub direction : GoText → String → Result String
direction go dir =
    if go.to_lower dir == "asc"
    then ok "ASC"
    else if go.to_lower dir == "desc"
    then ok "DESC"
    else fail ("invalid order direction: " ⊕ dir)

abbrev pub separator : Bool → String
separator true = ""
separator false = ", "

-- `for col, dir := range order`, with `query` and `first`
unfoldable pub add_orders :
    GoText → CacheTable → List (String × String) → String → Bool → Result String
add_orders go table [] query first = ok query
add_orders go table ((col, dir) ∷ rest) query first = search_cols table col >>= λ _.
    direction go dir >>= λ d.
    add_orders go table rest (query ⊕ separator first ⊕ "[" ⊕ table.name ⊕ "].[" ⊕ col ⊕ "] " ⊕ d)
      false

unfoldable pub build_order_from_json : GoText → CacheTable → List (String × String) → Result String
build_order_from_json go table [] = ok ""
build_order_from_json go table (o ∷ os) =
    add_orders go table (o ∷ os) "ORDER BY " true >>= λ query. ok (query ⊕ " ")

-- The loop over the columns; `first` is `i == 0`.
unfoldable pub add_returning : CacheTable → List String → String → Bool → Result String
add_returning table [] query first = ok query
add_returning table (col ∷ cols) query first = search_cols table col >>= λ _.
    add_returning table cols (query ⊕ separator first ⊕ "[" ⊕ col ⊕ "]") false

abbrev returning_columns : CacheTable → List String → Result String
returning_columns table cols =
    add_returning table cols "RETURNING " true >>= λ query. ok (query ⊕ " ")

unfoldable pub build_returning_from_json : CacheTable → List String → Result String
build_returning_from_json table [] = ok ""
build_returning_from_json table (col ∷ []) =
    if col == "*" then ok "RETURNING * " else returning_columns table (col ∷ [])
build_returning_from_json table (c ∷ d ∷ cols) = returning_columns table (c ∷ d ∷ cols)
