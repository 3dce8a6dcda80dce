-- ===== src/Data/Schema.antt =====
-- api/data/types.go, schema.go and schema_cache.go: the cached schema that requests are checked
-- against.
use atomicbase.Prelude.{
  String, Bool, List, [], ◌∷◌, ◌++◌, Option, none, some, ◌==◌, ◌⊕◌, any, find?, split_dot,
  if◌then◌else◌,
}
use atomicbase.Result.{Result, ok, err, other_error}
use atomicbase.Platform.Schema.{Table, Col, lookup, put, or_else}

pub record CacheFk : Type 0 where
  pub table : String
  pub references : String
  pub from : String
  pub to : String

-- `columns` maps a name to its type. This map and those of `SchemaCache` are lists of pairs, in the
-- order in which a `range` meets them.
pub record CacheTable : Type 0 where
  pub name : String
  pub pk : List String
  pub columns : List (String × String)

-- `fts_tables` lists the names that map to true.
pub record SchemaCache : Type 0 where
  pub tables : List (String × CacheTable)
  pub fks : List (String × List CacheFk)
  pub fts_tables : List String

unfoldable pub table_not_found : String → String
table_not_found table = "table not found in schema: " ⊕ table

unfoldable pub column_not_found : String → String → String
column_not_found table column = "column not found in table: " ⊕ column ⊕ " in table " ⊕ table

abbrev pub ok_or {ℓ} : {A : Type ℓ} → String → Option A → Result A
ok_or message none = err (other_error message)
ok_or message (some a) = ok a

unfoldable pub search_tbls : SchemaCache → String → Result CacheTable
search_tbls schema table = ok_or (table_not_found table) (lookup table schema.tables)

unfoldable pub search_cols : CacheTable → String → Result String
search_cols tbl col = ok_or (column_not_found tbl.name col) (lookup col tbl.columns)

-- The second result is whether there is one.
abbrev pub fk_among : String → Option (List CacheFk) → Option CacheFk
fk_among references none = none
fk_among references (some fks) = find? (λ fk. fk.references == references) fks

unfoldable pub search_fks : SchemaCache → String → String → Option CacheFk
search_fks schema table references = fk_among references (lookup table schema.fks)

unfoldable pub has_fts_index : SchemaCache → String → Bool
has_fts_index schema table = any (λ name. name == table) schema.fts_tables

-- `fk := CacheFk{...}` of a column whose reference has a dot.
abbrev fk_of : String → Col → Option (String × String) → List CacheFk
fk_of table col none = []
fk_of table col (some (ref_table, ref_col)) =
    record { table = table; references = ref_table; from = col.name; to = ref_col } ∷ []

abbrev col_fks : String → Col → List CacheFk
col_fks table col = if col.references == "" then [] else fk_of table col (split_dot col.references)

-- `cache.Fks[t.Name] = append(cache.Fks[t.Name], fk)`
abbrev append_fks :
    String → List CacheFk → List (String × List CacheFk) → List (String × List CacheFk)
append_fks table [] fks = fks
append_fks table (fk ∷ rest) fks = put table (or_else [] (lookup table fks) ++ fk ∷ rest) fks

-- The loop over `t.Columns`.
unfoldable pub cache_columns :
    String
    → List (String × Col)
    → List (String × String) × List (String × List CacheFk)
    → List (String × String) × List (String × List CacheFk)
cache_columns table [] acc = acc
cache_columns table ((key, col) ∷ cols) (columns, fks) =
    cache_columns table cols
      (put col.name col.type columns, append_fks table (col_fks table col) fks)

abbrev with_table :
    Table → SchemaCache → List (String × String) × List (String × List CacheFk) → SchemaCache
with_table t cache (columns, fks) = record {
  tables = put t.name (record { name = t.name; pk = t.pk; columns = columns }) cache.tables;
  fks = fks;
  fts_tables = cache.fts_tables;
}

unfoldable pub cache_tables : List Table → SchemaCache → SchemaCache
unfolding cache_columns
cache_tables [] cache = cache
cache_tables (t ∷ ts) cache =
    cache_tables ts (with_table t cache (cache_columns t.name t.columns ([], cache.fks)))

unfoldable pub tables_to_schema_cache : List Table → SchemaCache
unfolding cache_tables
tables_to_schema_cache tables =
    cache_tables tables (record { tables = []; fks = []; fts_tables = [] })
