-- ===== src/Platform/Sql.antt =====
-- api/platform/migrations.go: the SQL texts of a migration. `none` is the panic of pk[0] on a table
-- without a primary key.
pub mod Mirror
use atomicbase.Prelude.{
  String, Bool, true, false, not, ◌&&◌, ◌||◌, List, [], ◌∷◌, ◌++◌, Option, none, some, ◌==◌, ◌⊕◌,
  any, map, join, sort_by, str_ltb, split_dot, trim_space, double_quotes, if◌then◌else◌,
}
use atomicbase.Platform.Schema.{
  Go, Default, text, bool, object, other, Generated, Col, Index, Table, lookup, or_else, no_col,
  column_of,
}

abbrev pub bracket : String → String
bracket s = "[" ⊕ s ⊕ "]"

abbrev pub when : Bool → String → List String
when b s = if b then s ∷ [] else []

unfoldable pub format_default : Option Default → String
format_default none = "NULL"
format_default (some (text s)) = "'" ⊕ double_quotes s ⊕ "'"
format_default (some (bool b)) = if b then "1" else "0"
format_default (some (object none shown)) = shown
format_default (some (object (some raw) shown)) = if trim_space raw == "" then shown else raw
format_default (some (other shown)) = shown

unfoldable pub get_default_for_type : Go Default → String → String
get_default_for_type go col_type =
    let kind = go.to_upper col_type in
    if kind == "INTEGER"
    then "0"
    else if kind == "REAL"
    then "0"
    else if kind == "BLOB"
    then "X''"
    else "''"

abbrev pub given : Option Default → List String
given none = []
given (some d) = ("DEFAULT " ⊕ format_default (some d)) ∷ []

abbrev pub generation : Option Generated → List String
generation none = []
generation (some g) =
    ("GENERATED ALWAYS AS (" ⊕ g.expr ⊕ ") " ⊕ (if g.stored then "STORED" else "VIRTUAL")) ∷ []

abbrev pub is_only : String → List String → Bool
is_only name [] = false
is_only name (p ∷ []) = p == name
is_only name (p ∷ q ∷ ps) = false

abbrev pub key_type : Go Default → Col → List String → List String
key_type go col pk =
    let kind = go.to_upper col.type in
    if is_only col.name pk
    then if kind == "INTEGER" || kind == "INT"
      then "INTEGER PRIMARY KEY" ∷ []
      else kind ∷ "PRIMARY KEY" ∷ []
    else when (any (λ p. p == col.name) pk && kind == "INTEGER") "INTEGER"

unfoldable pub generate_column_def : Go Default → Col → List String → String
generate_column_def go col pk = join " " (
    bracket col.name ∷ key_type go col pk
    ++ when (col.not_null && not (is_only col.name pk)) "NOT NULL"
    ++ when col.unique "UNIQUE"
    ++ given col.default
    ++ when (not (col.collate == "")) ("COLLATE " ⊕ col.collate)
    ++ when (not (col.check == "")) ("CHECK (" ⊕ col.check ⊕ ")")
    ++ generation col.generated)

abbrev action : String → String → String
action on what = if what == "" then "" else on ⊕ what

abbrev foreign_key : Col → Option (String × String) → String
foreign_key col none = ""
foreign_key col (some (ref_table, ref_col)) =
    "FOREIGN KEY ("
    ⊕ bracket col.name
    ⊕ ") REFERENCES "
    ⊕ bracket ref_table
    ⊕ "("
    ⊕ bracket ref_col
    ⊕ ")"
    ⊕ action " ON DELETE " col.on_delete
    ⊕ action " ON UPDATE " col.on_update

unfoldable pub generate_fk_constraint : Col → String
generate_fk_constraint col = foreign_key col (split_dot col.references)

abbrev pub names : List (String × Col) → List String
names cols = map (λ c. c.0) cols

abbrev pub foreign_keys : List Col → List String
foreign_keys [] = []
foreign_keys (c ∷ cs) =
    if c.references == "" then foreign_keys cs else generate_fk_constraint c ∷ foreign_keys cs

abbrev pub composite_key : List String → List String
composite_key (p ∷ q ∷ ps) = ("PRIMARY KEY (" ⊕ join ", " (map bracket (p ∷ q ∷ ps)) ⊕ ")") ∷ []
composite_key _ = []

unfoldable pub generate_create_table_sql : Go Default → Table → String
generate_create_table_sql go t =
    let cols = map (λ name. column_of t name) (sort_by str_ltb (names t.columns)) in
    "CREATE TABLE ["
    ⊕ t.name
    ⊕ "] (\n  "
    ⊕ join ",\n  " (
        map (λ col. generate_column_def go col t.pk) cols
        ++ composite_key t.pk
        ++ foreign_keys cols)
    ⊕ "\n)"

abbrev pub default_clause : Go Default → Col → List String
default_clause go col =
    if col.not_null
    then ("NOT NULL DEFAULT " ⊕ elim col.default [
      | none ↦ get_default_for_type go col.type
      | some d ↦ format_default (some d)
    ])
      ∷ []
    else given col.default

unfoldable pub generate_add_column_sql : Go Default → String → Col → String
generate_add_column_sql go table col =
    "ALTER TABLE ["
    ⊕ table
    ⊕ "] ADD COLUMN "
    ⊕ join " " (
        bracket col.name ∷ default_clause go col
        ++ when col.unique "UNIQUE"
        ++ when (not (col.check == "")) ("CHECK (" ⊕ col.check ⊕ ")"))

unfoldable pub generate_create_index_sql : String → Index → String
generate_create_index_sql table idx =
    "CREATE "
    ⊕ (if idx.unique then "UNIQUE " else "")
    ⊕ "INDEX IF NOT EXISTS ["
    ⊕ idx.name
    ⊕ "] ON ["
    ⊕ table
    ⊕ "] ("
    ⊕ join ", " (map bracket idx.columns)
    ⊕ ")"

unfoldable pub prefix_columns : List String → String → String
prefix_columns cols prefix = join ", " (map (λ c. prefix ⊕ bracket c) cols)

abbrev trigger : String → String → String → String → String
trigger table suffix event body =
    "CREATE TRIGGER IF NOT EXISTS ["
    ⊕ table
    ⊕ "_fts"
    ⊕ suffix
    ⊕ "] AFTER "
    ⊕ event
    ⊕ " ON "
    ⊕ bracket table
    ⊕ " BEGIN\n"
    ⊕ body
    ⊕ "END"

abbrev pub fts_statements : String → List String → String → List String
fts_statements table cols pk_col =
    let fts = bracket (table ⊕ "_fts") in
    let content = join ", " (map bracket cols) in
    let removal =
      "  INSERT INTO "
      ⊕ fts
      ⊕ "("
      ⊕ fts
      ⊕ ", [rowid], "
      ⊕ content
      ⊕ ") VALUES ('delete', OLD."
      ⊕ bracket pk_col
      ⊕ ", "
      ⊕ prefix_columns cols "OLD."
      ⊕ ");\n" in
    let insertion =
      "  INSERT INTO "
      ⊕ fts
      ⊕ "([rowid], "
      ⊕ content
      ⊕ ") VALUES (NEW."
      ⊕ bracket pk_col
      ⊕ ", "
      ⊕ prefix_columns cols "NEW."
      ⊕ ");\n" in
    ("CREATE VIRTUAL TABLE IF NOT EXISTS "
      ⊕ fts
      ⊕ " USING fts5("
      ⊕ content
      ⊕ ", content="
      ⊕ bracket table
      ⊕ ", content_rowid="
      ⊕ bracket pk_col
      ⊕ ")")
    ∷ trigger table "_ai" "INSERT" insertion
    ∷ trigger table "_ad" "DELETE" removal
    ∷ trigger table "_au" "UPDATE" (removal ⊕ insertion)
    ∷ []

unfoldable pub generate_fts_sql : String → List String → List String → Option (List String)
generate_fts_sql table fts_columns [] = none
generate_fts_sql table fts_columns (p ∷ ps) = some (fts_statements table fts_columns p)

unfoldable pub generate_drop_fts_sql : String → List String
generate_drop_fts_sql table =
    ("DROP TRIGGER IF EXISTS [" ⊕ table ⊕ "_fts_ai]")
    ∷ ("DROP TRIGGER IF EXISTS [" ⊕ table ⊕ "_fts_ad]")
    ∷ ("DROP TRIGGER IF EXISTS [" ⊕ table ⊕ "_fts_au]")
    ∷ ("DROP TABLE IF EXISTS [" ⊕ table ⊕ "_fts]")
    ∷ []

-- One part of the statements behind another.
abbrev pub both : Option (List String) → Option (List String) → Option (List String)
both none rest = none
both (some xs) none = none
both (some xs) (some ys) = some (xs ++ ys)

-- The guard `len(t.FTSColumns) > 0`.
abbrev pub fts_if_any : String → List String → List String → Option (List String)
fts_if_any table [] pk = some []
fts_if_any table (c ∷ cs) pk = generate_fts_sql table (c ∷ cs) pk

-- The indexes and the text search of a table that exists.
unfoldable pub indexes_and_fts : String → Table → Option (List String)
indexes_and_fts name t =
    both (some (map (generate_create_index_sql name) t.indexes))
      (fts_if_any name t.fts_columns t.pk)
