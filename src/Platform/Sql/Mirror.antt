-- ===== src/Platform/Sql/Mirror.antt =====
-- api/platform/migrations.go: a table that is rebuilt, since SQLite cannot alter it in place.
pub mod Columns
use atomicbase.Prelude.{
  String, Bool, true, false, not, ◌&&◌, ◌||◌, List, [], ◌∷◌, ◌++◌, Option, none, some, ◌==◌, ◌⊕◌,
  any, join, sort_by, str_ltb, if◌then◌else◌,
}
use atomicbase.Platform.Schema.{Go, Default, Col, Table, lookup}
use atomicbase.Platform.Sql.{bracket, both, generate_create_table_sql, indexes_and_fts}

-- The pairs of a copied column's two texts, in the order of the range over the new columns.
unfoldable pub copied : Table → Table → List (String × Col) → List (String × String)
copied old_table new_table [] = []
copied old_table new_table ((name, new_col) ∷ cols) =
    let rest = copied old_table new_table cols in
    elim (lookup name old_table.columns) [
      | none ↦ rest
      | some old_col ↦
          (
            bracket name,
            if any (λ pk. pk == name) new_table.pk && not (old_col.type == new_col.type)
                then "CAST([" ⊕ name ⊕ "] AS " ⊕ new_col.type ⊕ ")"
                else bracket name,
          )
          ∷ rest
    ]

abbrev pub firsts : List (String × String) → List String
firsts [] = []
firsts (p ∷ ps) = p.0 ∷ firsts ps

abbrev pub seconds : List (String × String) → List String
seconds [] = []
seconds (p ∷ ps) = p.1 ∷ seconds ps

-- `oldCols` and `newCols`, each sorted.
unfoldable pub insert_columns : Table → Table → List String
insert_columns old_table new_table =
    sort_by str_ltb (firsts (copied old_table new_table new_table.columns))

unfoldable pub select_columns : Table → Table → List String
select_columns old_table new_table =
    sort_by str_ltb (seconds (copied old_table new_table new_table.columns))

unfoldable pub rebuild : Go Default → Table → Table → List String
rebuild go old_table new_table =
    let temp = new_table.name ⊕ "_new" in
    generate_create_table_sql go (record new_table { name = temp; indexes = []; fts_columns = [] })
    ∷ ("INSERT INTO "
        ⊕ bracket temp
        ⊕ " ("
        ⊕ join ", " (insert_columns old_table new_table)
        ⊕ ") SELECT "
        ⊕ join ", " (select_columns old_table new_table)
        ⊕ " FROM "
        ⊕ bracket old_table.name)
    ∷ ("DROP TABLE " ⊕ bracket old_table.name)
    ∷ ("ALTER TABLE " ⊕ bracket temp ⊕ " RENAME TO " ⊕ bracket new_table.name)
    ∷ []

unfoldable pub generate_mirror_table_sql : Go Default → Table → Table → Option (List String)
generate_mirror_table_sql go old_table new_table =
    both (some (rebuild go old_table new_table)) (indexes_and_fts new_table.name new_table)
