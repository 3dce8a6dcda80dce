-- ===== src/Platform/Plan.antt =====
-- api/platform/migrations.go: GenerateMigrationPlan. `none` is the panic described in Sql.
pub mod Merges
pub mod Total
use atomicbase.Prelude.{
  ℤ, pos, negsuc, ℕ, suc, String, Bool, true, false, not, ◌&&◌, ◌||◌, List, [], ◌∷◌, ◌++◌, Option,
  none, some, ◌==◌, ◌⊕◌, any, find?, map, eqb, eq_bool, if◌then◌else◌,
}
use atomicbase.Platform.Schema.{
  Go, Default, Generated, Col, Index, Table, Schema, SchemaDiff, Merge, lookup, at, or_else, no_col,
  no_table, table_of, column_of, tables_by_name,
}
use atomicbase.Platform.Sql.{
  both, fts_if_any, bracket, generate_add_column_sql, generate_create_index_sql,
  generate_create_table_sql, generate_drop_fts_sql, generate_fts_sql, indexes_and_fts,
}
use atomicbase.Platform.Sql.Mirror.{generate_mirror_table_sql}

-- `rename`, by its type.
pub data Rename : Type 0 where
  rename_table : String → String → Rename
  rename_column : String → String → String → Rename

abbrev pub merged_pair : Option SchemaDiff → Option SchemaDiff → List Rename
merged_pair (some drop) (some add) =
    if drop.type == "drop_table" && add.type == "add_table"
    then rename_table drop.table add.table ∷ []
    else if (drop.type == "drop_column" && add.type == "add_column") && drop.table == add.table
    then rename_column drop.table drop.column add.column ∷ []
    else []
merged_pair _ _ = []

unfoldable pub apply_merges : List SchemaDiff → List Merge → List Rename
apply_merges changes [] = []
apply_merges changes (m ∷ ms) =
    merged_pair (at changes m.old) (at changes m.new) ++ apply_merges changes ms

abbrev is_at : ℤ → ℕ → Bool
is_at (pos j) i = eqb j i
is_at (negsuc j) i = false

-- `getMergedIndices(merges)[i]`
unfoldable pub is_merged : List Merge → ℕ → Bool
is_merged merges i = any (λ m. is_at m.old i || is_at m.new i) merges

-- The changes that the loop does not skip, from index `i` on.
unfoldable pub unmerged : List Merge → ℕ → List SchemaDiff → List SchemaDiff
unmerged merges i [] = []
unmerged merges i (c ∷ cs) =
    let rest = unmerged merges (suc i) cs in if is_merged merges i then rest else c ∷ rest

abbrev pub rename_sql : Rename → String
rename_sql (rename_table old new) = "ALTER TABLE [" ⊕ old ⊕ "] RENAME TO [" ⊕ new ⊕ "]"
rename_sql (rename_column table old new) =
    "ALTER TABLE [" ⊕ table ⊕ "] RENAME COLUMN [" ⊕ old ⊕ "] TO [" ⊕ new ⊕ "]"

abbrev renames_table : String → Rename → Bool
renames_table key (rename_table old new) = old == key
renames_table key (rename_column table old new) = false

abbrev renames_column : String → Rename → Bool
renames_column key (rename_table old new) = false
renames_column key (rename_column table old new) = (table ⊕ "." ⊕ old) == key

-- The guards of the switch.
unfoldable pub is_kept : List Rename → SchemaDiff → Bool
is_kept renames c =
    if c.type == "drop_table"
    then not (any (renames_table c.table) renames)
    else if c.type == "add_column" || c.type == "drop_column"
    then not (any (renames_column (c.table ⊕ "." ⊕ c.column)) renames)
    else true

-- One loop over the changes of a type.
unfoldable pub phase :
    (SchemaDiff → Option (List String))
    → String
    → List Rename
    → List SchemaDiff
    → Option (List String)
phase statements type renames [] = some []
phase statements type renames (c ∷ cs) =
    let rest = phase statements type renames cs in
    if c.type == type && is_kept renames c then both (statements c) rest else rest

abbrev has : String → Bool
has s = not (s == "")

abbrev generated_differ : Option Generated → Option Generated → Bool
generated_differ none none = false
generated_differ none (some g) = true
generated_differ (some g) none = true
generated_differ (some g) (some h) = not (g.expr == h.expr) || not (eq_bool g.stored h.stored)

unfoldable pub requires_mirror_table : Col → Col → Bool
requires_mirror_table old new =
    (not (has old.references) && has new.references)
    || ((has old.references && has new.references)
        && (not (old.references == new.references)
            || not (old.on_delete == new.on_delete)
            || not (old.on_update == new.on_update)))
    || (has old.references && not (has new.references))
    || not (old.check == new.check)
    || not (old.collate == new.collate)
    || generated_differ old.generated new.generated

unfoldable pub drop_fts : SchemaDiff → Option (List String)
drop_fts c = some (generate_drop_fts_sql c.table)

unfoldable pub drop_index : SchemaDiff → Option (List String)
drop_index c = some (("DROP INDEX IF EXISTS [" ⊕ c.column ⊕ "]") ∷ [])

unfoldable pub drop_column : SchemaDiff → Option (List String)
drop_column c = some (("ALTER TABLE [" ⊕ c.table ⊕ "] DROP COLUMN [" ⊕ c.column ⊕ "]") ∷ [])

unfoldable pub drop_table : SchemaDiff → Option (List String)
drop_table c = some (("DROP TABLE IF EXISTS [" ⊕ c.table ⊕ "]") ∷ [])

abbrev pub created : Go Default → String → Option Table → Option (List String)
created go name none = some []
created go name (some table) =
    both (some (generate_create_table_sql go table ∷ [])) (indexes_and_fts name table)

abbrev pub indexed : String → Option Index → Option (List String)
indexed table none = some []
indexed table (some idx) = some (generate_create_index_sql table idx ∷ [])

module _ (go : Go Default) (old_schema new_schema : Schema) where
  unfoldable pub add_table : SchemaDiff → Option (List String)
  add_table c = created go c.table (lookup c.table (tables_by_name new_schema))

  unfoldable pub mirror : SchemaDiff → Option (List String)
  mirror c =
      generate_mirror_table_sql go (table_of old_schema c.table) (table_of new_schema c.table)

  unfoldable pub add_column : SchemaDiff → Option (List String)
  unfolding mirror
  add_column c =
      let col = column_of (table_of new_schema c.table) c.column in
      if requires_mirror_table no_col col
      then mirror c
      else some (generate_add_column_sql go c.table col ∷ [])

  unfoldable pub modify_column : SchemaDiff → Option (List String)
  unfolding mirror
  modify_column c =
      if requires_mirror_table (column_of (table_of old_schema c.table) c.column)
        (column_of (table_of new_schema c.table) c.column)
      then mirror c
      else some []

  unfoldable pub change_pk_type : SchemaDiff → Option (List String)
  unfolding mirror
  change_pk_type c = mirror c

  unfoldable pub add_index : SchemaDiff → Option (List String)
  add_index c =
      indexed c.table (find? (λ idx. idx.name == c.column) (table_of new_schema c.table).indexes)

  unfoldable pub add_fts : SchemaDiff → Option (List String)
  add_fts c =
      let table = table_of new_schema c.table in fts_if_any c.table table.fts_columns table.pk

  unfoldable pub generate_migration_plan : List SchemaDiff → List Merge → Option (List String)
  generate_migration_plan changes merges =
      let renames = apply_merges changes merges in
      let todo = unmerged merges 0 changes in
      both (some (map rename_sql renames)) (
        both (phase add_table "add_table" renames todo) (
          both (phase add_column "add_column" renames todo) (
            both (phase modify_column "modify_column" renames todo) (
              both (phase change_pk_type "change_pk_type" renames todo) (
                both (phase add_index "add_index" renames todo) (
                  both (phase add_fts "add_fts" renames todo) (
                    both (phase drop_fts "drop_fts" renames todo) (
                      both (phase drop_index "drop_index" renames todo) (
                        both (phase drop_column "drop_column" renames todo)
                          (phase drop_table "drop_table" renames todo))))))))))
