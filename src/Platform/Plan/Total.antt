-- ===== src/Platform/Plan/Total.antt =====
-- When GenerateMigrationPlan does not panic.
use atomicbase.Prelude.{
  String, true, ◌&&◌, List, [], ◌∷◌, Option, none, some, ◌==◌, ◌≡◌, refl, All, if_cases, is_some,
}
use atomicbase.Platform.Schema.{
  Go, Default, Index, Table, Schema, SchemaDiff, Merge, lookup, table_of, column_of, tables_by_name,
  or_else, no_table, no_col,
}
use atomicbase.Platform.Sql.{
  both, fts_if_any, indexes_and_fts, generate_fts_sql, generate_create_table_sql,
}
use atomicbase.Platform.Sql.Mirror.{generate_mirror_table_sql}
use atomicbase.Platform.Plan.{
  created, indexed, Rename, generate_migration_plan, modify_column, phase, is_kept, add_table,
  add_column, mirror, change_pk_type, add_index, add_fts, drop_fts, drop_index, drop_column,
  drop_table, requires_mirror_table,
}
use atomicbase.Platform.Diff.{has_any}
use atomicbase.Platform.Diff.Maps.{by_name-All}

-- A table with a text search has a primary key.
abbrev pub IsSearchable : Table → Type 0
IsSearchable t = (has_any t.fts_columns ≡ true) → has_any t.pk ≡ true

abbrev Returns : Option (List String) → Type 0
Returns o = is_some o ≡ true

both-Returns : (a b : Option (List String)) → Returns a → Returns b → Returns (both a b)
both-Returns none b ha hb = ha
both-Returns (some xs) none ha hb = hb
both-Returns (some xs) (some ys) ha hb = refl

phase-Returns :
    (f : SchemaDiff → Option (List String)) (type : String) (renames : List Rename)
    (cs : List SchemaDiff)
    → ((c : SchemaDiff) → Returns (f c))
    → Returns (phase f type renames cs)
unfolding phase
phase-Returns f type renames [] h = refl
phase-Returns f type renames (c ∷ cs) h =
    let rest = phase-Returns f type renames cs h in
    if_cases Returns (c.type == type && is_kept renames c) (λ e. both-Returns (f c) _ (h c) rest)
      (λ e. rest)

fts-Returns :
    (name : String) (fts pk : List String)
    → (has_any fts ≡ true → has_any pk ≡ true)
    → Returns (fts_if_any name fts pk)
unfolding generate_fts_sql
fts-Returns name [] pk h = refl
fts-Returns name (c ∷ cs) [] h = absurd (cc (h refl))
fts-Returns name (c ∷ cs) (p ∷ ps) h = refl

indexes_and_fts-Returns :
    (name : String) (t : Table) → IsSearchable t → Returns (indexes_and_fts name t)
unfolding indexes_and_fts
indexes_and_fts-Returns name t h =
    both-Returns (some _) _ refl (fts-Returns name t.fts_columns t.pk h)

mirror-Returns :
    (go : Go Default) (old new : Table)
    → IsSearchable new
    → Returns (generate_mirror_table_sql go old new)
unfolding generate_mirror_table_sql
mirror-Returns go old new h = both-Returns (some _) _ refl (indexes_and_fts-Returns new.name new h)

created-Returns :
    (go : Go Default) (name : String) (o : Option Table)
    → IsSearchable (or_else no_table o)
    → Returns (created go name o)
created-Returns go name none h = refl
created-Returns go name (some t) h =
    both-Returns (some (generate_create_table_sql go t ∷ [])) _ refl
      (indexes_and_fts-Returns name t h)

lookup-IsSearchable :
    (m : List (String × Table)) (name : String)
    → All (λ e. IsSearchable e.1) m
    → IsSearchable (or_else no_table (lookup name m))
unfolding lookup
lookup-IsSearchable [] name h = λ e. absurd (cc e)
lookup-IsSearchable ((k, t) ∷ m) name h =
    if_cases (λ o. IsSearchable (or_else no_table o)) (k == name) (λ e. h.0)
      (λ e. lookup-IsSearchable m name h.1)

indexed-Returns : (name : String) (o : Option Index) → Returns (indexed name o)
indexed-Returns name none = refl
indexed-Returns name (some idx) = refl

module _ (go : Go Default) (old new : Schema) (ok : All IsSearchable new.tables) where
  table_of-IsSearchable : (name : String) → IsSearchable (table_of new name)
  table_of-IsSearchable name =
      lookup-IsSearchable (tables_by_name new) name
        (by_name-All IsSearchable (λ t. t.name) new.tables [] ok tt)

  add_table-Returns : (c : SchemaDiff) → Returns (add_table go old new c)
  unfolding add_table
  add_table-Returns c = created-Returns go c.table _ (table_of-IsSearchable c.table)

  add_column-Returns : (c : SchemaDiff) → Returns (add_column go old new c)
  unfolding add_column mirror
  add_column-Returns c =
      if_cases Returns (requires_mirror_table no_col (column_of (table_of new c.table) c.column))
        (λ e. mirror-Returns go _ _ (table_of-IsSearchable c.table)) (λ e. refl)

  modify_column-Returns : (c : SchemaDiff) → Returns (modify_column go old new c)
  unfolding modify_column mirror
  modify_column-Returns c =
      if_cases Returns
        (requires_mirror_table (column_of (table_of old c.table) c.column)
          (column_of (table_of new c.table) c.column))
        (λ e. mirror-Returns go _ _ (table_of-IsSearchable c.table)) (λ e. refl)

  change_pk_type-Returns : (c : SchemaDiff) → Returns (change_pk_type go old new c)
  unfolding change_pk_type mirror
  change_pk_type-Returns c = mirror-Returns go _ _ (table_of-IsSearchable c.table)

  add_index-Returns : (c : SchemaDiff) → Returns (add_index go old new c)
  unfolding add_index
  add_index-Returns c = indexed-Returns c.table _

  add_fts-Returns : (c : SchemaDiff) → Returns (add_fts go old new c)
  unfolding add_fts
  add_fts-Returns c = fts-Returns c.table _ _ (table_of-IsSearchable c.table)

-- A plan is made for all changes and merges if each table of the new schema that has a text search
-- has a primary key.
pub generate_migration_plan-is_some :
    (go : Go Default) (old new : Schema) (changes : List SchemaDiff) (merges : List Merge)
    → All IsSearchable new.tables
    → is_some (generate_migration_plan go old new changes merges) ≡ true
unfolding generate_migration_plan drop_fts drop_index drop_column drop_table
generate_migration_plan-is_some go old new changes merges ok =
    search
      (
        both-Returns, phase-Returns, add_table-Returns, add_column-Returns, modify_column-Returns,
        change_pk_type-Returns, add_index-Returns, add_fts-Returns,
      )
      depth 30
