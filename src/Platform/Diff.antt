-- ===== src/Platform/Diff.antt =====
-- api/platform/migrations.go: diffSchemas. The order of the changes follows the order in which a
-- range meets the items of a map, which Go leaves open.
pub mod Maps
pub mod Changes
pub mod Differ
pub mod Warrant
use atomicbase.Prelude.{
  ℕ, String, Bool, true, false, not, ◌&&◌, ◌||◌, List, [], ◌∷◌, ◌++◌, Option, none, some, ◌==◌, any,
  all, eqb, eq_bool, length, is_some, if◌then◌else◌,
}
use atomicbase.Platform.Schema.{
  Go, Default, Generated, Col, Index, Table, Schema, SchemaDiff, lookup, put, by_name,
  tables_by_name,
}

abbrev pub change : String → String → String → SchemaDiff
change type table column = record { type = type; table = table; column = column }

-- The names of one map that another lacks, as changes of one type.
unfoldable pub missing {ℓ κ} :
    {A : Type ℓ} {B : Type κ}
    → (String → SchemaDiff)
    → List (String × A)
    → List (String × B)
    → List SchemaDiff
missing to [] other = []
missing to ((name, a) ∷ rest) other =
    let later = missing to rest other in
    elim (lookup name other) [ none ↦ to name ∷ later | some b ↦ later ]

unfoldable pub equal_generated : Option Generated → Option Generated → Bool
equal_generated none none = true
equal_generated none (some h) = false
equal_generated (some g) none = false
equal_generated (some g) (some h) = g.expr == h.expr && eq_bool g.stored h.stored

module _ (go : Go Default) where
  unfoldable pub equal_defaults : Option Default → Option Default → Bool
  equal_defaults none none = true
  equal_defaults none (some b) = false
  equal_defaults (some a) none = false
  equal_defaults (some a) (some b) = go.marshal a == go.marshal b

  unfoldable pub column_modified : Col → Col → Bool
  column_modified old new =
      not (old.type == new.type)
      || not (eq_bool old.not_null new.not_null)
      || not (eq_bool old.unique new.unique)
      || not (old.collate == new.collate)
      || not (old.check == new.check)
      || not (old.references == new.references)
      || not (old.on_delete == new.on_delete)
      || not (old.on_update == new.on_update)
      || not (equal_defaults old.default new.default)
      || not (equal_generated old.generated new.generated)

  -- The second loop of diffColumns.
  unfoldable pub added_columns :
      String → List (String × Col) → List (String × Col) → List SchemaDiff
  added_columns table old [] = []
  added_columns table old ((name, new_col) ∷ rest) =
      let later = added_columns table old rest in
      elim (lookup name old) [
        | none ↦ change "add_column" table name ∷ later
        | some old_col ↦
            if column_modified old_col new_col
            then change "modify_column" table name ∷ later
            else later
      ]

  unfoldable pub diff_columns : String → Table → Table → List SchemaDiff
  diff_columns table old new =
      missing (change "drop_column" table) old.columns new.columns
      ++ added_columns table old.columns new.columns

abbrev pub indexes_by_name : List Index → List (String × Index)
indexes_by_name idxs = by_name (λ i. i.name) idxs []

unfoldable pub diff_indexes : String → Table → Table → List SchemaDiff
diff_indexes table old new =
    let olds = indexes_by_name old.indexes in
    let news = indexes_by_name new.indexes in
    missing (change "drop_index" table) olds news ++ missing (change "add_index" table) news olds

abbrev pub name_set : List String → List (String × Bool)
name_set [] = []
name_set (s ∷ ss) = put s true (name_set ss)

abbrev is_in : List (String × Bool) → String × Bool → Bool
is_in other entry = is_some (lookup entry.0 other)

unfoldable pub equal_string_maps : List (String × Bool) → List (String × Bool) → Bool
equal_string_maps a b = eqb (length a) (length b) && all (is_in b) a

abbrev pub has_any {ℓ} : {A : Type ℓ} → List A → Bool
has_any [] = false
has_any (x ∷ xs) = true

unfoldable pub diff_fts : String → Table → Table → List SchemaDiff
diff_fts table old new =
    let olds = name_set old.fts_columns in
    let news = name_set new.fts_columns in
    if not (has_any olds) && has_any news
    then change "add_fts" table "" ∷ []
    else if has_any olds && not (has_any news)
    then change "drop_fts" table "" ∷ []
    else if not (equal_string_maps olds news)
    then change "drop_fts" table "" ∷ change "add_fts" table "" ∷ []
    else []

abbrev pub type_differs : Option Col → Option Col → Bool
type_differs (some old) (some new) = not (old.type == new.type)
type_differs _ _ = false

abbrev pub keys_differ : Table → Table → List String → List String → Bool
keys_differ old new [] [] = false
keys_differ old new (p ∷ ps) (q ∷ qs) =
    not (q == p)
    || type_differs (lookup p old.columns) (lookup p new.columns)
    || keys_differ old new ps qs
keys_differ old new _ _ = true

unfoldable pub pk_type_changed : Table → Table → Bool
pk_type_changed old new = keys_differ old new old.pk new.pk

module _ (go : Go Default) where
  -- The changes of a table that both schemas have.
  unfoldable pub diff_table : String → Table → Table → List SchemaDiff
  diff_table name old new =
      diff_columns go name old new
      ++ diff_indexes name old new
      ++ diff_fts name old new
      ++ (if pk_type_changed old new then change "change_pk_type" name "" ∷ [] else [])

  -- The second loop of diffSchemas.
  unfoldable pub added_tables : List (String × Table) → List (String × Table) → List SchemaDiff
  added_tables olds [] = []
  added_tables olds ((name, new) ∷ rest) =
      let later = added_tables olds rest in
      elim (lookup name olds) [
        | none ↦ change "add_table" name "" ∷ later
        | some old ↦ diff_table name old new ++ later
      ]

  unfoldable pub diff_schemas : Schema → Schema → List SchemaDiff
  diff_schemas old new =
      let olds = tables_by_name old in
      let news = tables_by_name new in
      missing (λ name. change "drop_table" name "") olds news ++ added_tables olds news
