-- ===== src/Platform/Diff/Warrant.antt =====
-- Every change that diffSchemas reports is there.
use atomicbase.Prelude.{String, true, List, [], none, some, ◌==◌, ◌≡◌, ◌≢◌, any}
use atomicbase.Platform.Schema.{Go, Default, Col, Index, Table, Schema, SchemaDiff, lookup}
use atomicbase.Platform.Diff.{change, name_set, indexes_by_name}

-- What a change of a table that both schemas have stands for.
pub data IsChangeOf (go : Go Default) (name : String) (old new : Table) : SchemaDiff → Type 0 where
  dropped_column :
      (column : String) (col : Col)
      → lookup column old.columns ≡ some col
      → lookup column new.columns ≡ none
      → IsChangeOf go name old new (change "drop_column" name column)
  added_column :
      (column : String) (col : Col)
      → lookup column old.columns ≡ none
      → lookup column new.columns ≡ some col
      → IsChangeOf go name old new (change "add_column" name column)
  modified_column :
      (column : String) (old_col new_col : Col)
      → lookup column old.columns ≡ some old_col
      → lookup column new.columns ≡ some new_col
      → old_col ≢ new_col
      → IsChangeOf go name old new (change "modify_column" name column)
  dropped_index :
      (index : String) (idx : Index)
      → lookup index (indexes_by_name old.indexes) ≡ some idx
      → lookup index (indexes_by_name new.indexes) ≡ none
      → IsChangeOf go name old new (change "drop_index" name index)
  added_index :
      (index : String) (idx : Index)
      → lookup index (indexes_by_name new.indexes) ≡ some idx
      → lookup index (indexes_by_name old.indexes) ≡ none
      → IsChangeOf go name old new (change "add_index" name index)
  dropped_fts :
      old.fts_columns ≢ []
      → name_set old.fts_columns ≢ name_set new.fts_columns
      → IsChangeOf go name old new (change "drop_fts" name "")
  added_fts :
      new.fts_columns ≢ []
      → name_set old.fts_columns ≢ name_set new.fts_columns
      → IsChangeOf go name old new (change "add_fts" name "")
  changed_pk : old.pk ≢ new.pk → IsChangeOf go name old new (change "change_pk_type" name "")
  retyped_pk :
      (key : String) (old_col new_col : Col)
      → any (λ k. k == key) new.pk ≡ true
      → lookup key old.columns ≡ some old_col
      → lookup key new.columns ≡ some new_col
      → old_col.type ≢ new_col.type
      → IsChangeOf go name old new (change "change_pk_type" name "")

pub data IsChange (go : Go Default) (olds news : List (String × Table)) : SchemaDiff → Type 0 where
  dropped_table :
      (name : String) (t : Table)
      → lookup name olds ≡ some t
      → lookup name news ≡ none
      → IsChange go olds news (change "drop_table" name "")
  added_table :
      (name : String) (t : Table)
      → lookup name olds ≡ none
      → lookup name news ≡ some t
      → IsChange go olds news (change "add_table" name "")
  changed_table :
      (name : String) (old new : Table) (c : SchemaDiff)
      → lookup name olds ≡ some old
      → lookup name news ≡ some new
      → IsChangeOf go name old new c
      → IsChange go olds news c
