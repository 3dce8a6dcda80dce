-- ===== src/Platform/Examples.antt =====
-- A table whose key changes its type, and the migration to it.
use mathlib.Core.Option.{some-injective}
use atomicbase.Platform.Sql.{bracket}
use atomicbase.Prelude.{any, ◌==◌, true, ◌≡◌, refl, List, [], ◌∷◌, some, All, is_some, str_ltb}
use atomicbase.Platform.Schema.{
  Go, Default, Col, no_col, Table, Schema, SchemaDiff, lookup, put, by_name,
}
use atomicbase.Platform.Sql.Mirror.{insert_columns, select_columns}
use atomicbase.Platform.Sql.Mirror.Columns.{
  KeepsType, insert_columns-select_columns, select_columns_swapped,
}
use atomicbase.Platform.Plan.{apply_merges, requires_mirror_table, generate_migration_plan}
use atomicbase.Platform.Plan.Merges.{
  IsMergeOf, apply_merges-IsMergeOf, first_two, generate_migration_plan_lost,
  generate_migration_plan_not_null, requires_mirror_table-column_modified,
}
use atomicbase.Platform.Plan.Total.{generate_migration_plan-is_some}
use atomicbase.Platform.Diff.{change, diff_schemas, column_modified}
use atomicbase.Platform.Diff.Changes.{diff_schemas_same}

abbrev go : Go Default
go = record { to_upper = λ s. s; marshal = λ d. "" }

abbrev text_id : Col
text_id = record no_col { name = "id"; type = "TEXT" }

abbrev integer_id : Col
integer_id = record no_col { name = "id"; type = "INTEGER" }

abbrev body : Col
body = record no_col { name = "body"; type = "TEXT" }

abbrev required_body : Col
required_body = record no_col { name = "body"; type = "TEXT"; not_null = true }

abbrev checked_body : Col
checked_body = record no_col { name = "body"; type = "TEXT"; check = "body <> ''" }

abbrev notes : Col → Col → Table
notes id text = record {
  name = "notes";
  pk = "id" ∷ [];
  columns = ("body", text) ∷ ("id", id) ∷ [];
  indexes = [];
  fts_columns = "body" ∷ [];
}

abbrev with_notes : Col → Col → Schema
with_notes id text = record { tables = notes id text ∷ [] }

abbrev two_drops : List SchemaDiff
two_drops = change "drop_table" "a" "" ∷ change "add_table" "b" "" ∷ []

diff_schemas_same_example : diff_schemas go (with_notes text_id body) (with_notes text_id body) ≡ []
unfolding lookup
diff_schemas_same_example = diff_schemas_same go (with_notes text_id body) ((refl, (refl, tt)), tt)

requires_mirror_table-column_modified_example : column_modified go body checked_body ≡ true
unfolding requires_mirror_table
requires_mirror_table-column_modified_example =
    requires_mirror_table-column_modified go body checked_body refl

apply_merges-IsMergeOf_example : All (IsMergeOf two_drops) (apply_merges two_drops first_two)
apply_merges-IsMergeOf_example = apply_merges-IsMergeOf two_drops first_two

generate_migration_plan_lost_example :
    generate_migration_plan go
      (with_notes text_id body)
      (with_notes text_id body)
      (change "drop_column" "notes" "body" ∷ change "add_column" "tasks" "text" ∷ [])
      first_two
    ≡ some []
generate_migration_plan_lost_example =
    generate_migration_plan_lost go (with_notes text_id body) (with_notes text_id body) "notes"
      "tasks" "body" "text" refl

generate_migration_plan_not_null_example :
    (column_modified go body required_body ≡ true)
    × (generate_migration_plan go
          (with_notes text_id body)
          (with_notes text_id required_body)
          (change "modify_column" "notes" "body" ∷ [])
          []
        ≡ some [])
unfolding lookup put by_name
generate_migration_plan_not_null_example =
    generate_migration_plan_not_null go (with_notes text_id body) (with_notes text_id required_body)
      "notes" "body" refl refl

generate_migration_plan-is_some_example :
    is_some (
      generate_migration_plan go
        (with_notes text_id body)
        (with_notes integer_id body)
        (change "change_pk_type" "notes" "" ∷ [])
        [])
    ≡ true
generate_migration_plan-is_some_example =
    generate_migration_plan-is_some go (with_notes text_id body) (with_notes integer_id body)
      (change "change_pk_type" "notes" "" ∷ []) [] ((λ h. refl), tt)

keeps_body : KeepsType (notes text_id body) (notes text_id required_body) ("body", required_body)
keeps_body old_col e = refl

keeps_id : KeepsType (notes text_id body) (notes text_id required_body) ("id", text_id)
unfolding lookup
keeps_id old_col e = let same : text_id ≡ old_col = some-injective _ _ e in rw (← same) refl

insert_columns-select_columns_example :
    (insert_columns (notes text_id body) (notes text_id required_body)
      ≡ select_columns (notes text_id body) (notes text_id required_body))
    × (any
          (λ c. c == bracket "id")
          (insert_columns (notes text_id body) (notes text_id required_body))
        ≡ true)
unfolding lookup
insert_columns-select_columns_example =
    insert_columns-select_columns (notes text_id body) (notes text_id required_body) "id"
      (keeps_body, (keeps_id, tt))

-- The key "id" becomes INTEGER: it is copied into "body", and "body" into it.
select_columns_swapped_example :
    (insert_columns (notes text_id body) (notes integer_id body) ≡ "[body]" ∷ "[id]" ∷ [])
    × (select_columns (notes text_id body) (notes integer_id body)
        ≡ "CAST([id] AS INTEGER)" ∷ "[body]" ∷ [])
unfolding lookup str_ltb
select_columns_swapped_example =
    select_columns_swapped (notes text_id body) (notes integer_id body) "id" "body" text_id
      integer_id body body refl refl refl refl refl refl refl
