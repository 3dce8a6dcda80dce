-- ===== src/PrimaryStore/Migrations.antt =====
-- api/primarystore/store.go: the migrations of a definition, and what becomes of them.
pub mod Chain
use atomicbase.Prelude.{
  ℕ, String, Bool, List, [], ◌∷◌, Option, none, some, ◌&&◌, ◌==◌, eqb, leb, ltb, select, sort_by,
  if◌then◌else◌,
}
use atomicbase.Result.{Error, other_error, Result, ok, err, require, ◌>>=◌, ◌>>◌}
use atomicbase.PrimaryStore.Policies.{Json}

-- A row of atombase_migrations.
pub record MigrationRow : Type 0 where
  pub id : ℕ
  pub definition_id : ℕ
  pub from_version : ℕ
  pub to_version : ℕ
  pub sql_json : String

-- `DefinitionMigration`, without the time of its creation
pub record DefinitionMigration : Type 0 where
  pub id : ℕ
  pub definition_id : ℕ
  pub from_version : ℕ
  pub to_version : ℕ
  pub sql : List String

-- The query's WHERE and ORDER BY.
unfoldable pub is_between : ℕ → ℕ → ℕ → MigrationRow → Bool
is_between definition_id from_version to_version row =
    eqb row.definition_id definition_id
    && leb from_version row.from_version
    && leb row.to_version to_version

unfoldable pub rows_between : ℕ → ℕ → ℕ → List MigrationRow → List MigrationRow
rows_between definition_id from_version to_version rows =
    sort_by (λ r s. ltb r.from_version s.from_version)
      (select (is_between definition_id from_version to_version) rows)

abbrev pub migration_of : MigrationRow → List String → DefinitionMigration
migration_of row sql = record {
  id = row.id;
  definition_id = row.definition_id;
  from_version = row.from_version;
  to_version = row.to_version;
  sql = sql;
}

-- The loop over the rows.
unfoldable pub decode_all : Json → List MigrationRow → Result (List DefinitionMigration)
decode_all json [] = ok []
decode_all json (row ∷ rows) = json.unmarshal_texts row.sql_json >>= λ sql.
    decode_all json rows >>= λ rest. ok (migration_of row sql ∷ rest)

-- The loop over the migrations with `expected`. The version of the message is left out.
unfoldable pub check_chain : ℕ → ℕ → List DefinitionMigration → Result (Unit {0})
check_chain expected to_version [] =
    require (eqb expected to_version) (other_error "missing migrations to reach version")
check_chain expected to_version (m ∷ ms) =
    require (eqb m.from_version expected) (other_error "missing migration step from version")
    >> check_chain m.to_version to_version ms

unfoldable pub get_migrations_between :
    Json → List MigrationRow → ℕ → ℕ → ℕ → Result (List DefinitionMigration)
get_migrations_between json rows definition_id from_version to_version =
    decode_all json (rows_between definition_id from_version to_version rows) >>= λ migrations.
    check_chain from_version to_version migrations >> ok migrations
