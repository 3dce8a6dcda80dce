-- ===== src/Data/Migration.antt =====
-- api/data/migration.go: a database that is behind its definition is brought up to date.
pub mod Attempts
pub mod Outcome
use atomicbase.Prelude.{
  ℕ, zero, suc, String, Bool, true, false, not, ◌||◌, List, [], ◌∷◌, ◌++◌, Option, none, some, map,
  ◌==◌, ◌⊕◌, eqb, ltb, if◌then◌else◌,
}
use atomicbase.Result.{
  Error, unauthorized, invalid_request, database_not_found, other_error, Result, ok, err, ◌>>=◌,
}
use atomicbase.Platform.Schema.{lookup, put}
use atomicbase.PrimaryStore.Policies.{Json, AccessPolicyRow}
use atomicbase.PrimaryStore.Migrations.{MigrationRow, DefinitionMigration, get_migrations_between}
use atomicbase.Data.Text.{GoText, contains}
use atomicbase.Data.Policy.{TenantConnection}
use atomicbase.Data.Batch.{Driver}

-- A row of atombase_migration_failures, under its database's id.
pub record MigrationFailure : Type 0 where
  pub from_version : ℕ
  pub to_version : ℕ
  pub error : String

-- The database itself, and what is kept about it elsewhere: the migrations of all definitions, the
-- versions in atombase_databases, the failures and the versions in the cache, by name.
pub record World (S : Type 0) : Type 0 where
  pub tenant : S
  pub migrations : List MigrationRow
  pub versions : List (String × ℕ)
  pub failures : List (String × MigrationFailure)
  pub cached : List (String × ℕ)

-- err.Error()
unfoldable pub message_of : Error → String
message_of (unauthorized m) = "unauthorized: " ⊕ m
message_of (invalid_request m) = "invalid request: " ⊕ m
message_of database_not_found = "database not found"
message_of (other_error m) = m

unfoldable pub is_retryable_migration_error : GoText → Error → Bool
is_retryable_migration_error go e =
    let text = go.to_lower (message_of e) in
    contains text "timeout"
    || contains text "connection refused"
    || contains text "network"
    || contains text "eof"
    || contains text "temporary"

-- "statement %d failed: %w"
abbrev failed_at {ℓ} : {A : Type ℓ} → GoText → ℕ → Result A → Result A
failed_at go i (ok a) = ok a
failed_at go i (err e) = err (other_error ("statement " ⊕ go.itoa i ⊕ " failed: " ⊕ message_of e))

-- `len(retryBackoff)`
abbrev pub max_attempts : ℕ
max_attempts = 3

abbrev pub all_sql : List DefinitionMigration → List String
all_sql [] = []
all_sql (m ∷ ms) = m.sql ++ all_sql ms

-- `UPDATE atombase_databases SET definition_version = ? WHERE id = ?`, and the cache's update: a row
-- that is not there stays away.
unfoldable pub set_version : String → ℕ → List (String × ℕ) → List (String × ℕ)
set_version key version [] = []
set_version key version ((k, v) ∷ rows) =
    let rest = set_version key version rows in
    if k == key then (k, version) ∷ rest else (k, v) ∷ rest

-- A success ends the loop, and so does an error that another attempt would not mend.
abbrev pub or_again {ℓ} : {S : Type ℓ} → GoText → Result S → (Error → Result S) → Result S
or_again go (ok after) again = ok after
or_again go (err e) again = if is_retryable_migration_error go e then again e else err e

module _ {S A : Type 0} (go : GoText) where
  -- The loop over the statements, of which the first is the `i`-th.
  unfoldable pub execute_statements : Driver S A → ℕ → List String → S → Result S
  execute_statements driver i [] s = ok s
  execute_statements driver i (sql ∷ rest) s =
      failed_at go i (driver.send (record { sql = sql; args = [] }) s) >>= λ sent.
      execute_statements driver (suc i) rest sent.1

  unfoldable pub execute_migration_batch : Driver S A → List String → S → Result S
  unfolding execute_statements
  execute_migration_batch driver [] s = ok s
  execute_migration_batch driver (sql ∷ rest) s =
      driver.begin s >>= λ tx. execute_statements driver 1 (sql ∷ rest) tx >>= driver.commit

  -- The loop over the attempts that are left, with `attempt` and `lastErr`; `drivers` says how the
  -- database answers in each attempt. A failed attempt is rolled back.
  unfoldable pub attempts : (ℕ → Driver S A) → ℕ → ℕ → Error → List String → S → Result S
  unfolding execute_migration_batch
  attempts drivers zero attempt last_err statements s = err last_err
  attempts drivers (suc left) attempt last_err statements s =
      or_again go (execute_migration_batch (drivers attempt) statements s)
        (λ e. attempts drivers left (suc attempt) e statements s)

-- The answer, the connection and everything around it.
abbrev pub Answer : Type 0 → Type 0
Answer S = Result (Unit {0}) × TenantConnection × World S

module _ {S : Type 0} (saves : Bool) (dao : TenantConnection) (w : World S) where
  -- After a success. `saves` is whether the primary store takes the write: if not, the code only logs
  -- it.
  abbrev pub migrated : S → Answer S
  migrated after = (
    ok tt,
    record dao { database_version = dao.schema_version },
    record w {
      tenant = after;
      versions = if saves then set_version dao.id dao.schema_version w.versions else w.versions;
      cached =
          if not (dao.name == "")
          then set_version dao.name dao.schema_version w.cached
          else w.cached;
    },
  )

  abbrev pub failure : Error → MigrationFailure
  failure e = record {
    from_version = dao.database_version;
    to_version = dao.schema_version;
    error = message_of e;
  }

  -- After the last attempt failed: RecordMigrationFailure.
  abbrev pub not_migrated : Error → Answer S
  not_migrated e = (
    err (other_error ("migration failed: " ⊕ message_of e)),
    dao,
    record w { failures = if saves then put dao.id (failure e) w.failures else w.failures },
  )

  abbrev pub settled : Result S → Answer S
  settled (ok after) = migrated after
  settled (err e) = not_migrated e

  -- Nothing changes.
  abbrev pub refuse : String → Answer S
  refuse message = (err (other_error message), dao, w)

  abbrev pub leave : Answer S
  leave = (ok tt, dao, w)

module _ {S A : Type 0} (go : GoText) (json : Json) (drivers : ℕ → Driver S A) (saves : Bool) where
  abbrev pub run_migrations :
      TenantConnection → World S → Result (List DefinitionMigration) → Answer S
  run_migrations dao w (err e) = refuse saves dao w ("failed to load migrations: " ⊕ message_of e)
  run_migrations dao w (ok migrations) =
      settled saves dao w
        (attempts go drivers max_attempts 0 (other_error "") (all_sql migrations) w.tenant)

  abbrev pub migrate_from_store :
      TenantConnection → World S → Option (List AccessPolicyRow) → Answer S
  migrate_from_store dao w none =
      refuse saves dao w "failed to access primary store: primary store not initialized"
  migrate_from_store dao w (some rows) = run_migrations dao w (
      get_migrations_between json w.migrations dao.definition_id dao.database_version
        dao.schema_version)

  unfoldable pub migrate_if_needed : TenantConnection → World S → Answer S
  migrate_if_needed dao w =
      if eqb dao.definition_id 0
      then leave saves dao w
      else if eqb dao.database_version dao.schema_version
      then leave saves dao w
      else if ltb dao.schema_version dao.database_version
      then refuse saves dao w "database version ahead of definition version"
      else migrate_from_store dao w dao.primary_store
