-- ===== src/Data/Migration/Outcome.antt =====
-- What a migration leaves behind.
use mathlib.Core.Option
use atomicbase.Prelude.{
  ℕ, suc, ◌<◌, String, Bool, false, not, ◌&&◌, ◌==◌, ◌⊕◌, if◌then◌else◌, ◌≡◌, ◌⊎◌, List, Option,
  none, some,
}
use atomicbase.Result.{Error, other_error, Result, ok, err}
use atomicbase.Platform.Schema.{lookup}
use atomicbase.PrimaryStore.Policies.{Json}
use atomicbase.PrimaryStore.Migrations.{DefinitionMigration, get_migrations_between}
use atomicbase.PrimaryStore.Migrations.Chain.{Chain}
use atomicbase.Data.Text.{GoText}
use atomicbase.Data.Policy.{TenantConnection}
use atomicbase.Data.Batch.{Driver}
use atomicbase.Data.Migration.{
  World, message_of, is_retryable_migration_error, execute_migration_batch, max_attempts, all_sql,
  Answer,
}

module _ {S : Type 0} (saves : Bool) (dao : TenantConnection) (w : World S) where
  -- The database is at the definition's version, and every copy of that version that is kept under
  -- its id or its name says so; nothing else is changed.
  pub record Reached (after : S) (a : Answer S) : Type 0 where
    pub answered : a.0 ≡ ok tt
    pub connection : a.1 ≡ record dao { database_version = dao.schema_version }
    pub tenant : a.2.tenant ≡ after
    pub migrations : a.2.migrations ≡ w.migrations
    pub failures : a.2.failures ≡ w.failures
    pub versions :
        (key : String)
        → lookup key a.2.versions ≡ (
            if saves && dao.id == key
            then Option.map (λ old. dao.schema_version) (lookup key w.versions)
            else lookup key w.versions)
    pub cached :
        (key : String)
        → lookup key a.2.cached ≡ (
            if not (dao.name == "") && dao.name == key
            then Option.map (λ old. dao.schema_version) (lookup key w.cached)
            else lookup key w.cached)

  -- Nothing is changed but that the failure is kept under the database's id.
  pub record GaveUp (e : Error) (a : Answer S) : Type 0 where
    pub answered : a.0 ≡ err (other_error ("migration failed: " ⊕ message_of e))
    pub connection : a.1 ≡ dao
    pub tenant : a.2.tenant ≡ w.tenant
    pub migrations : a.2.migrations ≡ w.migrations
    pub versions : a.2.versions ≡ w.versions
    pub cached : a.2.cached ≡ w.cached
    pub failures :
        (key : String)
        → lookup key a.2.failures ≡ (
            if saves && dao.id == key
            then some (record {
              from_version = dao.database_version;
              to_version = dao.schema_version;
              error = message_of e;
            })
            else lookup key w.failures)

module _ {S A : Type 0} (go : GoText) (json : Json) (drivers : ℕ → Driver S A) (saves : Bool)
    (dao : TenantConnection) (w : World S) where
  -- Why a migration that is due does not start.
  pub data CannotStart : Type 0 where
    ahead : dao.schema_version < dao.database_version → CannotStart
    no_store : dao.primary_store ≡ none → CannotStart
    no_migrations :
        (e : Error)
        → get_migrations_between json w.migrations dao.definition_id dao.database_version
            dao.schema_version
          ≡ err e
        → CannotStart

  -- The ways in which a request for a migration may end.
  pub data Outcome : Answer S → Type 0 where
    current :
        (dao.definition_id ≡ 0) ⊎ (dao.database_version ≡ dao.schema_version)
        → Outcome (ok tt, dao, w)
    refused : (message : String) → CannotStart → Outcome (err (other_error message), dao, w)
    gave_up :
        (ms : List DefinitionMigration) (k : ℕ) (e : Error) (a : Answer S)
        → Chain dao.database_version ms dao.schema_version
        → k < max_attempts
        → execute_migration_batch go (drivers k) (all_sql ms) w.tenant ≡ err e
        → (is_retryable_migration_error go e ≡ false) ⊎ (suc k ≡ max_attempts)
        → GaveUp saves dao w e a
        → Outcome a
    moved :
        (ms : List DefinitionMigration) (k : ℕ) (after : S) (a : Answer S)
        → Chain dao.database_version ms dao.schema_version
        → k < max_attempts
        → execute_migration_batch go (drivers k) (all_sql ms) w.tenant ≡ ok after
        → Reached saves dao w after a
        → Outcome a
