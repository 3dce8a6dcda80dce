-- ===== src/Data/StoreExamples.antt =====
-- A batch and a migration of a database whose state is the list of the statements that it ran, and
-- the database of a user.
use atomicbase.Prelude.{
  ℕ, zero, suc, String, false, refl, List, [], ◌∷◌, none, some, if◌then◌else◌, ◌==◌,
}
use atomicbase.Result.{other_error, Result, ok, err}
use atomicbase.Definitions.Types.{no_entry, Principal, DatabaseTarget}
use atomicbase.PrimaryStore.Migrations.{MigrationRow, DefinitionMigration}
use atomicbase.PrimaryStore.Targets.{
  Tables, decode_stored_database_token, database_target, owned_target, resolve_database_target,
}
use atomicbase.PrimaryStore.Targets.Reach.{Reaches, resolve_database_target-Reaches}
use atomicbase.Data.Filter.{Clause, fail}
use atomicbase.Data.Batch.{BatchOperation, Driver, batch, execute_all, execute_operation, send_all}
use atomicbase.Data.Batch.Runs.{Outcome, batch-Outcome}
use atomicbase.Data.Migration.{World}
use atomicbase.Data.Migration.Outcome

abbrev Log : Type 0
Log = List String

-- A driver that runs everything.
abbrev runs : Driver Log ℕ
runs = record { begin = λ s. ok s; send = λ c s. ok (1, c.sql ∷ s); commit = λ s. ok s }

-- A network that is not there.
abbrev breaks : Driver Log ℕ
breaks = record {
  begin = λ s. err (other_error "network down");
  send = λ c s. ok (1, c.sql ∷ s);
  commit = λ s. ok s;
}

abbrev op : String → BatchOperation
op name = record { operation = name; table = "posts"; body = no_entry; count = false }

-- The second operation has no statement.
abbrev plan : BatchOperation → Result (List Clause)
plan o =
    if o.operation == "delete"
    then ok (record { sql = "DELETE"; args = [] } ∷ [])
    else fail "unknown operation"

batch-Outcome_example :
    Outcome runs plan
      (op "delete" ∷ op "merge" ∷ [])
      ("CREATE" ∷ [])
      (err (other_error "unknown operation"))
      ("CREATE" ∷ [])
unfolding batch execute_all execute_operation send_all
batch-Outcome_example = batch-Outcome runs plan (op "delete" ∷ op "merge" ∷ []) ("CREATE" ∷ [])

abbrev row : MigrationRow
row = record { id = 1; definition_id = 1; from_version = 1; to_version = 2; sql_json = "[...]" }

abbrev add_likes : DefinitionMigration
add_likes = record {
  id = 1;
  definition_id = 1;
  from_version = 1;
  to_version = 2;
  sql = "ALTER TABLE [posts] ADD COLUMN [likes] INTEGER" ∷ [];
}

abbrev world : World Log
world = record {
  tenant = [];
  migrations = row ∷ [];
  versions = ("d1", 1) ∷ [];
  failures = [];
  cached = [];
}

-- The first attempt meets the broken network, the second one does not.
abbrev mends : ℕ → Driver Log ℕ
mends zero = breaks
mends (suc n) = runs

abbrev tables : Tables
tables = record {
  databases =
      record { id = "db-u1"; definition_id = 1; definition_version = 3; auth_token_encrypted = "" }
      ∷ [];
  definitions = record { id = 1; name = "notes"; definition_type = "user" } ∷ [];
  users = record { id = "u1"; database_id = some "db-u1" } ∷ [];
  organizations = [];
}

abbrev member : Principal
member = record {
  user_id = "u1";
  session_id = "s1";
  auth_status = "authenticated";
  is_service = false;
}

abbrev notes : DatabaseTarget
notes = record {
  database_id = "db-u1";
  definition_id = 1;
  definition_name = "notes";
  definition_type = "user";
  definition_version = 3;
  auth_token = "";
}

resolve_database_target-Reaches_example : Reaches tables member "" notes
unfolding resolve_database_target owned_target database_target decode_stored_database_token
resolve_database_target-Reaches_example =
    resolve_database_target-Reaches (record { decrypt = none }) tables member "" notes refl
