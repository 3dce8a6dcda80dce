-- ===== src/Data/Batch.antt =====
-- api/data/batch.go: operations that succeed or fail together.
pub mod Runs
pub mod Placeholders
use atomicbase.Prelude.{
  ℕ, String, Bool, true, false, List, [], ◌∷◌, Option, none, some, ◌==◌, ◌⊕◌, length, ltb,
  if◌then◌else◌,
}
use atomicbase.Result.{Error, Result, ok, err, other_error, require, ◌>>=◌, ◌>>◌}
use atomicbase.Tools.Validation.{Unicode}
use atomicbase.Definitions.Types.{Entries}
use atomicbase.PrimaryStore.Policies.{Json}
use atomicbase.Data.Text.{GoText}
use atomicbase.Data.Filter.{Clause, fail}
use atomicbase.Data.Policy.{TenantConnection}
use atomicbase.Data.Writes.{
  InsertRequest, UpdateRequest, DeleteRequest, insert_json, upsert_json, update_json, delete_json,
}
use atomicbase.Data.Reads.{Config, SelectQuery, Select, select_json}

abbrev pub max_batch_operations : ℕ
max_batch_operations = 100

pub record BatchOperation : Type 0 where
  pub operation : String
  pub table : String
  pub body : Entries
  pub count : Bool

-- `mapToStruct`: encoding/json turns a body into a request.
pub record Requests : Type 0 where
  pub select : Entries → Result SelectQuery
  pub insert : Entries → Result InsertRequest
  pub update : Entries → Result UpdateRequest
  pub delete : Entries → Result DeleteRequest

-- The driver of a database with states `S` and answers `A`: a transaction works on a copy of the
-- state that nobody else sees, which `commit` publishes.
pub record Driver (S A : Type 0) : Type 0 where
  pub begin : S → Result S
  pub send : Clause → S → Result (A × S)
  pub commit : S → Result S

abbrev pub counted : Option Clause → Clause → List Clause
counted none rows = rows ∷ []
counted (some count) rows = count ∷ rows ∷ []

abbrev pub lone : Result Clause → Result (List Clause)
lone statement = statement >>= λ c. ok (c ∷ [])

-- The statements that an operation sends, in their order: the cases of executeOperation.
unfoldable pub statements_of :
    Unicode
    → Json
    → TenantConnection
    → GoText
    → Config
    → Requests
    → BatchOperation
    → Result (List Clause)
statements_of u json dao go config requests op =
    if op.operation == "select"
    then (requests.select op.body >>= λ query.
        select_json u json dao go config op.table query op.count >>= λ answer.
        ok (counted answer.count answer.rows))
    else if op.operation == "insert"
    then (requests.insert op.body >>= λ req. lone (insert_json u json dao op.table req))
    else if op.operation == "upsert"
    then (requests.insert op.body >>= λ req. lone (upsert_json u json dao op.table req))
    else if op.operation == "update"
    then (requests.update op.body >>= λ req. lone (update_json u json dao op.table req))
    else if op.operation == "delete"
    then (requests.delete op.body >>= λ req. lone (delete_json u json dao op.table req))
    else fail ("unknown operation: " ⊕ op.operation)

module _ {S A : Type 0} (driver : Driver S A) (plan : BatchOperation → Result (List Clause)) where
  unfoldable pub send_all : List Clause → S → Result (List A × S)
  send_all [] s = ok ([], s)
  send_all (c ∷ cs) s =
      driver.send c s >>= λ sent. send_all cs sent.1 >>= λ rest. ok (sent.0 ∷ rest.0, rest.1)

  unfoldable pub execute_operation : BatchOperation → S → Result (List A × S)
  unfolding send_all
  execute_operation op s = plan op >>= λ cs. send_all cs s

  -- The loop over the operations, inside the transaction.
  unfoldable pub execute_all : List BatchOperation → S → Result (List (List A) × S)
  unfolding execute_operation
  execute_all [] s = ok ([], s)
  execute_all (op ∷ ops) s = execute_operation op s >>= λ done.
      execute_all ops done.1 >>= λ rest. ok (done.0 ∷ rest.0, rest.1)

  -- From BeginTx to Commit.
  abbrev pub transaction : List BatchOperation → S → Result (List (List A) × S)
  transaction ops s = driver.begin s >>= λ tx.
      execute_all ops tx >>= λ done. driver.commit done.1 >>= λ after. ok (done.0, after)

  -- The deferred Rollback: an error leaves the state as it was.
  abbrev pub or_rolled_back : S → Result (List (List A) × S) → Result (List (List A)) × S
  or_rolled_back s (err e) = (err e, s)
  or_rolled_back s (ok (answers, after)) = (ok answers, after)

  -- `Batch`
  unfoldable pub batch : List BatchOperation → S → Result (List (List A)) × S
  unfolding execute_all
  batch [] s = (ok [], s)
  batch (op ∷ ops) s =
      if ltb max_batch_operations (length (op ∷ ops))
      then (err (other_error "batch exceeds maximum number of operations"), s)
      else or_rolled_back s (transaction (op ∷ ops) s)
