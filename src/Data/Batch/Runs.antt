-- ===== src/Data/Batch/Runs.antt =====
-- A batch is all or nothing.
use atomicbase.Prelude.{◌≤◌, ◌≡◌, List, [], ◌∷◌, length, ltb, arith, if_cases}
use atomicbase.Result.{Error, Result, ok, err, Holds, Holds->>=, Holds-ok}
use atomicbase.Data.Filter.{Clause}
use atomicbase.Data.Batch.{
  max_batch_operations, BatchOperation, Driver, execute_operation, execute_all, transaction,
  or_rolled_back, batch,
}

module _ {S A : Type 0} (driver : Driver S A) (plan : BatchOperation → Result (List Clause)) where
  -- The operations succeed one after another, each in the state that the one before it left.
  pub data Runs : List BatchOperation → S → List (List A) → S → Type 0 where
    done : {s : S} → Runs [] s [] s
    step :
        {op : BatchOperation} {ops : List BatchOperation} {s between after : S} {answer : List A}
        {answers : List (List A)}
        → execute_operation driver plan op s ≡ ok (answer, between)
        → Runs ops between answers after
        → Runs (op ∷ ops) s (answer ∷ answers) after

  -- A transaction around a run: the state that the driver began with, and what it committed.
  pub Committed : List BatchOperation → S → List (List A) → S → Type 0
  Committed ops s answers after =
      (began : S) × (last : S) × (driver.begin s ≡ ok began)
      × Runs ops began answers last
      × (driver.commit last ≡ ok after)

  execute_all-Runs :
      (ops : List BatchOperation) (s : S)
      → Holds (λ r. Runs ops s r.0 r.1) (execute_all driver plan ops s)
  unfolding execute_all
  execute_all-Runs [] s = done
  execute_all-Runs (op ∷ ops) s = Holds->>= _ (execute_operation driver plan op s) _ λ first e.
      Holds->>= _ (execute_all driver plan ops first.1) _
        λ rest e2. step e (Holds-ok _ (execute_all-Runs ops first.1) e2)

  transaction-Committed :
      (ops : List BatchOperation) (s : S)
      → Holds (λ r. Committed ops s r.0 r.1) (transaction driver plan ops s)
  unfolding Committed
  transaction-Committed ops s = Holds->>= _ (driver.begin s) _ λ began b.
      Holds->>= _ (execute_all driver plan ops began) _ λ last e.
        Holds->>= _ (driver.commit last.1) _
          λ after c. (began, last.1, b, Holds-ok _ (execute_all-Runs ops began) e, c)

-- What became of a batch: nothing to do, refused or undone without a trace, or every operation ran,
-- in order, in one transaction that was committed.
pub data Outcome {S A : Type 0} (driver : Driver S A) (plan : BatchOperation → Result (List Clause))
    : List BatchOperation → S → Result (List (List A)) → S → Type 0 where
  idle : {s : S} → Outcome driver plan [] s (ok []) s
  undone : {ops : List BatchOperation} {s : S} {e : Error} → Outcome driver plan ops s (err e) s
  committed :
      {ops : List BatchOperation} {s after : S} {answers : List (List A)}
      → length ops ≤ max_batch_operations
      → Committed driver plan ops s answers after
      → Outcome driver plan ops s (ok answers) after

or_rolled_back-Outcome :
    {S A : Type 0} (driver : Driver S A) (plan : BatchOperation → Result (List Clause))
    (ops : List BatchOperation) (s : S) (r : Result (List (List A) × S))
    → length ops ≤ max_batch_operations
    → Holds (λ r. Committed driver plan ops s r.0 r.1) r
    → Outcome driver plan ops s
        (or_rolled_back driver plan s r).0
        (or_rolled_back driver plan s r).1
or_rolled_back-Outcome driver plan ops s (err e) few h = undone
or_rolled_back-Outcome driver plan ops s (ok (answers, after)) few h = committed few h

-- A batch with an error, wherever it occurs, leaves the state as it was; a batch without one has run
-- all of its operations, at most 100, one after another in one transaction, and the state is the one
-- that the commit gave.
pub batch-Outcome :
    {S A : Type 0} (driver : Driver S A) (plan : BatchOperation → Result (List Clause))
    (ops : List BatchOperation) (s : S)
    → Outcome driver plan ops s (batch driver plan ops s).0 (batch driver plan ops s).1
unfolding batch
batch-Outcome driver plan [] s = idle
batch-Outcome {S} {A} driver plan (op ∷ ops) s =
    if_cases (λ (r : Result (List (List A)) × S). Outcome driver plan (op ∷ ops) s r.0 r.1)
      (ltb max_batch_operations (length (op ∷ ops))) (λ _. undone)
      (λ small.
        or_rolled_back-Outcome driver plan (op ∷ ops) s _ (ground (arith, small))
          (transaction-Committed driver plan (op ∷ ops) s))
