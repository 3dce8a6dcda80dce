-- ===== src/Data/Batch/Placeholders.antt =====
-- Whatever a request sends to the database has as many placeholders as arguments.
use atomicbase.Prelude.{ℕ, ◌≡◌, refl, List, [], Option, none, some, ◌==◌, All, length}
use atomicbase.Result.{Result, ok, Holds, Holds->>=, Holds-ok, Holds-if}
use atomicbase.Tools.Validation.{Unicode, IsPlain}
use atomicbase.Definitions.Types.{Entries}
use atomicbase.Definitions.Compiler.Placeholders.{marks}
use atomicbase.PrimaryStore.Policies.{Json}
use atomicbase.Data.Text.{GoText}
use atomicbase.Data.Clean.{IsCleanSchema}
use atomicbase.Data.Filter.{Clause}
use atomicbase.Data.Filter.Texts.{IsBalanced, HasCleanMembers}
use atomicbase.Data.Policy.{TenantConnection}
use atomicbase.Data.Writes.{UpdateRequest, DeleteRequest}
use atomicbase.Data.Writes.Placeholders.{
  insert-Balances, upsert-Balances, update-Balances, delete-Balances,
}
use atomicbase.Data.Reads.{Config, SelectQuery, select_json}
use atomicbase.Data.Reads.Placeholders.{select_json-placeholders}
use atomicbase.Data.Batch.{BatchOperation, Requests, counted, lone, statements_of}

-- The request names no joins of its own, and its "is" filters print no "?".
pub record HasPlainBody (requests : Requests) (body : Entries) : Type 0 where
  pub select :
      (query : SelectQuery)
      → requests.select body ≡ ok query
      → All HasCleanMembers query.conditions × (query.join ≡ [])
  pub update :
      (req : UpdateRequest) → requests.update body ≡ ok req → All HasCleanMembers req.conditions
  pub delete :
      (req : DeleteRequest) → requests.delete body ≡ ok req → All HasCleanMembers req.conditions

abbrev AreBalanced : List Clause → Type 0
AreBalanced cs = All IsBalanced cs

lone-AreBalanced : (r : Result Clause) → Holds IsBalanced r → Holds AreBalanced (lone r)
lone-AreBalanced r h = Holds->>= AreBalanced r _ λ c e. (Holds-ok IsBalanced h e, tt)

counted-AreBalanced :
    (count : Option Clause) (rows : Clause)
    → ((c : Clause) → count ≡ some c → IsBalanced c)
    → IsBalanced rows
    → AreBalanced (counted count rows)
counted-AreBalanced none rows h r = (r, tt)
counted-AreBalanced (some c) rows h r = (h c refl, (r, tt))

module _ (u : Unicode) (json : Json) (dao : TenantConnection) (go : GoText) (config : Config)
    (requests : Requests) (plain : IsPlain u b'?') (numbers : (n : ℕ) → marks (go.itoa n) ≡ 0)
    (s : IsCleanSchema dao.schema) where
  statements_of-AreBalanced :
      (op : BatchOperation)
      → HasPlainBody requests op.body
      → Holds AreBalanced (statements_of u json dao go config requests op)
  unfolding statements_of
  statements_of-AreBalanced op h =
      Holds-if AreBalanced (op.operation == "select") _ _
        (Holds->>= AreBalanced (requests.select op.body) _ λ query e.
          let (w, no_join) = h.select query e in
          Holds->>= AreBalanced (select_json u json dao go config op.table query op.count) _
            λ answer built.
              let (c, r) =
                select_json-placeholders u json dao go config op.table query op.count answer plain
                  numbers s w no_join built in
              counted-AreBalanced answer.count answer.rows c r)
        (Holds-if AreBalanced (op.operation == "insert") _ _
          (Holds->>= AreBalanced (requests.insert op.body) _
            λ req _. lone-AreBalanced _ (insert-Balances u plain json dao s op.table req))
          (Holds-if AreBalanced (op.operation == "upsert") _ _
            (Holds->>= AreBalanced (requests.insert op.body) _
              λ req _. lone-AreBalanced _ (upsert-Balances u plain json dao s op.table req))
            (Holds-if AreBalanced (op.operation == "update") _ _
              (Holds->>= AreBalanced (requests.update op.body) _ λ req e.
                lone-AreBalanced _
                  (update-Balances u plain json dao s op.table req (h.update req e)))
              (Holds-if AreBalanced (op.operation == "delete") _ _
                (Holds->>= AreBalanced (requests.delete op.body) _ λ req e.
                  lone-AreBalanced _
                    (delete-Balances u plain json dao s op.table req (h.delete req e)))
                tt))))

-- Every statement that an operation sends, be it a select, an insert, an upsert, an update or a
-- delete, has one placeholder for each of its arguments, as long as "?" is neither a letter nor a
-- digit nor part of a number, the schema's names and types have none, no "is" filter of the request
-- prints one and a select names no joins of its own.
pub statements_of-placeholders :
    (u : Unicode) (json : Json) (dao : TenantConnection) (go : GoText) (config : Config)
    (requests : Requests) (op : BatchOperation) (statements : List Clause)
    → IsPlain u b'?'
    → ((n : ℕ) → marks (go.itoa n) ≡ 0)
    → IsCleanSchema dao.schema
    → HasPlainBody requests op.body
    → statements_of u json dao go config requests op ≡ ok statements
    → All (λ c. marks c.sql ≡ length c.args) statements
statements_of-placeholders u json dao go config requests op statements plain numbers s h e =
    Holds-ok AreBalanced
      (statements_of-AreBalanced u json dao go config requests plain numbers s op h) e
