-- ===== src/PrimaryStore/Policies.antt =====
-- api/primarystore/store.go: the access policies of a definition's version.
use atomicbase.Prelude.{
  ℕ, String, Bool, List, Option, none, some, ◌&&◌, ◌==◌, eqb, find?, trim_space, if◌then◌else◌,
}
use atomicbase.Result.{Result, ok, ◌>>=◌}
use atomicbase.Definitions.Types.{Condition, AccessPolicy}

-- A row of atombase_access_policies; `none` is NULL.
pub record AccessPolicyRow : Type 0 where
  pub definition_id : ℕ
  pub version : ℕ
  pub table_name : String
  pub operation : String
  pub conditions_json : Option String

-- What the code takes from encoding/json: the condition and the list of texts that a text stands
-- for.
pub record Json : Type 0 where
  pub unmarshal_condition : String → Result Condition
  pub unmarshal_texts : String → Result (List String)

-- `DecodeCondition`: a blank text is no condition.
unfoldable pub decode_condition : Json → String → Result (Option Condition)
decode_condition json raw =
    if trim_space raw == ""
    then ok none
    else (json.unmarshal_condition raw >>= λ cond. ok (some cond))

-- The rows that the query of LoadAccessPolicy asks for; the four columns are the table's key.
unfoldable pub is_policy_row : ℕ → ℕ → String → String → AccessPolicyRow → Bool
is_policy_row definition_id version table operation row =
    eqb row.definition_id definition_id
    && eqb row.version version
    && row.table_name == table
    && row.operation == operation

abbrev pub condition_of : Json → Option String → Result (Option Condition)
condition_of json none = ok none
condition_of json (some raw) = decode_condition json raw

abbrev pub stored_policy :
    Json → ℕ → ℕ → String → String → Option AccessPolicyRow → Result (Option AccessPolicy)
stored_policy json definition_id version table operation none = ok none
stored_policy json definition_id version table operation (some row) =
    condition_of json row.conditions_json >>= λ cond. ok (
      some (record {
        definition_id = definition_id;
        version = version;
        table = table;
        operation = operation;
        condition = cond;
      }))

unfoldable pub load_access_policy :
    Json → List AccessPolicyRow → ℕ → ℕ → String → String → Result (Option AccessPolicy)
load_access_policy json rows definition_id version table operation =
    stored_policy json definition_id version table operation
      (find? (is_policy_row definition_id version table operation) rows)
