-- ===== src/PrimaryStore/Targets.antt =====
-- api/primarystore/store.go, ResolveDatabaseTarget: the database that a request means.
pub mod Reach
use Prim.Native.Char.{code}
use Prim.Native.String
use atomicbase.Prelude.{
  ℕ, String, Bool, true, false, not, ◌&&◌, ◌||◌, List, [], ◌∷◌, Option, none, some, ◌==◌, ◌⊕◌, eqb,
  find?, if◌then◌else◌,
}
use atomicbase.Result.{
  Error, database_not_found, invalid_request, other_error, Result, ok, err, ◌>>=◌, ◌>>◌,
}
use atomicbase.Definitions.Types.{Principal, DatabaseTarget}

-- Rows of atombase_databases, atombase_definitions, and of atombase_users and atombase_organizations,
-- of which only the key and the database count; `none` is NULL.
pub record DatabaseRow : Type 0 where
  pub id : String
  pub definition_id : ℕ
  pub definition_version : ℕ
  pub auth_token_encrypted : String

pub record DefinitionRow : Type 0 where
  pub id : ℕ
  pub name : String
  pub definition_type : String

pub record OwnerRow : Type 0 where
  pub id : String
  pub database_id : Option String

pub record Tables : Type 0 where
  pub databases : List DatabaseRow
  pub definitions : List DefinitionRow
  pub users : List OwnerRow
  pub organizations : List OwnerRow

-- tools.EncryptionEnabled and tools.Decrypt: `none` without encryption.
pub record Encryption : Type 0 where
  pub decrypt : Option (String → Result String)

abbrev decrypted : Option (String → Result String) → String → Result String
decrypted none token = ok token
decrypted (some f) token = elim (f token) [
  | ok plain ↦ ok plain
  | err e ↦ err (other_error "failed to decrypt auth token")
]

unfoldable pub decode_stored_database_token : Encryption → String → Result String
decode_stored_database_token enc stored =
    if stored == "" then ok "" else decrypted enc.decrypt stored

abbrev pub found_row {ℓ} : {A : Type ℓ} → Option A → Result A
found_row none = err database_not_found
found_row (some a) = ok a

-- `def.definition_type = '...'`
abbrev typed : String → DefinitionRow → Result (Unit {0})
typed type def = if def.definition_type == type then ok tt else err database_not_found

abbrev pub target_of : DatabaseRow → DefinitionRow → String → DatabaseTarget
target_of d def token = record {
  database_id = d.id;
  definition_id = d.definition_id;
  definition_name = def.name;
  definition_type = def.definition_type;
  definition_version = d.definition_version;
  auth_token = token;
}

-- The joined row of a database, with its token decoded.
unfoldable pub database_target : Encryption → Tables → String → String → Result DatabaseTarget
database_target enc tables type id = do
  d ← found_row (find? (λ d. d.id == id) tables.databases)
  def ← found_row (find? (λ def. eqb def.id d.definition_id) tables.definitions)
  typed type def
  token ← decode_stored_database_token enc d.auth_token_encrypted
  ok (target_of d def token)

-- The database of a user or an organization.
unfoldable pub owned_target :
    Encryption → Tables → String → List OwnerRow → String → Result DatabaseTarget
owned_target enc tables type owners id = do
  owner ← found_row (find? (λ o. o.id == id) owners)
  database ← found_row owner.database_id
  database_target enc tables type database

-- strings.SplitN(s, ":", 2): `none` when there is no colon.
unfoldable pub split_colon : String → Option (String × String)
split_colon String.[] = none
split_colon (String.◌∷◌ c s) =
    if eqb (code c) b':'
    then some (String.[], s)
    else elim (split_colon s) [ none ↦ none | some (a, b) ↦ some (String.◌∷◌ c a, b) ]

abbrev malformed : Result DatabaseTarget
malformed = err (invalid_request "Database header must be formatted as <type>:<name>")

-- `switch definitions.DefinitionType(kind)`
abbrev pub named_target : Encryption → Tables → Option (String × String) → Result DatabaseTarget
named_target enc tables none = malformed
named_target enc tables (some (kind, name)) =
    if name == ""
    then malformed
    else if kind == "global"
    then database_target enc tables "global" name
    else if kind == "org"
    then owned_target enc tables "organization" tables.organizations name
    else err (invalid_request "invalid database type")

unfoldable pub resolve_database_target :
    Encryption → Tables → Principal → String → Result DatabaseTarget
resolve_database_target enc tables principal header =
    if header == ""
    then (if principal.user_id == "" || principal.is_service
        then err (other_error "Database header is required")
        else owned_target enc tables "user" tables.users principal.user_id)
    else named_target enc tables (split_colon header)
