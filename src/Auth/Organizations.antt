-- ===== src/Auth/Organizations.antt =====
-- api/auth/org_management.go: the organizations' records in the primary database, and what their
-- members may do with them. The store that makes and deletes an organization's database is the
-- interface OrganizationResolver, an argument here.
pub mod Transfer
pub mod Rights
use atomicbase.Prelude.{
  ℕ, ℤ, String, Bool, true, false, not, ◌&&◌, ◌||◌, List, [], ◌∷◌, ◌++◌, Option, none, some, ◌==◌,
  any, find?, select, count_by, ltb, trim_space, sort_by, str_ltb, is_some, if◌then◌else◌,
}
use atomicbase.Result.{
  Error, unauthorized, invalid_request, database_not_found, Result, ok, err, require, ◌>>=◌, ◌>>◌,
}
use atomicbase.Tools.Validation.{validate_resource_name}
use atomicbase.Auth.Types.{OrgActor, ManagementMap, OrganizationMember, Organization, Tenant}
use atomicbase.Auth.Membership.{Members, lookup_organization_member_role, may_act, is_active_user}
use atomicbase.Auth.Invites.{upsert_member}

-- An empty text is an absent message.
pub record CreateOrganizationParams : Type 0 where
  pub id : String
  pub name : String
  pub definition : String
  pub owner_id : String
  pub max_members : Option ℤ
  pub metadata : String

pub record UpdateOrganizationRequest : Type 0 where
  pub name : Option String
  pub max_members : Option ℤ
  pub metadata : String

abbrev pub Organizations : Type 0
Organizations = List Organization

-- Go's json.Valid, on a text that is given.
abbrev pub is_valid_metadata : (String → Bool) → String → Bool
is_valid_metadata json_valid metadata = metadata == "" || json_valid metadata

abbrev pub record_or_missing : Option Organization → Result Organization
record_or_missing none = err database_not_found
record_or_missing (some org) = ok org

unfoldable pub get_organization_record : Organizations → String → Result Organization
get_organization_record orgs id = record_or_missing (find? (λ o. o.id == id) orgs)

unfoldable pub count_owned_organizations : Organizations → String → ℕ
count_owned_organizations orgs owner = count_by (λ o. o.owner_id == owner) orgs

abbrev pub resource_name_error : Option String → Result (Unit {0})
resource_name_error none = ok tt
resource_name_error (some message) = err (invalid_request message)

-- The owner's id. A limit of 0 is none.
unfoldable pub owner_of : ℕ → OrgActor → String → Organizations → Result String
owner_of limit actor owner_id orgs =
    if actor.is_service
    then require (not (owner_id == "")) (invalid_request "ownerId is required") >> ok owner_id
    else do
      require (owner_id == "" || owner_id == actor.user_id)
          (unauthorized "ownerId must match the authenticated user")
      require (not (ltb 0 limit) || ltb (count_owned_organizations orgs actor.user_id) limit)
          (invalid_request "organization creation limit reached")
      ok actor.user_id

unfoldable pub check_create_organization :
    (String → Bool)
    → ℕ
    → OrgActor
    → CreateOrganizationParams
    → Organizations
    → Result CreateOrganizationParams
check_create_organization json_valid limit actor req orgs = do
  let id = trim_space req.id
  let name = trim_space req.name
  let definition = trim_space req.definition
  require (not (id == "")) (invalid_request "id is required")
  resource_name_error (validate_resource_name id)
  require (not (name == "")) (invalid_request "name is required")
  require (not (definition == "")) (invalid_request "definition is required")
  require (is_valid_metadata json_valid req.metadata)
      (invalid_request "metadata must be valid JSON")
  owner ← owner_of limit actor (trim_space req.owner_id) orgs
  ok (record {
    id = id;
    name = name;
    definition = definition;
    owner_id = owner;
    max_members = req.max_members;
    metadata = req.metadata;
  })

unfoldable pub create_organization :
    (String → Bool)
    → ℕ
    → (CreateOrganizationParams → Organizations → Result Organization × Organizations)
    → OrgActor
    → CreateOrganizationParams
    → Organizations
    → Result Organization × Organizations
create_organization json_valid limit store actor req orgs =
    elim (check_create_organization json_valid limit actor req orgs) [
      | err e ↦ (err e, orgs)
      | ok params ↦ store params orgs
    ]

-- ORDER BY created_at ASC, id ASC
abbrev org_before : Organization → Organization → Bool
org_before a b =
    str_ltb a.created_at b.created_at || (a.created_at == b.created_at && str_ltb a.id b.id)

-- The tenant of an organization opens, and the actor is an active member of it.
abbrev pub is_visible : (String → Result Tenant) → OrgActor → Organization → Bool
is_visible tenants actor org =
    elim (tenants org.id >>= λ t. lookup_organization_member_role t.members actor.user_id) [
      | err e ↦ false
      | ok role ↦ true
    ]

unfoldable pub list_organizations :
    (String → Result Tenant) → OrgActor → Organizations → Organizations
list_organizations tenants actor orgs =
    let sorted = sort_by org_before orgs in
    if actor.is_service then sorted else select (is_visible tenants actor) sorted

abbrev denied_or {ℓ} : {A : Type ℓ} → Error → Result A → Result A
denied_or e (ok a) = ok a
denied_or e (err c) = err e

unfoldable pub get_organization :
    Result ManagementMap → OrgActor → String → Tenant → Organizations → Result Organization
get_organization conn actor org_id t orgs =
    if actor.is_service then get_organization_record orgs org_id else do
      management ← conn
      role ←
          denied_or (unauthorized "organization access denied")
            (lookup_organization_member_role t.members actor.user_id)
      get_organization_record orgs org_id

unfoldable pub authorize_organization_action :
    Result ManagementMap → OrgActor → String → String → Tenant → Organizations → Result Organization
authorize_organization_action conn actor org_id action t orgs = do
  management ← conn
  may_act actor t.members management action "" "organization action is not allowed"
  get_organization_record orgs org_id

-- UPDATE atombase_organizations SET … WHERE id = ?
abbrev pub update_organizations :
    (Organization → Organization) → String → Organizations → Organizations
update_organizations change id [] = []
update_organizations change id (o ∷ os) =
    (if o.id == id then change o else o) ∷ update_organizations change id os

abbrev coalesce_or {ℓ} : {A : Type ℓ} → Option A → A → A
coalesce_or none a = a
coalesce_or (some b) a = b

abbrev coalesce_some {ℓ} : {A : Type ℓ} → Option A → Option A → Option A
coalesce_some none a = a
coalesce_some (some b) a = some b

abbrev trimmed_name : Option String → Result (Option String)
trimmed_name none = ok none
trimmed_name (some n) =
    require (not (trim_space n == "")) (invalid_request "name cannot be empty")
    >> ok (some (trim_space n))

unfoldable pub check_update_organization :
    (String → Bool) → UpdateOrganizationRequest → Result UpdateOrganizationRequest
check_update_organization json_valid req = do
  require (is_some req.name || is_some req.max_members || not (req.metadata == ""))
      (invalid_request "name, maxMembers, or metadata is required")
  name ← trimmed_name req.name
  require (is_valid_metadata json_valid req.metadata)
      (invalid_request "metadata must be valid JSON")
  ok (record req { name = name })

abbrev pub updated : String → UpdateOrganizationRequest → Organization → Organization
updated now req o = record o {
  name = coalesce_or req.name o.name;
  max_members = coalesce_some req.max_members o.max_members;
  metadata = if req.metadata == "" then o.metadata else req.metadata;
  updated_at = now;
}

unfoldable pub update_organization :
    (String → Bool)
    → Result ManagementMap
    → String
    → OrgActor
    → String
    → UpdateOrganizationRequest
    → Tenant
    → Organizations
    → Result Organization × Organizations
update_organization json_valid conn now actor org_id req t orgs =
    elim (check_update_organization json_valid req >>= λ r.
    authorize_organization_action conn actor org_id "updateOrg" t orgs >>= λ org. ok r) [
      | err e ↦ (err e, orgs)
      | ok r ↦
          let changed = update_organizations (updated now r) org_id orgs in
          (get_organization_record changed org_id, changed)
    ]

unfoldable pub delete_organization :
    (String → Organizations → Result (Unit {0}) × Organizations)
    → Result ManagementMap
    → OrgActor
    → String
    → Tenant
    → Organizations
    → Result (Unit {0}) × Organizations
delete_organization store conn actor org_id t orgs =
    elim (authorize_organization_action conn actor org_id "deleteOrg" t orgs) [
      | err e ↦ (err e, orgs)
      | ok org ↦ store org_id orgs
    ]

abbrev pub new_owner : String → String → OrganizationMember
new_owner now user_id = record {
  user_id = user_id;
  role = "owner";
  status = "active";
  created_at = now;
}

unfoldable pub check_transfer :
    Result ManagementMap → OrgActor → String → String → Tenant → Organizations → Result String
check_transfer conn actor org_id user_id t orgs = do
  require (not (trim_space user_id == "")) (invalid_request "userId is required")
  org ← authorize_organization_action conn actor org_id "transferOwnership" t orgs
  ok (trim_space user_id)

abbrev pub owned_by : String → String → Organization → Organization
owned_by now user_id o = record o { owner_id = user_id; updated_at = now }

-- The new owner's row is written to the tenant, then the organization's record.
unfoldable pub transfer_organization_ownership :
    Result ManagementMap
    → String
    → OrgActor
    → String
    → String
    → Tenant
    → Organizations
    → Result Organization × (Tenant × Organizations)
transfer_organization_ownership conn now actor org_id user_id t orgs =
    elim (check_transfer conn actor org_id user_id t orgs) [
      | err e ↦ (err e, (t, orgs))
      | ok owner ↦
          let changed = update_organizations (owned_by now owner) org_id orgs in
          (
            get_organization_record changed org_id,
            (record t { members = upsert_member (new_owner now owner) t.members }, changed),
          )
    ]
