-- ===== src/Auth/Membership.antt =====
-- api/auth/org_membership.go: listing, adding, changing and removing the members of an
-- organization. Each SQL statement is a function on the rows of `atombase_membership`, whose
-- primary key is `user_id`; `now` is the database's CURRENT_TIMESTAMP. The connection to the
-- tenant database is an argument: the error of `connOrganizationTenant`, or the management policy.
pub mod Rows
pub mod Steps
pub mod Owners
pub mod Stored
pub mod Rights
pub mod Frame
use mathlib.Core.Option
use atomicbase.Prelude.{
  String, Bool, true, false, not, ◌&&◌, ◌||◌, ◌≡◌, List, [], ◌∷◌, ◌++◌, Option, none, some, ◌==◌,
  any, find?, reject, count_by, length, is_some, ltb, trim_space, sort_by, str_ltb, if◌then◌else◌,
}
use atomicbase.Result.{Error, unauthorized, invalid_request, Result, ok, err, require, ◌>>=◌, ◌>>◌}
use atomicbase.Auth.Types.{
  OrgActor, ManagementMap, OrganizationMember, CreateMemberRequest, UpdateMemberRequest,
}
use atomicbase.Auth.Management.{management_allows}

abbrev pub Members : Type 0
Members = List OrganizationMember

-- `user_id = ? AND status = 'active'`
abbrev pub is_active_user : String → OrganizationMember → Bool
is_active_user uid m = m.user_id == uid && m.status == "active"

-- `role = 'owner' AND status = 'active'`
abbrev pub is_active_owner : OrganizationMember → Bool
is_active_owner m = m.role == "owner" && m.status == "active"

abbrev role_or_denied : Option OrganizationMember → Result String
role_or_denied none = err (unauthorized "organization membership is required")
role_or_denied (some m) = ok m.role

unfoldable pub lookup_organization_member_role : Members → String → Result String
lookup_organization_member_role rows uid = role_or_denied (find? (is_active_user uid) rows)

-- ORDER BY created_at ASC, user_id ASC
before : OrganizationMember → OrganizationMember → Bool
before m n =
    str_ltb m.created_at n.created_at
    || (m.created_at == n.created_at && str_ltb m.user_id n.user_id)

nonempty : Members → Result Members
nonempty [] = err (unauthorized "organization membership is required")
nonempty (m ∷ ms) = ok (m ∷ ms)

unfoldable pub list_organization_members :
    Result ManagementMap → OrgActor → Members → Result Members
unfolding nonempty before
list_organization_members conn actor rows = do
  management ← conn
  nonempty (
      sort_by before
        (if actor.is_service || any (is_active_user actor.user_id) rows then rows else []))

-- The trimmed request, with the default status.
unfoldable pub normalize_create : CreateMemberRequest → Result CreateMemberRequest
normalize_create req = do
  let uid = trim_space req.user_id
  let role = trim_space req.role
  let status = trim_space req.status
  require (not (uid == "")) (invalid_request "userId is required")
  require (not (role == "")) (invalid_request "role is required")
  ok (record { user_id = uid; role = role; status = if status == "" then "active" else status })

-- `if !actor.IsService { … managementAllows(management, actorRole, action, target) … }`
unfoldable pub may_act :
    OrgActor → Members → ManagementMap → String → String → String → Result (Unit {0})
may_act actor rows management action target denial = if actor.is_service then ok tt else do
  actor_role ← lookup_organization_member_role rows actor.user_id
  require (management_allows management actor_role action target) (unauthorized denial)

-- INSERT … WHERE EXISTS (the active actor) ON CONFLICT(user_id) DO NOTHING RETURNING …
unfoldable pub insert_member :
    OrgActor → OrganizationMember → Members → Option OrganizationMember × Members
insert_member actor row rows =
    if (actor.is_service || any (is_active_user actor.user_id) rows)
      && not (any (λ m. m.user_id == row.user_id) rows)
    then (some row, rows ++ row ∷ [])
    else (none, rows)

abbrev pub row_or_denied : String → Option OrganizationMember → Result OrganizationMember
row_or_denied denial none = err (unauthorized denial)
row_or_denied denial (some m) = ok m

-- Go's reading of the returned row, with the table after the statement.
abbrev pub answer :
    String → Option OrganizationMember × Members → Result OrganizationMember × Members
answer denial (row, rows) = (row_or_denied denial row, rows)

abbrev pub new_member : String → CreateMemberRequest → OrganizationMember
new_member now r = record {
  user_id = r.user_id;
  role = r.role;
  status = r.status;
  created_at = now;
}

unfoldable pub check_create :
    Result ManagementMap → OrgActor → CreateMemberRequest → Members → Result CreateMemberRequest
check_create conn actor req rows = do
  req' ← normalize_create req
  management ← conn
  may_act actor rows management "invite" req'.role "organization member creation is not allowed"
  ok req'

unfoldable pub create_organization_member :
    Result ManagementMap
    → String
    → OrgActor
    → CreateMemberRequest
    → Members
    → Result OrganizationMember × Members
create_organization_member conn now actor req rows = elim (check_create conn actor req rows) [
  | err e ↦ (err e, rows)
  | ok r ↦
      answer "organization member creation is not allowed"
        (insert_member actor (new_member now r) rows)
]

-- A given field, trimmed, must not be empty.
trimmed : String → Option String → Result (Option String)
trimmed denial none = ok none
trimmed denial (some s) = do
  require (not (trim_space s == "")) (invalid_request denial)
  ok (some (trim_space s))

unfoldable pub normalize_update : UpdateMemberRequest → Result UpdateMemberRequest
unfolding trimmed
normalize_update req = do
  require (is_some req.role || is_some req.status) (invalid_request "role or status is required")
  role ← trimmed "role cannot be empty" req.role
  status ← trimmed "status cannot be empty" req.status
  ok (record { role = role; status = status })

-- COALESCE(?, column)
abbrev pub coalesce : Option String → String → String
coalesce none column = column
coalesce (some s) column = s

abbrev pub apply_update : UpdateMemberRequest → OrganizationMember → OrganizationMember
apply_update req m = record m {
  role = coalesce req.role m.role;
  status = coalesce req.status m.status;
}

-- The part of the WHERE clause that protects the last owner, for the row `m` of `user_id`: the
-- sub-selects by that primary key read `m` itself.
unfoldable pub keeps_owner : UpdateMemberRequest → OrganizationMember → Members → Bool
keeps_owner req m rows =
    not (m.role == "owner")
    || (coalesce req.role m.role == "owner" && coalesce req.status m.status == "active")
    || ltb 1 (count_by is_active_owner rows)

-- UPDATE … SET … WHERE user_id = ? AND … : the rows that `hit` selects are changed.
abbrev pub update_rows :
    (OrganizationMember → Bool) → (OrganizationMember → OrganizationMember) → Members → Members
update_rows hit change [] = []
update_rows hit change (m ∷ ms) = (if hit m then change m else m) ∷ update_rows hit change ms

unfoldable pub update_member :
    OrgActor → String → UpdateMemberRequest → Members → Option OrganizationMember × Members
unfolding keeps_owner
update_member actor uid req rows =
    let hit = λ (m : OrganizationMember).
      m.user_id == uid
      && (actor.is_service || any (is_active_user actor.user_id) rows)
      && keeps_owner req m rows in
    (Option.map (apply_update req) (find? hit rows), update_rows hit (apply_update req) rows)

unfoldable pub check_update :
    Result ManagementMap
    → OrgActor
    → String
    → UpdateMemberRequest
    → Members
    → Result UpdateMemberRequest
check_update conn actor uid req rows = do
  req' ← normalize_update req
  management ← conn
  target_role ← lookup_organization_member_role rows uid
  may_act actor rows management "assignRole" (coalesce req'.role target_role)
      "organization member update is not allowed"
  ok req'

unfoldable pub update_organization_member :
    Result ManagementMap
    → OrgActor
    → String
    → UpdateMemberRequest
    → Members
    → Result OrganizationMember × Members
update_organization_member conn actor uid req rows = elim (check_update conn actor uid req rows) [
  | err e ↦ (err e, rows)
  | ok r ↦ answer "organization member update is not allowed" (update_member actor uid r rows)
]

-- DELETE FROM atombase_membership WHERE user_id = ? AND …
unfoldable pub remove_member : OrgActor → String → Members → Members
remove_member actor uid rows =
    reject
      (λ m.
        m.user_id == uid
        && (actor.is_service || any (is_active_user actor.user_id) rows)
        && (not (m.role == "owner") || ltb 1 (count_by is_active_owner rows)))
      rows

unfoldable pub check_delete : Result ManagementMap → OrgActor → String → Members → Result (Unit {0})
check_delete conn actor uid rows = do
  management ← conn
  target_role ← lookup_organization_member_role rows uid
  may_act actor rows management "removeMember" target_role
      "organization member deletion is not allowed"

-- RowsAffected() is how many rows the statement took away.
unfoldable pub delete_organization_member :
    Result ManagementMap → OrgActor → String → Members → Result (Unit {0}) × Members
delete_organization_member conn actor uid rows = elim (check_delete conn actor uid rows) [
  | err e ↦ (err e, rows)
  | ok done ↦ (
    require (ltb (length (remove_member actor uid rows)) (length rows))
        (unauthorized "organization member deletion is not allowed"),
    remove_member actor uid rows,
  )
]
