-- ===== src/Auth/Invites.antt =====
-- api/auth/org_invites.go: inviting by email, revoking an invite, and accepting one.
-- Statements on `atombase_invites` (primary key `id`, unique `email`) and on the membership table
-- are functions on their rows. Arguments stand for what the code asks of others: the connection to
-- the tenant, the time, a fresh id, the organization's record, and the mail service.
pub mod Accept
pub mod Announce
pub mod Once
pub mod LastOwner
use atomicbase.Prelude.{
  String, Bool, true, false, not, ◌&&◌, ◌||◌, ◌≡◌, List, [], ◌∷◌, ◌++◌, Option, none, some, ◌==◌,
  any, find?, select, reject, length, ltb, trim_space, sort_by, str_ltb, if◌then◌else◌,
}
use atomicbase.Result.{
  Error, unauthorized, invalid_request, database_not_found, Result, ok, err, require, ◌>>=◌, ◌>>◌,
}
use atomicbase.Auth.Types.{
  OrgActor, ManagementMap, OrganizationMember, OrganizationInvite, Organization, Tenant,
}
use atomicbase.Auth.Membership.{
  Members, is_active_user, lookup_organization_member_role, may_act, update_rows,
}

-- What the code takes from Go's `unicode` and `time` packages.
pub record Host : Type 0 where
  pub to_lower : String → String
  pub is_rfc3339 : String → Bool

-- NormalizeEmail of api/auth/magiclink.go
unfoldable pub normalize_email : Host → String → String
normalize_email host email = host.to_lower (trim_space email)

pub record CreateInviteRequest : Type 0 where
  pub id : String
  pub email : String
  pub role : String
  pub expires_at : String

abbrev pub Invites : Type 0
Invites = List OrganizationInvite

abbrev before : OrganizationInvite → OrganizationInvite → Bool
before a b =
    str_ltb a.created_at b.created_at || (a.created_at == b.created_at && str_ltb a.id b.id)

-- `expires_at > ?`
abbrev pub is_pending : String → OrganizationInvite → Bool
is_pending now i = str_ltb now i.expires_at

unfoldable pub list_organization_invites :
    Result ManagementMap → String → OrgActor → Tenant → Result Invites
list_organization_invites conn now actor t = do
  management ← conn
  role ← if actor.is_service then ok "" else lookup_organization_member_role t.members actor.user_id
  ok (sort_by before (select (is_pending now) t.invites))

unfoldable pub normalize_invite :
    Host → String → String → CreateInviteRequest → Result CreateInviteRequest
normalize_invite host fresh in_a_week req = do
  let id = trim_space req.id
  let email = normalize_email host req.email
  let role = trim_space req.role
  let expires_at = trim_space req.expires_at
  require (not (email == "")) (invalid_request "email is required")
  require (not (role == "")) (invalid_request "role is required")
  require (expires_at == "" || host.is_rfc3339 expires_at)
      (invalid_request "expiresAt must be RFC3339")
  ok (record {
    id = if id == "" then fresh else id;
    email = email;
    role = role;
    expires_at = if expires_at == "" then in_a_week else expires_at;
  })

unfoldable pub check_invite :
    Host
    → Result ManagementMap
    → String
    → String
    → OrgActor
    → CreateInviteRequest
    → Tenant
    → Result CreateInviteRequest
check_invite host conn fresh in_a_week actor req t = do
  req' ← normalize_invite host fresh in_a_week req
  management ← conn
  may_act actor t.members management "invite" req'.role
      "organization invite creation is not allowed"
  ok req'

-- INSERT INTO atombase_invites …: no row without an active actor, an error on a key in use.
unfoldable pub insert_invite : OrgActor → OrganizationInvite → Tenant → Result OrganizationInvite
insert_invite actor row t = do
  require (actor.is_service || any (is_active_user actor.user_id) t.members)
      (unauthorized "organization invite creation is not allowed")
  require (not (any (λ i. i.id == row.id || i.email == row.email) t.invites))
      (invalid_request "invite already exists for email")
  ok row

-- DELETE FROM atombase_invites WHERE id = ?
unfoldable pub delete_invite : String → Tenant → Tenant
delete_invite id t = record t { invites = reject (λ i. i.id == id) t.invites }

abbrev pub add_invite : OrganizationInvite → Tenant → Tenant
add_invite row t = record t { invites = t.invites ++ row ∷ [] }

abbrev pub new_invite : String → OrgActor → CreateInviteRequest → OrganizationInvite
new_invite now actor r = record {
  id = r.id;
  email = r.email;
  role = r.role;
  invited_by = if actor.is_service then "service" else actor.user_id;
  expires_at = r.expires_at;
  created_at = now;
}

-- After the insert: if a later step failed, the row is taken back.
unfoldable pub settle :
    Result (Unit {0}) → OrganizationInvite → Tenant → Result OrganizationInvite × Tenant
settle (ok done) row t = (ok row, t)
settle (err e) row t = (err e, delete_invite row.id t)

-- The organization's record is read and the mail is sent.
abbrev pub announce :
    Result Organization
    → (Organization → OrganizationInvite → Result (Unit {0}))
    → OrganizationInvite
    → Result (Unit {0})
announce org_record send row = org_record >>= λ org. send org row

-- The checks and the insert.
unfoldable pub open_invite :
    Host
    → Result ManagementMap
    → String
    → String
    → String
    → OrgActor
    → CreateInviteRequest
    → Tenant
    → Result OrganizationInvite
open_invite host conn now fresh in_a_week actor req t = do
  r ← check_invite host conn fresh in_a_week actor req t
  insert_invite actor (new_invite now actor r) t

unfoldable pub create_organization_invite :
    Host
    → Result ManagementMap
    → Result Organization
    → (Organization → OrganizationInvite → Result (Unit {0}))
    → String
    → String
    → String
    → OrgActor
    → CreateInviteRequest
    → Tenant
    → Result OrganizationInvite × Tenant
create_organization_invite host conn org_record send now fresh in_a_week actor req t =
    elim (open_invite host conn now fresh in_a_week actor req t) [
      | err e ↦ (err e, t)
      | ok row ↦ settle (announce org_record send row) row (add_invite row t)
    ]

-- The error for an invite that is not there.
abbrev missing_invite : OrgActor → Error
missing_invite actor =
    if actor.is_service
    then database_not_found
    else unauthorized "organization invite deletion is not allowed"

abbrev found_or : Error → Option OrganizationInvite → Result OrganizationInvite
found_or e none = err e
found_or e (some i) = ok i

unfoldable pub check_delete_invite :
    Result ManagementMap → OrgActor → String → Tenant → Result (Unit {0})
check_delete_invite conn actor invite_id t = do
  management ← conn
  target ← found_or (missing_invite actor) (find? (λ i. i.id == invite_id) t.invites)
  may_act actor t.members management "invite" target.role
      "organization invite deletion is not allowed"

unfoldable pub delete_organization_invite :
    Result ManagementMap → OrgActor → String → Tenant → Result (Unit {0}) × Tenant
delete_organization_invite conn actor invite_id t =
    elim (check_delete_invite conn actor invite_id t) [
      | err e ↦ (err e, t)
      | ok done ↦ (
        require (ltb (length (delete_invite invite_id t).invites) (length t.invites))
            (missing_invite actor),
        delete_invite invite_id t,
      )
    ]

-- `id = ? AND expires_at > ?`
abbrev pub is_open : String → String → OrganizationInvite → Bool
is_open now invite_id i = i.id == invite_id && is_pending now i

abbrev pub invalid_invite : Error
invalid_invite = unauthorized "organization invite is invalid"

abbrev connected_or {ℓ} : {A : Type ℓ} → Error → Result A → Result A
connected_or e (ok a) = ok a
connected_or e (err c) = err e

unfoldable pub check_accept :
    Host
    → Result ManagementMap
    → Result String
    → String
    → String
    → Tenant
    → Result OrganizationInvite
check_accept host conn user_email now invite_id t = do
  email ← user_email
  management ← connected_or invalid_invite conn
  i ← found_or invalid_invite (find? (is_open now invite_id) t.invites)
  require (normalize_email host email == normalize_email host i.email) invalid_invite
  ok i

-- The columns that an upsert or its RETURNING sets on an old row.
abbrev pub given : OrganizationMember → OrganizationMember → OrganizationMember
given row m = record m { role = row.role; status = row.status }

-- INSERT … ON CONFLICT(user_id) DO UPDATE SET role = excluded.role, status = 'active'
unfoldable pub upsert_member : OrganizationMember → Members → Members
upsert_member row rows =
    if any (λ m. m.user_id == row.user_id) rows
    then update_rows (λ m. m.user_id == row.user_id) (given row) rows
    else rows ++ row ∷ []

abbrev pub joined : String → OrgActor → OrganizationInvite → OrganizationMember
joined now actor i = record {
  user_id = actor.user_id;
  role = i.role;
  status = "active";
  created_at = now;
}

-- The row that RETURNING gives: the new one, or the old one with its columns set.
abbrev pub returned : OrganizationMember → Members → OrganizationMember
returned row rows = elim (find? (λ m. m.user_id == row.user_id) rows) [
  | none ↦ row
  | some m ↦ given row m
]

unfoldable pub accept_organization_invite :
    Host
    → Result ManagementMap
    → Result String
    → String
    → OrgActor
    → String
    → Tenant
    → Result OrganizationMember × Tenant
accept_organization_invite host conn user_email now actor invite_id t =
    elim (check_accept host conn user_email now invite_id t) [
      | err e ↦ (err e, t)
      | ok i ↦ (
        ok (returned (joined now actor i) t.members),
        delete_invite invite_id
            (record t { members = upsert_member (joined now actor i) t.members }),
      )
    ]

-- The guards of handleAcceptOrganizationInvite.
unfoldable pub handle_accept_organization_invite :
    Host
    → Result ManagementMap
    → Result String
    → String
    → Result OrgActor
    → String
    → String
    → Tenant
    → Result OrganizationMember × Tenant
handle_accept_organization_invite host conn user_email now (err e) org_id invite_id t =
    (err (unauthorized "invalid session"), t)
handle_accept_organization_invite host conn user_email now (ok actor) org_id invite_id t =
    if actor.is_service || actor.user_id == ""
    then (err (unauthorized "invalid session"), t)
    else if org_id == "" || invite_id == ""
    then (err (invalid_request "organization id and invite id are required"), t)
    else accept_organization_invite host conn user_email now actor invite_id t
