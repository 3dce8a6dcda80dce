-- ===== src/Auth/Types.antt =====
-- The data of api/auth: actors, rows of the tables of a tenant database, management policies.
use atomicbase.Prelude.{String, Bool, List, ℤ, Option}

-- `orgActor`; its session is not read by the operations below.
pub record OrgActor : Type 0 where
  pub user_id : String
  pub is_service : Bool

pub record ManagementPermission : Type 0 where
  pub any_role : Bool
  pub roles : List String

pub record ManagementPolicy : Type 0 where
  pub invite : ManagementPermission
  pub assign_role : ManagementPermission
  pub remove_member : ManagementPermission
  pub update_org : Bool
  pub delete_org : Bool
  pub transfer_ownership : Bool

-- `map[string]ManagementPolicy`, keyed by role.
abbrev pub ManagementMap : Type 0
ManagementMap = List (String × ManagementPolicy)

-- A row of `atombase_membership`.
pub record OrganizationMember : Type 0 where
  pub user_id : String
  pub role : String
  pub status : String
  pub created_at : String

-- A row of `atombase_invites`.
pub record OrganizationInvite : Type 0 where
  pub id : String
  pub email : String
  pub role : String
  pub invited_by : String
  pub expires_at : String
  pub created_at : String

-- The tables of an organization's own database.
pub record Tenant : Type 0 where
  pub members : List OrganizationMember
  pub invites : List OrganizationInvite

-- A row of `atombase_organizations`.
pub record Organization : Type 0 where
  pub id : String
  pub name : String
  pub owner_id : String
  pub max_members : Option ℤ
  pub metadata : String
  pub created_at : String
  pub updated_at : String

pub record CreateMemberRequest : Type 0 where
  pub user_id : String
  pub role : String
  pub status : String

pub record UpdateMemberRequest : Type 0 where
  pub role : Option String
  pub status : Option String
