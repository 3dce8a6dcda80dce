-- ===== src/Auth/Management.antt =====
-- api/auth/org_membership.go: what a management policy allows a role to do.
use atomicbase.Prelude.{
  String, Bool, true, false, [], ◌∷◌, Option, none, some, ◌==◌, any, if◌then◌else◌,
}
use atomicbase.Auth.Types.{ManagementPermission, ManagementPolicy, ManagementMap}

-- `management[role]`
unfoldable pub policy_of : String → ManagementMap → Option ManagementPolicy
policy_of role [] = none
policy_of role ((r, p) ∷ rest) = if r == role then some p else policy_of role rest

-- The test on `len(permission.Roles) == 0` is the loop over no roles.
unfoldable pub permission_allows : ManagementPermission → String → Bool
permission_allows permission target_role =
    if permission.any_role then true else any (λ role. role == target_role) permission.roles

unfoldable pub policy_allows : ManagementPolicy → String → String → Bool
unfolding permission_allows
policy_allows policy action target_role =
    if action == "invite"
    then permission_allows policy.invite target_role
    else if action == "assignRole"
    then permission_allows policy.assign_role target_role
    else if action == "removeMember"
    then permission_allows policy.remove_member target_role
    else if action == "updateOrg"
    then policy.update_org
    else if action == "deleteOrg"
    then policy.delete_org
    else if action == "transferOwnership"
    then policy.transfer_ownership
    else false

unfoldable pub management_allows : ManagementMap → String → String → String → Bool
unfolding policy_of policy_allows
management_allows management actor_role action target_role =
    elim (policy_of actor_role management) [
      | none ↦ false
      | some policy ↦ policy_allows policy action target_role
    ]
