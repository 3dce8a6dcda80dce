-- ===== src/Auth/Examples.antt =====
-- An organization with an owner and a member, and runs of the calls on it.
use atomicbase.Prelude.{
  arith, eq_iff, Bool-cases, inl, inr, ◌∙◌, sym, ◌≤◌, String, true, false, ◌≡◌, ◌≢◌, refl, [], ◌∷◌,
  ◌++◌, none, some, ◌==◌, any, find?, count_by, trim_space, str_ltb,
}
use atomicbase.Result.{ok, err, database_not_found}
use atomicbase.Auth.Types.{
  OrgActor, ManagementPermission, ManagementMap, OrganizationMember, OrganizationInvite, Tenant,
  CreateMemberRequest, UpdateMemberRequest,
}
use atomicbase.Auth.Management.{management_allows}
use atomicbase.Auth.Membership.{
  Members, is_active_owner, lookup_organization_member_role, normalize_create, normalize_update,
  may_act, insert_member, update_member, remove_member, check_create, check_update, check_delete,
  create_organization_member, update_organization_member, delete_organization_member,
}
use atomicbase.Auth.Membership.Rows.{has_id}
use atomicbase.Auth.Membership.Owners.{IsSound, create, delete, run, here, next, Reach-IsSound}
use atomicbase.Auth.Membership.Rights.{
  IsAllowed, create_organization_member-IsAllowed, update_organization_member-IsAllowed,
  delete_organization_member-IsAllowed,
}
use atomicbase.Auth.Membership.Frame.{find?-run, run-refused}
use atomicbase.Auth.Invites.{
  Host, normalize_email, CreateInviteRequest, normalize_invite, check_invite, insert_invite,
  open_invite, settle, create_organization_invite, check_accept, accept_organization_invite,
}
use atomicbase.Auth.Invites.Accept.{IsInvited, accept_organization_invite-IsInvited}
use atomicbase.Auth.Invites.Once.{created, accept_organization_invite_once}
use atomicbase.Auth.Invites.Once
use atomicbase.Auth.Invites.Announce.{create_organization_invite_refused}
use atomicbase.Auth.Invites.LastOwner.{other_owner, accept_organization_invite-owners}

abbrev everyone : ManagementPermission
everyone = record { any_role = true; roles = [] }

abbrev members_only : ManagementPermission
members_only = record { any_role = false; roles = "member" ∷ [] }

abbrev pub management : ManagementMap
management =
    (
      "owner",
      record {
        invite = everyone;
        assign_role = everyone;
        remove_member = members_only;
        update_org = true;
        delete_org = true;
        transfer_ownership = true;
      },
    )
    ∷ []

abbrev alice : OrganizationMember
alice = record { user_id = "alice"; role = "owner"; status = "active"; created_at = "1" }

abbrev bob : OrganizationMember
bob = record { user_id = "bob"; role = "member"; status = "active"; created_at = "2" }

abbrev pub members : Members
members = alice ∷ bob ∷ []

abbrev pub as_alice : OrgActor
as_alice = record { user_id = "alice"; is_service = false }

abbrev as_bob : OrgActor
as_bob = record { user_id = "bob"; is_service = false }

abbrev carol_request : CreateMemberRequest
carol_request = record { user_id = " carol"; role = "member"; status = "" }

abbrev carol : OrganizationMember
carol = record { user_id = "carol"; role = "member"; status = "active"; created_at = "3" }

abbrev promotion : UpdateMemberRequest
promotion = record { role = some "admin"; status = none }

abbrev bob_as_admin : OrganizationMember
bob_as_admin = record { user_id = "bob"; role = "admin"; status = "active"; created_at = "2" }

abbrev invite : OrganizationInvite
invite = record {
  id = "i1";
  email = "alice@x";
  role = "member";
  invited_by = "bob";
  expires_at = "9";
  created_at = "1";
}

abbrev pub tenant : Tenant
tenant = record { members = members; invites = invite ∷ [] }

abbrev pub host : Host
host = record { to_lower = λ s. s; is_rfc3339 = λ s. true }

abbrev alice_as_member : OrganizationMember
alice_as_member = record { user_id = "alice"; role = "member"; status = "active"; created_at = "1" }

abbrev invite_request : CreateInviteRequest
invite_request = record { id = ""; email = "dan@x"; role = "member"; expires_at = "" }

alice_ne_bob : ◌≢◌ {A = String} "alice" "bob"
alice_ne_bob e = cc e

at_most_one_member : (j : String) → count_by (has_id j) members ≤ 1
at_most_one_member j = elim (Bool-cases ("alice" == j)) [
  | inl a ↦ elim (Bool-cases ("bob" == j)) [
    | inl b ↦ absurd (alice_ne_bob ((eq_iff "alice" j).0 a ∙ sym ((eq_iff "bob" j).0 b)))
    | inr b ↦ rw (a, b) (omega arith)
  ]
  | inr a ↦ elim (Bool-cases ("bob" == j)) [
    | inl b ↦ rw (a, b) (omega arith)
    | inr b ↦ rw (a, b) (omega arith)
  ]
]

members-IsSound : IsSound members
members-IsSound = record {
  keyed = record { at_most_one = at_most_one_member };
  owned = omega arith;
}

-- Bob is removed, then Carol is added.
Reach-IsSound_example : IsSound (
    run
      (ok management)
      "3"
      (create as_alice carol_request)
      (run (ok management) "3" (delete as_alice "bob") members))
Reach-IsSound_example = Reach-IsSound members-IsSound (
    next (ok management) "3" (create as_alice carol_request)
      (next (ok management) "3" (delete as_alice "bob") here))

create_organization_member-IsAllowed_example :
    IsAllowed (ok management) as_alice members "invite" "member"
    × ("carol" ≡ trim_space " carol")
    × (any (has_id "carol") members ≡ false)
    × ((create_organization_member (ok management) "3" as_alice carol_request members).1
        ≡ members ++ carol ∷ [])
unfolding create_organization_member check_create normalize_create may_act
    lookup_organization_member_role management_allows insert_member trim_space
create_organization_member-IsAllowed_example =
    create_organization_member-IsAllowed (ok management) "3" as_alice carol_request members carol
      refl refl

update_organization_member-IsAllowed_example :
    ((role : String) × (lookup_organization_member_role members "bob" ≡ ok role))
    × IsAllowed (ok management) as_alice members "assignRole" "admin"
    × (find?
          (has_id "bob")
          (update_organization_member (ok management) as_alice "bob" promotion members).1
        ≡ some bob_as_admin)
unfolding update_organization_member check_update normalize_update may_act
    lookup_organization_member_role management_allows update_member trim_space
update_organization_member-IsAllowed_example =
    update_organization_member-IsAllowed (ok management) as_alice "bob" promotion members
      bob_as_admin members-IsSound.keyed refl refl

delete_organization_member-IsAllowed_example :
    (role : String) × (lookup_organization_member_role members "bob" ≡ ok role)
    × IsAllowed (ok management) as_alice members "removeMember" role
unfolding delete_organization_member check_delete may_act lookup_organization_member_role
    management_allows remove_member
delete_organization_member-IsAllowed_example =
    delete_organization_member-IsAllowed (ok management) as_alice "bob" members refl refl

find?-run_example :
    find? (has_id "alice") (run (ok management) "3" (delete as_alice "bob") members)
    ≡ find? (has_id "alice") members
find?-run_example =
    find?-run (ok management) "3" (delete as_alice "bob") members "alice" (λ e. cc e)

-- Bob may not remove Alice.
run-refused_example : run (ok management) "3" (delete as_bob "alice") members ≡ members
unfolding delete_organization_member check_delete may_act lookup_organization_member_role
    management_allows remove_member
run-refused_example = run-refused (ok management) "3" (delete as_bob "alice") members refl

accept_organization_invite-IsInvited_example :
    (i : OrganizationInvite) × IsInvited host (ok management) (ok "alice@x") "5" "i1" tenant i
    × (alice_as_member.role ≡ i.role)
    × (alice_as_member.status ≡ "active")
    × (find?
          (has_id "alice")
          (accept_organization_invite host
            (ok management)
            (ok "alice@x")
            "5"
            as_alice
            "i1"
            tenant).1.members
        ≡ some alice_as_member)
unfolding accept_organization_invite check_accept normalize_email trim_space str_ltb
accept_organization_invite-IsInvited_example =
    accept_organization_invite-IsInvited host (ok management) (ok "alice@x") "5" as_alice "i1"
      tenant alice_as_member refl

i2_ne_i1 : ◌≢◌ {A = String} "i2" "i1"
i2_ne_i1 e = absurd (cc ((eq_iff "i2" "i1").1 e))

-- Another invite is made after the first was accepted.
accept_organization_invite_once_example :
    (accept_organization_invite host
      (ok management)
      (ok "alice@x")
      "6"
      as_alice
      "i1"
      (create_organization_invite host
        (ok management)
        (err database_not_found)
        (λ org i. ok tt)
        "5"
        "i2"
        "9"
        as_alice
        invite_request
        (accept_organization_invite host
          (ok management)
          (ok "alice@x")
          "5"
          as_alice
          "i1"
          tenant).1).1).0
    ≢ ok alice_as_member
unfolding accept_organization_invite check_accept normalize_email trim_space str_ltb
accept_organization_invite_once_example =
    accept_organization_invite_once host (ok management) (ok management) (ok "alice@x")
      (ok "alice@x") "5" "6" as_alice as_alice "i1" tenant _ alice_as_member alice_as_member refl
      (created (ok management) (err database_not_found) (λ org i. ok tt) "5" "i2" "9" as_alice
        invite_request i2_ne_i1 Once.here)

-- The organization's record cannot be read, so the invite is taken back.
create_organization_invite_refused_example :
    (create_organization_invite host
      (ok management)
      (err database_not_found)
      (λ org i. ok tt)
      "5"
      "i2"
      "9"
      as_alice
      invite_request
      tenant).1
    ≡ tenant
unfolding create_organization_invite open_invite check_invite normalize_invite may_act
    lookup_organization_member_role management_allows insert_invite normalize_email trim_space
    settle
create_organization_invite_refused_example =
    create_organization_invite_refused host (ok management) (err database_not_found)
      (λ org i. ok tt) "5" "i2" "9" as_alice invite_request tenant refl

-- Alice, the only owner, accepts an invite as a member.
accept_organization_invite-owners_example :
    count_by is_active_owner
      (accept_organization_invite host
        (ok management)
        (ok "alice@x")
        "5"
        as_alice
        "i1"
        tenant).1.members
    ≡ count_by (other_owner "alice") members
unfolding check_accept normalize_email trim_space str_ltb
accept_organization_invite-owners_example =
    accept_organization_invite-owners host (ok management) (ok "alice@x") "5" as_alice "i1" tenant
      invite refl (λ e. cc e)
