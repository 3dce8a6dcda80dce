-- ===== src/Auth/Membership/Rights.antt =====
-- Who may add, change and remove members.
use atomicbase.Prelude.{
  find?, String, true, false, ◌≡◌, refl, [], ◌∷◌, ◌++◌, Option, some, any, arith, trim_space, inl,
  inr,
}
use atomicbase.Result.{Result, ok, err, Result-cases, >>=-eq-ok, ok-injective}
use atomicbase.Auth.Types.{
  OrgActor, ManagementMap, OrganizationMember, CreateMemberRequest, UpdateMemberRequest,
}
use atomicbase.Auth.Management.{management_allows}
use atomicbase.Auth.Membership.{
  Members, insert_member, lookup_organization_member_role, may_act, normalize_create,
  normalize_update, coalesce, create_organization_member, update_organization_member,
  delete_organization_member, check_create, check_update, check_delete, new_member, row_or_denied,
}
use atomicbase.Auth.Membership.Rows.{has_id, IsKeyed}
use atomicbase.Auth.Membership.Stored.{update_member-stored}

-- The actor has an active row, whose role the policy allows `action` on `target`.
pub record IsAllowed (conn : Result ManagementMap) (actor : OrgActor) (rows : Members)
    (action target : String) : Type 0 where
  pub management : ManagementMap
  pub role : String
  pub connected : conn ≡ ok management
  pub member : lookup_organization_member_role rows actor.user_id ≡ ok role
  pub allowed : management_allows management role action target ≡ true

pub may_act-IsAllowed :
    (actor : OrgActor) (rows : Members) (management : ManagementMap) (action target denial : String)
    {done : Unit {0}}
    → actor.is_service ≡ false
    → may_act actor rows management action target denial ≡ ok done
    → IsAllowed (ok management) actor rows action target
unfolding may_act
may_act-IsAllowed actor rows management action target denial user e =
    elim (Result-cases (lookup_organization_member_role rows actor.user_id)) [
      | inl (role, found) ↦ record {
        management = management;
        role = role;
        connected = refl;
        member = found;
        allowed = ground (arith, found);
      }
      | inr (c, missing) ↦ absurd (ground (arith, missing))
    ]

check_create-eq-ok :
    (conn : Result ManagementMap) (actor : OrgActor) (req : CreateMemberRequest) (rows : Members)
    {r : CreateMemberRequest}
    → actor.is_service ≡ false
    → check_create conn actor req rows ≡ ok r
    → (normalize_create req ≡ ok r) × IsAllowed conn actor rows "invite" r.role
unfolding check_create
check_create-eq-ok (ok management) actor req rows user e =
    let (req', normal, e') = >>=-eq-ok (normalize_create req) _ e in
    let (done, may, same) = >>=-eq-ok (may_act actor rows management "invite" req'.role _) _ e' in
    let eq : req' ≡ _ = ok-injective same in
    (rw (← eq) normal, rw (← eq) (may_act-IsAllowed actor rows management _ _ _ user may))
check_create-eq-ok (err c) actor req rows user e =
    let (req', normal, bad) = >>=-eq-ok (normalize_create req) _ e in absurd (cc bad)

normalize_create-trim_space :
    (req : CreateMemberRequest) {r : CreateMemberRequest}
    → normalize_create req ≡ ok r
    → r.user_id ≡ trim_space req.user_id
unfolding normalize_create
normalize_create-trim_space req e = ground arith

insert_member-eq-some :
    (actor : OrgActor) (row : OrganizationMember) (rows : Members) {m : OrganizationMember}
    → (insert_member actor row rows).0 ≡ some m
    → (row ≡ m)
      × (any (has_id row.user_id) rows ≡ false)
      × ((insert_member actor row rows).1 ≡ rows ++ row ∷ [])
unfolding insert_member
insert_member-eq-some actor row rows e = (ground arith, ground arith, ground arith)

row_or_denied-eq-ok :
    (denial : String) (o : Option OrganizationMember) {m : OrganizationMember}
    → row_or_denied denial o ≡ ok m
    → o ≡ some m
row_or_denied-eq-ok denial o e = ground arith

-- A non-service call of POST …/members that succeeds is allowed by the policy for the role that it
-- gives: the actor has an active row, whose role may `invite` the new member's role. The trimmed
-- user id was in no row, and exactly one row with it is appended.
pub create_organization_member-IsAllowed :
    (conn : Result ManagementMap) (now : String) (actor : OrgActor) (req : CreateMemberRequest)
    (rows : Members) (m : OrganizationMember)
    → actor.is_service ≡ false
    → (create_organization_member conn now actor req rows).0 ≡ ok m
    → IsAllowed conn actor rows "invite" m.role
      × (m.user_id ≡ trim_space req.user_id)
      × (any (has_id m.user_id) rows ≡ false)
      × ((create_organization_member conn now actor req rows).1 ≡ rows ++ m ∷ [])
unfolding create_organization_member
create_organization_member-IsAllowed conn now actor req rows m user e =
    elim (Result-cases (check_create conn actor req rows)) [
      | inl (r, checked) ↦
          let (normal, allowed) = check_create-eq-ok conn actor req rows user checked in
          let inserted = row_or_denied-eq-ok _ _ (rw (checked, create_organization_member) at e) in
          let (same, fresh, appended) =
            insert_member-eq-some actor (new_member now r) rows inserted in
          rw (checked, create_organization_member)
            (rw (← same) (allowed, normalize_create-trim_space req normal, fresh, appended))
      | inr (c, bad) ↦ absurd (ground (arith, bad))
    ]

check_update-eq-ok :
    (conn : Result ManagementMap) (actor : OrgActor) (uid : String) (req : UpdateMemberRequest)
    (rows : Members) {r : UpdateMemberRequest}
    → actor.is_service ≡ false
    → check_update conn actor uid req rows ≡ ok r
    → (normalize_update req ≡ ok r)
      × ((role : String) × (lookup_organization_member_role rows uid ≡ ok role)
          × IsAllowed conn actor rows "assignRole" (coalesce r.role role))
unfolding check_update
check_update-eq-ok (ok management) actor uid req rows user e =
    let (req', normal, e') = >>=-eq-ok (normalize_update req) _ e in
    let (role, target, e₂) = >>=-eq-ok (lookup_organization_member_role rows uid) _ e' in
    let (done, may, same) =
      >>=-eq-ok (may_act actor rows management "assignRole" (coalesce req'.role role) _) _ e₂ in
    let eq : req' ≡ _ = ok-injective same in
    (
      rw (← eq) normal,
      (role, target, rw (← eq) (may_act-IsAllowed actor rows management _ _ _ user may)),
    )
check_update-eq-ok (err c) actor uid req rows user e =
    let (req', normal, bad) = >>=-eq-ok (normalize_update req) _ e in absurd (cc bad)

-- A non-service call of PATCH …/members/{userID} that succeeds is allowed by the policy, where no
-- user id has two rows: the target had an active row, the row that it has now is the one returned,
-- and the actor's active role may `assignRole` the role of that row.
pub update_organization_member-IsAllowed :
    (conn : Result ManagementMap) (actor : OrgActor) (uid : String) (req : UpdateMemberRequest)
    (rows : Members) (m : OrganizationMember)
    → IsKeyed rows
    → actor.is_service ≡ false
    → (update_organization_member conn actor uid req rows).0 ≡ ok m
    → ((role : String) × (lookup_organization_member_role rows uid ≡ ok role))
      × IsAllowed conn actor rows "assignRole" m.role
      × (find? (has_id uid) (update_organization_member conn actor uid req rows).1 ≡ some m)
unfolding update_organization_member
update_organization_member-IsAllowed conn actor uid req rows m keyed user e =
    elim (Result-cases (check_update conn actor uid req rows)) [
      | inl (r, checked) ↦
          let (role, target, allowed) =
            (check_update-eq-ok conn actor uid req rows user checked).1 in
          let changed = row_or_denied-eq-ok _ _ (rw (checked, update_organization_member) at e) in
          let (given, stored) = update_member-stored actor uid r rows keyed target changed in
          rw (checked, update_organization_member) ((role, target), rw (← given) allowed, stored)
      | inr (c, bad) ↦ absurd (ground (arith, bad))
    ]

check_delete-eq-ok :
    (conn : Result ManagementMap) (actor : OrgActor) (uid : String) (rows : Members)
    {done : Unit {0}}
    → actor.is_service ≡ false
    → check_delete conn actor uid rows ≡ ok done
    → (role : String) × (lookup_organization_member_role rows uid ≡ ok role)
      × IsAllowed conn actor rows "removeMember" role
unfolding check_delete
check_delete-eq-ok (ok management) actor uid rows user e =
    let (role, target, may) = >>=-eq-ok (lookup_organization_member_role rows uid) _ e in
    (role, target, may_act-IsAllowed actor rows management _ _ _ user may)
check_delete-eq-ok (err c) actor uid rows user e = absurd (cc e)

-- A non-service call of DELETE …/members/{userID} that succeeds is allowed by the policy: the target
-- has an active row, and the actor's active role may `removeMember` the target's role.
pub delete_organization_member-IsAllowed :
    (conn : Result ManagementMap) (actor : OrgActor) (uid : String) (rows : Members)
    {done : Unit {0}}
    → actor.is_service ≡ false
    → (delete_organization_member conn actor uid rows).0 ≡ ok done
    → (role : String) × (lookup_organization_member_role rows uid ≡ ok role)
      × IsAllowed conn actor rows "removeMember" role
unfolding delete_organization_member
delete_organization_member-IsAllowed conn actor uid rows user e =
    elim (Result-cases (check_delete conn actor uid rows)) [
      | inl (r, checked) ↦ check_delete-eq-ok conn actor uid rows user checked
      | inr (c, bad) ↦ absurd (ground (arith, bad))
    ]
