-- ===== src/Auth/Organizations/Transfer.antt =====
-- What handing an organization over does.
use atomicbase.Prelude.{
  String, false, not, [], ◌∷◌, Option, none, some, ◌==◌, ◌≡◌, refl, sym, ap, ◌∙◌, arith, eq_iff,
  find?, trim_space, inl, inr,
}
use mathlib.Core.Option
use atomicbase.Result.{Error, Result, ok, err, require, Result-cases, >>=-eq-ok, ok-injective}
use atomicbase.Auth.Types.{OrgActor, ManagementMap, OrganizationMember, Organization, Tenant}
use atomicbase.Auth.Membership.Rows.{has_id}
use atomicbase.Auth.Membership.Rights.{IsAllowed}
use atomicbase.Auth.Invites.{upsert_member, returned}
use atomicbase.Auth.Invites.Accept.{find?-upsert_member, returned_fields}
use atomicbase.Auth.Organizations.{
  Organizations, record_or_missing, get_organization_record, authorize_organization_action,
  check_transfer, update_organizations, owned_by, new_owner, transfer_organization_ownership,
}
use atomicbase.Auth.Organizations.Rights.{authorize_organization_action-IsAllowed}

check_transfer-eq-ok :
    (conn : Result ManagementMap) (actor : OrgActor) (org_id user_id : String) (t : Tenant)
    (orgs : Organizations) {owner : String}
    → check_transfer conn actor org_id user_id t orgs ≡ ok owner
    → (owner ≡ trim_space user_id)
      × ((org : Organization) × (authorize_organization_action conn actor org_id "transferOwnership"
              t orgs
            ≡ ok org))
unfolding check_transfer
check_transfer-eq-ok conn actor org_id user_id t orgs e =
    let (_, _, e₁) = >>=-eq-ok (require (not (trim_space user_id == "")) _) _ e in
    let (org, granted, e₂) =
      >>=-eq-ok (authorize_organization_action conn actor org_id "transferOwnership" t orgs) _ e₁ in
    (sym (ok-injective e₂), (org, granted))

find?-update_organizations :
    (change : Organization → Organization) (id : String)
    → ((o : Organization) → (change o).id ≡ o.id)
    → (orgs : Organizations)
    → find? (λ o. o.id == id) (update_organizations change id orgs)
      ≡ Option.map change (find? (λ o. o.id == id) orgs)
find?-update_organizations change id keeps [] = refl
find?-update_organizations change id keeps (o ∷ orgs) =
    ground (arith, find?-update_organizations change id keeps orgs, keeps o, eq_iff o.id id)

record_or_missing-map :
    (change : Organization → Organization) (o : Option Organization) {org : Organization}
    → record_or_missing (Option.map change o) ≡ ok org
    → (old : Organization) × (org ≡ change old)
record_or_missing-map change none e = absurd (cc e)
record_or_missing-map change (some old) e = (old, sym (ok-injective e))

transferred :
    (conn : Result ManagementMap) (now : String) (actor : OrgActor) (org_id user_id : String)
    (t : Tenant) (orgs : Organizations) {owner : String}
    → check_transfer conn actor org_id user_id t orgs ≡ ok owner
    → transfer_organization_ownership conn now actor org_id user_id t orgs ≡ (
      get_organization_record (update_organizations (owned_by now owner) org_id orgs) org_id,
      (
        record t { members = upsert_member (new_owner now owner) t.members },
        update_organizations (owned_by now owner) org_id orgs,
      ),
    )
unfolding transfer_organization_ownership
transferred conn now actor org_id user_id t orgs passed =
    rw (passed, transfer_organization_ownership) refl

not_transferred :
    (conn : Result ManagementMap) (now : String) (actor : OrgActor) (org_id user_id : String)
    (t : Tenant) (orgs : Organizations) {c : Error}
    → check_transfer conn actor org_id user_id t orgs ≡ err c
    → transfer_organization_ownership conn now actor org_id user_id t orgs ≡ (err c, (t, orgs))
unfolding transfer_organization_ownership
not_transferred conn now actor org_id user_id t orgs bad =
    rw (bad, transfer_organization_ownership) refl

get_organization_record-owned_by :
    (now owner org_id : String) (orgs : Organizations) {org : Organization}
    → get_organization_record (update_organizations (owned_by now owner) org_id orgs) org_id
      ≡ ok org
    → org.owner_id ≡ owner
unfolding get_organization_record
get_organization_record-owned_by now owner org_id orgs e =
    let (old, same) =
      record_or_missing-map (owned_by now owner) _
        (rw (find?-update_organizations (owned_by now owner) org_id (λ o. refl) orgs) at e) in
    ap (λ o. o.owner_id) same

-- A transfer that answers with the organization makes the trimmed user id its owner, in the record
-- that is returned and as an active member with the role "owner"; a caller that is no service was
-- allowed to by transferOwnership of the policy of its active row.
pub transfer_organization_ownership-owner :
    (conn : Result ManagementMap) (now : String) (actor : OrgActor) (org_id user_id : String)
    (t : Tenant) (orgs : Organizations) (org : Organization)
    → (transfer_organization_ownership conn now actor org_id user_id t orgs).0 ≡ ok org
    → (org.owner_id ≡ trim_space user_id)
      × ((m : OrganizationMember) × (find?
              (has_id (trim_space user_id))
              (transfer_organization_ownership conn now actor org_id user_id t orgs).1.0.members
            ≡ some m)
          × (m.role ≡ "owner")
          × (m.status ≡ "active"))
      × (actor.is_service ≡ false → IsAllowed conn actor t.members "transferOwnership" "")
transfer_organization_ownership-owner conn now actor org_id user_id t orgs org e =
    elim (Result-cases (check_transfer conn actor org_id user_id t orgs)) [
      | inl (owner, passed) ↦
          let step = transferred conn now actor org_id user_id t orgs passed in
          let (known, (old, granted)) =
            check_transfer-eq-ok conn actor org_id user_id t orgs passed in
          let row = new_owner now owner in
          let (role, status) = returned_fields row t.members in
          (
            get_organization_record-owned_by now owner org_id orgs (rw step at e) ∙ known,
            (
              returned row t.members,
              rw (step, ← known) (find?-upsert_member row t.members),
              role,
              status,
            ),
            λ user.
                (authorize_organization_action-IsAllowed conn actor org_id "transferOwnership" t
                  orgs user granted).0,
          )
      | inr (c, bad) ↦
          absurd (cc (rw (not_transferred conn now actor org_id user_id t orgs bad) at e))
    ]
