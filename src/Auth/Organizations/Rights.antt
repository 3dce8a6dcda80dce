-- ===== src/Auth/Organizations/Rights.antt =====
-- Who may act on an organization.
use atomicbase.Prelude.{
  ℕ, ◌<◌, String, Bool, false, not, ◌==◌, ◌≡◌, ◌≢◌, refl, [], ◌∷◌, some, find?, eq_iff,
  Option-cases, ap, ◌∙◌, arith, trim_space, inl, inr, ◌⊎◌,
}
use atomicbase.Result.{
  Error, Result, ok, err, require, Result-cases, >>=-eq-ok, ok-injective, ◌>>=◌,
}
use atomicbase.Tools.Validation.{validate_resource_name}
use atomicbase.Auth.Types.{OrgActor, ManagementMap, Organization, Tenant}
use atomicbase.Auth.Membership.{may_act}
use atomicbase.Auth.Membership.Rights.{IsAllowed, may_act-IsAllowed}
use atomicbase.Auth.Organizations.{
  is_valid_metadata, resource_name_error, CreateOrganizationParams, UpdateOrganizationRequest,
  Organizations, get_organization_record, count_owned_organizations, owner_of,
  check_create_organization, create_organization, authorize_organization_action,
  update_organization, delete_organization, check_update_organization, update_organizations,
  updated,
}

pub authorize_organization_action-IsAllowed :
    (conn : Result ManagementMap) (actor : OrgActor) (org_id action : String) (t : Tenant)
    (orgs : Organizations) {org : Organization}
    → actor.is_service ≡ false
    → authorize_organization_action conn actor org_id action t orgs ≡ ok org
    → IsAllowed conn actor t.members action "" × (get_organization_record orgs org_id ≡ ok org)
unfolding authorize_organization_action
authorize_organization_action-IsAllowed (ok management) actor org_id action t orgs user e =
    let (done, may, known) = >>=-eq-ok (may_act actor t.members management action "" _) _ e in
    (may_act-IsAllowed actor t.members management _ _ _ user may, known)
authorize_organization_action-IsAllowed (err c) actor org_id action t orgs user e = absurd (cc e)

-- What PATCH answers where it was allowed: the record that it stored, with the same owner.
pub record IsUpdated (now org_id : String) (before after : Organizations)
    (answer : Result Organization) : Type 0 where
  pub old : Organization
  pub new : Organization
  pub was : find? (λ o. o.id == org_id) before ≡ some old
  pub stored : find? (λ o. o.id == org_id) after ≡ some new
  pub answered : answer ≡ ok new
  pub owner : new.owner_id ≡ old.owner_id
  pub time : new.updated_at ≡ now

find?-update_organizations :
    (change : Organization → Organization) (id : String)
    → ((o : Organization) → (change o).id ≡ o.id)
    → (orgs : Organizations) {old : Organization} → find? (λ o. o.id == id) orgs ≡ some old
    → find? (λ o. o.id == id) (update_organizations change id orgs) ≡ some (change old)
find?-update_organizations change id keep [] e = absurd (cc e)
find?-update_organizations change id keep (o ∷ orgs) {old} e =
    ground (arith, keep o, find?-update_organizations change id keep orgs {old = old}, e)

find?-update_organizations_other :
    (change : Organization → Organization) (id other : String)
    → ((o : Organization) → (change o).id ≡ o.id)
    → other ≢ id
    → (orgs : Organizations)
    → find? (λ o. o.id == other) (update_organizations change id orgs)
      ≡ find? (λ o. o.id == other) orgs
find?-update_organizations_other change id other keep ne [] = refl
find?-update_organizations_other change id other keep ne (o ∷ orgs) = ground (
  arith,
  keep o,
  eq_iff o.id id,
  eq_iff o.id other,
  find?-update_organizations_other change id other keep ne orgs,
)

get_organization_record-eq-ok :
    (orgs : Organizations) (id : String) {org : Organization}
    → get_organization_record orgs id ≡ ok org
    → find? (λ o. o.id == id) orgs ≡ some org
unfolding get_organization_record
get_organization_record-eq-ok orgs id e = elim (Option-cases (find? (λ o. o.id == id) orgs)) [
  | inl missing ↦ absurd (cc (rw missing at e))
  | inr (org, found) ↦ rw found (ap some (ok-injective (rw found at e)))
]

-- A non-service call of PATCH …/orgs/{orgID} either is allowed, the actor having an active row in the
-- organization whose role has updateOrg, and answers with the record that it stored, which keeps its
-- owner; or it answers with an error and changes nothing. No other organization is changed.
pub update_organization-IsAllowed :
    (json_valid : String → Bool) (conn : Result ManagementMap) (now : String) (actor : OrgActor)
    (org_id other : String) (req : UpdateOrganizationRequest) (t : Tenant) (orgs : Organizations)
    → actor.is_service ≡ false
    → other ≢ org_id
    → ((IsAllowed conn actor t.members "updateOrg" ""
          × IsUpdated now org_id orgs
              (update_organization json_valid conn now actor org_id req t orgs).1
              (update_organization json_valid conn now actor org_id req t orgs).0)
        ⊎ ((e : Error) × (update_organization json_valid conn now actor org_id req t orgs
              ≡ (err e, orgs))))
      × (find?
            (λ o. o.id == other)
            (update_organization json_valid conn now actor org_id req t orgs).1
          ≡ find? (λ o. o.id == other) orgs)
unfolding update_organization get_organization_record
update_organization-IsAllowed json_valid conn now actor org_id other req t orgs user ne =
    elim (Result-cases (
      check_update_organization json_valid req >>= λ r.
      authorize_organization_action conn actor org_id "updateOrg" t orgs >>= λ org. ok r)) [
        | inl (r, passed) ↦
            let (r', valid, e₁) = >>=-eq-ok (check_update_organization json_valid req) _ passed in
            let (old, granted, e₂) =
              >>=-eq-ok (authorize_organization_action conn actor org_id "updateOrg" t orgs) _ e₁ in
            let (allowed, known) =
              authorize_organization_action-IsAllowed conn actor org_id "updateOrg" t orgs user
                granted in
            let was = get_organization_record-eq-ok orgs org_id known in
            let stored = find?-update_organizations (updated now r) org_id (λ o. refl) orgs was in
            rw (passed, update_organization)
              (
                inl (
                  allowed,
                  record {
                    old = old;
                    new = updated now r old;
                    was = was;
                    stored = stored;
                    answered = rw stored refl;
                    owner = refl;
                    time = refl;
                  },
                ),
                find?-update_organizations_other (updated now r) org_id other (λ o. refl) ne orgs,
              )
        | inr (c, bad) ↦ rw (bad, update_organization) (inr (c, refl), refl)
      ]

-- A non-service call of DELETE …/orgs/{orgID} either is allowed by deleteOrg of the policy of the
-- actor's active row, and the organization is there; or it answers with an error and changes no
-- organization.
pub delete_organization-IsAllowed :
    (store : String → Organizations → Result (Unit {0}) × Organizations)
    (conn : Result ManagementMap) (actor : OrgActor) (org_id : String) (t : Tenant)
    (orgs : Organizations)
    → actor.is_service ≡ false
    → (IsAllowed conn actor t.members "deleteOrg" ""
        × ((org : Organization) × (find? (λ o. o.id == org_id) orgs ≡ some org))
        × (delete_organization store conn actor org_id t orgs ≡ store org_id orgs))
      ⊎ ((e : Error) × (delete_organization store conn actor org_id t orgs ≡ (err e, orgs)))
unfolding delete_organization
delete_organization-IsAllowed store conn actor org_id t orgs user =
    elim (Result-cases (authorize_organization_action conn actor org_id "deleteOrg" t orgs)) [
      | inl (org, granted) ↦
          let (allowed, known) =
            authorize_organization_action-IsAllowed conn actor org_id "deleteOrg" t orgs user
              granted in
          inl (
            allowed,
            (org, get_organization_record-eq-ok orgs org_id known),
            rw (granted, delete_organization) refl,
          )
      | inr (c, bad) ↦ inr (c, rw (bad, delete_organization) refl)
    ]

owner_of-user :
    (limit : ℕ) (actor : OrgActor) (owner_id : String) (orgs : Organizations) {owner : String}
    → actor.is_service ≡ false
    → owner_of limit actor owner_id orgs ≡ ok owner
    → (owner ≡ actor.user_id) × (0 < limit → count_owned_organizations orgs actor.user_id < limit)
unfolding owner_of
owner_of-user limit actor owner_id orgs user e = (ground arith, λ positive. ground arith)

check_create_organization-owner :
    (json_valid : String → Bool) (limit : ℕ) (actor : OrgActor) (req : CreateOrganizationParams)
    (orgs : Organizations) {params : CreateOrganizationParams}
    → actor.is_service ≡ false
    → check_create_organization json_valid limit actor req orgs ≡ ok params
    → owner_of limit actor (trim_space req.owner_id) orgs ≡ ok params.owner_id
unfolding check_create_organization
check_create_organization-owner json_valid limit actor req orgs user e =
    let (_, _, e₁) = >>=-eq-ok (require (not (trim_space req.id == "")) _) _ e in
    let (_, _, e₂) =
      >>=-eq-ok (resource_name_error (validate_resource_name (trim_space req.id))) _ e₁ in
    let (_, _, e₃) = >>=-eq-ok (require (not (trim_space req.name == "")) _) _ e₂ in
    let (_, _, e₄) = >>=-eq-ok (require (not (trim_space req.definition == "")) _) _ e₃ in
    let (_, _, e₅) = >>=-eq-ok (require (is_valid_metadata json_valid req.metadata) _) _ e₄ in
    let (owner, known, e₆) = >>=-eq-ok (owner_of limit actor (trim_space req.owner_id) orgs) _ e₅ in
    known ∙ ap ok (ap (λ p. p.owner_id) (ok-injective e₆))

-- An organization that a user creates is handed to the store as the user's own, and only while the
-- user owns fewer organizations than the limit, where there is one.
pub create_organization-owner :
    (json_valid : String → Bool) (limit : ℕ)
    (store : CreateOrganizationParams → Organizations → Result Organization × Organizations)
    (actor : OrgActor) (req : CreateOrganizationParams) (orgs : Organizations) (org : Organization)
    → actor.is_service ≡ false
    → (create_organization json_valid limit store actor req orgs).0 ≡ ok org
    → (params : CreateOrganizationParams) × (create_organization json_valid limit store actor req
          orgs
        ≡ store params orgs)
      × (params.owner_id ≡ actor.user_id)
      × (0 < limit → count_owned_organizations orgs actor.user_id < limit)
unfolding create_organization
create_organization-owner json_valid limit store actor req orgs org user e =
    elim (Result-cases (check_create_organization json_valid limit actor req orgs)) [
      | inl (params, passed) ↦
          let owned = check_create_organization-owner json_valid limit actor req orgs user passed in
          let (same, few) = owner_of-user limit actor (trim_space req.owner_id) orgs user owned in
          (params, rw (passed, create_organization) refl, same, few)
      | inr (c, bad) ↦ absurd (cc (rw (bad, create_organization) at e))
    ]
