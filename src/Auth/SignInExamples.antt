-- ===== src/Auth/SignInExamples.antt =====
-- Signing in, and what Alice does with her organization.
use atomicbase.Prelude.{
  arith, String, true, false, ◌≡◌, ◌≢◌, ◌<◌, refl, [], ◌∷◌, ◌++◌, none, some, find?, trim_space,
  split_dot, occurs, cut_prefix, ends_in, ◌⊎◌, ◌==◌, eq_iff,
}
use atomicbase.Result.{Error, Result, ok, err, other_error}
use atomicbase.Tools.Validation.{validate_resource_name}
use atomicbase.Auth.Types.{OrganizationMember, Organization}
use atomicbase.Auth.Management.{management_allows}
use atomicbase.Auth.Membership.{lookup_organization_member_role, may_act}
use atomicbase.Auth.Membership.Rows.{has_id}
use atomicbase.Auth.Membership.Rights.{IsAllowed}
use atomicbase.Auth.Invites.{normalize_email}
use atomicbase.Auth.Organizations.{
  CreateOrganizationParams, UpdateOrganizationRequest, Organizations, get_organization_record,
  count_owned_organizations, owner_of, check_create_organization, create_organization,
  authorize_organization_action, update_organization, delete_organization, check_transfer,
  transfer_organization_ownership,
}
use atomicbase.Auth.Organizations.Rights.{
  IsUpdated, update_organization-IsAllowed, delete_organization-IsAllowed,
  create_organization-owner,
}
use atomicbase.Auth.Organizations.Transfer.{transfer_organization_ownership-owner}
use atomicbase.Auth.Sessions.{
  Clock, Session, SessionRow, SessionRows, session_of, token, split_token, save_session,
  validate_session, delete_user_sessions,
}
use atomicbase.Auth.Sessions.Validate.{
  IsValid, validate_session-IsValid, validate_session-save_session,
  validate_session-delete_user_sessions,
}
use atomicbase.Auth.MagicLinks.{
  MagicLink, AuthState, Fresh, begin_magic_login, complete_magic_link, validate_email,
  save_magic_link,
}
use atomicbase.Auth.MagicLinks.Once.{begun, here, complete_magic_link_once}
use atomicbase.Auth.MagicLinks.SignIn.{SignedIn, begin_magic_login-complete_magic_link}
use atomicbase.Auth.Examples.{management, as_alice, members, tenant, host}

abbrev clock : Clock
clock = record { sha_hash = λ s. s; stored = λ t. t }

abbrev session : Session
session = record { id = "s1"; user_id = "alice"; secret = "x"; created_at = 1; expires_at = 9 }

abbrev other_row : SessionRow
other_row = record { id = "s2"; secret_hash = "y"; user_id = "bob"; created_at = 1; expires_at = 9 }

abbrev session_rows : SessionRows
session_rows = other_row ∷ []

abbrev fresh : Fresh
fresh = record { seconds = 5; now = 5; user_id = "u"; session_id = "s3"; session_secret = "z" }

abbrev empty_state : AuthState
empty_state = record { links = []; users = []; sessions = [] }

abbrev acme : Organization
acme = record {
  id = "acme";
  name = "Acme";
  owner_id = "alice";
  max_members = none;
  metadata = "{}";
  created_at = "1";
  updated_at = "1";
}

abbrev renaming : UpdateOrganizationRequest
renaming = record { name = some "Acme 2"; max_members = none; metadata = "" }

abbrev renamed : Organization
renamed = record acme { name = "Acme 2"; updated_at = "2" }

abbrev handed_over : Organization
handed_over = record acme { owner_id = "bob"; updated_at = "2" }

abbrev params : CreateOrganizationParams
params = record {
  id = "beta";
  name = "Beta";
  definition = "notes";
  owner_id = "";
  max_members = none;
  metadata = "";
}

abbrev beta : CreateOrganizationParams → Organization
beta p = record {
  id = p.id;
  name = p.name;
  owner_id = p.owner_id;
  max_members = p.max_members;
  metadata = "{}";
  created_at = "2";
  updated_at = "2";
}

abbrev store : CreateOrganizationParams → Organizations → Result Organization × Organizations
store p orgs = (ok (beta p), orgs ++ beta p ∷ [])

abbrev drop_all : String → Organizations → Result (Unit {0}) × Organizations
drop_all id orgs = (ok tt, [])

validate_session-IsValid_example : IsValid clock 5 "s2.y" session_rows (session_of other_row)
unfolding validate_session split_token split_dot
validate_session-IsValid_example =
    validate_session-IsValid clock 5 "s2.y" session_rows (session_of other_row) refl

validate_session-save_session_example :
    validate_session clock 5 (token session) (save_session clock session session_rows).1
    ≡ ok (record { id = "s1"; user_id = "alice"; secret = ""; created_at = 1; expires_at = 9 })
unfolding occurs
validate_session-save_session_example =
    validate_session-save_session clock 5 session session_rows refl refl (omega arith)

validate_session-delete_user_sessions_example : ◌≢◌ {A = String} "bob" "alice"
unfolding validate_session split_token split_dot delete_user_sessions
validate_session-delete_user_sessions_example =
    validate_session-delete_user_sessions clock 5 "s2.y" "alice" session_rows (session_of other_row)
      refl

abbrev link : MagicLink
link = record { id = "l0"; email = "dan@x"; token_hash = "t"; created_at = 1; expires_at = 901 }

abbrev linked_state : AuthState
linked_state = record empty_state { links = link ∷ [] }

abbrev sends : String → String → Result (Unit {0})
sends email secret = ok tt

q_ne_t : ◌≢◌ {A = String} "q" "t"
q_ne_t e = absurd (cc ((eq_iff "q" "t").1 e))

-- The link signs in, another link is sent, and the first token is tried again.
complete_magic_link_once_example :
    (complete_magic_link host clock fresh "t"
      (begin_magic_login host clock sends 5 "l2" "q" "eve@x"
        (complete_magic_link host clock fresh "t" linked_state).1).1).0
    ≡ err (other_error "invalid or expired magic link")
complete_magic_link_once_example =
    complete_magic_link_once host clock fresh fresh "t" linked_state _ (omega arith)
      (begun sends 5 "l2" "q" "eve@x" q_ne_t here)

begin_magic_login-complete_magic_link_example :
    SignedIn clock "s3"
      (normalize_email host " dan@x")
      empty_state
      (complete_magic_link host clock fresh "t"
        (begin_magic_login host clock sends 4 "l1" "t" " dan@x" empty_state).1).1
      (complete_magic_link host clock fresh "t"
        (begin_magic_login host clock sends 4 "l1" "t" " dan@x" empty_state).1).0
unfolding begin_magic_login validate_email save_magic_link normalize_email trim_space occurs
    cut_prefix ends_in
begin_magic_login-complete_magic_link_example =
    begin_magic_login-complete_magic_link host clock sends 4 "l1" "t" " dan@x" empty_state fresh
      refl refl refl refl (omega arith) refl

beta_ne_acme : ◌≢◌ {A = String} "beta" "acme"
beta_ne_acme e = absurd (cc ((eq_iff "beta" "acme").1 e))

update_organization-IsAllowed_example :
    ((IsAllowed (ok management) as_alice members "updateOrg" ""
        × IsUpdated "2" "acme"
            (acme ∷ [])
            (update_organization
              (λ s. true)
              (ok management)
              "2"
              as_alice
              "acme"
              renaming
              tenant
              (acme ∷ [])).1
            (update_organization
              (λ s. true)
              (ok management)
              "2"
              as_alice
              "acme"
              renaming
              tenant
              (acme ∷ [])).0)
      ⊎ ((e : Error) × (update_organization
              (λ s. true)
              (ok management)
              "2"
              as_alice
              "acme"
              renaming
              tenant
              (acme ∷ [])
            ≡ (err e, acme ∷ []))))
    × (find?
          (λ o. o.id == "beta")
          (update_organization
            (λ s. true)
            (ok management)
            "2"
            as_alice
            "acme"
            renaming
            tenant
            (acme ∷ [])).1
        ≡ find? (λ o. o.id == "beta") (acme ∷ []))
update_organization-IsAllowed_example =
    update_organization-IsAllowed (λ s. true) (ok management) "2" as_alice "acme" "beta" renaming
      tenant (acme ∷ []) refl beta_ne_acme

delete_organization-IsAllowed_example :
    (IsAllowed (ok management) as_alice members "deleteOrg" ""
      × ((org : Organization) × (find? (λ o. o.id == "acme") (acme ∷ []) ≡ some org))
      × (delete_organization drop_all (ok management) as_alice "acme" tenant (acme ∷ [])
          ≡ drop_all "acme" (acme ∷ [])))
    ⊎ ((e : Error) × (delete_organization drop_all
            (ok management)
            as_alice
            "acme"
            tenant
            (acme ∷ [])
          ≡ (err e, acme ∷ [])))
delete_organization-IsAllowed_example =
    delete_organization-IsAllowed drop_all (ok management) as_alice "acme" tenant (acme ∷ []) refl

create_organization-owner_example :
    (p : CreateOrganizationParams) × (create_organization
        (λ s. true)
        3
        store
        as_alice
        params
        (acme ∷ [])
      ≡ store p (acme ∷ []))
    × (p.owner_id ≡ "alice")
    × (0 < 3 → count_owned_organizations (acme ∷ []) "alice" < 3)
unfolding create_organization check_create_organization owner_of count_owned_organizations
    trim_space validate_resource_name
create_organization-owner_example =
    create_organization-owner (λ s. true) 3 store as_alice params (acme ∷ [])
      (beta (record params { owner_id = "alice" })) refl refl

transfer_organization_ownership-owner_example :
    (handed_over.owner_id ≡ trim_space "bob")
    × ((m : OrganizationMember) × (find?
            (has_id (trim_space "bob"))
            (transfer_organization_ownership
              (ok management)
              "2"
              as_alice
              "acme"
              "bob"
              tenant
              (acme ∷ [])).1.0.members
          ≡ some m)
        × (m.role ≡ "owner")
        × (m.status ≡ "active"))
    × (as_alice.is_service ≡ false
        → IsAllowed (ok management) as_alice members "transferOwnership" "")
unfolding transfer_organization_ownership check_transfer authorize_organization_action
    get_organization_record may_act lookup_organization_member_role management_allows trim_space
transfer_organization_ownership-owner_example =
    transfer_organization_ownership-owner (ok management) "2" as_alice "acme" "bob" tenant
      (acme ∷ []) handed_over refl
