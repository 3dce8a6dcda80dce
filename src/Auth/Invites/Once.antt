-- ===== src/Auth/Invites/Once.antt =====
-- An invite that was accepted is gone, whatever happens later.
use atomicbase.Prelude.{
  String, Bool, false, ◌≡◌, ◌≢◌, refl, [], ◌∷◌, ◌++◌, none, ◌==◌, eq_iff, any, find?, reject, arith,
  inl, inr, trim_space, if◌then◌else◌,
}
use atomicbase.Result.{Result, ok, err, Result-cases}
use atomicbase.Auth.Types.{
  OrgActor, ManagementMap, OrganizationMember, OrganizationInvite, Organization, Tenant,
}
use atomicbase.Auth.Membership.{Members}
use atomicbase.Auth.Invites.{
  Host, Invites, CreateInviteRequest, is_open, check_accept, normalize_invite, check_invite,
  insert_invite, open_invite, announce, settle, add_invite, create_organization_invite,
  check_delete_invite, delete_organization_invite, delete_invite, accept_organization_invite,
}
use atomicbase.Auth.Invites.Accept.{
  accept_passed, accept_failed, accept_organization_invite-IsInvited,
}

-- The id of the invite that a request makes.
abbrev pub id_of : String → CreateInviteRequest → String
id_of fresh req = if trim_space req.id == "" then fresh else trim_space req.id

-- The invites and the members of an organization after any number of calls, by anyone and at any
-- time, of which none makes an invite with this id. Whatever is done to the members counts as one.
pub data Later (host : Host) (id : String) : Tenant → Tenant → Type 0 where
  here : {t : Tenant} → Later host id t t
  created :
      (conn : Result ManagementMap) (org_record : Result Organization)
      (send : Organization → OrganizationInvite → Result (Unit {0})) (now fresh in_a_week : String)
      (actor : OrgActor) (req : CreateInviteRequest) {s t : Tenant}
      → id_of fresh req ≢ id
      → Later host id s t
      → Later host id s
          (create_organization_invite host conn org_record send now fresh in_a_week actor req t).1
  deleted :
      (conn : Result ManagementMap) (actor : OrgActor) (other : String) {s t : Tenant}
      → Later host id s t
      → Later host id s (delete_organization_invite conn actor other t).1
  accepted :
      (conn : Result ManagementMap) (user_email : Result String) (now : String) (actor : OrgActor)
      (other : String) {s t : Tenant}
      → Later host id s t
      → Later host id s (accept_organization_invite host conn user_email now actor other t).1
  changed :
      (rows : Members) {s t : Tenant}
      → Later host id s t
      → Later host id s (record t { members = rows })

-- No invite has this id.
abbrev IsGone : String → Tenant → Type 0
IsGone id t = any (λ i. i.id == id) t.invites ≡ false

any-reject :
    (p q : OrganizationInvite → Bool) (is : Invites)
    → any p is ≡ false
    → any p (reject q is) ≡ false
any-reject p q [] h = refl
any-reject p q (i ∷ is) h = ground (arith, any-reject p q is)

any-reject_same : (p : OrganizationInvite → Bool) (is : Invites) → any p (reject p is) ≡ false
any-reject_same p [] = refl
any-reject_same p (i ∷ is) = ground (arith, any-reject_same p is)

any-append :
    (p : OrganizationInvite → Bool) (row : OrganizationInvite) (is : Invites)
    → p row ≡ false
    → any p is ≡ false
    → any p (is ++ row ∷ []) ≡ false
any-append p row [] new h = ground (arith, new)
any-append p row (i ∷ is) new h = ground (arith, any-append p row is)

find?-gone :
    (id now : String) (is : Invites)
    → any (λ i. i.id == id) is ≡ false
    → find? (is_open now id) is ≡ none
find?-gone id now [] h = refl
find?-gone id now (i ∷ is) h = ground (arith, find?-gone id now is)

open_invite-id :
    (host : Host) (conn : Result ManagementMap) (now fresh in_a_week : String) (actor : OrgActor)
    (req : CreateInviteRequest) (t : Tenant) {row : OrganizationInvite}
    → open_invite host conn now fresh in_a_week actor req t ≡ ok row
    → row.id ≡ id_of fresh req
unfolding open_invite check_invite insert_invite normalize_invite
open_invite-id host conn now fresh in_a_week actor req t e = ground (arith, e)

settle-IsGone :
    (r : Result (Unit {0})) (row : OrganizationInvite) (t : Tenant) (id : String)
    → row.id ≢ id
    → IsGone id t
    → IsGone id (settle r row (add_invite row t)).1
unfolding settle delete_invite
settle-IsGone (ok done) row t id ne h =
    any-append (λ i. i.id == id) row t.invites (ground (arith, eq_iff row.id id)) h
settle-IsGone (err e) row t id ne h =
    any-reject (λ i. i.id == id) (λ i. i.id == row.id) (t.invites ++ row ∷ [])
      (any-append (λ i. i.id == id) row t.invites (ground (arith, eq_iff row.id id)) h)

Later-IsGone :
    {host : Host} {id : String} {s t : Tenant} → Later host id s t → IsGone id s → IsGone id t
unfolding create_organization_invite delete_organization_invite delete_invite
Later-IsGone here h = h
Later-IsGone {host} {id}
      (created conn org_record send now fresh in_a_week actor req {t = t} ne before) h =
    let gone = Later-IsGone before h in
    elim (Result-cases (open_invite host conn now fresh in_a_week actor req t)) [
      | inl (row, e) ↦
          rw (e, create_organization_invite)
            (settle-IsGone (announce org_record send row) row t id
              (rw (open_invite-id host conn now fresh in_a_week actor req t e) ne) gone)
      | inr (c, e) ↦ rw (e, create_organization_invite) gone
    ]
Later-IsGone {id = id} (deleted conn actor other {t = t} before) h =
    let gone = Later-IsGone before h in
    elim (Result-cases (check_delete_invite conn actor other t)) [
      | inl (done, e) ↦
          rw (e, delete_organization_invite)
            (any-reject (λ i. i.id == id) (λ i. i.id == other) t.invites gone)
      | inr (c, e) ↦ rw (e, delete_organization_invite) gone
    ]
Later-IsGone {host} {id} (accepted conn user_email now actor other {t = t} before) h =
    let gone = Later-IsGone before h in
    elim (Result-cases (check_accept host conn user_email now other t)) [
      | inl (i, e) ↦
          rw (accept_passed host conn user_email now other t actor e)
            (any-reject (λ i. i.id == id) (λ i. i.id == other) t.invites gone)
      | inr (c, e) ↦ rw (accept_failed host conn user_email now other t actor e) gone
    ]
Later-IsGone (changed rows before) h = Later-IsGone before h

accepted-IsGone :
    (host : Host) (conn : Result ManagementMap) (user_email : Result String) (now : String)
    (actor : OrgActor) (invite_id : String) (t : Tenant) (m : OrganizationMember)
    → (accept_organization_invite host conn user_email now actor invite_id t).0 ≡ ok m
    → IsGone invite_id (accept_organization_invite host conn user_email now actor invite_id t).1
unfolding delete_invite
accepted-IsGone host conn user_email now actor invite_id t m e =
    elim (Result-cases (check_accept host conn user_email now invite_id t)) [
      | inl (i, passed) ↦
          rw (accept_passed host conn user_email now invite_id t actor passed)
            (any-reject_same (λ i. i.id == invite_id) t.invites)
      | inr (c, failed) ↦
          absurd (cc (rw (accept_failed host conn user_email now invite_id t actor failed) at e))
    ]

-- An invite is used once: after a call that accepted it, and any calls of which none makes an invite
-- with that id again, no call with its id succeeds, whoever makes it and whenever.
pub accept_organization_invite_once :
    (host : Host) (conn conn' : Result ManagementMap) (user_email user_email' : Result String)
    (now now' : String) (actor actor' : OrgActor) (invite_id : String) (t later : Tenant)
    (m m' : OrganizationMember)
    → (accept_organization_invite host conn user_email now actor invite_id t).0 ≡ ok m
    → Later host invite_id
        (accept_organization_invite host conn user_email now actor invite_id t).1
        later
    → (accept_organization_invite host conn' user_email' now' actor' invite_id later).0 ≢ ok m'
accept_organization_invite_once host conn conn' user_email user_email' now now' actor actor'
      invite_id t later m m' e steps e' =
    let gone =
      Later-IsGone steps (accepted-IsGone host conn user_email now actor invite_id t m e) in
    let again =
      accept_organization_invite-IsInvited host conn' user_email' now' actor' invite_id later m'
        e' in
    let still = again.1.open_invite in cc (still, find?-gone invite_id now' later.invites gone)
