-- ===== src/Auth/Invites/Announce.antt =====
-- Creating an invite: who may, and that a refused or unannounced invite leaves no row.
use atomicbase.Prelude.{
  String, false, ◌||◌, ◌≡◌, sym, ap, [], ◌∷◌, ◌++◌, some, ◌==◌, eq_refl, any, reject, arith, inl,
  inr,
}
use atomicbase.Result.{Error, Result, ok, err, Result-cases, >>=-eq-ok, error_of}
use atomicbase.Auth.Types.{OrgActor, ManagementMap, OrganizationInvite, Organization, Tenant}
use atomicbase.Auth.Invites.{
  Host, CreateInviteRequest, Invites, check_invite, insert_invite, new_invite, open_invite, settle,
  add_invite, announce, delete_invite, create_organization_invite,
}

reject-append_fresh :
    (row : OrganizationInvite) (is : Invites)
    → any (λ i. i.id == row.id || i.email == row.email) is ≡ false
    → reject (λ i. i.id == row.id) (is ++ row ∷ []) ≡ is
reject-append_fresh row [] h = ground (arith, eq_refl row.id)
reject-append_fresh row (i ∷ is) h = ground (arith, reject-append_fresh row is)

insert_invite-eq-ok :
    (actor : OrgActor) (row : OrganizationInvite) (t : Tenant) {r : OrganizationInvite}
    → insert_invite actor row t ≡ ok r
    → (row ≡ r) × (any (λ i. i.id == row.id || i.email == row.email) t.invites ≡ false)
unfolding insert_invite
insert_invite-eq-ok actor row t e = (ground arith, ground arith)

settle_refused :
    (sent : Result (Unit {0})) (row : OrganizationInvite) (t : Tenant) {e : Error}
    → any (λ i. i.id == row.id || i.email == row.email) t.invites ≡ false
    → error_of (settle sent row (add_invite row t)).0 ≡ some e
    → (settle sent row (add_invite row t)).1 ≡ t
unfolding settle delete_invite
settle_refused (ok done) row t fresh e = absurd (cc e)
settle_refused (err c) row t fresh e =
    ap (λ (is : Invites). record { members = t.members; invites = is })
      (reject-append_fresh row t.invites fresh)

open_invite-eq-ok :
    (host : Host) (conn : Result ManagementMap) (now fresh in_a_week : String) (actor : OrgActor)
    (req : CreateInviteRequest) (t : Tenant) {row : OrganizationInvite}
    → open_invite host conn now fresh in_a_week actor req t ≡ ok row
    → (any (λ i. i.id == row.id || i.email == row.email) t.invites ≡ false)
      × ((r : CreateInviteRequest) × (row ≡ new_invite now actor r)
          × (check_invite host conn fresh in_a_week actor req t ≡ ok r))
unfolding open_invite
open_invite-eq-ok host conn now fresh in_a_week actor req t e =
    let (r, checked, e') = >>=-eq-ok (check_invite host conn fresh in_a_week actor req t) _ e in
    let (same, unused) = insert_invite-eq-ok actor (new_invite now actor r) t e' in
    (rw (← same) unused, (r, sym same, checked))

module _ (host : Host) (conn : Result ManagementMap) (org_record : Result Organization)
    (send : Organization → OrganizationInvite → Result (Unit {0})) (now fresh in_a_week : String)
    (actor : OrgActor) (req : CreateInviteRequest) (t : Tenant) where
  opened :
      {row : OrganizationInvite}
      → open_invite host conn now fresh in_a_week actor req t ≡ ok row
      → create_organization_invite host conn org_record send now fresh in_a_week actor req t
        ≡ settle (announce org_record send row) row (add_invite row t)
  unfolding create_organization_invite
  opened e = rw (e, create_organization_invite)

  not_opened :
      {c : Error}
      → open_invite host conn now fresh in_a_week actor req t ≡ err c
      → create_organization_invite host conn org_record send now fresh in_a_week actor req t
        ≡ (err c, t)
  unfolding create_organization_invite
  not_opened e = rw (e, create_organization_invite)

  -- POST …/invites that answers with an error leaves both tables as they were, also where the
  -- organization's record or the mail failed after the row was inserted.
  pub create_organization_invite_refused :
      {e : Error}
      → error_of
          (create_organization_invite host conn org_record send now fresh in_a_week actor req t).0
        ≡ some e
      → (create_organization_invite host conn org_record send now fresh in_a_week actor req t).1 ≡ t
  create_organization_invite_refused e =
      elim (Result-cases (open_invite host conn now fresh in_a_week actor req t)) [
        | inl (row, made) ↦
            let (unused, _) = open_invite-eq-ok host conn now fresh in_a_week actor req t made in
            rw (opened made)
              (settle_refused (announce org_record send row) row t unused (rw (opened made) at e))
        | inr (c, bad) ↦ rw (not_opened bad)
      ]
