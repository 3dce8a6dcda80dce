-- ===== src/Auth/Invites/Accept.antt =====
-- Accepting an invite: what it needs and what it changes.
use atomicbase.Prelude.{
  String, true, false, ◌≡◌, ap, ◌∙◌, [], ◌∷◌, ◌++◌, some, eq_iff, eq_refl, any, find?, arith,
  Bool-cases, inl, inr,
}
use atomicbase.Result.{Error, Result, ok, err, Result-cases, >>=-eq-ok, ok-injective}
use atomicbase.Auth.Types.{OrgActor, ManagementMap, OrganizationMember, OrganizationInvite, Tenant}
use atomicbase.Auth.Membership.{Members, update_rows}
use atomicbase.Auth.Membership.Rows.{has_id}
use atomicbase.Auth.Invites.{
  Host, normalize_email, is_open, check_accept, upsert_member, given, joined, returned,
  delete_invite, accept_organization_invite,
}

module _ (host : Host) (conn : Result ManagementMap) (user_email : Result String) (now : String)
    (invite_id : String) (t : Tenant) where
  -- An open invite with this id was sent to the user's address.
  pub record IsInvited (i : OrganizationInvite) : Type 0 where
    pub email : String
    pub user : user_email ≡ ok email
    pub open_invite : find? (is_open now invite_id) t.invites ≡ some i
    pub addressed : normalize_email host email ≡ normalize_email host i.email

  check_accept-IsInvited :
      {i : OrganizationInvite}
      → check_accept host conn user_email now invite_id t ≡ ok i
      → IsInvited i
  unfolding check_accept
  check_accept-IsInvited {i} e =
      let (email, user, e₁) = >>=-eq-ok user_email _ e in
      record {
        email = email;
        user = user;
        open_invite = ground arith;
        addressed =
            ground (arith, eq_iff (normalize_email host email) (normalize_email host i.email));
      }

  pub accept_passed :
      (actor : OrgActor) {i : OrganizationInvite}
      → check_accept host conn user_email now invite_id t ≡ ok i
      → accept_organization_invite host conn user_email now actor invite_id t ≡ (
        ok (returned (joined now actor i) t.members),
        delete_invite invite_id
            (record t { members = upsert_member (joined now actor i) t.members }),
      )
  unfolding accept_organization_invite
  accept_passed actor e = rw (e, accept_organization_invite)

  pub accept_failed :
      (actor : OrgActor) {c : Error}
      → check_accept host conn user_email now invite_id t ≡ err c
      → accept_organization_invite host conn user_email now actor invite_id t ≡ (err c, t)
  unfolding accept_organization_invite
  accept_failed actor e = rw (e, accept_organization_invite)

pub returned_fields :
    (row : OrganizationMember) (rows : Members)
    → ((returned row rows).role ≡ row.role) × ((returned row rows).status ≡ row.status)
returned_fields row rows = (ground arith, ground arith)

find?-update_hit :
    (row : OrganizationMember) (rows : Members)
    → any (has_id row.user_id) rows ≡ true
    → find? (has_id row.user_id) (update_rows (has_id row.user_id) (given row) rows)
      ≡ some (returned row rows)
find?-update_hit row [] h = absurd (cc h)
find?-update_hit row (m ∷ rows) h = ground (arith, find?-update_hit row rows)

find?-append_miss :
    (row : OrganizationMember) (rows : Members)
    → any (has_id row.user_id) rows ≡ false
    → find? (has_id row.user_id) (rows ++ row ∷ []) ≡ some (returned row rows)
find?-append_miss row [] h = ground (arith, eq_refl row.user_id)
find?-append_miss row (m ∷ rows) h = ground (arith, find?-append_miss row rows)

-- The row that the upsert leaves under the user's id.
pub find?-upsert_member :
    (row : OrganizationMember) (rows : Members)
    → find? (has_id row.user_id) (upsert_member row rows) ≡ some (returned row rows)
unfolding upsert_member
find?-upsert_member row rows = elim (Bool-cases (any (has_id row.user_id) rows)) [
  | inl found ↦ rw found (find?-update_hit row rows found)
  | inr fresh ↦ rw fresh (find?-append_miss row rows fresh)
]

-- Accepting an invite that answers with a member: an unexpired invite of that id was addressed to
-- the user's e-mail; and the membership row then stored under the actor's id is the one returned,
-- active and with the invite's role.
pub accept_organization_invite-IsInvited :
    (host : Host) (conn : Result ManagementMap) (user_email : Result String) (now : String)
    (actor : OrgActor) (invite_id : String) (t : Tenant) (m : OrganizationMember)
    → (accept_organization_invite host conn user_email now actor invite_id t).0 ≡ ok m
    → (i : OrganizationInvite) × IsInvited host conn user_email now invite_id t i
      × (m.role ≡ i.role)
      × (m.status ≡ "active")
      × (find?
            (has_id actor.user_id)
            (accept_organization_invite host conn user_email now actor invite_id t).1.members
          ≡ some m)
unfolding delete_invite
accept_organization_invite-IsInvited host conn user_email now actor invite_id t m e =
    elim (Result-cases (check_accept host conn user_email now invite_id t)) [
      | inl (i, passed) ↦
          let step = accept_passed host conn user_email now invite_id t actor passed in
          let same : returned (joined now actor i) t.members ≡ m = ok-injective (rw step at e) in
          let (role, status) = returned_fields (joined now actor i) t.members in
          (
            i,
            check_accept-IsInvited host conn user_email now invite_id t passed,
            rw (← same) role,
            rw (← same) status,
            rw step (find?-upsert_member (joined now actor i) t.members ∙ ap some same),
          )
      | inr (c, failed) ↦
          let step = accept_failed host conn user_email now invite_id t actor failed in
          absurd (cc (rw step at e))
    ]
