-- ===== src/Auth/Invites/LastOwner.antt =====
-- Accepting an invite overwrites the role of an old row, with no guard for the last owner.
use atomicbase.Prelude.{
  String, Bool, false, not, ◌&&◌, ◌≡◌, ◌≢◌, refl, [], ◌∷◌, ◌==◌, eq_iff, any, count_by, arith,
  Bool-cases, inl, inr, count_by-append,
}
use atomicbase.Result.{Result, ok}
use atomicbase.Auth.Types.{OrgActor, ManagementMap, OrganizationMember, OrganizationInvite, Tenant}
use atomicbase.Auth.Membership.{Members, is_active_owner, update_rows}
use atomicbase.Auth.Membership.Rows.{has_id}
use atomicbase.Auth.Invites.{
  Host, check_accept, upsert_member, given, joined, delete_invite, accept_organization_invite,
}
use atomicbase.Auth.Invites.Accept.{accept_passed}

-- Active owners with another user id.
abbrev pub other_owner : String → OrganizationMember → Bool
other_owner uid m = is_active_owner m && not (m.user_id == uid)

count_by-given :
    (row : OrganizationMember) (rows : Members)
    → row.role ≢ "owner"
    → count_by is_active_owner (update_rows (has_id row.user_id) (given row) rows)
      ≡ count_by (other_owner row.user_id) rows
count_by-given row [] h = refl
count_by-given row (m ∷ rows) h = ground (arith, count_by-given row rows h, eq_iff row.role "owner")

count_by-other_owner :
    (uid : String) (rows : Members)
    → any (has_id uid) rows ≡ false
    → count_by is_active_owner rows ≡ count_by (other_owner uid) rows
count_by-other_owner uid [] h = refl
count_by-other_owner uid (m ∷ rows) h = ground (arith, count_by-other_owner uid rows)

count_by-upsert_member :
    (row : OrganizationMember) (rows : Members)
    → row.role ≢ "owner"
    → count_by is_active_owner (upsert_member row rows) ≡ count_by (other_owner row.user_id) rows
unfolding upsert_member
count_by-upsert_member row rows h = elim (Bool-cases (any (has_id row.user_id) rows)) [
  | inl found ↦ rw found (count_by-given row rows h)
  | inr fresh ↦ rw fresh (
      ground (
        arith,
        count_by-append is_active_owner rows (row ∷ []),
        count_by-other_owner row.user_id rows fresh,
        eq_iff row.role "owner",
      ))
]

-- The active owners after an invite with a role other than "owner" was accepted are those of other
-- user ids before: an organization whose only active owner accepts it has none afterwards.
pub accept_organization_invite-owners :
    (host : Host) (conn : Result ManagementMap) (user_email : Result String) (now : String)
    (actor : OrgActor) (invite_id : String) (t : Tenant) (i : OrganizationInvite)
    → check_accept host conn user_email now invite_id t ≡ ok i
    → i.role ≢ "owner"
    → count_by is_active_owner
        (accept_organization_invite host conn user_email now actor invite_id t).1.members
      ≡ count_by (other_owner actor.user_id) t.members
unfolding delete_invite
accept_organization_invite-owners host conn user_email now actor invite_id t i passed other =
    rw (accept_passed host conn user_email now invite_id t actor passed)
      (count_by-upsert_member (joined now actor i) t.members other)
