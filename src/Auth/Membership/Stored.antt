-- ===== src/Auth/Membership/Stored.antt =====
-- The row that an update of a member leaves.
use mathlib.Core.Option
use mathlib.Core.Option.{some-injective}
use atomicbase.Prelude.{
  ◌≤◌, count_by, find?, sym, ap, ◌∙◌, none, Option-cases, Bool, String, true, ◌≡◌, refl, [], ◌∷◌,
  Option, some, arith, inl, inr,
}
use atomicbase.Result.{ok, ok-injective}
use atomicbase.Auth.Types.{OrgActor, OrganizationMember, UpdateMemberRequest}
use atomicbase.Auth.Membership.{
  Members, lookup_organization_member_role, coalesce, update_member, update_rows, apply_update,
  is_active_user,
}
use atomicbase.Auth.Membership.Rows.{has_id, IsKeyed, count_by_mono}
use atomicbase.Auth.Membership.Owners.{update_hit}

-- The rows of one user id: where there is at most one, every test that implies the id finds it.
find?-counted :
    (q : OrganizationMember → Bool) (rows : Members) {m : OrganizationMember}
    → find? q rows ≡ some m
    → 1 ≤ count_by q rows
find?-counted q [] e = absurd (cc e)
find?-counted q (x ∷ rows) {m} e = ground (arith, find?-counted q rows {m = m})

find?-only :
    (p q : OrganizationMember → Bool)
    → ((m : OrganizationMember) → q m ≡ true → p m ≡ true)
    → (rows : Members) {m : OrganizationMember} → count_by p rows ≤ 1
    → find? q rows ≡ some m
    → find? p rows ≡ some m
find?-only p q h [] few e = absurd (cc e)
find?-only p q h (x ∷ rows) {m} few e = ground (
  arith,
  h x,
  find?-only p q h rows {m = m},
  find?-counted q rows {m = m},
  count_by_mono p q h rows,
)

find?-update_rows_hit :
    (hit : OrganizationMember → Bool) (change : OrganizationMember → OrganizationMember)
    (p : OrganizationMember → Bool)
    → ((m : OrganizationMember) → hit m ≡ true → p m ≡ true)
    → ((m : OrganizationMember) → p (change m) ≡ p m)
    → (rows : Members) {m : OrganizationMember} → count_by p rows ≤ 1
    → find? hit rows ≡ some m
    → find? p (update_rows hit change rows) ≡ some (change m)
find?-update_rows_hit hit change p h keep [] few e = absurd (cc e)
find?-update_rows_hit hit change p h keep (x ∷ rows) {m} few e = ground (
  arith,
  h x,
  keep x,
  find?-update_rows_hit hit change p h keep rows {m = m},
  find?-counted hit rows {m = m},
  count_by_mono p hit h rows,
)

map-eq-some :
    (f : OrganizationMember → OrganizationMember) (o : Option OrganizationMember)
    {m : OrganizationMember}
    → Option.map f o ≡ some m
    → (old : OrganizationMember) × (o ≡ some old) × (f old ≡ m)
map-eq-some f none e = absurd (cc e)
map-eq-some f (some old) e = (old, refl, some-injective _ _ e)

lookup-eq-ok :
    (rows : Members) (uid : String) {role : String}
    → lookup_organization_member_role rows uid ≡ ok role
    → (m : OrganizationMember) × (find? (is_active_user uid) rows ≡ some m) × (m.role ≡ role)
unfolding lookup_organization_member_role
lookup-eq-ok rows uid e = elim (Option-cases (find? (is_active_user uid) rows)) [
  | inl missing ↦ absurd (cc (rw missing at e))
  | inr (m, found) ↦ (m, found, ok-injective (rw found at e))
]

-- The role that the update leaves in the row of the user id.
pub update_member-stored :
    (actor : OrgActor) (uid : String) (r : UpdateMemberRequest) (rows : Members) {role : String}
    {m : OrganizationMember}
    → IsKeyed rows
    → lookup_organization_member_role rows uid ≡ ok role
    → (update_member actor uid r rows).0 ≡ some m
    → (coalesce r.role role ≡ m.role)
      × (find? (has_id uid) (update_member actor uid r rows).1 ≡ some m)
unfolding update_member
update_member-stored actor uid r rows {role} {m} keyed target e =
    let hit = update_hit actor uid r rows in
    let few = keyed.at_most_one uid in
    let (old, found, changed) = map-eq-some (apply_update r) (find? hit rows) e in
    let (row, active, same_role) = lookup-eq-ok rows uid target in
    let old_found = find?-only (has_id uid) hit (λ m h. ground (arith, h)) rows few found in
    let row_found =
      find?-only (has_id uid) (is_active_user uid) (λ m h. ground (arith, h)) rows few active in
    let same : old ≡ row = some-injective _ _ (sym old_found ∙ row_found) in
    (
      ap (coalesce r.role) (sym same_role ∙ sym (ap (λ (x : OrganizationMember). x.role) same))
          ∙ ap (λ (x : OrganizationMember). x.role) changed,
      find?-update_rows_hit hit (apply_update r) (has_id uid) (λ m h. ground (arith, h)) (λ m. refl)
            rows few found
          ∙ ap some changed,
    )
