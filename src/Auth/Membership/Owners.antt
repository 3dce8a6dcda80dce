-- ===== src/Auth/Membership/Owners.antt =====
-- An organization that has an active owner keeps one, whatever its members request.
use atomicbase.Prelude.{
  ◌≤◌, ◌<◌, String, Bool, true, false, not, ◌&&◌, ◌||◌, ◌≡◌, refl, [], ◌∷◌, ◌++◌, ◌==◌, eq_iff,
  eq_refl, any, count_by, count_by-append, ltb, arith, Bool-cases, inl, inr,
}
use atomicbase.Result.{Result, Result-cases}
use atomicbase.Auth.Types.{
  OrgActor, ManagementMap, OrganizationMember, CreateMemberRequest, UpdateMemberRequest,
}
use atomicbase.Auth.Membership.{
  Members, is_active_owner, is_active_user, insert_member, update_member, remove_member,
  keeps_owner, apply_update, create_organization_member, update_organization_member,
  delete_organization_member, new_member, check_create, check_update, check_delete,
}
use atomicbase.Auth.Membership.Rows.{
  IsKeyed, has_id, count_by-reject, count_by-reject_le, count_by-reject_disjoint, count_by_mono,
  any-eq-false, count_by-update_rows, count_by-update_rows_keep, count_by-update_rows_same,
}

abbrev pub HasOwner : Members → Type 0
HasOwner rows = 0 < count_by is_active_owner rows

-- What the API keeps true of the membership table.
pub record IsSound (rows : Members) : Type 0 where
  pub keyed : IsKeyed rows
  pub owned : HasOwner rows

abbrev pub update_hit :
    OrgActor → String → UpdateMemberRequest → Members → OrganizationMember → Bool
update_hit actor uid req rows m =
    m.user_id == uid
    && (actor.is_service || any (is_active_user actor.user_id) rows)
    && keeps_owner req m rows

module _ (actor : OrgActor) (uid : String) (req : UpdateMemberRequest) (rows : Members) where
  update_hit-keeps :
      ltb 1 (count_by is_active_owner rows) ≡ false
      → (m : OrganizationMember) → update_hit actor uid req rows m ≡ true
      → is_active_owner m ≡ true
      → is_active_owner (apply_update req m) ≡ true
  unfolding keeps_owner
  update_hit-keeps h m hit own = ground arith

  update_hit_few : IsKeyed rows → count_by (update_hit actor uid req rows) rows ≤ 1
  update_hit_few k = omega (
    arith,
    k.at_most_one uid,
    count_by_mono (has_id uid) (update_hit actor uid req rows) (λ m h. ground arith) rows,
  )

  update_member-HasOwner : IsSound rows → HasOwner (update_member actor uid req rows).1
  unfolding update_member
  update_member-HasOwner s = elim (Bool-cases (ltb 1 (count_by is_active_owner rows))) [
    | inl several ↦ ground (
      arith,
      s.owned,
      update_hit_few s.keyed,
      count_by-update_rows is_active_owner (update_hit actor uid req rows) (apply_update req) rows,
    )
    | inr single ↦ omega (
      arith,
      s.owned,
      count_by-update_rows_keep is_active_owner (update_hit actor uid req rows) (apply_update req)
          (update_hit-keeps single) rows,
    )
  ]

  update_member-IsSound : IsSound rows → IsSound (update_member actor uid req rows).1
  unfolding update_member
  update_member-IsSound s = record {
    keyed = record {
      at_most_one = λ j.
          rw
            (count_by-update_rows_same (has_id j) (update_hit actor uid req rows) (apply_update req)
              (λ m. refl) rows)
            (s.keyed.at_most_one j);
    };
    owned = update_member-HasOwner s;
  }

abbrev pub remove_hit : OrgActor → String → Members → OrganizationMember → Bool
remove_hit actor uid rows m =
    m.user_id == uid
    && (actor.is_service || any (is_active_user actor.user_id) rows)
    && (not (m.role == "owner") || ltb 1 (count_by is_active_owner rows))

module _ (actor : OrgActor) (uid : String) (rows : Members) where
  remove_member-HasOwner : IsSound rows → HasOwner (remove_member actor uid rows)
  unfolding remove_member
  remove_member-HasOwner s = elim (Bool-cases (ltb 1 (count_by is_active_owner rows))) [
    | inl several ↦ ground (
      arith,
      s.keyed.at_most_one uid,
      count_by_mono (has_id uid) (remove_hit actor uid rows) (λ m h. ground arith) rows,
      count_by-reject is_active_owner (remove_hit actor uid rows) rows,
    )
    | inr single ↦ omega (
      arith,
      s.owned,
      count_by-reject_disjoint is_active_owner (remove_hit actor uid rows) (λ m h. ground arith)
          rows,
    )
  ]

  remove_member-IsSound : IsSound rows → IsSound (remove_member actor uid rows)
  unfolding remove_member
  remove_member-IsSound s = record {
    keyed = record {
      at_most_one = λ j. omega (
        arith,
        s.keyed.at_most_one j,
        count_by-reject_le (has_id j) (remove_hit actor uid rows) rows,
      );
    };
    owned = remove_member-HasOwner s;
  }

-- A fresh key is not yet in the table.
append-IsKeyed :
    (row : OrganizationMember) (rows : Members)
    → IsKeyed rows
    → any (has_id row.user_id) rows ≡ false
    → IsKeyed (rows ++ row ∷ [])
append-IsKeyed row rows k fresh = record {
  at_most_one = λ j. elim (Bool-cases (row.user_id == j)) [
    | inl same ↦ rw (← (eq_iff row.user_id j).0 same) (
        ground (
          arith,
          eq_refl row.user_id,
          count_by-append (has_id row.user_id) rows (row ∷ []),
          any-eq-false (has_id row.user_id) rows fresh,
        ))
    | inr other ↦ ground (arith, k.at_most_one j, count_by-append (has_id j) rows (row ∷ []))
  ];
}

insert_member-IsSound :
    (actor : OrgActor) (row : OrganizationMember) (rows : Members)
    → IsSound rows
    → IsSound (insert_member actor row rows).1
unfolding insert_member
insert_member-IsSound actor row rows s = record {
  keyed = elim (Bool-cases (any (has_id row.user_id) rows)) [
    | inl taken ↦ rw taken (ground (arith, s.keyed))
    | inr fresh ↦ ground (arith, append-IsKeyed row rows s.keyed fresh)
  ];
  owned = ground (arith, s.owned, count_by-append is_active_owner rows (row ∷ []));
}

-- The calls that change the membership table.
pub data Call : Type 0 where
  create : OrgActor → CreateMemberRequest → Call
  update : OrgActor → String → UpdateMemberRequest → Call
  delete : OrgActor → String → Call

-- One call under the management policy, or the connection's error, of that moment.
abbrev pub run : Result ManagementMap → String → Call → Members → Members
run conn now (create actor req) rows = (create_organization_member conn now actor req rows).1
run conn now (update actor uid req) rows = (update_organization_member conn actor uid req rows).1
run conn now (delete actor uid) rows = (delete_organization_member conn actor uid rows).1

create_organization_member-IsSound :
    (conn : Result ManagementMap) (now : String) (actor : OrgActor) (req : CreateMemberRequest)
    (rows : Members)
    → IsSound rows
    → IsSound (create_organization_member conn now actor req rows).1
unfolding create_organization_member
create_organization_member-IsSound conn now actor req rows s =
    elim (Result-cases (check_create conn actor req rows)) [
      | inl (r, e) ↦
          rw (e, create_organization_member) (insert_member-IsSound actor (new_member now r) rows s)
      | inr (c, e) ↦ rw (e, create_organization_member) s
    ]

update_organization_member-IsSound :
    (conn : Result ManagementMap) (actor : OrgActor) (uid : String) (req : UpdateMemberRequest)
    (rows : Members)
    → IsSound rows
    → IsSound (update_organization_member conn actor uid req rows).1
unfolding update_organization_member
update_organization_member-IsSound conn actor uid req rows s =
    elim (Result-cases (check_update conn actor uid req rows)) [
      | inl (r, e) ↦ rw (e, update_organization_member) (update_member-IsSound actor uid r rows s)
      | inr (c, e) ↦ rw (e, update_organization_member) s
    ]

delete_organization_member-IsSound :
    (conn : Result ManagementMap) (actor : OrgActor) (uid : String) (rows : Members)
    → IsSound rows
    → IsSound (delete_organization_member conn actor uid rows).1
unfolding delete_organization_member
delete_organization_member-IsSound conn actor uid rows s =
    elim (Result-cases (check_delete conn actor uid rows)) [
      | inl (r, e) ↦ rw (e, delete_organization_member) (remove_member-IsSound actor uid rows s)
      | inr (c, e) ↦ rw (e, delete_organization_member) s
    ]

run-IsSound :
    (conn : Result ManagementMap) (now : String) (call : Call) (rows : Members)
    → IsSound rows
    → IsSound (run conn now call rows)
run-IsSound conn now (create actor req) rows =
    create_organization_member-IsSound conn now actor req rows
run-IsSound conn now (update actor uid req) rows =
    update_organization_member-IsSound conn actor uid req rows
run-IsSound conn now (delete actor uid) rows =
    delete_organization_member-IsSound conn actor uid rows

-- The tables that calls by any actors, under any policies, lead to.
pub data Reach (start : Members) : Members → Type 0 where
  here : Reach start start
  next :
      {rows : Members} (conn : Result ManagementMap) (now : String) (call : Call)
      → Reach start rows
      → Reach start (run conn now call rows)

-- From a table with distinct user ids and an active owner, every sequence of create, update and
-- delete calls, by any actors and under any management policies, leads to a table with distinct
-- user ids and an active owner.
pub Reach-IsSound : {start rows : Members} → IsSound start → Reach start rows → IsSound rows
Reach-IsSound s here = s
Reach-IsSound s (next {rows} conn now call r) = run-IsSound conn now call rows (Reach-IsSound s r)
