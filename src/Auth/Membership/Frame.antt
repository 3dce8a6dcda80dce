-- ===== src/Auth/Membership/Frame.antt =====
-- What the membership calls leave alone.
use atomicbase.Prelude.{
  ◌≤◌, String, Bool, true, false, ◌≡◌, ◌≢◌, refl, [], ◌∷◌, ◌++◌, Option, none, some, eq_iff, find?,
  reject, length, ltb, arith, trim_space, inl, inr,
}
use mathlib.Core.Option
use atomicbase.Result.{Error, Result, ok, require, error_of, Result-cases}
use atomicbase.Auth.Types.{
  OrgActor, ManagementMap, OrganizationMember, CreateMemberRequest, UpdateMemberRequest,
}
use atomicbase.Auth.Membership.{
  Members, insert_member, update_member, remove_member, normalize_create, update_rows, apply_update,
  create_organization_member, update_organization_member, delete_organization_member, check_create,
  check_update, check_delete, new_member, row_or_denied,
}
use atomicbase.Auth.Membership.Rows.{has_id}
use atomicbase.Auth.Membership.Steps.{
  create_passed, create_failed, update_passed, update_failed, delete_passed, delete_failed,
}
use atomicbase.Auth.Membership.Owners.{Call, create, update, delete, run, update_hit, remove_hit}

-- The user id whose row a call may change.
abbrev pub target : Call → String
target (create actor req) = trim_space req.user_id
target (update actor uid req) = uid
target (delete actor uid) = uid

-- The error that a call answers with.
abbrev pub refused : Result ManagementMap → String → Call → Members → Option Error
refused conn now (create actor req) rows =
    error_of (create_organization_member conn now actor req rows).0
refused conn now (update actor uid req) rows =
    error_of (update_organization_member conn actor uid req rows).0
refused conn now (delete actor uid) rows =
    error_of (delete_organization_member conn actor uid rows).0

module _ (hit : OrganizationMember → Bool) (change : OrganizationMember → OrganizationMember) where
  update_rows-none : (rows : Members) → find? hit rows ≡ none → update_rows hit change rows ≡ rows
  update_rows-none [] h = refl
  update_rows-none (m ∷ rows) h = ground (arith, update_rows-none rows)

  find?-update_rows :
      (p : OrganizationMember → Bool)
      → ((m : OrganizationMember) → p m ≡ true → hit m ≡ false)
      → ((m : OrganizationMember) → p (change m) ≡ p m)
      → (rows : Members) → find? p (update_rows hit change rows) ≡ find? p rows
  find?-update_rows p apart keep [] = refl
  find?-update_rows p apart keep (m ∷ rows) =
      ground (arith, apart m, keep m, find?-update_rows p apart keep rows)

module _ (hit : OrganizationMember → Bool) where
  reject_all : (rows : Members) → length (reject hit rows) ≤ length rows
  reject_all [] = omega arith
  reject_all (m ∷ rows) = ground (arith, reject_all rows)

  reject_none :
      (rows : Members)
      → ltb (length (reject hit rows)) (length rows) ≡ false
      → reject hit rows ≡ rows
  reject_none [] h = refl
  reject_none (m ∷ rows) h = ground (arith, reject_none rows, reject_all rows)

  find?-reject :
      (p : OrganizationMember → Bool)
      → ((m : OrganizationMember) → p m ≡ true → hit m ≡ false)
      → (rows : Members) → find? p (reject hit rows) ≡ find? p rows
  find?-reject p apart [] = refl
  find?-reject p apart (m ∷ rows) = ground (arith, apart m, find?-reject p apart rows)

find?-append :
    (p : OrganizationMember → Bool) (m : OrganizationMember) (rows : Members)
    → p m ≡ false
    → find? p (rows ++ m ∷ []) ≡ find? p rows
find?-append p m [] h = ground arith
find?-append p m (n ∷ rows) h = ground (arith, find?-append p m rows)

find?-insert_member :
    (j : String) (actor : OrgActor) (row : OrganizationMember) (rows : Members)
    → j ≢ row.user_id
    → find? (has_id j) (insert_member actor row rows).1 ≡ find? (has_id j) rows
unfolding insert_member
find?-insert_member j actor row rows ne =
    ground (arith, find?-append (has_id j) row rows, eq_iff row.user_id j)

check_create-normal :
    (conn : Result ManagementMap) (actor : OrgActor) (req : CreateMemberRequest) (rows : Members)
    {r : CreateMemberRequest}
    → check_create conn actor req rows ≡ ok r
    → r.user_id ≡ trim_space req.user_id
unfolding check_create normalize_create
check_create-normal conn actor req rows e = ground arith

find?-update_member :
    (j : String) (actor : OrgActor) (uid : String) (r : UpdateMemberRequest) (rows : Members)
    → j ≢ uid
    → find? (has_id j) (update_member actor uid r rows).1 ≡ find? (has_id j) rows
unfolding update_member
find?-update_member j actor uid r rows ne =
    find?-update_rows (update_hit actor uid r rows) (apply_update r) (has_id j)
      (λ m h. ground (arith, eq_iff m.user_id j, eq_iff m.user_id uid)) (λ m. refl) rows

find?-remove_member :
    (j : String) (actor : OrgActor) (uid : String) (rows : Members)
    → j ≢ uid
    → find? (has_id j) (remove_member actor uid rows) ≡ find? (has_id j) rows
unfolding remove_member
find?-remove_member j actor uid rows ne =
    find?-reject (remove_hit actor uid rows) (has_id j)
      (λ m h. ground (arith, eq_iff m.user_id j, eq_iff m.user_id uid)) rows

-- A call changes no row but that of the user id which it names.
pub find?-run :
    (conn : Result ManagementMap) (now : String) (call : Call) (rows : Members) (j : String)
    → j ≢ target call
    → find? (has_id j) (run conn now call rows) ≡ find? (has_id j) rows
find?-run conn now (create actor req) rows j ne =
    elim (Result-cases (check_create conn actor req rows)) [
      | inl (r, e) ↦
          rw (create_passed conn actor rows now req e, run)
            (find?-insert_member j actor (new_member now r) rows
              (rw (check_create-normal conn actor req rows e) ne))
      | inr (c, e) ↦ rw (create_failed conn actor rows now req e, run)
    ]
find?-run conn now (update actor uid req) rows j ne =
    elim (Result-cases (check_update conn actor uid req rows)) [
      | inl (r, e) ↦
          rw (update_passed conn actor rows uid req e, run)
            (find?-update_member j actor uid r rows ne)
      | inr (c, e) ↦ rw (update_failed conn actor rows uid req e, run)
    ]
find?-run conn now (delete actor uid) rows j ne =
    elim (Result-cases (check_delete conn actor uid rows)) [
      | inl (r, e) ↦
          rw (delete_passed conn actor rows uid e, run) (find?-remove_member j actor uid rows ne)
      | inr (c, e) ↦ rw (delete_failed conn actor rows uid e, run)
    ]

insert_member-none :
    (actor : OrgActor) (row : OrganizationMember) (rows : Members)
    → (insert_member actor row rows).0 ≡ none
    → (insert_member actor row rows).1 ≡ rows
unfolding insert_member
insert_member-none actor row rows h = ground arith

map-none :
    (f : OrganizationMember → OrganizationMember) (o : Option OrganizationMember)
    → Option.map f o ≡ none
    → o ≡ none
map-none f none h = refl
map-none f (some m) h = absurd (cc h)

update_member-none :
    (actor : OrgActor) (uid : String) (r : UpdateMemberRequest) (rows : Members)
    → (update_member actor uid r rows).0 ≡ none
    → (update_member actor uid r rows).1 ≡ rows
unfolding update_member
update_member-none actor uid r rows h =
    update_rows-none (update_hit actor uid r rows) (apply_update r) rows
      (map-none (apply_update r) (find? (update_hit actor uid r rows) rows) h)

refused_row :
    (denial : String) (o : Option OrganizationMember) {e : Error}
    → error_of (row_or_denied denial o) ≡ some e
    → o ≡ none
refused_row denial o h = ground arith

refused_count :
    (b : Bool) (denial : Error) {e : Error} → error_of (require b denial) ≡ some e → b ≡ false
refused_count true denial h = absurd (cc h)
refused_count false denial h = refl

remove_member-none :
    (actor : OrgActor) (uid : String) (rows : Members)
    → ltb (length (remove_member actor uid rows)) (length rows) ≡ false
    → remove_member actor uid rows ≡ rows
unfolding remove_member
remove_member-none actor uid rows h = reject_none (remove_hit actor uid rows) rows h

-- A call that answers with an error leaves the table as it was.
pub run-refused :
    (conn : Result ManagementMap) (now : String) (call : Call) (rows : Members) {e : Error}
    → refused conn now call rows ≡ some e
    → run conn now call rows ≡ rows
run-refused conn now (create actor req) rows h =
    elim (Result-cases (check_create conn actor req rows)) [
      | inl (r, e) ↦
          let same = create_passed conn actor rows now req e in
          rw (same, run)
            (insert_member-none actor (new_member now r) rows
              (refused_row _ _ (rw (same, refused) at h)))
      | inr (c, e) ↦ rw (create_failed conn actor rows now req e, run)
    ]
run-refused conn now (update actor uid req) rows h =
    elim (Result-cases (check_update conn actor uid req rows)) [
      | inl (r, e) ↦
          let same = update_passed conn actor rows uid req e in
          rw (same, run)
            (update_member-none actor uid r rows (refused_row _ _ (rw (same, refused) at h)))
      | inr (c, e) ↦ rw (update_failed conn actor rows uid req e, run)
    ]
run-refused conn now (delete actor uid) rows h =
    elim (Result-cases (check_delete conn actor uid rows)) [
      | inl (r, e) ↦
          let same = delete_passed conn actor rows uid e in
          rw (same, run)
            (remove_member-none actor uid rows (refused_count _ _ (rw (same, refused) at h)))
      | inr (c, e) ↦ rw (delete_failed conn actor rows uid e, run)
    ]
