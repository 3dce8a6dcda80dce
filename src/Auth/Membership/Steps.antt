-- ===== src/Auth/Membership/Steps.antt =====
-- What a membership call comes to, once its checks have passed or failed.
use atomicbase.Prelude.{String, ◌≡◌, ltb, length}
use atomicbase.Result.{Error, Result, ok, err, unauthorized, require}
use atomicbase.Auth.Types.{OrgActor, ManagementMap, CreateMemberRequest, UpdateMemberRequest}
use atomicbase.Auth.Membership.{
  Members, answer, insert_member, update_member, remove_member, create_organization_member,
  update_organization_member, delete_organization_member, check_create, check_update, check_delete,
  new_member,
}

module _ (conn : Result ManagementMap) (actor : OrgActor) (rows : Members) where
  pub create_passed :
      (now : String) (req : CreateMemberRequest) {r : CreateMemberRequest}
      → check_create conn actor req rows ≡ ok r
      → create_organization_member conn now actor req rows
        ≡ answer "organization member creation is not allowed"
            (insert_member actor (new_member now r) rows)
  unfolding create_organization_member
  create_passed now req e = rw (e, create_organization_member)

  pub create_failed :
      (now : String) (req : CreateMemberRequest) {c : Error}
      → check_create conn actor req rows ≡ err c
      → create_organization_member conn now actor req rows ≡ (err c, rows)
  unfolding create_organization_member
  create_failed now req e = rw (e, create_organization_member)

  pub update_passed :
      (uid : String) (req : UpdateMemberRequest) {r : UpdateMemberRequest}
      → check_update conn actor uid req rows ≡ ok r
      → update_organization_member conn actor uid req rows
        ≡ answer "organization member update is not allowed" (update_member actor uid r rows)
  unfolding update_organization_member
  update_passed uid req e = rw (e, update_organization_member)

  pub update_failed :
      (uid : String) (req : UpdateMemberRequest) {c : Error}
      → check_update conn actor uid req rows ≡ err c
      → update_organization_member conn actor uid req rows ≡ (err c, rows)
  unfolding update_organization_member
  update_failed uid req e = rw (e, update_organization_member)

  pub delete_passed :
      (uid : String) {done : Unit {0}}
      → check_delete conn actor uid rows ≡ ok done
      → delete_organization_member conn actor uid rows ≡ (
        require
            (ltb (length (remove_member actor uid rows)) (length rows))
            (unauthorized "organization member deletion is not allowed"),
        remove_member actor uid rows,
      )
  unfolding delete_organization_member
  delete_passed uid e = rw (e, delete_organization_member)

  pub delete_failed :
      (uid : String) {c : Error}
      → check_delete conn actor uid rows ≡ err c
      → delete_organization_member conn actor uid rows ≡ (err c, rows)
  unfolding delete_organization_member
  delete_failed uid e = rw (e, delete_organization_member)
