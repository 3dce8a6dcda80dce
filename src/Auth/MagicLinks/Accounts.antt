-- ===== src/Auth/MagicLinks/Accounts.antt =====
-- The user of an address, found or made.
use mathlib.Core.Option
use mathlib.Core.Option.{some-injective}
use atomicbase.Prelude.{
  ℕ, String, true, false, List, [], ◌∷◌, ◌++◌, some, ◌==◌, ◌≡◌, refl, arith, any, not, Bool, none,
  Option, sym, ap, ◌∙◌, eq_iff, Bool-cases, if_true, if_false, find?, inl, inr,
}
use atomicbase.Result.{Result, ok}
use atomicbase.Auth.Invites.{Host, normalize_email}
use atomicbase.Auth.Sessions.{Clock}
use atomicbase.Auth.MagicLinks.{
  User, UserRow, user_or_new, signed_in, verified, find_or_create_user,
}

module _ (email : String) where
  find?-user :
      (users : List UserRow) {u : UserRow}
      → find? (λ u. u.email == email) users ≡ some u
      → any (λ u. u.email == email) users ≡ true
  find?-user [] e = absurd (cc e)
  find?-user (v ∷ users) {u} e = ground (arith, find?-user users {u = u})

  find?-user_email :
      (users : List UserRow) {u : UserRow}
      → find? (λ u. u.email == email) users ≡ some u
      → u.email ≡ email
  find?-user_email [] e = absurd (cc e)
  find?-user_email (v ∷ users) {u} e = elim (Bool-cases (v.email == email)) [
    | inl same ↦
        let here : v ≡ u = some-injective _ _ (sym (if_true (v.email == email) _ _ same) ∙ e) in
        sym (ap (λ (x : UserRow). x.email) here) ∙ (eq_iff v.email email).0 same
    | inr other ↦ find?-user_email users (sym (if_false (v.email == email) _ _ other) ∙ e)
  ]

  find?-no_user :
      (users : List UserRow)
      → find? (λ u. u.email == email) users ≡ none
      → any (λ u. u.email == email) users ≡ false
  find?-no_user [] e = refl
  find?-no_user (v ∷ users) e = ground (arith, find?-no_user users)

  find?-signed_in :
      (at : ℕ) (u : UserRow) (users : List UserRow)
      → Option.map (λ u. u.id) (find? (λ u. u.email == email) (signed_in at u users))
        ≡ Option.map (λ u. u.id) (find? (λ u. u.email == email) users)
  find?-signed_in at u [] = refl
  find?-signed_in at u (v ∷ users) = ground (arith, find?-signed_in at u users)

  find?-new_user :
      (row : UserRow) (users : List UserRow)
      → row.email ≡ email
      → find? (λ u. u.email == email) users ≡ none
      → find? (λ u. u.email == email) (users ++ row ∷ []) ≡ some row
  find?-new_user row [] same e = ground (arith, (eq_iff row.email email).1 same)
  find?-new_user row (v ∷ users) same e = ground (arith, find?-new_user row users same)

-- The user of an address is found, or made where there is none.
pub record IsUserOf (email : String) (before : List UserRow)
    (result : Result (User × Bool) × List UserRow) : Type 0 where
  pub user : User
  pub is_new : Bool
  pub found : result.0 ≡ ok (user, is_new)
  pub address : user.email ≡ email
  pub new_user : is_new ≡ not (any (λ u. u.email == email) before)
  pub account : Option.map (λ u. u.id) (find? (λ u. u.email == email) result.1) ≡ some user.id

user_or_new-IsUserOf :
    (clock : Clock) (now : ℕ) (id email : String) (known : Option UserRow) (users : List UserRow)
    → any (λ u. u.id == id) users ≡ false
    → find? (λ u. u.email == email) users ≡ known
    → IsUserOf email users (user_or_new clock now id email known users)
user_or_new-IsUserOf clock now id email none users unused e = rw unused (record {
  user = record { id = id; email = email; email_verified_at = some now; created_at = now };
  is_new = true;
  found = refl;
  address = refl;
  new_user = rw (find?-no_user email users e) refl;
  account = ap (Option.map (λ u. u.id)) (find?-new_user email _ users refl e);
})
user_or_new-IsUserOf clock now id email (some u) users unused e = record {
  user = record {
    id = u.id;
    email = u.email;
    email_verified_at = verified now u.email_verified_at;
    created_at = u.created_at;
  };
  is_new = false;
  found = refl;
  address = find?-user_email email users e;
  new_user = rw (find?-user email users e) refl;
  account = find?-signed_in email (clock.stored now) u users ∙ ap (Option.map (λ u. u.id)) e;
}

pub find_or_create_user-IsUserOf :
    (host : Host) (clock : Clock) (now : ℕ) (id email : String) (users : List UserRow)
    → normalize_email host email ≡ email
    → any (λ u. u.id == id) users ≡ false
    → IsUserOf email users (find_or_create_user host clock now id email users)
unfolding find_or_create_user
find_or_create_user-IsUserOf host clock now id email users stable unused = rw stable (
    user_or_new-IsUserOf clock now id email (find? (λ u. u.email == email) users) users unused refl)
