-- ===== src/Auth/MagicLinks/SignIn.antt =====
-- A link that was sent signs in the address it was sent to.
use mathlib.Core.Option
use mathlib.Core.Option.{some-injective}
use atomicbase.Prelude.{
  ℕ, ◌+◌, ◌<◌, String, true, false, List, [], ◌∷◌, ◌++◌, some, ◌==◌, ◌≡◌, refl, arith, eq_refl, any,
  not, Bool, sym, ap, ◌∙◌, find?, reject, inl, inr,
}
use atomicbase.Result.{Result, ok, err, Result-cases, >>=-eq-ok, ◌>>◌}
use atomicbase.Auth.Invites.{Host, normalize_email}
use atomicbase.Auth.Sessions.{Clock, Session, SessionRows, create_session, save_session, row_of}
use atomicbase.Auth.Sessions.Validate.{find?-append-miss}
use atomicbase.Auth.MagicLinks.{
  MagicLink, User, UserRow, AuthState, Fresh, is_usable, start_session, find_or_create_user,
  complete_magic_link, with_links, begin_magic_login, save_magic_link, new_link, replace_link,
  validate_email, sent_or_taken_back,
}
use atomicbase.Auth.MagicLinks.Accounts.{IsUserOf, find_or_create_user-IsUserOf}

-- No link has the hash of this token.
abbrev pub IsUnknown : Clock → String → List MagicLink → Type 0
IsUnknown clock secret links = any (λ l. l.token_hash == clock.sha_hash secret) links ≡ false

module _ (clock : Clock) (later : ℕ) (secret : String) (link : MagicLink)
    (usable : is_usable clock later secret link ≡ true) where
  find?-replace_link :
      (links : List MagicLink)
      → IsUnknown clock secret links
      → any (λ l. l.email == link.email) links ≡ true
      → find? (is_usable clock later secret) (replace_link link links) ≡ some link
  find?-replace_link [] h e = absurd (cc e)
  find?-replace_link (l ∷ links) h e = ground (arith, find?-replace_link links, usable)

  find?-append_link :
      (links : List MagicLink)
      → IsUnknown clock secret links
      → find? (is_usable clock later secret) (links ++ link ∷ []) ≡ some link
  find?-append_link [] h = ground (arith, usable)
  find?-append_link (l ∷ links) h = ground (arith, find?-append_link links, usable)

  save_magic_link-find? :
      (links : List MagicLink) {saved : List MagicLink}
      → IsUnknown clock secret links
      → save_magic_link link links ≡ ok saved
      → find? (is_usable clock later secret) saved ≡ some link
  unfolding save_magic_link
  save_magic_link-find? links h e =
      ground (arith, find?-replace_link links h, find?-append_link links h)

new_link-is_usable :
    (clock : Clock) (seconds later : ℕ) (id secret email : String)
    → later < seconds + 900
    → is_usable clock later secret (new_link clock seconds id secret email) ≡ true
new_link-is_usable clock seconds later id secret email h =
    ground (arith, eq_refl (clock.sha_hash secret))

sent-eq-ok :
    (r : Result (Unit {0})) (id : String) (st : AuthState) {done : Unit {0}}
    → (sent_or_taken_back r id st).0 ≡ ok done
    → (sent_or_taken_back r id st).1 ≡ st
sent-eq-ok (ok done) id st e = refl
sent-eq-ok (err c) id st e = absurd (cc e)

complete_magic_link-found :
    (host : Host) (clock : Clock) (fresh : Fresh) (secret : String) (st : AuthState)
    {link : MagicLink}
    → find? (is_usable clock fresh.seconds secret) st.links ≡ some link
    → complete_magic_link host clock fresh secret st
      ≡ start_session clock fresh.now fresh.session_id fresh.session_secret
          (find_or_create_user host clock fresh.now fresh.user_id link.email st.users)
          (with_links st (reject (is_usable clock fresh.seconds secret) st.links))
unfolding complete_magic_link
complete_magic_link-found host clock fresh secret st found = rw (found, complete_magic_link) refl

begin_magic_login-eq-ok :
    (host : Host) (clock : Clock) (send : String → String → Result (Unit {0})) (seconds : ℕ)
    (id secret address : String) (st : AuthState) {done : Unit {0}}
    → (begin_magic_login host clock send seconds id secret address st).0 ≡ ok done
    → (links : List MagicLink) × (save_magic_link
          (new_link clock seconds id secret (normalize_email host address))
          st.links
        ≡ ok links)
      × ((begin_magic_login host clock send seconds id secret address st).1 ≡ with_links st links)
unfolding begin_magic_login
begin_magic_login-eq-ok host clock send seconds id secret address st e =
    let email = normalize_email host address in
    elim (Result-cases
      (validate_email email >> save_magic_link (new_link clock seconds id secret email) st.links)) [
        | inl (links, saved) ↦
            let (done, valid, made) = >>=-eq-ok (validate_email email) _ saved in
            (
              links,
              made,
              rw (saved, begin_magic_login)
                  (sent-eq-ok (send email secret) id _ (rw (saved, begin_magic_login) at e)),
            )
        | inr (c, bad) ↦ absurd (cc (rw (bad, begin_magic_login) at e))
      ]

-- The account of an address after it signed in, and its session.
pub record SignedIn (clock : Clock) (session_id email : String) (before after : AuthState)
    (answer : Result (User × Session × Bool)) : Type 0 where
  pub user : User
  pub session : Session
  pub is_new : Bool
  pub answered : answer ≡ ok (user, session, is_new)
  pub address : user.email ≡ email
  pub new_user : is_new ≡ not (any (λ u. u.email == email) before.users)
  pub account : Option.map (λ u. u.id) (find? (λ u. u.email == email) after.users) ≡ some user.id
  pub owner : session.user_id ≡ user.id
  pub stored :
      find? (λ r. r.id == session_id) after.sessions
      ≡ some (record {
        id = session_id;
        secret_hash = clock.sha_hash session.secret;
        user_id = user.id;
        created_at = clock.stored session.created_at;
        expires_at = clock.stored session.expires_at;
      })

found_parts :
    (user found : User) (is_new made : Bool)
    → ◌≡◌ {A = Result (User × Bool)} (ok (user, is_new)) (ok (found, made))
    → (user ≡ found) × (is_new ≡ made)
found_parts user found is_new made e = (cc e, cc e)

save_session_unused :
    (clock : Clock) (s : Session) (rows : SessionRows)
    → any (λ r. r.id == s.id) rows ≡ false
    → save_session clock s rows ≡ (ok tt, rows ++ row_of clock s ∷ [])
unfolding save_session
save_session_unused clock s rows unused = rw unused refl

start_session-SignedIn :
    (clock : Clock) (now : ℕ) (id secret email : String) (before st : AuthState)
    (found : Result (User × Bool) × List UserRow)
    → st.sessions ≡ before.sessions
    → any (λ r. r.id == id) before.sessions ≡ false
    → IsUserOf email before.users found
    → SignedIn clock id email before
        (start_session clock now id secret found st).1
        (start_session clock now id secret found st).0
unfolding save_session create_session
start_session-SignedIn clock now id secret email before st (err c, users) kept unused u =
    absurd (cc (u.found))
start_session-SignedIn clock now id secret email before st (ok (user, is_new), users) kept unused
      u =
    let (same, same_new) = found_parts user u.user is_new u.is_new u.found in
    rw
      (save_session_unused clock (create_session now id secret user.id) st.sessions
        (rw kept unused))
      (record {
        user = user;
        session = create_session now id secret user.id;
        is_new = is_new;
        answered = refl;
        address = ap (λ (x : User). x.email) same ∙ u.address;
        new_user = same_new ∙ u.new_user;
        account = u.account ∙ ap some (sym (ap (λ (x : User). x.id) same));
        owner = refl;
        stored =
            find?-append-miss (λ r. r.id == id) st.sessions
              (row_of clock (create_session now id secret user.id)) (rw kept unused) (eq_refl id);
      })

-- After a link was sent for a token that no stored link has, completing with that token within 15
-- minutes signs in the address that it was sent for: the answer has the user of that address, which is
-- new if there was none, and the row of a session of that user is stored. The address is normalized,
-- and normalizing it again changes nothing; the two fresh ids are not in use.
pub begin_magic_login-complete_magic_link :
    (host : Host) (clock : Clock) (send : String → String → Result (Unit {0})) (seconds : ℕ)
    (id secret address : String) (st : AuthState) (fresh : Fresh) {done : Unit {0}}
    → normalize_email host (normalize_email host address) ≡ normalize_email host address
    → any (λ u. u.id == fresh.user_id) st.users ≡ false
    → any (λ r. r.id == fresh.session_id) st.sessions ≡ false
    → IsUnknown clock secret st.links
    → fresh.seconds < seconds + 900
    → (begin_magic_login host clock send seconds id secret address st).0 ≡ ok done
    → SignedIn clock fresh.session_id
        (normalize_email host address)
        st
        (complete_magic_link host clock fresh secret
          (begin_magic_login host clock send seconds id secret address st).1).1
        (complete_magic_link host clock fresh secret
          (begin_magic_login host clock send seconds id secret address st).1).0
begin_magic_login-complete_magic_link host clock send seconds id secret address st fresh stable
      no_user no_session unknown in_time e =
    let email = normalize_email host address in
    let (links, saved, after) =
      begin_magic_login-eq-ok host clock send seconds id secret address st e in
    let usable = new_link-is_usable clock seconds fresh.seconds id secret email in_time in
    let found = save_magic_link-find? clock fresh.seconds secret _ usable st.links unknown saved in
    rw (after, complete_magic_link-found host clock fresh secret (with_links st links) found)
      (start_session-SignedIn clock fresh.now fresh.session_id fresh.session_secret email st
        (with_links st (reject (is_usable clock fresh.seconds secret) links)) _ refl no_session
        (find_or_create_user-IsUserOf host clock fresh.now fresh.user_id email st.users stable
          no_user))
