-- ===== src/Auth/MagicLinks.antt =====
-- api/auth/magiclink.go and FindOrCreateUser of api/auth/users.go: signing in by a link that is
-- sent to an address. Times are numbers of nanoseconds, a link's are in seconds.
pub mod Once
pub mod Accounts
pub mod SignIn
use atomicbase.Prelude.{
  ℕ, ◌+◌, ◌*◌, String, Bool, true, false, not, ◌&&◌, ◌||◌, List, [], ◌∷◌, ◌++◌, Option, none, some,
  ◌==◌, any, find?, reject, ltb, eqb, occurs, ends_in, cut_prefix, is_some, if◌then◌else◌,
}
use atomicbase.Result.{Error, other_error, Result, ok, err, require, ◌>>=◌, ◌>>◌}
use atomicbase.Auth.Invites.{Host, normalize_email}
use atomicbase.Auth.Sessions.{Clock, Session, SessionRows, create_session, save_session}

-- A row of `email_magic_links`: primary key `id`, unique `email`.
pub record MagicLink : Type 0 where
  pub id : String
  pub email : String
  pub token_hash : String
  pub created_at : ℕ
  pub expires_at : ℕ

-- The columns of `atombase_users` that signing in reads and writes: primary key `id`, unique
-- `email`; the times as they are read.
pub record UserRow : Type 0 where
  pub id : String
  pub email : String
  pub email_verified_at : Option ℕ
  pub last_sign_in_at : ℕ
  pub created_at : ℕ

pub record User : Type 0 where
  pub id : String
  pub email : String
  pub email_verified_at : Option ℕ
  pub created_at : ℕ

pub record AuthState : Type 0 where
  pub links : List MagicLink
  pub users : List UserRow
  pub sessions : SessionRows

abbrev pub unique_failed : Error
unique_failed = other_error "UNIQUE constraint failed"

unfoldable pub validate_email : String → Result (Unit {0})
validate_email email =
    require
      (not (eqb (occurs b'@' email) 0 || is_some (cut_prefix "@" email) || ends_in b'@' email))
      (other_error "invalid email")

-- ON CONFLICT(email) DO UPDATE SET: every column but the key of the conflict is the new row's.
abbrev pub replace_link : MagicLink → List MagicLink → List MagicLink
replace_link link [] = []
replace_link link (l ∷ ls) = (if l.email == link.email then link else l) ∷ replace_link link ls

-- An id that another address has is an error of the driver.
unfoldable pub save_magic_link : MagicLink → List MagicLink → Result (List MagicLink)
save_magic_link link links =
    if any (λ l. l.id == link.id && not (l.email == link.email)) links
    then err unique_failed
    else if any (λ l. l.email == link.email) links
    then ok (replace_link link links)
    else ok (links ++ link ∷ [])

abbrev pub with_links : AuthState → List MagicLink → AuthState
with_links st links = record st { links = links }

-- The mail: if it fails, the link is taken back.
abbrev pub sent_or_taken_back :
    Result (Unit {0}) → String → AuthState → Result (Unit {0}) × AuthState
sent_or_taken_back (ok done) id st = (ok tt, st)
sent_or_taken_back (err e) id st = (err e, with_links st (reject (λ l. l.id == id) st.links))

abbrev pub new_link : Clock → ℕ → String → String → String → MagicLink
new_link clock seconds id secret email = record {
  id = id;
  email = email;
  token_hash = clock.sha_hash secret;
  created_at = seconds;
  expires_at = seconds + 15 * 60;
}

-- `id` and `secret` are the calls of ID128 and ID256, `send` is the mail service.
unfoldable pub begin_magic_login :
    Host
    → Clock
    → (String → String → Result (Unit {0}))
    → ℕ
    → String
    → String
    → String
    → AuthState
    → Result (Unit {0}) × AuthState
begin_magic_login host clock send seconds id secret address st =
    let email = normalize_email host address in
    elim (validate_email email
      >> save_magic_link (new_link clock seconds id secret email) st.links) [
        | err e ↦ (err e, st)
        | ok links ↦ sent_or_taken_back (send email secret) id (with_links st links)
      ]

-- `token_hash = ? AND expires_at > ?`
abbrev pub is_usable : Clock → ℕ → String → MagicLink → Bool
is_usable clock seconds secret l = l.token_hash == clock.sha_hash secret && ltb seconds l.expires_at

-- UPDATE atombase_users SET … WHERE id = ?
abbrev pub signed_in : ℕ → UserRow → List UserRow → List UserRow
signed_in at u [] = []
signed_in at u (v ∷ vs) =
    (if v.id == u.id
      then record v {
        email_verified_at = if is_some u.email_verified_at then v.email_verified_at else some at;
        last_sign_in_at = at;
      }
      else v)
    ∷ signed_in at u vs

abbrev pub verified : ℕ → Option ℕ → Option ℕ
verified now none = some now
verified now (some at) = some at

-- FindOrCreateUser behind its first query: the user, whether it is new, and the table.
abbrev pub user_or_new :
    Clock
    → ℕ
    → String
    → String
    → Option UserRow
    → List UserRow
    → Result (User × Bool) × List UserRow
user_or_new clock now id email (some u) users = (
  ok (
    record {
      id = u.id;
      email = u.email;
      email_verified_at = verified now u.email_verified_at;
      created_at = u.created_at;
    },
    false,
  ),
  signed_in (clock.stored now) u users,
)
user_or_new clock now id email none users =
    if any (λ u. u.id == id) users then (err unique_failed, users) else (
      ok (record { id = id; email = email; email_verified_at = some now; created_at = now }, true),
      users
          ++ record {
            id = id;
            email = email;
            email_verified_at = some (clock.stored now);
            last_sign_in_at = clock.stored now;
            created_at = clock.stored now;
          }
            ∷ [],
    )

unfoldable pub find_or_create_user :
    Host → Clock → ℕ → String → String → List UserRow → Result (User × Bool) × List UserRow
find_or_create_user host clock now id address users =
    let email = normalize_email host address in
    user_or_new clock now id email (find? (λ u. u.email == email) users) users

abbrev pub with_session : User → Bool → Session → Result (Unit {0}) → Result (User × Session × Bool)
with_session user is_new session (ok done) = ok (user, session, is_new)
with_session user is_new session (err e) = err e

-- A user was found or created: a session is created and saved.
abbrev pub start_session :
    Clock
    → ℕ
    → String
    → String
    → Result (User × Bool) × List UserRow
    → AuthState
    → Result (User × Session × Bool) × AuthState
start_session clock now id secret (err e, users) st = (err e, record st { users = users })
start_session clock now id secret (ok (user, is_new), users) st =
    let session = create_session now id secret user.id in
    let saved = save_session clock session st.sessions in
    (with_session user is_new session saved.0, record st { users = users; sessions = saved.1 })

-- The clock's time and the texts of the calls of ID128: the user's id, the session's id and secret.
pub record Fresh : Type 0 where
  pub seconds : ℕ
  pub now : ℕ
  pub user_id : String
  pub session_id : String
  pub session_secret : String

-- DELETE … RETURNING email deletes every usable link and gives the first one's address.
unfoldable pub complete_magic_link :
    Host → Clock → Fresh → String → AuthState → Result (User × Session × Bool) × AuthState
complete_magic_link host clock fresh secret st =
    let left = with_links st (reject (is_usable clock fresh.seconds secret) st.links) in
    elim (find? (is_usable clock fresh.seconds secret) st.links) [
      | none ↦ (err (other_error "invalid or expired magic link"), left)
      | some link ↦
          start_session clock fresh.now fresh.session_id fresh.session_secret
            (find_or_create_user host clock fresh.now fresh.user_id link.email st.users) left
    ]
