-- ===== src/Auth/Sessions.antt =====
-- api/auth/sessions.go: session tokens, and the rows of `atombase_sessions`, whose primary key is
-- `id`. A time is a number of nanoseconds.
pub mod Validate
use atomicbase.Prelude.{
  ℕ, ◌+◌, ◌*◌, String, Bool, true, false, not, ◌&&◌, List, [], ◌∷◌, ◌++◌, Option, none, some, ◌==◌,
  ◌⊕◌, any, find?, reject, ltb, split_dot, if◌then◌else◌,
}
use atomicbase.Result.{Error, other_error, Result, ok, err, require, ◌>>=◌, ◌>>◌}

-- What the code takes from Go's library: the SHA-256 of a text, and the time that is read back
-- after it was stored as RFC3339.
pub record Clock : Type 0 where
  pub sha_hash : String → String
  pub stored : ℕ → ℕ

pub record Session : Type 0 where
  pub id : String
  pub user_id : String
  pub secret : String
  pub created_at : ℕ
  pub expires_at : ℕ

-- A row of `atombase_sessions`, its times as they are read.
pub record SessionRow : Type 0 where
  pub id : String
  pub secret_hash : String
  pub user_id : String
  pub created_at : ℕ
  pub expires_at : ℕ

abbrev pub SessionRows : Type 0
SessionRows = List SessionRow

-- 24 * time.Hour
abbrev pub session_expires_in : ℕ
session_expires_in = 24 * 3600 * 1000000000

abbrev pub invalid_session : Error
invalid_session = other_error "invalid session"

-- `id` and `secret` are the two calls of ID128.
unfoldable pub create_session : ℕ → String → String → String → Session
create_session now id secret user_id = record {
  id = id;
  user_id = user_id;
  secret = secret;
  created_at = now;
  expires_at = now + session_expires_in;
}

unfoldable pub split_token : String → Result (String × String)
split_token token = elim (split_dot token) [ none ↦ err invalid_session | some parts ↦ ok parts ]

unfoldable pub token : Session → String
token s = s.id ⊕ "." ⊕ s.secret

abbrev pub row_of : Clock → Session → SessionRow
row_of clock s = record {
  id = s.id;
  secret_hash = clock.sha_hash s.secret;
  user_id = s.user_id;
  created_at = clock.stored s.created_at;
  expires_at = clock.stored s.expires_at;
}

-- INSERT INTO atombase_sessions: an error of the driver on a key in use.
unfoldable pub save_session : Clock → Session → SessionRows → Result (Unit {0}) × SessionRows
save_session clock s rows =
    if any (λ r. r.id == s.id) rows
    then (err (other_error "UNIQUE constraint failed"), rows)
    else (ok tt, rows ++ row_of clock s ∷ [])

abbrev pub row_or_invalid : Option SessionRow → Result SessionRow
row_or_invalid none = err invalid_session
row_or_invalid (some r) = ok r

-- The secret is not read back.
abbrev pub session_of : SessionRow → Session
session_of r = record {
  id = r.id;
  user_id = r.user_id;
  secret = "";
  created_at = r.created_at;
  expires_at = r.expires_at;
}

unfoldable pub validate_session : Clock → ℕ → String → SessionRows → Result Session
validate_session clock now token rows = do
  parts ← split_token token
  row ← row_or_invalid (find? (λ r. r.id == parts.0) rows)
  require (clock.sha_hash parts.1 == row.secret_hash) invalid_session
  require (not (ltb row.expires_at now)) invalid_session
  ok (session_of row)

-- DELETE FROM atombase_sessions WHERE id = ?
unfoldable pub delete_session : String → SessionRows → SessionRows
delete_session session_id rows = reject (λ r. r.id == session_id) rows

-- DELETE FROM atombase_sessions WHERE user_id = ?
unfoldable pub delete_user_sessions : String → SessionRows → SessionRows
delete_user_sessions user_id rows = reject (λ r. r.user_id == user_id) rows
