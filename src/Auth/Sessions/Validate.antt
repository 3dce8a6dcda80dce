-- ===== src/Auth/Sessions/Validate.antt =====
-- Which tokens are valid.
use mathlib.Core.Path.{subst}
use mathlib.Core.Option.{some-injective}
use atomicbase.Prelude.{
  if_true, if_false, ◌∙◌, ℕ, ◌≤◌, String, Bool, true, false, [], ◌∷◌, ◌++◌, Option, none, some,
  ◌==◌, ◌≡◌, ◌≢◌, refl, sym, ap, arith, eq_iff, eq_refl, any, find?, reject, ltb, split_dot,
  split_dot-append, Avoids, Bool-cases, Option-cases, inl, inr,
}
use atomicbase.Result.{ok, >>=-eq-ok, ok-injective}
use atomicbase.Auth.Sessions.{
  Clock, Session, SessionRow, SessionRows, split_token, token, row_of, save_session, row_or_invalid,
  session_of, validate_session, delete_user_sessions,
}

module _ (p : SessionRow → Bool) where
  find?-holds : (rows : SessionRows) {r : SessionRow} → find? p rows ≡ some r → p r ≡ true
  find?-holds [] e = absurd (cc e)
  find?-holds (x ∷ rows) {r} e = elim (Bool-cases (p x)) [
    | inl h ↦ subst (λ y. p y ≡ true) (some-injective _ _ (sym (if_true (p x) _ _ h) ∙ e)) h
    | inr h ↦ find?-holds rows (sym (if_false (p x) _ _ h) ∙ e)
  ]

  pub find?-append-miss :
      (rows : SessionRows) (r : SessionRow)
      → any p rows ≡ false
      → p r ≡ true
      → find? p (rows ++ r ∷ []) ≡ some r
  find?-append-miss [] r h hr = ground (arith, hr)
  find?-append-miss (x ∷ rows) r h hr = ground (arith, find?-append-miss rows r)

  -- A row that is found among the rows left is left.
  find?-reject-holds :
      (gone : SessionRow → Bool) (rows : SessionRows) {r : SessionRow}
      → find? p (reject gone rows) ≡ some r
      → gone r ≡ false
  find?-reject-holds gone [] e = absurd (cc e)
  find?-reject-holds gone (x ∷ rows) {r} e = elim (Bool-cases (gone x)) [
    | inl g ↦ find?-reject-holds gone rows (rw g at e)
    | inr g ↦ elim (Bool-cases (p x)) [
      | inl h ↦ subst (λ y. gone y ≡ false) (some-injective _ _ (rw (g, h) at e)) g
      | inr h ↦ find?-reject-holds gone rows (rw (g, h) at e)
    ]
  ]

split_token-eq-ok :
    (text : String) {parts : String × String}
    → split_token text ≡ ok parts
    → split_dot text ≡ some parts
unfolding split_token
split_token-eq-ok text e = elim (Option-cases (split_dot text)) [
  | inl missing ↦ absurd (cc (rw (missing, split_token) at e))
  | inr (parts, found) ↦ rw found (ap some (ok-injective (rw (found, split_token) at e)))
]

row_or_invalid-eq-ok :
    (o : Option SessionRow) {r : SessionRow} → row_or_invalid o ≡ ok r → o ≡ some r
row_or_invalid-eq-ok none e = absurd (cc e)
row_or_invalid-eq-ok (some r) e = ap some (ok-injective e)

-- What a valid token shows: the row of its id has its secret's hash and has not expired.
pub record IsValid (clock : Clock) (now : ℕ) (text : String) (rows : SessionRows) (s : Session)
    : Type 0 where
  pub id : String
  pub secret : String
  pub row : SessionRow
  pub parts : split_dot text ≡ some (id, secret)
  pub found : find? (λ r. r.id == id) rows ≡ some row
  pub hashed : clock.sha_hash secret ≡ row.secret_hash
  pub fresh : now ≤ row.expires_at
  pub same : s ≡ session_of row

-- A token is accepted only if the row of the id before its first dot holds the hash of the text
-- behind it and has not expired; the session is that row's.
pub validate_session-IsValid :
    (clock : Clock) (now : ℕ) (text : String) (rows : SessionRows) (s : Session)
    → validate_session clock now text rows ≡ ok s
    → IsValid clock now text rows s
unfolding validate_session split_token
validate_session-IsValid clock now text rows s e =
    let (parts, split, e₁) = >>=-eq-ok (split_token text) _ e in
    let (row, found, e₂) = >>=-eq-ok (row_or_invalid (find? (λ r. r.id == parts.0) rows)) _ e₁ in
    record {
      id = parts.0;
      secret = parts.1;
      row = row;
      parts = split_token-eq-ok text split;
      found = row_or_invalid-eq-ok _ found;
      hashed = ground (arith, eq_iff (clock.sha_hash parts.1) row.secret_hash, e₂);
      fresh = ground (arith, e₂);
      same = ground (arith, e₂);
    }

split_token-token : (s : Session) → Avoids b'.' s.id → split_token (token s) ≡ ok (s.id, s.secret)
unfolding split_token token
split_token-token s plain = rw (split_dot-append s.id s.secret plain, split_token) refl

save_session-fresh :
    (clock : Clock) (s : Session) (rows : SessionRows)
    → any (λ r. r.id == s.id) rows ≡ false
    → (save_session clock s rows).1 ≡ rows ++ row_of clock s ∷ []
unfolding save_session
save_session-fresh clock s rows unused = rw unused refl

in_time : {n m : ℕ} → n ≤ m → ltb m n ≡ false
in_time h = ground arith

-- The token of a session that was saved is accepted until the stored time of its expiry, if its id
-- has no dot and was not in use: it gives the session's own id, user and stored times.
pub validate_session-save_session :
    (clock : Clock) (now : ℕ) (s : Session) (rows : SessionRows)
    → Avoids b'.' s.id
    → any (λ r. r.id == s.id) rows ≡ false
    → now ≤ clock.stored s.expires_at
    → validate_session clock now (token s) (save_session clock s rows).1
      ≡ ok (record {
        id = s.id;
        user_id = s.user_id;
        secret = "";
        created_at = clock.stored s.created_at;
        expires_at = clock.stored s.expires_at;
      })
unfolding validate_session
validate_session-save_session clock now s rows plain unused fresh =
    rw
      (
        split_token-token s plain,
        save_session-fresh clock s rows unused,
        validate_session,
        find?-append-miss (λ r. r.id == s.id) rows (row_of clock s) unused (eq_refl s.id),
        eq_refl (clock.sha_hash s.secret),
        in_time fresh,
      )
      refl

-- After the sessions of a user are deleted, no token gives a session of that user.
pub validate_session-delete_user_sessions :
    (clock : Clock) (now : ℕ) (text user_id : String) (rows : SessionRows) (s : Session)
    → validate_session clock now text (delete_user_sessions user_id rows) ≡ ok s
    → s.user_id ≢ user_id
unfolding delete_user_sessions
validate_session-delete_user_sessions clock now text user_id rows s e same =
    let v = validate_session-IsValid clock now text (delete_user_sessions user_id rows) s e in
    let kept : (v.row.user_id == user_id) ≡ false =
      find?-reject-holds (λ r. r.id == v.id) (λ r. r.user_id == user_id) rows v.found in
    let theirs : v.row.user_id ≡ user_id = sym (ap (λ x. x.user_id) v.same) ∙ same in
    cc (kept, (eq_iff v.row.user_id user_id).1 theirs)
