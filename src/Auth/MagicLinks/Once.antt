-- ===== src/Auth/MagicLinks/Once.antt =====
-- A magic link signs in once.
use atomicbase.Prelude.{
  ℕ, ◌≤◌, String, Bool, List, [], ◌∷◌, none, ◌≡◌, refl, arith, find?, reject, any, false, ◌++◌,
  ◌==◌, ◌≢◌, eq_iff, Option-cases, inl, inr,
}
use atomicbase.Result.{other_error, Result, ok, err, Result-cases, >>=-eq-ok, ◌>>◌}
use atomicbase.Auth.Invites.{Host, normalize_email}
use atomicbase.Auth.Sessions.{Clock, SessionRows}
use atomicbase.Auth.MagicLinks.{
  MagicLink, User, UserRow, AuthState, Fresh, is_usable, start_session, complete_magic_link,
  begin_magic_login, save_magic_link, new_link, replace_link, validate_email, sent_or_taken_back,
  with_links,
}

start_session-links :
    (clock : Clock) (now : ℕ) (id secret : String) (found : Result (User × Bool) × List UserRow)
    (st : AuthState)
    → (start_session clock now id secret found st).1.links ≡ st.links
start_session-links clock now id secret (err e, users) st = refl
start_session-links clock now id secret (ok (user, is_new), users) st = refl

-- Completing takes every usable link of the token, whatever its outcome.
pub complete_magic_link-links :
    (host : Host) (clock : Clock) (fresh : Fresh) (secret : String) (st : AuthState)
    → (complete_magic_link host clock fresh secret st).1.links
      ≡ reject (is_usable clock fresh.seconds secret) st.links
unfolding complete_magic_link
complete_magic_link-links host clock fresh secret st =
    elim (Option-cases (find? (is_usable clock fresh.seconds secret) st.links)) [
      | inl e ↦ rw (e, complete_magic_link) refl
      | inr (link, e) ↦ rw (e, complete_magic_link) (start_session-links clock _ _ _ _ _)
    ]

complete_magic_link-unusable :
    (host : Host) (clock : Clock) (fresh : Fresh) (secret : String) (st : AuthState)
    → find? (is_usable clock fresh.seconds secret) st.links ≡ none
    → (complete_magic_link host clock fresh secret st).0
      ≡ err (other_error "invalid or expired magic link")
unfolding complete_magic_link
complete_magic_link-unusable host clock fresh secret st e = rw (e, complete_magic_link) refl

-- What sign-ins, sessions and users have come to after any number of calls at any time, of which none
-- makes a link with the hash of this token. Whatever else is done to users and sessions counts as one.
pub data Later (host : Host) (clock : Clock) (secret : String)
    : AuthState → AuthState → Type 0 where
  here : {st : AuthState} → Later host clock secret st st
  begun :
      (send : String → String → Result (Unit {0})) (seconds : ℕ) (id other address : String)
      {s t : AuthState}
      → clock.sha_hash other ≢ clock.sha_hash secret
      → Later host clock secret s t
      → Later host clock secret s (begin_magic_login host clock send seconds id other address t).1
  completed :
      (fresh : Fresh) (other : String) {s t : AuthState}
      → Later host clock secret s t
      → Later host clock secret s (complete_magic_link host clock fresh other t).1
  changed :
      (users : List UserRow) (sessions : SessionRows) {s t : AuthState}
      → Later host clock secret s t
      → Later host clock secret s (record t { users = users; sessions = sessions })

-- No link is usable from then on.
abbrev IsUsed : Clock → ℕ → String → List MagicLink → Type 0
IsUsed clock seconds secret links = any (is_usable clock seconds secret) links ≡ false

module _ (p : MagicLink → Bool) where
  any-reject :
      (q : MagicLink → Bool) (links : List MagicLink)
      → any p links ≡ false
      → any p (reject q links) ≡ false
  any-reject q [] h = refl
  any-reject q (l ∷ links) h = ground (arith, any-reject q links)

  any-reject_same : (links : List MagicLink) → any p (reject p links) ≡ false
  any-reject_same [] = refl
  any-reject_same (l ∷ links) = ground (arith, any-reject_same links)

  any-append_link :
      (link : MagicLink) (links : List MagicLink)
      → p link ≡ false
      → any p links ≡ false
      → any p (links ++ link ∷ []) ≡ false
  any-append_link link [] new h = ground (arith, new)
  any-append_link link (l ∷ links) new h = ground (arith, any-append_link link links)

  any-replace_link :
      (link : MagicLink) (links : List MagicLink)
      → p link ≡ false
      → any p links ≡ false
      → any p (replace_link link links) ≡ false
  any-replace_link link [] new h = refl
  any-replace_link link (l ∷ links) new h = ground (arith, any-replace_link link links, new)

  any-save_magic_link :
      (link : MagicLink) (links : List MagicLink) {saved : List MagicLink}
      → p link ≡ false
      → any p links ≡ false
      → save_magic_link link links ≡ ok saved
      → any p saved ≡ false
  unfolding save_magic_link
  any-save_magic_link link links new h e =
      ground (arith, any-replace_link link links new h, any-append_link link links new h)

find?-used :
    (clock : Clock) (secret : String) {first later : ℕ}
    → first ≤ later
    → (links : List MagicLink) → IsUsed clock first secret links
    → find? (is_usable clock later secret) links ≡ none
find?-used clock secret h [] used = refl
find?-used clock secret h (l ∷ links) used = ground (arith, find?-used clock secret h links)

sent-IsUsed :
    (clock : Clock) (first : ℕ) (secret : String) (r : Result (Unit {0})) (id : String)
    (st : AuthState)
    → IsUsed clock first secret st.links
    → IsUsed clock first secret (sent_or_taken_back r id st).1.links
sent-IsUsed clock first secret (ok done) id st used = used
sent-IsUsed clock first secret (err c) id st used =
    any-reject (is_usable clock first secret) (λ l. l.id == id) st.links used

Later-IsUsed :
    {host : Host} {clock : Clock} {secret : String} {s t : AuthState} (first : ℕ)
    → Later host clock secret s t
    → IsUsed clock first secret s.links
    → IsUsed clock first secret t.links
unfolding begin_magic_login
Later-IsUsed first here used = used
Later-IsUsed {host} {clock} {secret} first (begun send seconds id other address {t = t} ne before)
      used =
    let used = Later-IsUsed first before used in
    let email = normalize_email host address in
    let link = new_link clock seconds id other email in
    elim (Result-cases (validate_email email >> save_magic_link link t.links)) [
      | inl (links, saved) ↦
          let (done, valid, made) = >>=-eq-ok (validate_email email) _ saved in
          let fresh : is_usable clock first secret link ≡ false =
            ground (arith, ne, eq_iff (clock.sha_hash other) (clock.sha_hash secret)) in
          rw (saved, begin_magic_login)
            (sent-IsUsed clock first secret (send email other) id (with_links t links)
              (any-save_magic_link (is_usable clock first secret) link t.links fresh used made))
      | inr (c, bad) ↦ rw (bad, begin_magic_login) used
    ]
Later-IsUsed {host} {clock} {secret} first (completed fresh other {t = t} before) used =
    rw (complete_magic_link-links host clock fresh other t) (
      any-reject (is_usable clock first secret) (is_usable clock fresh.seconds other) t.links
        (Later-IsUsed first before used))
Later-IsUsed first (changed users sessions before) used = Later-IsUsed first before used

-- After a call with a token, succeed or not, and any calls of which none makes a link with the token's
-- hash, every call with it that is no earlier than the first is refused.
pub complete_magic_link_once :
    (host : Host) (clock : Clock) (first later : Fresh) (secret : String) (st after : AuthState)
    → first.seconds ≤ later.seconds
    → Later host clock secret (complete_magic_link host clock first secret st).1 after
    → (complete_magic_link host clock later secret after).0
      ≡ err (other_error "invalid or expired magic link")
complete_magic_link_once host clock first later secret st after h steps =
    let used : IsUsed clock first.seconds secret
        (complete_magic_link host clock first secret st).1.links =
      rw (complete_magic_link-links host clock first secret st)
        (any-reject_same (is_usable clock first.seconds secret) st.links) in
    complete_magic_link-unusable host clock later secret after
      (find?-used clock secret h after.links (Later-IsUsed first.seconds steps used))
