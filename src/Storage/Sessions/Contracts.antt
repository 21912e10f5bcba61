-- ===== src/Storage/Sessions/Contracts.antt =====
-- The statements on sessions and users that returned a value.
use orientation_enrollment_p.Base.{
  ℕ, false, ◌≡◌, ◌≢◌, arith, some, inl, inr, find, count, ◌==◌, Option-cases, ◌<◌, any, not,
}
use orientation_enrollment_p.Base.Text.{Text, text_eq, is_empty}
use orientation_enrollment_p.Base.Time.{Time, before}
use orientation_enrollment_p.Domain.Errors.{ok}
use orientation_enrollment_p.Domain.Identity.{User, Session}
use orientation_enrollment_p.Storage.Db.{Db, Env, attempt}
use orientation_enrollment_p.Storage.Rules.{
  >>=-raise_if, >>=-read, attempt-ReadOnly, or_not_found-ok,
}
use orientation_enrollment_p.Storage.Users.{find_user_by_id}
use orientation_enrollment_p.Storage.Sessions.{
  create_session, insert_session, find_session_by_digest, live, update_sessions, seen_at,
  revoked_by, touch_session, revoke_session,
}

pub find_session_by_digest-ok :
    (digest : Text) (env : Env) (db after : Db) {s : Session}
    → find_session_by_digest digest env db ≡ (ok s, after)
    → (find (λ r. text_eq r.token_digest digest) db.sessions ≡ some s) × (after ≡ db)
unfolding find_session_by_digest
find_session_by_digest-ok digest env db after h =
    >>=-raise_if (is_empty digest) _ _ env db h (λ some_digest rest.
      >>=-read (attempt "select session") _ env db (attempt-ReadOnly "select session") rest
        (λ u first later. or_not_found-ok _ env db after later))

pub find_user_by_id-ok :
    (id : ℕ) (env : Env) (db after : Db) {u : User}
    → find_user_by_id id env db ≡ (ok u, after)
    → (find (λ r. r.id == id) db.users ≡ some u) × (after ≡ db)
unfolding find_user_by_id
find_user_by_id-ok id env db after h = elim (Option-cases (find (λ r. r.id == id) db.users)) [
  | inl absent ↦ absurd (ground arith)
  | inr (s, found) ↦ ground arith
]

pub touch_session-ok :
    (id : ℕ) (at : Time) (env : Env) (db after : Db) {u : Unit {0}}
    → touch_session id at env db ≡ (ok u, after)
    → (count (live id) db.sessions ≢ 0) × (after ≡ update_sessions (live id) (seen_at at) db)
unfolding touch_session
touch_session-ok id at env db after h = ground arith

pub revoke_session-ok :
    (id : ℕ) (at : Time) (env : Env) (db after : Db) {u : Unit {0}}
    → revoke_session id at env db ≡ (ok u, after)
    → (count (live id) db.sessions ≢ 0) × (after ≡ update_sessions (live id) (revoked_by at) db)
unfolding revoke_session
revoke_session-ok id at env db after h = ground arith

-- A created session has a key of its own, and no other session has its digest.
pub create_session-ok :
    (session : Session) (env : Env) (db after : Db) {s : Session}
    → create_session session env db ≡ (ok s, after)
    → (s ≡ record session { id = db.next_session_id })
      × ((after ≡ insert_session s db)
          × ((any (λ r. text_eq r.token_digest session.token_digest) db.sessions ≡ false)
              × (session.issued_at < session.expires_at)))
unfolding create_session
create_session-ok session env db after h =
    >>=-raise_if (is_empty session.token_digest) _ _ env db h (λ some_digest h1.
      >>=-raise_if (not (before session.issued_at session.expires_at)) _ _ env db h1 (λ in_order h2.
        >>=-read (attempt "insert session") _ env db (attempt-ReadOnly "insert session") h2
          (λ u first h3.
            >>=-raise_if (any (λ r. text_eq r.token_digest session.token_digest) db.sessions) _ _
              env db h3 (λ free h4. ground arith))))
