-- ===== src/Storage/Sessions.antt =====
-- internal/storage/sqlite/sessions.go: the statements on server side sessions. The sweep's limit is a
-- natural: a limit that is not positive takes the branch of 0.
pub mod Contracts
pub mod Sweep
pub mod Revoked
pub mod Kept
use orientation_enrollment_p.Base.{
  ℕ, Bool, true, false, ◌&&◌, not, Option, none, some, List, ◌∷◌, suc, ◌==◌, any, find, keep, count,
  take, if◌then◌else◌,
}
use orientation_enrollment_p.Base.Sort.{order_by}
use orientation_enrollment_p.Base.Text.{Text, text_eq, is_empty}
use orientation_enrollment_p.Base.Time.{Time, before}
use orientation_enrollment_p.Domain.Errors.{
  sentinel, wrapped, field_error, conflict, Sentinel, not_found,
}
use orientation_enrollment_p.Domain.Identity.{Session, revoked}
use orientation_enrollment_p.Storage.Timestamps.{stored_le}
use orientation_enrollment_p.Storage.Db.{
  Db, Tx, pure, gets, or_not_found, ◌>>=◌, ◌>>◌, modify, raise_if, attempt, update_where,
}

abbrev pub insert_session : Session → Db → Db
insert_session s db = record db {
  sessions = s ∷ db.sessions;
  next_session_id = suc db.next_session_id;
}

-- `CreateSession`; `ux_sessions_token_digest` refuses a second row with the digest.
unfoldable pub create_session : Session → Tx Session
unfolding attempt
create_session session = do
  raise_if (is_empty session.token_digest) (field_error "token" "digest must not be empty")
  raise_if (not (before session.issued_at session.expires_at))
      (field_error "session.expires_at" "must be after issued_at")
  attempt "insert session"
  taken ← gets (λ db. any (λ s. text_eq s.token_digest session.token_digest) db.sessions)
  raise_if taken (wrapped (sentinel conflict))
  id ← gets (λ db. db.next_session_id)
  let created = record session { id = id }
  modify (insert_session created)
  pure created

-- `FindSessionByDigest`
unfoldable pub find_session_by_digest : Text → Tx Session
unfolding attempt
find_session_by_digest digest = do
  raise_if (is_empty digest) (wrapped (sentinel Sentinel.unauthenticated))
  attempt "select session"
  or_not_found (← gets (λ db. find (λ s. text_eq s.token_digest digest) db.sessions))

-- WHERE id = ? AND revoked_at IS NULL
abbrev pub live : ℕ → Session → Bool
live id s = s.id == id && not (revoked s)

abbrev pub update_sessions : (Session → Bool) → (Session → Session) → Db → Db
update_sessions test change db = record db { sessions = update_where test change db.sessions }

abbrev pub seen_at : Time → Session → Session
seen_at at s = record s { last_seen_at = at }

abbrev pub revoked_by : Time → Session → Session
revoked_by at s = record s { revoked_at = some at }

-- `TouchSession`
unfoldable pub touch_session : ℕ → Time → Tx (Unit {0})
unfolding attempt
touch_session id at = do
  attempt "touch session"
  affected ← gets (λ db. count (live id) db.sessions)
  modify (update_sessions (live id) (seen_at at))
  raise_if (affected == 0) (wrapped (sentinel not_found))

-- `RevokeSession`
unfoldable pub revoke_session : ℕ → Time → Tx (Unit {0})
unfolding attempt
revoke_session id at = do
  attempt "revoke session"
  affected ← gets (λ db. count (live id) db.sessions)
  modify (update_sessions (live id) (revoked_by at))
  raise_if (affected == 0) (wrapped (sentinel not_found))

-- revoked_at IS NULL AND expires_at <= ?
abbrev pub lapsed : Time → Session → Bool
lapsed at s = not (revoked s) && stored_le s.expires_at at

-- ORDER BY expires_at
abbrev pub expiry_le : Session → Session → Bool
expiry_le s r = stored_le s.expires_at r.expires_at

abbrev pub sweep_bound : ℕ → ℕ
sweep_bound limit = if limit == 0 then 100 else limit

-- The subquery of the sweep.
abbrev pub chosen : Time → ℕ → List Session → List Session
chosen at limit sessions = take (sweep_bound limit) (order_by expiry_le (keep (lapsed at) sessions))

-- WHERE id IN (...)
abbrev pub is_among : List Session → Session → Bool
is_among rows s = any (λ r. r.id == s.id) rows

-- `RevokeExpiredSessions`
unfoldable pub revoke_expired_sessions : Time → ℕ → Tx ℕ
unfolding attempt
revoke_expired_sessions at limit = do
  attempt "revoke expired sessions"
  rows ← gets (λ db. chosen at limit db.sessions)
  affected ← gets (λ db. count (is_among rows) db.sessions)
  modify (update_sessions (is_among rows) (revoked_by at))
  pure affected

-- WHERE user_id = ? AND revoked_at IS NULL AND expires_at > ?
abbrev pub usable : ℕ → Time → Session → Bool
usable user_id now s = s.user_id == user_id && (not (revoked s) && not (stored_le s.expires_at now))

-- `CountActiveSessions`
unfoldable pub count_active_sessions : ℕ → Time → Tx ℕ
unfolding attempt
count_active_sessions user_id now = do
  attempt "count active sessions"
  gets (λ db. count (usable user_id now) db.sessions)
