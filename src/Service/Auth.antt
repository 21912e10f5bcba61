-- ===== src/Service/Auth.antt =====
-- internal/service/auth.go: login, authentication, logout and the sweep of expired sessions. The
-- texts of audit details are left out. Between the statements of a call that is no transaction other
-- connections may commit, which is an argument of it.
pub mod Sessions
pub mod Logins
pub mod Entries
pub mod Logouts
pub mod Sweeps
use orientation_enrollment_p.Base.{
  ℕ, Bool, true, false, not, ◌+◌, Option, none, some, List, ltb, ◌==◌, if◌then◌else◌,
}
use orientation_enrollment_p.Base.Text.{Text, codes, is_empty}
use orientation_enrollment_p.Base.Time.{Time, Duration, minute}
use orientation_enrollment_p.Domain.Errors.{
  Error, Result, ok, err, sentinel, wrapped, field_error, is, Sentinel, unauthenticated, forbidden,
  session_revoked,
}
use orientation_enrollment_p.Domain.Identity.{
  User, Session, Principal, normalize_email, validate_session,
}
use orientation_enrollment_p.Domain.Audit.{
  AuditAction, login, logout, session_swept, success, number, word,
}
use orientation_enrollment_p.Storage.Db.{
  Db, Env, Tx, pure, lift, clock, ◌>>=◌, ◌>>◌, modify, raise_if,
}
use orientation_enrollment_p.Storage.Users.{find_user_by_email, find_user_by_id}
use orientation_enrollment_p.Storage.Sessions.{
  create_session, find_session_by_digest, touch_session, revoke_session, revoke_expired_sessions,
  count_active_sessions,
}
use orientation_enrollment_p.Storage.Transactions.{in_tx, record_event}
use orientation_enrollment_p.Security.Credentials.{Crypto, verify_password, token_digest}
use orientation_enrollment_p.Security.Tokens.{new_session_token}

-- `NewAuthService`: the lifetime of its sessions.
unfoldable pub new_auth_service : Duration → Result Duration
new_auth_service ttl =
    if ltb ttl minute then err (field_error "session_ttl" "must be at least one minute") else ok ttl

pub record LoginResult : Type 0 where
  pub token : Text
  pub expires_at : Time
  pub principal : Principal

abbrev pub principal_of : User → ℕ → Principal
principal_of user session_id = record {
  user_id = user.id;
  session_id = session_id;
  email = user.email;
  display_name = user.display_name;
  role = user.role;
}

-- A row that is not found is reported as another error.
abbrev pub or_error : {A : Type 0} → Error → Result A × Db → Result A × Db
or_error e (ok a, db) = (ok a, db)
or_error e (err f, db) = (err (if is f Sentinel.not_found then e else f), db)

abbrev pub missing_as : {A : Type 0} → Error → Tx A → Tx A
missing_as e m env db = or_error e (m env db)

abbrev pub with_context : {A : Type 0} → Result A → Result A
with_context (ok a) = ok a
with_context (err e) = err (wrapped e)

-- The checks of `Login` before a token is drawn.
unfoldable pub check_credentials : Crypto → Text → Text → Tx User
check_credentials crypto email password = do
  normalized ← lift (normalize_email email)
  raise_if (is_empty password) (field_error "password" "must not be empty")
  user ← missing_as (wrapped (sentinel unauthenticated)) (find_user_by_email normalized)
  raise_if user.disabled (wrapped (sentinel forbidden))
  matches ← lift (with_context (verify_password crypto user.password_hash password))
  raise_if (not matches) (wrapped (sentinel unauthenticated))
  pure user

abbrev pub new_session : Crypto → Duration → User → Text → Text → Time → Session
new_session crypto ttl user token user_agent now = record {
  id = 0;
  user_id = user.id;
  token_digest = token_digest crypto token;
  issued_at = now;
  expires_at = now + ttl;
  revoked_at = none;
  last_seen_at = now;
  user_agent = user_agent;
}

-- The transaction of `Login`.
unfoldable pub open_session : User → Session → Tx Session
open_session user session = do
  created ← create_session session
  record_event (some (principal_of user created.id)) login (codes "session") (number created.id)
      success
  pure created

-- `Login`, given what the random source answers.
unfoldable pub log_in : Crypto → Duration → Option Text → Text → Text → Text → Tx LoginResult
log_in crypto ttl random email password user_agent = do
  user ← check_credentials crypto email password
  token ← lift (new_session_token crypto random)
  now ← clock
  created ← in_tx (open_session user (new_session crypto ttl user token user_agent now))
  pure (record {
    token = token;
    expires_at = created.expires_at;
    principal = principal_of user created.id;
  })

-- `Authenticate`; `others` is what other connections commit before its second and third statement.
unfoldable pub authenticate : Crypto → (ℕ → Db → Db) → Text → Tx Principal
authenticate crypto others token = do
  raise_if (is_empty token) (wrapped (sentinel unauthenticated))
  session ←
      missing_as (wrapped (sentinel unauthenticated))
        (find_session_by_digest (token_digest crypto token))
  now ← clock
  lift (with_context (validate_session session now))
  modify (others 0)
  user ← find_user_by_id session.user_id
  raise_if user.disabled (wrapped (sentinel forbidden))
  modify (others 1)
  missing_as (wrapped (sentinel session_revoked)) (touch_session session.id now)
  pure (principal_of user session.id)

-- The transaction of `Logout`.
unfoldable pub close_session : Principal → Tx (Unit {0})
close_session actor = do
  now ← clock
  revoke_session actor.session_id now
  record_event (some actor) logout (codes "session") (number actor.session_id) success

-- `Logout`
unfoldable pub log_out : Principal → Tx (Unit {0})
log_out actor = do
  raise_if (actor.session_id == 0) (wrapped (sentinel unauthenticated))
  in_tx (close_session actor)

-- `ActiveSessionCount`
unfoldable pub active_session_count : Principal → Tx ℕ
active_session_count actor = do now ← clock; count_active_sessions actor.user_id now

-- A sweep that revoked nothing leaves no event.
abbrev pub record_sweep : ℕ → Tx (Unit {0})
record_sweep revoked =
    if revoked == 0
    then pure tt
    else record_event none session_swept (codes "session") (word (codes "batch")) success

-- The transaction of `SweepExpiredSessions`.
unfoldable pub sweep_once : ℕ → Tx ℕ
sweep_once limit = do
  now ← clock
  revoked ← revoke_expired_sessions now limit
  record_sweep revoked
  pure revoked

-- `SweepExpiredSessions`
unfoldable pub sweep_expired_sessions : ℕ → Tx ℕ
sweep_expired_sessions limit = in_tx (sweep_once limit)
