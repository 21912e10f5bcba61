-- ===== src/Tests/Accounts.antt =====
-- The theorems on passwords, sessions and stored answers at concrete inputs.
use orientation_enrollment_p.Base.{
  All, ◌/◌, ◌≤◌, ℕ, zero, suc, ◌+◌, ◌-◌, ◌*◌, ◌<◌, Bool, true, false, ◌≡◌, ◌≢◌, refl, ap, sym, ◌∙◌,
  inl, inr, ◌==◌, Option, none, some, List, [], ◌∷◌, map, any, find, count, length, arith,
  if◌then◌else◌,
}
use orientation_enrollment_p.Base.Text.{Text, codes, text_eq, is_empty}
use orientation_enrollment_p.Base.Time.{minute, second}
use orientation_enrollment_p.Domain.Errors.{
  Result, ok, err, wrapped, sentinel, Sentinel, session_revoked,
}
use orientation_enrollment_p.Domain.Identity.{User, Session, Principal, Role, revoked}
use orientation_enrollment_p.Storage.Db.{Db, Env, Tx}
use orientation_enrollment_p.Storage.Sessions.{lapsed}
use orientation_enrollment_p.Security.Credentials.{
  Crypto, Documented, hash_password, verify_password, token_digest, pbkdf2_sha256, work_factor,
  key_length,
}
use orientation_enrollment_p.Security.Passwords.{verify_password-hash_password}
use orientation_enrollment_p.Service.Auth.{LoginResult, log_in, authenticate, log_out}
use orientation_enrollment_p.Service.Auth.Sessions.{Authentic, authenticate-Authentic}
use orientation_enrollment_p.Service.Auth.Entries.{log_in-authenticate}
use orientation_enrollment_p.Storage.Sessions.Revoked.{Operation, create, touch, revoke, replay}
use orientation_enrollment_p.Service.Auth.Logouts.{log_out-refused}
use orientation_enrollment_p.Service.Auth.Sweeps.{sweeps, sweeps_done}
use orientation_enrollment_p.Service.Idempotency.{Scope, Outcome, execute, fingerprint}
use orientation_enrollment_p.Service.Idempotency.Replays.{with_payload, execute-replayed}
use orientation_enrollment_p.Tests.World.{tables, row_with, noon, ada, value_or}

abbrev filled : ℕ → ℕ → Text
filled zero b = []
filled (suc n) b = b ∷ filled n b

-- A toy of the packages, which keeps what they document.
abbrev pub toy : Crypto
toy = record {
  sha256 = λ s. s;
  hmac_sha256 = λ key message. filled 32 (length key + length message);
  base64 = map (λ b. b + 37);
  unbase64 = λ s. some (map (λ b. b - 37) s);
  base32 = λ s. s;
}

toy_decodes : (s : Text) → map (λ b. b - 37) (map (λ b. b + 37) s) ≡ s
toy_decodes [] = refl
toy_decodes (b ∷ s) = λ i. (back b i ∷ toy_decodes s i)
  where
    back : (b : ℕ) → b + 37 - 37 ≡ b
    back b = omega arith

toy_plain : (s : Text) → any (λ b. b == 36) (map (λ b. b + 37) s) ≡ false
toy_plain [] = refl
toy_plain (b ∷ s) = ground (arith, toy_plain s)

toy-Documented : Documented toy
toy-Documented = record {
  decodes = λ s. ap some (toy_decodes s);
  no_dollar = toy_plain;
  mac_size = λ key message. refl;
}

abbrev password : Text
password = codes "orientation"

abbrev salt : Text
salt = filled 16 1

abbrev stored_hash : Text
stored_hash = value_or [] (hash_password toy password salt 1)

verify_password-hash_password_example :
    (verify_password toy stored_hash password ≡ ok true)
    × ((candidate : Text)
        → verify_password toy stored_hash candidate
          ≡ ok (
              text_eq
                (pbkdf2_sha256 toy password salt (work_factor 1) key_length)
                (pbkdf2_sha256 toy candidate salt (work_factor 1) key_length)))
unfolding hash_password
verify_password-hash_password_example =
    verify_password-hash_password toy toy-Documented password salt 1 stored_hash (omega arith) refl

abbrev ada_user : User
ada_user = record {
  id = 5;
  email = codes "ada@b";
  display_name = codes "Ada";
  role = Role.student;
  password_hash = stored_hash;
  disabled = false;
  created_at = 1;
  updated_at = 1;
}

abbrev session_of : ℕ → ℕ → Session
session_of id expires_at = record {
  id = id;
  user_id = 5;
  token_digest = token_digest toy (codes "t");
  issued_at = 1;
  expires_at = expires_at;
  revoked_at = none;
  last_seen_at = 1;
  user_agent = [];
}

-- Ada, with one session that goes on and nothing else.
abbrev campus : Db
campus = record (tables (row_with 0 0) [] []) {
  users = ada_user ∷ [];
  sessions = session_of 1 500 ∷ [];
  next_session_id = 2;
}

abbrev alone : ℕ → Db → Db
alone k db = db

abbrev no_login : LoginResult
no_login = record { token = []; expires_at = 0; principal = ada }

abbrev no_outcome : Outcome
no_outcome = record { status = 0; body = []; replayed = true }

authenticate-Authentic_example :
    Authentic toy alone
      (codes "t")
      150
      campus
      (value_or ada (authenticate toy alone (codes "t") noon campus).0)
      (authenticate toy alone (codes "t") noon campus).1
unfolding orientation_enrollment_p.Service.Auth.log_in
    orientation_enrollment_p.Service.Auth.check_credentials
    orientation_enrollment_p.Service.Auth.open_session
    orientation_enrollment_p.Service.Auth.authenticate orientation_enrollment_p.Service.Auth.log_out
    orientation_enrollment_p.Service.Auth.close_session
    orientation_enrollment_p.Storage.Users.find_user_by_email
    orientation_enrollment_p.Storage.Users.find_user_by_id
    orientation_enrollment_p.Storage.Sessions.create_session
    orientation_enrollment_p.Storage.Sessions.find_session_by_digest
    orientation_enrollment_p.Storage.Sessions.touch_session
    orientation_enrollment_p.Storage.Sessions.revoke_session
    orientation_enrollment_p.Security.Credentials.verify_password
    orientation_enrollment_p.Security.Credentials.hash_password
    orientation_enrollment_p.Security.Credentials.token_digest
    orientation_enrollment_p.Security.Credentials.hex
    orientation_enrollment_p.Security.Credentials.pbkdf2_sha256
    orientation_enrollment_p.Security.Credentials.derive_blocks
    orientation_enrollment_p.Security.Credentials.stretch
    orientation_enrollment_p.Security.Credentials.fingerprint_payload
    orientation_enrollment_p.Security.Credentials.framed
    orientation_enrollment_p.Security.Words.join orientation_enrollment_p.Security.Words.split
    orientation_enrollment_p.Security.Decimal.itoa orientation_enrollment_p.Security.Decimal.decimal
    orientation_enrollment_p.Security.Decimal.atoi orientation_enrollment_p.Security.Decimal.scan
    orientation_enrollment_p.Security.Tokens.new_session_token
    orientation_enrollment_p.Domain.Identity.normalize_email
    orientation_enrollment_p.Domain.Identity.check_email
    orientation_enrollment_p.Domain.Identity.validate_session
    orientation_enrollment_p.Domain.Identity.revoked
    orientation_enrollment_p.Domain.Identity.expired
    orientation_enrollment_p.Domain.Audit.validate_event
    orientation_enrollment_p.Base.Text.trim_space orientation_enrollment_p.Base.Text.drop_while
    orientation_enrollment_p.Base.Text.is_space orientation_enrollment_p.Base.Text.to_lower
    orientation_enrollment_p.Base.Text.lower_byte orientation_enrollment_p.Base.Text.index_byte
    orientation_enrollment_p.Storage.Db.attempt orientation_enrollment_p.Storage.Db.update_where
    orientation_enrollment_p.Storage.Transactions.in_tx
    orientation_enrollment_p.Storage.Transactions.record_event
    orientation_enrollment_p.Storage.Transactions.append_audit_event
    orientation_enrollment_p.Storage.Timestamps.digits
    orientation_enrollment_p.Storage.Timestamps.format_time
    orientation_enrollment_p.Storage.Timestamps.fraction_text
    orientation_enrollment_p.Storage.Timestamps.stored_le
    orientation_enrollment_p.Storage.Timestamps.text_leb
    orientation_enrollment_p.Storage.Timestamps.trim_zeros
    orientation_enrollment_p.Service.Idempotency.execute
    orientation_enrollment_p.Service.Idempotency.fingerprint
    orientation_enrollment_p.Storage.Idempotency.find_idempotency_record
    orientation_enrollment_p.Storage.Idempotency.save_idempotency_record
    orientation_enrollment_p.Domain.Errors.is orientation_enrollment_p.Domain.Errors.tag
authenticate-Authentic_example =
    authenticate-Authentic toy alone (codes "t") noon campus
      (authenticate toy alone (codes "t") noon campus).1 refl

abbrev entry : Result LoginResult × Db
entry = log_in toy minute (some (codes "new")) (codes " Ada@B ") password [] noon campus

-- After the login somebody else logs in, and another session is left.
abbrev meanwhile : Db
meanwhile = replay ((create (session_of 2 900), noon) ∷ (revoke 1 150, noon) ∷ []) entry.1

log_in-authenticate_example :
    (authenticate toy alone (value_or no_login entry.0).token noon meanwhile).0
    ≡ ok (value_or no_login entry.0).principal
unfolding orientation_enrollment_p.Storage.Sessions.revoke_session
    orientation_enrollment_p.Domain.Identity.revoked orientation_enrollment_p.Service.Auth.log_in
    orientation_enrollment_p.Service.Auth.check_credentials
    orientation_enrollment_p.Service.Auth.open_session
    orientation_enrollment_p.Storage.Users.find_user_by_email
    orientation_enrollment_p.Storage.Users.find_user_by_id
    orientation_enrollment_p.Storage.Sessions.create_session
    orientation_enrollment_p.Security.Credentials.verify_password
    orientation_enrollment_p.Security.Credentials.hash_password
    orientation_enrollment_p.Security.Credentials.token_digest
    orientation_enrollment_p.Security.Credentials.hex
    orientation_enrollment_p.Security.Credentials.pbkdf2_sha256
    orientation_enrollment_p.Security.Credentials.derive_blocks
    orientation_enrollment_p.Security.Credentials.stretch
    orientation_enrollment_p.Security.Credentials.fingerprint_payload
    orientation_enrollment_p.Security.Credentials.framed
    orientation_enrollment_p.Security.Words.join orientation_enrollment_p.Security.Words.split
    orientation_enrollment_p.Security.Decimal.itoa orientation_enrollment_p.Security.Decimal.decimal
    orientation_enrollment_p.Security.Decimal.atoi orientation_enrollment_p.Security.Decimal.scan
    orientation_enrollment_p.Security.Tokens.new_session_token
    orientation_enrollment_p.Domain.Identity.normalize_email
    orientation_enrollment_p.Domain.Identity.check_email
    orientation_enrollment_p.Domain.Audit.validate_event
    orientation_enrollment_p.Base.Text.trim_space orientation_enrollment_p.Base.Text.drop_while
    orientation_enrollment_p.Base.Text.index_byte orientation_enrollment_p.Storage.Db.attempt
    orientation_enrollment_p.Storage.Db.update_where
    orientation_enrollment_p.Storage.Transactions.in_tx
    orientation_enrollment_p.Storage.Transactions.record_event
    orientation_enrollment_p.Storage.Transactions.append_audit_event
    orientation_enrollment_p.Storage.Timestamps.digits
    orientation_enrollment_p.Storage.Timestamps.format_time
    orientation_enrollment_p.Storage.Timestamps.fraction_text
    orientation_enrollment_p.Storage.Timestamps.stored_le
log_in-authenticate_example =
    log_in-authenticate toy minute (some (codes "new")) (codes " Ada@B ") password [] noon noon
      campus entry.1 meanwhile (value_or no_login entry.0)
      ((create (session_of 2 900), noon) ∷ (revoke 1 150, noon) ∷ []) (λ id. ground arith) refl
      (tt, ((λ same. ground arith), tt)) refl refl refl refl (omega arith) (λ statement d. refl)

-- After the logout somebody else logs in, and the session's activity is to be noted once more.
abbrev afterwards : List (Operation × Env)
afterwards = (create (session_of 2 900), noon) ∷ (touch 1 160, noon) ∷ []

abbrev left : Db
left = replay afterwards (log_out ada noon campus).1

log_out-refused_example :
    authenticate toy alone (codes "t") noon left ≡ (err (wrapped (sentinel session_revoked)), left)
unfolding orientation_enrollment_p.Service.Auth.log_out
    orientation_enrollment_p.Service.Auth.close_session
    orientation_enrollment_p.Storage.Sessions.revoke_session
    orientation_enrollment_p.Security.Credentials.token_digest
    orientation_enrollment_p.Security.Credentials.hex
    orientation_enrollment_p.Domain.Identity.revoked
    orientation_enrollment_p.Domain.Audit.validate_event
    orientation_enrollment_p.Base.Text.trim_space
    orientation_enrollment_p.Storage.Transactions.in_tx
    orientation_enrollment_p.Storage.Transactions.record_event
log_out-refused_example =
    log_out-refused toy alone (codes "t") ada noon noon campus (log_out ada noon campus).1 left
      (session_of 1 500) afterwards refl refl refl refl refl refl refl

-- Three sessions that ended, of which a sweep revokes two.
abbrev stale_campus : Db
stale_campus = record campus {
  sessions = session_of 1 100 ∷ session_of 2 120 ∷ session_of 3 150 ∷ session_of 4 500 ∷ [];
}

sweeps_done_example :
    All
      (λ s. revoked s ≡ false → 150 / second ≤ s.expires_at / second)
      (sweeps 2 2 noon stale_campus).sessions
unfolding orientation_enrollment_p.Domain.Identity.revoked
    orientation_enrollment_p.Base.Text.trim_space
    orientation_enrollment_p.Storage.Timestamps.fraction_text
    orientation_enrollment_p.Storage.Timestamps.stored_le
    orientation_enrollment_p.Storage.Timestamps.text_leb
sweeps_done_example =
    sweeps_done 2 2 noon stale_campus (λ k. ground arith) (λ statement d. refl) (omega arith)

abbrev scope : Scope
scope = record {
  actor_user_id = 5;
  method = codes "POST";
  path = codes "/drop";
  key = codes "k1";
  payload = codes "x";
}

abbrev answering : Tx (ℕ × Text)
answering env db = (ok (201, codes "done"), db)

abbrev answered_once : Result Outcome × Db
answered_once = execute toy scope (λ d. d) answering noon campus

execute-replayed_example :
    execute toy (with_payload scope (codes "y")) (λ d. d) answering noon answered_once.1 ≡ (
      (if text_eq (fingerprint toy scope) (fingerprint toy (with_payload scope (codes "y")))
          then ok (record (value_or no_outcome answered_once.0) { replayed = true })
          else err (wrapped (sentinel Sentinel.idempotency_mismatch))),
      answered_once.1,
    )
unfolding orientation_enrollment_p.Service.Idempotency.execute
    orientation_enrollment_p.Storage.Idempotency.find_idempotency_record
    orientation_enrollment_p.Storage.Idempotency.save_idempotency_record
    orientation_enrollment_p.Domain.Errors.is
execute-replayed_example =
    execute-replayed toy scope (λ d. d) answering noon campus answered_once.1
      (value_or no_outcome answered_once.0) refl refl refl (codes "y") (λ d. d) answering noon refl
      (omega arith)
