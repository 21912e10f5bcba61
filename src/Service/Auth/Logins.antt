-- ===== src/Service/Auth/Logins.antt =====
-- What a login opens.
use orientation_enrollment_p.Base.{
  Bool, true, false, ◌≡◌, refl, ap, ◌∙◌, sym, arith, Option, none, some, find, not, ◌+◌, List, ◌∷◌,
}
use orientation_enrollment_p.Base.Text.{Text, text_eq, is_empty, codes}
use orientation_enrollment_p.Base.Time.{Time, Duration}
use orientation_enrollment_p.Domain.Errors.{ok, sentinel, wrapped, unauthenticated}
use orientation_enrollment_p.Domain.Identity.{User, Session, normalize_email}
use orientation_enrollment_p.Domain.Audit.{AuditEvent, login, success, number}
use orientation_enrollment_p.Storage.Db.{Db, Env, attempt}
use orientation_enrollment_p.Storage.Rules.{
  >>=-then, >>=-raise_if, >>=-lift, >>=-read, or_not_found-ok, attempt-ReadOnly,
}
use orientation_enrollment_p.Storage.Users.{find_user_by_email}
use orientation_enrollment_p.Storage.Sessions.{create_session}
use orientation_enrollment_p.Storage.Sessions.Contracts.{create_session-ok}
use orientation_enrollment_p.Storage.Transactions.{record_event, in_tx, store_event}
use orientation_enrollment_p.Storage.Transactions.Atomic.{in_tx-ok}
use orientation_enrollment_p.Storage.Transactions.Views.{record_event-Keeps}
use orientation_enrollment_p.Security.Credentials.{Crypto, verify_password, token_digest}
use orientation_enrollment_p.Security.Tokens.{new_session_token}
use orientation_enrollment_p.Service.Auth.{
  LoginResult, principal_of, missing_as, with_context, check_credentials, new_session, open_session,
  log_in,
}
use orientation_enrollment_p.Service.Auth.Sessions.{missing_as-ok}

-- Who was let in: a user of the table, not disabled, whose stored hash the password verifies.
pub record Credited (crypto : Crypto) (password : Text) (db : Db) (user : User) : Type 0 where
  pub test : User → Bool
  pub known : find test db.users ≡ some user
  pub enabled : user.disabled ≡ false
  pub verified : with_context (verify_password crypto user.password_hash password) ≡ ok true

find_user_by_email-ok :
    (email : Text) (env : Env) (db after : Db) {u : User}
    → find_user_by_email email env db ≡ (ok u, after)
    → (test : User → Bool) × (find test db.users ≡ some u) × (after ≡ db)
unfolding find_user_by_email
find_user_by_email-ok email env db after h =
    >>=-lift (normalize_email email) _ env db h (λ e normal h1.
      >>=-read (attempt "select user by email") _ env db (attempt-ReadOnly "select user by email")
        h1
        (λ u first h2.
          let (there, same) = or_not_found-ok _ env db after h2 in
          ((λ r. text_eq r.email e), there, same)))

check_credentials-ok :
    (crypto : Crypto) (email password : Text) (env : Env) (db after : Db) {u : User}
    → check_credentials crypto email password env db ≡ (ok u, after)
    → Credited crypto password db u × (after ≡ db)
unfolding check_credentials
check_credentials-ok crypto email password env db after {u} h =
    >>=-lift (normalize_email email) _ env db h (λ e normal h1.
      >>=-raise_if (is_empty password) _ _ env db h1 (λ some_password h2.
        >>=-then (missing_as (wrapped (sentinel unauthenticated)) (find_user_by_email e)) _ env db
          h2
          (λ user d found h3.
            let (test, known, same) =
              find_user_by_email-ok e env db d
                (missing_as-ok _ (find_user_by_email e) env db d found) in
            >>=-raise_if user.disabled _ _ env d h3 (λ enabled h4.
              >>=-lift (with_context (verify_password crypto user.password_hash password)) _ env d
                h4
                (λ matches verified h5. >>=-raise_if (not matches) _ _ env d h5 (λ matching h6.
                  let here : user ≡ u = ground arith in
                  (
                    record {
                      test = test;
                      known = known ∙ ap some here;
                      enabled = ap (λ x. x.disabled) (sym here) ∙ enabled;
                      verified = ground arith;
                    },
                    sym (ap (λ x. x.1) h6) ∙ same,
                  )))))))

-- The tables after a login.
pub record Opened (crypto : Crypto) (ttl : Duration) (now : Time) (password : Text) (db : Db)
    (r : LoginResult) (after : Db) : Type 0 where
  pub user : User
  pub session : Session
  pub credited : Credited crypto password db user
  pub rows : after.sessions ≡ session ∷ db.sessions
  pub users : after.users ≡ db.users
  pub digest : session.token_digest ≡ token_digest crypto r.token
  pub unrevoked : session.revoked_at ≡ none
  pub lifetime : (session.expires_at ≡ r.expires_at) × (r.expires_at ≡ now + ttl)
  pub owner : session.user_id ≡ user.id
  pub principal : r.principal ≡ principal_of user session.id

opened_rows :
    (user : User) (session : Session) (env : Env) (db after : Db) {s : Session}
    → open_session user session env db ≡ (ok s, after)
    → (s ≡ record session { id = db.next_session_id })
      × (after.sessions ≡ s ∷ db.sessions)
      × (after.users ≡ db.users)
unfolding open_session
opened_rows user session env db after {s} h =
    >>=-then (create_session session) _ env db h (λ created d first h1.
      >>=-then
        (record_event (some (principal_of user created.id)) login (codes "session")
          (number created.id) success)
        _ env d h1
        (λ u d2 recorded h2.
          let (shape, (inserted, others)) = create_session-ok session env db d first in
          let same : created ≡ s = ground arith in
          let last : d2 ≡ after = ap (λ x. x.1) h2 in
          let kept =
            λ (X : Type 0) (view : Db → X)
                (blind : (e : AuditEvent) (b : Db) → view (store_event e b) ≡ view b).
              ap view (sym last)
              ∙ ap (λ x. view x.1) (sym recorded)
              ∙ record_event-Keeps view blind (some (principal_of user created.id)) login
                  (codes "session") (number created.id) success env d
              ∙ ap view inserted in
          (
            sym same ∙ shape,
            kept (List Session) (λ x. x.sessions) (λ e b. refl) ∙ ap (λ x. x ∷ db.sessions) same,
            kept (List User) (λ x. x.users) (λ e b. refl),
          )))

-- A login opens one session, for a user of the table who is not disabled and whose stored hash the
-- password verifies; the answer names that user, the session, its token and its end.
pub log_in-Opened :
    (crypto : Crypto) (ttl : Duration) (random : Option Text) (email password user_agent : Text)
    (env : Env) (db after : Db) {r : LoginResult}
    → log_in crypto ttl random email password user_agent env db ≡ (ok r, after)
    → Opened crypto ttl env.now password db r after
unfolding log_in
log_in-Opened crypto ttl random email password user_agent env db after {r} h =
    >>=-then (check_credentials crypto email password) _ env db h (λ user d checked h1.
      let (credited, same) = check_credentials-ok crypto email password env db d checked in
      >>=-lift (new_session_token crypto random) _ env d h1 (λ token drawn h2.
        let fresh = new_session crypto ttl user token user_agent env.now in
        >>=-then (in_tx (open_session user fresh)) _ env d h2 (λ s d2 opened h3.
          let (shape, rows, users) =
            opened_rows user fresh env d d2 (in_tx-ok (open_session user fresh) env d d2 opened) in
          let last : d2 ≡ after = ap (λ x. x.1) h3 in
          record {
            user = user;
            session = s;
            credited = credited;
            rows = ap (λ x. x.sessions) (sym last) ∙ rows ∙ ap (λ x. s ∷ x.sessions) same;
            users = ap (λ x. x.users) (sym last) ∙ users ∙ ap (λ x. x.users) same;
            digest = ground arith;
            unrevoked = ground arith;
            lifetime = ground arith;
            owner = ground arith;
            principal = ground arith;
          })))
