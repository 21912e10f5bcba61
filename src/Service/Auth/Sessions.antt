-- ===== src/Service/Auth/Sessions.antt =====
-- When a token authenticates.
use orientation_enrollment_p.Base.{
  subst, ℕ, false, ◌≡◌, ◌≢◌, ap, ◌∙◌, ◌<◌, arith, none, some, find, count, ◌==◌, sym,
}
use orientation_enrollment_p.Base.Text.{Text, text_eq, is_empty}
use orientation_enrollment_p.Domain.Errors.{Error, Result, ok, err}
use orientation_enrollment_p.Domain.Identity.{User, Session, Principal, validate_session}
use orientation_enrollment_p.Domain.Identity.Access.{validate_session_cases}
use orientation_enrollment_p.Storage.Sessions.Contracts.{
  find_session_by_digest-ok, find_user_by_id-ok, touch_session-ok,
}
use orientation_enrollment_p.Domain.Errors.{wrapped, sentinel, session_revoked, unauthenticated}
use orientation_enrollment_p.Storage.Db.{Db, Env, Tx}
use orientation_enrollment_p.Storage.Rules.{>>=-then, >>=-lift, >>=-raise_if}
use orientation_enrollment_p.Storage.Sessions.{
  live, update_sessions, seen_at, find_session_by_digest, touch_session,
}
use orientation_enrollment_p.Storage.Users.{find_user_by_id}
use orientation_enrollment_p.Security.Credentials.{Crypto, token_digest}
use orientation_enrollment_p.Service.Auth.{
  principal_of, authenticate, missing_as, or_error, with_context,
}

-- The tables say that the token is that of a session in use.
pub record Authentic (crypto : Crypto) (others : ℕ → Db → Db) (token : Text) (now : ℕ) (db : Db)
    (p : Principal) (after : Db) : Type 0 where
  pub session : Session
  pub user : User
  pub known :
      find (λ s. text_eq s.token_digest (token_digest crypto token)) db.sessions ≡ some session
  pub unrevoked : session.revoked_at ≡ none
  pub unexpired : now < session.expires_at
  pub owner : find (λ u. u.id == session.user_id) (others 0 db).users ≡ some user
  pub enabled : user.disabled ≡ false
  pub still_live : count (live session.id) (others 1 (others 0 db)).sessions ≢ 0
  pub principal : p ≡ principal_of user session.id
  pub seen : after ≡ update_sessions (live session.id) (seen_at now) (others 1 (others 0 db))

with_context-ok : {A : Type 0} (r : Result A) {a : A} → with_context r ≡ ok a → r ≡ ok a
with_context-ok (ok b) h = h
with_context-ok (err e) h = absurd (ground arith)

or_error-ok :
    {A : Type 0} (e : Error) (r : Result A × Db) {a : A} {after : Db}
    → or_error e r ≡ (ok a, after)
    → r ≡ (ok a, after)
or_error-ok e (ok b, db) h = h
or_error-ok e (err f, db) h = absurd (ground arith)

pub missing_as-ok :
    {A : Type 0} (e : Error) (m : Tx A) (env : Env) (db after : Db) {a : A}
    → missing_as e m env db ≡ (ok a, after)
    → m env db ≡ (ok a, after)
missing_as-ok e m env db after {a} h = or_error-ok e (m env db) h

-- A token that authenticates is that of a session which has neither been revoked nor expired, and
-- whose owner is not disabled; the principal is the owner, and the session is still live when its
-- activity is recorded, which is all that the call writes.
pub authenticate-Authentic :
    (crypto : Crypto) (others : ℕ → Db → Db) (token : Text) (env : Env) (db after : Db)
    {p : Principal}
    → authenticate crypto others token env db ≡ (ok p, after)
    → Authentic crypto others token env.now db p after
unfolding authenticate
authenticate-Authentic crypto others token env db after {p} h =
    >>=-raise_if (is_empty token) _ _ env db h (λ some_token h1.
      >>=-then
        (missing_as (wrapped (sentinel unauthenticated))
          (find_session_by_digest (token_digest crypto token)))
        _ env db h1
        (λ session d1 found h2.
          let (known, same) = find_session_by_digest-ok (token_digest crypto token) env db d1 (
            missing_as-ok _ (find_session_by_digest (token_digest crypto token)) env db d1 found) in
          >>=-lift (with_context (validate_session session env.now)) _ env d1 h2 (λ u valid h3.
            >>=-then (find_user_by_id session.user_id) _ env (others 0 d1) h3 (λ user d2 owner h4.
              >>=-raise_if user.disabled _ _ env d2 h4 (λ enabled h5.
                >>=-then
                  (missing_as (wrapped (sentinel session_revoked))
                    (touch_session session.id env.now))
                  _ env (others 1 d2) h5
                  (λ v d3 touched h6.
                    let (owned, kept) =
                      find_user_by_id-ok session.user_id env (others 0 d1) d2 owner in
                    let (alive, written) =
                      touch_session-ok session.id env.now env (others 1 d2) d3 (
                        missing_as-ok _ (touch_session session.id env.now) env (others 1 d2) d3
                          touched) in
                    let usable =
                      (validate_session_cases session env.now).0.0
                        (with_context-ok (validate_session session env.now) valid) in
                    let now_there : others 1 d2 ≡ others 1 (others 0 db) =
                      ap (others 1) (kept ∙ ap (others 0) same) in
                    record {
                      session = session;
                      user = user;
                      known = known;
                      unrevoked = usable.0;
                      unexpired = usable.1;
                      owner =
                          subst
                            (λ d.
                              find (λ r. r.id == session.user_id) (others 0 d).users ≡ some user)
                            same owned;
                      enabled = enabled;
                      still_live =
                          subst (λ d. count (live session.id) d.sessions ≢ 0) now_there alive;
                      principal = ground arith;
                      seen =
                          sym (ap (λ r. r.1) h6)
                          ∙ written
                          ∙ ap (update_sessions (live session.id) (seen_at env.now)) now_there;
                    }))))))
