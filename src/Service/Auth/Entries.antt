-- ===== src/Service/Auth/Entries.antt =====
-- A login and the authentication by its token.
use orientation_enrollment_p.Base.{
  ℕ, true, false, ◌≡◌, refl, ap, ◌∙◌, sym, arith, Option, none, some, find, count, ◌==◌, ◌<◌, ◌≤◌,
  List, ◌∷◌, ==_refl, subst, All,
}
use orientation_enrollment_p.Base.Text.{Text, text_eq, is_empty, text_eq_refl}
use orientation_enrollment_p.Base.Time.{Duration}
use orientation_enrollment_p.Domain.Errors.{ok}
use orientation_enrollment_p.Domain.Identity.{User, Session, revoked}
use orientation_enrollment_p.Domain.Identity.Access.{validate_session_cases}
use orientation_enrollment_p.Storage.Db.{Db, Env, attempt}
use orientation_enrollment_p.Storage.Rows.Keys.{find-by_key, counted_found}
use orientation_enrollment_p.Storage.Users.{find_user_by_id}
use orientation_enrollment_p.Storage.Sessions.{find_session_by_digest, touch_session, live}
use orientation_enrollment_p.Storage.Sessions.Revoked.{Operation, replay}
use orientation_enrollment_p.Storage.Sessions.Kept.{Spares, Kept, replay-Kept}
use orientation_enrollment_p.Storage.Transactions.Working.{Works}
use orientation_enrollment_p.Security.Credentials.{Crypto, token_digest}
use orientation_enrollment_p.Service.Auth.{LoginResult, principal_of, log_in, authenticate}
use orientation_enrollment_p.Service.Auth.Logins.{log_in-Opened}

front_row :
    (crypto : Crypto) (token : Text) (s : Session) (rest : List Session)
    → s.token_digest ≡ token_digest crypto token
    → find (λ r. text_eq r.token_digest (token_digest crypto token)) (s ∷ rest) ≡ some s
front_row crypto token s rest digest =
    rw
      (ap (λ d. text_eq d (token_digest crypto token)) digest
        ∙ text_eq_refl (token_digest crypto token))
      refl

-- A row that is live is counted.
live_counted :
    (digest : Text) (row : Session) (rows : List Session)
    → find (λ r. text_eq r.token_digest digest) rows ≡ some row
    → row.revoked_at ≡ none
    → (count (live row.id) rows == 0) ≡ false
unfolding revoked
live_counted digest row rows found unrevoked =
    let here : live row.id row ≡ true = ground arith in
    let counted =
      counted_found (λ r. text_eq r.token_digest digest) (live row.id) rows found here in
    ground arith

-- A token whose session is there and lasts.
entitled :
    (crypto : Crypto) (token : Text) (env : Env) (db : Db) (s : Session) (user : User)
    → Works env
    → is_empty token ≡ false
    → is_empty (token_digest crypto token) ≡ false
    → find (λ r. text_eq r.token_digest (token_digest crypto token)) db.sessions ≡ some s
    → s.revoked_at ≡ none
    → env.now < s.expires_at
    → find (λ u. u.id == s.user_id) db.users ≡ some user
    → user.disabled ≡ false
    → (authenticate crypto (λ k d. d) token env db).0 ≡ ok (principal_of user s.id)
unfolding authenticate find_session_by_digest find_user_by_id touch_session attempt
entitled crypto token env db s user works some_token some_digest found unrevoked unexpired owner
      enabled =
    let valid = (validate_session_cases s env.now).0.1 (unrevoked, unexpired) in
    let touched = live_counted (token_digest crypto token) s db.sessions found unrevoked in
    rw
      (
        some_token,
        some_digest,
        works "select session" db,
        found,
        valid,
        works "select user by id" db,
        owner,
        enabled,
        works "touch session" db,
        touched,
      )
      refl

-- A client that has logged in is authenticated by its token as the principal of the login: before the
-- lifetime of the session ends, whatever logins, activities and logouts of other sessions have
-- written the sessions since, in any order and with any outcome, and whatever has become of the other
-- tables but the users, who are as the login found them. There was no sweep, the driver works, and
-- nobody commits anything during the authentication; the token and its digest are not empty, and
-- keys of users are those of one row each.
pub log_in-authenticate :
    (crypto : Crypto) (ttl : Duration) (random : Option Text) (email password user_agent : Text)
    (env later : Env) (db after now : Db) (r : LoginResult) (history : List (Operation × Env))
    → ((id : ℕ) → count (λ u. u.id == id) db.users ≤ 1)
    → log_in crypto ttl random email password user_agent env db ≡ (ok r, after)
    → All (λ (o : Operation × Env). Spares r.principal.session_id o.0) history
    → now.sessions ≡ (replay history after).sessions
    → now.users ≡ db.users
    → is_empty r.token ≡ false
    → is_empty (token_digest crypto r.token) ≡ false
    → later.now < r.expires_at
    → Works later
    → (authenticate crypto (λ k d. d) r.token later now).0 ≡ ok r.principal
log_in-authenticate crypto ttl random email password user_agent env later db after now r history
      one_user entered spared since users some_token some_digest in_time works =
    let o = log_in-Opened crypto ttl random email password user_agent env db after entered in
    let digest = token_digest crypto r.token in
    let opened : Kept digest o.session after.sessions = record {
      row = o.session;
      found =
          ap (find (λ q. text_eq q.token_digest digest)) o.rows
          ∙ front_row crypto r.token o.session db.sessions o.digest;
      key = refl;
      owner = refl;
      lifetime = refl;
      unrevoked = refl;
    } in
    let named : r.principal.session_id ≡ o.session.id = ap (λ p. p.session_id) o.principal in
    let kept =
      replay-Kept digest o.session history after
        (subst (λ id. All (λ (q : Operation × Env). Spares id q.0) history) named spared) opened in
    let owner : find (λ u. u.id == o.session.user_id) now.users ≡ some o.user =
      rw (users, o.owner)
        (find-by_key o.credited.test (λ u. u.id == o.user.id) db.users o.credited.known
          (==_refl o.user.id) (one_user o.user.id)) in
    entitled crypto r.token later now kept.row o.user works some_token some_digest
      (ap (find (λ q. text_eq q.token_digest digest)) since ∙ kept.found)
      (kept.unrevoked ∙ o.unrevoked)
      (subst (λ t. later.now < t) (sym (kept.lifetime ∙ o.lifetime.0)) in_time)
      (ap (λ k. find (λ u. u.id == k) now.users) kept.owner ∙ owner) o.credited.enabled
    ∙ ap ok (ap (principal_of o.user) kept.key ∙ sym o.principal)
