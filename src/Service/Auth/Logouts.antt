-- ===== src/Service/Auth/Logouts.antt =====
-- A session that its owner has left.
use orientation_enrollment_p.Base.{
  ℕ, true, false, ◌≡◌, refl, ap, ◌∙◌, sym, arith, none, some, find, ◌==◌, if◌then◌else◌, List,
}
use mathlib.Core.Option
use orientation_enrollment_p.Base.Text.{Text, text_eq, is_empty, codes}
use orientation_enrollment_p.Base.Time.{Time}
use orientation_enrollment_p.Domain.Errors.{ok, err, sentinel, wrapped, session_revoked}
use orientation_enrollment_p.Domain.Identity.{
  Session, Principal, is_some, validate_session, revoked,
}
use orientation_enrollment_p.Domain.Audit.{logout, success, number}
use orientation_enrollment_p.Storage.Db.{Db, Env, update_where}
use orientation_enrollment_p.Storage.Rows.{find-update_where}
use orientation_enrollment_p.Storage.Rules.{>>=-then, >>=-raise_if}
use orientation_enrollment_p.Storage.Sessions.{
  live, revoked_by, revoke_session, find_session_by_digest,
}
use orientation_enrollment_p.Storage.Sessions.Contracts.{revoke_session-ok}
use orientation_enrollment_p.Storage.Sessions.Revoked.{Operation, Ended, replay, replay-Ended}
use orientation_enrollment_p.Storage.Transactions.Atomic.{in_tx-ok}
use orientation_enrollment_p.Storage.Transactions.Views.{record_event-Keeps}
use orientation_enrollment_p.Security.Credentials.{Crypto, token_digest}
use orientation_enrollment_p.Service.Auth.{authenticate, log_out, close_session}

close_session-sessions :
    (actor : Principal) (env : Env) (db after : Db) {u : Unit {0}}
    → close_session actor env db ≡ (ok u, after)
    → after.sessions ≡ update_where (live actor.session_id) (revoked_by env.now) db.sessions
unfolding close_session
close_session-sessions actor env db after h =
    >>=-then (revoke_session actor.session_id env.now) _ env db h (λ u between first later.
      sym (ap (λ r. r.1.sessions) later)
      ∙ record_event-Keeps (λ d. d.sessions) (λ e d. refl) (some actor) logout (codes "session")
          (number actor.session_id) success env between
      ∙ ap (λ d. d.sessions) (revoke_session-ok actor.session_id env.now env db between first).1)

pub log_out-sessions :
    (actor : Principal) (env : Env) (db after : Db) {u : Unit {0}}
    → log_out actor env db ≡ (ok u, after)
    → after.sessions ≡ update_where (live actor.session_id) (revoked_by env.now) db.sessions
unfolding log_out
log_out-sessions actor env db after h =
    >>=-raise_if (actor.session_id == 0) _ _ env db h (λ named rest.
      close_session-sessions actor env db after (in_tx-ok (close_session actor) env db after rest))

-- The row of a session after its own logout.
left_row :
    (s : Session) (id : ℕ) (now : Time)
    → s.id ≡ id
    → is_some (if live id s then revoked_by now s else s).revoked_at ≡ true
unfolding revoked
left_row s id now same = ground arith

revoked_row :
    (crypto : Crypto) (token : Text) (s : Session) (id : ℕ) (now : Time) (sessions : List Session)
    → find (λ r. text_eq r.token_digest (token_digest crypto token)) sessions ≡ some s
    → s.id ≡ id
    → (r : Session) × (find
          (λ r. text_eq r.token_digest (token_digest crypto token))
          (update_where (live id) (revoked_by now) sessions)
        ≡ some r)
      × (is_some r.revoked_at ≡ true)
revoked_row crypto token s id now sessions known same = (
  (if live id s then revoked_by now s else s),
  find-update_where (λ r. text_eq r.token_digest (token_digest crypto token)) (live id)
        (revoked_by now) sessions (λ r. refl)
      ∙ ap (Option.map (λ r. if live id r then revoked_by now r else r)) known,
  left_row s id now same,
)

refused_revoked :
    (crypto : Crypto) (others : ℕ → Db → Db) (token : Text) (env : Env) (db : Db) (s : Session)
    → is_empty token ≡ false
    → is_empty (token_digest crypto token) ≡ false
    → env.fault "select session" db ≡ none
    → find (λ r. text_eq r.token_digest (token_digest crypto token)) db.sessions ≡ some s
    → is_some s.revoked_at ≡ true
    → authenticate crypto others token env db ≡ (err (wrapped (sentinel session_revoked)), db)
unfolding authenticate find_session_by_digest orientation_enrollment_p.Storage.Db.attempt
    validate_session revoked
refused_revoked crypto others token env db s some_token some_digest works known gone =
    rw (some_token, some_digest, works, known, gone) refl

-- After a logout the token of the session is refused as revoked, whoever uses it, whatever statements
-- on sessions have run since, in any order and with any outcome, and whatever they and others have
-- left in the other tables: as long as the session can be read.
pub log_out-refused :
    (crypto : Crypto) (others : ℕ → Db → Db) (token : Text) (actor : Principal) (env later : Env)
    (db after now : Db) (s : Session) (history : List (Operation × Env))
    → log_out actor env db ≡ (ok tt, after)
    → find (λ r. text_eq r.token_digest (token_digest crypto token)) db.sessions ≡ some s
    → s.id ≡ actor.session_id
    → is_empty token ≡ false
    → is_empty (token_digest crypto token) ≡ false
    → now.sessions ≡ (replay history after).sessions
    → later.fault "select session" now ≡ none
    → authenticate crypto others token later now ≡ (err (wrapped (sentinel session_revoked)), now)
log_out-refused crypto others token actor env later db after now s history out known same some_token
      some_digest since works =
    let digest = token_digest crypto token in
    let (r, found, gone) =
      revoked_row crypto token s actor.session_id env.now db.sessions known same in
    let left : Ended digest after.sessions = (
      r,
      ap (find (λ q. text_eq q.token_digest digest)) (log_out-sessions actor env db after out)
          ∙ found,
      gone,
    ) in
    let (q, there, revoked_still) = replay-Ended digest history after left in
    refused_revoked crypto others token later now q some_token some_digest works
      (ap (find (λ q. text_eq q.token_digest digest)) since ∙ there) revoked_still
