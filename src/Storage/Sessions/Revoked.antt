-- ===== src/Storage/Sessions/Revoked.antt =====
-- What has been revoked stays so, whatever the statements on sessions do afterwards.
use mathlib.Core.Option
use orientation_enrollment_p.Base.{
  ℕ, Bool, true, false, ◌≡◌, refl, sym, ◌∙◌, ap, inl, inr, ◌⊎◌, arith, some, List, [], ◌∷◌, find,
  any, not, subst, if◌then◌else◌, Bool-cases, Option-cases,
}
use orientation_enrollment_p.Base.Text.{Text, text_eq, text_eq_sound, is_empty}
use orientation_enrollment_p.Base.Time.{Time, before}
use orientation_enrollment_p.Domain.Identity.{Session, is_some}
use orientation_enrollment_p.Storage.Db.{Db, Env, update_where}
use orientation_enrollment_p.Storage.Rows.{find-update_where}
use orientation_enrollment_p.Storage.Sessions.{
  create_session, touch_session, revoke_session, revoke_expired_sessions, live, seen_at, revoked_by,
  chosen, is_among,
}

-- The statements that write sessions, with what their callers choose.
pub data Operation : Type 0 where
  create : Session → Operation
  touch : ℕ → Time → Operation
  revoke : ℕ → Time → Operation
  sweep : Time → ℕ → Operation

abbrev pub perform : Operation → Env → Db → Db
perform (create s) env db = (create_session s env db).1
perform (touch id at) env db = (touch_session id at env db).1
perform (revoke id at) env db = (revoke_session id at env db).1
perform (sweep at limit) env db = (revoke_expired_sessions at limit env db).1

abbrev pub replay : List (Operation × Env) → Db → Db
replay [] db = db
replay ((op, env) ∷ rest) db = replay rest (perform op env db)

-- The session of a digest is there, and is revoked.
abbrev pub Ended : Text → List Session → Type 0
Ended digest sessions =
    (s : Session) × (find (λ r. text_eq r.token_digest digest) sessions ≡ some s)
    × (is_some s.revoked_at ≡ true)

Ended-update_where :
    (digest : Text) (test : Session → Bool) (change : Session → Session) (rows : List Session)
    → ((r : Session) → (change r).token_digest ≡ r.token_digest)
    → ((r : Session) → is_some r.revoked_at ≡ true → is_some (change r).revoked_at ≡ true)
    → Ended digest rows
    → Ended digest (update_where test change rows)
Ended-update_where digest test change rows same keeps (s, found, gone) = (
  (if test s then change s else s),
  find-update_where (λ r. text_eq r.token_digest digest) test change rows
        (λ r. ap (λ d. text_eq d digest) (same r))
      ∙ ap (Option.map (λ r. if test r then change r else r)) found,
  elim (Bool-cases (test s)) [ inl e ↦ rw e (keeps s gone) | inr e ↦ rw e gone ],
)

pub found-any :
    (p : Session → Bool) (rows : List Session) {s : Session}
    → find p rows ≡ some s
    → any p rows ≡ true
found-any p [] h = absurd (ground arith)
found-any p (r ∷ rows) {s} h = elim (Bool-cases (p r)) [
  | inl e ↦ ground arith
  | inr e ↦ ground (arith, found-any p rows {s = s})
]

-- A new session with the digest would have been refused.
Ended-newer :
    (digest : Text) (s : Session) (rows : List Session)
    → any (λ r. text_eq r.token_digest s.token_digest) rows ≡ false
    → Ended digest rows
    → Ended digest (s ∷ rows)
Ended-newer digest s rows free (r, found, gone) =
    elim (Bool-cases (text_eq s.token_digest digest)) [
      | inr e ↦ (r, rw e found, gone)
      | inl e ↦
          let there = found-any (λ r. text_eq r.token_digest digest) rows {s = r} found in
          let same = text_eq_sound s.token_digest digest e in
          let clash : true ≡ false =
            sym there ∙ sym (ap (λ d. any (λ r. text_eq r.token_digest d) rows) same) ∙ free in
          absurd (ground arith)
    ]

pub create_session-cases :
    (session : Session) (env : Env) (db : Db)
    → ((create_session session env db).1.sessions ≡ db.sessions)
      ⊎ ((s : Session) × ((create_session session env db).1.sessions ≡ s ∷ db.sessions)
          × (any (λ r. text_eq r.token_digest s.token_digest) db.sessions ≡ false))
unfolding create_session
create_session-cases session env db = elim (Bool-cases (is_empty session.token_digest)) [
  | inl e ↦ inl (rw e refl)
  | inr digest ↦ elim (Bool-cases (not (before session.issued_at session.expires_at))) [
    | inl e ↦ inl (rw (digest, e) refl)
    | inr ordered ↦ elim (Option-cases (env.fault "insert session" db)) [
      | inr (f, e) ↦ inl (rw (digest, ordered, e) refl)
      | inl fine ↦
          elim (Bool-cases (any (λ r. text_eq r.token_digest session.token_digest) db.sessions)) [
            | inl e ↦ inl (rw (digest, ordered, fine, e) refl)
            | inr e ↦
                inr (
                  record session { id = db.next_session_id },
                  rw (digest, ordered, fine, e) refl,
                  e,
                )
          ]
    ]
  ]
]

pub touch_session-cases :
    (id : ℕ) (at : Time) (env : Env) (db : Db)
    → ((touch_session id at env db).1.sessions ≡ db.sessions)
      ⊎ ((touch_session id at env db).1.sessions ≡ update_where (live id) (seen_at at) db.sessions)
unfolding touch_session
touch_session-cases id at env db = elim (Option-cases (env.fault "touch session" db)) [
  | inl fine ↦ inr (ground arith)
  | inr (f, failed) ↦ inl (ground arith)
]

pub revoke_session-cases :
    (id : ℕ) (at : Time) (env : Env) (db : Db)
    → ((revoke_session id at env db).1.sessions ≡ db.sessions)
      ⊎ ((revoke_session id at env db).1.sessions
          ≡ update_where (live id) (revoked_by at) db.sessions)
unfolding revoke_session
revoke_session-cases id at env db = elim (Option-cases (env.fault "revoke session" db)) [
  | inl fine ↦ inr (ground arith)
  | inr (f, failed) ↦ inl (ground arith)
]

sweep-cases :
    (at : Time) (limit : ℕ) (env : Env) (db : Db)
    → ((revoke_expired_sessions at limit env db).1.sessions ≡ db.sessions)
      ⊎ ((revoke_expired_sessions at limit env db).1.sessions
          ≡ update_where (is_among (chosen at limit db.sessions)) (revoked_by at) db.sessions)
unfolding revoke_expired_sessions
sweep-cases at limit env db = elim (Option-cases (env.fault "revoke expired sessions" db)) [
  | inl fine ↦ inr (ground arith)
  | inr (f, failed) ↦ inl (ground arith)
]

-- An UPDATE of sessions that may have been carried out.
updated-Ended :
    (digest : Text) (test : Session → Bool) (change : Session → Session) (rows after : List Session)
    → ((r : Session) → (change r).token_digest ≡ r.token_digest)
    → ((r : Session) → is_some r.revoked_at ≡ true → is_some (change r).revoked_at ≡ true)
    → (after ≡ rows) ⊎ (after ≡ update_where test change rows)
    → Ended digest rows
    → Ended digest after
updated-Ended digest test change rows after same keeps (inl e) ended =
    subst (Ended digest) (sym e) ended
updated-Ended digest test change rows after same keeps (inr e) ended =
    subst (Ended digest) (sym e) (Ended-update_where digest test change rows same keeps ended)

perform-Ended :
    (digest : Text) (op : Operation) (env : Env) (db : Db)
    → Ended digest db.sessions
    → Ended digest (perform op env db).sessions
perform-Ended digest (create session) env db ended = elim (create_session-cases session env db) [
  | inl e ↦ subst (Ended digest) (sym e) ended
  | inr (s, e, free) ↦ subst (Ended digest) (sym e) (Ended-newer digest s db.sessions free ended)
]
perform-Ended digest (touch id at) env db ended =
    updated-Ended digest (live id) (seen_at at) db.sessions (perform (touch id at) env db).sessions
      (λ r. refl) (λ r h. h) (touch_session-cases id at env db) ended
perform-Ended digest (revoke id at) env db ended =
    updated-Ended digest (live id) (revoked_by at) db.sessions
      (perform (revoke id at) env db).sessions (λ r. refl) (λ r h. refl)
      (revoke_session-cases id at env db) ended
perform-Ended digest (sweep at limit) env db ended =
    updated-Ended digest (is_among (chosen at limit db.sessions)) (revoked_by at) db.sessions
      (perform (sweep at limit) env db).sessions (λ r. refl) (λ r h. refl)
      (sweep-cases at limit env db) ended

pub replay-Ended :
    (digest : Text) (history : List (Operation × Env)) (db : Db)
    → Ended digest db.sessions
    → Ended digest (replay history db).sessions
replay-Ended digest [] db ended = ended
replay-Ended digest ((op, env) ∷ rest) db ended =
    replay-Ended digest rest (perform op env db) (perform-Ended digest op env db ended)
