-- ===== src/Service/Auth/Sweeps.antt =====
-- Sweeps of expired sessions, and how many of them it takes.
use orientation_enrollment_p.Base.{
  [], ◌∷◌, All, ◌/◌, ℕ, zero, suc, String, Bool, true, false, ◌≡◌, refl, ap, ◌∙◌, sym, ◌+◌, ◌*◌,
  ◌≤◌, arith, Option, none, some, List, ltb, ◌==◌, if◌then◌else◌, inl, inr, Bool-cases, count,
  subst,
}
use orientation_enrollment_p.Base.Text.{Text, codes}
use orientation_enrollment_p.Base.Time.{Time, second}
use orientation_enrollment_p.Domain.Errors.{ok}
use orientation_enrollment_p.Domain.Identity.{Session, revoked}
use orientation_enrollment_p.Storage.Timestamps.Order.{stored_le-later}
use orientation_enrollment_p.Domain.Audit.{session_swept, success, word}
use orientation_enrollment_p.Storage.Db.{Db, Env, update_where}
use orientation_enrollment_p.Storage.Rules.{>>=-then}
use orientation_enrollment_p.Storage.Sessions.{
  lapsed, chosen, sweep_bound, is_among, revoked_by, update_sessions, revoke_expired_sessions,
}
use orientation_enrollment_p.Storage.Sessions.Sweep.{
  UniqueIds, at_most, chosen-swept, revoked-UniqueIds,
}
use orientation_enrollment_p.Storage.Transactions.Atomic.{in_tx-ok}
use orientation_enrollment_p.Storage.Transactions.Views.{record_event-Keeps}
use orientation_enrollment_p.Storage.Transactions.Working.{Works, in_tx-Works, record_event-Works}
use orientation_enrollment_p.Storage.Transactions.{event_of, store_event}
use orientation_enrollment_p.Service.Auth.{record_sweep, sweep_once, sweep_expired_sessions}

revoke_expired_sessions-ok :
    (at : Time) (limit : ℕ) (env : Env) (db after : Db) {n : ℕ}
    → revoke_expired_sessions at limit env db ≡ (ok n, after)
    → (n ≡ count (is_among (chosen at limit db.sessions)) db.sessions)
      × (after.sessions
          ≡ update_where (is_among (chosen at limit db.sessions)) (revoked_by at) db.sessions)
unfolding revoke_expired_sessions
revoke_expired_sessions-ok at limit env db after h = ground arith

record_sweep-sessions :
    (n : ℕ) (env : Env) (db : Db) → (record_sweep n env db).1.sessions ≡ db.sessions
record_sweep-sessions n env db = elim (Bool-cases (n == 0)) [
  | inl e ↦ rw e refl
  | inr e ↦ rw e (
      record_event-Keeps (λ d. d.sessions) (λ e d. refl) none session_swept (codes "session")
        (word (codes "batch")) success env db)
]

sweep-sessions :
    (limit : ℕ) (env : Env) (db after : Db) {n : ℕ}
    → sweep_expired_sessions limit env db ≡ (ok n, after)
    → (n ≡ count (is_among (chosen env.now limit db.sessions)) db.sessions)
      × (after.sessions
          ≡ update_where
              (is_among (chosen env.now limit db.sessions))
              (revoked_by env.now)
              db.sessions)
unfolding sweep_expired_sessions sweep_once
sweep-sessions limit env db after {n} h =
    >>=-then (revoke_expired_sessions env.now limit) _ env db
      (in_tx-ok (sweep_once limit) env db after h)
      (λ m d first h1. >>=-then (record_sweep m) _ env d h1 (λ u d2 recorded h2.
        let (counted, rows) = revoke_expired_sessions-ok env.now limit env db d first in
        (
          sym (ground arith) ∙ counted,
          sym (ap (λ x. x.1.sessions) h2)
              ∙ sym (ap (λ x. x.1.sessions) recorded)
              ∙ record_sweep-sessions m env d
              ∙ rows,
        )))

-- A sweep that returns a value revokes as many expired sessions as its bound allows and returns their
-- number; what was expired before is what it revoked and what it left, and no key changes.
pub sweep_expired_sessions-revoked :
    (limit : ℕ) (env : Env) (db after : Db) {n : ℕ}
    → UniqueIds db.sessions
    → sweep_expired_sessions limit env db ≡ (ok n, after)
    → (n ≡ at_most (sweep_bound limit) (count (lapsed env.now) db.sessions))
      × (count (lapsed env.now) after.sessions + n ≡ count (lapsed env.now) db.sessions)
      × UniqueIds after.sessions
sweep_expired_sessions-revoked limit env db after unique swept =
    let (counted, rows) = sweep-sessions limit env db after swept in
    let (bounded, left) = chosen-swept env.now limit db.sessions unique in
    (
      counted ∙ bounded,
      rw rows (rw counted left),
      subst UniqueIds (sym rows) (
          revoked-UniqueIds (is_among (chosen env.now limit db.sessions)) env.now db.sessions
            unique),
    )

record_sweep-Works :
    (n : ℕ) (env : Env) (db : Db)
    → Works env
    → (after : Db) × (record_sweep n env db ≡ (ok tt, after))
unfolding orientation_enrollment_p.Domain.Audit.validate_event
    orientation_enrollment_p.Base.Text.trim_space orientation_enrollment_p.Base.Text.drop_while
    orientation_enrollment_p.Base.Text.is_space
record_sweep-Works n env db works = elim (Bool-cases (n == 0)) [
  | inl e ↦ (db, rw e refl)
  | inr e ↦
      let object : Text = codes "session" in
      let batch = word (codes "batch") in
      (
        store_event (event_of none session_swept object batch success env.now) db,
        rw e (record_event-Works none session_swept object batch success env db works refl),
      )
]

-- With a driver that works a sweep returns a value.
sweep_expired_sessions-Works :
    (limit : ℕ) (env : Env) (db : Db)
    → Works env
    → (n : ℕ) × (after : Db) × (sweep_expired_sessions limit env db ≡ (ok n, after))
unfolding sweep_expired_sessions sweep_once revoke_expired_sessions
    orientation_enrollment_p.Storage.Db.attempt
sweep_expired_sessions-Works limit env db works =
    let test = is_among (chosen env.now limit db.sessions) in
    let n = count test db.sessions in
    let (after, recorded) =
      record_sweep-Works n env (update_sessions test (revoked_by env.now) db) works in
    (
      n,
      after,
      in_tx-Works (sweep_once limit) env db after works
          (rw (works "revoke expired sessions" db) (rw recorded refl)),
    )

-- The same sweep again and again.
unfoldable pub sweeps : ℕ → ℕ → Env → Db → Db
sweeps zero limit env db = db
sweeps (suc k) limit env db = sweeps k limit env (sweep_expired_sessions limit env db).1

-- Enough sweeps leave no session that the statement takes as expired.
sweeps_none_left :
    (k limit : ℕ) (env : Env) (db : Db)
    → UniqueIds db.sessions
    → Works env
    → count (lapsed env.now) db.sessions ≤ k * sweep_bound limit
    → count (lapsed env.now) (sweeps k limit env db).sessions ≡ 0
unfolding sweeps
sweeps_none_left zero limit env db unique works enough = omega arith
sweeps_none_left (suc k) limit env db unique works enough =
    let (n, after, swept) = sweep_expired_sessions-Works limit env db works in
    let (bounded, left, still) = sweep_expired_sessions-revoked limit env db after unique swept in
    subst (λ d. count (lapsed env.now) (sweeps k limit env d).sessions ≡ 0)
      (sym (ap (λ x. x.1) swept)) (sweeps_none_left k limit env after still works (ground arith))

not_lapsed :
    (at : Time) (rows : List Session)
    → count (lapsed at) rows ≡ 0
    → All (λ s. revoked s ≡ false → at / second ≤ s.expires_at / second) rows
not_lapsed at [] h = tt
not_lapsed at (s ∷ rows) h =
    (λ live. stored_le-later s.expires_at at (ground arith), not_lapsed at rows (ground arith))

-- Enough sweeps at one instant leave no session, other than revoked ones, that expired in an earlier
-- second than that instant: with a driver that works and keys that no two sessions share, as many
-- sweeps as the bound has to be taken to reach the number of sessions that the statement finds
-- expired. It compares texts, and may take a session that expired within the current second as live.
pub sweeps_done :
    (k limit : ℕ) (env : Env) (db : Db)
    → UniqueIds db.sessions
    → Works env
    → count (lapsed env.now) db.sessions ≤ k * sweep_bound limit
    → All
        (λ s. revoked s ≡ false → env.now / second ≤ s.expires_at / second)
        (sweeps k limit env db).sessions
sweeps_done k limit env db unique works enough =
    not_lapsed env.now (sweeps k limit env db).sessions
      (sweeps_none_left k limit env db unique works enough)
