-- ===== src/Storage/Sessions/Kept.antt =====
-- A session outlives what happens to others.
use mathlib.Core.Option
use orientation_enrollment_p.Base.{
  ℕ, Bool, true, false, ◌≡◌, ◌≢◌, refl, sym, ◌∙◌, ap, inl, inr, arith, some, List, [], ◌∷◌, find,
  any, subst, All, if◌then◌else◌, Bool-cases,
}
use orientation_enrollment_p.Base.Text.{Text, text_eq, text_eq_sound}
use orientation_enrollment_p.Base.Time.{Time}
use orientation_enrollment_p.Domain.Identity.{Session}
use orientation_enrollment_p.Storage.Db.{Db, Env, update_where}
use orientation_enrollment_p.Storage.Rows.{find-update_where}
use orientation_enrollment_p.Storage.Sessions.{live, seen_at, revoked_by}
use orientation_enrollment_p.Storage.Sessions.Revoked.{
  Operation, create, touch, revoke, sweep, perform, replay, found-any, create_session-cases,
  touch_session-cases, revoke_session-cases,
}

-- What a login, an activity and the logout of another session are; a sweep is left out.
abbrev pub Spares : ℕ → Operation → Type 0
Spares id (create s) = Unit
Spares id (touch k at) = Unit
Spares id (revoke k at) = k ≢ id
Spares id (sweep at limit) = ⊥

-- The digest's session, as it was but for its last activity.
pub record Kept (digest : Text) (s : Session) (rows : List Session) : Type 0 where
  pub row : Session
  pub found : find (λ r. text_eq r.token_digest digest) rows ≡ some row
  pub key : row.id ≡ s.id
  pub owner : row.user_id ≡ s.user_id
  pub lifetime : row.expires_at ≡ s.expires_at
  pub unrevoked : row.revoked_at ≡ s.revoked_at

found_changed :
    (digest : Text) (test : Session → Bool) (change : Session → Session) (rows : List Session)
    (s : Session)
    → ((r : Session) → (change r).token_digest ≡ r.token_digest)
    → find (λ r. text_eq r.token_digest digest) rows ≡ some s
    → find (λ r. text_eq r.token_digest digest) (update_where test change rows)
      ≡ some (if test s then change s else s)
found_changed digest test change rows s same found =
    find-update_where (λ r. text_eq r.token_digest digest) test change rows
      (λ r. ap (λ d. text_eq d digest) (same r))
    ∙ ap (Option.map (λ r. if test r then change r else r)) found

touched_same :
    (k : ℕ) (at : Time) (r : Session)
    → let q = if live k r then seen_at at r else r in
      (q.id ≡ r.id)
      × (q.user_id ≡ r.user_id)
      × (q.expires_at ≡ r.expires_at)
      × (q.revoked_at ≡ r.revoked_at)
touched_same k at r = elim (Bool-cases (live k r)) [
  | inl e ↦ rw e (refl, refl, refl, refl)
  | inr e ↦ rw e (refl, refl, refl, refl)
]

Kept-touched :
    (digest : Text) (s : Session) (k : ℕ) (at : Time) (rows : List Session)
    → Kept digest s rows
    → Kept digest s (update_where (live k) (seen_at at) rows)
Kept-touched digest s k at rows kept =
    let (key, owner, lifetime, unrevoked) = touched_same k at kept.row in
    record {
      row = if live k kept.row then seen_at at kept.row else kept.row;
      found = found_changed digest (live k) (seen_at at) rows kept.row (λ r. refl) kept.found;
      key = key ∙ kept.key;
      owner = owner ∙ kept.owner;
      lifetime = lifetime ∙ kept.lifetime;
      unrevoked = unrevoked ∙ kept.unrevoked;
    }

other_row :
    (k : ℕ) (at : Time) (r s : Session)
    → r.id ≡ s.id
    → k ≢ s.id
    → (if live k r then revoked_by at r else r) ≡ r
other_row k at r s same other = ground arith

Kept-revoked :
    (digest : Text) (s : Session) (k : ℕ) (at : Time) (rows : List Session)
    → k ≢ s.id
    → Kept digest s rows
    → Kept digest s (update_where (live k) (revoked_by at) rows)
Kept-revoked digest s k at rows other kept = record {
  row = kept.row;
  found =
      found_changed digest (live k) (revoked_by at) rows kept.row (λ r. refl) kept.found
      ∙ ap some (other_row k at kept.row s kept.key other);
  key = kept.key;
  owner = kept.owner;
  lifetime = kept.lifetime;
  unrevoked = kept.unrevoked;
}

Kept-newer :
    (digest : Text) (s new : Session) (rows : List Session)
    → any (λ r. text_eq r.token_digest new.token_digest) rows ≡ false
    → Kept digest s rows
    → Kept digest s (new ∷ rows)
Kept-newer digest s new rows free kept = elim (Bool-cases (text_eq new.token_digest digest)) [
  | inr e ↦ record {
    row = kept.row;
    found = rw e (kept.found);
    key = kept.key;
    owner = kept.owner;
    lifetime = kept.lifetime;
    unrevoked = kept.unrevoked;
  }
  | inl e ↦
      let there = found-any (λ r. text_eq r.token_digest digest) rows {s = kept.row} kept.found in
      let same = text_eq_sound new.token_digest digest e in
      let clash : true ≡ false =
        sym there ∙ sym (ap (λ d. any (λ r. text_eq r.token_digest d) rows) same) ∙ free in
      absurd (ground arith)
]

perform-Kept :
    (digest : Text) (s : Session) (op : Operation) (env : Env) (db : Db)
    → Spares s.id op
    → Kept digest s db.sessions
    → Kept digest s (perform op env db).sessions
perform-Kept digest s (create new) env db spares kept = elim (create_session-cases new env db) [
  | inl e ↦ subst (Kept digest s) (sym e) kept
  | inr (n, e, free) ↦ subst (Kept digest s) (sym e) (Kept-newer digest s n db.sessions free kept)
]
perform-Kept digest s (touch k at) env db spares kept = elim (touch_session-cases k at env db) [
  | inl e ↦ subst (Kept digest s) (sym e) kept
  | inr e ↦ subst (Kept digest s) (sym e) (Kept-touched digest s k at db.sessions kept)
]
perform-Kept digest s (revoke k at) env db spares kept = elim (revoke_session-cases k at env db) [
  | inl e ↦ subst (Kept digest s) (sym e) kept
  | inr e ↦ subst (Kept digest s) (sym e) (Kept-revoked digest s k at db.sessions spares kept)
]
perform-Kept digest s (sweep at limit) env db spares kept = absurd spares

pub replay-Kept :
    (digest : Text) (s : Session) (history : List (Operation × Env)) (db : Db)
    → All (λ (o : Operation × Env). Spares s.id o.0) history
    → Kept digest s db.sessions
    → Kept digest s (replay history db).sessions
replay-Kept digest s [] db spares kept = kept
replay-Kept digest s ((op, env) ∷ rest) db spares kept =
    replay-Kept digest s rest (perform op env db) spares.1
      (perform-Kept digest s op env db spares.0 kept)
