-- ===== src/Service/Idempotency.antt =====
-- internal/service/idempotency.go: a mutating request is answered from its stored outcome when it is
-- sent again. The request itself is an argument, as is what other connections commit while it runs.
pub mod Replays
use orientation_enrollment_p.Base.{
  ℕ, Bool, true, false, ◌&&◌, not, ◌+◌, ◌*◌, Option, none, some, [], ◌∷◌, ◌==◌, if◌then◌else◌,
}
use orientation_enrollment_p.Base.Text.{Text, text_eq, is_empty}
use orientation_enrollment_p.Base.Time.{Duration, minute, before}
use orientation_enrollment_p.Domain.Errors.{
  Error, Result, ok, err, sentinel, wrapped, is, Sentinel, unauthenticated, conflict,
  idempotency_mismatch,
}
use orientation_enrollment_p.Storage.Db.{
  Db, Env, IdempotencyRecord, Tx, pure, clock, ◌>>=◌, ◌>>◌, modify, raise_if,
}
use orientation_enrollment_p.Storage.Idempotency.{
  find_idempotency_record, save_idempotency_record, purge_idempotency_records,
}
use orientation_enrollment_p.Security.Credentials.{Crypto, fingerprint_payload}

-- `IdempotencyTTL`: 24 hours.
abbrev pub idempotency_ttl : Duration
idempotency_ttl = 1440 * minute

pub record Outcome : Type 0 where
  pub status : ℕ
  pub body : Text
  pub replayed : Bool

pub record Scope : Type 0 where
  pub actor_user_id : ℕ
  pub method : Text
  pub path : Text
  pub key : Text
  pub payload : Text

-- `Scope.Fingerprint`
unfoldable pub fingerprint : Crypto → Scope → Text
fingerprint crypto scope =
    fingerprint_payload crypto (scope.method ∷ scope.path ∷ scope.payload ∷ [])

abbrev pub replay : IdempotencyRecord → Outcome
replay r = record { status = r.response_status; body = r.response_body; replayed = true }

abbrev pub fresh : ℕ × Text → Outcome
fresh (status, body) = record { status = status; body = body; replayed = false }

abbrev pub lookup : Scope → Tx IdempotencyRecord
lookup scope = find_idempotency_record scope.actor_user_id scope.method scope.path scope.key

-- A stored answer under the key.
abbrev pub answer_stored : Crypto → Scope → IdempotencyRecord → Tx Outcome
answer_stored crypto scope existing = do
  raise_if (not (text_eq existing.request_fingerprint (fingerprint crypto scope)))
      (wrapped (sentinel Sentinel.idempotency_mismatch))
  now ← clock
  raise_if (not (before now existing.expires_at)) (wrapped (sentinel Sentinel.conflict))
  pure (replay existing)

-- The loser of a race for the key replays what the winner stored.
abbrev pub race_lost : Text → Error → Result IdempotencyRecord × Db → Result Outcome × Db
race_lost print cause (ok stored, db) =
    if text_eq stored.request_fingerprint print then (ok (replay stored), db) else (err cause, db)
race_lost print cause (err e, db) = (err cause, db)

abbrev pub after_save :
    Crypto → Scope → ℕ × Text → Env → Result (Unit {0}) × Db → Result Outcome × Db
after_save crypto scope answer env (ok u, db) = (ok (fresh answer), db)
after_save crypto scope answer env (err e, db) =
    if is e Sentinel.conflict
    then race_lost (fingerprint crypto scope) e (lookup scope env db)
    else (err e, db)

abbrev pub record_of : Crypto → Scope → ℕ × Text → ℕ → IdempotencyRecord
record_of crypto scope (status, body) now = record {
  actor_user_id = scope.actor_user_id;
  method = scope.method;
  path = scope.path;
  key = scope.key;
  request_fingerprint = fingerprint crypto scope;
  response_status = status;
  response_body = body;
  created_at = now;
  expires_at = now + idempotency_ttl;
}

abbrev pub store_answer : Crypto → Scope → ℕ × Text → Tx Outcome
store_answer crypto scope answer env db =
    after_save crypto scope answer env
      (save_idempotency_record (record_of crypto scope answer env.now) env db)

abbrev pub run_and_store : Crypto → Scope → (Db → Db) → Tx (ℕ × Text) → Tx Outcome
run_and_store crypto scope others fn = do
  answer ← fn
  modify others
  store_answer crypto scope answer

abbrev pub looked_up :
    Crypto
    → Scope
    → (Db → Db)
    → Tx (ℕ × Text)
    → Env
    → Result IdempotencyRecord × Db
    → Result Outcome × Db
looked_up crypto scope others fn env (ok existing, db) = answer_stored crypto scope existing env db
looked_up crypto scope others fn env (err e, db) =
    if is e Sentinel.not_found then run_and_store crypto scope others fn env db else (err e, db)

abbrev pub run_keyed : Crypto → Scope → (Db → Db) → Tx (ℕ × Text) → Tx Outcome
run_keyed crypto scope others fn env db = looked_up crypto scope others fn env (lookup scope env db)

-- `Execute`
unfoldable pub execute : Crypto → Scope → (Db → Db) → Tx (ℕ × Text) → Tx Outcome
execute crypto scope others fn =
    if is_empty scope.key
    then fn >>= (λ answer. pure (fresh answer))
    else raise_if (scope.actor_user_id == 0) (wrapped (sentinel Sentinel.unauthenticated))
      >> run_keyed crypto scope others fn

-- `PurgeExpired`
unfoldable pub purge_expired : Tx ℕ
purge_expired = do now ← clock; purge_idempotency_records now
