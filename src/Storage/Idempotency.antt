-- ===== src/Storage/Idempotency.antt =====
-- internal/storage/sqlite/idempotency.go: the stored answers of requests.
use orientation_enrollment_p.Base.{ℕ, Bool, ◌&&◌, ◌||◌, not, ◌∷◌, ◌==◌, any, find, keep, count}
use orientation_enrollment_p.Base.Text.{Text, text_eq, is_empty}
use orientation_enrollment_p.Base.Time.{Time}
use orientation_enrollment_p.Domain.Errors.{sentinel, wrapped, field_error, conflict, not_found}
use orientation_enrollment_p.Storage.Timestamps.{stored_le}
use orientation_enrollment_p.Storage.Db.{
  Db, IdempotencyRecord, Tx, pure, gets, or_not_found, ◌>>=◌, ◌>>◌, modify, raise_if, attempt,
}

-- WHERE actor_user_id = ? AND method = ? AND path = ? AND key = ?
abbrev pub keyed : ℕ → Text → Text → Text → IdempotencyRecord → Bool
keyed actor_id method path key r =
    r.actor_user_id == actor_id
    && (text_eq r.method method && (text_eq r.path path && text_eq r.key key))

-- `FindIdempotencyRecord`
unfoldable pub find_idempotency_record : ℕ → Text → Text → Text → Tx IdempotencyRecord
unfolding attempt
find_idempotency_record actor_id method path key = do
  raise_if (is_empty key) (wrapped (sentinel not_found))
  attempt "select idempotency record"
  or_not_found (← gets (λ db. find (keyed actor_id method path key) db.idempotency_keys))

abbrev pub insert_record : IdempotencyRecord → Db → Db
insert_record r db = record db { idempotency_keys = r ∷ db.idempotency_keys }

-- `SaveIdempotencyRecord`; the primary key refuses a second row with the scope.
unfoldable pub save_idempotency_record : IdempotencyRecord → Tx (Unit {0})
unfolding attempt
save_idempotency_record r = do
  raise_if (is_empty r.key) (field_error "idempotency_key" "must not be empty")
  raise_if (is_empty r.method || is_empty r.path)
      (field_error "idempotency_key" "method and path scope are required")
  attempt "insert idempotency record"
  taken ← gets (λ db. any (keyed r.actor_user_id r.method r.path r.key) db.idempotency_keys)
  raise_if taken (wrapped (sentinel conflict))
  modify (insert_record r)

-- expires_at <= ?
abbrev pub outdated : Time → IdempotencyRecord → Bool
outdated at r = stored_le r.expires_at at

abbrev pub remove_records : (IdempotencyRecord → Bool) → Db → Db
remove_records test db = record db {
  idempotency_keys = keep (λ r. not (test r)) db.idempotency_keys;
}

-- `PurgeIdempotencyRecords`
unfoldable pub purge_idempotency_records : Time → Tx ℕ
unfolding attempt
purge_idempotency_records at = do
  attempt "delete idempotency records"
  affected ← gets (λ db. count (outdated at) db.idempotency_keys)
  modify (remove_records (outdated at))
  pure affected
