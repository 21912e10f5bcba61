-- ===== src/Service/Rejections.antt =====
-- internal/service/service.go: what the use cases share, over `Deps` with its parts present.
pub mod Seats
use orientation_enrollment_p.Base.{ℕ, String, some, Bool, true, false, not, if◌then◌else◌}
use orientation_enrollment_p.Base.Text.{codes}
use orientation_enrollment_p.Domain.Errors.{
  Error, Result, ok, err, sentinel, forbidden, ErrorCode, internal_error, error_code, fail_if, is,
  Sentinel, not_found,
}
use orientation_enrollment_p.Domain.Identity.{Principal, Role, role_eq}
use orientation_enrollment_p.Domain.Audit.{AuditAction, rejected, number}
use orientation_enrollment_p.Storage.Db.{Db, Env, Tx}
use orientation_enrollment_p.Storage.Transactions.{in_tx, record_event}

unfoldable pub require_role : Principal → Role → Result (Unit {0})
require_role actor role = fail_if (not (role_eq actor.role role)) (sentinel forbidden)

abbrev pub is_internal : ErrorCode → Bool
is_internal internal_error = true
is_internal _ = false

-- `recordRejection`: the tables after it. Its own failure is only logged.
unfoldable pub record_rejection : Principal → AuditAction → String → ℕ → Error → Env → Db → Db
record_rejection actor action object_type object_id cause env db =
    if is_internal (error_code cause)
    then db
    else (in_tx (record_event (some actor) action (codes object_type) (number object_id) rejected)
        env db).1

-- A row that is looked up, with a value for a missing one; other errors pass.
abbrev pub or_default : {A : Type 0} → A → Result A × Db → Result A × Db
or_default a (ok b, db) = (ok b, db)
or_default a (err e, db) = if is e Sentinel.not_found then (ok a, db) else (err e, db)

abbrev pub if_missing : {A : Type 0} → Tx A → A → Tx A
if_missing m a env db = or_default a (m env db)
