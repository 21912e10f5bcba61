-- ===== src/Storage/Transactions/Working.antt =====
-- Calls in a world where no statement fails.
use orientation_enrollment_p.Base.{String, ◌≡◌, refl, Option, none}
use orientation_enrollment_p.Base.Text.{Text}
use orientation_enrollment_p.Domain.Errors.{ok}
use orientation_enrollment_p.Domain.Identity.{Principal}
use orientation_enrollment_p.Domain.Audit.{AuditAction, AuditResult, ObjectId, validate_event}
use orientation_enrollment_p.Storage.Db.{Db, Env, Tx, attempt}
use orientation_enrollment_p.Storage.Transactions.{
  in_tx, event_of, store_event, append_audit_event, record_event,
}

-- The driver carries out every statement.
abbrev pub Works : Env → Type 0
Works env = (statement : String) (db : Db) → env.fault statement db ≡ none

pub in_tx-Works :
    {A : Type 0} (m : Tx A) (env : Env) (db after : Db) {a : A}
    → Works env
    → m env db ≡ (ok a, after)
    → in_tx m env db ≡ (ok a, after)
unfolding in_tx
in_tx-Works m env db after works done =
    rw (works "begin" db, in_tx) (rw done (rw (works "commit" after) refl))

pub record_event-Works :
    (actor : Option Principal) (action : AuditAction) (object_type : Text) (object_id : ObjectId)
    (result : AuditResult) (env : Env) (db : Db)
    → Works env
    → validate_event (event_of actor action object_type object_id result env.now) ≡ ok tt
    → record_event actor action object_type object_id result env db
      ≡ (ok tt, store_event (event_of actor action object_type object_id result env.now) db)
unfolding record_event append_audit_event attempt
record_event-Works actor action object_type object_id result env db works valid =
    rw (valid, works "insert audit event" db) refl
