-- ===== src/Storage/Transactions.antt =====
-- `InTx` of internal/storage/sqlite/db.go, and the audit statements of audit.go with
-- internal/audit/recorder.go. A panic inside the transaction is not modelled.
pub mod Atomic
pub mod Records
pub mod Views
pub mod Working
use orientation_enrollment_p.Base.{ℕ, Option, none, some, List, ◌∷◌, suc}
use orientation_enrollment_p.Base.Text.{Text, codes}
use orientation_enrollment_p.Base.Time.{Time}
use orientation_enrollment_p.Domain.Errors.{Error, Result, ok, err, wrapped, joined}
use orientation_enrollment_p.Domain.Identity.{Principal, Role}
use orientation_enrollment_p.Domain.Audit.{
  AuditAction, AuditResult, AuditEvent, ObjectId, number, validate_event,
}
use orientation_enrollment_p.Storage.Db.{
  Db, Fault, fault_error, Env, Tx, pure, lift, gets, clock, ◌>>=◌, ◌>>◌, modify, attempt,
}

-- The deferred rollback: the tables are as before, and its own failure joins the cause.
abbrev rolled_back : {A : Type 0} → Option Fault → Error → Db → Result A × Db
rolled_back none e before = (err e, before)
rolled_back (some f) e before = (err (joined e (wrapped (fault_error f))), before)

abbrev commit : {A : Type 0} → Option Fault → A → Db → Db → Result A × Db
commit none a before after = (ok a, after)
commit (some f) a before after = (err (wrapped (fault_error f)), before)

abbrev close_tx : {A : Type 0} → Env → Db → Result A × Db → Result A × Db
close_tx env before (ok a, after) = commit (env.fault "commit" after) a before after
close_tx env before (err e, after) = rolled_back (env.fault "rollback" after) e before

-- After a failed commit the rollback finds the transaction done.
unfoldable pub in_tx : {A : Type 0} → Tx A → Tx A
in_tx m env db = elim (env.fault "begin" db) [
  | some f ↦ (err (wrapped (fault_error f)), db)
  | none ↦ close_tx env db (m env db)
]

abbrev pub store_event : AuditEvent → Db → Db
store_event event db = record db {
  audit_events = record event { id = db.next_audit_id } ∷ db.audit_events;
  next_audit_id = suc db.next_audit_id;
}

-- The INSERT of `AppendAuditEvent`.
abbrev pub insert_event : AuditEvent → Tx (Unit {0})
insert_event event = attempt "insert audit event" >> modify (store_event event)

unfoldable pub append_audit_event : AuditEvent → Tx (Unit {0})
append_audit_event event = lift (validate_event event) >> insert_event event

abbrev actor_id : Option Principal → Option ℕ
actor_id none = none
actor_id (some p) = some p.user_id

abbrev actor_role : Option Principal → Option Role
actor_role none = none
actor_role (some p) = some p.role

abbrev pub event_of :
    Option Principal → AuditAction → Text → ObjectId → AuditResult → Time → AuditEvent
event_of actor action object_type object_id result now = record {
  id = 0;
  actor_user_id = actor_id actor;
  actor_role = actor_role actor;
  action = action;
  object_type = object_type;
  object_id = object_id;
  result = result;
  occurred_at = now;
}

-- `Recorder.Record`, over the service's clock.
unfoldable pub record_event :
    Option Principal → AuditAction → Text → ObjectId → AuditResult → Tx (Unit {0})
unfolding append_audit_event
record_event actor action object_type object_id result = do
  now ← clock
  let event = event_of actor action object_type object_id result now
  lift (validate_event event)
  append_audit_event event
