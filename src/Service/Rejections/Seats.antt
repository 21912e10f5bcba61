-- ===== src/Service/Rejections/Seats.antt =====
-- A recorded rejection leaves the tables of seats alone.
use orientation_enrollment_p.Base.{ℕ, String, ap, subst, some, inl, inr, Bool-cases}
use orientation_enrollment_p.Base.Text.{codes}
use orientation_enrollment_p.Domain.Errors.{Error, error_code}
use orientation_enrollment_p.Domain.Identity.{Principal}
use orientation_enrollment_p.Domain.Audit.{AuditAction, rejected, number}
use orientation_enrollment_p.Storage.Db.{Db, Env}
use orientation_enrollment_p.Storage.Transactions.{record_event}
use orientation_enrollment_p.Storage.Transactions.Records.{record_event-SameSeats}
use orientation_enrollment_p.Storage.Consistency.{Consistent}
use orientation_enrollment_p.Storage.Consistency.Steps.{Consistent-SameSeats, in_tx-Consistent}
use orientation_enrollment_p.Service.Rejections.{is_internal, record_rejection}

pub record_rejection-Consistent :
    (actor : Principal) (action : AuditAction) (object_type : String) (object_id : ℕ)
    (cause : Error) (env : Env) (db : Db)
    → Consistent db
    → Consistent (record_rejection actor action object_type object_id cause env db)
unfolding record_rejection
record_rejection-Consistent actor action object_type object_id cause env db fine =
    let body = record_event (some actor) action (codes object_type) (number object_id) rejected in
    elim (Bool-cases (is_internal (error_code cause))) [
      | inl internal ↦ rw (internal, record_rejection) fine
      | inr other ↦
          rw (other, record_rejection)
            (in_tx-Consistent body env db fine (λ u after h. subst Consistent (ap (λ r. r.1) h) (
              Consistent-SameSeats db (body env db).1
                (record_event-SameSeats (some actor) action (codes object_type) (number object_id)
                  rejected env db)
                fine)))
    ]
