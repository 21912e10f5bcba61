-- ===== src/Storage/Transactions/Records.antt =====
-- Calls that leave the tables of seats alone.
use orientation_enrollment_p.Base.{
  Bool, true, false, ◌≡◌, refl, ◌∙◌, ap, subst, if◌then◌else◌, Option, arith,
}
use orientation_enrollment_p.Base.Text.{Text}
use orientation_enrollment_p.Domain.Errors.{Result, ok, err}
use orientation_enrollment_p.Domain.Identity.{Principal}
use orientation_enrollment_p.Domain.Audit.{
  AuditAction, AuditResult, AuditEvent, ObjectId, validate_event,
}
use orientation_enrollment_p.Domain.Job.{Job}
use orientation_enrollment_p.Storage.Db.{Db, Env, Tx, pure, and_then, ◌>>=◌, ◌>>◌, attempt, lift}
use orientation_enrollment_p.Storage.Rules.{>>=-then}
use orientation_enrollment_p.Storage.Jobs.{enqueue_job}
use orientation_enrollment_p.Storage.Transactions.{
  insert_event, event_of, append_audit_event, record_event,
}

-- Two states with the same sections, seat claims and next key of a claim.
pub record SameSeats (db after : Db) : Type 0 where
  pub sections : after.sections ≡ db.sections
  pub enrollments : after.enrollments ≡ db.enrollments
  pub next_enrollment_id : after.next_enrollment_id ≡ db.next_enrollment_id

abbrev KeepsSeats : {A : Type 0} → Tx A → Type 0
KeepsSeats m = (env : Env) (db : Db) → SameSeats db (m env db).1

module _ {A B : Type 0} where
  and_then-KeepsSeats :
      (r : Result A) (f : A → Tx B) → ((a : A) → KeepsSeats (f a)) → KeepsSeats (and_then r f)
  and_then-KeepsSeats (ok a) f keeps env db = keeps a env db
  and_then-KeepsSeats (err e) f keeps env db = record {
    sections = refl;
    enrollments = refl;
    next_enrollment_id = refl;
  }

  >>=-KeepsSeats :
      (m : Tx A) (f : A → Tx B) → KeepsSeats m → ((a : A) → KeepsSeats (f a)) → KeepsSeats (m >>= f)
  >>=-KeepsSeats m f first later env db =
      let a = first env db in
      let b = and_then-KeepsSeats (m env db).0 f later env (m env db).1 in
      record {
        sections = b.sections ∙ a.sections;
        enrollments = b.enrollments ∙ a.enrollments;
        next_enrollment_id = b.next_enrollment_id ∙ a.next_enrollment_id;
      }

lift-KeepsSeats : {A : Type 0} (r : Result A) → KeepsSeats (lift r)
lift-KeepsSeats r env db = record { sections = refl; enrollments = refl; next_enrollment_id = refl }

insert_event-KeepsSeats : (e : AuditEvent) → KeepsSeats (insert_event e)
unfolding attempt
insert_event-KeepsSeats e env db = ground arith

append_audit_event-KeepsSeats : (e : AuditEvent) → KeepsSeats (append_audit_event e)
unfolding append_audit_event
append_audit_event-KeepsSeats e =
    >>=-KeepsSeats (lift (validate_event e)) _ (lift-KeepsSeats (validate_event e))
      (λ u. insert_event-KeepsSeats e)

pub record_event-SameSeats :
    (actor : Option Principal) (action : AuditAction) (object_type : Text) (object_id : ObjectId)
    (result : AuditResult) (env : Env) (db : Db)
    → SameSeats db (record_event actor action object_type object_id result env db).1
unfolding record_event
record_event-SameSeats actor action object_type object_id result env db =
    let event = event_of actor action object_type object_id result env.now in
    >>=-KeepsSeats (lift (validate_event event)) _ (lift-KeepsSeats (validate_event event))
      (λ u. append_audit_event-KeepsSeats event) env db

pub enqueue_job-SameSeats : (j : Job) (env : Env) (db : Db) → SameSeats db (enqueue_job j env db).1
unfolding enqueue_job
enqueue_job-SameSeats j env db = ground arith

-- A body that ends with its audit event: the tables of seats are what they were before it.
pub audited :
    {A : Type 0} (actor : Option Principal) (action : AuditAction) (object_type : Text)
    (object_id : ObjectId) (result : AuditResult) (a : A) (env : Env) (db after : Db) {b : A}
    → (record_event actor action object_type object_id result >>= λ _. pure a) env db
      ≡ (ok b, after)
    → (a ≡ b) × SameSeats db after
audited actor action object_type object_id result a env db after h =
    >>=-then (record_event actor action object_type object_id result) _ env db h (λ u between h1 k1.
      let e : between ≡ after = ap (λ r. r.1) k1 in
      let f : (record_event actor action object_type object_id result env db).1 ≡ after =
        ap (λ r. r.1) h1 ∙ e in
      (
        ground arith,
        subst (λ d. SameSeats db d) f
            (record_event-SameSeats actor action object_type object_id result env db),
      ))

-- A job that is enqueued on a condition.
pub offered-SameSeats :
    (offer : Bool) (j : Job) (env : Env) (db : Db)
    → SameSeats db ((if offer then (enqueue_job j >> pure (tt {0})) else pure tt) env db).1
offered-SameSeats true j env db =
    >>=-KeepsSeats (enqueue_job j) (λ _. pure tt) (enqueue_job-SameSeats j)
      (λ k e d. record { sections = refl; enrollments = refl; next_enrollment_id = refl }) env db
offered-SameSeats false j env db = record {
  sections = refl;
  enrollments = refl;
  next_enrollment_id = refl;
}
