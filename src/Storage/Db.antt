-- ===== src/Storage/Db.antt =====
-- The tables of internal/migrations/sql, as the lists of their rows, and repository.Repositories
-- over them: what a statement does to the tables, with the failures of the driver as an argument.
use orientation_enrollment_p.Base.{
  ℕ, String, Bool, Option, none, some, List, [], ◌∷◌, if◌then◌else◌,
}
use orientation_enrollment_p.Base.Text.{Text}
use orientation_enrollment_p.Base.Time.{Time}
use orientation_enrollment_p.Domain.Errors.{
  Error, Result, ok, err, sentinel, wrapped, opaque, canceled, deadline_exceeded, not_found,
}
use orientation_enrollment_p.Domain.Identity.{User, Session}
use orientation_enrollment_p.Domain.Catalog.{Term, Course, Meeting, SectionStatus}
use orientation_enrollment_p.Domain.Registration.{Registration, AcademicRecord}
use orientation_enrollment_p.Domain.Enrollment.{Enrollment}
use orientation_enrollment_p.Domain.Job.{Job}
use orientation_enrollment_p.Domain.Audit.{AuditEvent}

-- A row of course_sections.
pub record SectionRow : Type 0 where
  pub id : ℕ
  pub term_id : ℕ
  pub course_id : ℕ
  pub code : Text
  pub status : SectionStatus
  pub capacity : ℕ
  pub seats_taken : ℕ
  pub waitlist_limit : ℕ
  pub waitlist_length : ℕ
  pub instructor : Text
  pub version : ℕ
  pub updated_at : Time

-- A row of idempotency_keys: the stored answer of a request.
pub record IdempotencyRecord : Type 0 where
  pub actor_user_id : ℕ
  pub method : Text
  pub path : Text
  pub key : Text
  pub request_fingerprint : Text
  pub response_status : ℕ
  pub response_body : Text
  pub created_at : Time
  pub expires_at : Time

-- The table of a course holds its prerequisites in catalogue order. The numbers are the next keys
-- that AUTOINCREMENT gives out.
pub record Db : Type 0 where
  pub users : List User
  pub sessions : List Session
  pub terms : List Term
  pub courses : List Course
  pub sections : List SectionRow
  pub meetings : List Meeting
  pub registrations : List Registration
  pub academic_records : List AcademicRecord
  pub enrollments : List Enrollment
  pub jobs : List Job
  pub audit_events : List AuditEvent
  pub idempotency_keys : List IdempotencyRecord
  pub next_user_id : ℕ
  pub next_session_id : ℕ
  pub next_registration_id : ℕ
  pub next_enrollment_id : ℕ
  pub next_job_id : ℕ
  pub next_audit_id : ℕ

-- How a statement fails for a reason that is not in the tables' contents.
pub data Fault : Type 0 where
  driver stopped timed_out : Fault

abbrev pub fault_error : Fault → Error
fault_error driver = wrapped opaque
fault_error stopped = wrapped (sentinel canceled)
fault_error timed_out = wrapped (sentinel deadline_exceeded)

-- The world around one call: which statements fail, in which state of the tables; and the clock.
pub record Env : Type 0 where
  pub fault : String → Db → Option Fault
  pub now : Time

-- A repository call: its result, and the tables after it.
abbrev pub Tx : Type 0 → Type 0
Tx A = Env → Db → Result A × Db

module _ {A : Type 0} where
  abbrev pub pure : A → Tx A
  pure a env db = (ok a, db)

  abbrev pub raise : Error → Tx A
  raise e env db = (err e, db)

  abbrev pub lift : Result A → Tx A
  lift r env db = (r, db)

  abbrev pub gets : (Db → A) → Tx A
  gets f env db = (ok (f db), db)

  -- `sql.ErrNoRows` becomes the domain's sentinel.
  abbrev pub or_not_found : Option A → Tx A
  or_not_found none = raise (wrapped (sentinel not_found))
  or_not_found (some a) = pure a

module _ {A B : Type 0} where
  abbrev pub and_then : Result A → (A → Tx B) → Tx B
  and_then (ok a) f = f a
  and_then (err e) f = raise e

  infixl 5 ◌>>=◌ ◌>>◌
  abbrev pub ◌>>=◌ : Tx A → (A → Tx B) → Tx B
  ◌>>=◌ m f env db = let (r, after) = m env db in and_then r f env after

  abbrev pub ◌>>◌ : Tx A → Tx B → Tx B
  m >> k = m >>= λ _. k

abbrev pub modify : (Db → Db) → Tx (Unit {0})
modify f env db = (ok tt, f db)

abbrev pub raise_if : Bool → Error → Tx (Unit {0})
raise_if test e = if test then raise e else pure tt

-- `s.deps.now()`
abbrev pub clock : Tx Time
clock env db = (ok env.now, db)

abbrev or_fault : Option Fault → Result (Unit {0})
or_fault none = ok tt
or_fault (some f) = err (fault_error f)

-- One statement handed to the driver, before what it does.
unfoldable pub attempt : String → Tx (Unit {0})
attempt statement env db = (or_fault (env.fault statement db), db)

-- Rows changed by an UPDATE.
module _ {A : Type 0} (test : A → Bool) (change : A → A) where
  unfoldable pub update_where : List A → List A
  update_where [] = []
  update_where (x ∷ xs) = (if test x then change x else x) ∷ update_where xs
