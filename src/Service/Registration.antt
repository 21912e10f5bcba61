-- ===== src/Service/Registration.antt =====
-- internal/service/registration.go: submitting and deciding the orientation paperwork.
pub mod Upserts
pub mod Finality
use orientation_enrollment_p.Base.{ℕ, not, Option, none, some, [], ◌==◌, if◌then◌else◌}
use orientation_enrollment_p.Base.Text.{Text, codes}
use orientation_enrollment_p.Base.Time.{Time}
use orientation_enrollment_p.Domain.Errors.{
  Result, ok, err, sentinel, wrapped, forbidden, window_closed,
}
use orientation_enrollment_p.Domain.Identity.{Principal, can_act_on_student, registrar}
use orientation_enrollment_p.Domain.Audit.{
  registration_submit, registration_decide, success, number,
}
use orientation_enrollment_p.Domain.Registration.{
  Registration, RegistrationStatus, draft, submit, decide,
}
use orientation_enrollment_p.Domain.Query.{PageRequest, PageResult}
use orientation_enrollment_p.Storage.Registrations.Listing.{list_registrations}
use orientation_enrollment_p.Storage.Db.{
  Db, Env, Tx, pure, raise, lift, raise_if, clock, ◌>>=◌, ◌>>◌,
}
use orientation_enrollment_p.Storage.Catalog.{find_term_by_id}
use orientation_enrollment_p.Storage.Registrations.{
  find_registration, find_registration_by_id, upsert_registration,
}
use orientation_enrollment_p.Storage.Transactions.{in_tx, record_event}
use orientation_enrollment_p.Service.Rejections.{require_role, record_rejection, if_missing}

pub record SubmitInput : Type 0 where
  pub student_id : ℕ
  pub term_id : ℕ
  pub program_code : Text
  pub advisor_email : Text
  pub dorm_preference : Text

abbrev pub blank_record : SubmitInput → Time → Registration
blank_record i now = record {
  id = 0;
  student_id = i.student_id;
  term_id = i.term_id;
  status = draft;
  program_code = [];
  advisor_email = [];
  dorm_preference = [];
  submitted_at = none;
  decided_at = none;
  decided_by_user_id = none;
  decision_note = [];
  version = 0;
  created_at = now;
  updated_at = now;
}

abbrev pub with_input : SubmitInput → Registration → Registration
with_input i r = record r {
  program_code = i.program_code;
  advisor_email = i.advisor_email;
  dorm_preference = i.dorm_preference;
}

-- The body of the transaction of `Submit`.
unfoldable pub submit_once : Principal → SubmitInput → Time → Tx Registration
submit_once actor i now = do
  current ← if_missing (find_registration i.student_id i.term_id) (blank_record i now)
  submitted ← lift (submit (with_input i current) now)
  saved ← upsert_registration submitted
  record_event (some actor) registration_submit (codes "registration") (number saved.id) success
  pure saved

unfoldable pub submit_registration : Principal → SubmitInput → Tx Registration
submit_registration actor i = do
  let i' = record i { student_id = if i.student_id == 0 then actor.user_id else i.student_id }
  raise_if (not (can_act_on_student actor i'.student_id)) (wrapped (sentinel forbidden))
  term ← find_term_by_id i'.term_id
  now ← clock
  raise_if term.archived (wrapped (sentinel window_closed))
  in_tx (submit_once actor i' now)

pub record DecideInput : Type 0 where
  pub registration_id : ℕ
  pub status : RegistrationStatus
  pub note : Text

-- The body of the transaction of `Decide`.
unfoldable pub decide_once : Principal → DecideInput → Time → Tx Registration
decide_once actor i now = do
  current ← find_registration_by_id i.registration_id
  decided ← lift (decide current i.status actor.user_id i.note now)
  saved ← upsert_registration decided
  record_event (some actor) registration_decide (codes "registration") (number saved.id) success
  pure saved

-- An error is recorded in its own transaction, after the rollback.
abbrev decide_or_reject :
    Principal → DecideInput → Env → Result Registration × Db → Result Registration × Db
decide_or_reject actor i env (ok saved, db) = (ok saved, db)
decide_or_reject actor i env (err e, db) =
    (err e, record_rejection actor registration_decide "registration" i.registration_id e env db)

abbrev as_forbidden : Result (Unit {0}) → Tx (Unit {0})
as_forbidden (ok u) = pure u
as_forbidden (err e) = raise (wrapped e)

unfoldable pub decide_registration : Principal → DecideInput → Tx Registration
decide_registration actor i = do
  as_forbidden (require_role actor registrar)
  λ env db. decide_or_reject actor i env (in_tx (decide_once actor i env.now) env db)

-- `Get`
unfoldable pub get_registration : Principal → ℕ → ℕ → Tx Registration
get_registration actor student_id term_id = do
  let id = if student_id == 0 then actor.user_id else student_id
  raise_if (not (can_act_on_student actor id)) (wrapped (sentinel forbidden))
  find_registration id term_id

-- `List`
unfoldable pub registration_queue :
    Principal → ℕ → Option RegistrationStatus → PageRequest → Tx (PageResult Registration)
registration_queue actor term_id status page = do
  as_forbidden (require_role actor registrar)
  list_registrations term_id status page
