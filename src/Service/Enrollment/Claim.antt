-- ===== src/Service/Enrollment/Claim.antt =====
-- `Claim` and `claimOnce` of internal/service/enrollment.go. A use case is the body of its transaction,
-- the transaction around it, and what is recorded when it is refused. Log lines and the text of
-- results are left out.
use orientation_enrollment_p.Base.{
  ℕ, Bool, true, false, ◌&&◌, not, ◌+◌, Option, none, some, [], zero, suc, ◌==◌, if◌then◌else◌,
}
use orientation_enrollment_p.Base.Int.{pos}
use orientation_enrollment_p.Base.Text.{codes}
use orientation_enrollment_p.Domain.Errors.{
  Error, Result, ok, err, sentinel, wrapped, is, Sentinel, version_conflict,
}
use orientation_enrollment_p.Domain.Identity.{Principal, can_act_on_student}
use orientation_enrollment_p.Domain.Audit.{enrollment_claim, enrollment_waitlist, success, number}
use orientation_enrollment_p.Domain.Catalog.{Section}
use orientation_enrollment_p.Domain.Registration.{Registration, draft}
use orientation_enrollment_p.Domain.Enrollment.{
  Enrollment, EligibilityInput, pending, enrolled, waitlisted, transition, validate_request,
  check_enrollment_eligibility,
}
use orientation_enrollment_p.Storage.Db.{Db, Env, Tx, pure, lift, clock, ◌>>=◌, ◌>>◌}
use orientation_enrollment_p.Storage.Catalog.{
  find_term_by_id, course_prerequisites, find_section_by_id, claim_seat, adjust_waitlist_length,
}
use orientation_enrollment_p.Storage.Enrollments.{
  create_enrollment, active_enrollments_for_student, active_meetings_for_student,
  next_waitlist_rank,
}
use orientation_enrollment_p.Storage.Registrations.{find_registration, student_academic_records}
use orientation_enrollment_p.Storage.Transactions.{in_tx, record_event}
use orientation_enrollment_p.Service.Rejections.{record_rejection, if_missing}

-- `EnrollmentRequest`
pub record Request : Type 0 where
  pub student_id : ℕ
  pub section_id : ℕ

pub record ClaimResult : Type 0 where
  pub enrollment : Enrollment
  pub section : Section
  pub waitlisted : Bool

abbrev pub blank_registration : ℕ → ℕ → Registration
blank_registration student_id term_id = record {
  id = 0;
  student_id = student_id;
  term_id = term_id;
  status = draft;
  program_code = [];
  advisor_email = [];
  dorm_preference = [];
  submitted_at = none;
  decided_at = none;
  decided_by_user_id = none;
  decision_note = [];
  version = 0;
  created_at = 0;
  updated_at = 0;
}

-- What `claimOnce` reads before it decides.
unfoldable pub claim_reads : Request → Tx EligibilityInput
claim_reads req = do
  held_section ← find_section_by_id req.section_id
  term ← find_term_by_id held_section.term_id
  registration ←
      if_missing (find_registration req.student_id term.id)
        (blank_registration req.student_id term.id)
  prereqs ← course_prerequisites held_section.course_id
  completed ← student_academic_records req.student_id
  held ← active_enrollments_for_student req.student_id term.id
  held_meetings ← active_meetings_for_student req.student_id term.id
  now ← clock
  pure (record {
    now = now;
    term = term;
    section = held_section;
    registration = registration;
    course_prereqs = prereqs;
    completed_courses = completed;
    held_enrollments = held;
    held_meetings = held_meetings;
  })

-- The claim before its first transition.
abbrev pub new_claim : Request → EligibilityInput → Enrollment
new_claim req i = record {
  id = 0;
  student_id = req.student_id;
  term_id = i.term.id;
  section_id = i.section.id;
  course_code = i.section.course_code;
  credits = i.section.course_credits;
  status = pending;
  waitlist_rank = 0;
  requested_at = i.now;
  decided_at = none;
  released_at = none;
  release_reason = [];
  version = 0;
  created_at = i.now;
  updated_at = i.now;
}

-- The branch of `claimOnce` for a full section.
unfoldable pub join_waitlist : Principal → Request → EligibilityInput → Tx ClaimResult
join_waitlist actor req i = do
  rank ← next_waitlist_rank i.section.id
  moved ← lift (transition (new_claim req i) waitlisted i.now [])
  created ← create_enrollment (record moved { waitlist_rank = rank })
  updated ← adjust_waitlist_length i.section.id (pos 1) i.now
  record_event (some actor) enrollment_waitlist (codes "enrollment") (number created.id) success
  pure (record { enrollment = created; section = updated; waitlisted = true })

-- Its branch for a section with a free seat.
unfoldable pub take_seat : Principal → Request → EligibilityInput → Tx ClaimResult
take_seat actor req i = do
  updated ← claim_seat i.section.id i.section.version i.now
  moved ← lift (transition (new_claim req i) enrolled i.now [])
  created ← create_enrollment moved
  record_event (some actor) enrollment_claim (codes "enrollment") (number created.id) success
  pure (record { enrollment = created; section = updated; waitlisted = false })

unfoldable pub claim_once : Principal → Request → Tx ClaimResult
claim_once actor req = do
  input ← claim_reads req
  decision ← lift (check_enrollment_eligibility input)
  if decision.waitlist then join_waitlist actor req input else take_seat actor req input

-- The world at one attempt: whether the context is done, what other connections have committed since
-- the last one, and the statements that fail.
pub record Round : Type 0 where
  pub context_error : Option Error
  pub others : Db → Db
  pub env : Env

abbrev reject_claim : Principal → Request → Error → Env → Db → Result ClaimResult × Db
reject_claim actor req e env db =
    (err e, record_rejection actor enrollment_claim "section" req.section_id e env db)

-- After the transaction of one attempt: `again` is the rest of the loop.
abbrev pub settle :
    Principal
    → Request
    → Env
    → Bool
    → (Db → Result ClaimResult × Db)
    → Result ClaimResult × Db
    → Result ClaimResult × Db
settle actor req env more again (ok claimed, db) = (ok claimed, db)
settle actor req env more again (err e, db) =
    if is e Sentinel.version_conflict && more then again db else reject_claim actor req e env db

abbrev pub no_more : ℕ → Bool
no_more zero = true
no_more (suc left) = false

-- The loop, with the number of attempts that are left.
unfoldable pub claim_loop : Principal → Request → (ℕ → Round) → ℕ → ℕ → Db → Result ClaimResult × Db
claim_loop actor req rounds zero attempt db =
    reject_claim actor req (wrapped (sentinel version_conflict)) (rounds attempt).env db
claim_loop actor req rounds (suc left) attempt db =
    let again = claim_loop actor req rounds left (suc attempt) in
    let round = rounds attempt in
    elim round.context_error [
      | some e ↦ (err (wrapped e), db)
      | none ↦
          settle actor req round.env (not (no_more left)) again
            (in_tx (claim_once actor req) round.env (round.others db))
    ]

-- The checks of `Claim` before its loop, on the request with its student filled in.
unfoldable pub check_claim : Principal → Request → Result Request
check_claim actor i =
    let req = record i { student_id = if i.student_id == 0 then actor.user_id else i.student_id } in
    elim (validate_request req.student_id req.section_id) [
      | err e ↦ err e
      | ok u ↦
          if can_act_on_student actor req.student_id
          then ok req
          else err (wrapped (sentinel Sentinel.forbidden))
    ]

abbrev pub claim_checked :
    Principal → (ℕ → Round) → ℕ → Result Request → Db → Result ClaimResult × Db
claim_checked actor rounds max_retries (err e) db = (err e, db)
claim_checked actor rounds max_retries (ok req) db =
    claim_loop actor req rounds (max_retries + 1) 1 db

-- `Claim`
unfoldable pub claim : Principal → Request → (ℕ → Round) → ℕ → Db → Result ClaimResult × Db
unfolding check_claim claim_loop
claim actor i rounds max_retries db =
    claim_checked actor rounds max_retries (check_claim actor i) db
