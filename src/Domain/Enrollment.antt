-- ===== src/Domain/Enrollment.antt =====
-- internal/domain/enrollment.go: the seat lifecycle and the eligibility rules.
pub mod Lifecycle
pub mod Credits
pub mod Eligibility
use orientation_enrollment_p.Base.{
  ℕ, String, Bool, true, false, ◌||◌, ◌&&◌, not, ◌+◌, Option, none, some, List, [], ◌∷◌, ◌++◌, ltb,
  leb, ◌==◌, any, if◌then◌else◌,
}
use orientation_enrollment_p.Base.Int.{ℤ, pos, sub_ℕ}
use orientation_enrollment_p.Base.Text.{Text, codes, text_eq, is_empty, trim_space}
use orientation_enrollment_p.Base.Time.{Time}
use orientation_enrollment_p.Domain.Errors.{
  Error, Result, ok, err, sentinel, field_error, transition_error, conflict_error, ◌>>=◌, ◌>>◌,
  fail_if, window_closed, registration_incomplete, conflict, duplicate_enrollment,
  prerequisite_missing, credit_limit_exceeded, schedule_conflict, waitlist_full,
}
use orientation_enrollment_p.Domain.Catalog.{
  Term, Section, SectionStatus, Meeting, enrollment_open, accepts_enrollment, seats_available,
  find_schedule_conflict, section_status_name,
}
use orientation_enrollment_p.Domain.Registration.{
  Registration, AcademicRecord, is_verified, missing_prerequisites,
}

pub data EnrollmentStatus : Type 0 where
  pending enrolled waitlisted dropped withdrawn completed : EnrollmentStatus

abbrev pub status_eq : EnrollmentStatus → EnrollmentStatus → Bool
status_eq pending pending = true
status_eq enrolled enrolled = true
status_eq waitlisted waitlisted = true
status_eq dropped dropped = true
status_eq withdrawn withdrawn = true
status_eq completed completed = true
status_eq _ _ = false

abbrev pub status_name : EnrollmentStatus → String
status_name pending = "pending"
status_name enrolled = "enrolled"
status_name waitlisted = "waitlisted"
status_name dropped = "dropped"
status_name withdrawn = "withdrawn"
status_name completed = "completed"

-- `enrollmentTransitions`
unfoldable pub transitions : EnrollmentStatus → List EnrollmentStatus
transitions pending = enrolled ∷ waitlisted ∷ withdrawn ∷ []
transitions enrolled = dropped ∷ completed ∷ []
transitions waitlisted = enrolled ∷ withdrawn ∷ []
transitions dropped = []
transitions withdrawn = []
transitions completed = []

unfoldable pub can_transition_to : EnrollmentStatus → EnrollmentStatus → Bool
unfolding transitions
can_transition_to s target = any (λ allowed. status_eq allowed target) (transitions s)

unfoldable pub holds_seat : EnrollmentStatus → Bool
holds_seat s = status_eq s enrolled || status_eq s completed

unfoldable pub active : EnrollmentStatus → Bool
active s = status_eq s pending || status_eq s enrolled || status_eq s waitlisted

unfoldable pub terminal : EnrollmentStatus → Bool
unfolding transitions
terminal s = elim (transitions s) [ [] ↦ true | _ ∷ _ ↦ false ]

pub record Enrollment : Type 0 where
  pub id : ℕ
  pub student_id : ℕ
  pub term_id : ℕ
  pub section_id : ℕ
  pub course_code : Text
  pub credits : ℕ
  pub status : EnrollmentStatus
  pub waitlist_rank : ℕ
  pub requested_at : Time
  pub decided_at : Option Time
  pub released_at : Option Time
  pub release_reason : Text
  pub version : ℕ
  pub created_at : Time
  pub updated_at : Time

-- The switch over the target state.
abbrev stamp_for : EnrollmentStatus → Enrollment → Time → Text → Enrollment
stamp_for enrolled e now reason = record e { decided_at = some now; waitlist_rank = 0 }
stamp_for waitlisted e now reason = record e { decided_at = some now }
stamp_for dropped e now reason = record e {
  released_at = some now;
  release_reason = trim_space reason;
  waitlist_rank = 0;
}
stamp_for withdrawn e now reason = record e {
  released_at = some now;
  release_reason = trim_space reason;
  waitlist_rank = 0;
}
stamp_for completed e now reason = record e { decided_at = some now }
stamp_for pending e now reason = e

-- `Enrollment.Transition`; a method on a pointer returns the new record.
unfoldable pub transition : Enrollment → EnrollmentStatus → Time → Text → Result Enrollment
unfolding can_transition_to
transition e target now reason = do
  fail_if (not (can_transition_to e.status target))
      (transition_error "enrollment" (status_name e.status) (status_name target))
  ok (record (stamp_for target e now reason) { status = target; updated_at = now })

abbrev seats_of : EnrollmentStatus → ℕ
seats_of s = if holds_seat s then 1 else 0

unfoldable pub seat_delta : EnrollmentStatus → EnrollmentStatus → ℤ
unfolding holds_seat
seat_delta from to = sub_ℕ (seats_of to) (seats_of from)

-- `EnrollmentRequest.Validate`
unfoldable pub validate_request : ℕ → ℕ → Result (Unit {0})
validate_request student_id section_id = do
  fail_if (student_id == 0) (field_error "student_id" "must be a positive identifier")
  fail_if (section_id == 0) (field_error "section_id" "must be a positive identifier")

unfoldable pub credit_load : List Enrollment → ℕ
unfolding active
credit_load [] = 0
credit_load (e ∷ records) = (if active e.status then e.credits else 0) + credit_load records

pub record EligibilityInput : Type 0 where
  pub now : Time
  pub term : Term
  pub section : Section
  pub registration : Registration
  pub course_prereqs : List Text
  pub completed_courses : List AcademicRecord
  pub held_enrollments : List Enrollment
  pub held_meetings : List Meeting

pub record EligibilityDecision : Type 0 where
  pub waitlist : Bool
  pub credits_after : ℕ

-- The loop over the held enrollments, as the error that it returns.
unfoldable pub check_duplicates : Section → List Enrollment → Result (Unit {0})
unfolding active
check_duplicates section [] = ok tt
check_duplicates section (held ∷ rest) =
    let later = check_duplicates section rest in
    if not (active held.status)
    then later
    else if held.section_id == section.id
    then err (sentinel duplicate_enrollment)
    else if not (is_empty held.course_code) && text_eq held.course_code section.course_code
    then err (
        conflict_error (sentinel duplicate_enrollment) (codes "course " ++ section.course_code)
          (codes "section " ++ held.course_code))
    else later

-- The last check: a full section wants room on its waitlist.
abbrev decide_waitlist : Section → ℕ → Result EligibilityDecision
decide_waitlist section credits_after =
    if seats_available section == 0
    then (if (section.waitlist_limit == 0) || leb section.waitlist_limit section.waitlist_length
        then err (sentinel waitlist_full)
        else ok (record { waitlist = true; credits_after = credits_after }))
    else ok (record { waitlist = false; credits_after = credits_after })

abbrev no_missing : List Text → Bool
no_missing [] = true
no_missing (c ∷ cs) = false

-- strings.Join with a comma.
abbrev joined_codes : List Text → Text
joined_codes [] = []
joined_codes (c ∷ []) = c
joined_codes (c ∷ d ∷ cs) = c ++ 44 ∷ joined_codes (d ∷ cs)

-- The conflict of the first colliding pair; the labels of the two blocks are not modelled.
abbrev no_conflict : Option (Meeting × Meeting) → Result (Unit {0})
no_conflict none = ok tt
no_conflict (some pair) = err (conflict_error (sentinel schedule_conflict) [] [])

unfoldable pub check_enrollment_eligibility : EligibilityInput → Result EligibilityDecision
check_enrollment_eligibility i = do
  fail_if (not (enrollment_open i.term i.now)) (sentinel window_closed)
  fail_if (not (is_verified i.registration)) (sentinel registration_incomplete)
  fail_if (not (accepts_enrollment i.section)) (
      conflict_error (sentinel conflict) (codes "section " ++ i.section.code)
        (codes "status " ++ codes (section_status_name i.section.status)))
  check_duplicates i.section i.held_enrollments
  let missing = missing_prerequisites i.course_prereqs i.completed_courses
  fail_if (not (no_missing missing)) (
      conflict_error (sentinel prerequisite_missing) (codes "course " ++ i.section.course_code)
        (joined_codes missing))
  let credits_after = credit_load i.held_enrollments + i.section.course_credits
  fail_if (ltb i.term.credit_limit credits_after) (sentinel credit_limit_exceeded)
  no_conflict (find_schedule_conflict i.section.meetings i.held_meetings)
  decide_waitlist i.section credits_after
