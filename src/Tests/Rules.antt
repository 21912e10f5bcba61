-- ===== src/Tests/Rules.antt =====
-- The theorems on the domain's rules at concrete inputs.
use orientation_enrollment_p.Base.{
  ℕ, suc, ◌+◌, ◌*◌, ◌<◌, ◌≤◌, true, false, ◌≡◌, ◌≢◌, ◌↔◌, refl, ◌⊎◌, inl, inr, ◌==◌, none, some,
  List, [], ◌∷◌, arith, All, length,
}
use orientation_enrollment_p.Base.Int.{ℤ, pos}
use orientation_enrollment_p.Base.Text.{codes, is_empty}
use orientation_enrollment_p.Domain.Errors.{Error, Sentinel, ok, err, sentinel}
use orientation_enrollment_p.Domain.Identity.{Session, validate_session}
use orientation_enrollment_p.Domain.Identity.Access.{validate_session_cases}
use orientation_enrollment_p.Domain.Query.{PageRequest, Page, ascending}
use orientation_enrollment_p.Domain.Catalog.{
  Meeting, validate_term, validate_meeting, drop_allowed, overlaps, find_schedule_conflict,
}
use orientation_enrollment_p.Domain.Catalog.Schedule.{Occupies, overlaps_iff}
use orientation_enrollment_p.Domain.Registration.{
  Registration, RegistrationStatus, draft, submitted, verified, rejected, submit, decide,
  validate_submission, missing_prerequisites,
}
use orientation_enrollment_p.Domain.Registration.Lifecycle.{decide-ok}
use orientation_enrollment_p.Domain.Registration.Prerequisites.{Met, missing_prerequisites-nil}
use orientation_enrollment_p.Domain.Enrollment.{
  EligibilityInput, EligibilityDecision, Enrollment, check_enrollment_eligibility, transition,
  terminal, pending, enrolled, dropped, seat_delta,
}
use orientation_enrollment_p.Domain.Enrollment.Lifecycle.{◌⟶◌, transition_moves}
use orientation_enrollment_p.Domain.Enrollment.Eligibility.{
  IsEligible, IsPlaced, total_credits, eligibility_sound, eligibility_complete,
}
use orientation_enrollment_p.Domain.Job.{backoff}
use orientation_enrollment_p.Domain.Job.Schedule.{backoff_grows}
use orientation_enrollment_p.Tests.World.{autumn, seen, paperwork, claim_of, value_or}

abbrev input : EligibilityInput
input = record {
  now = 150;
  term = autumn;
  section = seen;
  registration = paperwork 5;
  course_prereqs = [];
  completed_courses = [];
  held_enrollments = [];
  held_meetings = [];
}

abbrev decision : EligibilityDecision
decision = record { waitlist = false; credits_after = 4 }

eligibility_sound_example : IsEligible input × IsPlaced seen decision × (4 ≡ total_credits input)
unfolding orientation_enrollment_p.Domain.Enrollment.check_enrollment_eligibility
    orientation_enrollment_p.Domain.Enrollment.check_duplicates
    orientation_enrollment_p.Domain.Enrollment.credit_load
    orientation_enrollment_p.Domain.Catalog.enrollment_open
    orientation_enrollment_p.Domain.Catalog.accepts_enrollment
    orientation_enrollment_p.Domain.Catalog.find_schedule_conflict
    orientation_enrollment_p.Domain.Catalog.seats_available
    orientation_enrollment_p.Domain.Registration.is_verified
    orientation_enrollment_p.Domain.Registration.missing_prerequisites
eligibility_sound_example = eligibility_sound input decision refl

input-IsEligible : IsEligible input
unfolding orientation_enrollment_p.Domain.Enrollment.credit_load
    orientation_enrollment_p.Domain.Catalog.enrollment_open
    orientation_enrollment_p.Domain.Catalog.accepts_enrollment
    orientation_enrollment_p.Domain.Registration.is_verified
input-IsEligible = record {
  window = refl;
  paperwork = refl;
  accepting = refl;
  distinct = tt;
  prerequisites = tt;
  credits = omega arith;
  timetable = tt;
}

eligibility_complete_example :
    (d : EligibilityDecision) × (check_enrollment_eligibility input ≡ ok d)
eligibility_complete_example = eligibility_complete input input-IsEligible (inl (omega arith))

transition_moves_example :
    ((q : Enrollment) × (transition (claim_of 1 5 enrolled 0) dropped 150 [] ≡ ok q)
      × (q.status ≡ dropped)
      × (enrolled ⟶ dropped))
    ⊎ ((x : Error) × (transition (claim_of 1 5 enrolled 0) dropped 150 [] ≡ err x)
        × (¬ (enrolled ⟶ dropped)))
transition_moves_example = transition_moves (claim_of 1 5 enrolled 0) dropped 150 []

abbrev draft_paper : Registration
draft_paper = record (paperwork 5) { status = draft }

abbrev handed_in : Registration
handed_in = value_or (paperwork 5) (submit draft_paper 150)

abbrev judged : Registration
judged =
    value_or (paperwork 5) (decide (record (paperwork 5) { status = submitted }) verified 9 [] 160)

decide-ok_example :
    (submitted ≡ submitted)
    × (judged.status ≡ verified)
    × ((verified ≡ verified) ⊎ ((verified ≡ rejected) × (is_empty judged.decision_note ≡ false)))
    × (judged.decided_by_user_id ≡ some 9)
    × (judged.decided_at ≡ some 160)
    × (judged.submitted_at ≡ some 1)
unfolding decide
decide-ok_example =
    decide-ok (record (paperwork 5) { status = submitted }) judged verified 9 [] 160 refl

missing_prerequisites-nil_example :
    (missing_prerequisites (codes "MA1" ∷ []) [] ≡ []) ↔ All (Met []) (codes "MA1" ∷ [])
missing_prerequisites-nil_example = missing_prerequisites-nil (codes "MA1" ∷ []) []

abbrev block : ℕ → ℕ → Meeting
block from to = record {
  id = from;
  section_id = 1;
  weekday = pos 1;
  start_minute = pos from;
  end_minute = pos to;
  room = [];
}

overlaps_iff_example :
    (overlaps (block 540 600) (block 600 660) ≡ true)
    ↔ ((t : ℤ) × Occupies (block 540 600) (pos 1) t × Occupies (block 600 660) (pos 1) t)
unfolding validate_meeting orientation_enrollment_p.Domain.Catalog.weekday_valid
overlaps_iff_example = overlaps_iff (block 540 600) (block 600 660) refl refl

abbrev session : Session
session = record {
  id = 1;
  user_id = 5;
  token_digest = [];
  issued_at = 1;
  expires_at = 100;
  revoked_at = some 50;
  last_seen_at = 1;
  user_agent = [];
}

validate_session_cases_example :
    ((validate_session session 150 ≡ ok tt) ↔ ((session.revoked_at ≡ none) × (150 < 100)))
    × ((validate_session session 150 ≡ err (sentinel Sentinel.session_revoked))
        ↔ (session.revoked_at ≢ none))
validate_session_cases_example = validate_session_cases session 150

abbrev asked : ℕ → PageRequest
asked n = record { number = n; size = 100; sort_by = []; order = [] }

abbrev given : ℕ → Page
given n = record { number = n; size = 100; sort_by = codes "id"; order = ascending }

backoff_grows_example :
    (backoff (suc 2) 2 100 ≤ backoff (suc (suc 2)) 2 100)
    × (2 < 16
        → backoff (suc 2) 2 100 * 2 ≤ 100
        → backoff (suc (suc 2)) 2 100 ≡ backoff (suc 2) 2 100 * 2)
backoff_grows_example = backoff_grows 2 2 100 (omega arith) (omega arith) (omega arith)
