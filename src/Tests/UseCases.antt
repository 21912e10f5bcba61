-- ===== src/Tests/UseCases.antt =====
-- The use cases' theorems at concrete inputs.
use orientation_enrollment_p.Base.{
  ℕ, ◌+◌, true, false, ◌≡◌, refl, ◌⊎◌, inl, inr, ◌==◌, none, some, List, [], ◌∷◌, map, arith, count,
  All, Bool-cases, Option, ◌≤◌, ◌<◌,
}
use orientation_enrollment_p.Domain.Errors.{Error, ok}
use orientation_enrollment_p.Domain.Identity.{can_act_on_student}
use orientation_enrollment_p.Domain.Enrollment.{holds_seat}
use orientation_enrollment_p.Storage.Db.{Db}
use orientation_enrollment_p.Storage.Consistency.{Consistent}
use orientation_enrollment_p.Storage.Transactions.{in_tx}
use orientation_enrollment_p.Service.Batch.{ItemOutcome, batch_claim}
use orientation_enrollment_p.Service.Batch.Items.{Answers, batch_claim_cases}
use orientation_enrollment_p.Service.Enrollment.Claim.{claim_once}
use orientation_enrollment_p.Service.Enrollment.Promotion.{promote_once}
use orientation_enrollment_p.Service.Enrollment.Promotions.{Promoted, promote_once_cases}
use orientation_enrollment_p.Service.Enrollment.Histories.{
  then_one, nothing_yet, promoting, History-Consistent,
}
use orientation_enrollment_p.Service.Enrollment.Retries.{
  Committed, claim-Consistent, claim-Committed,
}
use orientation_enrollment_p.Service.Enrollment.Claim.{Round, claim}
use orientation_enrollment_p.Tests.World.{busy, noon, ada, request, value_or, no_result}

busy-Consistent : Consistent busy
unfolding holds_seat
busy-Consistent = record {
  one_section = λ k. ground arith;
  one_enrollment = λ k. ground arith;
  fresh = (omega arith, (omega arith, tt));
  limits = (record { seats = omega arith; waitlist = omega arith }, tt);
  seats = λ k r found. ground arith;
  waitlist = λ k r found. ground arith;
}

History-Consistent_example : Consistent (in_tx (promote_once 1 150) noon busy).1
History-Consistent_example =
    History-Consistent (then_one nothing_yet (promoting 1 150 noon busy)) busy-Consistent

abbrev quiet : ℕ → Round
quiet n = record { context_error = none; others = λ db. db; env = noon }

claim-Consistent_example : Consistent (claim ada request quiet 3 busy).1
claim-Consistent_example =
    claim-Consistent ada quiet request 3 busy (λ n db fine. fine) busy-Consistent

claim-Committed_example :
    Committed ada quiet request
      (3 + 1)
      (value_or no_result (claim ada request quiet 3 busy).0)
      (claim ada request quiet 3 busy).1
unfolding orientation_enrollment_p.Service.Enrollment.Claim.claim_once
    orientation_enrollment_p.Service.Enrollment.Claim.claim_reads
    orientation_enrollment_p.Service.Enrollment.Claim.take_seat
    orientation_enrollment_p.Storage.Catalog.find_section_by_id
    orientation_enrollment_p.Storage.Catalog.find_term_by_id
    orientation_enrollment_p.Storage.Catalog.course_prerequisites
    orientation_enrollment_p.Storage.Catalog.claim_seat
    orientation_enrollment_p.Storage.Registrations.find_registration
    orientation_enrollment_p.Storage.Registrations.student_academic_records
    orientation_enrollment_p.Storage.Enrollments.active_enrollments_for_student
    orientation_enrollment_p.Storage.Enrollments.active_meetings_for_student
    orientation_enrollment_p.Storage.Enrollments.create_enrollment
    orientation_enrollment_p.Domain.Enrollment.check_enrollment_eligibility
    orientation_enrollment_p.Domain.Enrollment.check_duplicates
    orientation_enrollment_p.Domain.Enrollment.credit_load
    orientation_enrollment_p.Domain.Enrollment.transition
    orientation_enrollment_p.Domain.Catalog.enrollment_open
    orientation_enrollment_p.Domain.Catalog.accepts_enrollment
    orientation_enrollment_p.Domain.Catalog.find_schedule_conflict
    orientation_enrollment_p.Domain.Catalog.seats_available
    orientation_enrollment_p.Domain.Registration.is_verified
    orientation_enrollment_p.Domain.Registration.missing_prerequisites
    orientation_enrollment_p.Base.Sort.order_by orientation_enrollment_p.Base.Text.trim_space
    orientation_enrollment_p.Domain.Audit.validate_event
    orientation_enrollment_p.Storage.Db.update_where
    orientation_enrollment_p.Storage.Transactions.record_event
    orientation_enrollment_p.Storage.Transactions.in_tx
    orientation_enrollment_p.Service.Enrollment.Claim.claim
    orientation_enrollment_p.Domain.Enrollment.validate_request
    orientation_enrollment_p.Domain.Identity.can_act_on_student
claim-Committed_example =
    claim-Committed ada quiet request request 3 busy (claim ada request quiet 3 busy).1 refl refl

promote_once_cases_example :
    ((true ≡ false) × ((promote_once 1 150 noon busy).1 ≡ busy))
    ⊎ ((true ≡ true) × Promoted 1 busy (promote_once 1 150 noon busy).1)
unfolding orientation_enrollment_p.Storage.Catalog.find_section_by_id
    orientation_enrollment_p.Storage.Catalog.adjust_waitlist_length
    orientation_enrollment_p.Storage.Catalog.claim_seat
    orientation_enrollment_p.Domain.Enrollment.transition
    orientation_enrollment_p.Domain.Catalog.accepts_enrollment
    orientation_enrollment_p.Domain.Catalog.seats_available
    orientation_enrollment_p.Base.Sort.order_by orientation_enrollment_p.Base.Int.◌+ℤ◌
    orientation_enrollment_p.Base.Text.trim_space
    orientation_enrollment_p.Domain.Audit.validate_event
    orientation_enrollment_p.Storage.Transactions.record_event
    orientation_enrollment_p.Service.Enrollment.Promotion.promote_once
    orientation_enrollment_p.Service.Enrollment.Promotion.seat_head
    orientation_enrollment_p.Storage.Enrollments.head_of_waitlist
    orientation_enrollment_p.Storage.Enrollments.update_enrollment
promote_once_cases_example =
    promote_once_cases 1 150 noon busy (promote_once 1 150 noon busy).1 busy-Consistent refl

abbrev batch : (List (ℕ × ItemOutcome) × Option Error) × Db
batch = batch_claim ada 0 (1 ∷ 9 ∷ []) (λ k. quiet) (λ k. none) 3 busy

batch_claim_cases_example :
    ((1 ≤ 2)
      × (2 ≤ 20)
      × (can_act_on_student ada 5 ≡ true)
      × Answers ada 5 (λ k. quiet) (λ k. none) 3 0 (1 ∷ 9 ∷ []) busy batch.0.0 batch.1
      × (batch.0.1 ≡ none))
    ⊎ (((◌≡◌ {A = ℕ} 2 0) ⊎ (20 < 2) ⊎ (can_act_on_student ada 5 ≡ false))
        × ((e : Error) × (batch ≡ (([], some e), busy))))
batch_claim_cases_example =
    batch_claim_cases ada 0 (1 ∷ 9 ∷ []) (λ k. quiet) (λ k. none) 3 busy (λ k. refl)
