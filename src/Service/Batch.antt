-- ===== src/Service/Batch.antt =====
-- `BatchClaim` of internal/service/enrollment.go: several claims of one student, one after another.
pub mod Items
use orientation_enrollment_p.Base.{
  ℕ, Bool, true, false, Option, none, some, List, [], ◌∷◌, suc, length, ltb, ◌==◌, if◌then◌else◌,
}
use orientation_enrollment_p.Domain.Errors.{
  Error, Result, ok, err, sentinel, wrapped, field_error, ErrorCode, error_code, Sentinel,
}
use orientation_enrollment_p.Domain.Identity.{Principal, can_act_on_student}
use orientation_enrollment_p.Domain.Enrollment.{EnrollmentStatus}
use orientation_enrollment_p.Storage.Db.{Db}
use orientation_enrollment_p.Service.Enrollment.Claim.{Request, ClaimResult, Round, claim}

-- `BatchItemResult`, without its message: the state that was reached, or the code of the error.
pub data ItemOutcome : Type 0 where
  succeeded : EnrollmentStatus → ItemOutcome
  refused : ErrorCode → ItemOutcome

abbrev pub outcome : Result ClaimResult → ItemOutcome
outcome (ok claimed) = succeeded claimed.enrollment.status
outcome (err e) = refused (error_code e)

-- The loop of `BatchClaim`: its results, and the error that interrupted it. `worlds` are the rounds
-- of each section's claim, and `stopped` is what the context says before it.
unfoldable pub batch_loop :
    Principal
    → ℕ
    → (ℕ → ℕ → Round)
    → (ℕ → Option Error)
    → ℕ
    → ℕ
    → List ℕ
    → Db
    → (List (ℕ × ItemOutcome) × Option Error) × Db
batch_loop actor student_id worlds stopped max_retries n [] db = (([], none), db)
batch_loop actor student_id worlds stopped max_retries n (section_id ∷ rest) db =
    let again = batch_loop actor student_id worlds stopped max_retries (suc n) rest in
    elim (stopped n) [
      | some e ↦ (([], some (wrapped e)), db)
      | none ↦
          let req : Request = record { student_id = student_id; section_id = section_id } in
          let (r, after) = claim actor req (worlds n) max_retries db in
          let ((results, e), final) = again after in (((section_id, outcome r) ∷ results, e), final)
    ]

unfoldable pub check_batch : Principal → ℕ → List ℕ → Result ℕ
check_batch actor student_id section_ids =
    let id = if student_id == 0 then actor.user_id else student_id in
    if length section_ids == 0
    then err (field_error "section_ids" "must contain at least one section")
    else if ltb 20 (length section_ids)
    then err (field_error "section_ids" "must contain at most 20 sections")
    else if can_act_on_student actor id
    then ok id
    else err (wrapped (sentinel Sentinel.forbidden))

abbrev batch_checked :
    Principal
    → (ℕ → ℕ → Round)
    → (ℕ → Option Error)
    → ℕ
    → List ℕ
    → Result ℕ
    → Db
    → (List (ℕ × ItemOutcome) × Option Error) × Db
batch_checked actor worlds stopped max_retries section_ids (err e) db = (([], some e), db)
batch_checked actor worlds stopped max_retries section_ids (ok id) db =
    batch_loop actor id worlds stopped max_retries 0 section_ids db

-- `BatchClaim`
unfoldable pub batch_claim :
    Principal
    → ℕ
    → List ℕ
    → (ℕ → ℕ → Round)
    → (ℕ → Option Error)
    → ℕ
    → Db
    → (List (ℕ × ItemOutcome) × Option Error) × Db
unfolding check_batch batch_loop
batch_claim actor student_id section_ids worlds stopped max_retries db =
    batch_checked actor worlds stopped max_retries section_ids
      (check_batch actor student_id section_ids) db
