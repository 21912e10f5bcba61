-- ===== src/Domain/Registration.antt =====
-- internal/domain/registration.go: the orientation paperwork and the prerequisite check.
pub mod Lifecycle
pub mod Prerequisites
use orientation_enrollment_p.Base.{
  ℕ, String, Bool, true, false, ◌||◌, ◌&&◌, not, Option, none, some, List, [], ◌∷◌, ltb, any,
  length, if◌then◌else◌,
}
use orientation_enrollment_p.Base.Text.{
  Text, codes, text_eq, is_empty, trim_space, to_lower, to_upper,
}
use orientation_enrollment_p.Base.Time.{Time}
use orientation_enrollment_p.Domain.Errors.{
  Error, Result, ok, err, field_error, transition_error, ◌>>=◌, ◌>>◌, fail_if,
}
use orientation_enrollment_p.Domain.Identity.{normalize_email}

-- `unlisted` is any string that is none of the four constants, as a client may send it.
pub data RegistrationStatus : Type 0 where
  draft submitted verified rejected unlisted : RegistrationStatus

abbrev pub status_eq : RegistrationStatus → RegistrationStatus → Bool
status_eq draft draft = true
status_eq submitted submitted = true
status_eq verified verified = true
status_eq rejected rejected = true
status_eq unlisted unlisted = true
status_eq _ _ = false

abbrev pub status_name : RegistrationStatus → String
status_name draft = "draft"
status_name submitted = "submitted"
status_name verified = "verified"
status_name rejected = "rejected"
status_name unlisted = "another"

-- `registrationTransitions`, with no entry for another string.
unfoldable pub transitions : RegistrationStatus → List RegistrationStatus
transitions draft = submitted ∷ []
transitions submitted = verified ∷ rejected ∷ []
transitions verified = []
transitions rejected = submitted ∷ []
transitions unlisted = []

unfoldable pub can_transition_to : RegistrationStatus → RegistrationStatus → Bool
unfolding transitions
can_transition_to s target = any (λ allowed. status_eq allowed target) (transitions s)

-- `RegistrationStatus.Terminal`
unfoldable pub terminal : RegistrationStatus → Bool
unfolding transitions
terminal s = elim (transitions s) [ [] ↦ true | _ ∷ _ ↦ false ]

pub record Registration : Type 0 where
  pub id : ℕ
  pub student_id : ℕ
  pub term_id : ℕ
  pub status : RegistrationStatus
  pub program_code : Text
  pub advisor_email : Text
  pub dorm_preference : Text
  pub submitted_at : Option Time
  pub decided_at : Option Time
  pub decided_by_user_id : Option ℕ
  pub decision_note : Text
  pub version : ℕ
  pub created_at : Time
  pub updated_at : Time

-- `Registration.Verified`
unfoldable pub is_verified : Registration → Bool
is_verified r = status_eq r.status verified

abbrev is_err : {A : Type 0} → Result A → Bool
is_err (ok a) = false
is_err (err e) = true

abbrev known_preference : Text → Bool
known_preference p =
    text_eq p (codes "on_campus") || text_eq p (codes "off_campus") || text_eq p (codes "undecided")

unfoldable pub validate_submission : Registration → Result (Unit {0})
validate_submission r = do
  fail_if (is_empty (trim_space r.program_code)) (field_error "program_code" "must not be empty")
  fail_if (ltb 32 (length r.program_code))
      (field_error "program_code" "must be at most 32 characters")
  fail_if (is_err (normalize_email r.advisor_email))
      (field_error "advisor_email" "must be a valid email address")
  fail_if (not (known_preference (to_lower (trim_space r.dorm_preference))))
      (field_error "dorm_preference" "must be on_campus, off_campus or undecided")

-- The transition error of a status move.
abbrev pub bad_move : RegistrationStatus → RegistrationStatus → Error
bad_move from to = transition_error "registration" (status_name from) (status_name to)

-- `Registration.Submit`; a method on a pointer returns the new record.
unfoldable pub submit : Registration → Time → Result Registration
unfolding can_transition_to
submit r now = do
  fail_if (not (can_transition_to r.status submitted)) (bad_move r.status submitted)
  validate_submission r
  ok (record r {
    status = submitted;
    submitted_at = some now;
    decided_at = none;
    decided_by_user_id = none;
    decision_note = [];
    updated_at = now;
  })

-- `Registration.Decide`
unfoldable pub decide : Registration → RegistrationStatus → ℕ → Text → Time → Result Registration
unfolding can_transition_to
decide r target decided_by note now = do
  fail_if (not (status_eq target verified) && not (status_eq target rejected))
      (field_error "status" "decision must be verified or rejected")
  fail_if (not (can_transition_to r.status target)) (bad_move r.status target)
  fail_if (status_eq target rejected && is_empty (trim_space note))
      (field_error "decision_note" "must explain a rejection")
  ok (record r {
    status = target;
    decided_at = some now;
    decided_by_user_id = some decided_by;
    decision_note = trim_space note;
    updated_at = now;
  })

pub record AcademicRecord : Type 0 where
  pub id : ℕ
  pub student_id : ℕ
  pub course_code : Text
  pub grade : Text
  pub credits : ℕ
  pub completed_at : Time

-- `AcademicRecord.Passing`
unfoldable pub passing : AcademicRecord → Bool
passing a =
    let grade = to_upper (trim_space a.grade) in
    any (text_eq grade) (codes "A" ∷ codes "B" ∷ codes "C" ∷ codes "D" ∷ codes "P" ∷ [])

-- A course code as the check compares it.
abbrev pub normal_code : Text → Text
normal_code code = to_upper (trim_space code)

-- The keys of the set `passed`.
unfoldable pub passed_codes : List AcademicRecord → List Text
passed_codes [] = []
passed_codes (a ∷ completed) =
    let rest = passed_codes completed in
    if passing a then normal_code a.course_code ∷ rest else rest

-- The loop over the required codes.
unfoldable pub missing_from : List Text → List Text → List Text
missing_from passed [] = []
missing_from passed (code ∷ required) =
    let rest = missing_from passed required in
    if is_empty (normal_code code) || any (text_eq (normal_code code)) passed
    then rest
    else normal_code code ∷ rest

unfoldable pub missing_prerequisites : List Text → List AcademicRecord → List Text
unfolding passed_codes missing_from
missing_prerequisites required completed = missing_from (passed_codes completed) required
