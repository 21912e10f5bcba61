-- ===== src/Domain/Enrollment/Credits.antt =====
-- Credits and duplicates of the held enrollments.
use orientation_enrollment_p.Base.{
  true, false, ◌≡◌, refl, ◌≢◌, ◌↔◌, ◌≤◌, ◌*◌, arith, List, [], ◌∷◌, All, count,
}
use orientation_enrollment_p.Base.Text.{is_empty, text_eq}
use orientation_enrollment_p.Domain.Errors.{ok}
use orientation_enrollment_p.Domain.Catalog.{Section}
use orientation_enrollment_p.Domain.Enrollment.{Enrollment, active, credit_load, check_duplicates}

-- With at most 12 credits in each record, as the schema demands of a course, the load is at most 12
-- times the number of active records: it stays far below the bounds of int.
pub credit_load-le :
    (records : List Enrollment)
    → All (λ e. e.credits ≤ 12) records
    → credit_load records ≤ 12 * count (λ e. active e.status) records
unfolding credit_load
credit_load-le [] h = omega arith
credit_load-le (e ∷ records) h = ground (arith, credit_load-le records h.1)

-- The record does not collide with a claim on the section: it is out of the plan, or it is for
-- another section and not for the same named course.
abbrev pub Apart : Section → Enrollment → Type 0
Apart section held =
    (active held.status ≡ true)
    → (held.section_id ≢ section.id)
      × (is_empty held.course_code ≡ false → text_eq held.course_code section.course_code ≡ false)

-- The duplicate check passes exactly when no active record is for the section or its course.
pub check_duplicates_iff :
    (section : Section) (held : List Enrollment)
    → (check_duplicates section held ≡ ok tt) ↔ All (Apart section) held
unfolding check_duplicates
check_duplicates_iff section [] = (λ _. tt, λ _. refl)
check_duplicates_iff section (held ∷ rest) = (
  λ h. ground (arith, (check_duplicates_iff section rest).0),
  λ h. ground (arith, (check_duplicates_iff section rest).1 h.1),
)
