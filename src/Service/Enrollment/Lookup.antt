-- ===== src/Service/Enrollment/Lookup.antt =====
-- The reads of internal/service/enrollment.go.
use orientation_enrollment_p.Base.{ℕ, not, if◌then◌else◌}
use orientation_enrollment_p.Domain.Errors.{sentinel, wrapped, Sentinel}
use orientation_enrollment_p.Domain.Identity.{Principal, can_act_on_student, is_registrar_role}
use orientation_enrollment_p.Domain.Enrollment.{Enrollment}
use orientation_enrollment_p.Domain.Query.{PageRequest, PageResult}
use orientation_enrollment_p.Storage.Db.{Tx, pure, raise_if, ◌>>=◌, ◌>>◌}
use orientation_enrollment_p.Storage.Enrollments.{find_enrollment_by_id}
use orientation_enrollment_p.Storage.Enrollments.Listing.{EnrollmentFilter, list_enrollments}

-- `Get`
unfoldable pub get_enrollment : Principal → ℕ → Tx Enrollment
get_enrollment actor enrollment_id = do
  current ← find_enrollment_by_id enrollment_id
  raise_if (not (can_act_on_student actor current.student_id))
      (wrapped (sentinel Sentinel.forbidden))
  pure current

-- A caller who is no registrar reads the claims of their own.
abbrev pub own_filter : Principal → EnrollmentFilter → EnrollmentFilter
own_filter actor filter =
    if is_registrar_role actor then filter else record filter { student_id = actor.user_id }

-- `List`
unfoldable pub visible_enrollments :
    Principal → EnrollmentFilter → PageRequest → Tx (PageResult Enrollment)
visible_enrollments actor filter request = list_enrollments (own_filter actor filter) request
