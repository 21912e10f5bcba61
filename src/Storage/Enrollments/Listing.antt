-- ===== src/Storage/Enrollments/Listing.antt =====
-- The paginated queries of internal/storage/sqlite/enrollments.go.
use orientation_enrollment_p.Base.{
  ℕ, Bool, true, false, ◌&&◌, List, [], ◌∷◌, leb, ◌==◌, any, find, if◌then◌else◌,
}
use orientation_enrollment_p.Base.Text.{Text, codes, text_eq}
use orientation_enrollment_p.Domain.Enrollment.{
  EnrollmentStatus, Enrollment, enrolled, waitlisted, completed, status_eq, status_name,
}
use orientation_enrollment_p.Domain.Query.{PageRequest, PageResult, SortDirection}
use orientation_enrollment_p.Storage.Timestamps.{stored_le, text_leb}
use orientation_enrollment_p.Storage.Db.{Tx, gets, or_not_found, ◌>>=◌, ◌>>◌, attempt}
use orientation_enrollment_p.Storage.Enrollments.{live}
use orientation_enrollment_p.Storage.Listing.{Query, ordered, listing}

-- `EnrollmentFilter` without its page; an identifier of 0 stands for any.
pub record EnrollmentFilter : Type 0 where
  pub student_id : ℕ
  pub term_id : ℕ
  pub section_id : ℕ
  pub statuses : List EnrollmentStatus

-- A condition that is left out for the zero value.
abbrev pub unless_zero : ℕ → ℕ → Bool
unless_zero wanted value = if wanted == 0 then true else value == wanted

abbrev status_in : List EnrollmentStatus → EnrollmentStatus → Bool
status_in [] status = true
status_in (s ∷ ss) status = any (λ t. status_eq status t) (s ∷ ss)

abbrev pub passes : EnrollmentFilter → Enrollment → Bool
passes filter e =
    unless_zero filter.student_id e.student_id
    && (unless_zero filter.term_id e.term_id
        && (unless_zero filter.section_id e.section_id && status_in filter.statuses e.status))

abbrev pub id_le : Enrollment → Enrollment → Bool
id_le d e = leb d.id e.id

-- `enrollmentSortColumns`, of which `rosterSortColumns` is a part.
abbrev pub column_le : Text → Enrollment → Enrollment → Bool
column_le key d e =
    if text_eq key (codes "requested_at")
    then stored_le d.requested_at e.requested_at
    else if text_eq key (codes "updated_at")
    then stored_le d.updated_at e.updated_at
    else if text_eq key (codes "status")
    then text_leb (codes (status_name d.status)) (codes (status_name e.status))
    else if text_eq key (codes "course_code")
    then text_leb d.course_code e.course_code
    else if text_eq key (codes "waitlist_rank")
    then leb d.waitlist_rank e.waitlist_rank
    else id_le d e

abbrev pub enrollment_order : SortDirection → Text → Enrollment → Enrollment → Bool
enrollment_order direction key = ordered direction (column_le key) id_le

abbrev pub enrollment_sort_keys : List Text
enrollment_sort_keys =
    codes "requested_at"
    ∷ codes "updated_at"
    ∷ codes "status"
    ∷ codes "course_code"
    ∷ codes "waitlist_rank"
    ∷ codes "id"
    ∷ []

abbrev pub enrollments_query : EnrollmentFilter → Query Enrollment
enrollments_query filter = record {
  rows = λ db. db.enrollments;
  where_clause = passes filter;
  order = enrollment_order;
  sort_keys = enrollment_sort_keys;
  default_sort = codes "requested_at";
}

-- `ListEnrollments`
unfoldable pub list_enrollments : EnrollmentFilter → PageRequest → Tx (PageResult Enrollment)
list_enrollments filter request = listing (enrollments_query filter) request

-- status IN ('enrolled', 'waitlisted', 'completed')
abbrev pub on_roster : EnrollmentStatus → Bool
on_roster enrolled = true
on_roster waitlisted = true
on_roster completed = true
on_roster _ = false

abbrev roster_sort_keys : List Text
roster_sort_keys = codes "waitlist_rank" ∷ codes "requested_at" ∷ codes "status" ∷ codes "id" ∷ []

abbrev pub roster_query : ℕ → Query Enrollment
roster_query section_id = record {
  rows = λ db. db.enrollments;
  where_clause = λ e. e.section_id == section_id && on_roster e.status;
  order = enrollment_order;
  sort_keys = roster_sort_keys;
  default_sort = codes "requested_at";
}

-- `SectionRoster`
unfoldable pub section_roster : ℕ → PageRequest → Tx (PageResult Enrollment)
section_roster section_id request = listing (roster_query section_id) request

-- `FindActiveEnrollment`
unfoldable pub find_active_enrollment : ℕ → ℕ → Tx Enrollment
find_active_enrollment student_id section_id = do
  attempt "select active enrollment"
  or_not_found
      (← gets (λ db.
        find (λ e. e.student_id == student_id && (e.section_id == section_id && live e.status))
          db.enrollments))
