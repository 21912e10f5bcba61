-- ===== src/Storage/Registrations.antt =====
-- internal/storage/sqlite/registrations.go: the statements on orientation records.
pub mod Listing
use orientation_enrollment_p.Base.{
  ℕ, Bool, true, false, ◌&&◌, ◌||◌, ◌+◌, List, ◌∷◌, suc, ◌==◌, find, keep, any, count,
  if◌then◌else◌,
}
use orientation_enrollment_p.Base.Sort.{order_by}
use orientation_enrollment_p.Domain.Errors.{
  sentinel, wrapped, field_error, conflict, version_conflict,
}
use orientation_enrollment_p.Domain.Registration.{Registration, AcademicRecord}
use orientation_enrollment_p.Storage.Timestamps.{stored_le, text_leb}
use orientation_enrollment_p.Storage.Db.{
  Db, Tx, pure, gets, or_not_found, ◌>>=◌, ◌>>◌, modify, raise_if, attempt, update_where,
}

-- UNIQUE (student_id, term_id)
abbrev pub same_record : Registration → Registration → Bool
same_record r s = s.student_id == r.student_id && s.term_id == r.term_id

abbrev pub insert_registration : Registration → Db → Db
insert_registration r db = record db {
  registrations = r ∷ db.registrations;
  next_registration_id = suc db.next_registration_id;
}

-- WHERE id = ? AND version = ?
abbrev pub at_version : Registration → Registration → Bool
at_version r s = s.id == r.id && s.version == r.version

-- The columns that the UPDATE sets.
abbrev pub with_record : Registration → Registration → Registration
with_record r s = record s {
  status = r.status;
  program_code = r.program_code;
  advisor_email = r.advisor_email;
  dorm_preference = r.dorm_preference;
  submitted_at = r.submitted_at;
  decided_at = r.decided_at;
  decided_by_user_id = r.decided_by_user_id;
  decision_note = r.decision_note;
  version = s.version + 1;
  updated_at = r.updated_at;
}

abbrev pub update_registrations : Registration → Db → Db
update_registrations r db = record db {
  registrations = update_where (at_version r) (with_record r) db.registrations;
}

-- The INSERT of `UpsertRegistration`.
abbrev pub create_registration : Registration → Tx Registration
create_registration r = do
  attempt "insert registration"
  taken ← gets (λ db. any (same_record r) db.registrations)
  raise_if taken (wrapped (sentinel conflict))
  id ← gets (λ db. db.next_registration_id)
  let created = record r { id = id; version = 1 }
  modify (insert_registration created)
  pure created

-- Its UPDATE.
abbrev pub replace_registration : Registration → Tx Registration
replace_registration r = do
  attempt "update registration"
  affected ← gets (λ db. count (at_version r) db.registrations)
  modify (update_registrations r)
  raise_if (affected == 0) (wrapped (sentinel version_conflict))
  pure (record r { version = r.version + 1 })

unfoldable pub upsert_registration : Registration → Tx Registration
unfolding attempt update_where
upsert_registration r = do
  raise_if ((r.student_id == 0) || (r.term_id == 0))
      (field_error "registration" "student and term are required")
  if r.id == 0 then create_registration r else replace_registration r

unfoldable pub find_registration : ℕ → ℕ → Tx Registration
unfolding attempt
find_registration student_id term_id = do
  attempt "select registration"
  or_not_found
      (← gets
        (λ db. find (λ r. r.student_id == student_id && r.term_id == term_id) db.registrations))

unfoldable pub find_registration_by_id : ℕ → Tx Registration
unfolding attempt
find_registration_by_id id = do
  attempt "select registration"
  or_not_found (← gets (λ db. find (λ r. r.id == id) db.registrations))

-- ORDER BY completed_at, course_code
abbrev record_le : AcademicRecord → AcademicRecord → Bool
record_le a b =
    if stored_le a.completed_at b.completed_at
    then (if stored_le b.completed_at a.completed_at
        then text_leb a.course_code b.course_code
        else true)
    else false

unfoldable pub student_academic_records : ℕ → Tx (List AcademicRecord)
unfolding attempt
student_academic_records student_id = do
  attempt "select academic records"
  gets (λ db. order_by record_le (keep (λ a. a.student_id == student_id) db.academic_records))
