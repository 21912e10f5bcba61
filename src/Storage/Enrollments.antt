-- ===== src/Storage/Enrollments.antt =====
-- internal/storage/sqlite/enrollments.go: the statements on seat claims.
pub mod Contracts
pub mod Waitlist
pub mod Listing
use orientation_enrollment_p.Base.{
  ℕ, first_of, String, Bool, true, false, ◌&&◌, ◌||◌, ◌+◌, Option, none, some, List, [], ◌∷◌, ◌++◌,
  suc, ltb, leb, ◌==◌, find, keep, any, count, if◌then◌else◌,
}
use orientation_enrollment_p.Base.Int.{ltb_ℤ, leb_ℤ, eqb_ℤ}
use orientation_enrollment_p.Base.Sort.{order_by}
use orientation_enrollment_p.Base.Time.{Time}
use orientation_enrollment_p.Domain.Errors.{
  sentinel, wrapped, duplicate_enrollment, version_conflict,
}
use orientation_enrollment_p.Domain.Catalog.{Meeting}
use orientation_enrollment_p.Domain.Enrollment.{
  EnrollmentStatus, Enrollment, pending, enrolled, waitlisted, completed, dropped, withdrawn,
  active,
}
use orientation_enrollment_p.Storage.Timestamps.{stored_le}
use orientation_enrollment_p.Storage.Db.{
  Db, Tx, pure, raise, gets, or_not_found, ◌>>=◌, ◌>>◌, modify, raise_if, attempt, update_where,
}

-- status IN ('pending', 'enrolled', 'waitlisted', 'completed')
abbrev pub live : EnrollmentStatus → Bool
live dropped = false
live withdrawn = false
live _ = true

-- The row that the partial unique index `ux_enrollments_active_seat` keeps from being inserted.
abbrev pub same_claim : Enrollment → Enrollment → Bool
same_claim e r =
    live e.status
    && (live r.status && (r.student_id == e.student_id && r.section_id == e.section_id))

abbrev pub insert_enrollment : Enrollment → Db → Db
insert_enrollment e db = record db {
  enrollments = e ∷ db.enrollments;
  next_enrollment_id = suc db.next_enrollment_id;
}

-- `CreateEnrollment`
unfoldable pub create_enrollment : Enrollment → Tx Enrollment
unfolding attempt
create_enrollment e = do
  attempt "insert enrollment"
  taken ← gets (λ db. any (same_claim e) db.enrollments)
  raise_if taken (wrapped (sentinel duplicate_enrollment))
  id ← gets (λ db. db.next_enrollment_id)
  let created = record e { id = id; version = 1 }
  modify (insert_enrollment created)
  pure created

-- WHERE id = ? AND version = ?
abbrev pub at_version : ℕ → ℕ → Enrollment → Bool
at_version id version r = r.id == id && r.version == version

-- The columns that the UPDATE sets.
abbrev pub with_lifecycle : Enrollment → Enrollment → Enrollment
with_lifecycle e r = record r {
  status = e.status;
  waitlist_rank = e.waitlist_rank;
  decided_at = e.decided_at;
  released_at = e.released_at;
  release_reason = e.release_reason;
  version = r.version + 1;
  updated_at = e.updated_at;
}

abbrev pub update_enrollments : (Enrollment → Bool) → (Enrollment → Enrollment) → Db → Db
update_enrollments test change db = record db {
  enrollments = update_where test change db.enrollments;
}

-- `UpdateEnrollment`
unfoldable pub update_enrollment : Enrollment → ℕ → Tx Enrollment
unfolding attempt update_where
update_enrollment e expected_version = do
  attempt "update enrollment"
  affected ← gets (λ db. count (at_version e.id expected_version) db.enrollments)
  modify (update_enrollments (at_version e.id expected_version) (with_lifecycle e))
  raise_if (affected == 0) (wrapped (sentinel version_conflict))
  pure (record e { version = expected_version + 1 })

unfoldable pub find_enrollment_by_id : ℕ → Tx Enrollment
unfolding attempt
find_enrollment_by_id id = do
  attempt "select enrollment"
  or_not_found (← gets (λ db. find (λ e. e.id == id) db.enrollments))

-- ORDER BY requested_at, id
abbrev request_le : Enrollment → Enrollment → Bool
request_le d e =
    if stored_le d.requested_at e.requested_at
    then (if stored_le e.requested_at d.requested_at then leb d.id e.id else true)
    else false

abbrev in_plan : ℕ → ℕ → Enrollment → Bool
in_plan student_id term_id e =
    e.student_id == student_id && (e.term_id == term_id && active e.status)

-- `ActiveEnrollmentsForStudent`
unfoldable pub active_enrollments_for_student : ℕ → ℕ → Tx (List Enrollment)
unfolding attempt
active_enrollments_for_student student_id term_id = do
  attempt "select active enrollments"
  gets (λ db. order_by request_le (keep (in_plan student_id term_id) db.enrollments))

-- ORDER BY weekday, start_minute, id
abbrev meeting_le : Meeting → Meeting → Bool
meeting_le m n =
    ltb_ℤ m.weekday n.weekday
    || (eqb_ℤ m.weekday n.weekday
        && (ltb_ℤ m.start_minute n.start_minute
            || (eqb_ℤ m.start_minute n.start_minute && leb m.id n.id)))

-- The join of section_meetings with the given claims.
unfoldable pub meetings_of : List Meeting → List Enrollment → List Meeting
meetings_of meetings [] = []
meetings_of meetings (e ∷ claims) =
    keep (λ m. m.section_id == e.section_id) meetings ++ meetings_of meetings claims

-- `ActiveMeetingsForStudent`
unfoldable pub active_meetings_for_student : ℕ → ℕ → Tx (List Meeting)
unfolding attempt meetings_of
active_meetings_for_student student_id term_id = do
  attempt "select held meetings"
  gets (λ db.
      order_by meeting_le
        (meetings_of db.meetings (keep (in_plan student_id term_id) db.enrollments)))

abbrev pub is_waitlisted : EnrollmentStatus → Bool
is_waitlisted waitlisted = true
is_waitlisted _ = false

-- WHERE section_id = ? AND status = 'waitlisted'
abbrev pub waits_in : ℕ → Enrollment → Bool
waits_in section_id e = e.section_id == section_id && is_waitlisted e.status

-- MAX(waitlist_rank), 0 over no rows: `NextWaitlistRank` answers 1 there, as for a MAX of 0.
unfoldable pub highest_rank : List Enrollment → ℕ
highest_rank [] = 0
highest_rank (e ∷ es) =
    let rest = highest_rank es in if ltb rest e.waitlist_rank then e.waitlist_rank else rest

unfoldable pub next_waitlist_rank : ℕ → Tx ℕ
unfolding attempt highest_rank
next_waitlist_rank section_id = do
  attempt "select highest rank"
  gets (λ db. highest_rank (keep (waits_in section_id) db.enrollments) + 1)

-- ORDER BY waitlist_rank, requested_at, id
abbrev pub waitlist_le : Enrollment → Enrollment → Bool
waitlist_le d e =
    ltb d.waitlist_rank e.waitlist_rank || (d.waitlist_rank == e.waitlist_rank && request_le d e)

-- `HeadOfWaitlist`
unfoldable pub head_of_waitlist : ℕ → Tx Enrollment
unfolding attempt
head_of_waitlist section_id = do
  attempt "select waitlist head"
  or_not_found
      (← gets (λ db. first_of (order_by waitlist_le (keep (waits_in section_id) db.enrollments))))
