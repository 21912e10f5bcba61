-- ===== src/Storage/Catalog.antt =====
-- internal/storage/sqlite/catalog.go: the statements on terms and sections.
pub mod Contracts
pub mod Counters
pub mod Versions
pub mod Listing
use orientation_enrollment_p.Base.{
  ℕ, String, Bool, true, false, ◌&&◌, not, ◌+◌, ◌-◌, Option, none, some, List, [], ◌∷◌, ◌++◌, ltb,
  leb, ◌==◌, ◌||◌, find, keep, count, if◌then◌else◌,
}
use orientation_enrollment_p.Base.Int.{ℤ, pos, ◌+ℤ◌, leb_ℤ, ltb_ℤ, eqb_ℤ, pos_part}
use orientation_enrollment_p.Base.Sort.{order_by}
use orientation_enrollment_p.Base.Text.{Text, codes}
use orientation_enrollment_p.Base.Time.{Time}
use orientation_enrollment_p.Domain.Errors.{
  sentinel, wrapped, conflict_error, version_conflict, conflict, capacity_exhausted, waitlist_full,
}
use orientation_enrollment_p.Domain.Catalog.{
  Term, Course, Meeting, Section, is_open, accepts_enrollment, section_status_name,
}
use orientation_enrollment_p.Storage.Db.{
  Db, SectionRow, Tx, pure, raise, gets, or_not_found, ◌>>=◌, ◌>>◌, modify, raise_if, attempt,
  update_where,
}

unfoldable pub find_term_by_id : ℕ → Tx Term
unfolding attempt
find_term_by_id id = do
  attempt "select term"
  or_not_found (← gets (λ db. find (λ t. t.id == id) db.terms))

-- A course without a row has no prerequisites.
abbrev prerequisites_of : Option Course → List Text
prerequisites_of none = []
prerequisites_of (some c) = c.prerequisites

unfoldable pub course_prerequisites : ℕ → Tx (List Text)
unfolding attempt
course_prerequisites course_id = do
  attempt "select prerequisites"
  gets (λ db. prerequisites_of (find (λ c. c.id == course_id) db.courses))

-- ORDER BY weekday, start_minute
abbrev pub meeting_le : Meeting → Meeting → Bool
meeting_le m n =
    ltb_ℤ m.weekday n.weekday || (eqb_ℤ m.weekday n.weekday && leb_ℤ m.start_minute n.start_minute)

-- `SectionMeetings` of one section.
unfoldable pub section_meetings : ℕ → Tx (List Meeting)
unfolding attempt
section_meetings section_id = do
  attempt "select meetings"
  gets (λ db. order_by meeting_le (keep (λ m. m.section_id == section_id) db.meetings))

-- The joined row of `sectionSelect` with its blocks.
abbrev pub assemble : SectionRow → Course → List Meeting → Section
assemble r c meetings = record {
  id = r.id;
  term_id = r.term_id;
  course_id = r.course_id;
  course_code = c.code;
  course_credits = c.credits;
  code = r.code;
  status = r.status;
  capacity = r.capacity;
  seats_taken = r.seats_taken;
  waitlist_limit = r.waitlist_limit;
  waitlist_length = r.waitlist_length;
  instructor = r.instructor;
  version = r.version;
  meetings = meetings;
  updated_at = r.updated_at;
}

abbrev pub find_row : ℕ → List SectionRow → Option SectionRow
find_row id = find (λ r. r.id == id)

-- `FindSectionByID`, which `FindSectionForUpdate` calls; the join drops a row without its course.
unfoldable pub find_section_by_id : ℕ → Tx Section
unfolding attempt section_meetings
find_section_by_id id = do
  attempt "select section"
  r ← or_not_found (← gets (λ db. find_row id db.sections))
  c ← or_not_found (← gets (λ db. find (λ c. c.id == r.course_id) db.courses))
  meetings ← section_meetings r.id
  pure (assemble r c meetings)

-- The UPDATE on the row that passes the test.
abbrev pub update_sections : (SectionRow → Bool) → (SectionRow → SectionRow) → Db → Db
update_sections test change db = record db { sections = update_where test change db.sections }

-- `explainSeatFailure`
unfoldable pub explain_seat_failure : ℕ → ℕ → Tx Section
explain_seat_failure section_id expected_version = do
  current ← find_section_by_id section_id
  raise_if (not (current.version == expected_version)) (wrapped (sentinel version_conflict))
  raise_if (not (accepts_enrollment current)) (
      conflict_error (sentinel conflict) (codes "section " ++ current.code)
        (codes "status " ++ codes (section_status_name current.status)))
  raise (wrapped (sentinel capacity_exhausted))

-- WHERE id = ? AND version = ? AND status = 'open' AND seats_taken < capacity
abbrev pub claimable : ℕ → ℕ → SectionRow → Bool
claimable section_id version r =
    r.id == section_id
    && (r.version == version && (is_open r.status && ltb r.seats_taken r.capacity))

abbrev pub with_seat : Time → SectionRow → SectionRow
with_seat at r = record r {
  seats_taken = r.seats_taken + 1;
  version = r.version + 1;
  updated_at = at;
}

unfoldable pub claim_seat : ℕ → ℕ → Time → Tx Section
unfolding attempt
claim_seat section_id expected_version at = do
  attempt "claim seat"
  affected ← gets (λ db. count (claimable section_id expected_version) db.sections)
  modify (update_sections (claimable section_id expected_version) (with_seat at))
  if affected == 0
      then explain_seat_failure section_id expected_version
      else find_section_by_id section_id

-- WHERE id = ? AND version = ? AND seats_taken > 0
abbrev pub releasable : ℕ → ℕ → SectionRow → Bool
releasable section_id version r =
    r.id == section_id && (r.version == version && ltb 0 r.seats_taken)

abbrev pub without_seat : Time → SectionRow → SectionRow
without_seat at r = record r {
  seats_taken = r.seats_taken - 1;
  version = r.version + 1;
  updated_at = at;
}

-- Why no row was released.
abbrev explain_release_failure : ℕ → ℕ → Tx Section
explain_release_failure section_id expected_version = do
  current ← find_section_by_id section_id
  raise_if (not (current.version == expected_version)) (wrapped (sentinel version_conflict))
  raise (wrapped (sentinel conflict))

unfoldable pub release_seat : ℕ → ℕ → Time → Tx Section
unfolding attempt
release_seat section_id expected_version at = do
  attempt "release seat"
  affected ← gets (λ db. count (releasable section_id expected_version) db.sections)
  modify (update_sections (releasable section_id expected_version) (without_seat at))
  if affected == 0
      then explain_release_failure section_id expected_version
      else find_section_by_id section_id

-- WHERE id = ? AND waitlist_length + ? >= 0 AND waitlist_length + ? <= waitlist_limit
abbrev pub adjustable : ℕ → ℤ → SectionRow → Bool
adjustable section_id delta r =
    r.id == section_id
    && (leb_ℤ (pos 0) (pos r.waitlist_length +ℤ delta)
        && leb_ℤ (pos r.waitlist_length +ℤ delta) (pos r.waitlist_limit))

-- The new length is not negative in a row that passes the test.
abbrev pub with_length : ℤ → Time → SectionRow → SectionRow
with_length delta at r = record r {
  waitlist_length = pos_part (pos r.waitlist_length +ℤ delta);
  version = r.version + 1;
  updated_at = at;
}

unfoldable pub adjust_waitlist_length : ℕ → ℤ → Time → Tx Section
unfolding attempt
adjust_waitlist_length section_id delta at =
    if eqb_ℤ delta (pos 0) then find_section_by_id section_id else do
      attempt "adjust waitlist"
      affected ← gets (λ db. count (adjustable section_id delta) db.sections)
      modify (update_sections (adjustable section_id delta) (with_length delta at))
      if affected == 0
          then raise (wrapped (sentinel waitlist_full))
          else find_section_by_id section_id
