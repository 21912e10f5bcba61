-- ===== src/Domain/Catalog.antt =====
-- internal/domain/catalog.go: terms, courses, weekly meetings and sections. Minutes and weekdays
-- are integers, since the checks tell negative values from 0.
pub mod Windows
pub mod Schedule
pub mod Display
use orientation_enrollment_p.Base.{
  ℕ, String, Bool, true, false, ◌||◌, ◌&&◌, not, ◌+◌, ◌-◌, ◌*◌, Option, none, some, List, [], ◌∷◌,
  ltb, leb, ◌==◌, if◌then◌else◌,
}
use orientation_enrollment_p.Base.Int.{ℤ, pos, ltb_ℤ, leb_ℤ, eqb_ℤ}
use orientation_enrollment_p.Base.Text.{Text, is_empty, trim_space}
use orientation_enrollment_p.Base.Time.{Time, before}
use orientation_enrollment_p.Domain.Errors.{Result, ok, err, field_error, ◌>>◌, fail_if}

pub record Term : Type 0 where
  pub id : ℕ
  pub code : Text
  pub name : Text
  pub enrollment_opens_at : Time
  pub enrollment_closes_at : Time
  pub add_drop_closes_at : Time
  pub credit_limit : ℕ
  pub archived : Bool

-- `Term.Validate`
unfoldable pub validate_term : Term → Result (Unit {0})
validate_term t = do
  fail_if (is_empty (trim_space t.code)) (field_error "term.code" "must not be empty")
  fail_if (t.credit_limit == 0) (field_error "term.credit_limit" "must be positive")
  fail_if (not (before t.enrollment_opens_at t.enrollment_closes_at))
      (field_error "term.enrollment_closes_at" "must be after enrollment_opens_at")
  fail_if (before t.add_drop_closes_at t.enrollment_closes_at)
      (field_error "term.add_drop_closes_at" "must not be before enrollment_closes_at")

unfoldable pub enrollment_open : Term → Time → Bool
enrollment_open t now =
    if t.archived
    then false
    else not (before now t.enrollment_opens_at) && before now t.enrollment_closes_at

unfoldable pub drop_allowed : Term → Time → Bool
drop_allowed t now =
    if t.archived
    then false
    else not (before now t.enrollment_opens_at) && before now t.add_drop_closes_at

pub record Course : Type 0 where
  pub id : ℕ
  pub code : Text
  pub title : Text
  pub credits : ℕ
  pub department : Text
  pub prerequisites : List Text
  pub retired : Bool

-- `Course.Validate`
unfoldable pub validate_course : Course → Result (Unit {0})
validate_course c = do
  fail_if (is_empty (trim_space c.code)) (field_error "course.code" "must not be empty")
  fail_if ((c.credits == 0) || ltb 12 c.credits)
      (field_error "course.credits" "must be between 1 and 12")

-- Sunday is 0 and Saturday is 6.
unfoldable pub weekday_valid : ℤ → Bool
weekday_valid w = leb_ℤ (pos 0) w && leb_ℤ w (pos 6)

pub record Meeting : Type 0 where
  pub id : ℕ
  pub section_id : ℕ
  pub weekday : ℤ
  pub start_minute : ℤ
  pub end_minute : ℤ
  pub room : Text

-- `Meeting.Validate`
unfoldable pub validate_meeting : Meeting → Result (Unit {0})
unfolding weekday_valid
validate_meeting m = do
  fail_if (not (weekday_valid m.weekday)) (field_error "meeting.weekday" "must be between 0 and 6")
  fail_if (ltb_ℤ m.start_minute (pos 0) || leb_ℤ (pos (24 * 60)) m.start_minute)
      (field_error "meeting.start_minute" "must be within a single day")
  fail_if (leb_ℤ m.end_minute m.start_minute || ltb_ℤ (pos (24 * 60)) m.end_minute)
      (field_error "meeting.end_minute" "must be after start_minute and within a single day")

unfoldable pub overlaps : Meeting → Meeting → Bool
overlaps m other =
    if not (eqb_ℤ m.weekday other.weekday)
    then false
    else ltb_ℤ m.start_minute other.end_minute && ltb_ℤ other.start_minute m.end_minute

pub data SectionStatus : Type 0 where
  draft opened closed cancelled : SectionStatus

abbrev pub is_open : SectionStatus → Bool
is_open opened = true
is_open _ = false

-- The counters are columns that the schema keeps from going below 0.
pub record Section : Type 0 where
  pub id : ℕ
  pub term_id : ℕ
  pub course_id : ℕ
  pub course_code : Text
  pub course_credits : ℕ
  pub code : Text
  pub status : SectionStatus
  pub capacity : ℕ
  pub seats_taken : ℕ
  pub waitlist_limit : ℕ
  pub waitlist_length : ℕ
  pub instructor : Text
  pub version : ℕ
  pub meetings : List Meeting
  pub updated_at : Time

-- A difference below 0 is cut to 0, as `-` on the naturals does.
unfoldable pub seats_available : Section → ℕ
seats_available s = s.capacity - s.seats_taken

unfoldable pub accepts_enrollment : Section → Bool
accepts_enrollment s = is_open s.status

-- The inner loop of `FindScheduleConflict`.
unfoldable pub first_overlap : Meeting → List Meeting → Option (Meeting × Meeting)
first_overlap c [] = none
first_overlap c (h ∷ held) = if overlaps c h then some (c, h) else first_overlap c held

-- `FindScheduleConflict`, with `none` for a third result of false.
unfoldable pub find_schedule_conflict : List Meeting → List Meeting → Option (Meeting × Meeting)
unfolding first_overlap
find_schedule_conflict [] held = none
find_schedule_conflict (c ∷ candidate) held =
    let rest = find_schedule_conflict candidate held in
    elim (first_overlap c held) [ none ↦ rest | some pair ↦ some pair ]

abbrev pub section_status_name : SectionStatus → String
section_status_name draft = "draft"
section_status_name opened = "open"
section_status_name closed = "closed"
section_status_name cancelled = "cancelled"
