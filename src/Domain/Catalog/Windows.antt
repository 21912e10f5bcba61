-- ===== src/Domain/Catalog/Windows.antt =====
-- The two windows of a term, and the blocks that validation admits.
use orientation_enrollment_p.Base.{true, false, ◌≡◌, ◌↔◌, arith}
use orientation_enrollment_p.Base.Int.{pos, ◌≤ℤ◌}
use orientation_enrollment_p.Base.Time.{Time}
use orientation_enrollment_p.Domain.Errors.{ok}
use orientation_enrollment_p.Domain.Catalog.{
  Term, Meeting, validate_term, enrollment_open, drop_allowed, validate_meeting,
}

-- In a valid term, whoever may claim a seat may also drop it: the add/drop window opens with the
-- enrollment window and closes no earlier, and neither is open in an archived term.
pub enrollment_open-drop_allowed :
    (t : Term) (now : Time)
    → validate_term t ≡ ok tt
    → enrollment_open t now ≡ true
    → (drop_allowed t now ≡ true) × (t.archived ≡ false)
unfolding validate_term enrollment_open drop_allowed
enrollment_open-drop_allowed t now valid claimable = ground arith

-- Validation of a block admits exactly the non-empty intervals inside one day of the week.
pub validate_meeting_iff :
    (m : Meeting)
    → (validate_meeting m ≡ ok tt) ↔ (
        (pos 0 ≤ℤ m.weekday)
        × (m.weekday ≤ℤ pos 6)
        × (pos 0 ≤ℤ m.start_minute)
        × (¬ (m.end_minute ≤ℤ m.start_minute))
        × (m.end_minute ≤ℤ pos 1440))
unfolding validate_meeting
validate_meeting_iff m = ground arith
