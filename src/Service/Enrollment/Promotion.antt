-- ===== src/Service/Enrollment/Promotion.antt =====
-- `PromoteWaitlist` of internal/service/enrollment.go.
use orientation_enrollment_p.Base.{
  ℕ, Bool, true, false, not, ◌||◌, Option, none, some, [], ◌==◌, if◌then◌else◌,
}
use orientation_enrollment_p.Base.Int.{negsuc}
use orientation_enrollment_p.Base.Text.{codes}
use orientation_enrollment_p.Base.Time.{Time}
use orientation_enrollment_p.Domain.Errors.{err, field_error}
use orientation_enrollment_p.Domain.Audit.{enrollment_promote, success, number}
use orientation_enrollment_p.Domain.Catalog.{Section, accepts_enrollment, seats_available}
use orientation_enrollment_p.Domain.Enrollment.{Enrollment, enrolled, transition}
use orientation_enrollment_p.Storage.Db.{Tx, pure, lift, ◌>>=◌, ◌>>◌}
use orientation_enrollment_p.Storage.Catalog.{
  find_section_by_id, claim_seat, adjust_waitlist_length,
}
use orientation_enrollment_p.Storage.Enrollments.{update_enrollment, head_of_waitlist}
use orientation_enrollment_p.Storage.Transactions.{in_tx, record_event}
use orientation_enrollment_p.Service.Rejections.{if_missing}

-- The head of the waitlist is seated.
unfoldable pub seat_head : Section → Enrollment → Time → Tx Bool
seat_head s head now = do
  claim_seat s.id s.version now
  moved ← lift (transition head enrolled now [])
  saved ← update_enrollment moved head.version
  adjust_waitlist_length s.id (negsuc 0) now
  record_event none enrollment_promote (codes "enrollment") (number saved.id) success
  pure true

abbrev pub seat_some : Section → Time → Option Enrollment → Tx Bool
seat_some s now none = pure false
seat_some s now (some head) = seat_head s head now

-- The body of the transaction of `PromoteWaitlist`.
unfoldable pub promote_once : ℕ → Time → Tx Bool
promote_once section_id now = do
  s ← find_section_by_id section_id
  if not (accepts_enrollment s) || (seats_available s == 0) then pure false else do
    head ← if_missing (head_of_waitlist section_id >>= λ e. pure (some e)) none
    seat_some s now head

-- `PromoteWaitlist`
unfoldable pub promote : ℕ → Tx Bool
promote section_id env db =
    if section_id == 0
    then (err (field_error "section_id" "must be a positive identifier"), db)
    else in_tx (promote_once section_id env.now) env db
