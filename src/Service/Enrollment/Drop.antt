-- ===== src/Service/Enrollment/Drop.antt =====
-- `Drop` of internal/service/enrollment.go, with the promotion job that it enqueues.
use orientation_enrollment_p.Base.{ℕ, false, ◌&&◌, not, none, some, [], ltb, ◌==◌, if◌then◌else◌}
use orientation_enrollment_p.Base.Int.{pos, negsuc, ltb_ℤ}
use orientation_enrollment_p.Base.Text.{Text, codes}
use orientation_enrollment_p.Base.Time.{Time}
use orientation_enrollment_p.Domain.Errors.{
  Result, ok, err, sentinel, wrapped, field_error, Sentinel, window_closed,
}
use orientation_enrollment_p.Domain.Identity.{Principal, can_act_on_student, is_registrar_role}
use orientation_enrollment_p.Domain.Audit.{enrollment_drop, success, number}
use orientation_enrollment_p.Domain.Catalog.{Section, drop_allowed}
use orientation_enrollment_p.Domain.Enrollment.{
  Enrollment, EnrollmentStatus, dropped, withdrawn, holds_seat, transition, seat_delta,
}
use orientation_enrollment_p.Domain.Job.{Job, promote_waitlist, queued, max_job_attempts, section}
use orientation_enrollment_p.Storage.Db.{Db, Env, Tx, pure, lift, raise_if, ◌>>=◌, ◌>>◌}
use orientation_enrollment_p.Storage.Catalog.{
  find_term_by_id, find_section_by_id, release_seat, adjust_waitlist_length,
}
use orientation_enrollment_p.Storage.Enrollments.{
  update_enrollment, find_enrollment_by_id, is_waitlisted,
}
use orientation_enrollment_p.Storage.Jobs.{enqueue_job}
use orientation_enrollment_p.Storage.Transactions.{in_tx, record_event}
use orientation_enrollment_p.Service.Rejections.{record_rejection}

-- `enqueueWaitlistPromotion`
unfoldable pub enqueue_waitlist_promotion : ℕ → Time → Tx Job
enqueue_waitlist_promotion section_id now = enqueue_job (record {
  id = 0;
  kind = promote_waitlist;
  payload = section section_id;
  state = queued;
  attempts = 0;
  max_attempts = max_job_attempts;
  failed_before = false;
  run_after = now;
  locked_at = none;
  locked_by = [];
  created_at = now;
  updated_at = now;
})

abbrev pub drop_target : EnrollmentStatus → EnrollmentStatus
drop_target previous = if holds_seat previous then dropped else withdrawn

-- The seat of a dropped claim is given back, and offered to the waitlist where there is one.
unfoldable pub give_back : Section → Time → Tx (Unit {0})
give_back s now = do
  after ← release_seat s.id s.version now
  if ltb 0 after.waitlist_length then (enqueue_waitlist_promotion s.id now >> pure tt) else pure tt

-- The counters after a claim has left `previous`.
unfoldable pub settle_counters : Section → EnrollmentStatus → Time → Tx (Unit {0})
unfolding give_back
settle_counters s previous now = do
  if ltb_ℤ (seat_delta previous (drop_target previous)) (pos 0) then give_back s now else pure tt
  if is_waitlisted previous
      then (adjust_waitlist_length s.id (negsuc 0) now >> pure tt)
      else pure tt

-- The body of the transaction of `Drop`.
unfoldable pub drop_once : Principal → ℕ → Text → Time → Tx Enrollment
drop_once actor enrollment_id reason now = do
  current ← find_enrollment_by_id enrollment_id
  raise_if (not (can_act_on_student actor current.student_id))
      (wrapped (sentinel Sentinel.forbidden))
  term ← find_term_by_id current.term_id
  raise_if (not (is_registrar_role actor) && not (drop_allowed term now))
      (wrapped (sentinel window_closed))
  held_section ← find_section_by_id current.section_id
  moved ← lift (transition current (drop_target current.status) now reason)
  saved ← update_enrollment moved current.version
  settle_counters held_section current.status now
  record_event (some actor) enrollment_drop (codes "enrollment") (number saved.id) success
  pure saved

abbrev drop_or_reject : Principal → ℕ → Env → Result Enrollment × Db → Result Enrollment × Db
drop_or_reject actor id env (ok saved, db) = (ok saved, db)
drop_or_reject actor id env (err e, db) =
    (err e, record_rejection actor enrollment_drop "enrollment" id e env db)

-- `Drop`
unfoldable pub drop : Principal → ℕ → Text → Tx Enrollment
drop actor enrollment_id reason env db =
    if enrollment_id == 0
    then (err (field_error "enrollment_id" "must be a positive identifier"), db)
    else drop_or_reject actor enrollment_id env
        (in_tx (drop_once actor enrollment_id reason env.now) env db)
