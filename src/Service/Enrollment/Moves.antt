-- ===== src/Service/Enrollment/Moves.antt =====
-- A claim that changes its state, with the counters of its section: what drops and promotions share.
use orientation_enrollment_p.Base.{
  ℕ, Bool, ◌&&◌, ◌≡◌, refl, sym, subst, ◌+◌, ◌<◌, ◌≤◌, ◌==◌, some, arith, List, count, find, All,
  ==_refl,
}
use orientation_enrollment_p.Domain.Enrollment.{Enrollment, EnrollmentStatus, holds_seat}
use orientation_enrollment_p.Storage.Db.{Db, SectionRow, update_where}
use orientation_enrollment_p.Storage.Rows.{All-update_where}
use orientation_enrollment_p.Storage.Rows.Keys.{
  bit, count-update_where_one, count-update_where_same,
}
use orientation_enrollment_p.Storage.Catalog.{find_row}
use orientation_enrollment_p.Storage.Catalog.Counters.{WithinLimits}
use orientation_enrollment_p.Storage.Enrollments.{
  is_waitlisted, waits_in, at_version, with_lifecycle,
}
use orientation_enrollment_p.Storage.Consistency.{Consistent, seated_in}

-- The counters of section `k` after a claim on section `id` went from one state to another.
pub record Counted (id : ℕ) (from to : EnrollmentStatus) (rows : List SectionRow) (k : ℕ)
    (after : SectionRow) : Type 0 where
  pub before : SectionRow
  pub found : find_row k rows ≡ some before
  pub seats :
      after.seats_taken + bit ((id == k) && holds_seat from)
      ≡ before.seats_taken + bit ((id == k) && holds_seat to)
  pub waits :
      after.waitlist_length + bit ((id == k) && is_waitlisted from)
      ≡ before.waitlist_length + bit ((id == k) && is_waitlisted to)

-- The claim `x` took over the lifecycle of `c`, and the sections count it.
pub record Moved (x c : Enrollment) (db after : Db) : Type 0 where
  pub found : find (λ r. r.id == x.id) db.enrollments ≡ some x
  pub enrollments :
      after.enrollments ≡ update_where (at_version x.id x.version) (with_lifecycle c) db.enrollments
  pub next_id : after.next_enrollment_id ≡ db.next_enrollment_id
  pub one_section : (k : ℕ) → count (λ r. r.id == k) after.sections ≤ 1
  pub limits : All WithinLimits after.sections
  pub counted :
      (k : ℕ) (r : SectionRow)
      → find_row k after.sections ≡ some r
      → Counted x.section_id x.status c.status db.sections k r

module _ (x c : Enrollment) (db after : Db) (fine : Consistent db)
    (moved : Moved x c db after) where
  share_moved :
      (p : Enrollment → Bool)
      → count p after.enrollments + bit (p x)
        ≡ count p db.enrollments + bit (p (with_lifecycle c x))
  share_moved p = rw moved.enrollments (
      count-update_where_one (λ r. r.id == x.id) (at_version x.id x.version) p (with_lifecycle c)
        db.enrollments {x = x} (λ r e. ground arith) (fine.one_enrollment x.id) moved.found
        (rw (==_refl x.id, ==_refl x.version) refl))

  pub Moved-Consistent : Consistent after
  Moved-Consistent = record {
    one_section = moved.one_section;
    one_enrollment = λ k.
        let e =
          count-update_where_same (at_version x.id x.version) (λ r. r.id == k) (with_lifecycle c)
            db.enrollments (λ r. refl) in
        rw moved.enrollments (omega (arith, e, fine.one_enrollment k));
    fresh =
        subst (λ n. All (λ e. e.id < n) after.enrollments) (sym moved.next_id)
          (rw moved.enrollments (
            All-update_where (λ e. e.id < db.next_enrollment_id) _ (with_lifecycle c) db.enrollments
              (λ r h e. h) fine.fresh));
    limits = moved.limits;
    seats = λ k r found.
        let step = moved.counted k r found in
        omega (arith, step.seats, share_moved (seated_in k), fine.seats k step.before step.found);
    waitlist = λ k r found.
        let step = moved.counted k r found in
        omega (arith, step.waits, share_moved (waits_in k), fine.waitlist k step.before step.found);
  }
