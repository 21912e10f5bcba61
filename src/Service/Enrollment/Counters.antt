-- ===== src/Service/Enrollment/Counters.antt =====
-- The statements that a drop and a promotion make on the counters of a section.
use orientation_enrollment_p.Base.{
  ℕ, Bool, true, ◌≡◌, refl, sym, ◌∙◌, ap, ◌≢◌, ◌+◌, ◌≤◌, ◌==◌, inl, inr, some, arith, count, All,
  Bool-cases,
}
use orientation_enrollment_p.Base.Int.{negsuc, ◌+ℤ◌}
use orientation_enrollment_p.Base.Time.{Time}
use orientation_enrollment_p.Domain.Errors.{ok}
use orientation_enrollment_p.Domain.Catalog.{Section}
use orientation_enrollment_p.Domain.Enrollment.{
  EnrollmentStatus, holds_seat, pending, enrolled, waitlisted, dropped, withdrawn,
}
use orientation_enrollment_p.Storage.Db.{Db, Env, SectionRow}
use orientation_enrollment_p.Storage.Rows.{All-update_where}
use orientation_enrollment_p.Storage.Rows.Keys.{bit}
use orientation_enrollment_p.Storage.Catalog.{
  find_row, claim_seat, release_seat, adjust_waitlist_length, claimable, with_seat, releasable,
  without_seat, adjustable, with_length, update_sections,
}
use orientation_enrollment_p.Storage.Catalog.Contracts.{
  claim_seat-ok, claim_seat-counted, release_seat-ok, release_seat-counted,
  adjust_waitlist_length-ok, adjust_waitlist_length-counted,
}
use orientation_enrollment_p.Storage.Catalog.Counters.{WithinLimits}
use orientation_enrollment_p.Storage.Transactions.Records.{SameSeats}
use orientation_enrollment_p.Storage.Enrollments.{is_waitlisted}
use orientation_enrollment_p.Storage.Consistency.Steps.{row_step, one_step}
use orientation_enrollment_p.Service.Enrollment.Moves.{Counted}

-- The sections after a claim went from one state to another; the claims are as they were.
pub record Settled (id : ℕ) (from to : EnrollmentStatus) (db after : Db) : Type 0 where
  pub enrollments : after.enrollments ≡ db.enrollments
  pub next_id : after.next_enrollment_id ≡ db.next_enrollment_id
  pub one_section : (k : ℕ) → count (λ r. r.id == k) after.sections ≤ 1
  pub limits : All WithinLimits after.sections
  pub counted :
      (k : ℕ) (r : SectionRow)
      → find_row k after.sections ≡ some r
      → Counted id from to db.sections k r

-- The tables' share of the invariant that the statements on sections need.
pub record Sound (db : Db) : Type 0 where
  pub one_section : (k : ℕ) → count (λ r. r.id == k) db.sections ≤ 1
  pub limits : All WithinLimits db.sections

-- One statement that moves the counters of a section by what the two states hold.
module _ (id : ℕ) (from to : EnrollmentStatus) (test : SectionRow → Bool)
    (change : SectionRow → SectionRow)
    (narrower : (r : SectionRow) → test r ≡ true → (r.id == id) ≡ true)
    (keeps : (r : SectionRow) → (change r).id ≡ r.id)
    (within : (r : SectionRow) → WithinLimits r → test r ≡ true → WithinLimits (change r))
    (seats : (r : SectionRow)
      → test r ≡ true
      → (change r).seats_taken + bit (holds_seat from) ≡ r.seats_taken + bit (holds_seat to))
    (waits : (r : SectionRow)
      → test r ≡ true
      → (change r).waitlist_length + bit (is_waitlisted from)
        ≡ r.waitlist_length + bit (is_waitlisted to))
    (db : Db) (sound : Sound db) (some_pass : count test db.sections ≢ 0) where
  statement-Settled : Settled id from to db (update_sections test change db)
  statement-Settled = record {
    enrollments = refl;
    next_id = refl;
    one_section = one_step id test change narrower keeps db.sections sound.one_section;
    limits = All-update_where WithinLimits test change db.sections within sound.limits;
    counted = λ k r found.
        let step =
          row_step id test change narrower keeps db.sections sound.one_section some_pass k r
            found in
        record {
          before = step.before;
          found = step.found;
          seats = elim step.moved [
            | inl (same, passes, changed) ↦ ground (arith, seats step.before)
            | inr (other, unchanged) ↦ ground arith
          ];
          waits = elim step.moved [
            | inl (same, passes, changed) ↦ ground (arith, waits step.before)
            | inr (other, unchanged) ↦ ground arith
          ];
        };
  }

-- The rest of the body leaves the seats alone.
pub Settled-SameSeats :
    (id : ℕ) (from to : EnrollmentStatus) (db between after : Db)
    → Settled id from to db between
    → SameSeats between after
    → Settled id from to db after
Settled-SameSeats id from to db between after s same = record {
  enrollments = same.enrollments ∙ s.enrollments;
  next_id = same.next_enrollment_id ∙ s.next_id;
  one_section = λ k. rw same.sections (s.one_section k);
  limits = rw same.sections s.limits;
  counted = λ k r found. s.counted k r (sym (ap (λ rows. find_row k rows) same.sections) ∙ found);
}

pub nothing-Settled :
    (id : ℕ) (from to : EnrollmentStatus) (db : Db)
    → bit (holds_seat from) ≡ bit (holds_seat to)
    → bit (is_waitlisted from) ≡ bit (is_waitlisted to)
    → Sound db
    → Settled id from to db db
nothing-Settled id from to db seats waits sound = record {
  enrollments = refl;
  next_id = refl;
  one_section = sound.one_section;
  limits = sound.limits;
  counted = λ k r found. record {
    before = r;
    found = found;
    seats = elim (Bool-cases (id == k)) [ inl same ↦ ground arith | inr other ↦ ground arith ];
    waits = elim (Bool-cases (id == k)) [ inl same ↦ ground arith | inr other ↦ ground arith ];
  };
}

pub release-Settled :
    (id version : ℕ) (at : Time) (env : Env) (db after : Db) {s : Section}
    → Sound db
    → release_seat id version at env db ≡ (ok s, after)
    → Settled id enrolled dropped db after
unfolding holds_seat
release-Settled id version at env db after {s} sound h =
    rw (release_seat-ok id version at env db after {s = s} h).0 (
      statement-Settled id enrolled dropped (releasable id version) (without_seat at)
        (λ r e. ground arith) (λ r. refl) (λ r w e. ground arith) (λ r e. ground arith)
        (λ r e. refl) db sound (release_seat-counted id version at env db after {s = s} h))

pub leave-Settled :
    (id : ℕ) (at : Time) (env : Env) (db after : Db) {s : Section}
    → Sound db
    → adjust_waitlist_length id (negsuc 0) at env db ≡ (ok s, after)
    → Settled id waitlisted withdrawn db after
unfolding holds_seat ◌+ℤ◌
leave-Settled id at env db after {s} sound h =
    rw (adjust_waitlist_length-ok id (negsuc 0) at env db after {s = s} refl h) (
      statement-Settled id waitlisted withdrawn (adjustable id (negsuc 0))
        (with_length (negsuc 0) at) (λ r e. ground arith) (λ r. refl) (λ r w e. ground arith)
        (λ r e. refl) (λ r e. ground arith) db sound
        (adjust_waitlist_length-counted id (negsuc 0) at env db after {s = s} refl h))

-- A seat on top of the states: a claimed seat counts one more.
pub take-Settled :
    (id version : ℕ) (at : Time) (env : Env) (db after : Db) {s : Section}
    → Sound db
    → claim_seat id version at env db ≡ (ok s, after)
    → Settled id pending enrolled db after
unfolding holds_seat
take-Settled id version at env db after {s} sound h =
    rw (claim_seat-ok id version at env db after {s = s} h).0 (
      statement-Settled id pending enrolled (claimable id version) (with_seat at)
        (λ r e. ground arith) (λ r. refl) (λ r w e. ground arith) (λ r e. omega arith) (λ r e. refl)
        db sound (claim_seat-counted id version at env db after {s = s} h))

-- A promotion's two statements together, with the claim's own update between them.
pub promote-Counted :
    (id : ℕ) (db between middle after : Db)
    → Settled id pending enrolled db between
    → middle.sections ≡ between.sections
    → Settled id waitlisted withdrawn middle after
    → (k : ℕ) (r : SectionRow) → find_row k after.sections ≡ some r
    → Counted id waitlisted enrolled db.sections k r
unfolding holds_seat
promote-Counted id db between middle after taken same left k r found =
    let second = left.counted k r found in
    let first =
      taken.counted k second.before (sym (ap (λ rows. find_row k rows) same) ∙ second.found) in
    record {
      before = first.before;
      found = first.found;
      seats = ground (arith, first.seats, second.seats);
      waits = ground (arith, first.waits, second.waits);
    }
