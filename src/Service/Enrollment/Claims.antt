-- ===== src/Service/Enrollment/Claims.antt =====
-- A claim, as a whole: what it keeps, and when it seats.
use orientation_enrollment_p.Base.{
  ℕ, suc, Bool, true, ◌≡◌, refl, sym, ◌∙◌, ap, subst, ◌+◌, ◌<◌, ◌==◌, inl, inr, some, arith, List,
  [], ◌∷◌, count, All, Bool-cases,
}
use orientation_enrollment_p.Base.Int.{◌+ℤ◌}
use orientation_enrollment_p.Domain.Errors.{ok}
use orientation_enrollment_p.Domain.Identity.{Principal}
use orientation_enrollment_p.Domain.Enrollment.{
  Enrollment, EnrollmentStatus, EligibilityInput, enrolled, waitlisted, holds_seat,
  check_enrollment_eligibility,
}
use orientation_enrollment_p.Storage.Db.{Db, Env, SectionRow}
use orientation_enrollment_p.Storage.Rules.{>>=-then, >>=-lift}
use orientation_enrollment_p.Storage.Rows.{All-update_where}
use orientation_enrollment_p.Storage.Rows.Keys.{bit}
use orientation_enrollment_p.Storage.Catalog.{find_row}
use orientation_enrollment_p.Storage.Catalog.Counters.{WithinLimits}
use orientation_enrollment_p.Storage.Enrollments.{is_waitlisted, waits_in}
use orientation_enrollment_p.Storage.Consistency.{Consistent, seated_in}
use orientation_enrollment_p.Storage.Consistency.Steps.{row_step, one_step}
use orientation_enrollment_p.Service.Enrollment.Claim.{
  Request, ClaimResult, claim_reads, claim_once, take_seat, join_waitlist,
}
use orientation_enrollment_p.Service.Enrollment.Reads.{claim_reads-ok}
use orientation_enrollment_p.Service.Enrollment.Effects.{
  Added, take_seat-Added, join_waitlist-Added,
}

fresh-count :
    (n : ℕ) (es : List Enrollment) → All (λ e. e.id < n) es → count (λ e. e.id == n) es ≡ 0
fresh-count n [] h = refl
fresh-count n (e ∷ es) h = ground (arith, fresh-count n es)

fresh-weaken : (n : ℕ) (es : List Enrollment) → All (λ e. e.id < n) es → All (λ e. e.id < suc n) es
fresh-weaken n [] h = tt
fresh-weaken n (e ∷ es) h = (omega (arith, h.0), fresh-weaken n es h.1)

-- A statement on a section that counts what the new claim's state says.
module _ (id : ℕ) (test : SectionRow → Bool) (change : SectionRow → SectionRow)
    (status : EnrollmentStatus) (narrower : (r : SectionRow) → test r ≡ true → (r.id == id) ≡ true)
    (keeps : (r : SectionRow) → (change r).id ≡ r.id)
    (within : (r : SectionRow) → WithinLimits r → test r ≡ true → WithinLimits (change r))
    (seats : (r : SectionRow)
      → test r ≡ true
      → (change r).seats_taken ≡ r.seats_taken + bit (holds_seat status))
    (waits : (r : SectionRow)
      → test r ≡ true
      → (change r).waitlist_length ≡ r.waitlist_length + bit (is_waitlisted status))
    (db after : Db) (c : Enrollment) (fine : Consistent db)
    (added : Added id test change status db after c) where
  seats_counted :
      (k : ℕ) (r : SectionRow)
      → find_row k after.sections ≡ some r
      → r.seats_taken ≡ count (seated_in k) after.enrollments
  seats_counted k r found =
      let step =
        row_step id test change narrower keeps db.sections fine.one_section added.some_pass k r
          (sym (ap (λ rows. find_row k rows) added.sections) ∙ found) in
      let before = fine.seats k step.before step.found in
      rw (added.enrollments, added.section_id, added.reached)
        (elim step.moved [
          | inl (same, passes, changed) ↦ ground (arith, seats step.before)
          | inr (other, unchanged) ↦ ground arith
        ])

  waits_counted :
      (k : ℕ) (r : SectionRow)
      → find_row k after.sections ≡ some r
      → r.waitlist_length ≡ count (waits_in k) after.enrollments
  waits_counted k r found =
      let step =
        row_step id test change narrower keeps db.sections fine.one_section added.some_pass k r
          (sym (ap (λ rows. find_row k rows) added.sections) ∙ found) in
      let before = fine.waitlist k step.before step.found in
      rw (added.enrollments, added.section_id, added.reached)
        (elim step.moved [
          | inl (same, passes, changed) ↦ ground (arith, waits step.before)
          | inr (other, unchanged) ↦ ground arith
        ])

  Added-Consistent : Consistent after
  Added-Consistent = record {
    one_section = λ k.
        rw added.sections (one_step id test change narrower keeps db.sections fine.one_section k);
    one_enrollment = λ k.
        let unused = fresh-count db.next_enrollment_id db.enrollments fine.fresh in
        let h = fine.one_enrollment k in
        rw (added.enrollments, added.new_id)
          (elim (Bool-cases (db.next_enrollment_id == k)) [
            | inl same ↦ ground arith
            | inr other ↦ ground arith
          ]);
    fresh =
        subst (λ n. All (λ e. e.id < n) after.enrollments) (sym added.next_id)
          (rw (added.enrollments, added.new_id)
            (omega arith, fresh-weaken db.next_enrollment_id db.enrollments fine.fresh));
    limits =
        rw added.sections
          (All-update_where WithinLimits test change db.sections within fine.limits);
    seats = seats_counted;
    waitlist = waits_counted;
  }

take_seat-Consistent :
    (actor : Principal) (req : Request) (i : EligibilityInput) (env : Env) (db after : Db)
    {r : ClaimResult}
    → take_seat actor req i env db ≡ (ok r, after)
    → Consistent db
    → Consistent after
unfolding holds_seat ◌+ℤ◌
take_seat-Consistent actor req i env db after {r} h fine =
    Added-Consistent i.section.id _ _ enrolled (λ r e. ground arith) (λ r. refl)
      (λ r w e. ground arith) (λ r e. refl) (λ r e. omega arith) db after r.enrollment fine
      (take_seat-Added actor req i env db after h)

join_waitlist-Consistent :
    (actor : Principal) (req : Request) (i : EligibilityInput) (env : Env) (db after : Db)
    {r : ClaimResult}
    → join_waitlist actor req i env db ≡ (ok r, after)
    → Consistent db
    → Consistent after
unfolding holds_seat ◌+ℤ◌
join_waitlist-Consistent actor req i env db after {r} h fine =
    Added-Consistent i.section.id _ _ waitlisted (λ r e. ground arith) (λ r. refl)
      (λ r w e. ground arith) (λ r e. omega arith) (λ r e. ground arith) db after r.enrollment fine
      (join_waitlist-Added actor req i env db after h)

-- A claim that is granted, a seat or a place on the waitlist, keeps the tables consistent: unique
-- keys, no section beyond its limits, and each section's counters equal to the claims they count.
pub claim_once-Consistent :
    (actor : Principal) (req : Request) (env : Env) (db after : Db) {r : ClaimResult}
    → Consistent db
    → claim_once actor req env db ≡ (ok r, after)
    → Consistent after
unfolding claim_once
claim_once-Consistent actor req env db after {r} fine h =
    >>=-then (claim_reads req) _ env db h (λ i db1 h1 k1.
      >>=-lift (check_enrollment_eligibility i) _ env db1 k1 (λ decision h2 k2.
        let read = subst Consistent (sym (claim_reads-ok req env db db1 h1).0) fine in
        elim (Bool-cases decision.waitlist) [
          | inl full ↦
              join_waitlist-Consistent actor req i env db1 after {r = r} (ground arith) read
          | inr free ↦ take_seat-Consistent actor req i env db1 after {r = r} (ground arith) read
        ]))
