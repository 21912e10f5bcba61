-- ===== src/Service/Enrollment/Effects.antt =====
-- What the transactions' bodies write to the tables of seats, when they return a value.
use orientation_enrollment_p.Base.{
  ℕ, suc, Bool, ◌≡◌, refl, ◌∙◌, ap, ◌≢◌, some, arith, [], ◌∷◌, count,
}
use orientation_enrollment_p.Base.Int.{pos}
use orientation_enrollment_p.Base.Time.{Time}
use orientation_enrollment_p.Base.Text.{codes}
use orientation_enrollment_p.Domain.Errors.{ok}
use orientation_enrollment_p.Domain.Identity.{Principal}
use orientation_enrollment_p.Domain.Audit.{enrollment_claim, enrollment_waitlist, success, number}
use orientation_enrollment_p.Domain.Enrollment.{
  Enrollment, EnrollmentStatus, EligibilityInput, enrolled, waitlisted, transition,
}
use orientation_enrollment_p.Storage.Db.{Db, Env, SectionRow, update_where}
use orientation_enrollment_p.Storage.Rules.{>>=-then, >>=-lift}
use orientation_enrollment_p.Storage.Catalog.{
  claim_seat, adjust_waitlist_length, claimable, with_seat, adjustable, with_length,
}
use orientation_enrollment_p.Storage.Catalog.Contracts.{
  claim_seat-ok, claim_seat-counted, adjust_waitlist_length-ok, adjust_waitlist_length-counted,
}
use orientation_enrollment_p.Storage.Enrollments.{
  create_enrollment, next_waitlist_rank, insert_enrollment,
}
use orientation_enrollment_p.Storage.Enrollments.Contracts.{
  create_enrollment-ok, next_waitlist_rank-ok,
}
use orientation_enrollment_p.Storage.Transactions.Records.{audited}
use orientation_enrollment_p.Service.Enrollment.Claim.{
  Request, ClaimResult, new_claim, take_seat, join_waitlist,
}

-- One row of a section is changed, and one claim is added.
pub record Added (id : ℕ) (test : SectionRow → Bool) (change : SectionRow → SectionRow)
    (status : EnrollmentStatus) (db after : Db) (c : Enrollment) : Type 0 where
  pub some_pass : count test db.sections ≢ 0
  pub sections : after.sections ≡ update_where test change db.sections
  pub enrollments : after.enrollments ≡ c ∷ db.enrollments
  pub next_id : after.next_enrollment_id ≡ suc db.next_enrollment_id
  pub new_id : c.id ≡ db.next_enrollment_id
  pub section_id : c.section_id ≡ id
  pub reached : c.status ≡ status

transition-to :
    (e : Enrollment) (target : EnrollmentStatus) (now : Time) {c : Enrollment}
    → transition e target now [] ≡ ok c
    → (c.section_id ≡ e.section_id) × (c.student_id ≡ e.student_id) × (c.status ≡ target)
unfolding transition
transition-to e target now h = ground arith

pub take_seat-Added :
    (actor : Principal) (req : Request) (i : EligibilityInput) (env : Env) (db after : Db)
    {r : ClaimResult}
    → take_seat actor req i env db ≡ (ok r, after)
    → Added i.section.id
        (claimable i.section.id i.section.version)
        (with_seat i.now)
        enrolled
        db
        after
        r.enrollment
unfolding take_seat
take_seat-Added actor req i env db after {r} h =
    >>=-then (claim_seat i.section.id i.section.version i.now) _ env db h (λ s db1 h1 k1.
      >>=-lift (transition (new_claim req i) enrolled i.now []) _ env db1 k1 (λ moved h2 k2.
        >>=-then (create_enrollment moved) _ env db1 k2 (λ created db2 h3 k3.
          let (e1, l1) = claim_seat-ok i.section.id i.section.version i.now env db db1 h1 in
          let (c1, e2, taken) = create_enrollment-ok moved env db1 db2 h3 in
          let m = transition-to (new_claim req i) enrolled i.now {c = moved} h2 in
          let (same_result, same) =
            audited (some actor) enrollment_claim (codes "enrollment") (number created.id) success _
              env db2 after k3 in
          record {
            some_pass = claim_seat-counted i.section.id i.section.version i.now env db db1 h1;
            sections = ground (arith, same.sections);
            enrollments = ground (arith, same.enrollments);
            next_id = ground (arith, same.next_enrollment_id);
            new_id = ground arith;
            section_id = ground arith;
            reached = ground arith;
          })))

pub join_waitlist-Added :
    (actor : Principal) (req : Request) (i : EligibilityInput) (env : Env) (db after : Db)
    {r : ClaimResult}
    → join_waitlist actor req i env db ≡ (ok r, after)
    → Added i.section.id
        (adjustable i.section.id (pos 1))
        (with_length (pos 1) i.now)
        waitlisted
        db
        after
        r.enrollment
unfolding join_waitlist
join_waitlist-Added actor req i env db after {r} h =
    >>=-then (next_waitlist_rank i.section.id) _ env db h (λ rank db0 h0 k0.
      >>=-lift (transition (new_claim req i) waitlisted i.now []) _ env db0 k0 (λ moved h1 k1.
        >>=-then (create_enrollment (record moved { waitlist_rank = rank })) _ env db0 k1
          (λ created db1 h2 k2.
            >>=-then (adjust_waitlist_length i.section.id (pos 1) i.now) _ env db1 k2
              (λ s db2 h3 k3.
                let e0 = next_waitlist_rank-ok i.section.id env db db0 h0 in
                let (c1, e1, taken) =
                  create_enrollment-ok (record moved { waitlist_rank = rank }) env db0 db1 h2 in
                let e2 = adjust_waitlist_length-ok i.section.id (pos 1) i.now env db1 db2 refl h3 in
                let m = transition-to (new_claim req i) waitlisted i.now {c = moved} h1 in
                let (same_result, same) =
                  audited (some actor) enrollment_waitlist (codes "enrollment") (number created.id)
                    success _ env db2 after k3 in
                let counted =
                  adjust_waitlist_length-counted i.section.id (pos 1) i.now env db1 db2 refl h3 in
                record {
                  some_pass = λ none_passed. counted (
                      ap (λ d. count (adjustable i.section.id (pos 1)) d.sections)
                        (e1 ∙ ap (insert_enrollment created) e0)
                      ∙ none_passed);
                  sections = ground (arith, same.sections);
                  enrollments = ground (arith, same.enrollments);
                  next_id = ground (arith, same.next_enrollment_id);
                  new_id = ground arith;
                  section_id = ground arith;
                  reached = ground arith;
                }))))
