-- ===== src/Service/Enrollment/Grants.antt =====
-- What a granted claim says of the student and the section.
use orientation_enrollment_p.Base.{◌≡◌, ◌<◌, ◌≤◌, ◌⊎◌}
use orientation_enrollment_p.Domain.Errors.{ok}
use orientation_enrollment_p.Domain.Enrollment.{EligibilityInput, enrolled, waitlisted}
use orientation_enrollment_p.Domain.Enrollment.Eligibility.{IsEligible}
use orientation_enrollment_p.Storage.Db.{Db, Env}
use orientation_enrollment_p.Storage.Catalog.Contracts.{Loaded}
use orientation_enrollment_p.Service.Enrollment.Claim.{Request, ClaimResult, claim_reads}

-- The rows that the claim was decided on, and where it ended.
pub record Granted (req : Request) (env : Env) (db : Db) (r : ClaimResult) : Type 0 where
  pub facts : EligibilityInput
  pub read : claim_reads req env db ≡ (ok facts, db)
  pub stored : Loaded db req.section_id facts.section
  pub eligible : IsEligible facts
  pub placed :
      ((r.enrollment.status ≡ enrolled) × (facts.section.seats_taken < facts.section.capacity))
      ⊎ ((r.enrollment.status ≡ waitlisted)
          × (facts.section.capacity ≤ facts.section.seats_taken)
          × (facts.section.waitlist_length < facts.section.waitlist_limit))
