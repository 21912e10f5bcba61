-- ===== src/Service/Enrollment/Retries.antt =====
-- The loop of `Claim`, with other connections committing between its attempts.
use orientation_enrollment_p.Base.{
  ℕ, zero, suc, Bool, ◌&&◌, not, ◌≡◌, ◌+◌, ◌-◌, ◌⊎◌, ◌≤◌, inl, inr, Option-cases, Bool-cases, arith,
}
use orientation_enrollment_p.Domain.Errors.{
  Result, ok, err, is, sentinel, wrapped, version_conflict, Sentinel,
}
use orientation_enrollment_p.Domain.Identity.{Principal}
use orientation_enrollment_p.Domain.Audit.{enrollment_claim}
use orientation_enrollment_p.Storage.Db.{Db, Env}
use orientation_enrollment_p.Storage.Transactions.{in_tx}
use orientation_enrollment_p.Storage.Consistency.{Consistent}
use orientation_enrollment_p.Storage.Consistency.Steps.{in_tx-Consistent}
use orientation_enrollment_p.Service.Rejections.Seats.{record_rejection-Consistent}
use orientation_enrollment_p.Service.Enrollment.Claim.{
  Request, ClaimResult, Round, settle, no_more, claim_once, claim_loop, check_claim, claim_checked,
  claim,
}
use orientation_enrollment_p.Service.Enrollment.Claims.{claim_once-Consistent}

module _ (actor : Principal) (rounds : ℕ → Round) where
  settle-Consistent :
      (req : Request) (env : Env) (more : Bool) (again : Db → Result ClaimResult × Db)
      (r : Result ClaimResult × Db)
      → ((db : Db) → Consistent db → Consistent (again db).1)
      → Consistent r.1
      → Consistent (settle actor req env more again r).1
  settle-Consistent req env more again (ok claimed, db) later fine = fine
  settle-Consistent req env more again (err e, db) later fine =
      elim (Bool-cases (is e Sentinel.version_conflict && more)) [
        | inl retry ↦ rw retry (later db fine)
        | inr final ↦ rw final (
            record_rejection-Consistent actor enrollment_claim "section" req.section_id e env db
              fine)
      ]

  claim_loop-Consistent :
      (req : Request)
      → ((n : ℕ) (db : Db) → Consistent db → Consistent ((rounds n).others db))
      → (left attempt : ℕ) (db : Db) → Consistent db
      → Consistent (claim_loop actor req rounds left attempt db).1
  unfolding claim_loop
  claim_loop-Consistent req others zero attempt db fine =
      record_rejection-Consistent actor enrollment_claim "section" req.section_id
        (wrapped (sentinel version_conflict)) (rounds attempt).env db fine
  claim_loop-Consistent req others (suc left) attempt db fine =
      let round = rounds attempt in
      elim (Option-cases round.context_error) [
        | inr (e, stopped) ↦ rw (stopped, claim_loop) fine
        | inl running ↦
            rw (running, claim_loop)
              (settle-Consistent req round.env (not (no_more left))
                (claim_loop actor req rounds left (suc attempt))
                (in_tx (claim_once actor req) round.env (round.others db))
                (claim_loop-Consistent req others left (suc attempt))
                (in_tx-Consistent (claim_once actor req) round.env (round.others db)
                  (others attempt db fine)
                  (λ r after h.
                    claim_once-Consistent actor req round.env (round.others db) after {r = r}
                      (others attempt db fine) h)))
      ]

  claim_checked-Consistent :
      (max_retries : ℕ) (r : Result Request)
      → ((n : ℕ) (db : Db) → Consistent db → Consistent ((rounds n).others db))
      → (db : Db) → Consistent db
      → Consistent (claim_checked actor rounds max_retries r db).1
  claim_checked-Consistent max_retries (ok req) others db fine =
      claim_loop-Consistent req others (max_retries + 1) 1 db fine
  claim_checked-Consistent max_retries (err e) others db fine = fine

  -- Whatever a claim answers, and whatever other connections commit between its attempts as long as
  -- they keep the tables consistent, the tables are consistent after it.
  pub claim-Consistent :
      (i : Request) (max_retries : ℕ) (db : Db)
      → ((n : ℕ) (db : Db) → Consistent db → Consistent ((rounds n).others db))
      → Consistent db
      → Consistent (claim actor i rounds max_retries db).1
  unfolding claim
  claim-Consistent i max_retries db others fine =
      claim_checked-Consistent max_retries (check_claim actor i) others db fine

  -- A transaction of the loop that returned a value.
  pub record Committed (req : Request) (last : ℕ) (r : ClaimResult) (after : Db) : Type 0 where
    pub attempt : ℕ
    pub in_time : attempt ≤ last
    pub before : Db
    pub committed :
        in_tx (claim_once actor req) (rounds attempt).env ((rounds attempt).others before)
        ≡ (ok r, after)

  settle-ok :
      (req : Request) (env : Env) (more : Bool) (again : Db → Result ClaimResult × Db)
      (r : Result ClaimResult × Db) {c : ClaimResult} {after : Db}
      → settle actor req env more again r ≡ (ok c, after)
      → (r ≡ (ok c, after)) ⊎ (again r.1 ≡ (ok c, after))
  settle-ok req env more again (ok claimed, db) h = inl h
  settle-ok req env more again (err e, db) h = ground arith

  claim_loop-Committed :
      (req : Request) (left attempt : ℕ) (db : Db) {r : ClaimResult} {after : Db}
      → claim_loop actor req rounds left attempt db ≡ (ok r, after)
      → Committed req (attempt + left - 1) r after
  unfolding claim_loop
  claim_loop-Committed req zero attempt db h = absurd (ground arith)
  claim_loop-Committed req (suc left) attempt db {r} {after} h =
      let round = rounds attempt in
      elim (Option-cases round.context_error) [
        | inr (e, stopped) ↦ absurd (ground arith)
        | inl running ↦
            elim (settle-ok req round.env (not (no_more left))
              (claim_loop actor req rounds left (suc attempt))
              (in_tx (claim_once actor req) round.env (round.others db)) {c = r} {after = after}
              (ground arith)) [
                | inl done ↦ record {
                  attempt = attempt;
                  in_time = omega arith;
                  before = db;
                  committed = done;
                }
                | inr later ↦
                    let rest =
                      claim_loop-Committed req left (suc attempt) _ {r = r} {after = after} later in
                    record {
                      attempt = rest.attempt;
                      in_time = omega (arith, rest.in_time);
                      before = rest.before;
                      committed = rest.committed;
                    }
              ]
      ]

  -- A claim that is granted is what one transaction committed as the last thing that the call did,
  -- for the checked request and within the number of attempts that the retries allow.
  pub claim-Committed :
      (i req : Request) (max_retries : ℕ) (db after : Db) {r : ClaimResult}
      → check_claim actor i ≡ ok req
      → claim actor i rounds max_retries db ≡ (ok r, after)
      → Committed req (max_retries + 1) r after
  unfolding claim
  claim-Committed i req max_retries db after {r} checked h =
      let found =
        claim_loop-Committed req (max_retries + 1) 1 db {r = r} {after = after} (ground arith) in
      record {
        attempt = found.attempt;
        in_time = omega (arith, found.in_time);
        before = found.before;
        committed = found.committed;
      }
