-- ===== src/Tests/Statements.antt =====
-- The theorems on statements, transactions and jobs at concrete inputs.
use orientation_enrollment_p.Base.{
  ℕ, ◌+◌, ◌*◌, ◌<◌, ◌≤◌, true, false, ◌≡◌, ◌≢◌, refl, ◌⊎◌, ◌==◌, none, some, List, [], ◌∷◌, arith,
  count, All, find,
}
use orientation_enrollment_p.Base.Time.{second}
use orientation_enrollment_p.Domain.Errors.{Error, ok, err, opaque}
use orientation_enrollment_p.Domain.Job.{
  Job, queued, running, succeeded, permanently_failed, promote_waitlist,
}
use orientation_enrollment_p.Storage.Db.{Db, update_where}
use orientation_enrollment_p.Storage.Timestamps.{stored_le}
use orientation_enrollment_p.Storage.Timestamps.Order.{stored_le_fraction}
use orientation_enrollment_p.Storage.Catalog.{claim_seat, claimable, with_seat}
use orientation_enrollment_p.Storage.Catalog.Counters.{
  WithinLimits, none_yet, then_one, claim, adjust, Updates-WithinLimits,
}
use orientation_enrollment_p.Storage.Enrollments.{next_waitlist_rank, waits_in}
use orientation_enrollment_p.Storage.Enrollments.Waitlist.{next_waitlist_rank-behind}
use orientation_enrollment_p.Storage.Jobs.{claim_next_job, requeue_stale_jobs, stale}
use orientation_enrollment_p.Storage.Jobs.Claims.{Claimed, claim_next_job-Claimed}
use orientation_enrollment_p.Storage.Jobs.Recovery.{Released, Recent, requeue_stale_jobs-Released}
use orientation_enrollment_p.Worker.Failures.{Closed, complete-Closed}
use orientation_enrollment_p.Storage.Catalog.Versions.{claim_seat-once}
use orientation_enrollment_p.Storage.Catalog.{adjust_waitlist_length}
use orientation_enrollment_p.Base.Int.{pos}
use orientation_enrollment_p.Storage.Transactions.{in_tx}
use orientation_enrollment_p.Storage.Transactions.Atomic.{in_tx_atomic}
use orientation_enrollment_p.Worker.{Config, Handlers, waitlist_promotion_handler, complete}
use orientation_enrollment_p.Tests.World.{busy, noon, tables, row_with, job_of, value_or, seen}

Updates-WithinLimits_example :
    All WithinLimits (update_where (claimable 1 1) (with_seat 7) (row_with 1 0 ∷ []))
Updates-WithinLimits_example =
    Updates-WithinLimits (then_one none_yet (claim (row_with 1 0 ∷ []) 1 1 7))
      (record { seats = omega arith; waitlist = omega arith }, tt)

in_tx_atomic_example :
    ((a : ℕ) × (in_tx (next_waitlist_rank 1) noon busy ≡ (ok a, (next_waitlist_rank 1 noon busy).1))
      × ((next_waitlist_rank 1 noon busy).0 ≡ ok a))
    ⊎ ((e : Error) × (in_tx (next_waitlist_rank 1) noon busy ≡ (err e, busy)))
in_tx_atomic_example = in_tx_atomic (next_waitlist_rank 1) noon busy

next_waitlist_rank-behind_example :
    All (λ e. waits_in 1 e ≡ true → e.waitlist_rank < 2) busy.enrollments
unfolding orientation_enrollment_p.Storage.Enrollments.next_waitlist_rank
next_waitlist_rank-behind_example = next_waitlist_rank-behind 1 noon busy busy refl

abbrev waiting_job : Db
waiting_job = tables (row_with 1 0) [] (job_of 3 queued 1 ∷ [])

abbrev running_job : Db
running_job = tables (row_with 1 0) [] (job_of 3 running 1 ∷ [])

abbrev settings : Config
settings = record { worker_id = []; lease = 60; backoff_base = 1; backoff_max = 10 }

abbrev handlers : Handlers
handlers = record { promote_waitlist = some waitlist_promotion_handler; sweep_sessions = none }

stored_le_fraction_example :
    (stored_le (3 * second) (3 * second + 5) ≡ false) × (3 * second < 3 * second + 5)
stored_le_fraction_example = stored_le_fraction 3 5 (omega arith) (omega arith)

claim_seat-once_example :
    claim_seat 1 1 8 noon (adjust_waitlist_length 1 (pos 1) 8 noon (claim_seat 1 1 7 noon busy).1).1
    ≢ (ok seen, busy)
unfolding orientation_enrollment_p.Storage.Catalog.find_section_by_id
    orientation_enrollment_p.Storage.Catalog.claim_seat
    orientation_enrollment_p.Storage.Catalog.adjust_waitlist_length
    orientation_enrollment_p.Storage.Db.update_where orientation_enrollment_p.Base.Int.◌+ℤ◌
claim_seat-once_example =
    let after = (claim_seat 1 1 7 noon busy).1 in
    claim_seat-once 1 1 7 8 noon noon busy after (adjust_waitlist_length 1 (pos 1) 8 noon after).1
      busy (omega arith) refl (then_one none_yet (adjust after.sections 1 (pos 1) 8))

-- A job that waits, one that is done, and one whose worker has gone.
abbrev jobs : List Job
jobs = job_of 3 queued 1 ∷ job_of 4 succeeded 1 ∷ job_of 5 running 2 ∷ []

abbrev work : Db
work = tables (row_with 1 0) [] jobs

abbrev claimed_job : Job
claimed_job =
    value_or (job_of 0 queued 0)
      (claim_next_job (promote_waitlist ∷ []) [] (2 * second) noon work).0

claim_next_job-Claimed_example :
    Claimed
      (promote_waitlist ∷ [])
      []
      (2 * second)
      jobs
      (claim_next_job (promote_waitlist ∷ []) [] (2 * second) noon work).1.jobs
      claimed_job
unfolding orientation_enrollment_p.Base.Sort.order_by
    orientation_enrollment_p.Storage.Timestamps.stored_le
    orientation_enrollment_p.Storage.Jobs.claim_next_job
claim_next_job-Claimed_example =
    claim_next_job-Claimed (promote_waitlist ∷ []) [] (2 * second) noon work
      (claim_next_job (promote_waitlist ∷ []) [] (2 * second) noon work).1 (λ id. ground arith) refl

abbrev recovered : Db
recovered = (requeue_stale_jobs (2 * second) 150 noon work).1

requeue_stale_jobs-Released_example :
    (1 ≡ count (stale (2 * second)) jobs)
    × ((k : Job) × (find (λ i. i.id == 5) recovered.jobs ≡ some k)
        × (Released (2 * second) 150 (job_of 5 running 2) k
            ⊎ ((k ≡ job_of 5 running 2)
                × ((job_of 5 running 2).state ≡ running
                    → Recent (2 * second) (job_of 5 running 2).locked_at))))
unfolding orientation_enrollment_p.Storage.Timestamps.stored_le
    orientation_enrollment_p.Storage.Jobs.requeue_stale_jobs
requeue_stale_jobs-Released_example =
    requeue_stale_jobs-Released (2 * second) 150 noon work recovered 5 (job_of 5 running 2) refl
      refl

abbrev failed_db : Db
failed_db = (complete settings (job_of 5 running 2) noon noon (err opaque, work)).1

complete-Closed_example :
    (k : Job) × (find (λ j. j.id == 5) failed_db.jobs ≡ some k)
    × Closed (job_of 5 running 2) k
    × (((5 ≤ 2) × (k.state ≡ permanently_failed))
        ⊎ ((2 < 5) × (k.state ≡ queued) × (151 ≤ k.run_after) × (k.run_after ≤ 160)))
unfolding orientation_enrollment_p.Domain.Errors.is orientation_enrollment_p.Worker.complete
    orientation_enrollment_p.Storage.Jobs.mark_job_retry
    orientation_enrollment_p.Storage.Jobs.finish_job
    orientation_enrollment_p.Domain.Job.budget_exhausted
complete-Closed_example =
    complete-Closed settings (job_of 5 running 2) (job_of 5 running 2) noon noon opaque work refl
      refl refl refl (omega arith) (omega arith) (omega arith)
