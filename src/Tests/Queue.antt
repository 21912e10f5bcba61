-- ===== src/Tests/Queue.antt =====
-- Runs of the worker and traces of the queue at concrete inputs.
use mathlib.Core.List.{Memᴰ}
use orientation_enrollment_p.Storage.Jobs.Phases.{Operation, enqueue, claim, succeed, retry, phases}
use orientation_enrollment_p.Storage.Jobs.Histories.{
  Numbered, replay, Steps, replay-Steps, replay-final,
}
use orientation_enrollment_p.Base.{
  ℕ, ◌*◌, Option, ap, subst, true, false, ◌≡◌, refl, arith, some, none, List, [], ◌∷◌, ◌==◌,
  if◌then◌else◌, Bool, Bool-cases, inl, inr,
}
use orientation_enrollment_p.Base.Time.{second}
use orientation_enrollment_p.Domain.Errors.{Error, Result, err, opaque}
use orientation_enrollment_p.Domain.Job.{
  malformed, queued, succeeded, promote_waitlist, sweep_sessions,
}
use orientation_enrollment_p.Storage.Db.{Db, Env}
use orientation_enrollment_p.Worker.{
  Config, Handlers, waitlist_promotion_handler, session_sweep_handler, run_once,
}
use orientation_enrollment_p.Worker.Budgets.{Keyed}
use orientation_enrollment_p.Tests.World.{tables, row_with, job_of, noon}

abbrev settings : Config
settings = record { worker_id = []; lease = 60; backoff_base = 1; backoff_max = 10 }

-- The program's own handlers.
abbrev handlers : Handlers
handlers = record {
  promote_waitlist = some waitlist_promotion_handler;
  sweep_sessions = some session_sweep_handler;
}

-- A promotion whose payload does not decode, so that its handler fails.
abbrev queue : Db
queue = tables (row_with 1 0) [] ((record (job_of 3 queued 0) { payload = malformed }) ∷ [])

queue-Keyed : Keyed queue.jobs
queue-Keyed id = ground arith

abbrev soon : Env
soon = record noon { now = 2 * second }

abbrev after_one : Db
after_one = (run_once settings handlers none soon soon queue).1

abbrev later : Env
later = record noon { now = 60 * second }

queue-Numbered : Numbered queue
queue-Numbered = record { unique = queue-Keyed; unused = λ id high. ground arith }

-- A job is claimed and succeeds; another arrives; an attempt to reschedule the first fails.
abbrev day : List (Operation × Env)
day =
    (claim (promote_waitlist ∷ []) [] (2 * second), soon)
    ∷ (succeed 3 (3 * second), soon)
    ∷ (enqueue (job_of 0 queued 0), soon)
    ∷ (retry 3 (4 * second) (4 * second), later)
    ∷ []

replay-Steps_example : Steps ((3, queued) ∷ []) ((10, queued) ∷ (3, succeeded) ∷ [])
unfolding orientation_enrollment_p.Base.Sort.order_by
    orientation_enrollment_p.Storage.Timestamps.stored_le
    orientation_enrollment_p.Storage.Jobs.claim_next_job
    orientation_enrollment_p.Storage.Jobs.enqueue_job
    orientation_enrollment_p.Storage.Jobs.mark_job_succeeded
    orientation_enrollment_p.Storage.Jobs.mark_job_retry
    orientation_enrollment_p.Storage.Jobs.finish_job
    orientation_enrollment_p.Storage.Db.update_where
replay-Steps_example = replay-Steps day queue queue-Numbered

abbrev done : Db
done = tables (row_with 1 0) [] (job_of 3 succeeded 1 ∷ [])

done-Numbered : Numbered done
done-Numbered = record { unique = λ id. ground arith; unused = λ id high. ground arith }

replay-final_example : Memᴰ (3, succeeded) (phases (replay day done).jobs)
replay-final_example =
    replay-final day done (job_of 3 succeeded 1) done-Numbered (Memᴰ.head refl) refl
