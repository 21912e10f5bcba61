-- ===== src/Worker.antt =====
-- internal/worker: the polling loop's single step, and the handlers that it runs. Log lines are left
-- out; a job's error text is reduced to its presence, and the worker's configuration holds the
-- durations after `New` has filled them in.
pub mod Attempts
pub mod Budgets
pub mod Runs
pub mod Failures
use orientation_enrollment_p.Base.{
  ℕ, Bool, true, false, not, ◌&&◌, ◌||◌, ◌+◌, Option, none, some, List, [], ◌∷◌, ltb, ◌==◌,
  if◌then◌else◌, any,
}
use orientation_enrollment_p.Base.Text.{Text, codes}
use orientation_enrollment_p.Base.Time.{Time, Duration}
use orientation_enrollment_p.Domain.Errors.{
  Error, Result, ok, err, sentinel, wrapped, joined, opaque, is, Sentinel, canceled,
  deadline_exceeded, validation,
}
use orientation_enrollment_p.Domain.Audit.{job_failed, failure, number}
use orientation_enrollment_p.Domain.Job.{
  Job, JobKind, JobState, Payload, section, malformed, promote_waitlist, sweep_sessions, kind_eq,
  queued, budget_exhausted, backoff, stale_lock_cutoff, max_job_attempts,
}
use orientation_enrollment_p.Storage.Db.{Db, Env, Tx, pure, raise, lift, clock, ◌>>=◌, ◌>>◌}
use orientation_enrollment_p.Storage.Jobs.{
  claim_next_job, mark_job_succeeded, mark_job_retry, mark_job_permanently_failed,
  requeue_stale_jobs, count_jobs_by_state, enqueue_job,
}
use orientation_enrollment_p.Storage.Transactions.{in_tx, record_event}
use orientation_enrollment_p.Service.Auth.{sweep_expired_sessions}
use orientation_enrollment_p.Service.Enrollment.Promotion.{promote}

-- `Handler`: its error, if any, and the tables after it.
abbrev pub Handler : Type 0
Handler = Job → Tx (Unit {0})

pub record Config : Type 0 where
  pub worker_id : Text
  pub lease : Duration
  pub backoff_base : Duration
  pub backoff_max : Duration

-- The map of handlers: one entry for each kind that is registered.
pub record Handlers : Type 0 where
  pub promote_waitlist : Option Handler
  pub sweep_sessions : Option Handler

abbrev pub handler_of : Handlers → JobKind → Option Handler
handler_of handlers promote_waitlist = handlers.promote_waitlist
handler_of handlers sweep_sessions = handlers.sweep_sessions

abbrev registered : Option Handler → JobKind → List JobKind → List JobKind
registered none kind rest = rest
registered (some h) kind rest = kind ∷ rest

-- `Kinds`
unfoldable pub registered_kinds : Handlers → List JobKind
registered_kinds handlers =
    registered handlers.promote_waitlist JobKind.promote_waitlist
      (registered handlers.sweep_sessions JobKind.sweep_sessions [])

unfoldable pub recover_stale_jobs : Config → Tx ℕ
recover_stale_jobs cfg env db =
    requeue_stale_jobs (stale_lock_cutoff env.now cfg.lease) env.now env db

-- `recordPermanentFailure`
unfoldable pub record_permanent_failure : Job → Tx (Unit {0})
record_permanent_failure job =
    in_tx (record_event none job_failed (codes "job") (number job.id) failure)

-- What RunOnce answers: whether a job was picked up, and the error beside it.
abbrev pub Outcome : Type 0
Outcome = Bool × Option Error

abbrev error_of : {A : Type 0} → Result A → Option Error
error_of (ok a) = none
error_of (err e) = some e

-- A job was picked up; the error is the one that its closing left.
abbrev pub picked : {A : Type 0} → Result A × Db → Outcome × Db
picked (r, db) = ((true, error_of r), db)

-- The handler's error, joined by that of the statement which could not store it.
abbrev pub joining : Error → Result (Unit {0}) → Option Error → Option Error
joining cause (ok u) otherwise = otherwise
joining cause (err e) otherwise = some (joined cause e)

abbrev pub interrupted : Error → Bool
interrupted e = is e canceled || is e deadline_exceeded

-- After a permanent failure has been stored.
abbrev pub retire : Job → Error → Env → Result (Unit {0}) × Db → Outcome × Db
retire job cause env (err e, db) = ((true, some (joined cause e)), db)
retire job cause env (ok u, db) = picked (record_permanent_failure job env db)

-- The part of `RunOnce` after a handler has returned. `release` is the world of the fresh context
-- that a cancelled one is replaced by.
unfoldable pub complete : Config → Job → Env → Env → Result (Unit {0}) × Db → Outcome × Db
complete cfg job env release (ok u, db) = picked (mark_job_succeeded job.id env.now env db)
complete cfg job env release (err e, db) =
    if interrupted e
    then (let (r, after) = mark_job_retry job.id env.now env.now release db in
        ((true, joining e r (some e)), after))
    else if budget_exhausted job
    then retire job e env (mark_job_permanently_failed job.id env.now env db)
    else (let (r, after) =
          mark_job_retry job.id (env.now + backoff job.attempts cfg.backoff_base cfg.backoff_max)
            env.now env db in
        ((true, joining e r none), after))

-- A claimed kind without a handler.
abbrev pub unhandled : Job → Env → Result (Unit {0}) × Db → Outcome × Db
unhandled job env (err e, db) = ((true, some e), db)
unhandled job env (ok u, db) = picked (record_permanent_failure job env db)

abbrev pub handle : Config → Option Handler → Job → Env → Env → Db → Outcome × Db
handle cfg none job env release db =
    unhandled job env (mark_job_permanently_failed job.id env.now env db)
handle cfg (some handler) job env release db = complete cfg job env release (handler job env db)

abbrev pub handle_claimed : Config → Handlers → Env → Env → Result Job × Db → Outcome × Db
handle_claimed cfg handlers env release (ok job, db) =
    handle cfg (handler_of handlers job.kind) job env release db
handle_claimed cfg handlers env release (err e, db) =
    if is e Sentinel.not_found then ((false, none), db) else ((false, some e), db)

abbrev pub none_registered : List JobKind → Bool
none_registered [] = true
none_registered (k ∷ ks) = false

-- `RunOnce`, given what the context says at its start. The clock stands still during the call.
unfoldable pub run_once : Config → Handlers → Option Error → Env → Env → Db → Outcome × Db
run_once cfg handlers context_error env release db =
    if none_registered (registered_kinds handlers)
    then ((false, some opaque), db)
    else elim context_error [
      | some e ↦ ((false, some e), db)
      | none ↦
          handle_claimed cfg handlers env release
            (claim_next_job (registered_kinds handlers) cfg.worker_id env.now env db)
    ]

abbrev pub ignore_missing : Result Bool × Db → Result (Unit {0}) × Db
ignore_missing (ok promoted, db) = (ok tt, db)
ignore_missing (err e, db) = if is e Sentinel.not_found then (ok tt, db) else (err e, db)

-- `NewWaitlistPromotionHandler`
unfoldable pub promotion_of : Payload → Tx (Unit {0})
promotion_of malformed = raise (wrapped opaque)
promotion_of (section id) = λ env db.
    if id == 0
    then (err (wrapped (sentinel validation)), db)
    else ignore_missing (promote id env db)

abbrev pub waitlist_promotion_handler : Handler
waitlist_promotion_handler job = promotion_of job.payload

-- `NewSessionSweepHandler`
abbrev pub session_sweep_limit : ℕ
session_sweep_limit = 200

abbrev swept : Result ℕ × Db → Result (Unit {0}) × Db
swept (ok n, db) = (ok tt, db)
swept (err e, db) = (err (wrapped e), db)

abbrev pub session_sweep_handler : Handler
session_sweep_handler job env db = swept (sweep_expired_sessions session_sweep_limit env db)

-- `EnsureSessionSweep`
unfoldable pub ensure_session_sweep : Duration → Time → Tx Bool
ensure_session_sweep interval now = do
  waiting ← count_jobs_by_state queued
  if ltb 0 waiting
      then pure false
      else in_tx (do
        enqueue_job (record {
          id = 0;
          kind = sweep_sessions;
          payload = section 0;
          state = queued;
          attempts = 0;
          max_attempts = max_job_attempts;
          failed_before = false;
          run_after = now + interval;
          locked_at = none;
          locked_by = [];
          created_at = now;
          updated_at = now;
        })
        pure true)
