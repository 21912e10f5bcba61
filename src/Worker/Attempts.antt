-- ===== src/Worker/Attempts.antt =====
-- What one step of the worker does.
use orientation_enrollment_p.Base.{
  true, false, ◌≡◌, refl, sym, ◌∙◌, ap, ◌+◌, inl, inr, ◌⊎◌, Option, none, some, Option-cases,
  Bool-cases, arith,
}
use orientation_enrollment_p.Base.Time.{Time}
use orientation_enrollment_p.Domain.Errors.{Error, Result, ok, err}
use orientation_enrollment_p.Domain.Job.{Job, budget_exhausted, backoff, permanently_failed, queued}
use orientation_enrollment_p.Storage.Db.{Db, Env, update_where}
use orientation_enrollment_p.Base.Text.{codes}
use orientation_enrollment_p.Domain.Audit.{job_failed, number, failure}
use orientation_enrollment_p.Storage.Transactions.Views.{recorded-Keeps}
use orientation_enrollment_p.Storage.Jobs.{
  claim_next_job, mark_job_retry, mark_job_permanently_failed, held, released,
}
use orientation_enrollment_p.Storage.Jobs.Leases.{claim_next_job-err, finish_job-ok}
use orientation_enrollment_p.Worker.{
  Config, Handlers, Outcome, Handler, handler_of, handle, handle_claimed, registered_kinds,
  none_registered, interrupted, complete, run_once, joining, retire, unhandled,
  record_permanent_failure,
}

unhandled-picked :
    (job : Job) (env : Env) (r : Result (Unit {0}) × Db) → (unhandled job env r).0.0 ≡ true
unhandled-picked job env (ok u, db) = refl
unhandled-picked job env (err e, db) = refl

retire-picked :
    (job : Job) (cause : Error) (env : Env) (r : Result (Unit {0}) × Db)
    → (retire job cause env r).0.0 ≡ true
retire-picked job cause env (ok u, db) = refl
retire-picked job cause env (err e, db) = refl

complete-picked :
    (cfg : Config) (job : Job) (env release : Env) (r : Result (Unit {0}) × Db)
    → (complete cfg job env release r).0.0 ≡ true
unfolding complete
complete-picked cfg job env release (ok u, db) = refl
complete-picked cfg job env release (err e, db) =
    ground (arith, retire-picked job e env (mark_job_permanently_failed job.id env.now env db))

handle-picked :
    (cfg : Config) (h : Option Handler) (job : Job) (env release : Env) (db : Db)
    → (handle cfg h job env release db).0.0 ≡ true
handle-picked cfg none job env release db =
    unhandled-picked job env (mark_job_permanently_failed job.id env.now env db)
handle-picked cfg (some handler) job env release db =
    complete-picked cfg job env release (handler job env db)

handle_claimed-idle :
    (cfg : Config) (handlers : Handlers) (env release : Env) (r : Result Job × Db)
    → (handle_claimed cfg handlers env release r).0.0 ≡ false
    → ((e : Error) × (r.0 ≡ err e)) × ((handle_claimed cfg handlers env release r).1 ≡ r.1)
handle_claimed-idle cfg handlers env release (ok job, db) h =
    absurd (ground (arith, handle-picked cfg (handler_of handlers job.kind) job env release db))
handle_claimed-idle cfg handlers env release (err e, db) h = ((e, refl), ground arith)

-- A step of the worker that picks up no job leaves every table as it was, whatever it answers.
pub run_once_idle :
    (cfg : Config) (handlers : Handlers) (context_error : Option Error) (env release : Env)
    (db : Db)
    → (run_once cfg handlers context_error env release db).0.0 ≡ false
    → (run_once cfg handlers context_error env release db).1 ≡ db
unfolding run_once
run_once_idle cfg handlers context_error env release db h =
    elim (Bool-cases (none_registered (registered_kinds handlers))) [
      | inl nothing ↦ rw (nothing, run_once) refl
      | inr something ↦ elim (Option-cases context_error) [
        | inr (e, stopped) ↦ rw (something, stopped, run_once) refl
        | inl running ↦
            let r = claim_next_job (registered_kinds handlers) cfg.worker_id env.now env db in
            let ((e, failed), same) =
              handle_claimed-idle cfg handlers env release r (ground arith) in
            let claimed_none =
              claim_next_job-err (registered_kinds handlers) cfg.worker_id env.now env db r.1
                {e = e} (ap (λ x. (x, r.1)) failed) in
            rw (something, running, run_once) (same ∙ claimed_none)
      ]
    ]

-- The record of a failure leaves the queue alone.
pub recorded_failure-jobs :
    (job : Job) (env : Env) (db : Db) → (record_permanent_failure job env db).1.jobs ≡ db.jobs
unfolding record_permanent_failure
recorded_failure-jobs job env db =
    recorded-Keeps (λ d. d.jobs) (λ e d. refl) none job_failed (codes "job") (number job.id) failure
      env db

pub retire-jobs :
    (job : Job) (cause : Error) (env : Env) (r : Result (Unit {0}) × Db)
    → (retire job cause env r).1.jobs ≡ r.1.jobs
retire-jobs job cause env (err e, db) = refl
retire-jobs job cause env (ok u, db) = recorded_failure-jobs job env db

retire-marked :
    (job : Job) (cause : Error) (env : Env) (r : Result (Unit {0}) × Db)
    → (retire job cause env r).0.1 ≡ none
    → r.0 ≡ ok tt
retire-marked job cause env (err e, db) h = absurd (ground arith)
retire-marked job cause env (ok u, db) h = refl

pub complete-spent :
    (cfg : Config) (job : Job) (env release : Env) (e : Error) (db : Db)
    → interrupted e ≡ false
    → budget_exhausted job ≡ true
    → complete cfg job env release (err e, db)
      ≡ retire job e env (mark_job_permanently_failed job.id env.now env db)
unfolding complete
complete-spent cfg job env release e db other spent = rw (other, spent) refl

abbrev pub retried : Job → Error → Time → Env → Db → Outcome × Db
retried job e run_after env db =
    let (r, after) = mark_job_retry job.id run_after env.now env db in
    ((true, joining e r none), after)

pub complete-left :
    (cfg : Config) (job : Job) (env release : Env) (e : Error) (db : Db)
    → interrupted e ≡ false
    → budget_exhausted job ≡ false
    → complete cfg job env release (err e, db)
      ≡ retried job e (env.now + backoff job.attempts cfg.backoff_base cfg.backoff_max) env db
unfolding complete
complete-left cfg job env release e db other left = rw (other, left) refl

joining-none : (e : Error) (r : Result (Unit {0})) → joining e r none ≡ none → r ≡ ok tt
joining-none e (ok u) h = refl
joining-none e (err f) h = absurd (ground arith)

retry_jobs :
    (job : Job) (e : Error) (run_after : Time) (env : Env) (db : Db)
    → (retried job e run_after env db).0.1 ≡ none
    → (retried job e run_after env db).1.jobs
      ≡ update_where
          (held job.id)
          (λ j. record (released true queued env.now j) { run_after = run_after })
          db.jobs
unfolding mark_job_retry
retry_jobs job e run_after env db h =
    let m = mark_job_retry job.id run_after env.now env db in
    ap (λ d. d.jobs)
      (finish_job-ok job.id (λ j. record (released true queued env.now j) { run_after = run_after })
        env db m.1 (ap (λ r. (r, m.1)) (joining-none e m.0 h))).0

-- How a failed attempt ends in the queue, for an error that is not the context's and where the step
-- itself reports no error: with the retry budget spent every running row of the job is retired for
-- good, and otherwise it waits for the backoff of its attempts.
pub complete_failed :
    (cfg : Config) (job : Job) (env release : Env) (e : Error) (db : Db)
    → interrupted e ≡ false
    → (complete cfg job env release (err e, db)).0.1 ≡ none
    → ((budget_exhausted job ≡ true)
        × ((complete cfg job env release (err e, db)).1.jobs
            ≡ update_where (held job.id) (released true permanently_failed env.now) db.jobs))
      ⊎ ((budget_exhausted job ≡ false)
          × ((complete cfg job env release (err e, db)).1.jobs
              ≡ update_where
                  (held job.id)
                  (λ j. record (released true queued env.now j) {
                    run_after = env.now + backoff job.attempts cfg.backoff_base cfg.backoff_max;
                  })
                  db.jobs))
unfolding mark_job_permanently_failed
complete_failed cfg job env release e db other stored = elim (Bool-cases (budget_exhausted job)) [
  | inl spent ↦
      let m = mark_job_permanently_failed job.id env.now env db in
      let taken = complete-spent cfg job env release e db other spent in
      let marked = retire-marked job e env m (ap (λ p. p.0.1) (sym taken) ∙ stored) in
      let jobs = retire-jobs job e env m in
      let (closed, some_held) =
        finish_job-ok job.id (released true permanently_failed env.now) env db m.1
          (ap (λ r. (r, m.1)) marked) in
      inl (spent, ap (λ p. p.1.jobs) taken ∙ jobs ∙ ap (λ d. d.jobs) closed)
  | inr left ↦
      let taken = complete-left cfg job env release e db other left in
      inr (
        left,
        ap (λ p. p.1.jobs) taken
            ∙ retry_jobs job e (env.now + backoff job.attempts cfg.backoff_base cfg.backoff_max) env
                db (ap (λ p. p.0.1) (sym taken) ∙ stored),
      )
]
