-- ===== src/Worker/Runs.antt =====
-- Runs of the worker: the steps that its loop takes one after the other.
use orientation_enrollment_p.Base.{ℕ, suc, true, false, ◌≡◌, Option, none, some}
use orientation_enrollment_p.Domain.Errors.{Error, Result, ok, err}
use orientation_enrollment_p.Domain.Job.{Job}
use orientation_enrollment_p.Storage.Db.{Db, Env}
use orientation_enrollment_p.Storage.Jobs.{claim_next_job}
use orientation_enrollment_p.Worker.{
  Config, Handler, Handlers, interrupted, handler_of, registered_kinds, run_once,
}

-- A run of steps, and how many of them picked up a job. Each step has its own world, and its own
-- context; nothing else writes the tables between two steps.
pub data Run (cfg : Config) (handlers : Handlers) : ℕ → Db → Db → Type 0 where
  stopped : {db : Db} → Run cfg handlers 0 db db
  worked :
      {n : ℕ} {db final : Db} (context_error : Option Error) (env release : Env)
      → (run_once cfg handlers context_error env release db).0.0 ≡ true
      → Run cfg handlers n (run_once cfg handlers context_error env release db).1 final
      → Run cfg handlers (suc n) db final
  idled :
      {n : ℕ} {db final : Db} (context_error : Option Error) (env release : Env)
      → (run_once cfg handlers context_error env release db).0.0 ≡ false
      → Run cfg handlers n (run_once cfg handlers context_error env release db).1 final
      → Run cfg handlers n db final

-- What a step relies on from the handler that it runs: it leaves the queue alone, and does not fail
-- with the context's own errors.
abbrev Held : Result (Unit {0}) → Type 0
Held (ok u) = Unit
Held (err e) = interrupted e ≡ false

abbrev Calm : Option Handler → Job → Env → Db → Type 0
Calm none job env db = Unit
Calm (some handler) job env db =
    ((handler job env db).1.jobs ≡ db.jobs) × Held (handler job env db).0

abbrev CalmClaim : Handlers → Env → Result Job × Db → Type 0
CalmClaim handlers env (ok job, db) = Calm (handler_of handlers job.kind) job env db
CalmClaim handlers env (err e, db) = Unit

-- Every handler that a run has called did so.
abbrev pub IsCalm :
    (cfg : Config) (handlers : Handlers) {n : ℕ} {db final : Db}
    → Run cfg handlers n db final
    → Type 0
IsCalm cfg handlers stopped = Unit
IsCalm cfg handlers (worked {db = db} context_error env release picked rest) =
    CalmClaim handlers env (claim_next_job (registered_kinds handlers) cfg.worker_id env.now env db)
    × IsCalm cfg handlers rest
IsCalm cfg handlers (idled context_error env release nothing rest) = IsCalm cfg handlers rest
