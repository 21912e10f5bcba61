-- ===== src/Worker/Budgets.antt =====
-- The retry budget of the queue: how many attempts the worker can still make.
use orientation_enrollment_p.Base.{
  ℕ, suc, Bool, true, false, ◌≡◌, refl, inl, inr, ◌+◌, ◌-◌, ◌≤◌, ◌<◌, ◌==◌, arith, Option, none,
  some, List, count, find, if◌then◌else◌, Bool-cases,
}
use mathlib.Core.Option
use orientation_enrollment_p.Base.{subst}
use orientation_enrollment_p.Worker.{handle, unhandled}
use orientation_enrollment_p.Storage.Rows.{find-update_where}
use orientation_enrollment_p.Base.Time.{Time}
use orientation_enrollment_p.Worker.Attempts.{
  retire-jobs, recorded_failure-jobs, retried, complete-spent, complete-left,
}
use orientation_enrollment_p.Base.Text.{Text}
use orientation_enrollment_p.Domain.Errors.{Error, Result, ok, err}
use orientation_enrollment_p.Domain.Job.{
  Job, state_eq, queued, succeeded, permanently_failed, max_job_attempts, budget_exhausted, backoff,
}
use orientation_enrollment_p.Storage.Db.{Db, Env, update_where}
use orientation_enrollment_p.Storage.Jobs.{
  held, leased, released, finish_job, mark_job_succeeded, mark_job_retry,
  mark_job_permanently_failed,
}
use orientation_enrollment_p.Storage.Jobs.Leases.{finish_job_cases}
use mathlib.Core.List.{Memᴰ}
use orientation_enrollment_p.Base.{==_refl, ap, sym, ◌∙◌}
use orientation_enrollment_p.Base.Sort.First.{find-Mem}
use orientation_enrollment_p.Storage.Rows.Keys.{count-update_where_same}
use orientation_enrollment_p.Storage.Rows.Totals.{total, total-update_where_one}
use orientation_enrollment_p.Worker.{Config, Handler, interrupted, complete}

abbrev pub retry_limit : Job → ℕ
retry_limit j = if j.max_attempts == 0 then max_job_attempts else j.max_attempts

-- The attempts that a waiting job can still be given: one, and the rest of its budget.
abbrev pub chances : Job → ℕ
chances j = if state_eq j.state queued then suc (retry_limit j - j.attempts) else 0

-- No two jobs share a key.
abbrev pub Keyed : List Job → Type 0
Keyed jobs = (id : ℕ) → count (λ j. j.id == id) jobs ≤ 1

-- How a statement leaves the queue after an attempt of a job: as it is, or with the running rows of
-- that key changed so that the budget is not exceeded.
pub data Closing (job : Job) (before after : List Job) : Type 0 where
  untouched : after ≡ before → Closing job before after
  closed :
      (change : Job → Job)
      → ((j : Job) → (change j).id ≡ j.id)
      → chances (change job) ≤ suc (retry_limit job) - job.attempts
      → after ≡ update_where (held job.id) change before
      → Closing job before after

-- A claim takes the chances of its row out of the sum.
claimed_total :
    (worker_id : Text) (now : ℕ) (row : Job) (jobs : List Job)
    → Keyed jobs
    → Memᴰ row jobs
    → total chances (update_where (λ j. j.id == row.id) (leased worker_id now) jobs) + chances row
      ≡ total chances jobs
claimed_total worker_id now row jobs keyed here =
    let key = λ (j : Job). j.id == row.id in
    let found = find-Mem key jobs here (==_refl row.id) (keyed row.id) in
    let moved =
      total-update_where_one chances key key (leased worker_id now) jobs {x = row} (λ r h. h)
        (keyed row.id) found (==_refl row.id) in
    omega (arith, moved)

Keyed-update_where :
    (test : Job → Bool) (change : Job → Job) (jobs : List Job)
    → ((j : Job) → (change j).id ≡ j.id)
    → Keyed jobs
    → Keyed (update_where test change jobs)
Keyed-update_where test change jobs same keyed id =
    let kept =
      count-update_where_same test (λ j. j.id == id) change jobs
        (λ j. ap (λ (n : ℕ). n == id) (same j)) in
    omega (arith, kept, keyed id)

finish_job-Closing :
    (job : Job) (change : Job → Job) (env : Env) (db : Db)
    → ((j : Job) → (change j).id ≡ j.id)
    → chances (change job) ≤ suc (retry_limit job) - job.attempts
    → Closing job db.jobs (finish_job job.id change env db).1.jobs
finish_job-Closing job change env db same enough = elim (finish_job_cases job.id change env db) [
  | inl e ↦ untouched (ap (λ d. d.jobs) e)
  | inr e ↦ closed change same enough (ap (λ d. d.jobs) e)
]

retired-Closing :
    (job : Job) (env : Env) (db : Db)
    → Closing job db.jobs (mark_job_permanently_failed job.id env.now env db).1.jobs
unfolding mark_job_permanently_failed
retired-Closing job env db =
    finish_job-Closing job (released true permanently_failed env.now) env db (λ j. refl)
      (omega arith)

retried-Closing :
    (job : Job) (e : Error) (run_after : Time) (env : Env) (db : Db)
    → budget_exhausted job ≡ false
    → Closing job db.jobs (retried job e run_after env db).1.jobs
unfolding mark_job_retry budget_exhausted
retried-Closing job e run_after env db left =
    finish_job-Closing job (λ j. record (released true queued env.now j) { run_after = run_after })
      env db (λ j. refl) (ground arith)

complete-Closing :
    (cfg : Config) (job : Job) (env release : Env) (r : Result (Unit {0}) × Db)
    → ((e : Error) → r.0 ≡ err e → interrupted e ≡ false)
    → Closing job r.1.jobs (complete cfg job env release r).1.jobs
unfolding complete mark_job_succeeded
complete-Closing cfg job env release (ok u, db) other =
    finish_job-Closing job (released false succeeded env.now) env db (λ j. refl) (omega arith)
complete-Closing cfg job env release (err e, db) other = elim (Bool-cases (budget_exhausted job)) [
  | inl spent ↦
      let m = mark_job_permanently_failed job.id env.now env db in
      let taken = complete-spent cfg job env release e db (other e refl) spent in
      let jobs : (complete cfg job env release (err e, db)).1.jobs ≡ m.1.jobs =
        ap (λ p. p.1.jobs) taken ∙ retire-jobs job e env m in
      subst (λ js. Closing job db.jobs js) (sym jobs) (retired-Closing job env db)
  | inr left ↦
      let run_after = env.now + backoff job.attempts cfg.backoff_base cfg.backoff_max in
      let taken = complete-left cfg job env release e db (other e refl) left in
      subst (λ js. Closing job db.jobs js) (sym (ap (λ p. p.1.jobs) taken))
        (retried-Closing job e run_after env db left)
]

-- A claim and the closing of its attempt leave fewer chances than there were.
pub Closing-total :
    (worker_id : Text) (now : Time) (row : Job) (jobs after : List Job)
    → Keyed jobs
    → Memᴰ row jobs
    → state_eq row.state queued ≡ true
    → Closing
        (leased worker_id now row)
        (update_where (λ j. j.id == row.id) (leased worker_id now) jobs)
        after
    → (total chances after < total chances jobs) × Keyed after
Closing-total worker_id now row jobs after keyed here waiting (untouched e) =
    let taken = claimed_total worker_id now row jobs keyed here in
    let kept =
      Keyed-update_where (λ j. j.id == row.id) (leased worker_id now) jobs (λ j. refl) keyed in
    rw e (ground arith, kept)
Closing-total worker_id now row jobs after keyed here waiting (closed change same enough e) =
    let key = λ (j : Job). j.id == row.id in
    let job = leased worker_id now row in
    let mid = update_where key (leased worker_id now) jobs in
    let taken = claimed_total worker_id now row jobs keyed here in
    let kept = Keyed-update_where key (leased worker_id now) jobs (λ j. refl) keyed in
    let found = find-Mem key jobs here (==_refl row.id) (keyed row.id) in
    let found' : find key mid ≡ some job =
      find-update_where key key (leased worker_id now) jobs (λ j. refl)
      ∙ ap (Option.map (λ r. if key r then leased worker_id now r else r)) found
      ∙ rw (==_refl row.id) refl in
    let moved =
      total-update_where_one chances key (held job.id) change mid {x = job} (λ r h. ground arith)
        (kept row.id) found' (rw (==_refl row.id) refl) in
    rw e (ground arith, Keyed-update_where (held job.id) change mid same kept)

unhandled-jobs :
    (job : Job) (env : Env) (r : Result (Unit {0}) × Db) → (unhandled job env r).1.jobs ≡ r.1.jobs
unhandled-jobs job env (err e, db) = refl
unhandled-jobs job env (ok u, db) = recorded_failure-jobs job env db

pub handle-Closing :
    (cfg : Config) (h : Option Handler) (job : Job) (env release : Env) (db : Db)
    → ((handler : Handler)
        → h ≡ some handler
        → ((handler job env db).1.jobs ≡ db.jobs)
          × ((e : Error) → (handler job env db).0 ≡ err e → interrupted e ≡ false))
    → Closing job db.jobs (handle cfg h job env release db).1.jobs
handle-Closing cfg none job env release db quiet =
    let m = mark_job_permanently_failed job.id env.now env db in
    subst (λ js. Closing job db.jobs js) (sym (unhandled-jobs job env m))
      (retired-Closing job env db)
handle-Closing cfg (some handler) job env release db quiet =
    let (same, other) = quiet handler refl in
    subst (λ js. Closing job js (handle cfg (some handler) job env release db).1.jobs) same
      (complete-Closing cfg job env release (handler job env db) other)
