-- ===== src/Worker/Failures.antt =====
-- Where a failed attempt leaves its job.
use mathlib.Core.Option
use orientation_enrollment_p.Base.{
  ℕ, true, false, ◌≡◌, refl, ◌∙◌, ap, inl, inr, ◌⊎◌, ◌+◌, ◌≤◌, ◌<◌, ◌==◌, arith, none, some, List,
  [], find, if◌then◌else◌, then_taken,
}
use orientation_enrollment_p.Domain.Errors.{Error, err}
use orientation_enrollment_p.Domain.Job.{
  Job, budget_exhausted, backoff, permanently_failed, queued, running, exact_below,
}
use orientation_enrollment_p.Domain.Job.Schedule.{backoff_bounds}
use orientation_enrollment_p.Storage.Db.{Db, Env, update_where}
use orientation_enrollment_p.Storage.Jobs.{held, released}
use orientation_enrollment_p.Storage.Rows.{find-update_where}
use orientation_enrollment_p.Storage.Rows.Keys.{find-passes}
use orientation_enrollment_p.Worker.{Config, interrupted, complete}
use orientation_enrollment_p.Worker.Attempts.{complete_failed}
use orientation_enrollment_p.Worker.Budgets.{retry_limit}

-- A row after its attempt: nobody holds it, and what it was asked to do and how often it ran is kept.
pub record Closed (row k : Job) : Type 0 where
  pub unlocked : (k.locked_at ≡ none) × (k.locked_by ≡ [])
  pub failed : k.failed_before ≡ true
  pub work : (k.id ≡ row.id) × (k.kind ≡ row.kind) × (k.payload ≡ row.payload)
  pub attempts : (k.attempts ≡ row.attempts) × (k.max_attempts ≡ row.max_attempts)

spent_budget : (job : Job) → budget_exhausted job ≡ true → retry_limit job ≤ job.attempts
unfolding budget_exhausted
spent_budget job h = ground arith

left_budget : (job : Job) → budget_exhausted job ≡ false → job.attempts < retry_limit job
unfolding budget_exhausted
left_budget job h = ground arith

changed_row :
    (id : ℕ) (change : Job → Job) (before after : List Job) (row : Job)
    → ((j : Job) → (change j).id ≡ j.id)
    → find (λ j. j.id == id) before ≡ some row
    → row.state ≡ running
    → after ≡ update_where (held id) change before
    → find (λ j. j.id == id) after ≡ some (change row)
changed_row id change before after row same found runs rows =
    let key = λ (j : Job). j.id == id in
    let here = find-passes key before {x = row} found in
    let holds : held id row ≡ true = rw (here, runs) refl in
    ap (find key) rows
    ∙ find-update_where key (held id) change before (λ j. ap (λ (n : ℕ). n == id) (same j))
    ∙ ap (Option.map (λ j. if held id j then change j else j)) found
    ∙ ap some (then_taken (held id row) (change row) row holds)

-- A failed attempt of a running job, for an error that is not the context's and where the step itself
-- reports no error, unlocks the job and notes the failure. It is retired for good when it has been
-- attempted as often as its retry limit allows, and not before; otherwise it waits from now on for at
-- least the base and at most the maximum of the worker's backoff, where these are in order and below
-- 2^53 nanoseconds.
pub complete-Closed :
    (cfg : Config) (job row : Job) (env release : Env) (e : Error) (db : Db)
    → interrupted e ≡ false
    → (complete cfg job env release (err e, db)).0.1 ≡ none
    → find (λ j. j.id == job.id) db.jobs ≡ some row
    → row.state ≡ running
    → 1 ≤ cfg.backoff_base
    → cfg.backoff_base ≤ cfg.backoff_max
    → cfg.backoff_max < exact_below
    → (k : Job) × (find (λ j. j.id == job.id) (complete cfg job env release (err e, db)).1.jobs
        ≡ some k)
      × Closed row k
      × (((retry_limit job ≤ job.attempts) × (k.state ≡ permanently_failed))
          ⊎ ((job.attempts < retry_limit job)
              × (k.state ≡ queued)
              × (env.now + cfg.backoff_base ≤ k.run_after)
              × (k.run_after ≤ env.now + cfg.backoff_max)))
complete-Closed cfg job row env release e db other stored found runs base max exact =
    let after = (complete cfg job env release (err e, db)).1.jobs in
    elim (complete_failed cfg job env release e db other stored) [
      | inl (spent, rows) ↦
          let change = released true permanently_failed env.now in
          (
            change row,
            changed_row job.id change db.jobs after row (λ j. refl) found runs rows,
            record {
              unlocked = (refl, refl);
              failed = refl;
              work = (refl, refl, refl);
              attempts = (refl, refl);
            },
            inl (spent_budget job spent, refl),
          )
      | inr (left, rows) ↦
          let delay = backoff job.attempts cfg.backoff_base cfg.backoff_max in
          let change : Job → Job =
            λ j. record (released true queued env.now j) { run_after = env.now + delay } in
          let (low, high) =
            backoff_bounds job.attempts cfg.backoff_base cfg.backoff_max base max exact in
          (
            change row,
            changed_row job.id change db.jobs after row (λ j. refl) found runs rows,
            record {
              unlocked = (refl, refl);
              failed = refl;
              work = (refl, refl, refl);
              attempts = (refl, refl);
            },
            inr (left_budget job left, refl, omega (arith, low), omega (arith, high)),
          )
    ]
