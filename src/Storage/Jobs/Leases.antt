-- ===== src/Storage/Jobs/Leases.antt =====
-- Who holds a job, and for how long.
use mathlib.Core.List.{Memᴰ}
use orientation_enrollment_p.Base.{
  ℕ, true, false, ◌≡◌, ◌≢◌, ◌==◌, ◌⊎◌, inl, inr, Option-cases, arith, List, [], ◌∷◌, keep, first_of,
  count,
}
use orientation_enrollment_p.Base.Text.{Text}
use orientation_enrollment_p.Base.Time.{Time}
use orientation_enrollment_p.Base.Sort.{order_by}
use orientation_enrollment_p.Base.Sort.First.{keep-Mem, order_by-first}
use orientation_enrollment_p.Domain.Errors.{Error, ok, err}
use orientation_enrollment_p.Domain.Job.{Job, JobKind, queued, succeeded}
use orientation_enrollment_p.Storage.Db.{Db, Env}
use orientation_enrollment_p.Storage.Rows.{count-update_where_self}
use orientation_enrollment_p.Storage.Jobs.{
  due_le, ready, leased, claim_next_job, held, finish_job, released, update_jobs,
  mark_job_succeeded, mark_job_retry,
}

-- The lease of one waiting job that is due: its row is running, and its attempts are one more.
pub record Leased (kinds : List JobKind) (worker_id : Text) (now : Time) (db after : Db) (j : Job)
    : Type 0 where
  pub row : Job
  pub stored : Memᴰ row db.jobs
  pub due : ready kinds now row ≡ true
  pub job : j ≡ leased worker_id now row
  pub jobs : after ≡ update_jobs (λ k. k.id == row.id) (leased worker_id now) db

-- A claimed job was waiting in the queue, due, and of a requested kind; the call leases exactly that
-- job to the worker, and counts the attempt.
pub claim_next_job-Leased :
    (kinds : List JobKind) (worker_id : Text) (now : Time) (env : Env) (db after : Db) {j : Job}
    → claim_next_job kinds worker_id now env db ≡ (ok j, after)
    → Leased kinds worker_id now db after j
unfolding claim_next_job
claim_next_job-Leased [] worker_id now env db after {j} h = absurd (ground arith)
claim_next_job-Leased (kind ∷ others) worker_id now env db after {j} h =
    let kinds = kind ∷ others in
    let rows = keep (ready kinds now) db.jobs in
    elim (Option-cases (first_of (order_by due_le rows))) [
      | inl empty ↦ absurd (ground arith)
      | inr (row, first) ↦
          let (here, least) =
            order_by-first due_le (λ k. 0) (λ d e le. omega arith) (λ d e le. omega arith) rows
              {f = row} first in
          let (stored, due) = keep-Mem (ready kinds now) db.jobs here in
          record { row = row; stored = stored; due = due; job = ground arith; jobs = ground arith }
    ]

-- A call that claims nothing writes nothing.
pub claim_next_job-err :
    (kinds : List JobKind) (worker_id : Text) (now : Time) (env : Env) (db after : Db) {e : Error}
    → claim_next_job kinds worker_id now env db ≡ (err e, after)
    → after ≡ db
unfolding claim_next_job
claim_next_job-err [] worker_id now env db after {e} h = ground arith
claim_next_job-err (kind ∷ others) worker_id now env db after {e} h = ground arith

pub finish_job-ok :
    (id : ℕ) (change : Job → Job) (env : Env) (db after : Db) {u : Unit {0}}
    → finish_job id change env db ≡ (ok u, after)
    → (after ≡ update_jobs (held id) change db) × (count (held id) db.jobs ≢ 0)
unfolding finish_job
finish_job-ok id change env db after h = ground arith

-- Whatever it answers, the call has changed the running rows of the key, or nothing.
pub finish_job_cases :
    (id : ℕ) (change : Job → Job) (env : Env) (db : Db)
    → ((finish_job id change env db).1 ≡ db)
      ⊎ ((finish_job id change env db).1 ≡ update_jobs (held id) change db)
unfolding finish_job
finish_job_cases id change env db = elim (Option-cases (env.fault "update job" db)) [
  | inl fine ↦ inr (ground arith)
  | inr (f, failed) ↦ inl (ground arith)
]

-- An attempt is closed once: after a worker has marked its job succeeded, nobody can close or
-- reschedule the job again, since no row of that key is running any more.
pub mark_job_succeeded-once :
    (id : ℕ) (at later next_run : Time) (env other : Env) (db after final : Db) {u v : Unit {0}}
    → mark_job_succeeded id at env db ≡ (ok u, after)
    → mark_job_retry id next_run later other after ≢ (ok v, final)
unfolding mark_job_succeeded mark_job_retry
mark_job_succeeded-once id at later next_run env other db after final h k =
    let (closed, some_held) = finish_job-ok id (released false succeeded at) env db after h in
    let (retried, still_held) =
      finish_job-ok id (λ j. record (released true queued later j) { run_after = next_run }) other
        after final k in
    still_held (
      rw closed (
        count-update_where_self (held id) (released false succeeded at) db.jobs
          (λ j e. ground arith)))
