-- ===== src/Storage/Jobs/Recovery.antt =====
-- The recovery of jobs whose worker has gone.
use mathlib.Core.Option
use orientation_enrollment_p.Base.{
  ℕ, true, false, ◌≡◌, refl, ◌∙◌, ap, inl, inr, ◌⊎◌, ◌/◌, ◌≤◌, ◌==◌, arith, Option, none, some, [],
  find, count, if◌then◌else◌, Bool-cases, Option-cases, then_taken, else_taken,
}
use orientation_enrollment_p.Base.Time.{Time, second}
use orientation_enrollment_p.Domain.Errors.{ok}
use orientation_enrollment_p.Domain.Job.{Job, queued, running}
use orientation_enrollment_p.Storage.Db.{Db, Env, update_where}
use orientation_enrollment_p.Storage.Jobs.{stale, requeued, requeue_stale_jobs}
use orientation_enrollment_p.Storage.Jobs.Phases.{state_eq-true}
use orientation_enrollment_p.Storage.Rows.{find-update_where}
use orientation_enrollment_p.Storage.Timestamps.Order.{stored_le-seconds, stored_le-later}

-- The lock is missing, or not of a later second than the cutoff.
abbrev pub Old : Time → Option Time → Type 0
Old cutoff none = Unit
Old cutoff (some t) = t / second ≤ cutoff / second

-- There is a lock, and it is not of an earlier second than the cutoff.
abbrev pub Recent : Time → Option Time → Type 0
Recent cutoff none = ⊥
Recent cutoff (some t) = cutoff / second ≤ t / second

-- A running job that went back to the queue, its attempts counted as before.
pub record Released (cutoff at : Time) (j k : Job) : Type 0 where
  pub ran : j.state ≡ running
  pub old : Old cutoff j.locked_at
  pub waits : k.state ≡ queued
  pub unlocked : (k.locked_at ≡ none) × (k.locked_by ≡ [])
  pub due : k.run_after ≡ at
  pub work : (k.id ≡ j.id) × (k.kind ≡ j.kind) × (k.payload ≡ j.payload)
  pub attempts : (k.attempts ≡ j.attempts) × (k.max_attempts ≡ j.max_attempts)

stale-Old : (cutoff : Time) (j : Job) → stale cutoff j ≡ true → Old cutoff j.locked_at
stale-Old cutoff j h = elim (Option-cases j.locked_at) [
  | inl e ↦ rw e tt
  | inr (t, e) ↦ rw e (stored_le-seconds t cutoff (ground arith))
]

not_stale-Recent :
    (cutoff : Time) (j : Job)
    → j.state ≡ running
    → stale cutoff j ≡ false
    → Recent cutoff j.locked_at
not_stale-Recent cutoff j ran h = elim (Option-cases j.locked_at) [
  | inl e ↦ absurd (ground arith)
  | inr (t, e) ↦ rw e (stored_le-later t cutoff (ground arith))
]

-- What a recovery does to each job: it goes back to the queue, which only a running job does whose
-- lock is missing or not of a later second than the cutoff; or it stays as it was, and if it is
-- running, its lock is not of an earlier second than the cutoff. The answer is the number of jobs
-- that match the statement.
pub requeue_stale_jobs-Released :
    (cutoff at : Time) (env : Env) (db after : Db) {n : ℕ} (id : ℕ) (j : Job)
    → requeue_stale_jobs cutoff at env db ≡ (ok n, after)
    → find (λ k. k.id == id) db.jobs ≡ some j
    → (n ≡ count (stale cutoff) db.jobs)
      × ((k : Job) × (find (λ i. i.id == id) after.jobs ≡ some k)
          × (Released cutoff at j k ⊎ ((k ≡ j) × (j.state ≡ running → Recent cutoff j.locked_at))))
unfolding requeue_stale_jobs
requeue_stale_jobs-Released cutoff at env db after {n} id j h known =
    let rows : after.jobs ≡ update_where (stale cutoff) (requeued at) db.jobs = ground arith in
    let found =
      ap (find (λ i. i.id == id)) rows
      ∙ find-update_where (λ i. i.id == id) (stale cutoff) (requeued at) db.jobs (λ i. refl)
      ∙ ap (Option.map (λ i. if stale cutoff i then requeued at i else i)) known in
    (
      ground arith,
      elim (Bool-cases (stale cutoff j)) [
        | inl e ↦ (
          requeued at j,
          found ∙ ap some (then_taken (stale cutoff j) (requeued at j) j e),
          inl record {
            ran = state_eq-true j.state running (ground arith);
            old = stale-Old cutoff j e;
            waits = refl;
            unlocked = (refl, refl);
            due = refl;
            work = (refl, refl, refl);
            attempts = (refl, refl);
          },
        )
        | inr e ↦ (
          j,
          found ∙ ap some (else_taken (stale cutoff j) (requeued at j) j e),
          inr (refl, λ ran. not_stale-Recent cutoff j ran e),
        )
      ],
    )
