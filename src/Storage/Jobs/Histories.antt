-- ===== src/Storage/Jobs/Histories.antt =====
-- Histories of the queue: any operations, one after the other, each in its own world.
use mathlib.Core.List.{Memᴰ}
use orientation_enrollment_p.Base.{
  ℕ, Bool, true, false, ◌≡◌, refl, sym, ◌∙◌, ap, inl, inr, ◌≤◌, ◌==◌, arith, List, [], ◌∷◌, count,
  Option-cases,
}
use orientation_enrollment_p.Domain.Errors.{Result, ok, err}
use orientation_enrollment_p.Domain.Job.{
  Job, JobKind, JobState, queued, succeeded, permanently_failed,
}
use orientation_enrollment_p.Storage.Db.{Db, Env}
use orientation_enrollment_p.Storage.Jobs.{
  enqueue_job, update_jobs, stale, requeued, requeue_stale_jobs, claim_next_job, held, leased,
  finish_job, released, mark_job_succeeded, mark_job_retry, mark_job_permanently_failed,
}
use orientation_enrollment_p.Storage.Jobs.Leases.{
  finish_job_cases, claim_next_job-Leased, claim_next_job-err,
}
use orientation_enrollment_p.Storage.Jobs.Phases.{
  Operation, enqueue, claim, succeed, retry, fail_for_good, recover, perform, perform-Step, Phases,
  phases, Step, unchanged, added, moved, Move, waits, begins, succeeds, goes_back, gives_up,
  is_final,
}
use orientation_enrollment_p.Storage.Rows.Keys.{count-update_where_same}

-- No two jobs share a key, and the keys still to be given out are not in use.
pub record Numbered (db : Db) : Type 0 where
  pub unique : (id : ℕ) → count (λ j. j.id == id) db.jobs ≤ 1
  pub unused : (id : ℕ) → db.next_job_id ≤ id → count (λ j. j.id == id) db.jobs ≡ 0

updated-Numbered :
    (test : Job → Bool) (change : Job → Job) (db : Db)
    → ((j : Job) → (change j).id ≡ j.id)
    → Numbered db
    → Numbered (update_jobs test change db)
updated-Numbered test change db same numbered =
    let kept = λ (id : ℕ).
      count-update_where_same test (λ j. j.id == id) change db.jobs
        (λ j. ap (λ (n : ℕ). n == id) (same j)) in
    record {
      unique = λ id. omega (arith, kept id, numbered.unique id);
      unused = λ id high. kept id ∙ numbered.unused id high;
    }

finish_job-Numbered :
    (id : ℕ) (change : Job → Job) (env : Env) (db : Db)
    → ((j : Job) → (change j).id ≡ j.id)
    → Numbered db
    → Numbered (finish_job id change env db).1
finish_job-Numbered id change env db same numbered = elim (finish_job_cases id change env db) [
  | inl e ↦ rw e numbered
  | inr e ↦ rw e (updated-Numbered (held id) change db same numbered)
]

enqueue_job-Numbered :
    (j : Job) (env : Env) (db : Db) → Numbered db → Numbered (enqueue_job j env db).1
unfolding enqueue_job
enqueue_job-Numbered j env db numbered = elim (Option-cases (env.fault "insert job" db)) [
  | inl fine ↦ rw fine record {
    unique = λ id. ground (arith, numbered.unique id, numbered.unused id);
    unused = λ id high. ground (arith, numbered.unused id);
  }
  | inr (f, failed) ↦ rw failed numbered
]

requeue_stale_jobs-Numbered :
    (cutoff at : ℕ) (env : Env) (db : Db)
    → Numbered db
    → Numbered (requeue_stale_jobs cutoff at env db).1
unfolding requeue_stale_jobs
requeue_stale_jobs-Numbered cutoff at env db numbered =
    elim (Option-cases (env.fault "requeue jobs" db)) [
      | inl fine ↦ rw fine (updated-Numbered (stale cutoff) (requeued at) db (λ j. refl) numbered)
      | inr (f, failed) ↦ rw failed numbered
    ]

claimed-Numbered :
    (kinds : List JobKind) (worker_id : List ℕ) (now : ℕ) (env : Env) (db : Db)
    (r : Result Job × Db)
    → Numbered db
    → claim_next_job kinds worker_id now env db ≡ r
    → Numbered r.1
claimed-Numbered kinds worker_id now env db (err e, after) numbered h =
    rw (claim_next_job-err kinds worker_id now env db after {e = e} h) numbered
claimed-Numbered kinds worker_id now env db (ok job, after) numbered h =
    let lease = claim_next_job-Leased kinds worker_id now env db after h in
    rw lease.jobs
      (updated-Numbered (λ k. k.id == lease.row.id) (leased worker_id now) db (λ j. refl) numbered)

perform-Numbered :
    (op : Operation) (env : Env) (db : Db) → Numbered db → Numbered (perform op env db)
unfolding mark_job_succeeded mark_job_retry mark_job_permanently_failed
perform-Numbered (enqueue j) env db numbered = enqueue_job-Numbered j env db numbered
perform-Numbered (claim kinds worker_id now) env db numbered =
    claimed-Numbered kinds worker_id now env db (claim_next_job kinds worker_id now env db) numbered
      refl
perform-Numbered (succeed id at) env db numbered =
    finish_job-Numbered id (released false succeeded at) env db (λ j. refl) numbered
perform-Numbered (retry id run_after at) env db numbered =
    finish_job-Numbered id (λ j. record (released true queued at j) { run_after = run_after }) env
      db (λ j. refl) numbered
perform-Numbered (fail_for_good id at) env db numbered =
    finish_job-Numbered id (released true permanently_failed at) env db (λ j. refl) numbered
perform-Numbered (recover cutoff at) env db numbered =
    requeue_stale_jobs-Numbered cutoff at env db numbered

-- The tables after a history.
abbrev pub replay : List (Operation × Env) → Db → Db
replay [] db = db
replay ((op, env) ∷ rest) db = replay rest (perform op env db)

-- The abstract queue after any number of steps.
pub data Steps : Phases → Phases → Type 0 where
  none_taken : {ps : Phases} → Steps ps ps
  taken : {before mid after : Phases} → Step before mid → Steps mid after → Steps before after

-- The queue refines the abstract one of keys and states: whatever operations run, in any order and
-- with any outcome, the phases of the jobs go through steps of the abstract queue. The keys are
-- unique at the start, and those still to be given out are not in use.
pub replay-Steps :
    (history : List (Operation × Env)) (db : Db)
    → Numbered db
    → Steps (phases db.jobs) (phases (replay history db).jobs)
replay-Steps [] db numbered = none_taken
replay-Steps ((op, env) ∷ rest) db numbered =
    taken (perform-Step op env db numbered.unique)
      (replay-Steps rest (perform op env db) (perform-Numbered op env db numbered))

final_stays : {s t : JobState} → Move s t → is_final s ≡ true → t ≡ s
final_stays waits h = refl
final_stays begins h = absurd (ground arith)
final_stays succeeds h = absurd (ground arith)
final_stays goes_back h = absurd (ground arith)
final_stays gives_up h = absurd (ground arith)

step_keeps :
    {before after : Phases} {id : ℕ} {s : JobState}
    → Step before after
    → is_final s ≡ true
    → Memᴰ (id, s) before
    → Memᴰ (id, s) after
step_keeps unchanged h here = elim here [ ]
step_keeps (added step) h here = Memᴰ.tail (step_keeps step h here)
step_keeps (moved {id = k} move step) h (Memᴰ.head same) =
    let was = ap (λ p. is_final p.1) (sym same) ∙ h in
    Memᴰ.head (same ∙ ap (λ x. (k, x)) (sym (final_stays move was)))
step_keeps (moved move step) h (Memᴰ.tail later) = Memᴰ.tail (step_keeps step h later)

steps_keep :
    {before after : Phases} {id : ℕ} {s : JobState}
    → Steps before after
    → is_final s ≡ true
    → Memᴰ (id, s) before
    → Memᴰ (id, s) after
steps_keep none_taken h here = here
steps_keep (taken step steps) h here = steps_keep steps h (step_keeps step h here)

phases-Mem : (jobs : List Job) {j : Job} → Memᴰ j jobs → Memᴰ (j.id, j.state) (phases jobs)
phases-Mem [] here = elim here [ ]
phases-Mem (k ∷ jobs) (Memᴰ.head same) = Memᴰ.head (ap (λ i. (i.id, i.state)) same)
phases-Mem (k ∷ jobs) (Memᴰ.tail later) = Memᴰ.tail (phases-Mem jobs later)

-- A job that has succeeded or failed for good stays so: whatever operations of the queue run after
-- it, in any order and with any outcome, its key is there with the same state. The keys are unique
-- at the start, and those still to be given out are not in use.
pub replay-final :
    (history : List (Operation × Env)) (db : Db) (j : Job)
    → Numbered db
    → Memᴰ j db.jobs
    → is_final j.state ≡ true
    → Memᴰ (j.id, j.state) (phases (replay history db).jobs)
replay-final history db j numbered here h =
    steps_keep (replay-Steps history db numbered) h (phases-Mem db.jobs here)
